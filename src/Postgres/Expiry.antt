-- ===== src/Postgres/Expiry.antt =====
-- What the expiry pass of the PostgreSQL store leaves (postgres/auction_repository.go).
use auction_server.Prelude.{◌≡◌, false, not, List, keep, All}
use auction_server.Prelude.Int.{ℤ}
use auction_server.Domain.{moderation_eq, approved}
use auction_server.Postgres.{AuctionRow, is_due}

-- The rows of auctions that the moderators have not approved.
abbrev pub unapproved : List AuctionRow → List AuctionRow
unapproved = keep (λ a. not (moderation_eq a.moderation_status approved))

-- No approved, active row is at or past its end, and the other rows are those of before.
pub record IsExpiredAt (now : ℤ) (before after : List AuctionRow) : Type 0 where
  pub none_due : All (λ a. is_due now a ≡ false) after
  pub unapproved_kept : unapproved after ≡ unapproved before
