-- ===== src/Postgres/Moderation.antt =====
-- Moderation in the PostgreSQL store (postgres/moderation.go): the number of pending auctions, their
-- approval and their rejection.
use auction_server.Prelude.{
  ℕ, Bool, false, ◌&&◌, [], ◌∷◌, keep, length, Option, none, some, is_nil, if◌then◌else◌,
}
use auction_server.Prelude.Int.{ℤ, pos}
use auction_server.Prelude.Text.{Text, trim_space}
use auction_server.Domain.{Auction, moderation_eq, active, approved, pending, rejected}
use auction_server.Postgres.{
  AuctionRow, Database, greatest, has_id, select_row, sql_add, sql_sub, try_update_rows,
  update_rows,
}
use auction_server.Postgres.Scan.{scan_auction_row}

unfoldable pub is_pending : AuctionRow → Bool
is_pending a = moderation_eq a.moderation_status pending

-- `CountModerationPending`
unfoldable pub count_moderation_pending : Database → ℕ
unfolding is_pending
count_moderation_pending db = length (keep is_pending db.auctions)

-- `WHERE id = $1 AND moderation_status = 'PENDING'`
unfoldable pub is_pending_id : Text → AuctionRow → Bool
unfolding has_id is_pending
is_pending_id id a = has_id id a && is_pending a

-- `$2 + GREATEST(expires_at_ms - created_at_ms, 3600000)`
unfoldable pub restarted_expiry : ℤ → AuctionRow → Option ℤ
unfolding sql_add sql_sub greatest
restarted_expiry now a = elim (sql_sub a.expires_at_ms a.created_at_ms) [
  | none ↦ none
  | some length ↦ sql_add now (greatest length (pos 3600000))
]

unfoldable pub approve : ℤ → AuctionRow → Option AuctionRow
unfolding restarted_expiry
approve now a = elim (restarted_expiry now a) [
  | none ↦ none
  | some at ↦ some (record a {
    moderation_status = approved;
    moderation_reason = [];
    moderated_at_ms = some now;
    created_at_ms = now;
    bumped_at_ms = now;
    status = active;
    ended_at_ms = none;
    expires_at_ms = at;
  })
]

-- `RETURNING …` of an update whose clause held of the first of these rows.
unfoldable pub returned : Option AuctionRow → Option Auction
unfolding scan_auction_row
returned none = none
returned (some a) = some (scan_auction_row a)

-- `ApproveModeration`
unfoldable pub approve_moderation : ℤ → Text → Database → Option Auction × Database
unfolding is_pending_id approve returned select_row try_update_rows
approve_moderation now id db = elim (try_update_rows (is_pending_id id) (approve now) db.auctions) [
  | none ↦ (none, db)
  | some rows ↦ elim (select_row (is_pending_id id) db.auctions) [
    | none ↦ (none, record db { auctions = rows })
    | some a ↦ (returned (approve now a), record db { auctions = rows })
  ]
]

-- The reason where none is given (Persian for "does not follow the rules of the auction.").
unfoldable pub default_reason : Text
default_reason =
    0x645 ∷ 0x637 ∷ 0x627 ∷ 0x628 ∷ 0x642 ∷ 0x20 ∷ 0x642 ∷ 0x648 ∷ 0x627 ∷ 0x646 ∷ 0x6cc ∷ 0x646
    ∷ 0x20 ∷ 0x62d ∷ 0x631 ∷ 0x627 ∷ 0x62c ∷ 0x20 ∷ 0x646 ∷ 0x6cc ∷ 0x633 ∷ 0x62a ∷ 0x2e ∷ []

unfoldable pub reject : ℤ → Text → AuctionRow → AuctionRow
unfolding default_reason
reject now reason a =
    let given = trim_space reason in
    record a {
      moderation_status = rejected;
      moderation_reason = if is_nil given then default_reason else given;
      moderated_at_ms = some now;
      is_featured = false;
    }

-- `RejectModeration`
unfoldable pub reject_moderation : ℤ → Text → Text → Database → Option Auction × Database
unfolding is_pending_id reject returned select_row update_rows
reject_moderation now id reason db =
    let db' : Database = record db {
      auctions = update_rows (is_pending_id id) (reject now reason) db.auctions;
    } in
    elim (select_row (is_pending_id id) db.auctions) [
      | none ↦ (none, db')
      | some a ↦ (returned (some (reject now reason a)), db')
    ]
