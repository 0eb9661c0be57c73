-- ===== src/Memory/Moderation.antt =====
-- Decisions of the moderators in the in-memory store (memory/moderation.go).
use auction_server.Prelude.{
  ◌≡◌, arith, ℕ, suc, false, [], ◌∷◌, Option, none, some, is_nil, if◌then◌else◌,
}
use auction_server.Prelude.Int.{ℤ, pos, ltb_ℤ, leb_ℤ, add, sub, mul, quot}
use auction_server.Prelude.Text.{Text, trim_space}
use auction_server.Prelude.Dict.{Dict, lookup, insert}
use auction_server.Domain.{Auction, moderation_eq, pending, approved, rejected, active}
use auction_server.Memory.{Repository}

-- `countPendingLocked`
unfoldable pub count_pending : Dict Auction → ℕ
count_pending [] = 0
count_pending ((_, a) ∷ rest) =
    let n = count_pending rest in if moderation_eq a.moderation_status pending then suc n else n

-- `CountModerationPending`
unfoldable pub count_moderation_pending : Repository → ℕ
unfolding count_pending
count_moderation_pending r = count_pending r.auctions

unfoldable pub pending_auction : Text → Repository → Option Auction
pending_auction id r = elim (lookup id r.auctions) [
  | none ↦ none
  | some a ↦ if moderation_eq a.moderation_status pending then some a else none
]

-- The hours between two times, or the default of 72.
unfoldable pub approved_hours : Auction → ℤ
approved_hours a =
    let hours = quot (sub a.expires_at_ms a.created_at_ms) 3600000 in
    if ltb_ℤ a.created_at_ms a.expires_at_ms
    then (if leb_ℤ hours (pos 0) then pos 72 else hours)
    else pos 72

unfoldable pub approve : ℤ → Auction → Auction
approve now a = record a {
  moderation_status = approved;
  moderation_reason = [];
  created_at_ms = now;
  bumped_at_ms = now;
  expires_at_ms = add now (mul (mul (approved_hours a) 3600) 1000);
  status = active;
}

-- `ApproveModeration`
unfoldable pub approve_moderation : ℤ → Text → Repository → Option Auction × Repository
approve_moderation now id r = elim (pending_auction id r) [
  | none ↦ (none, r)
  | some a ↦ (some (approve now a), record r { auctions = insert id (approve now a) r.auctions })
]

-- The reason that is stored where none is given (Persian for "not according to the rules"), by its
-- code points.
unfoldable pub default_reason : Text
default_reason =
    0x645 ∷ 0x637 ∷ 0x627 ∷ 0x628 ∷ 0x642 ∷ 0x20 ∷ 0x642 ∷ 0x648 ∷ 0x627 ∷ 0x646 ∷ 0x6cc ∷ 0x646
    ∷ 0x20 ∷ 0x62d ∷ 0x631 ∷ 0x627 ∷ 0x62c ∷ 0x20 ∷ 0x646 ∷ 0x6cc ∷ 0x633 ∷ 0x62a ∷ 0x2e ∷ []

unfoldable pub reject : Text → Auction → Auction
reject reason a =
    let given = trim_space reason in
    record a {
      moderation_status = rejected;
      moderation_reason = if is_nil given then default_reason else given;
      is_featured = false;
    }

-- `RejectModeration`
unfoldable pub reject_moderation : Text → Text → Repository → Option Auction × Repository
reject_moderation id reason r = elim (pending_auction id r) [
  | none ↦ (none, r)
  | some a ↦
      (some (reject reason a), record r { auctions = insert id (reject reason a) r.auctions })
]

pub pending_found :
    (id : Text) (r : Repository) {a : Auction}
    → pending_auction id r ≡ some a
    → lookup id r.auctions ≡ some a
unfolding pending_auction
pending_found id r h = ground arith

pub pending_is_pending :
    (id : Text) (r : Repository) {a : Auction}
    → pending_auction id r ≡ some a
    → a.moderation_status ≡ pending
unfolding pending_auction
pending_is_pending id r h = ground arith
