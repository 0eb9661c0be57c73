-- ===== src/Memory/Steps/LastBid.antt =====
-- What `LastBidAtMs` answers in the states that the calls reach (memory/auction_repository.go).
use auction_server.Prelude.{
  ℕ, ◌≡◌, ◌≢◌, false, ◌||◌, Option, none, some, arith, inl, inr, Option-cases, if◌then◌else◌, ◌∙◌,
}
use auction_server.Prelude.Int.{ℤ, pos, ◌<ℤ◌}
use auction_server.Prelude.Text.{Text, text_eq_self, trim_space, trim_space_idem, is_blank}
use auction_server.Prelude.Dict.{lookup, lookup-insert}
use auction_server.Domain.{Bid, PlaceBidInput}
use auction_server.Memory.{Repository, bids_of, finalize_expired}
use auction_server.Memory.Bidding.{
  top_bids, place_bid, store_bid, new_bid, active_auction, cooldowns_of, cooldown_entry,
  last_bid_at_ms,
}
use auction_server.Memory.Steps.{Reach}
use auction_server.Memory.Steps.Users.{Reach-HasTrimmedUsers}
use auction_server.Memory.Steps.Cooldown.{
  finalize_expired-cooldown, HasTrimmedCooldowns, cooldowns_of-store_bid, Reach-HasTrimmedCooldowns,
  latest_by-untrimmed,
}

cooldown_entry-untrimmed :
    (id user : Text) (r : Repository)
    → HasTrimmedCooldowns r
    → trim_space user ≢ user
    → cooldown_entry id user r ≡ none
unfolding cooldown_entry cooldowns_of lookup
cooldown_entry-untrimmed id user r h padded =
    elim (Option-cases (lookup user (cooldowns_of id r))) [
      | inl missing ↦ ground arith
      | inr (at, found) ↦ absurd (padded (h.trimmed id user at found))
    ]

cooldown_entry_of_lookup :
    (id user : Text) (at : ℤ) (r : Repository)
    → lookup user (cooldowns_of id r) ≡ some at
    → pos 0 <ℤ at
    → cooldown_entry id user r ≡ some at
unfolding cooldown_entry cooldowns_of lookup
cooldown_entry_of_lookup id user at r found positive = ground arith

-- In every reachable state the store reports no earlier bid, at any auction, for a user id with
-- spaces round it: the entry is kept under the trimmed id and looked up under the id as given.
pub last_bid_at_ms-untrimmed :
    {days : ℤ} {r : Repository} (id user : Text)
    → Reach days r
    → trim_space user ≢ user
    → last_bid_at_ms id user r ≡ (if is_blank id || is_blank user then none else some (pos 0))
unfolding last_bid_at_ms
last_bid_at_ms-untrimmed {r = r} id user reached padded = ground (
  arith,
  latest_by-untrimmed user (pos 0) (bids_of id r) padded (Reach-HasTrimmedUsers id reached),
  cooldown_entry-untrimmed id user r (Reach-HasTrimmedCooldowns reached) padded,
)

-- The same state of the map gives the same answer where the map has an entry.
last_bid_at_ms_of_entry :
    (id user : Text) (at : ℤ) (r : Repository)
    → is_blank id ≡ false
    → is_blank user ≡ false
    → cooldown_entry id user r ≡ some at
    → last_bid_at_ms id user r ≡ some at
unfolding last_bid_at_ms
last_bid_at_ms_of_entry id user at r has_id has_user entry = ground arith

cooldown_entry_same :
    (id user : Text) (r s : Repository)
    → s.bid_cooldown_at ≡ r.bid_cooldown_at
    → cooldown_entry id user s ≡ cooldown_entry id user r
unfolding cooldown_entry
cooldown_entry_same id user r s e = ground arith

cooldown_entry-place_bid :
    (t now : ℤ) (id : Text) (input : PlaceBidInput) (r : Repository) {b : Bid}
    → pos 0 <ℤ now
    → (place_bid t now id input r).0 ≡ some b
    → cooldown_entry id (trim_space input.user_id) (place_bid t now id input r).1 ≡ some now
unfolding place_bid new_bid
cooldown_entry-place_bid t now id input r {b = b} positive placed =
    let r' = finalize_expired t r in
    let bid = new_bid now id input in
    let user = trim_space input.user_id in
    elim (Option-cases (active_auction id r')) [
      | inl missing ↦ absurd (none_placed (rw (missing, place_bid) at placed))
      | inr (a, found) ↦
          rw (found, place_bid)
            (cooldown_entry_of_lookup id user now (store_bid bid id a r')
              (rw cooldowns_of-store_bid
                (rw (text_eq_self id) (rw lookup-insert (rw (text_eq_self user)))))
              positive)
    ]
  where
    none_placed : ◌≡◌ {A = Option Bid} none (some b) → ⊥
    none_placed e = cc

-- Once a bid is placed at a positive time, on an auction id and under a user id that are not
-- blank, and the best bids are read, the last bid of the trimmed user id has that time.
pub last_bid_at_ms-place_bid_then_top_bids :
    (t now t' : ℤ) (id : Text) (input : PlaceBidInput) (n : ℕ) (r : Repository) (b : Bid)
    → pos 0 <ℤ now
    → is_blank id ≡ false
    → is_blank input.user_id ≡ false
    → (place_bid t now id input r).0 ≡ some b
    → last_bid_at_ms id
        (trim_space input.user_id)
        (top_bids t' id n (place_bid t now id input r).1).1
      ≡ some now
unfolding top_bids
last_bid_at_ms-place_bid_then_top_bids t now t' id input n r b positive has_id has_user placed =
    let user = trim_space input.user_id in
    let s = (place_bid t now id input r).1 in
    last_bid_at_ms_of_entry id user now (finalize_expired t' s) has_id
      (rw (trim_space_idem input.user_id) has_user)
      (cooldown_entry_same id user s (finalize_expired t' s) (finalize_expired-cooldown t' s)
        ∙ cooldown_entry-place_bid t now id input r positive placed)
