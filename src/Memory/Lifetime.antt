-- ===== src/Memory/Lifetime.antt =====
-- Running the expiry pass again (memory/auction_repository.go, `finalizeExpiredLocked`), and how long
-- an approved auction runs (memory/moderation.go, `ApproveModeration`).
use auction_server.Prelude.{
  ℕ, ◌+◌, ◌-◌, ◌*◌, ◌/◌, ◌^◌, ◌≤◌, ◌<◌, ◌≡◌, refl, ap, ◌∙◌, List, [], ◌∷◌, Option, none, some,
  arith,
}
use auction_server.Prelude.Int.{ℤ, pos, mul, add_pos, sub_pos, quot_pos}
use auction_server.Prelude.Text.{Text, text_eq_self}
use auction_server.Prelude.Dict.{Dict, lookup, lookup-insert}
use auction_server.Domain.{Auction, Bid, CreateAuctionInput, active, approved, pending}
use auction_server.Memory.{
  Repository, bids_of, finalize_expired, finalize_entries, finalize_entry,
  refresh_auction_aggregates, is_due, is_stale, end_auction, summarised,
}
use auction_server.Memory.Expiry.{
  finalize_expired-IsExpiredAt, expired_auction, expired_bids, ended_if_due,
}
use auction_server.Memory.Owner.{new_auction, hours_ms, create_auction, auction_key}
use auction_server.Memory.Moderation.{approve, approved_hours, approve_moderation, pending_auction}
use auction_server.Memory.Steps.Keys.{IsMap, finalize_expired-IsMap}

days-finalize_entries :
    (now : ℤ) (m : Dict Auction) (r : Repository)
    → (finalize_entries now m r).delete_days_after_expiry ≡ r.delete_days_after_expiry
unfolding finalize_entries finalize_entry refresh_auction_aggregates
days-finalize_entries now [] r = refl
days-finalize_entries now ((id, a) ∷ m) r =
    ground (arith, days-finalize_entries now m (finalize_entry now id a r))

days-finalize_expired :
    (now : ℤ) (r : Repository)
    → (finalize_expired now r).delete_days_after_expiry ≡ r.delete_days_after_expiry
unfolding finalize_expired
days-finalize_expired now r = days-finalize_entries now r.auctions r

expired_auction_idem :
    (now days : ℤ) (list : List Bid) (o : Option Auction)
    → (expired_auction now days (expired_bids now days list o) (expired_auction now days list o)
        ≡ expired_auction now days list o)
      × (expired_bids now days (expired_bids now days list o) (expired_auction now days list o)
          ≡ expired_bids now days list o)
unfolding expired_auction expired_bids ended_if_due is_due is_stale end_auction summarised
expired_auction_idem now days list none = (refl, refl)
expired_auction_idem now days list (some a) = ground arith

-- In a store whose map of auctions lists each key once, running the expiry pass a second time at
-- the same time changes neither an auction nor its bids.
pub finalize_expired_idem :
    (now : ℤ) (j : Text) (r : Repository)
    → IsMap r
    → (lookup j (finalize_expired now (finalize_expired now r)).auctions
        ≡ lookup j (finalize_expired now r).auctions)
      × (bids_of j (finalize_expired now (finalize_expired now r))
          ≡ bids_of j (finalize_expired now r))
finalize_expired_idem now j r h =
    let r' = finalize_expired now r in
    let once = finalize_expired-IsExpiredAt now j r h.unique in
    let twice = finalize_expired-IsExpiredAt now j r' (finalize_expired-IsMap now r h).unique in
    let (same_auction, same_bids) =
      expired_auction_idem now r.delete_days_after_expiry (bids_of j r) (lookup j r.auctions) in
    (
      cc (
        once.auction_left,
        once.bids_left,
        twice.auction_left,
        same_auction,
        days-finalize_expired now r,
      ),
      cc (
        once.auction_left,
        once.bids_left,
        twice.bids_left,
        same_bids,
        days-finalize_expired now r,
      ),
    )

mul_pos : (a k : ℕ) → a * k < 2 ^ 63 → mul (pos a) k ≡ pos (a * k)
unfolding mul
mul_pos a k h = ground arith

mul_hours : (h : ℕ) → h * 3600000 < 2 ^ 62 → mul (mul (pos h) 3600) 1000 ≡ pos (h * 3600000)
mul_hours h small =
    rw (mul_pos h 3600 (omega arith)) (mul_pos (h * 3600) 1000 (omega arith) ∙ ap pos (omega arith))

hours_ms_pos : (h : ℕ) → h * 3600000 < 2 ^ 62 → hours_ms (pos h) ≡ pos (h * 3600000)
unfolding hours_ms
hours_ms_pos h small = rw (mul_pos h 60 (omega arith)) (
    rw (mul_pos (h * 60) 60 (omega arith))
      (mul_pos (h * 60 * 60) 1000 (omega arith) ∙ ap pos (omega arith)))

approved_hours_pos :
    (now h : ℕ) (a : Auction)
    → a.created_at_ms ≡ pos now
    → a.expires_at_ms ≡ pos (now + h * 3600000)
    → 1 ≤ h
    → now + h * 3600000 < 2 ^ 62
    → approved_hours a ≡ pos h
unfolding approved_hours
approved_hours_pos now h a created expires positive small =
    let left = sub_pos (now + h * 3600000) now (omega arith) (omega arith) in
    let hours = quot_pos (now + h * 3600000 - now) 3600000 in
    let whole : (now + h * 3600000 - now) / 3600000 ≡ h = omega arith in
    ground (arith, left, hours, whole)

approve-new_auction :
    (now t h : ℕ) (id : Text) (input : CreateAuctionInput)
    → input.duration_hours ≡ pos h
    → 1 ≤ h
    → now + h * 3600000 < 2 ^ 62
    → t + h * 3600000 < 2 ^ 62
    → (approve (pos t) (new_auction (pos now) id input)).expires_at_ms ≡ pos (t + h * 3600000)
unfolding approve
approve-new_auction now t h id input asked positive small small' =
    let a = new_auction (pos now) id input in
    let hours =
      approved_hours_pos now h a (created now id input)
        (expires now h id input asked positive small) positive small in
    rw hours (rw (mul_hours h (omega arith)) (add_pos t (h * 3600000) (omega arith)))
  where
    created :
        (now : ℕ) (id : Text) (input : CreateAuctionInput)
        → (new_auction (pos now) id input).created_at_ms ≡ pos now
    created now id input = unfold new_auction in refl

    expires :
        (now h : ℕ) (id : Text) (input : CreateAuctionInput)
        → input.duration_hours ≡ pos h
        → 1 ≤ h
        → now + h * 3600000 < 2 ^ 62
        → (new_auction (pos now) id input).expires_at_ms ≡ pos (now + h * 3600000)
    expires now h id input asked positive small =
        let ms = hours_ms_pos h (omega arith) in
        let sum = add_pos now (h * 3600000) (omega arith) in
        unfold new_auction in ground (arith, ms, sum, asked)

-- An auction that is created for a positive number of hours and then approved is active and
-- approved, and ends that many hours after the approval, however long it waited, if both ends are
-- below 2 ^ 62.
pub approve_moderation-create_auction :
    (now t h : ℕ) (input : CreateAuctionInput) (r : Repository)
    → input.duration_hours ≡ pos h
    → 1 ≤ h
    → now + h * 3600000 < 2 ^ 62
    → t + h * 3600000 < 2 ^ 62
    → (b : Auction) × ((approve_moderation
          (pos t)
          (auction_key r.next_id)
          (create_auction (pos now) input r).1).0
        ≡ some b)
      × (b.expires_at_ms ≡ pos (t + h * 3600000))
      × (b.status ≡ active)
      × (b.moderation_status ≡ approved)
unfolding approve_moderation create_auction pending_auction
approve_moderation-create_auction now t h input r asked positive small small' =
    let id = auction_key r.next_id in
    let a = new_auction (pos now) id input in
    let found = lookup-insert id id a r.auctions in
    let waits : a.moderation_status ≡ pending = unfold new_auction in refl in
    (
      approve (pos t) a,
      ground (arith, found, waits, text_eq_self id),
      approve-new_auction now t h id input asked positive small small',
      unfold approve in refl,
      unfold approve in refl,
    )
