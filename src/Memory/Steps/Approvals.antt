-- ===== src/Memory/Steps/Approvals.antt =====
-- Only a moderator's approval makes an auction approved (memory/moderation.go).
use auction_server.Prelude.{
  ◌≡◌, refl, ◌⊎◌, inl, inr, true, [], some, arith, sym, ◌∙◌, Bool-cases, Option-cases, ap,
}
use auction_server.Prelude.Int.{ℤ}
use auction_server.Prelude.Text.{Text, text_eq, text_eq_iff}
use auction_server.Prelude.Dict.{lookup, lookup-insert, lookup-erase}
use auction_server.Domain.{Auction, CreateAuctionInput, UpdateAuctionInput, pending, approved}
use auction_server.Memory.{Repository}
use auction_server.Memory.Owner.{
  create_auction, new_auction, auction_key, owned, owned_found, put_auction, extended, updated,
  extend_auction, bump_auction, set_featured, delete_auction, update_auction, is_live,
}
use auction_server.Memory.Moderation.{
  pending_auction, pending_found, pending_is_pending, approve, reject, approve_moderation,
  reject_moderation,
}
use auction_server.Memory.Steps.{Step}
use auction_server.Memory.Steps.Keys.{IsMap}
use auction_server.Memory.Steps.Statuses.{
  HasStatus, finalize-was, put-was, place_bid-was, delete_bid-was, min_required_bid-was,
}

-- A write by the owner, and a rejection.
module _ (j id owner : Text) (r : Repository) where
  owned-was :
      (f : Auction → Auction)
      → ((a : Auction) → (f a).moderation_status ≡ approved → a.moderation_status ≡ approved)
      → (a : Auction) → owned j owner r ≡ some a
      → HasStatus id approved (put_auction j (f a) r)
      → HasStatus id approved r
  unfolding put_auction
  owned-was f same a found =
      put-was j id a (f a) r (put_auction j (f a) r) refl (owned_found j owner r found) (same a)

  extend_auction-was :
      (now hours : ℤ)
      → HasStatus id approved (extend_auction now j owner hours r).1
      → HasStatus id approved r
  unfolding extend_auction extended
  extend_auction-was now hours = elim (Option-cases (owned j owner r)) [
    | inl missing ↦ rw (missing, extend_auction) (λ k. k)
    | inr (a, found) ↦
        rw (found, extend_auction) (owned-was (extended now hours) (λ b e. e) a found)
  ]

  bump_auction-was :
      (now : ℤ) → HasStatus id approved (bump_auction now j owner r).1 → HasStatus id approved r
  unfolding bump_auction
  bump_auction-was now = elim (Option-cases (owned j owner r)) [
    | inl missing ↦ rw (missing, bump_auction) (λ k. k)
    | inr (a, found) ↦ elim (Bool-cases (is_live a)) [
      | inl live ↦
          rw (found, live, bump_auction)
            (owned-was (λ b. record b { bumped_at_ms = now }) (λ b e. e) a found)
      | inr other ↦ rw (found, other, bump_auction) (λ k. k)
    ]
  ]

  set_featured-was :
      (now : ℤ) → HasStatus id approved (set_featured now j owner r).1 → HasStatus id approved r
  unfolding set_featured
  set_featured-was now = elim (Option-cases (owned j owner r)) [
    | inl missing ↦ rw (missing, set_featured) (λ k. k)
    | inr (a, found) ↦ elim (Bool-cases (is_live a)) [
      | inl live ↦
          rw (found, live, set_featured)
            (owned-was (λ b. record b { is_featured = true; bumped_at_ms = now }) (λ b e. e) a
              found)
      | inr other ↦ rw (found, other, set_featured) (λ k. k)
    ]
  ]

  delete_auction-was : HasStatus id approved (delete_auction j owner r).1 → HasStatus id approved r
  unfolding delete_auction
  delete_auction-was = elim (Option-cases (owned j owner r)) [
    | inl missing ↦ rw (missing, delete_auction) (λ k. k)
    | inr (a, found) ↦
        rw (found, delete_auction)
          (λ k. record {
            auction = k.auction;
            found = ground (arith, k.found, lookup-erase j id r.auctions);
            has_status = k.has_status;
          })
  ]

  reject_moderation-was :
      (reason : Text)
      → HasStatus id approved (reject_moderation j reason r).1
      → HasStatus id approved r
  unfolding reject_moderation reject
  reject_moderation-was reason = elim (Option-cases (pending_auction j r)) [
    | inl missing ↦ rw (missing, reject_moderation) (λ k. k)
    | inr (a, found) ↦
        rw (found, reject_moderation)
          (put-was j id a (reject reason a) r _ refl (pending_found j r found) (λ e. absurd cc))
  ]

  -- An approval makes only its own auction approved, and only a pending one.
  approve_moderation-was :
      (now : ℤ)
      → HasStatus id approved (approve_moderation now j r).1
      → HasStatus id approved r ⊎ ((j ≡ id) × HasStatus id pending r)
  unfolding approve_moderation approve
  approve_moderation-was now = elim (Option-cases (pending_auction j r)) [
    | inl missing ↦ rw (missing, approve_moderation) (λ k. inl k)
    | inr (a, found) ↦
        rw (found, approve_moderation)
          (λ k. elim (Bool-cases (text_eq j id)) [
            | inl here ↦
                let same : j ≡ id = (text_eq_iff j id).0 here in
                inr (
                  same,
                  record {
                    auction = a;
                    found = ap (λ i. lookup i r.auctions) (sym same) ∙ pending_found j r found;
                    has_status = pending_is_pending j r found;
                  },
                )
            | inr other ↦ inl (record {
              auction = k.auction;
              found = ground (arith, k.found, lookup-insert j id (approve now a) r.auctions);
              has_status = k.has_status;
            })
          ])
  ]

create_auction-was :
    (id : Text) (now : ℤ) (input : CreateAuctionInput) (r : Repository)
    → HasStatus id approved (create_auction now input r).1
    → HasStatus id approved r
unfolding create_auction new_auction
create_auction-was id now input r k =
    let j = auction_key r.next_id in
    elim (Bool-cases (text_eq j id)) [
      | inl here ↦ absurd (
          ground
            (arith, k.found, k.has_status, lookup-insert j id (new_auction now j input) r.auctions))
      | inr other ↦ record {
        auction = k.auction;
        found = ground (arith, k.found, lookup-insert j id (new_auction now j input) r.auctions);
        has_status = k.has_status;
      }
    ]

update_auction-was :
    (j id : Text) (input : UpdateAuctionInput) (r : Repository)
    → HasStatus id approved (update_auction j input r).1
    → HasStatus id approved r
unfolding update_auction updated
update_auction-was j id input r = elim (Option-cases (owned j input.owner_id r)) [
  | inl missing ↦ rw (missing, update_auction) (λ k. k)
  | inr (a, found) ↦
      rw (found, update_auction)
        (owned-was j id input.owner_id r (updated input) (λ b e. absurd cc) a found)
]

-- The step is a moderator's approval of the auction.
abbrev pub IsApprovalOf : (id : Text) {r s : Repository} → Step r s → Type 0
IsApprovalOf id (Step.approve now j) = j ≡ id
IsApprovalOf id _ = ⊥

-- In a store whose map of auctions lists each key once, an auction that is approved after a step
-- was approved before it under the same key, or the step is a moderator's approval of it and found
-- it pending.
pub Step-approved :
    (id : Text) {r s : Repository} (step : Step r s)
    → IsMap r
    → HasStatus id approved s
    → HasStatus id approved r ⊎ (IsApprovalOf id step × HasStatus id pending r)
Step-approved id {r} (Step.finalize t) h k = inl (finalize-was t id r h k)
Step-approved id {r} (Step.create now input) h k = inl (create_auction-was id now input r k)
Step-approved id {r} (Step.bid t now j input) h k = inl (place_bid-was t now j id input r h k)
Step-approved id {r} (Step.unbid j user) h k = inl (delete_bid-was j id user r k)
Step-approved id {r} (Step.require t j) h k = inl (min_required_bid-was t j id r h k)
Step-approved id {r} (Step.extend now j owner hours) h k =
    inl (extend_auction-was j id owner r now hours k)
Step-approved id {r} (Step.bump now j owner) h k = inl (bump_auction-was j id owner r now k)
Step-approved id {r} (Step.feature now j owner) h k = inl (set_featured-was j id owner r now k)
Step-approved id {r} (Step.delete j owner) h k = inl (delete_auction-was j id owner r k)
Step-approved id {r} (Step.update j input) h k = inl (update_auction-was j id input r k)
Step-approved id {r} (Step.approve now j) h k = approve_moderation-was j id [] r now k
Step-approved id {r} (Step.reject j reason) h k = inl (reject_moderation-was j id [] r reason k)
