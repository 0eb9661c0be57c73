-- ===== src/Memory/Steps/Consistency.antt =====
-- Every reachable state of the in-memory store has consistent aggregates.
use auction_server.Prelude.{
  ◌≡◌, refl, true, List, [], ◌∷◌, some, arith, inl, inr, Bool-cases, Option-cases, keep,
}
use auction_server.Prelude.Int.{ℤ}
use auction_server.Prelude.Text.{Text, trim_space}
use auction_server.Prelude.Dict.{lookup, lookup-insert}
use auction_server.Prelude.Sort.{sort}
use auction_server.Domain.{Auction, Bid, CreateAuctionInput, PlaceBidInput, UpdateAuctionInput}
use auction_server.Memory.{
  Repository, new_repository, bids_of, offers_count_of, top_offers_of, add_user_names,
  finalize_expired,
}
use auction_server.Memory.Bidding.{
  place_bid, store_bid, new_bid, is_not_by, merge_bid, set_first_step, active_auction, delete_bid,
  remove_bids, has_bid_by, min_required_bid, min_required_of, missing_step, active_auction_found,
}
use auction_server.Memory.Owner.{
  create_auction, auction_key, new_auction, owned, put_auction, extend_auction, bump_auction,
  set_featured, delete_auction, update_auction, extended, updated, owned_found,
}
use auction_server.Memory.Moderation.{
  pending_auction, approve_moderation, reject_moderation, approve, reject, pending_found,
}
use auction_server.Memory.Aggregates.{
  IsConsistent, refresh-IsConsistent, put-IsConsistent, erase-IsConsistent,
  finalize_expired-IsConsistent,
}
use auction_server.Memory.Steps.{Step}

pub new-IsConsistent : (days : ℤ) → IsConsistent (new_repository days)
unfolding new_repository lookup
new-IsConsistent days = record { summarises = λ id a e. cc }

-- A new auction has no bids, and the aggregates of none.
no_aggregates : (offers_count_of [] ≡ 0) × (top_offers_of [] ≡ [])
unfolding offers_count_of top_offers_of add_user_names sort
no_aggregates = (refl, refl)

pub create_auction-IsConsistent :
    (now : ℤ) (input : CreateAuctionInput) (r : Repository)
    → IsConsistent r
    → IsConsistent (create_auction now input r).1
unfolding create_auction bids_of new_auction
create_auction-IsConsistent now input r h =
    let id = auction_key r.next_id in
    record {
      summarises = λ j a e. ground (
        arith,
        lookup-insert id j (new_auction now id input) r.auctions,
        lookup-insert id j [] r.bids,
        h.summarises j a,
        no_aggregates,
      );
    }

store_bid-IsConsistent :
    (bid : Bid) (id : Text) (a : Auction) (r : Repository)
    → IsConsistent r
    → IsConsistent (store_bid bid id a r)
unfolding store_bid bids_of
store_bid-IsConsistent bid id a r h = refresh-IsConsistent id _ (λ j ne b e. ground (
  arith,
  lookup-insert id j (set_first_step bid (bids_of id r) a) r.auctions,
  lookup-insert id j (merge_bid bid (bids_of id r)) r.bids,
  h.summarises j b,
))

pub place_bid-IsConsistent :
    (t now : ℤ) (id : Text) (input : PlaceBidInput) (r : Repository)
    → IsConsistent r
    → IsConsistent (place_bid t now id input r).1
unfolding place_bid
place_bid-IsConsistent t now id input r h =
    let h' : IsConsistent (finalize_expired t r) = finalize_expired-IsConsistent t r h in
    elim (Option-cases (active_auction id (finalize_expired t r))) [
      | inl missing ↦ rw (missing, place_bid) h'
      | inr (a, found) ↦
          rw (found, place_bid) (store_bid-IsConsistent (new_bid now id input) id a _ h')
    ]

remove_bids-IsConsistent :
    (id user : Text) (r : Repository) → IsConsistent r → IsConsistent (remove_bids id r user).1
unfolding remove_bids bids_of
remove_bids-IsConsistent id user r h = elim (Bool-cases (has_bid_by user (bids_of id r))) [
  | inl some_bid ↦
      rw (some_bid, remove_bids)
        (refresh-IsConsistent id _ (λ j ne b e. ground (
          arith,
          lookup-insert id j (keep (is_not_by user) (bids_of id r)) r.bids,
          h.summarises j b,
        )))
  | inr no_bid ↦ rw (no_bid, remove_bids) h
]

pub delete_bid-IsConsistent :
    (id user : Text) (r : Repository) → IsConsistent r → IsConsistent (delete_bid id user r).1
unfolding delete_bid
delete_bid-IsConsistent id user r h =
    ground (arith, remove_bids-IsConsistent (trim_space id) (trim_space user) r h)

min_required_of-IsConsistent :
    (id : Text) (a : Auction) (list : List Bid) (r : Repository)
    → IsConsistent r
    → lookup id r.auctions ≡ some a
    → IsConsistent (min_required_of id a list r).1
unfolding min_required_of
min_required_of-IsConsistent id a [] r h found = h
min_required_of-IsConsistent id a (b ∷ bs) r h found =
    ground (arith, put-IsConsistent id a (record a { min_bid_step = missing_step b bs }) r h found)

pub min_required_bid-IsConsistent :
    (t : ℤ) (id : Text) (r : Repository) → IsConsistent r → IsConsistent (min_required_bid t id r).1
unfolding min_required_bid
min_required_bid-IsConsistent t id r h =
    let r' = finalize_expired t r in
    let h' : IsConsistent r' = finalize_expired-IsConsistent t r h in
    elim (Option-cases (active_auction id r')) [
      | inl missing ↦ rw (missing, min_required_bid) h'
      | inr (a, found) ↦
          rw (found, min_required_bid)
            (min_required_of-IsConsistent id a (bids_of id r') r' h'
              (active_auction_found id r' found))
    ]

-- A write by an owner or a moderator leaves the aggregates of the auction alone.
module _ (id owner : Text) (r : Repository) (h : IsConsistent r) where
  owned-IsConsistent :
      (f : Auction → Auction)
      → ((a : Auction)
          → ((f a).offers_count ≡ a.offers_count) × ((f a).final_top_offers ≡ a.final_top_offers))
      → (a : Auction) → owned id owner r ≡ some a
      → IsConsistent (put_auction id (f a) r)
  unfolding put_auction
  owned-IsConsistent f same a found =
      put-IsConsistent id a (f a) r h (owned_found id owner r found) (same a).0 (same a).1

  pub extend_auction-IsConsistent :
      (now hours : ℤ) → IsConsistent (extend_auction now id owner hours r).1
  unfolding extend_auction extended
  extend_auction-IsConsistent now hours = elim (Option-cases (owned id owner r)) [
    | inl missing ↦ rw (missing, extend_auction) h
    | inr (a, found) ↦
        rw (found, extend_auction)
          (owned-IsConsistent (extended now hours) (λ b. (refl, refl)) a found)
  ]

  pub bump_auction-IsConsistent : (now : ℤ) → IsConsistent (bump_auction now id owner r).1
  unfolding bump_auction
  bump_auction-IsConsistent now = elim (Option-cases (owned id owner r)) [
    | inl missing ↦ rw (missing, bump_auction) h
    | inr (a, found) ↦
        let h' =
          owned-IsConsistent (λ b. record b { bumped_at_ms = now }) (λ b. (refl, refl)) a found in
        ground arith
  ]

  pub set_featured-IsConsistent : (now : ℤ) → IsConsistent (set_featured now id owner r).1
  unfolding set_featured
  set_featured-IsConsistent now = elim (Option-cases (owned id owner r)) [
    | inl missing ↦ rw (missing, set_featured) h
    | inr (a, found) ↦
        let h' =
          owned-IsConsistent (λ b. record b { is_featured = true; bumped_at_ms = now })
            (λ b. (refl, refl)) a found in
        ground arith
  ]

  pub delete_auction-IsConsistent : IsConsistent (delete_auction id owner r).1
  unfolding delete_auction
  delete_auction-IsConsistent = ground (arith, erase-IsConsistent id r h)

  pub approve_moderation-IsConsistent : (now : ℤ) → IsConsistent (approve_moderation now id r).1
  unfolding approve_moderation approve
  approve_moderation-IsConsistent now = elim (Option-cases (pending_auction id r)) [
    | inl missing ↦ rw (missing, approve_moderation) h
    | inr (a, found) ↦
        rw (found, approve_moderation)
          (put-IsConsistent id a (approve now a) r h (pending_found id r found) refl refl)
  ]

  pub reject_moderation-IsConsistent :
      (reason : Text) → IsConsistent (reject_moderation id reason r).1
  unfolding reject_moderation reject
  reject_moderation-IsConsistent reason = elim (Option-cases (pending_auction id r)) [
    | inl missing ↦ rw (missing, reject_moderation) h
    | inr (a, found) ↦
        rw (found, reject_moderation)
          (put-IsConsistent id a (reject reason a) r h (pending_found id r found) refl refl)
  ]

pub update_auction-IsConsistent :
    (id : Text) (input : UpdateAuctionInput) (r : Repository)
    → IsConsistent r
    → IsConsistent (update_auction id input r).1
unfolding update_auction updated
update_auction-IsConsistent id input r h = elim (Option-cases (owned id input.owner_id r)) [
  | inl missing ↦ rw (missing, update_auction) h
  | inr (a, found) ↦
      rw (found, update_auction)
        (owned-IsConsistent id input.owner_id r h (updated input) (λ b. (refl, refl)) a found)
]

pub Step-IsConsistent : {r s : Repository} → Step r s → IsConsistent r → IsConsistent s
Step-IsConsistent {r = r} (Step.finalize t) h = finalize_expired-IsConsistent t r h
Step-IsConsistent {r = r} (Step.create now input) h = create_auction-IsConsistent now input r h
Step-IsConsistent {r = r} (Step.bid t now id input) h = place_bid-IsConsistent t now id input r h
Step-IsConsistent {r = r} (Step.unbid id user) h = delete_bid-IsConsistent id user r h
Step-IsConsistent {r = r} (Step.require t id) h = min_required_bid-IsConsistent t id r h
Step-IsConsistent {r = r} (Step.extend now id owner hours) h =
    extend_auction-IsConsistent id owner r h now hours
Step-IsConsistent {r = r} (Step.bump now id owner) h = bump_auction-IsConsistent id owner r h now
Step-IsConsistent {r = r} (Step.feature now id owner) h = set_featured-IsConsistent id owner r h now
Step-IsConsistent {r = r} (Step.delete id owner) h = delete_auction-IsConsistent id owner r h
Step-IsConsistent {r = r} (Step.update id input) h = update_auction-IsConsistent id input r h
Step-IsConsistent {r = r} (Step.approve now id) h = approve_moderation-IsConsistent id [] r h now
Step-IsConsistent {r = r} (Step.reject id reason) h =
    reject_moderation-IsConsistent id [] r h reason
