-- ===== src/Memory/Steps/Statuses.antt =====
-- The calls on bids and the expiry pass make no auction approved (memory/auction_repository.go).
use auction_server.Prelude.{
  ◌≡◌, refl, inl, inr, List, [], ◌∷◌, Option, none, some, arith, sym, ◌∙◌, Bool-cases, Option-cases,
  keep, is_nil, ◌||◌,
}
use auction_server.Prelude.Int.{ℤ, pos, leb_ℤ}
use auction_server.Prelude.Text.{Text, text_eq, text_eq_iff, trim_space}
use auction_server.Prelude.Dict.{lookup, insert, lookup-insert}
use auction_server.Domain.{Auction, Bid, PlaceBidInput, ModerationStatus, approved}
use auction_server.Memory.{
  Repository, bids_of, summarised, end_auction, refresh_auction_aggregates, finalize_expired,
}
use auction_server.Memory.Bidding.{
  place_bid, store_bid, write_bid, new_bid, set_first_step, active_auction, active_auction_found,
  delete_bid, remove_bids, min_required_bid, min_required_of, missing_step, has_bid_by, is_not_by,
}
use auction_server.Memory.Expiry.{ended_if_due, expired_auction, finalize_expired-IsExpiredAt}
use auction_server.Memory.Steps.Keys.{IsMap}

-- The state has an auction under the key with that moderation status.
pub record HasStatus (id : Text) (m : ModerationStatus) (r : Repository) : Type 0 where
  pub auction : Auction
  pub found : lookup id r.auctions ≡ some auction
  pub has_status : auction.moderation_status ≡ m

expired_was :
    (now days : ℤ) (list : List Bid) (o : Option Auction) {b : Auction}
    → expired_auction now days list o ≡ some b
    → (a : Auction) × (o ≡ some a) × (b.moderation_status ≡ a.moderation_status)
unfolding expired_auction ended_if_due summarised end_auction
expired_was now days list none e = cc
expired_was now days list (some a) e = (a, refl, ground arith)

pub finalize-was :
    (t : ℤ) (id : Text) (r : Repository)
    → IsMap r
    → HasStatus id approved (finalize_expired t r)
    → HasStatus id approved r
finalize-was t id r h k =
    let left = finalize_expired-IsExpiredAt t id r h.unique in
    let (a, was, same) = expired_was t _ (bids_of id r) _ (sym left.auction_left ∙ k.found) in
    record { auction = a; found = was; has_status = sym same ∙ k.has_status }

-- A write of an auction that is approved only if the one it replaces was.
pub put-was :
    (j id : Text) (a a' : Auction) (r s : Repository)
    → s.auctions ≡ insert j a' r.auctions
    → lookup j r.auctions ≡ some a
    → (a'.moderation_status ≡ approved → a.moderation_status ≡ approved)
    → HasStatus id approved s
    → HasStatus id approved r
put-was j id a a' r s write was same k = elim (Bool-cases (text_eq j id)) [
  | inl here ↦ record {
    auction = a;
    found = ground (arith, text_eq_iff j id);
    has_status = same (ground (arith, k.found, k.has_status, lookup-insert j id a' r.auctions));
  }
  | inr other ↦ record {
    auction = k.auction;
    found = ground (arith, k.found, lookup-insert j id a' r.auctions);
    has_status = k.has_status;
  }
]

same-was :
    (id : Text) (r s : Repository)
    → s.auctions ≡ r.auctions
    → HasStatus id approved s
    → HasStatus id approved r
same-was id r s same k = record {
  auction = k.auction;
  found = ground (arith, k.found);
  has_status = k.has_status;
}

refresh-was :
    (j id : Text) (r : Repository)
    → HasStatus id approved (refresh_auction_aggregates j r)
    → HasStatus id approved r
unfolding refresh_auction_aggregates summarised
refresh-was j id r = elim (Option-cases (lookup j r.auctions)) [
  | inl missing ↦ rw (missing, refresh_auction_aggregates) (λ k. k)
  | inr (a, was) ↦ rw (was, refresh_auction_aggregates) (put-was j id a _ r _ refl was (λ e. e))
]

step_was :
    (bid : Bid) (list : List Bid) (a : Auction)
    → (set_first_step bid list a).moderation_status ≡ approved
    → a.moderation_status ≡ approved
unfolding set_first_step
step_was bid list a h = ground arith

store_bid-was :
    (bid : Bid) (j id : Text) (a : Auction) (r : Repository)
    → lookup j r.auctions ≡ some a
    → HasStatus id approved (store_bid bid j a r)
    → HasStatus id approved r
unfolding store_bid write_bid
store_bid-was bid j id a r was k =
    let s = write_bid bid j a r in
    put-was j id a (set_first_step bid (bids_of j r) a) r s refl was (step_was bid (bids_of j r) a)
      (refresh-was j id s k)

pub place_bid-was :
    (t now : ℤ) (j id : Text) (input : PlaceBidInput) (r : Repository)
    → IsMap r
    → HasStatus id approved (place_bid t now j input r).1
    → HasStatus id approved r
unfolding place_bid
place_bid-was t now j id input r h =
    let r' = finalize_expired t r in
    elim (Option-cases (active_auction j r')) [
      | inl missing ↦ rw (missing, place_bid) (finalize-was t id r h)
      | inr (a, found) ↦
          rw (found, place_bid)
            (λ k.
              finalize-was t id r h
                (store_bid-was (new_bid now j input) j id a r' (active_auction_found j r' found) k))
    ]

remove_bids-was :
    (j id user : Text) (r : Repository)
    → HasStatus id approved (remove_bids j r user).1
    → HasStatus id approved r
unfolding remove_bids
remove_bids-was j id user r =
    let bids = insert j (keep (is_not_by user) (bids_of j r)) r.bids in
    elim (Bool-cases (has_bid_by user (bids_of j r))) [
      | inl some_bid ↦
          rw (some_bid, remove_bids)
            (λ k.
              same-was id r (record r { bids = bids }) refl
                (refresh-was j id (record r { bids = bids }) k))
      | inr no_bid ↦ rw (no_bid, remove_bids) (λ k. k)
    ]

pub delete_bid-was :
    (j id user : Text) (r : Repository)
    → HasStatus id approved (delete_bid j user r).1
    → HasStatus id approved r
unfolding delete_bid
delete_bid-was j id user r = elim (Bool-cases (is_nil (trim_space j) || is_nil (trim_space user))) [
  | inl blank ↦ rw (blank, delete_bid) (λ k. k)
  | inr given ↦ rw (given, delete_bid) (remove_bids-was (trim_space j) id (trim_space user) r)
]

min_required_of-was :
    (j id : Text) (a : Auction) (list : List Bid) (r : Repository)
    → lookup j r.auctions ≡ some a
    → HasStatus id approved (min_required_of j a list r).1
    → HasStatus id approved r
unfolding min_required_of
min_required_of-was j id a [] r was = (λ k. k)
min_required_of-was j id a (b ∷ bs) r was = elim (Bool-cases (leb_ℤ a.min_bid_step (pos 0))) [
  | inl missing ↦
      rw (missing, min_required_of)
        (put-was j id a (record a { min_bid_step = missing_step b bs }) r _ refl was (λ e. e))
  | inr given ↦ rw (given, min_required_of) (λ k. k)
]

pub min_required_bid-was :
    (t : ℤ) (j id : Text) (r : Repository)
    → IsMap r
    → HasStatus id approved (min_required_bid t j r).1
    → HasStatus id approved r
unfolding min_required_bid
min_required_bid-was t j id r h =
    let r' = finalize_expired t r in
    elim (Option-cases (active_auction j r')) [
      | inl missing ↦ rw (missing, min_required_bid) (finalize-was t id r h)
      | inr (a, found) ↦
          rw (found, min_required_bid)
            (λ k.
              finalize-was t id r h
                (min_required_of-was j id a (bids_of j r') r' (active_auction_found j r' found) k))
    ]
