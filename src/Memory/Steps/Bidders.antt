-- ===== src/Memory/Steps/Bidders.antt =====
-- A property of lists of bids that placing and deleting bids keep holds of every list in every
-- reachable state; the two that matter are that user ids are trimmed and that a user has one bid.
use auction_server.Prelude.{
  ◌≡◌, inl, inr, Bool, true, false, List, [], ◌∷◌, arith, keep, Bool-cases, Option-cases,
  if◌then◌else◌,
}
use auction_server.Prelude.Int.{ℤ}
use auction_server.Prelude.Text.{Text, text_eq, trim_space, trim_space_idem}
use auction_server.Prelude.Dict.{Dict, lookup, insert, erase}
use auction_server.Domain.{Auction, Bid, PlaceBidInput}
use auction_server.Memory.{
  Repository, new_repository, bids_of, finalize_expired, finalize_entries, finalize_entry,
}
use auction_server.Memory.Bidding.{
  place_bid, store_bid, new_bid, merge_bid, active_auction, delete_bid, remove_bids, is_not_by,
  has_bid_by, min_required_bid, min_required_of,
}
use auction_server.Memory.Owner.{auction_key}
use auction_server.Memory.Aggregates.{bids-refresh}
use auction_server.Memory.Steps.{Step, Reach}
use auction_server.Memory.Steps.Frames.{
  bids_of_insert, bids_of_erase, finalize_entry-bids, bids-min_required_of, bids-create_auction,
  bids-extend_auction, bids-bump_auction, bids-set_featured, bids-delete_auction,
  bids-update_auction, bids-approve_moderation, bids-reject_moderation,
}

pub record EveryList (P : List Bid → Type 0) (r : Repository) : Type 0 where
  pub holds : (id : Text) → P (bids_of id r)

same_bids-EveryList :
    (P : List Bid → Type 0) (r s : Repository) → s.bids ≡ r.bids → EveryList P r → EveryList P s
unfolding bids_of
same_bids-EveryList P r s e h = record { holds = λ id. rw e (h.holds id) }

if-holds :
    (P : List Bid → Type 0) (b : Bool) {xs ys : List Bid} → P xs → P ys → P (if b then xs else ys)
if-holds P true h k = h
if-holds P false h k = k

-- The key's list is replaced, and the others stay.
put_bids-EveryList :
    (P : List Bid → Type 0) (id : Text) (list : List Bid) (r s : Repository)
    → s.bids ≡ insert id list r.bids
    → P list
    → EveryList P r
    → EveryList P s
put_bids-EveryList P id list r s e new h = record {
  holds = λ j. rw (bids_of_insert id j list r s e) (if-holds P (text_eq id j) new (h.holds j));
}

module _ (P : List Bid → Type 0) (of_none : P [])
    (of_merge : (bid : Bid) (list : List Bid)
      → trim_space bid.user_id ≡ bid.user_id
      → P list
      → P (merge_bid bid list))
    (of_keep : (user : Text) (list : List Bid) → P list → P (keep (is_not_by user) list)) where
  finalize_entry-EveryList :
      (now : ℤ) (id : Text) (a : Auction) (r : Repository)
      → EveryList P r
      → EveryList P (finalize_entry now id a r)
  finalize_entry-EveryList now id a r h = record {
    holds = λ j. elim (finalize_entry-bids now id j a r) [
      | inl same ↦ rw same (h.holds j)
      | inr gone ↦ rw gone of_none
    ];
  }

  finalize_entries-EveryList :
      (now : ℤ) (m : Dict Auction) (r : Repository)
      → EveryList P r
      → EveryList P (finalize_entries now m r)
  unfolding finalize_entries
  finalize_entries-EveryList now [] r h = h
  finalize_entries-EveryList now ((id, a) ∷ m) r h =
      finalize_entries-EveryList now m (finalize_entry now id a r)
        (finalize_entry-EveryList now id a r h)

  finalize_expired-EveryList :
      (now : ℤ) (r : Repository) → EveryList P r → EveryList P (finalize_expired now r)
  unfolding finalize_expired
  finalize_expired-EveryList now r h = finalize_entries-EveryList now r.auctions r h

  store_bid-EveryList :
      (bid : Bid) (id : Text) (a : Auction) (r : Repository)
      → trim_space bid.user_id ≡ bid.user_id
      → EveryList P r
      → EveryList P (store_bid bid id a r)
  unfolding store_bid
  store_bid-EveryList bid id a r trimmed h =
      put_bids-EveryList P id (merge_bid bid (bids_of id r)) r _ (bids-refresh id _)
        (of_merge bid (bids_of id r) trimmed (h.holds id)) h

  place_bid-EveryList :
      (t now : ℤ) (id : Text) (input : PlaceBidInput) (r : Repository)
      → EveryList P r
      → EveryList P (place_bid t now id input r).1
  unfolding new_bid place_bid
  place_bid-EveryList t now id input r h =
      let r' = finalize_expired t r in
      let h' : EveryList P r' = finalize_expired-EveryList t r h in
      elim (Option-cases (active_auction id r')) [
        | inl missing ↦ rw (missing, place_bid) h'
        | inr (a, found) ↦
            rw (found, place_bid)
              (store_bid-EveryList (new_bid now id input) id a r' (trim_space_idem input.user_id)
                h')
      ]

  remove_bids-EveryList :
      (id user : Text) (r : Repository) → EveryList P r → EveryList P (remove_bids id r user).1
  unfolding remove_bids
  remove_bids-EveryList id user r h = elim (Bool-cases (has_bid_by user (bids_of id r))) [
    | inl some_bid ↦
        rw (some_bid, remove_bids)
          (put_bids-EveryList P id (keep (is_not_by user) (bids_of id r)) r _ (bids-refresh id _)
            (of_keep user (bids_of id r) (h.holds id)) h)
    | inr no_bid ↦ rw (no_bid, remove_bids) h
  ]

  delete_bid-EveryList :
      (id user : Text) (r : Repository) → EveryList P r → EveryList P (delete_bid id user r).1
  unfolding delete_bid
  delete_bid-EveryList id user r h =
      ground (arith, remove_bids-EveryList (trim_space id) (trim_space user) r h)

  min_required_of-EveryList :
      (id : Text) (a : Auction) (list : List Bid) (r : Repository)
      → EveryList P r
      → EveryList P (min_required_of id a list r).1
  min_required_of-EveryList id a list r h =
      same_bids-EveryList P r _ (bids-min_required_of id a list r) h

  min_required_bid-EveryList :
      (t : ℤ) (id : Text) (r : Repository) → EveryList P r → EveryList P (min_required_bid t id r).1
  unfolding min_required_bid
  min_required_bid-EveryList t id r h =
      let r' = finalize_expired t r in
      let h' : EveryList P r' = finalize_expired-EveryList t r h in
      elim (Option-cases (active_auction id r')) [
        | inl missing ↦ rw (missing, min_required_bid) h'
        | inr (a, found) ↦
            rw (found, min_required_bid) (min_required_of-EveryList id a (bids_of id r') r' h')
      ]

  erase_bids-EveryList :
      (id : Text) (r s : Repository) → s.bids ≡ erase id r.bids → EveryList P r → EveryList P s
  erase_bids-EveryList id r s e h = record {
    holds = λ j. rw (bids_of_erase id j r s e) (if-holds P (text_eq id j) of_none (h.holds j));
  }

  pub Step-EveryList : {r s : Repository} → Step r s → EveryList P r → EveryList P s
  Step-EveryList {r = r} (Step.finalize t) h = finalize_expired-EveryList t r h
  Step-EveryList {r = r} (Step.create now input) h =
      put_bids-EveryList P (auction_key r.next_id) [] r _ (bids-create_auction now input r) of_none
        h
  Step-EveryList {r = r} (Step.bid t now id input) h = place_bid-EveryList t now id input r h
  Step-EveryList {r = r} (Step.unbid id user) h = delete_bid-EveryList id user r h
  Step-EveryList {r = r} (Step.require t id) h = min_required_bid-EveryList t id r h
  Step-EveryList {r = r} (Step.extend now id owner hours) h =
      same_bids-EveryList P r _ (bids-extend_auction now id owner hours r) h
  Step-EveryList {r = r} (Step.bump now id owner) h =
      same_bids-EveryList P r _ (bids-bump_auction now id owner r) h
  Step-EveryList {r = r} (Step.feature now id owner) h =
      same_bids-EveryList P r _ (bids-set_featured now id owner r) h
  Step-EveryList {r = r} (Step.delete id owner) h = elim (bids-delete_auction id owner r) [
    | inl same ↦ same_bids-EveryList P r _ same h
    | inr gone ↦ erase_bids-EveryList id r _ gone h
  ]
  Step-EveryList {r = r} (Step.update id input) h =
      same_bids-EveryList P r _ (bids-update_auction id input r) h
  Step-EveryList {r = r} (Step.approve now id) h =
      same_bids-EveryList P r _ (bids-approve_moderation now id r) h
  Step-EveryList {r = r} (Step.reject id reason) h =
      same_bids-EveryList P r _ (bids-reject_moderation id reason r) h

  pub Reach-EveryList : {days : ℤ} {r : Repository} → Reach days r → EveryList P r
  unfolding new_repository bids_of lookup
  Reach-EveryList Reach.start = record { holds = λ id. of_none }
  Reach-EveryList (Reach.next reached step) = Step-EveryList step (Reach-EveryList reached)
