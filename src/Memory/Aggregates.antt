-- ===== src/Memory/Aggregates.antt =====
-- The aggregates that an auction keeps about its bids, `OffersCount` and `FinalTopOffers`, follow
-- the bids through every operation of the in-memory store.
use mathlib.Core.Option
use auction_server.Prelude.{
  ◌≡◌, Bool, true, false, [], ◌∷◌, some, arith, inl, inr, Bool-cases, Option-cases, if◌then◌else◌,
}
use auction_server.Prelude.Int.{ℤ}
use auction_server.Prelude.Text.{Text, text_eq, text_eq_iff}
use auction_server.Prelude.Dict.{Dict, lookup, insert, erase, lookup-insert, lookup-erase}
use auction_server.Domain.{Auction}
use auction_server.Memory.{
  Repository, bids_of, offers_count_of, top_offers_of, summarised, refresh_auction_aggregates,
  finalize_entry, finalize_entries, finalize_expired, end_auction, is_due, is_stale,
}

-- The aggregates of the auction at a key, if there is one, are those of its bids.
abbrev pub Summarises : Repository → Text → Type 0
Summarises r id =
    (a : Auction)
    → lookup id r.auctions ≡ some a
    → (a.offers_count ≡ offers_count_of (bids_of id r))
      × (a.final_top_offers ≡ top_offers_of (bids_of id r))

pub record IsConsistent (r : Repository) : Type 0 where
  pub summarises : (id : Text) → Summarises r id

abbrev pub IsConsistentBut : Text → Repository → Type 0
IsConsistentBut id r = (j : Text) → text_eq id j ≡ false → Summarises r j

-- The refresh writes the aggregates at its key, and nothing else.
pub bids-refresh : (id : Text) (r : Repository) → (refresh_auction_aggregates id r).bids ≡ r.bids
unfolding refresh_auction_aggregates
bids-refresh id r = ground arith

pub lookup-refresh :
    (id j : Text) (r : Repository)
    → lookup j (refresh_auction_aggregates id r).auctions ≡ (
        if text_eq id j
        then Option.map (summarised (bids_of id r)) (lookup id r.auctions)
        else lookup j r.auctions)
unfolding refresh_auction_aggregates
lookup-refresh id j r = elim (Option-cases (lookup id r.auctions)) [
  | inl missing ↦ ground (arith, text_eq_iff id j)
  | inr (a, found) ↦ ground (arith, lookup-insert id j (summarised (bids_of id r) a) r.auctions)
]

pub bids_of-refresh :
    (id j : Text) (r : Repository) → bids_of j (refresh_auction_aggregates id r) ≡ bids_of j r
unfolding bids_of
bids_of-refresh id j r = rw bids-refresh

pub refresh-IsConsistent :
    (id : Text) (r : Repository)
    → IsConsistentBut id r
    → IsConsistent (refresh_auction_aggregates id r)
unfolding summarised
refresh-IsConsistent id r h = record { summarises = at }
  where
    at : (j : Text) → Summarises (refresh_auction_aggregates id r) j
    at j a e = elim (Bool-cases (text_eq id j)) [
      | inl same ↦ ground (arith, text_eq_iff id j, lookup-refresh id j r, bids_of-refresh id j r)
      | inr other ↦
          rw (bids_of-refresh id j r) (h j other a (ground (arith, lookup-refresh id j r)))
    ]

pub insert-IsConsistentBut :
    (id : Text) (a : Auction) (r : Repository)
    → IsConsistent r
    → IsConsistentBut id (record r { auctions = insert id a r.auctions })
unfolding bids_of
insert-IsConsistentBut id a r h j ne b e =
    h.summarises j b (ground (arith, lookup-insert id j a r.auctions))

-- What a write does to the aggregates, by its shape.
pub put-IsConsistent :
    (id : Text) (a a' : Auction) (r : Repository)
    → IsConsistent r
    → lookup id r.auctions ≡ some a
    → a'.offers_count ≡ a.offers_count
    → a'.final_top_offers ≡ a.final_top_offers
    → IsConsistent (record r { auctions = insert id a' r.auctions })
unfolding bids_of
put-IsConsistent id a a' r h found same_count same_top = record {
  summarises = λ j b e. ground (
    arith,
    text_eq_iff id j,
    lookup-insert id j a' r.auctions,
    h.summarises j b,
    h.summarises id a,
  );
}

pub erase-IsConsistent :
    (id : Text) (r : Repository)
    → IsConsistent r
    → IsConsistent (record r { auctions = erase id r.auctions; bids = erase id r.bids })
unfolding bids_of
erase-IsConsistent id r h = record {
  summarises = λ j b e.
      ground (arith, lookup-erase id j r.auctions, lookup-erase id j r.bids, h.summarises j b);
}

if-IsConsistent :
    (b : Bool) {r s : Repository}
    → IsConsistent r
    → IsConsistent s
    → IsConsistent (if b then r else s)
if-IsConsistent true h k = h
if-IsConsistent false h k = k

pub finalize_entry-IsConsistent :
    (now : ℤ) (id : Text) (a : Auction) (r : Repository)
    → IsConsistent r
    → IsConsistent (finalize_entry now id a r)
unfolding finalize_entry
finalize_entry-IsConsistent now id a r h = elim (Bool-cases (is_due now a)) [
  | inl due ↦
      let r' : Repository =
        refresh_auction_aggregates id
          (record r { auctions = insert id (end_auction now a) r.auctions }) in
      let h' : IsConsistent r' =
        refresh-IsConsistent id (record r { auctions = insert id (end_auction now a) r.auctions })
          (insert-IsConsistentBut id (end_auction now a) r h) in
      rw (due, finalize_entry)
        (if-IsConsistent (is_stale now r.delete_days_after_expiry (end_auction now a))
          (erase-IsConsistent id r' h') h')
  | inr not_due ↦
      rw (not_due, finalize_entry)
        (if-IsConsistent (is_stale now r.delete_days_after_expiry a) (erase-IsConsistent id r h) h)
]

finalize_entries-IsConsistent :
    (now : ℤ) (m : Dict Auction) (r : Repository)
    → IsConsistent r
    → IsConsistent (finalize_entries now m r)
unfolding finalize_entries
finalize_entries-IsConsistent now [] r h = h
finalize_entries-IsConsistent now ((id, a) ∷ m) r h =
    finalize_entries-IsConsistent now m (finalize_entry now id a r)
      (finalize_entry-IsConsistent now id a r h)

pub finalize_expired-IsConsistent :
    (now : ℤ) (r : Repository) → IsConsistent r → IsConsistent (finalize_expired now r)
unfolding finalize_expired
finalize_expired-IsConsistent now r h = finalize_entries-IsConsistent now r.auctions r h
