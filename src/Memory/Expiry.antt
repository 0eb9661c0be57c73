-- ===== src/Memory/Expiry.antt =====
-- The expiry pass of the in-memory store against a description of what it does at one key.
use auction_server.Prelude.{
  ◌≡◌, refl, false, List, [], ◌∷◌, Option, none, some, arith, inl, inr, Bool-cases, Option-cases,
  if◌then◌else◌, ◌⊎◌,
}
use auction_server.Prelude.Int.{ℤ, pos, ◌≤ℤ◌, ◌<ℤ◌}
use auction_server.Prelude.Text.{Text, text_eq, text_eq_iff, text_eq_self}
use auction_server.Prelude.Dict.{Dict, lookup, insert, lookup-insert, lookup-erase, HasUniqueKeys}
use auction_server.Domain.{Auction, Bid, active}
use auction_server.Memory.Aggregates.{lookup-refresh, bids-refresh}
use auction_server.Memory.{
  Repository, bids_of, summarised, refresh_auction_aggregates, is_due, is_stale, end_auction,
  finalize_entry, finalize_entries, finalize_expired,
}

-- What the pass makes of one auction with its bids: it is ended if its time is over, and dropped if
-- it ended long enough ago.
unfoldable pub ended_if_due : ℤ → List Bid → Auction → Auction
ended_if_due now bids a = if is_due now a then summarised bids (end_auction now a) else a

unfoldable pub expired_auction : ℤ → ℤ → List Bid → Option Auction → Option Auction
expired_auction now days bids none = none
expired_auction now days bids (some a) =
    let a' = ended_if_due now bids a in if is_stale now days a' then none else some a'

unfoldable pub expired_bids : ℤ → ℤ → List Bid → Option Auction → List Bid
expired_bids now days bids none = bids
expired_bids now days bids (some a) =
    if is_stale now days (ended_if_due now bids a) then [] else bids

-- The state at one key: its auction and its bids.
record SameAt (j : Text) (r s : Repository) : Type 0 where
  same_auction : lookup j s.auctions ≡ lookup j r.auctions
  same_bids : lookup j s.bids ≡ lookup j r.bids

finalize_entry-other :
    (now : ℤ) (id j : Text) (a : Auction) (r : Repository)
    → text_eq id j ≡ false
    → SameAt j r (finalize_entry now id a r)
unfolding finalize_entry
finalize_entry-other now id j a r other = ground (
  arith,
  lookup-refresh id j (record r { auctions = insert id (end_auction now a) r.auctions }),
  bids-refresh id (record r { auctions = insert id (end_auction now a) r.auctions }),
  lookup-insert id j (end_auction now a) r.auctions,
  lookup-erase id j r.auctions,
  lookup-erase id j r.bids,
  lookup-erase id j
      (refresh_auction_aggregates id
        (record r { auctions = insert id (end_auction now a) r.auctions })).auctions,
)

stale-summarised :
    (now days : ℤ) (bids : List Bid) (a : Auction)
    → is_stale now days (summarised bids a) ≡ is_stale now days a
unfolding is_stale summarised
stale-summarised now days bids a = refl

finalize_entry_self :
    (now : ℤ) (id : Text) (a : Auction) (r : Repository)
    → lookup id r.auctions ≡ some a
    → (lookup id (finalize_entry now id a r).auctions
        ≡ expired_auction now r.delete_days_after_expiry (bids_of id r) (some a))
      × (bids_of id (finalize_entry now id a r)
          ≡ expired_bids now r.delete_days_after_expiry (bids_of id r) (some a))
unfolding finalize_entry bids_of expired_auction expired_bids ended_if_due
finalize_entry_self now id a r found =
    let r' : Repository = record r { auctions = insert id (end_auction now a) r.auctions } in
    let s : Repository = refresh_auction_aggregates id r' in
    ground (
      arith,
      text_eq_self id,
      lookup-refresh id id r',
      bids-refresh id r',
      lookup-insert id id (end_auction now a) r.auctions,
      lookup-erase id id r.auctions,
      lookup-erase id id s.auctions,
      lookup-erase id id r.bids,
      stale-summarised now r.delete_days_after_expiry (bids_of id r) (end_auction now a),
    )

days-finalize_entry :
    (now : ℤ) (id : Text) (a : Auction) (r : Repository)
    → (finalize_entry now id a r).delete_days_after_expiry ≡ r.delete_days_after_expiry
unfolding finalize_entry refresh_auction_aggregates
days-finalize_entry now id a r = ground arith

-- The loop changes nothing at a key that it does not visit.
finalize_entries-other :
    (now : ℤ) (j : Text) (m : Dict Auction) (r : Repository)
    → lookup j m ≡ none
    → SameAt j r (finalize_entries now m r)
unfolding finalize_entries lookup
finalize_entries-other now j [] r h = record { same_auction = refl; same_bids = refl }
finalize_entries-other now j ((id, a) ∷ m) r h = ground (
  arith,
  finalize_entry-other now id j a r,
  finalize_entries-other now j m (finalize_entry now id a r),
)

-- What the pass leaves at one key.
pub record IsExpiredAt (now : ℤ) (j : Text) (r s : Repository) : Type 0 where
  pub auction_left :
      lookup j s.auctions
      ≡ expired_auction now r.delete_days_after_expiry (bids_of j r) (lookup j r.auctions)
  pub bids_left :
      bids_of j s ≡ expired_bids now r.delete_days_after_expiry (bids_of j r) (lookup j r.auctions)

finalize_entries-visited :
    (now : ℤ) (j : Text) (a : Auction) (m : Dict Auction) (r : Repository)
    → HasUniqueKeys m
    → lookup j m ≡ some a
    → lookup j r.auctions ≡ some a
    → IsExpiredAt now j r (finalize_entries now m r)
unfolding finalize_entries lookup bids_of
finalize_entries-visited now j a [] r unique here found = cc
finalize_entries-visited now j a ((id, b) ∷ m) r unique here found =
    elim (Bool-cases (text_eq id j)) [
      | inl same ↦ ground (
        arith,
        text_eq_iff id j,
        finalize_entry_self now id b r,
        finalize_entries-other now id m (finalize_entry now id b r),
      )
      | inr other ↦ ground (
        arith,
        finalize_entry-other now id j b r other,
        days-finalize_entry now id b r,
        finalize_entries-visited now j a m (finalize_entry now id b r) unique.1,
      )
    ]

-- In a store whose map of auctions lists each key once, the expiry pass leaves at every key what
-- `expired_auction` and `expired_bids` make of the auction and the bids that stood there: whatever
-- the order of the entries, no entry disturbs another.
pub finalize_expired-IsExpiredAt :
    (now : ℤ) (j : Text) (r : Repository)
    → HasUniqueKeys r.auctions
    → IsExpiredAt now j r (finalize_expired now r)
unfolding finalize_expired bids_of expired_auction expired_bids
finalize_expired-IsExpiredAt now j r unique = elim (Option-cases (lookup j r.auctions)) [
  | inl missing ↦ ground (arith, finalize_entries-other now j r.auctions r missing)
  | inr (a, found) ↦ finalize_entries-visited now j a r.auctions r unique found found
]

-- After the expiry pass on a store whose map of auctions lists each key once, an active auction
-- has no end or an end after the time of the pass.
pub no_active_past_end :
    (now : ℤ) (j : Text) (r : Repository) {a : Auction}
    → HasUniqueKeys r.auctions
    → lookup j (finalize_expired now r).auctions ≡ some a
    → a.status ≡ active
    → (a.expires_at_ms ≤ℤ pos 0) ⊎ (now <ℤ a.expires_at_ms)
unfolding expired_auction ended_if_due is_due summarised end_auction
no_active_past_end now j r unique found is_active =
    ground (arith, finalize_expired-IsExpiredAt now j r unique)
