-- ===== src/Memory/Pricing.antt =====
-- What `MinRequiredBid` asks for: more than every bid so far, unless the sum leaves 64 bits.
use auction_server.Prelude.{
  ℕ, ◌+◌, ◌*◌, ◌/◌, ◌%◌, ltb, ◌^◌, ◌≤◌, ◌<◌, ◌≡◌, refl, List, [], ◌∷◌, Option, none, some, arith,
  inl, inr, Bool-cases, Option-cases, sym, ◌∙◌,
}
use auction_server.Prelude.Int.{ℤ, pos, ◌≤ℤ◌, ◌<ℤ◌, leb_ℤ, add, mul, quot, add_parts}
use auction_server.Prelude.Text.{Text}
use auction_server.Store.{price_limit, IsBelow, Exceeds}
use auction_server.Domain.{Auction, Bid}
use auction_server.Prelude.Dict.{lookup, HasUniqueKeys}
use auction_server.Memory.{Repository, bids_of, finalize_expired, is_stale, summarised, end_auction}
use auction_server.Memory.Expiry.{
  ended_if_due, expired_auction, expired_bids, finalize_expired-IsExpiredAt,
}
use auction_server.Memory.Steps.Frames.{bids_of-min_required_of}
use auction_server.Memory.Bidding.{
  round_bid_step, top_price, earliest, missing_step, min_required_of, min_required_bid,
  active_auction, active_auction_found,
}

-- The step is at least 1 and no more than the one per cent that it rounds.
pub round_bid_step_bounds :
    (p : ℤ) → p <ℤ price_limit → (pos 1 ≤ℤ round_bid_step p) × (round_bid_step p <ℤ price_limit)
unfolding round_bid_step mul quot
round_bid_step_bounds p h = ground arith

-- For one per cent of at least 1 and below 2 ^ 62, the step is at least 1, no more than that and
-- less than 1000 below it, and from 1000 on it is a multiple of 1000.
pub round_bid_step_rounds :
    (p : ℕ)
    → 1 ≤ p
    → p < 2 ^ 62
    → (n : ℕ) × (round_bid_step (pos p) ≡ pos n)
      × (1 ≤ n)
      × (n ≤ p)
      × (p < n + 1000)
      × (1000 ≤ p → n % 1000 ≡ 0)
unfolding round_bid_step mul quot
round_bid_step_rounds p positive small = elim (Bool-cases (ltb p 1000)) [
  | inl few ↦ (p, ground arith, positive, omega arith, omega arith, λ h. absurd (ground arith))
  | inr many ↦
      (p / 1000 * 1000, ground arith, ground arith, omega arith, omega arith, λ h. omega arith)
]

quot-lt-limit : (p : ℤ) → p <ℤ price_limit → quot p 100 <ℤ price_limit
unfolding quot
quot-lt-limit p h = ground arith

top_price-ge : (top : ℤ) (list : List Bid) → top ≤ℤ top_price top list
unfolding top_price
top_price-ge top [] = omega arith
top_price-ge top (b ∷ bs) = ground (arith, top_price-ge top bs, top_price-ge b.price bs)

top_price-IsBelow : (top m : ℤ) (list : List Bid) → top_price top list <ℤ m → IsBelow m list
unfolding top_price
top_price-IsBelow top m [] h = tt
top_price-IsBelow top m (b ∷ bs) h = ground (
  arith,
  top_price-ge top bs,
  top_price-ge b.price bs,
  top_price-IsBelow top m bs,
  top_price-IsBelow b.price m bs,
)

top_price-lt : (top m : ℤ) (list : List Bid) → top <ℤ m → IsBelow m list → top_price top list <ℤ m
unfolding top_price
top_price-lt top m [] h k = h
top_price-lt top m (b ∷ bs) h k = ground (arith, top_price-lt top m bs, top_price-lt b.price m bs)

earliest-lt : (m : ℤ) (b : Bid) (bs : List Bid) → IsBelow m (b ∷ bs) → (earliest b bs).price <ℤ m
unfolding earliest
earliest-lt m b [] h = h.0
earliest-lt m b (c ∷ bs) h = ground (arith, earliest-lt m b bs, earliest-lt m c bs)

missing_step_bounds :
    (b : Bid) (bs : List Bid)
    → IsBelow price_limit (b ∷ bs)
    → (pos 1 ≤ℤ missing_step b bs) × (missing_step b bs <ℤ price_limit)
unfolding missing_step
missing_step_bounds b bs h = ground (
  arith,
  earliest-lt price_limit b bs h,
  quot-lt-limit (earliest b bs).price,
  round_bid_step_bounds (quot (earliest b bs).price 100),
)

-- A sum with a positive step exceeds the top where both are below the limit.
add-gt :
    (top step : ℤ)
    → pos 0 ≤ℤ top
    → top <ℤ price_limit
    → pos 1 ≤ℤ step
    → step <ℤ price_limit
    → top <ℤ add top step
add-gt top step h k l m = omega (arith, add_parts top step)

pub min_required_of-Exceeds :
    (id : Text) (a : Auction) (list : List Bid) (r : Repository)
    → IsBelow price_limit list
    → a.min_bid_step <ℤ price_limit
    → Exceeds list (min_required_of id a list r).0
unfolding min_required_of
min_required_of-Exceeds id a [] r h k = ground arith
min_required_of-Exceeds id a (b ∷ bs) r h k =
    let top = top_price (pos 0) (b ∷ bs) in
    let low = top_price-lt (pos 0) price_limit (b ∷ bs) (omega arith) h in
    let nonneg = top_price-ge (pos 0) (b ∷ bs) in
    elim (Bool-cases (leb_ℤ a.min_bid_step (pos 0))) [
      | inl missing ↦
          rw (missing, min_required_of)
            (let over =
                add-gt top (missing_step b bs) nonneg low (missing_step_bounds b bs h).0
                  (missing_step_bounds b bs h).1 in
              (omega arith, top_price-IsBelow (pos 0) _ (b ∷ bs) over))
      | inr given ↦
          rw (given, min_required_of)
            (let over = add-gt top a.min_bid_step nonneg low (ground arith) k in
              (omega arith, top_price-IsBelow (pos 0) _ (b ∷ bs) over))
    ]

-- What `min_required_bid` is asked in: the bids of the auction and its step are below the limit.
pub record HasRoom (id : Text) (r : Repository) : Type 0 where
  pub unique : HasUniqueKeys r.auctions
  pub prices : IsBelow price_limit (bids_of id r)
  pub step : (a : Auction) → lookup id r.auctions ≡ some a → a.min_bid_step <ℤ price_limit

expired_bids-IsBelow :
    (now days m : ℤ) (list : List Bid) (o : Option Auction)
    → IsBelow m list
    → IsBelow m (expired_bids now days list o)
unfolding expired_bids
expired_bids-IsBelow now days m list none h = h
expired_bids-IsBelow now days m list (some a) h =
    elim (Bool-cases (is_stale now days (ended_if_due now list a))) [
      | inl gone ↦ rw (gone, expired_bids) tt
      | inr kept ↦ rw (kept, expired_bids) h
    ]

step-expired_auction :
    (now days : ℤ) (list : List Bid) (o : Option Auction) {b : Auction}
    → expired_auction now days list o ≡ some b
    → (a : Auction) × (o ≡ some a) × (b.min_bid_step ≡ a.min_bid_step)
unfolding expired_auction ended_if_due summarised end_auction
step-expired_auction now days list none e = cc
step-expired_auction now days list (some a) e = (a, refl, ground arith)

-- The expiry pass keeps the room.
finalize_expired-HasRoom :
    (now : ℤ) (id : Text) (r : Repository)
    → HasRoom id r
    → IsBelow price_limit (bids_of id (finalize_expired now r))
      × ((a : Auction)
          → lookup id (finalize_expired now r).auctions ≡ some a
          → a.min_bid_step <ℤ price_limit)
finalize_expired-HasRoom now id r h =
    let left = finalize_expired-IsExpiredAt now id r h.unique in
    (
      rw left.bids_left (expired_bids-IsBelow now _ price_limit (bids_of id r) _ h.prices),
      λ a found.
          let (b, was, same) =
            step-expired_auction now _ (bids_of id r) (lookup id r.auctions)
              (sym left.auction_left ∙ found) in
          rw same (h.step b was),
    )

-- The price that `min_required_bid` answers is positive and above every bid on the auction in the
-- state that it leaves, if the map of auctions lists each key once and the auction's prices and
-- step are below 2 ^ 62.
pub min_required_bid-Exceeds :
    (t : ℤ) (id : Text) (r : Repository)
    → HasRoom id r
    → Exceeds (bids_of id (min_required_bid t id r).1) (min_required_bid t id r).0
unfolding min_required_bid
min_required_bid-Exceeds t id r h =
    let r' = finalize_expired t r in
    let (low, steps) = finalize_expired-HasRoom t id r h in
    elim (Option-cases (active_auction id r')) [
      | inl missing ↦ rw (missing, min_required_bid) tt
      | inr (a, found) ↦
          rw (found, min_required_bid)
            (rw (bids_of-min_required_of id a (bids_of id r') r') (
              min_required_of-Exceeds id a (bids_of id r') r' low
                (steps a (active_auction_found id r' found))))
    ]
