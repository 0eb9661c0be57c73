-- ===== src/Postgres/Pricing.antt =====
-- What `MinRequiredBid` of the PostgreSQL store asks for (postgres/auction_repository.go).
use auction_server.Prelude.{
  ◌≡◌, refl, List, [], ◌∷◌, map, some, arith, inl, inr, Bool-cases, Option-cases, All,
}
use auction_server.Prelude.Int.{ℤ, pos, ◌≤ℤ◌, ◌<ℤ◌, leb_ℤ, add, mul, quot, add_parts}
use auction_server.Prelude.Text.{Text}
use auction_server.Domain.{Bid}
use auction_server.Store.{price_limit, IsBelow, Exceeds}
use auction_server.Postgres.{AuctionRow, BidRow, Database, auction_row, bid_rows}
use auction_server.Postgres.Bidding.{
  round_bid_step, step_of_price, max_of, earliest, first_bid_price, required_step, floor_price,
  required_of, min_required_bid, set_missing_step, bid_of_row,
}

-- The step is at least 1 and below the limit.
pub round_bid_step_bounds :
    (p : ℤ) → p <ℤ price_limit → (pos 1 ≤ℤ round_bid_step p) × (round_bid_step p <ℤ price_limit)
unfolding round_bid_step mul quot
round_bid_step_bounds p h = ground arith

quot-lt-limit : (p : ℤ) → p <ℤ price_limit → quot p 100 <ℤ price_limit
unfolding quot
quot-lt-limit p h = ground arith

step_of_price_bounds :
    (p : ℤ) → p <ℤ price_limit → (pos 1 ≤ℤ step_of_price p) × (step_of_price p <ℤ price_limit)
unfolding step_of_price
step_of_price_bounds p h = ground (arith, quot-lt-limit p h, round_bid_step_bounds (quot p 100))

abbrev AreBelow : ℤ → List BidRow → Type 0
AreBelow m = All (λ b. b.price <ℤ m)

max_of-ge : (column : BidRow → ℤ) (top : ℤ) (rows : List BidRow) → top ≤ℤ max_of column top rows
unfolding max_of
max_of-ge column top [] = omega arith
max_of-ge column top (b ∷ rows) =
    ground (arith, max_of-ge column top rows, max_of-ge column (column b) rows)

max_of-AreBelow :
    (top m : ℤ) (rows : List BidRow) → max_of (λ b. b.price) top rows <ℤ m → AreBelow m rows
unfolding max_of
max_of-AreBelow top m [] h = tt
max_of-AreBelow top m (b ∷ rows) h = ground (
  arith,
  max_of-ge (λ b. b.price) top rows,
  max_of-ge (λ b. b.price) b.price rows,
  max_of-AreBelow top m rows,
  max_of-AreBelow b.price m rows,
)

max_of-lt :
    (top m : ℤ) (rows : List BidRow)
    → top <ℤ m
    → AreBelow m rows
    → max_of (λ b. b.price) top rows <ℤ m
unfolding max_of
max_of-lt top m [] h k = h
max_of-lt top m (b ∷ rows) h k = ground (arith, max_of-lt top m rows, max_of-lt b.price m rows)

earliest-lt :
    (m : ℤ) (b : BidRow) (rows : List BidRow) → AreBelow m (b ∷ rows) → (earliest b rows).price <ℤ m
unfolding earliest
earliest-lt m b [] h = h.0
earliest-lt m b (c ∷ rows) h = ground (arith, earliest-lt m b rows, earliest-lt m c rows)

required_step_bounds :
    (id : Text) (own : ℤ) (b : BidRow) (rows : List BidRow) (db : Database)
    → AreBelow price_limit (b ∷ rows)
    → own <ℤ price_limit
    → (pos 1 ≤ℤ (required_step id own (b ∷ rows) db).0)
      × ((required_step id own (b ∷ rows) db).0 <ℤ price_limit)
unfolding required_step first_bid_price
required_step_bounds id own b rows db h k =
    ground (arith, earliest-lt price_limit b rows h, step_of_price_bounds (earliest b rows).price)

-- A sum with a positive step exceeds the top where both are below the limit.
add-gt :
    (top step : ℤ)
    → pos 0 ≤ℤ top
    → top <ℤ price_limit
    → pos 1 ≤ℤ step
    → step <ℤ price_limit
    → top <ℤ add top step
add-gt top step h k l m = omega (arith, add_parts top step)

AreBelow-bid_of_row :
    (m : ℤ) (rows : List BidRow) → AreBelow m rows → IsBelow m (map bid_of_row rows)
unfolding bid_of_row
AreBelow-bid_of_row m [] h = tt
AreBelow-bid_of_row m (b ∷ rows) h = (h.0, AreBelow-bid_of_row m rows h.1)

floor_price_pos : (a : AuctionRow) → pos 1 ≤ℤ floor_price a
unfolding floor_price
floor_price_pos a = ground arith

required_of-Exceeds :
    (a : AuctionRow) (rows : List BidRow) (db : Database)
    → AreBelow price_limit rows
    → a.min_bid_step <ℤ price_limit
    → Exceeds (map bid_of_row rows) (required_of a rows db).0
unfolding required_of
required_of-Exceeds a [] db h k = (floor_price_pos a, tt)
required_of-Exceeds a (b ∷ rows) db h k =
    let top = max_of (λ r. r.price) b.price rows in
    let least = max_of-ge (λ r. r.price) b.price rows in
    elim (Bool-cases (leb_ℤ top (pos 0))) [
      | inl low ↦
          let small : top <ℤ floor_price a = ground (arith, floor_price_pos a) in
          rw low (
            floor_price_pos a,
            AreBelow-bid_of_row _ (b ∷ rows) (omega arith, max_of-AreBelow b.price _ rows small),
          )
      | inr high ↦
          let step = required_step_bounds a.id a.min_bid_step b rows db h k in
          let positive : pos 0 ≤ℤ top = ground arith in
          let over =
            add-gt top (required_step a.id a.min_bid_step (b ∷ rows) db).0 positive
              (max_of-lt b.price price_limit rows h.0 h.1) step.0 step.1 in
          rw high (
            omega arith,
            AreBelow-bid_of_row _ (b ∷ rows) (omega arith, max_of-AreBelow b.price _ rows over),
          )
    ]

-- The writing of a step leaves the bids.
bids-required_step :
    (id : Text) (own : ℤ) (rows : List BidRow) (db : Database)
    → (required_step id own rows db).1.bids ≡ db.bids
unfolding required_step set_missing_step
bids-required_step id own rows db = ground arith

bids-required_of :
    (a : AuctionRow) (rows : List BidRow) (db : Database) → (required_of a rows db).1.bids ≡ db.bids
unfolding required_of
bids-required_of a [] db = refl
bids-required_of a (b ∷ rows) db =
    ground (arith, bids-required_step a.id a.min_bid_step (b ∷ rows) db)

pub bids-min_required_bid : (id : Text) (db : Database) → (min_required_bid id db).1.bids ≡ db.bids
unfolding min_required_bid
bids-min_required_bid id db = elim (Option-cases (auction_row id db)) [
  | inl missing ↦ rw (missing, min_required_bid) refl
  | inr (a, found) ↦ rw (found, min_required_bid) (bids-required_of a (bid_rows id db) db)
]

-- What `min_required_bid` is asked in: the bids of the auction and its step are below the limit.
pub record HasRoom (id : Text) (db : Database) : Type 0 where
  pub prices : All (λ b. b.price <ℤ price_limit) (bid_rows id db)
  pub step : (a : AuctionRow) → auction_row id db ≡ some a → a.min_bid_step <ℤ price_limit

unfoldable pub bids_of : Text → Database → List Bid
bids_of id db = map bid_of_row (bid_rows id db)

-- The price that the PostgreSQL store requires is positive and above every bid on the auction in
-- the state that is left, if the prices of the bids and the auction's step are below the limit
-- that leaves room in 64 bits.
pub min_required_bid-AboveBids :
    (id : Text) (db : Database)
    → HasRoom id db
    → Exceeds (bids_of id (min_required_bid id db).1) (min_required_bid id db).0
unfolding bids_of bid_rows min_required_bid
min_required_bid-AboveBids id db h = elim (Option-cases (auction_row id db)) [
  | inl missing ↦ rw (missing, min_required_bid, Exceeds) tt
  | inr (a, found) ↦
      rw (found, min_required_bid)
        (rw (bids-required_of a (bid_rows id db) db)
          (required_of-Exceeds a (bid_rows id db) db h.prices (h.step a found)))
]
