-- ===== src/Postgres/BidTable.antt =====
-- The table `bids` as a map from an auction and a user to the user's bid (postgres/auction_repository.go,
-- schema.sql).
use mathlib.Core.Path.{fun_ext}
use auction_server.Prelude.{
  ◌≡◌, refl, ap, ◌∙◌, Bool, true, false, ◌&&◌, ◌||◌, List, [], ◌∷◌, Option, none, some, arith, inl,
  inr, Bool-cases, Option-cases, is_nil, if◌then◌else◌,
}
use auction_server.Prelude.Int.{ℤ}
use auction_server.Prelude.Text.{Text, text_eq, text_eq_iff, text_eq_self, trim_space}
use auction_server.Domain.{Bid, PlaceBidInput}
use auction_server.Postgres.{AuctionRow, bid_rows, BidRow, Database, auction_row, select_row}
use auction_server.Postgres.Rows.{
  select_row-upsert_row, select_row-upsert_row_other, select_row-delete_rows,
  select_row-delete_rows_other,
}
use auction_server.Postgres.Bidding.{
  first_bid_price, step_of_price, bid_row, bidder_of, delete_bid, is_bid_of, min_required_bid,
  place_bid, required_of, required_step, upsert_bid,
}
use auction_server.Postgres.Placing.{
  is_open, is_open-set_missing_step, no_fault, place_bid_open, place_bid_shut,
}
use auction_server.Postgres.Pricing.{bids-min_required_bid}

-- The calls that read or write bids.
pub data BidCall : Type 0 where
  place : ℤ → Text → PlaceBidInput → BidCall
  remove : (auction user : Text) → BidCall
  ask : Text → BidCall

pub after_call : BidCall → Database → Database
after_call (place now id input) db = (place_bid no_fault now id input db).1
after_call (remove auction user) db = (delete_bid auction user db).1
after_call (ask id) db = (min_required_bid id db).1

pub run : List BidCall → Database → Database
run [] db = db
run (c ∷ calls) db = run calls (after_call c db)

-- The specification: a map, and which auctions take a bid when.
abbrev pub BidMap : Type 0
BidMap = Text → Text → Option BidRow

pub update : Text → Text → Option BidRow → BidMap → BidMap
update id user b m auction bidder =
    if text_eq id auction && text_eq user bidder then b else m auction bidder

pub effect : (ℤ → Text → Bool) → BidCall → BidMap → BidMap
effect open' (place now id input) m =
    if open' now id then update id (bidder_of input) (some (bid_row now id input)) m else m
effect open' (remove auction user) m =
    if is_nil (trim_space auction) || is_nil (trim_space user)
    then m
    else update (trim_space auction) (trim_space user) none m
effect open' (ask id) m = m

pub replay : (ℤ → Text → Bool) → List BidCall → BidMap → BidMap
replay open' [] m = m
replay open' (c ∷ calls) m = replay open' calls (effect open' c m)

-- How the table reads as a map.
pub bid_map : Database → BidMap
bid_map db auction bidder = select_row (is_bid_of auction bidder) db.bids

-- Two keys that differ have no row in common.
keys_apart :
    (id user auction bidder : Text)
    → text_eq id auction && text_eq user bidder ≡ false
    → (r : BidRow) → is_bid_of id user r ≡ true
    → is_bid_of auction bidder r ≡ false
unfolding is_bid_of
keys_apart id user auction bidder other r h = ground (
  arith,
  text_eq_iff id auction,
  text_eq_iff user bidder,
  text_eq_iff r.auction_id id,
  text_eq_iff r.user_id user,
  text_eq_iff r.auction_id auction,
  text_eq_iff r.user_id bidder,
)

same_keys :
    (id user auction bidder : Text)
    → text_eq id auction && text_eq user bidder ≡ true
    → (auction ≡ id) × (bidder ≡ user)
same_keys id user auction bidder same =
    ground (arith, text_eq_iff id auction, text_eq_iff user bidder)

is_own_bid : (b : BidRow) → is_bid_of b.auction_id b.user_id b ≡ true
unfolding is_bid_of
is_own_bid b = ground (arith, text_eq_self b.auction_id, text_eq_self b.user_id)

bid_map-upsert :
    (b : BidRow) (db after : Database) (auction bidder : Text)
    → after.bids ≡ upsert_bid b db.bids
    → bid_map after auction bidder
      ≡ update b.auction_id b.user_id (some b) (bid_map db) auction bidder
unfolding bid_map update upsert_bid
bid_map-upsert b db after auction bidder e =
    let own = is_bid_of b.auction_id b.user_id in
    elim (Bool-cases (text_eq b.auction_id auction && text_eq b.user_id bidder)) [
      | inl same ↦
          let (is_auction, is_user) = same_keys b.auction_id b.user_id auction bidder same in
          rw same (
            ap (select_row (is_bid_of auction bidder)) e
            ∙ (rw (is_auction, is_user) (select_row-upsert_row own db.bids b (is_own_bid b))))
      | inr other ↦
          let apart = keys_apart b.auction_id b.user_id auction bidder other in
          rw other (
            ap (select_row (is_bid_of auction bidder)) e
            ∙ select_row-upsert_row_other own (is_bid_of auction bidder) apart db.bids b
                (apart b (is_own_bid b)))
    ]

bid_map-delete_bid :
    (auction user id bidder : Text) (db : Database)
    → bid_map (delete_bid auction user db).1 id bidder
      ≡ effect (λ _ _. true) (remove auction user) (bid_map db) id bidder
unfolding bid_map update effect delete_bid
bid_map-delete_bid auction user id bidder db =
    let gone = is_bid_of (trim_space auction) (trim_space user) in
    elim (Bool-cases (is_nil (trim_space auction) || is_nil (trim_space user))) [
      | inl blank ↦ rw blank refl
      | inr given ↦
          elim (Bool-cases (text_eq (trim_space auction) id && text_eq (trim_space user) bidder)) [
            | inl same ↦
                let (is_auction, is_user) =
                  same_keys (trim_space auction) (trim_space user) id bidder same in
                rw (given, same) (rw (is_auction, is_user) (select_row-delete_rows gone db.bids))
            | inr other ↦
                rw (given, other)
                  (select_row-delete_rows_other gone (is_bid_of id bidder)
                    (keys_apart (trim_space auction) (trim_space user) id bidder other) db.bids)
          ]
    ]

is_open-required_of :
    (a : AuctionRow) (rows : List BidRow) (db : Database) (t : ℤ) (j : Text)
    → is_open t j (required_of a rows db).1 ≡ is_open t j db
unfolding required_of required_step
is_open-required_of a [] db t j = refl
is_open-required_of a (b ∷ rows) db t j =
    let step = step_of_price (first_bid_price (b ∷ rows)) in
    ground (arith, is_open-set_missing_step step a.id db t j)

is_open-delete_bid :
    (auction user : Text) (db : Database) (t : ℤ) (j : Text)
    → is_open t j (delete_bid auction user db).1 ≡ is_open t j db
unfolding delete_bid is_open auction_row
is_open-delete_bid auction user db t j = ground arith

is_open-min_required_bid :
    (id : Text) (db : Database) (t : ℤ) (j : Text)
    → is_open t j (min_required_bid id db).1 ≡ is_open t j db
unfolding min_required_bid
is_open-min_required_bid id db t j = elim (Option-cases (auction_row id db)) [
  | inl missing ↦ ap (is_open t j) (rw (missing, min_required_bid) refl)
  | inr (a, found) ↦
      ap (is_open t j) (rw (found, min_required_bid) refl)
      ∙ is_open-required_of a (bid_rows id db) db t j
]

-- No call changes which auctions take bids.
is_open-after_call :
    (c : BidCall) (db : Database) (t : ℤ) (j : Text)
    → is_open t j (after_call c db) ≡ is_open t j db
unfolding after_call
is_open-after_call (place now id input) db t j = elim (Bool-cases (is_open now id db)) [
  | inl open' ↦ (place_bid_open now id input db open').open_after t j
  | inr shut ↦
      ap (λ (r : Option Bid × Database). is_open t j r.1) (place_bid_shut now id input db shut)
]
is_open-after_call (remove auction user) db t j = is_open-delete_bid auction user db t j
is_open-after_call (ask id) db t j = is_open-min_required_bid id db t j

bid_map-after_call :
    (c : BidCall) (db : Database) (auction bidder : Text)
    → bid_map (after_call c db) auction bidder
      ≡ effect (λ t j. is_open t j db) c (bid_map db) auction bidder
unfolding after_call effect bid_row
bid_map-after_call (place now id input) db auction bidder = elim (Bool-cases (is_open now id db)) [
  | inl open' ↦ rw open' (
      bid_map-upsert (bid_row now id input) db (place_bid no_fault now id input db).1 auction bidder
        (place_bid_open now id input db open').bids_after)
  | inr shut ↦ rw shut (
      ap (λ (r : Option Bid × Database). bid_map r.1 auction bidder)
        (place_bid_shut now id input db shut))
]
bid_map-after_call (remove by_auction by_user) db auction bidder =
    bid_map-delete_bid by_auction by_user auction bidder db
bid_map-after_call (ask id) db auction bidder =
    unfold bid_map in ap (select_row (is_bid_of auction bidder)) (bids-min_required_bid id db)

-- After any sequence of placed bids, deleted bids and questions for the least price, where no
-- statement fails, the table of bids read as a map from an auction and a user to a bid is what the
-- calls make of that map: an accepted bid replaces its bidder's entry, a deletion removes one
-- entry, and a refused bid and a question change none. Which bids are accepted is decided by the
-- auctions of the first state.
pub run_refines :
    (calls : List BidCall) (db : Database)
    → bid_map (run calls db) ≡ replay (λ t j. is_open t j db) calls (bid_map db)
unfolding run replay
run_refines [] db = refl
run_refines (c ∷ calls) db =
    let tests : (λ t j. is_open t j (after_call c db)) ≡ (λ t j. is_open t j db) =
      fun_ext (λ t. fun_ext (λ j. is_open-after_call c db t j)) in
    let read : bid_map (after_call c db) ≡ effect (λ t j. is_open t j db) c (bid_map db) =
      fun_ext (λ auction. fun_ext (λ bidder. bid_map-after_call c db auction bidder)) in
    run_refines calls (after_call c db)
    ∙ ap (λ open'. replay open' calls (bid_map (after_call c db))) tests
    ∙ ap (replay (λ t j. is_open t j db) calls) read
