-- ===== src/Postgres/Bidding.antt =====
-- The bids of the PostgreSQL store (postgres/auction_repository.go): the price rules, the transaction
-- that places a bid, its deletion, and the lists of the best bids.
use auction_server.Prelude.{
  Bool, true, false, ◌&&◌, ◌||◌, not, List, [], ◌∷◌, ◌++◌, Option, none, some, is_nil,
  if◌then◌else◌,
}
use auction_server.Prelude.Int.{ℤ, pos, ltb_ℤ, leb_ℤ, eqb_ℤ, add, mul, quot}
use auction_server.Prelude.Text.{Text, text, text_eq, trim_space}
use auction_server.Domain.{Bid, PlaceBidInput, status_eq, active}
use auction_server.Postgres.{
  AuctionRow, BidRow, CooldownRow, Database, any_row, auction_row, bid_rows, delete_rows, has_id,
  update_rows, upsert_row,
}

-- `roundBidStep`
unfoldable pub round_bid_step : ℤ → ℤ
round_bid_step one_percent =
    if ltb_ℤ one_percent (pos 1)
    then pos 1
    else if ltb_ℤ one_percent (pos 1000)
    then one_percent
    else if ltb_ℤ one_percent (pos 100000)
    then mul (quot one_percent 1000) 1000
    else if ltb_ℤ one_percent (pos 1000000)
    then mul (quot one_percent 10000) 10000
    else mul (quot one_percent 100000) 100000

-- The step of a first price, as `lockMinBidStep` and `PlaceBid` compute it.
unfoldable pub step_of_price : ℤ → ℤ
unfolding round_bid_step
step_of_price price =
    let step = round_bid_step (quot price 100) in if ltb_ℤ step (pos 1) then pos 1 else step

-- `UPDATE auctions SET min_bid_step = $1 WHERE id = $2 AND min_bid_step = 0`
unfoldable pub set_missing_step : ℤ → Text → Database → Database
unfolding has_id update_rows
set_missing_step step id db = record db {
  auctions =
      update_rows (λ a. has_id id a && eqb_ℤ a.min_bid_step (pos 0))
        (λ a. record a { min_bid_step = step }) db.auctions;
}

-- `MAX(…)` of a column.
unfoldable pub max_of : (BidRow → ℤ) → ℤ → List BidRow → ℤ
max_of column top [] = top
max_of column top (b ∷ rows) = max_of column (if ltb_ℤ top (column b) then column b else top) rows

-- `ORDER BY created_at_ms ASC LIMIT 1`
unfoldable pub earliest : BidRow → List BidRow → BidRow
earliest first [] = first
earliest first (b ∷ rows) =
    earliest (if ltb_ℤ b.created_at_ms first.created_at_ms then b else first) rows

-- `firstBidPrice`
unfoldable pub first_bid_price : List BidRow → ℤ
unfolding earliest
first_bid_price [] = pos 0
first_bid_price (b ∷ rows) = (earliest b rows).price

-- The step of `MinRequiredBid`: the auction's own, or that of the first price, which is written.
unfoldable pub required_step : Text → ℤ → List BidRow → Database → ℤ × Database
unfolding first_bid_price step_of_price set_missing_step
required_step id own rows db =
    let first = first_bid_price rows in
    if leb_ℤ own (pos 0)
    then (if ltb_ℤ (pos 0) first
        then (step_of_price first, set_missing_step (step_of_price first) id db)
        else (pos 1, db))
    else (own, db)

unfoldable pub floor_price : AuctionRow → ℤ
floor_price a = if ltb_ℤ (pos 0) a.base_price then a.base_price else pos 1

unfoldable pub required_of : AuctionRow → List BidRow → Database → Option ℤ × Database
unfolding floor_price max_of required_step
required_of a [] db = (some (floor_price a), db)
required_of a (b ∷ rows) db =
    let top = max_of (λ r. r.price) b.price rows in
    if leb_ℤ top (pos 0)
    then (some (floor_price a), db)
    else let (step, db') = required_step a.id a.min_bid_step (b ∷ rows) db in
      (some (add top step), db')

-- `MinRequiredBid`
unfoldable pub min_required_bid : Text → Database → Option ℤ × Database
unfolding required_of
min_required_bid id db = elim (auction_row id db) [
  | none ↦ (none, db)
  | some a ↦ required_of a (bid_rows id db) db
]

-- The key of the tables `bids` and `bid_cooldowns`.
unfoldable pub is_bid_of : Text → Text → BidRow → Bool
is_bid_of id user b = text_eq b.auction_id id && text_eq b.user_id user

unfoldable pub is_cooldown_of : Text → Text → CooldownRow → Bool
is_cooldown_of id user c = text_eq c.auction_id id && text_eq c.user_id user

-- `INSERT … ON CONFLICT (auction_id, user_id) DO UPDATE SET …`
unfoldable pub upsert_bid : BidRow → List BidRow → List BidRow
unfolding is_bid_of upsert_row
upsert_bid b = upsert_row (is_bid_of b.auction_id b.user_id) b

unfoldable pub upsert_cooldown : CooldownRow → List CooldownRow → List CooldownRow
unfolding is_cooldown_of upsert_row
upsert_cooldown c = upsert_row (is_cooldown_of c.auction_id c.user_id) c

-- The statements of the transaction of `PlaceBid`.
pub data Statement : Type 0 where
  begin select_auction count_bids insert_bid set_step set_cooldown commit : Statement

-- A statement that fails aborts its transaction: the later ones fail too, and nothing is written.
unfoldable pub execute : Bool → (Database → Database) → Option Database → Option Database
execute fails statement none = none
execute true statement (some db) = none
execute false statement (some db) = some (statement db)

unfoldable pub bidder_of : PlaceBidInput → Text
bidder_of input =
    let user = trim_space input.user_id in
    if is_nil user then text "anon-" ++ trim_space input.phone else user

unfoldable pub bid_row : ℤ → Text → PlaceBidInput → BidRow
unfolding bidder_of
bid_row now id input = record {
  auction_id = id;
  user_id = bidder_of input;
  user_name = input.user_name;
  phone = input.phone;
  price = input.price;
  created_at_ms = now;
}

-- The tests of `PlaceBid` on the auction's row.
unfoldable pub accepts_bids : ℤ → AuctionRow → Bool
accepts_bids now a =
    status_eq a.status active && not (ltb_ℤ (pos 0) a.expires_at_ms && leb_ℤ a.expires_at_ms now)

-- The writes of the transaction, in order. A failing statement aborts it, also where the code
-- does not look at the error.
unfoldable pub write_bid : (Statement → Bool) → BidRow → Database → Option Database
unfolding execute upsert_bid upsert_cooldown set_missing_step step_of_price
write_bid fails b db =
    let counted = execute (fails count_bids) (λ d. d) (some db) in
    let inserted =
      execute (fails insert_bid) (λ d. record d { bids = upsert_bid b d.bids }) counted in
    let stepped =
      if is_nil (bid_rows b.auction_id db)
      then execute (fails set_step) (set_missing_step (step_of_price b.price) b.auction_id) inserted
      else inserted in
    let cooled =
      execute (fails set_cooldown)
        (λ d. record d {
          bid_cooldowns =
              upsert_cooldown
                (record {
                  auction_id = b.auction_id;
                  user_id = b.user_id;
                  last_bid_at_ms = b.created_at_ms;
                })
                d.bid_cooldowns;
        })
        stepped in
    execute (fails commit) (λ d. d) cooled

unfoldable pub bid_of_row : BidRow → Bid
bid_of_row b = record {
  auction_id = b.auction_id;
  user_id = b.user_id;
  user_name = b.user_name;
  phone = b.phone;
  gender = [];
  family_name = [];
  receive_calls = false;
  price = b.price;
  created_at = b.created_at_ms;
}

-- `PlaceBid`, where `fails` says which of its statements fail.
unfoldable pub place_bid :
    (Statement → Bool) → ℤ → Text → PlaceBidInput → Database → Option Bid × Database
unfolding bid_row accepts_bids write_bid bid_of_row
place_bid fails now id input db =
    if fails begin || fails select_auction then (none, db) else elim (auction_row id db) [
      | none ↦ (none, db)
      | some a ↦
          if accepts_bids now a
          then elim (write_bid fails (bid_row now id input) db) [
            | none ↦ (none, db)
            | some db' ↦ (some (bid_of_row (bid_row now id input)), db')
          ]
          else (none, db)
    ]

-- `DeleteBid`
unfoldable pub delete_bid : Text → Text → Database → Bool × Database
unfolding is_bid_of any_row delete_rows
delete_bid auction_id user_id db =
    let id = trim_space auction_id in
    let user = trim_space user_id in
    if is_nil id || is_nil user then (false, db) else (
      any_row (is_bid_of id user) db.bids,
      record db { bids = delete_rows (is_bid_of id user) db.bids },
    )
