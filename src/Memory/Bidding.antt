-- ===== src/Memory/Bidding.antt =====
-- The bids of the in-memory store (memory/auction_repository.go): placing and deleting them, the
-- least price for the next one, the time of a user's last one, and the lists of the best ones.
use auction_server.Prelude.{
  ◌≡◌, arith, Bool, true, false, ◌&&◌, ◌||◌, not, List, [], ◌∷◌, ◌++◌, Option, none, some, take,
  keep, is_nil, length, ltb, if◌then◌else◌, ℕ,
}
use auction_server.Prelude.Int.{ℤ, pos, ltb_ℤ, leb_ℤ, eqb_ℤ, add, mul, quot}
use auction_server.Prelude.Text.{Text, text_eq, trim_space, is_blank}
use auction_server.Prelude.Dict.{Dict, lookup, insert}
use auction_server.Prelude.Sort.{sort}
use auction_server.Domain.{Auction, Bid, BidSummary, PlaceBidInput, status_eq, active, ended}
use auction_server.Memory.{
  Repository, bids_of, by_price, finalize_expired, refresh_auction_aggregates,
}

-- `roundBidStepMemory`
unfoldable pub round_bid_step : ℤ → ℤ
round_bid_step one_percent =
    if ltb_ℤ one_percent (pos 1)
    then pos 1
    else if ltb_ℤ one_percent (pos 1000)
    then one_percent
    else mul (quot one_percent 1000) 1000

-- The loop of `PlaceBid` over the list: the first bid of the user is replaced in place; `none`
-- is `replaced == false`.
unfoldable pub replace_bid : Text → Bid → List Bid → Option (List Bid)
replace_bid user bid [] = none
replace_bid user bid (b ∷ bs) =
    let rest = replace_bid user bid bs in
    if text_eq b.user_id user && not (is_nil user)
    then some (bid ∷ bs)
    else elim rest [ none ↦ none | some bs' ↦ some (b ∷ bs') ]

unfoldable pub new_bid : ℤ → Text → PlaceBidInput → Bid
new_bid now auction_id input = record {
  auction_id = auction_id;
  user_id = trim_space input.user_id;
  user_name = input.user_name;
  phone = input.phone;
  gender = [];
  family_name = [];
  receive_calls = false;
  price = input.price;
  created_at = now;
}

-- The list and the auction after the loop.
unfoldable pub merge_bid : Bid → List Bid → List Bid
merge_bid bid list = elim (replace_bid bid.user_id bid list) [
  | none ↦ list ++ bid ∷ []
  | some list' ↦ list'
]

unfoldable pub set_first_step : Bid → List Bid → Auction → Auction
set_first_step bid list a = elim (replace_bid bid.user_id bid list) [
  | none ↦
      if eqb_ℤ a.min_bid_step (pos 0)
      then record a { min_bid_step = round_bid_step (quot bid.price 100) }
      else a
  | some list' ↦ a
]

-- `r.bidCooldownAt[auctionID]`, made where it is missing.
unfoldable pub cooldowns_of : Text → Repository → Dict ℤ
cooldowns_of id r = elim (lookup id r.bid_cooldown_at) [ none ↦ [] | some by_user ↦ by_user ]

-- What `PlaceBid` does once it has found an active auction: it writes the maps, and refreshes the
-- aggregates.
unfoldable pub write_bid : Bid → Text → Auction → Repository → Repository
write_bid bid id a r =
    let list = bids_of id r in
    record r {
      auctions = insert id (set_first_step bid list a) r.auctions;
      bids = insert id (merge_bid bid list) r.bids;
      bid_cooldown_at =
          insert id (insert bid.user_id bid.created_at (cooldowns_of id r)) r.bid_cooldown_at;
    }

unfoldable pub store_bid : Bid → Text → Auction → Repository → Repository
unfolding write_bid
store_bid bid id a r = refresh_auction_aggregates id (write_bid bid id a r)

-- An auction that the code finds and that is active.
unfoldable pub active_auction : Text → Repository → Option Auction
active_auction id r = elim (lookup id r.auctions) [
  | none ↦ none
  | some a ↦ if status_eq a.status active then some a else none
]

-- `PlaceBid`; the clock is read for the expiry pass, and again for the bid.
unfoldable pub place_bid : ℤ → ℤ → Text → PlaceBidInput → Repository → Option Bid × Repository
place_bid t now id input r =
    let r' = finalize_expired t r in
    elim (active_auction id r') [
      | none ↦ (none, r')
      | some a ↦ let bid = new_bid now id input in (some bid, store_bid bid id a r')
    ]

-- `DeleteBid`
unfoldable pub is_not_by : Text → Bid → Bool
is_not_by user b = not (text_eq b.user_id user)

-- The loop's flag `removed`.
unfoldable pub has_bid_by : Text → List Bid → Bool
has_bid_by user [] = false
has_bid_by user (b ∷ bs) = text_eq b.user_id user || has_bid_by user bs

unfoldable pub remove_bids : Text → Repository → Text → Bool × Repository
remove_bids id r user =
    let list = bids_of id r in
    let out = keep (is_not_by user) list in
    if has_bid_by user list
    then (true, refresh_auction_aggregates id (record r { bids = insert id out r.bids }))
    else (false, r)

unfoldable pub delete_bid : Text → Text → Repository → Bool × Repository
delete_bid auction_id user_id r =
    let id = trim_space auction_id in
    let user = trim_space user_id in
    if is_nil id || is_nil user then (false, r) else remove_bids id r user

-- The loops of `MinRequiredBid`: the highest price, at least 0, and the earliest bid.
unfoldable pub top_price : ℤ → List Bid → ℤ
top_price top [] = top
top_price top (b ∷ bs) = top_price (if ltb_ℤ top b.price then b.price else top) bs

unfoldable pub earliest : Bid → List Bid → Bid
earliest first [] = first
earliest first (b ∷ bs) = earliest (if ltb_ℤ b.created_at first.created_at then b else first) bs

-- The step that `MinRequiredBid` computes where the auction has none.
unfoldable pub missing_step : Bid → List Bid → ℤ
missing_step b bs =
    let step = round_bid_step (quot (earliest b bs).price 100) in
    if ltb_ℤ step (pos 1) then pos 1 else step

unfoldable pub min_required_of : Text → Auction → List Bid → Repository → Option ℤ × Repository
min_required_of id a [] r = (some (if ltb_ℤ (pos 0) a.base_price then a.base_price else pos 1), r)
min_required_of id a (b ∷ bs) r =
    let top = top_price (pos 0) (b ∷ bs) in
    let step = missing_step b bs in
    if leb_ℤ a.min_bid_step (pos 0)
    then (
      some (add top step),
      record r { auctions = insert id (record a { min_bid_step = step }) r.auctions },
    )
    else (some (add top a.min_bid_step), r)

-- `MinRequiredBid`, which writes the step that it computed.
unfoldable pub min_required_bid : ℤ → Text → Repository → Option ℤ × Repository
min_required_bid t id r =
    let r' = finalize_expired t r in
    elim (active_auction id r') [
      | none ↦ (none, r')
      | some a ↦ min_required_of id a (bids_of id r') r'
    ]

-- The loop of `LastBidAtMs` over the bids.
unfoldable pub latest_by : Text → ℤ → List Bid → ℤ
latest_by user max_at [] = max_at
latest_by user max_at (b ∷ bs) =
    latest_by user
      (if text_eq b.user_id user && ltb_ℤ max_at b.created_at then b.created_at else max_at) bs

unfoldable pub cooldown_entry : Text → Text → Repository → Option ℤ
cooldown_entry id user r = elim (lookup id r.bid_cooldown_at) [
  | none ↦ none
  | some by_user ↦ elim (lookup user by_user) [
    | none ↦ none
    | some at ↦ if ltb_ℤ (pos 0) at then some at else none
  ]
]

-- `LastBidAtMs`; `none` is its answer `(0, false)`.
unfoldable pub last_bid_at_ms : Text → Text → Repository → Option ℤ
last_bid_at_ms id user r =
    if is_blank id || is_blank user then none else elim (cooldown_entry id user r) [
      | some at ↦ some at
      | none ↦ some (latest_by user (pos 0) (bids_of id r))
    ]

-- The order of `topBidsLocked`: by price, then the earlier bid.
unfoldable pub by_price_then_time : Bid → Bid → Bool
by_price_then_time a b =
    if eqb_ℤ a.price b.price then ltb_ℤ a.created_at b.created_at else ltb_ℤ b.price a.price

unfoldable pub top_bids_locked : Text → ℕ → Repository → List Bid
top_bids_locked id limit r = take limit (sort by_price_then_time (bids_of id r))

-- `TopBids`; its callers pass 5.
unfoldable pub top_bids : ℤ → Text → ℕ → Repository → List Bid × Repository
top_bids t id limit r =
    let r' = finalize_expired t r in (take limit (sort by_price (bids_of id r')), r')

-- `GetAuctionByID`
unfoldable pub get_auction_by_id : ℤ → Text → Repository → Option Auction × Repository
get_auction_by_id t id r =
    let r' = finalize_expired t r in
    elim (lookup id r'.auctions) [
      | none ↦ (none, r')
      | some a ↦ (some (record a { top_bids = top_bids_locked id 5 r' }), r')
    ]

unfoldable pub contacts_of : ℤ → List BidSummary → List BidSummary
contacts_of (pos limit) out = if ltb 0 limit && ltb limit (length out) then take limit out else out
contacts_of limit out = out

-- `ResultContacts`
unfoldable pub result_contacts :
    ℤ → Text → Text → ℤ → Repository → Option (List BidSummary) × Repository
result_contacts t id owner limit r =
    let r' = finalize_expired t r in
    elim (lookup id r'.auctions) [
      | none ↦ (none, r')
      | some a ↦
          if not (text_eq a.owner_id owner) || not (status_eq a.status ended)
          then (none, r')
          else (some (contacts_of limit a.final_top_offers), r')
    ]

pub active_auction_found :
    (id : Text) (r : Repository) {a : Auction}
    → active_auction id r ≡ some a
    → lookup id r.auctions ≡ some a
unfolding active_auction
active_auction_found id r h = ground arith

pub active_auction_is_active :
    (id : Text) (r : Repository) {a : Auction} → active_auction id r ≡ some a → a.status ≡ active
unfolding active_auction
active_auction_is_active id r h = ground arith
