-- ===== src/Memory.antt =====
-- The in-memory store (internal/repository/memory): its state, the aggregates that an auction keeps
-- about its bids, and the expiry pass that most operations start with. An operation that changes
-- the state returns the new state; each reading of the clock is an argument, in the code's order.
-- The lock is held during each whole operation, so an operation is one step.
pub mod Bidding
pub mod Owner
pub mod Moderation
pub mod Feed
pub mod Aggregates
pub mod Steps
pub mod Expiry
pub mod Pricing
pub mod Paging
pub mod Walk
pub mod Visible
pub mod BestBids
pub mod Others
pub mod Lifetime
pub mod Instance
use auction_server.Prelude.{
  ℕ, length, Bool, true, false, ◌&&◌, List, [], ◌∷◌, map, take, Option, none, some, if◌then◌else◌,
}
use auction_server.Prelude.Int.{ℤ, pos, ltb_ℤ, leb_ℤ, eqb_ℤ, sub, mul}
use auction_server.Prelude.Text.{Text}
use auction_server.Prelude.Dict.{Dict, lookup, insert, erase}
use auction_server.Prelude.Sort.{sort}
use auction_server.Domain.{Auction, Bid, BidSummary, status_eq, active, ended}

pub record Repository : Type 0 where
  pub auctions : Dict Auction
  pub bids : Dict (List Bid)
  pub bid_cooldown_at : Dict (Dict ℤ)
  pub next_id : ℤ
  pub delete_days_after_expiry : ℤ

-- `NewAuctionRepository`
unfoldable pub new_repository : ℤ → Repository
new_repository days = record {
  auctions = [];
  bids = [];
  bid_cooldown_at = [];
  next_id = pos 1;
  delete_days_after_expiry = if ltb_ℤ days (pos 0) then pos 0 else days;
}

-- `r.bids[id]`, which is the empty list where the map has no such key.
unfoldable pub bids_of : Text → Repository → List Bid
bids_of id r = elim (lookup id r.bids) [ none ↦ [] | some list ↦ list ]

-- `list[i].Price > list[j].Price`
unfoldable pub by_price : Bid → Bid → Bool
by_price a b = ltb_ℤ b.price a.price

-- The set `unique` of the names in a list of bids.
unfoldable pub add_user_names : List Bid → Dict (Unit {0}) → Dict (Unit {0})
add_user_names [] unique = unique
add_user_names (b ∷ bs) unique = add_user_names bs (insert b.user_name tt unique)

unfoldable pub bid_summary : Bid → BidSummary
bid_summary b = record { user_name = b.user_name; phone = b.phone; price = b.price }

-- What `refreshAuctionAggregatesLocked` computes from the bids of an auction.
unfoldable pub offers_count_of : List Bid → ℕ
offers_count_of bids = length (add_user_names (sort by_price bids) [])

unfoldable pub top_offers_of : List Bid → List BidSummary
top_offers_of bids = map bid_summary (take 5 (sort by_price bids))

unfoldable pub summarised : List Bid → Auction → Auction
summarised list a = record a {
  offers_count = offers_count_of list;
  final_top_offers = top_offers_of list;
}

-- `refreshAuctionAggregatesLocked`
unfoldable pub refresh_auction_aggregates : Text → Repository → Repository
refresh_auction_aggregates id r = elim (lookup id r.auctions) [
  | none ↦ r
  | some a ↦ record r { auctions = insert id (summarised (bids_of id r) a) r.auctions }
]

-- The first test of the expiry pass.
unfoldable pub is_due : ℤ → Auction → Bool
is_due now a =
    status_eq a.status active && ltb_ℤ (pos 0) a.expires_at_ms && leb_ℤ a.expires_at_ms now

unfoldable pub expiry_delete_cutoff : ℤ → ℤ → ℤ
expiry_delete_cutoff now days =
    if ltb_ℤ (pos 0) days then sub now (mul (mul (mul (mul days 24) 60) 60) 1000) else pos 0

-- The second test of the expiry pass.
unfoldable pub is_stale : ℤ → ℤ → Auction → Bool
is_stale now days a =
    ltb_ℤ (pos 0) days
    && status_eq a.status ended
    && ltb_ℤ (pos 0) a.ended_at_ms
    && leb_ℤ a.ended_at_ms (expiry_delete_cutoff now days)

unfoldable pub end_auction : ℤ → Auction → Auction
end_auction now a = record a { status = ended; ended_at_ms = now }

-- The body of the expiry pass at one entry of the map.
unfoldable pub finalize_entry : ℤ → Text → Auction → Repository → Repository
finalize_entry now id auction r =
    let due = is_due now auction in
    let auction' : Auction = if due then end_auction now auction else auction in
    let r' : Repository =
      if due
      then refresh_auction_aggregates id (record r { auctions = insert id auction' r.auctions })
      else r in
    if is_stale now r.delete_days_after_expiry auction'
    then record r' { auctions = erase id r'.auctions; bids = erase id r'.bids }
    else r'

unfoldable pub finalize_entries : ℤ → Dict Auction → Repository → Repository
finalize_entries now [] r = r
finalize_entries now ((id, auction) ∷ rest) r =
    finalize_entries now rest (finalize_entry now id auction r)

-- `finalizeExpiredLocked`. `range` visits each entry once, and the body writes only to the entry
-- that is visited.
unfoldable pub finalize_expired : ℤ → Repository → Repository
finalize_expired now r = finalize_entries now r.auctions r
