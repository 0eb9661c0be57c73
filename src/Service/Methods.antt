-- ===== src/Service/Methods.antt =====
-- The methods of `AuctionService` (internal/service/auction_service.go) over any store. A method returns
-- its answer, the next state of the store and the outward calls that it makes.
use auction_server.Prelude.{
  Bool, false, ◌||◌, List, [], ◌∷◌, ◌++◌, Option, none, some, if◌then◌else◌,
}
use auction_server.Prelude.Int.{ℤ, pos, leb_ℤ}
use auction_server.Prelude.Text.{Text, is_blank}
use auction_server.Domain.{
  Auction, AuctionFeedFilter, AuctionFeedPage, AuctionStats, AuctionStatus, Bid, BidCooldown,
  BidSummary, CreateAuctionInput, PlaceBidInput, UpdateAuctionInput,
}
use auction_server.Effects.{
  Effect, hub_top_bids, set_top_bids, invalidate_top_bids, feed_cache_key, set_feed_page,
  publish_bid_placed,
}
use auction_server.Store.{AuctionStore}
use auction_server.Service.{
  Environment, resolved_settings, bid_cooldown_ms, cooling_down, missing_fields, not_stored,
  BidReply, accepted, refused, BidTimes, complete_input, seconds_left, check_auction, check_price,
  status_text, with_default_limit, has_blank_field, cooldown_after,
}

module _ (store : AuctionStore) where
  open store use {State}

  -- The end of `PlaceBid`, once the store has the bid.
  unfoldable pub announce_bid :
      Environment → BidTimes → Text → Bid → State → BidReply × State × List Effect
  announce_bid env times id bid s =
      let (bids, s') = store.top_bids times.top id 5 s in
      (
        accepted bid,
        s',
        set_top_bids env.has_redis id bids
            ++ ((if env.has_hub then hub_top_bids id ∷ [] else [])
                ++ publish_bid_placed times.publish (record {
                  auction_id = id;
                  user_id = bid.user_id;
                  price = bid.price;
                  at_ms = bid.created_at;
                })
                  ∷ []),
      )

  unfoldable pub store_bid :
      Environment → BidTimes → Text → PlaceBidInput → State → BidReply × State × List Effect
  unfolding announce_bid
  store_bid env times id input s =
      let (bid, s') = store.place_bid times.pass times.place id input s in
      elim bid [ none ↦ (refused not_stored, s', []) | some b ↦ announce_bid env times id b s' ]

  unfoldable pub require_price :
      Environment → BidTimes → Text → PlaceBidInput → State → BidReply × State × List Effect
  unfolding store_bid
  require_price env times id input s =
      let (min_required, s') = store.min_required_bid times.require id s in
      elim (check_price input.price min_required) [
        | some refusal ↦ (refused refusal, s', [])
        | none ↦ store_bid env times id input s'
      ]

  unfoldable pub require_auction :
      Environment → BidTimes → Text → PlaceBidInput → State → BidReply × State × List Effect
  unfolding require_price
  require_auction env times id input s =
      let (a, s') = store.get_auction_by_id times.get id s in
      elim (check_auction times.start a) [
        | some refusal ↦ (refused refusal, s', [])
        | none ↦ require_price env times id input s'
      ]

  unfoldable pub require_cooldown :
      Environment → BidTimes → Text → PlaceBidInput → State → BidReply × State × List Effect
  unfolding require_auction
  require_cooldown env times id input s =
      elim (seconds_left times.start (bid_cooldown_ms env)
        (store.last_bid_at_ms id input.user_id s)) [
          | some remain_sec ↦ (refused (cooling_down remain_sec), s, [])
          | none ↦ require_auction env times id input s
        ]

  -- `PlaceBid`
  unfoldable pub place_bid :
      Environment → BidTimes → Text → PlaceBidInput → State → BidReply × State × List Effect
  place_bid env times id input s =
      if is_blank input.user_name || leb_ℤ input.price (pos 0)
      then (refused missing_fields, s, [])
      else require_cooldown env times id (complete_input input) s

  -- `BidCooldown`
  unfoldable pub bid_cooldown : Environment → ℤ → Text → Text → State → BidCooldown
  bid_cooldown env now id user s =
      let cd_ms = bid_cooldown_ms env in
      if is_blank id || is_blank user || leb_ℤ cd_ms (pos 0)
      then cooldown_after now cd_ms none
      else cooldown_after now cd_ms (store.last_bid_at_ms id user s)

  -- `CreateAuction`
  unfoldable pub create_auction :
      Environment → ℤ → CreateAuctionInput → State → Option Auction × State
  create_auction env now input s =
      if has_blank_field input.owner_id input.title input.description
      then (none, s)
      else (let hours =
            if leb_ℤ input.duration_hours (pos 0)
            then (resolved_settings env).post_duration_hours
            else input.duration_hours in
          let (a, s') = store.create_auction now (record input { duration_hours = hours }) s in
          (some a, s'))

  -- `UpdateAuction`
  unfoldable pub update_auction : Text → UpdateAuctionInput → State → Option Auction × State
  update_auction id input s =
      if has_blank_field input.owner_id input.title input.description
      then (none, s)
      else store.update_auction id input s

  -- `DeleteBid`
  unfoldable pub delete_bid : Environment → Text → Text → State → Bool × State × List Effect
  delete_bid env id user s =
      if is_blank id || is_blank user
      then (false, s, [])
      else (let (removed, s') = store.delete_bid id user s in
          (
            removed,
            s',
            if removed
                then invalidate_top_bids env.has_redis id
                  ++ (if env.has_hub then hub_top_bids id ∷ [] else [])
                else [],
          ))

  -- `TopBids`; the last argument but one is what the cache answers.
  unfoldable pub top_bids :
      Environment → ℤ → Text → Option (List Bid) → State → List Bid × State × List Effect
  top_bids env t id (some cached) s = (cached, s, [])
  top_bids env t id none s =
      let (bids, s') = store.top_bids t id 5 s in (bids, s', set_top_bids env.has_redis id bids)

  -- `ListFeedPage`; a panic of the store is `none`, and leaves the call before the cache is written.
  unfoldable pub list_feed_page :
      Environment
      → ℤ
      → AuctionFeedFilter
      → Option AuctionFeedPage
      → State
      → Option AuctionFeedPage × State × List Effect
  list_feed_page env t filter (some cached) s = (some cached, s, [])
  list_feed_page env t filter none s =
      let f = with_default_limit filter in
      let (page, s') = store.list_auctions_page t f s in
      elim page [
        | none ↦ (none, s', [])
        | some p ↦ (
          some p,
          s',
          set_feed_page env.has_redis
              (feed_cache_key (status_text f.status) f.sort f.cursor f.limit f.bidder_user_id) p,
        )
      ]

  -- `ResultContacts`
  unfoldable pub result_contacts : ℤ → Text → Text → State → Option (List BidSummary) × State
  result_contacts t id owner s = store.result_contacts t id owner (pos 20) s

  -- The methods that only pass a call on.
  unfoldable pub list_auctions : ℤ → AuctionFeedFilter → State → List Auction × State
  list_auctions t filter s = store.list_auctions t filter s

  unfoldable pub list_my_auctions : ℤ → Text → AuctionStatus → State → List Auction × State
  list_my_auctions t owner status s = store.list_owner_auctions t owner status s

  unfoldable pub get_auction : ℤ → Text → State → Option Auction × State
  get_auction t id s = store.get_auction_by_id t id s

  unfoldable pub extend_auction : ℤ → Text → Text → ℤ → State → Bool × State
  extend_auction now id owner hours s = store.extend_auction now id owner hours s

  unfoldable pub bump_auction : ℤ → Text → Text → State → Bool × State
  bump_auction now id owner s = store.bump_auction now id owner s

  unfoldable pub set_featured : ℤ → Text → Text → State → Bool × State
  set_featured now id owner s = store.set_featured now id owner s

  unfoldable pub delete_auction : Text → Text → State → Bool × State
  delete_auction id owner s = store.delete_auction id owner s

  unfoldable pub auction_stats : Text → Text → State → Option AuctionStats
  auction_stats id owner s = store.auction_stats id owner s
