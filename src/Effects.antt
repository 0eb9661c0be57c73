-- ===== src/Effects.antt =====
-- What the services send to the outside: the Redis cache and queue (internal/cache,
-- internal/moderation/queue.go), the Kafka topics (internal/events), the websocket hub and the
-- support chat. Redis, Kafka and the chat's database are not modelled: a service returns the calls
-- that it makes, in their order, and what it reads from the cache is an argument.
use auction_server.Prelude.{Bool, ◌&&◌, not, List, [], ◌∷◌, ◌++◌, is_nil, if◌then◌else◌}
use auction_server.Prelude.Int.{ℤ, pos, eqb_ℤ, leb_ℤ}
use auction_server.Prelude.Text.{Text, text, format_int}
use auction_server.Domain.{AuctionFeedPage, Bid}

pub record BidPlacedEvent : Type 0 where
  pub auction_id : Text
  pub user_id : Text
  pub price : ℤ
  pub at_ms : ℤ

pub record AuctionSubmittedEvent : Type 0 where
  pub auction_id : Text
  pub owner_id : Text
  pub title : Text
  pub at_ms : ℤ

pub record ModerationDecidedEvent : Type 0 where
  pub auction_id : Text
  pub owner_id : Text
  pub decision : Text
  pub reason : Text
  pub at_ms : ℤ

pub data Effect : Type 0 where
  redis_set_top_bids : Text → List Bid → Effect
  redis_publish : Text → Effect
  redis_delete : Text → Effect
  redis_set_feed_page : Text → AuctionFeedPage → Effect
  redis_delete_feed_pages : Effect
  redis_enqueue : Text → ℤ → Effect
  redis_dequeue : Text → Effect
  hub_top_bids : Text → Effect
  hub_chat : Text → Text → Text → Effect
  chat_message : (auction_id sender_id peer_id sender_name body : Text) → Effect
  bid_placed : BidPlacedEvent → Effect
  auction_submitted : AuctionSubmittedEvent → Effect
  moderation_decided : ModerationDecidedEvent → Effect

-- `topKey`, `pubKey`
unfoldable pub top_key : Text → Text
top_key auction_id = text "auction:" ++ (auction_id ++ text ":topbids")

unfoldable pub pub_key : Text → Text
pub_key auction_id = text "auction:" ++ (auction_id ++ text ":bids")

-- `SetTopBids`; the first argument is `platform.Redis != nil`.
unfoldable pub set_top_bids : Bool → Text → List Bid → List Effect
set_top_bids redis id bids =
    if redis && not (is_nil id)
    then redis_set_top_bids (top_key id) bids ∷ redis_publish (pub_key id) ∷ []
    else []

-- `InvalidateTopBids`
unfoldable pub invalidate_top_bids : Bool → Text → List Effect
invalidate_top_bids redis id = if redis then redis_delete (top_key id) ∷ [] else []

-- `FeedCacheKey`
unfoldable pub feed_cache_key : Text → Text → Text → ℤ → Text → Text
feed_cache_key status sort cursor limit bidder =
    text "feed:"
    ++ (status
        ++ (text ":"
            ++ (sort
                ++ (text ":"
                    ++ (cursor ++ (text ":" ++ (format_int limit ++ (text ":" ++ bidder))))))))

-- `SetFeedPage`
unfoldable pub set_feed_page : Bool → Text → AuctionFeedPage → List Effect
set_feed_page redis key page = if redis then redis_set_feed_page key page ∷ [] else []

-- `InvalidateFeedCache`
unfoldable pub invalidate_feed_cache : Bool → List Effect
invalidate_feed_cache redis = if redis then redis_delete_feed_pages ∷ [] else []

-- `EnqueuePending`, `DequeuePending`
unfoldable pub enqueue_pending : Bool → ℤ → Text → ℤ → List Effect
enqueue_pending redis now id created_at_ms =
    if redis && not (is_nil id)
    then redis_enqueue id (if leb_ℤ created_at_ms (pos 0) then now else created_at_ms) ∷ []
    else []

unfoldable pub dequeue_pending : Bool → Text → List Effect
dequeue_pending redis id = if redis && not (is_nil id) then redis_dequeue id ∷ [] else []

-- `if ev.AtMs == 0 { ev.AtMs = time.Now().UnixMilli() }`
abbrev pub stamp : ℤ → ℤ → ℤ
stamp now at_ms = if eqb_ℤ at_ms (pos 0) then now else at_ms

-- `PublishBidPlaced`, `PublishAuctionSubmitted`, `PublishModerationDecided`
unfoldable pub publish_bid_placed : ℤ → BidPlacedEvent → Effect
publish_bid_placed now ev = bid_placed (record ev { at_ms = stamp now ev.at_ms })

unfoldable pub publish_auction_submitted : ℤ → AuctionSubmittedEvent → Effect
publish_auction_submitted now ev = auction_submitted (record ev { at_ms = stamp now ev.at_ms })

unfoldable pub publish_moderation_decided : ℤ → ModerationDecidedEvent → Effect
publish_moderation_decided now ev = moderation_decided (record ev { at_ms = stamp now ev.at_ms })
