-- ===== src/Service.antt =====
-- `AuctionService` (internal/service/auction_service.go) over any store: validation, the cooldown,
-- the checks before a bid, and the calls that follow it. A method returns its answer, the next state
-- of the store and the outward calls that it makes.
pub mod Methods
pub mod Bidding
pub mod Waiting
pub mod Moderation
use auction_server.Prelude.{
  ℕ, Bool, true, false, ◌&&◌, ◌||◌, not, List, [], ◌∷◌, ◌++◌, Option, none, some, is_nil,
  if◌then◌else◌,
}
use auction_server.Prelude.Int.{ℤ, pos, ltb_ℤ, leb_ℤ, add, sub, mul, quot}
use auction_server.Prelude.Text.{Text, text, is_blank}
use auction_server.Domain.{
  Auction, AuctionFeedFilter, AuctionFeedPage, AuctionStats, AuctionStatus, Bid, BidCooldown,
  BidSummary, CreateAuctionInput, PlaceBidInput, UpdateAuctionInput, any_status, active, ended,
  archived, approved, status_eq, moderation_eq,
}
use auction_server.Settings.{Config, Settings, defaults_from_config, resolved}
use auction_server.Effects.{
  Effect, hub_top_bids, set_top_bids, invalidate_top_bids, feed_cache_key, set_feed_page,
  publish_bid_placed,
}
use auction_server.Store.{AuctionStore}

-- The fields of `AuctionService` that do not change: the settings that its provider holds (`none`
-- is a nil provider), the configuration, and whether there are a hub and a Redis client.
pub record Environment : Type 0 where
  pub settings : Option Settings
  pub cfg : Config
  pub has_hub : Bool
  pub has_redis : Bool

-- `resolved`
unfoldable pub resolved_settings : Environment → Settings
resolved_settings env = elim env.settings [
  | none ↦ defaults_from_config env.cfg
  | some st ↦ resolved st env.cfg
]

-- `bidCooldownMs`
unfoldable pub bid_cooldown_ms : Environment → ℤ
bid_cooldown_ms env =
    let sec = (resolved_settings env).bid_cooldown_seconds in
    mul (if ltb_ℤ sec (pos 0) then pos 0 else sec) 1000

-- The answers of `PlaceBid` that are not a bid, one for each message; `not_found` is the message of
-- two tests, and `cooling_down` holds the seconds that its message names.
pub data Refusal : Type 0 where
  missing_fields not_found not_published has_ended time_over below_minimum not_stored : Refusal
  cooling_down : ℤ → Refusal

pub data BidReply : Type 0 where
  accepted : Bid → BidReply
  refused : Refusal → BidReply

-- The readings of the clock in `PlaceBid`, in their order.
pub record BidTimes : Type 0 where
  pub start : ℤ
  pub get : ℤ
  pub require : ℤ
  pub pass : ℤ
  pub place : ℤ
  pub top : ℤ
  pub publish : ℤ

abbrev or_text : Text → Text → Text
or_text given other = if is_blank given then other else given

-- The three defaults at the head of `PlaceBid`.
unfoldable pub complete_input : PlaceBidInput → PlaceBidInput
complete_input input = record input {
  user_id = or_text (or_text input.user_id input.phone) input.user_name;
  phone = or_text input.phone (text "0000000000");
}

-- The seconds that are left, if the last bid is too recent.
unfoldable pub seconds_left : ℤ → ℤ → Option ℤ → Option ℤ
seconds_left now cd_ms none = none
seconds_left now cd_ms (some last_bid_at) =
    let next_allowed_at = add last_bid_at cd_ms in
    if ltb_ℤ (pos 0) cd_ms && (ltb_ℤ (pos 0) last_bid_at && ltb_ℤ now next_allowed_at)
    then some (quot (add (sub next_allowed_at now) (pos 999)) 1000)
    else none

-- The tests on the auction that `GetAuctionByID` returned.
unfoldable pub check_auction : ℤ → Option Auction → Option Refusal
check_auction now none = some not_found
check_auction now (some a) =
    if not (moderation_eq a.moderation_status approved)
    then some not_published
    else if not (status_eq a.status active)
    then some has_ended
    else if ltb_ℤ (pos 0) a.expires_at_ms && leb_ℤ a.expires_at_ms now
    then some time_over
    else none

-- The test on the price that `MinRequiredBid` returned.
unfoldable pub check_price : ℤ → Option ℤ → Option Refusal
check_price price none = some not_found
check_price price (some min_required) =
    if ltb_ℤ price min_required then some below_minimum else none

-- The text of a status, for the key of the feed cache.
unfoldable pub status_text : AuctionStatus → Text
status_text any_status = []
status_text active = text "ACTIVE"
status_text ended = text "ENDED"
status_text archived = text "ARCHIVED"

-- `if filter.Limit <= 0 { filter.Limit = 20 }`
unfoldable pub with_default_limit : AuctionFeedFilter → AuctionFeedFilter
with_default_limit filter = record filter {
  limit = if leb_ℤ filter.limit (pos 0) then pos 20 else filter.limit;
}

unfoldable pub has_blank_field : Text → Text → Text → Bool
has_blank_field owner title description = is_blank owner || is_blank title || is_blank description

-- The answer of `BidCooldown` from the time of the last bid.
unfoldable pub cooldown_after : ℤ → ℤ → Option ℤ → BidCooldown
cooldown_after now cd_ms last =
    let out : BidCooldown = record {
      can_bid = true;
      next_bid_at_ms = pos 0;
      remaining_ms = pos 0;
      cooldown_ms = cd_ms;
      last_bid_at_ms = pos 0;
    } in
    elim last [
      | none ↦ out
      | some last_bid_at ↦
          let next_allowed_at = add last_bid_at cd_ms in
          if leb_ℤ last_bid_at (pos 0)
          then out
          else if ltb_ℤ now next_allowed_at
          then record out {
            can_bid = false;
            next_bid_at_ms = next_allowed_at;
            remaining_ms = sub next_allowed_at now;
            last_bid_at_ms = last_bid_at;
          }
          else record out { next_bid_at_ms = next_allowed_at; last_bid_at_ms = last_bid_at }
    ]
