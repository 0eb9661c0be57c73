-- ===== src/Server.antt =====
-- The HTTP server (internal/http/server.go and its neighbours): requests, responses, and what the
-- handlers share. A handler gets the decoded request, the clock readings and the answers of the
-- cache, and returns its response with the next state and the outward calls.
pub mod Auctions
pub mod MyAuctions
pub mod Admin
pub mod AppConfig
pub mod Chat
pub mod ChatDelivery
pub mod Visibility
pub mod AdminKey
pub mod SettingsPut
pub mod Profile
pub mod Social
pub mod ProfilePrivacy
pub mod BlockedChat
pub mod Accounts
pub mod Uploads
pub mod UploadNames
pub mod Notifications
pub mod Dashboard
use Prim.Native.String.{String}
use auction_server.Prelude.{
  ℕ, Bool, true, false, List, [], ◌∷◌, ◌++◌, Option, none, some, is_nil, if◌then◌else◌,
}
use auction_server.Prelude.Int.{ℤ}
use auction_server.Prelude.Text.{Text, text, text_eq, trim_space}
use auction_server.Prelude.Strings.{to_upper, replace_first, trim_suffix}
use auction_server.Domain.{
  Auction, AuctionFeedPage, AuctionStats, AuctionStatus, Bid, BidCooldown, BidSummary,
  CreateAuctionInput, ModerationQueuePage, ModerationStatus, PlaceBidInput, UpdateAuctionInput,
  active, any_status, approved, archived, ended, no_moderation, other_moderation, pending, rejected,
}
use auction_server.Settings.{Settings}
use auction_server.Service.{BidTimes, Environment, Refusal}
use auction_server.Service.Moderation.{ModerationEnvironment}

pub data Method : Type 0 where
  method_get method_post method_put method_patch method_delete method_options other_method : Method

-- A request. `query` and `header` answer the empty text for a missing key. The last fields are what
-- the JSON decoder makes of the body, for each type that a handler decodes it into.
pub record Request : Type 0 where
  pub method : Method
  pub path : Text
  pub query : Text → Text
  pub header : Text → Text
  pub create_body : Option CreateAuctionInput
  pub update_body : Option UpdateAuctionInput
  pub bid_body : Option PlaceBidInput
  pub reason_body : Text

-- `settingsToPublicJSON`
pub record PublicSettings : Type 0 where
  pub settings : Settings
  pub public_base_url : Text
  pub ws_base_url : Text

-- The payload of a response; `refusal` is the message of a bid that the service refuses.
pub data Answer : Type 0 where
  error : Text → Answer
  refusal : Refusal → Answer
  done : Text → Answer
  one_auction : Auction → Answer
  many_auctions : List Auction → Answer
  feed_page : AuctionFeedPage → Answer
  queue_page : ModerationQueuePage → Answer
  bids : List Bid → Answer
  one_bid : Bid → Answer
  cooldown : BidCooldown → Answer
  contacts : List BidSummary → Answer
  stats : AuctionStats → Answer
  public_settings : PublicSettings → Answer
  admin_settings : PublicSettings → PublicSettings → Answer
  no_content : Answer

-- `panics` is a handler that panics, and `chat_handler` the call of `handleAuctionChat`, which
-- Server.Chat models over a chat store.
pub data Response : Type 0 where
  respond : ℕ → Answer → Response
  chat_handler : Text → Response
  panics : Response

-- The parts of `Server` that do not change.
pub record Server : Type 0 where
  pub env : Environment
  pub moderation : Option ModerationEnvironment

-- What a handler reads from outside: the clock, in order, and the cache.
pub record Outside : Type 0 where
  pub bid_times : BidTimes
  pub first : ℤ
  pub second : ℤ
  pub third : ℤ
  pub cached_bids : Option (List Bid)
  pub cached_page : Option AuctionFeedPage
  pub pending_count : ℤ

-- `writeError`
abbrev pub write_error : ℕ → String → Response
write_error code message = respond code (error (text message))

abbrev pub method_not_allowed : Response
method_not_allowed = write_error 405 "method not allowed"

-- `parseAuctionStatus`
unfoldable pub parse_auction_status : Text → AuctionStatus
parse_auction_status value =
    let word = to_upper (trim_space value) in
    if text_eq word (text "ACTIVE")
    then active
    else if text_eq word (text "ENDED")
    then ended
    else if text_eq word (text "ARCHIVED")
    then archived
    else any_status

-- `domain.ModerationStatus(s)`
unfoldable pub moderation_of_text : Text → ModerationStatus
moderation_of_text word =
    if is_nil word
    then no_moderation
    else if text_eq word (text "PENDING")
    then pending
    else if text_eq word (text "APPROVED")
    then approved
    else if text_eq word (text "REJECTED")
    then rejected
    else other_moderation word

-- The websocket form of a base address, as `handleRealtimeConfig` and `settingsToPublicJSON` make it.
unfoldable pub ws_of_base : Text → Text
ws_of_base base =
    replace_first (text "http://") (text "ws://")
      (replace_first (text "https://") (text "wss://") base)

unfoldable pub settings_to_public : Settings → Text → PublicSettings
settings_to_public st base = record {
  settings = st;
  public_base_url = base;
  ws_base_url = trim_suffix (if is_nil base then [] else ws_of_base base) (text "/");
}
