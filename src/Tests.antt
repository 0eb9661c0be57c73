-- ===== src/Tests.antt =====
-- Concrete data for the tests: a server's configuration, an auction that a moderator has approved,
-- and the bids of two users.
pub mod Bids
pub mod Lists
pub mod Rooms
pub mod Messages
pub mod Requests
pub mod Postgres
pub mod Users
use auction_server.Prelude.{Bool, true, false, List, [], ◌∷◌, Option, none, some}
use auction_server.Prelude.Int.{ℤ, pos}
use auction_server.Prelude.Text.{Text, text}
use auction_server.Domain.{
  Auction, Bid, CreateAuctionInput, PlaceBidInput, active, approved, pending,
}
use auction_server.Settings.{Config}
use auction_server.Service.{BidTimes, Environment}
use auction_server.Memory.{Repository}

abbrev pub config : Config
config = record {
  port = text "8080";
  top_bids_push_interval_seconds = text "3";
  feed_refresh_interval_seconds = text "3";
  feed_visible_hours = pos 72;
  my_auctions_delete_days_after_expiry = pos 0;
  bid_cooldown_seconds = pos 60;
  postgres_dsn = [];
  redis_addr = [];
  kafka_brokers = [];
  admin_api_key = text "k";
  public_base_url = text "http://a/";
  upload_dir = [];
}

abbrev pub environment : Environment
environment = record { settings = none; cfg = config; has_hub = true; has_redis = false }

abbrev pub times_at : ℤ → BidTimes
times_at t = record { start = t; get = t; require = t; pass = t; place = t; top = t; publish = t }

abbrev pub open_auction : Auction
open_auction = record {
  id = text "1";
  owner_id = text "o";
  title = text "t";
  description = text "d";
  image_urls = [];
  status = active;
  moderation_status = approved;
  moderation_reason = [];
  created_at_ms = pos 1;
  expires_at_ms = pos 900000;
  ended_at_ms = pos 0;
  offers_count = 0;
  base_price = pos 100;
  min_bid_step = pos 0;
  bumped_at_ms = pos 1;
  is_featured = false;
  view_count = 0;
  top_bids = [];
  final_top_offers = [];
}

abbrev pub holding : Auction → List Bid → Repository
holding a list = record {
  auctions = (text "1", a) ∷ [];
  bids = (text "1", list) ∷ [];
  bid_cooldown_at = [];
  next_id = pos 2;
  delete_days_after_expiry = pos 0;
}

abbrev pub offer : PlaceBidInput
offer = record { user_id = text "u"; user_name = text "U"; phone = text "5"; price = pos 200 }

abbrev pub bid_of : Text → ℤ → ℤ → Bid
bid_of user price at = record {
  auction_id = text "1";
  user_id = user;
  user_name = user;
  phone = text "5";
  gender = [];
  family_name = [];
  receive_calls = false;
  price = price;
  created_at = at;
}

abbrev pub rival : Bid
rival = bid_of (text "v") (pos 150) (pos 1000)

-- One auction with a bid on it.
abbrev pub contested : Repository
contested = holding (record open_auction { min_bid_step = pos 1 }) (rival ∷ [])

abbrev pub submission : CreateAuctionInput
submission = record {
  owner_id = text "o";
  title = text "t";
  description = text "d";
  image_urls = [];
  duration_hours = pos 24;
  base_price = pos 100;
}
