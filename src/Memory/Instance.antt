-- ===== src/Memory/Instance.antt =====
-- The in-memory store as an `AuctionStore`, with the laws that its theorems give.
use auction_server.Prelude.{◌≡◌, false}
use auction_server.Prelude.Text.{is_blank}
use auction_server.Store.{AuctionStore}
use auction_server.Memory.{Repository, bids_of, finalize_expired}
use auction_server.Memory.Bidding.{
  get_auction_by_id, top_bids, last_bid_at_ms, min_required_bid, place_bid, delete_bid,
  result_contacts,
}
use auction_server.Memory.Owner.{
  create_auction, extend_auction, bump_auction, set_featured, delete_auction, update_auction,
  auction_stats,
}
use auction_server.Memory.Moderation.{
  count_moderation_pending, approve_moderation, reject_moderation,
}
use auction_server.Memory.Feed.{
  list_auctions, list_auctions_page, list_owner_auctions, list_moderation_queue,
}
use auction_server.Memory.Pricing.{HasRoom, min_required_bid-Exceeds}
use auction_server.Memory.Steps.LastBid.{last_bid_at_ms-place_bid_then_top_bids}

-- `AuctionRepository` of package memory
abbrev pub memory_store : AuctionStore
memory_store = record {
  State = Repository;
  list_auctions = list_auctions;
  list_auctions_page = list_auctions_page;
  list_owner_auctions = list_owner_auctions;
  get_auction_by_id = get_auction_by_id;
  create_auction = create_auction;
  top_bids = top_bids;
  last_bid_at_ms = last_bid_at_ms;
  min_required_bid = min_required_bid;
  place_bid = place_bid;
  delete_bid = delete_bid;
  result_contacts = result_contacts;
  extend_auction = extend_auction;
  bump_auction = bump_auction;
  set_featured = set_featured;
  delete_auction = delete_auction;
  update_auction = update_auction;
  auction_stats = auction_stats;
  finalize_expired = finalize_expired;
  list_moderation_queue = list_moderation_queue;
  count_moderation_pending = count_moderation_pending;
  approve_moderation = approve_moderation;
  reject_moderation = λ t. reject_moderation;
  bids_of = bids_of;
  HasRoom = HasRoom;
  IsKey = λ id. is_blank id ≡ false;
  min_required_exceeds = min_required_bid-Exceeds;
  last_bid_after_place = last_bid_at_ms-place_bid_then_top_bids;
}
