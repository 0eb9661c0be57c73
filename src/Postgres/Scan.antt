-- ===== src/Postgres/Scan.antt =====
-- How the rows of auctions are scanned, with the best bids on them (postgres/auction_repository.go).
use auction_server.Prelude.{Bool, List, [], map, take, length, none, some, if◌then◌else◌}
use auction_server.Prelude.Int.{ℤ, pos, ltb_ℤ, eqb_ℤ}
use auction_server.Prelude.Sort.{sort}
use auction_server.Domain.{Auction, BidSummary}
use auction_server.Postgres.{AuctionRow, BidRow, Database, bid_rows}

-- `ORDER BY price DESC, created_at_ms ASC`
unfoldable pub by_price_then_time : BidRow → BidRow → Bool
by_price_then_time a b =
    if eqb_ℤ a.price b.price then ltb_ℤ a.created_at_ms b.created_at_ms else ltb_ℤ b.price a.price

unfoldable pub ranked : List BidRow → List BidRow
ranked = sort by_price_then_time

-- `attachTopBidSummaries`: the five best bids of an auction, without their phones.
unfoldable pub top_summaries : List BidRow → List BidSummary
unfolding ranked
top_summaries rows =
    map (λ b. record { user_name = b.user_name; phone = []; price = b.price })
      (take 5 (ranked rows))

-- `scanAuctionRowInsert`
unfoldable pub scan_auction_row : AuctionRow → Auction
scan_auction_row a = record {
  id = a.id;
  owner_id = a.owner_id;
  title = a.title;
  description = a.description;
  image_urls = a.image_urls;
  status = a.status;
  moderation_status = a.moderation_status;
  moderation_reason = a.moderation_reason;
  created_at_ms = a.created_at_ms;
  expires_at_ms = a.expires_at_ms;
  ended_at_ms = elim a.ended_at_ms [ none ↦ pos 0 | some at ↦ at ];
  offers_count = 0;
  base_price = a.base_price;
  min_bid_step = a.min_bid_step;
  bumped_at_ms = a.bumped_at_ms;
  is_featured = a.is_featured;
  view_count = a.view_count;
  top_bids = [];
  final_top_offers = [];
}

-- `scanAuctionFromRow`, of a row that is selected with its number of bids.
unfoldable pub scan_counted : Database → AuctionRow → Auction
unfolding scan_auction_row
scan_counted db a = record (scan_auction_row a) { offers_count = length (bid_rows a.id db) }

-- The same with the summaries attached.
unfoldable pub scan_auction : Database → AuctionRow → Auction
unfolding scan_counted top_summaries
scan_auction db a = record (scan_counted db a) {
  final_top_offers = top_summaries (bid_rows a.id db);
}

-- `sortKeyMs`
unfoldable pub sort_key_ms : Auction → ℤ
sort_key_ms a = if ltb_ℤ (pos 0) a.bumped_at_ms then a.bumped_at_ms else a.created_at_ms
