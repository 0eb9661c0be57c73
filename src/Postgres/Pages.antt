-- ===== src/Postgres/Pages.antt =====
-- The paged lists of the PostgreSQL store (postgres/feed_page.go, postgres/moderation.go): the public
-- feed and the moderation queue, whose statements read the rows below a cursor. `after` is the order
-- of texts under the collation of the database.
use auction_server.Prelude.{
  ℕ, suc, Bool, true, ◌&&◌, ◌||◌, List, [], Option, none, some, is_nil, keep, length, take, map,
  ltb, ◌==◌, if◌then◌else◌,
}
use auction_server.Prelude.Int.{ℤ, pos, ltb_ℤ, eqb_ℤ}
use auction_server.Prelude.Text.{Text, text, text_eq, trim_space}
use auction_server.Prelude.Sort.{sort}
use auction_server.Domain.{
  Auction, AuctionFeedFilter, AuctionFeedPage, AuctionStatus, ModerationQueueFilter,
  ModerationQueuePage, ModerationStatus, active, any_status, moderation_eq, no_moderation, pending,
}
use auction_server.Postgres.{AuctionRow, Database, any_row}
use auction_server.Postgres.Scan.{scan_auction, scan_counted, sort_key_ms}
use auction_server.Postgres.Cursor.{last_cursor, page_limit, parse_feed_cursor, sort_ms}
use auction_server.Postgres.Feed.{is_public}
use auction_server.Postgres.Moderation.{count_moderation_pending}

-- The order in which a page is sorted when `Sort` is "trending".
unfoldable pub by_offers_then_key : Auction → Auction → Bool
unfolding sort_key_ms
by_offers_then_key a b =
    if a.offers_count == b.offers_count
    then ltb_ℤ (sort_key_ms b) (sort_key_ms a)
    else ltb b.offers_count a.offers_count

module _ (after : Text → Text → Bool) where
  -- `ORDER BY … DESC, a.id DESC`
  unfoldable pub by_key : (Auction → ℤ) → Auction → Auction → Bool
  by_key key a b = if eqb_ℤ (key a) (key b) then after a.id b.id else ltb_ℤ (key b) (key a)

  -- `(key, a.id) < ($1, $2)` where there is a cursor.
  unfoldable pub is_below : (Auction → ℤ) → Option (ℤ × Text) → Auction → Bool
  is_below key none a = true
  is_below key (some (ms, id)) a = ltb_ℤ (key a) ms || (eqb_ℤ (key a) ms && after id a.id)

  -- The rows that a page's statement reads: `LIMIT limit + 1`.
  unfoldable pub window : (Auction → ℤ) → Text → ℕ → List Auction → List Auction
  unfolding by_key is_below
  window key cursor limit list =
      take (suc limit) (sort (by_key key) (keep (is_below key (parse_feed_cursor cursor)) list))

unfoldable pub has_bid_of : Text → Database → AuctionRow → Bool
unfolding any_row
has_bid_of user db a = any_row (λ b. text_eq b.auction_id a.id && text_eq b.user_id user) db.bids

unfoldable pub feed_status : AuctionStatus → AuctionStatus
feed_status any_status = active
feed_status status = status

-- The auctions of a feed, before the cursor and the limit.
unfoldable pub feed_rows : ℤ → AuctionFeedFilter → Database → List Auction
unfolding is_public has_bid_of feed_status
feed_rows now filter db =
    let bidder = trim_space filter.bidder_user_id in
    let public = keep (is_public (feed_status filter.status) now) db.auctions in
    map (scan_auction db) (if is_nil bidder then public else keep (has_bid_of bidder db) public)

-- From the rows read to the page: `key` gives the cursor, `shown` the order of the page.
unfoldable pub page_of_window :
    (Auction → ℤ) → (List Auction → List Auction) → ℕ → List Auction → AuctionFeedPage
unfolding last_cursor
page_of_window key shown limit rows =
    let has_more = ltb limit (length rows) in
    let items = shown (if has_more then take limit rows else rows) in
    record {
      items = items;
      next_cursor = if has_more then last_cursor key items else [];
      has_more = has_more;
    }

unfoldable pub shown_order : Text → List Auction → List Auction
unfolding by_offers_then_key
shown_order order list =
    if text_eq order (text "trending") then sort by_offers_then_key list else list

unfoldable pub queue_status : ModerationStatus → ModerationStatus
queue_status no_moderation = pending
queue_status status = status

unfoldable pub queue_rows : ModerationStatus → Database → List Auction
unfolding queue_status
queue_rows status db =
    map (scan_counted db)
      (keep (λ a. moderation_eq a.moderation_status (queue_status status)) db.auctions)

module _ (after : Text → Text → Bool) where
  -- `ListAuctionsPage`
  unfoldable pub list_auctions_page : ℤ → AuctionFeedFilter → Database → AuctionFeedPage
  unfolding feed_rows window page_of_window shown_order page_limit sort_ms sort_key_ms
  list_auctions_page now filter db =
      let limit = page_limit filter.limit in
      page_of_window sort_key_ms (shown_order filter.sort) limit
        (window after sort_ms filter.cursor limit (feed_rows now filter db))

  -- `ListModerationQueue`
  unfoldable pub list_moderation_queue : ModerationQueueFilter → Database → ModerationQueuePage
  unfolding queue_rows window page_of_window page_limit
  list_moderation_queue filter db =
      let limit = page_limit filter.limit in
      let created = λ (a : Auction). a.created_at_ms in
      let page =
        page_of_window created (λ list. list) limit
          (window after created filter.cursor limit (queue_rows filter.status db)) in
      record {
        items = page.items;
        next_cursor = page.next_cursor;
        has_more = page.has_more;
        pending_count = pos (count_moderation_pending db);
      }
