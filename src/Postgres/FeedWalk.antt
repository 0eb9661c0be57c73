-- ===== src/Postgres/FeedWalk.antt =====
-- The public feed and the moderation queue, read page by page (postgres/feed_page.go,
-- postgres/moderation.go).
use auction_server.Prelude.{
  ℕ, suc, ◌-◌, ◌<◌, ◌≡◌, refl, ap, ◌∙◌, false, List, [], ◌∷◌, arith, All, All-take, length, take,
  Bool,
}
use mathlib.Core.Path.{fun_ext}
use auction_server.Prelude.Int.{ℤ, pos, negsuc, ◌≤ℤ◌}
use auction_server.Prelude.Text.{Text, text, text_eq}
use auction_server.Prelude.Sort.{sort, sort-All}
use auction_server.Prelude.Ordered.{All-keep, All-imp}
use auction_server.Domain.{
  Auction, AuctionFeedFilter, AuctionFeedPage, ModerationQueueFilter, ModerationQueuePage,
}
use auction_server.Postgres.{Database}
use auction_server.Postgres.Scan.{sort_key_ms}
use auction_server.Postgres.Cursor.{
  last_cursor, make_cursor, page_limit, sort_ms, parse_feed_cursor,
}
use auction_server.Postgres.Pages.{
  by_key, is_below, window, page_of_window, feed_rows, shown_order, list_auctions_page, queue_rows,
  list_moderation_queue,
}
use auction_server.Postgres.Keyset.{IsTextOrder, HasCursor, HasDistinctIds}
use auction_server.Postgres.Walk.{walk, page_at, walk_rows}

page_limit-suc : (n : ℤ) → page_limit n ≡ suc (page_limit n - 1)
unfolding page_limit
page_limit-suc (pos n) = ground arith
page_limit-suc (negsuc n) = ground arith

-- A row of the feed whose cursor can be read back.
pub record IsPageable (a : Auction) : Type 0 where
  pub cursor : HasCursor sort_ms a
  pub bumped : pos 0 ≤ℤ a.bumped_at_ms

same_key : (a : Auction) → pos 0 ≤ℤ a.bumped_at_ms → sort_key_ms a ≡ sort_ms a
unfolding sort_key_ms sort_ms
same_key a h = ground arith

last_cursor-same_key :
    (list : List Auction)
    → All IsPageable list
    → last_cursor sort_key_ms list ≡ last_cursor sort_ms list
unfolding last_cursor make_cursor
last_cursor-same_key [] h = refl
last_cursor-same_key (a ∷ []) h = rw (same_key a h.0.bumped)
last_cursor-same_key (a ∷ b ∷ list) h = last_cursor-same_key (b ∷ list) h.1

page_of_window-same_key :
    (limit : ℕ) (rows : List Auction)
    → All IsPageable rows
    → page_of_window sort_key_ms (λ list. list) limit rows
      ≡ page_of_window sort_ms (λ list. list) limit rows
unfolding page_of_window
page_of_window-same_key limit rows h =
    let cut = last_cursor-same_key (take limit rows) (All-take IsPageable limit rows h) in
    let whole = last_cursor-same_key rows h in ground (arith, cut, whole)

-- What a client of the queue follows.
abbrev pub links_of : ModerationQueuePage → AuctionFeedPage
links_of page = record {
  items = page.items;
  next_cursor = page.next_cursor;
  has_more = page.has_more;
}

module _ (after : Text → Text → Bool) (order : IsTextOrder after) (now : ℤ) (db : Database) where
  window-IsPageable :
      (cursor : Text) (limit : ℕ) (rows : List Auction)
      → All IsPageable rows
      → All IsPageable (window after sort_ms cursor limit rows)
  unfolding window
  window-IsPageable cursor limit rows h = All-take IsPageable (suc limit) _ (
      sort-All (by_key after sort_ms) IsPageable _
        (All-keep IsPageable (is_below after sort_ms (parse_feed_cursor cursor)) rows h))

  -- The page behind a cursor, and the page of the ordered rows.
  feed_page_at :
      (filter : AuctionFeedFilter) (cursor : Text)
      → text_eq filter.sort (text "trending") ≡ false
      → All IsPageable (feed_rows now filter db)
      → list_auctions_page after now (record filter { cursor = cursor }) db
        ≡ page_at after sort_ms (feed_rows now filter db) (page_limit filter.limit) cursor
  unfolding list_auctions_page shown_order page_at feed_rows
  feed_page_at filter cursor plain h = rw plain (
      page_of_window-same_key (page_limit filter.limit) _
        (window-IsPageable cursor (page_limit filter.limit) (feed_rows now filter db) h))

  -- A client that asks for the first page of the feed and then follows the cursors gets every row
  -- of the feed once, in the order of the list, with one request more than there are rows. The
  -- order is not "trending", the collation is a total order of texts, and the rows have distinct
  -- ids and cursors that can be read back: positive times that fit in 64 bits and ids that are
  -- trimmed and not empty.
  pub feed_walk :
      (filter : AuctionFeedFilter) (f : ℕ)
      → text_eq filter.sort (text "trending") ≡ false
      → HasDistinctIds (feed_rows now filter db)
      → All IsPageable (feed_rows now filter db)
      → length (feed_rows now filter db) < f
      → walk (λ c. list_auctions_page after now (record filter { cursor = c }) db) f []
        ≡ sort (by_key after sort_ms) (feed_rows now filter db)
  feed_walk filter f plain distinct pageable enough =
      let rows = feed_rows now filter db in
      let cursors = All-imp IsPageable (HasCursor sort_ms) rows (λ a h. h.cursor) pageable in
      ap (λ (page : Text → AuctionFeedPage). walk page f [])
        (fun_ext (λ c.
          feed_page_at filter c plain pageable
          ∙ ap (λ k. page_at after sort_ms rows k c) (page_limit-suc filter.limit)))
      ∙ walk_rows after order sort_ms rows (page_limit filter.limit - 1) f distinct cursors enough

  queue_page_at :
      (filter : ModerationQueueFilter) (cursor : Text)
      → links_of (list_moderation_queue after (record filter { cursor = cursor }) db)
        ≡ page_at after
            (λ a. a.created_at_ms)
            (queue_rows filter.status db)
            (page_limit filter.limit)
            cursor
  unfolding list_moderation_queue page_at
  queue_page_at filter cursor = refl

  -- A moderator who follows the cursors of the queue gets every auction with the status that was
  -- asked for once, the newest first, under the conditions of the feed on ids, times and requests.
  pub queue_walk :
      (filter : ModerationQueueFilter) (f : ℕ)
      → HasDistinctIds (queue_rows filter.status db)
      → All (HasCursor (λ a. a.created_at_ms)) (queue_rows filter.status db)
      → length (queue_rows filter.status db) < f
      → walk (λ c. links_of (list_moderation_queue after (record filter { cursor = c }) db)) f []
        ≡ sort (by_key after (λ a. a.created_at_ms)) (queue_rows filter.status db)
  queue_walk filter f distinct readable enough =
      let key = λ (a : Auction). a.created_at_ms in
      let rows = queue_rows filter.status db in
      ap (λ (page : Text → AuctionFeedPage). walk page f [])
        (fun_ext (λ c.
          queue_page_at filter c
          ∙ ap (λ k. page_at after key rows k c) (page_limit-suc filter.limit)))
      ∙ walk_rows after order key rows (page_limit filter.limit - 1) f distinct readable enough
