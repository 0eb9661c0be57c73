-- ===== src/Memory/Feed.antt =====
-- The lists of auctions in the in-memory store: the public feed and its pages, an owner's list and
-- the moderation queue (memory/auction_repository.go, memory/moderation.go).
use auction_server.Prelude.{
  ℕ, suc, ◌-◌, Bool, true, false, ◌&&◌, ◌||◌, not, List, [], ◌∷◌, ◌++◌, Option, none, some, is_nil,
  keep, length, take, drop, map, if◌then◌else◌,
}
use auction_server.Prelude.Int.{ℤ, pos, negsuc, ltb_ℤ, leb_ℤ, eqb_ℤ, add}
use auction_server.Prelude.Text.{Text, text, text_eq, text_gt, trim_space, format_int}
use auction_server.Prelude.Dict.{Dict, lookup, insert}
use auction_server.Prelude.Sort.{sort}
use auction_server.Domain.{
  Auction, AuctionStatus, AuctionFeedFilter, AuctionFeedPage, Bid, ModerationQueueFilter,
  ModerationQueuePage, ModerationStatus, status_eq, moderation_eq, any_status, active,
  no_moderation, pending, approved,
}
use auction_server.Memory.{Repository, finalize_expired}
use auction_server.Memory.Bidding.{has_bid_by}
use auction_server.Memory.Moderation.{count_pending}

-- `sortKeyMs`
unfoldable pub sort_key_ms : Auction → ℤ
sort_key_ms a = if ltb_ℤ (pos 0) a.bumped_at_ms then a.bumped_at_ms else a.created_at_ms

-- The two orders of `ListAuctions`.
unfoldable pub by_offers : Auction → Auction → Bool
by_offers a b =
    if eqb_ℤ (pos a.offers_count) (pos b.offers_count)
    then ltb_ℤ b.created_at_ms a.created_at_ms
    else ltb_ℤ (pos b.offers_count) (pos a.offers_count)

unfoldable pub by_recency : Auction → Auction → Bool
by_recency a b =
    if eqb_ℤ (sort_key_ms a) (sort_key_ms b)
    then text_gt a.id b.id
    else ltb_ℤ (sort_key_ms b) (sort_key_ms a)

-- The two `continue` tests of `ListAuctions`.
unfoldable pub in_feed : AuctionStatus → Auction → Bool
in_feed status a =
    (status_eq status any_status || status_eq a.status status)
    && not (status_eq status active && not (moderation_eq a.moderation_status approved))

unfoldable pub values : Dict Auction → List Auction
values = map (λ e. e.1)

unfoldable pub feed_of : AuctionFeedFilter → Repository → List Auction
feed_of filter r =
    let result = keep (in_feed filter.status) (values r.auctions) in
    if text_eq filter.sort (text "trending") then sort by_offers result else sort by_recency result

-- `ListAuctions`
unfoldable pub list_auctions : ℤ → AuctionFeedFilter → Repository → List Auction × Repository
list_auctions t filter r = let r' = finalize_expired t r in (feed_of filter r', r')

-- `userBidAuctionSet`
unfoldable pub user_bid_auction_set : Text → Dict (List Bid) → Dict Bool
user_bid_auction_set user [] = []
user_bid_auction_set user ((id, list) ∷ rest) =
    let set = user_bid_auction_set user rest in
    if has_bid_by user list then insert id true set else set

unfoldable pub is_allowed : Dict Bool → Auction → Bool
is_allowed set a = elim (lookup a.id set) [ none ↦ false | some b ↦ b ]

-- Go's `list[low:high]`; `none` is the panic "slice bounds out of range".
unfoldable pub slice : ℕ → ℤ → List Auction → Option (List Auction)
slice low high list = elim high [
  | pos h ↦
      if leb_ℤ (pos low) (pos h) && leb_ℤ (pos h) (pos (length list))
      then some (take (h - low) (drop low list))
      else none
  | negsuc h ↦ none
]

-- The cursor of an auction under a sort key.
unfoldable pub cursor_of : (Auction → ℤ) → Auction → Text
cursor_of key a = format_int (key a) ++ b':' ∷ a.id

unfoldable pub is_at_cursor : (Auction → ℤ) → Text → Auction → Bool
is_at_cursor key cursor a = text_eq a.id cursor || text_eq (cursor_of key a) cursor

-- The loop for `start`: one past the first auction at the cursor, or 0 (`none`).
unfoldable pub find_cursor : (Auction → ℤ) → Text → List Auction → Option ℕ
find_cursor key cursor [] = none
find_cursor key cursor (a ∷ rest) =
    let later = find_cursor key cursor rest in
    if is_at_cursor key cursor a then some 1 else elim later [ none ↦ none | some i ↦ some (suc i) ]

unfoldable pub start_of : (Auction → ℤ) → Text → List Auction → ℕ
start_of key cursor all =
    if is_nil cursor then 0 else elim (find_cursor key cursor all) [ none ↦ 0 | some i ↦ i ]

unfoldable pub limit_of : ℤ → ℤ
limit_of limit = if leb_ℤ limit (pos 0) then pos 20 else limit

unfoldable pub last_cursor : (Auction → ℤ) → List Auction → Text
last_cursor key [] = []
last_cursor key (a ∷ []) = cursor_of key a
last_cursor key (a ∷ b ∷ rest) = last_cursor key (b ∷ rest)

-- The part that both paged lists share: from the whole list and the ends of a page to the page, or
-- a panic.
unfoldable pub page_at : (Auction → ℤ) → ℕ → ℤ → List Auction → Option AuctionFeedPage
page_at key start end all =
    let has_more = ltb_ℤ end (pos (length all)) in
    let high = if ltb_ℤ (pos (length all)) end then pos (length all) else end in
    elim (slice start high all) [
      | none ↦ none
      | some items ↦ some (record {
        items = items;
        next_cursor = if has_more then last_cursor key items else [];
        has_more = has_more;
      })
    ]

unfoldable pub page_of : (Auction → ℤ) → ℤ → Text → List Auction → Option AuctionFeedPage
unfolding page_at
page_of key limit cursor all =
    let start = start_of key cursor all in page_at key start (add (pos start) (limit_of limit)) all

-- `ListAuctionsPage`
unfoldable pub list_auctions_page :
    ℤ → AuctionFeedFilter → Repository → Option AuctionFeedPage × Repository
list_auctions_page t filter r =
    let (all, r') = list_auctions t filter r in
    let bidder = trim_space filter.bidder_user_id in
    let visible =
      if is_nil bidder then all else keep (is_allowed (user_bid_auction_set bidder r'.bids)) all in
    (page_of sort_key_ms filter.limit filter.cursor visible, r')

-- `ListOwnerAuctions`
unfoldable pub is_owners : Text → AuctionStatus → Auction → Bool
is_owners owner status a =
    text_eq a.owner_id owner && (status_eq status any_status || status_eq a.status status)

unfoldable pub by_creation : Auction → Auction → Bool
by_creation a b = ltb_ℤ b.created_at_ms a.created_at_ms

unfoldable pub list_owner_auctions :
    ℤ → Text → AuctionStatus → Repository → List Auction × Repository
list_owner_auctions t owner status r =
    let r' = finalize_expired t r in
    (sort by_creation (keep (is_owners owner status) (values r'.auctions)), r')

-- `ListModerationQueue`
unfoldable pub by_creation_then_id : Auction → Auction → Bool
by_creation_then_id a b =
    if eqb_ℤ a.created_at_ms b.created_at_ms
    then text_gt a.id b.id
    else ltb_ℤ b.created_at_ms a.created_at_ms

unfoldable pub queue_status : ModerationStatus → ModerationStatus
queue_status no_moderation = pending
queue_status status = status

unfoldable pub queue_of : ModerationStatus → Repository → List Auction
queue_of status r =
    sort by_creation_then_id
      (keep (λ a. moderation_eq a.moderation_status (queue_status status)) (values r.auctions))

unfoldable pub list_moderation_queue :
    ModerationQueueFilter → Repository → Option ModerationQueuePage
list_moderation_queue filter r =
    elim (page_of (λ a. a.created_at_ms) filter.limit filter.cursor (queue_of filter.status r)) [
      | none ↦ none
      | some page ↦ some (record {
        items = page.items;
        next_cursor = page.next_cursor;
        has_more = page.has_more;
        pending_count = pos (count_pending r.auctions);
      })
    ]
