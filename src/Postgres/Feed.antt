-- ===== src/Postgres/Feed.antt =====
-- The whole lists of auctions in the PostgreSQL store (postgres/auction_repository.go): the public
-- feed, and an owner's list.
use auction_server.Prelude.{Bool, ◌&&◌, ◌||◌, List, keep, map, ltb, ◌==◌, if◌then◌else◌}
use auction_server.Prelude.Int.{ℤ, ltb_ℤ, eqb_ℤ}
use auction_server.Prelude.Text.{Text, text, text_eq, text_gt}
use auction_server.Prelude.Sort.{sort}
use auction_server.Domain.{
  Auction, AuctionFeedFilter, AuctionStatus, any_status, approved, moderation_eq, status_eq,
}
use auction_server.Postgres.{AuctionRow, Database}
use auction_server.Postgres.Scan.{scan_auction, sort_key_ms}

-- `sort.Slice` of `ListAuctions`.
unfoldable pub by_offers : Auction → Auction → Bool
by_offers a b =
    if a.offers_count == b.offers_count
    then ltb_ℤ b.created_at_ms a.created_at_ms
    else ltb b.offers_count a.offers_count

unfoldable pub by_recency : Auction → Auction → Bool
unfolding sort_key_ms
by_recency a b =
    if eqb_ℤ (sort_key_ms a) (sort_key_ms b)
    then text_gt a.id b.id
    else ltb_ℤ (sort_key_ms b) (sort_key_ms a)

-- `WHERE a.status = $1 AND a.expires_at_ms > $2 AND a.moderation_status = 'APPROVED'`
unfoldable pub is_public : AuctionStatus → ℤ → AuctionRow → Bool
is_public status now a =
    status_eq a.status status
    && (ltb_ℤ now a.expires_at_ms && moderation_eq a.moderation_status approved)

-- `ListAuctions`
unfoldable pub list_auctions : ℤ → AuctionFeedFilter → Database → List Auction
unfolding is_public by_offers by_recency
list_auctions now filter db =
    let rows =
      if status_eq filter.status any_status
      then db.auctions
      else keep (is_public filter.status now) db.auctions in
    let list = map (scan_auction db) rows in
    if text_eq filter.sort (text "trending") then sort by_offers list else sort by_recency list

-- `ListOwnerAuctions`
unfoldable pub by_creation : Auction → Auction → Bool
by_creation a b = ltb_ℤ b.created_at_ms a.created_at_ms

unfoldable pub is_owners : Text → AuctionStatus → AuctionRow → Bool
is_owners owner status a =
    text_eq a.owner_id owner && (status_eq status any_status || status_eq a.status status)

unfoldable pub list_owner_auctions : Text → AuctionStatus → Database → List Auction
unfolding by_creation is_owners
list_owner_auctions owner status db =
    sort by_creation (map (scan_auction db) (keep (is_owners owner status) db.auctions))
