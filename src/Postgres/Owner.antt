-- ===== src/Postgres/Owner.antt =====
-- What an owner does with an auction in the PostgreSQL store, and reading one (postgres/auction_owner_ops.go,
-- postgres/auction_repository.go).
use auction_server.Prelude.{
  ◌+◌, ◌^◌, Bool, true, false, ◌&&◌, ◌||◌, List, [], ◌∷◌, ◌++◌, length, Option, none, some, is_nil,
  ltb, if◌then◌else◌,
}
use auction_server.Prelude.Int.{ℤ, pos, ltb_ℤ, leb_ℤ, add, mul}
use auction_server.Prelude.Text.{Text, text, text_eq, is_blank, format_int}
use auction_server.Prelude.Dict.{Dict, insert}
use auction_server.Domain.{
  Auction, AuctionStats, CreateAuctionInput, UpdateAuctionInput, any_status, active, no_moderation,
  pending,
}
use auction_server.Postgres.{
  AuctionRow, BidRow, Database, any_row, auction_row, bid_rows, delete_auctions, greatest, has_id,
  is_live, sql_add, try_update_rows, update_rows,
}
use auction_server.Postgres.Scan.{scan_auction, scan_auction_row}
use auction_server.Postgres.BidLists.{top_bids}

-- `view_count = view_count + 1`. The column is an INT: the statement fails at its greatest value,
-- which the code does not look at.
unfoldable pub count_view : AuctionRow → AuctionRow
count_view a = record a {
  view_count = if ltb (a.view_count + 1) (2 ^ 31) then a.view_count + 1 else a.view_count;
}

-- `GetAuctionByID`
unfoldable pub get_auction_by_id : Text → Database → Option Auction × Database
unfolding update_rows has_id count_view
get_auction_by_id id db =
    let db' : Database = record db { auctions = update_rows (has_id id) count_view db.auctions } in
    elim (auction_row id db') [
      | none ↦ (none, db')
      | some a ↦ (some (record (scan_auction db' a) { top_bids = top_bids id (pos 5) db' }), db')
    ]

-- `int64(hours)*60*60*1000`
unfoldable pub hours_ms : ℤ → ℤ
hours_ms hours = mul (mul (mul hours 60) 60) 1000

unfoldable pub hours_or_default : ℤ → ℤ
hours_or_default hours = if leb_ℤ hours (pos 0) then pos 72 else hours

unfoldable pub new_row : ℤ → ℤ → CreateAuctionInput → AuctionRow
new_row now n input = record {
  id = text "auction-" ++ format_int n;
  owner_id = input.owner_id;
  title = input.title;
  description = input.description;
  image_urls = input.image_urls;
  status = active;
  created_at_ms = now;
  expires_at_ms = add now (hours_ms (hours_or_default input.duration_hours));
  ended_at_ms = none;
  min_bid_step = pos 0;
  base_price = if ltb_ℤ input.base_price (pos 0) then pos 0 else input.base_price;
  bumped_at_ms = now;
  view_count = 0;
  is_featured = false;
  moderation_status = pending;
  moderation_reason = [];
  moderated_at_ms = none;
  duration_hours = hours_or_default input.duration_hours;
}

-- `Auction{}`, the answer where the insertion fails.
unfoldable pub no_auction : Auction
no_auction = record {
  id = [];
  owner_id = [];
  title = [];
  description = [];
  image_urls = [];
  status = any_status;
  moderation_status = no_moderation;
  moderation_reason = [];
  created_at_ms = pos 0;
  expires_at_ms = pos 0;
  ended_at_ms = pos 0;
  offers_count = 0;
  base_price = pos 0;
  min_bid_step = pos 0;
  bumped_at_ms = pos 0;
  is_featured = false;
  view_count = 0;
  top_bids = [];
  final_top_offers = [];
}

-- `CreateAuction`. A duration that is no INT is refused before the statement is sent; a key that is
-- taken makes the insertion fail, and the sequence has moved on all the same.
unfoldable pub create_auction : ℤ → CreateAuctionInput → Database → Auction × Database
unfolding new_row any_row has_id no_auction
create_auction now input db =
    let a = new_row now db.next_auction input in
    let db' : Database = record db { next_auction = add db.next_auction (pos 1) } in
    if leb_ℤ (pos (2 ^ 31)) a.duration_hours
    then (no_auction, db)
    else if any_row (has_id a.id) db.auctions
    then (no_auction, db')
    else (scan_auction_row a, record db' { auctions = db.auctions ++ a ∷ [] })

-- `WHERE id = $1 AND owner_id = $2`
unfoldable pub is_owned : Text → Text → AuctionRow → Bool
unfolding has_id
is_owned id owner a = has_id id a && text_eq a.owner_id owner

unfoldable pub extended : ℤ → ℤ → AuctionRow → Option AuctionRow
unfolding sql_add greatest
extended now more a = elim (sql_add (greatest a.expires_at_ms now) more) [
  | none ↦ none
  | some at ↦ some (record a { expires_at_ms = at; status = active; ended_at_ms = none })
]

-- `ExtendAuction`
unfoldable pub extend_auction : ℤ → Text → Text → ℤ → Database → Bool × Database
unfolding is_owned extended any_row try_update_rows hours_or_default
extend_auction now id owner hours db =
    let owned = is_owned id owner in
    elim (try_update_rows owned (extended now (hours_ms (hours_or_default hours))) db.auctions) [
      | none ↦ (false, db)
      | some rows ↦ (any_row owned db.auctions, record db { auctions = rows })
    ]

-- A live auction of the owner.
unfoldable pub is_owned_live : Text → Text → AuctionRow → Bool
unfolding is_owned is_live
is_owned_live id owner a = is_owned id owner a && is_live a

unfoldable pub set_owned_live : Text → Text → (AuctionRow → AuctionRow) → Database → Bool × Database
unfolding is_owned_live any_row update_rows
set_owned_live id owner set db =
    let live = is_owned_live id owner in
    (any_row live db.auctions, record db { auctions = update_rows live set db.auctions })

-- `BumpAuction`
unfoldable pub bump_auction : ℤ → Text → Text → Database → Bool × Database
unfolding set_owned_live
bump_auction now id owner = set_owned_live id owner (λ a. record a { bumped_at_ms = now })

-- `SetFeatured`
unfoldable pub set_featured : ℤ → Text → Text → Database → Bool × Database
unfolding set_owned_live
set_featured now id owner =
    set_owned_live id owner (λ a. record a { is_featured = true; bumped_at_ms = now })

-- `DeleteAuction`
unfoldable pub delete_auction : Text → Text → Database → Bool × Database
unfolding is_owned any_row delete_auctions
delete_auction id owner db =
    (any_row (is_owned id owner) db.auctions, delete_auctions (is_owned id owner) db)

unfoldable pub updated : UpdateAuctionInput → AuctionRow → AuctionRow
updated input a = record a {
  title = input.title;
  description = input.description;
  image_urls = input.image_urls;
  base_price = input.base_price;
  moderation_status = pending;
  moderation_reason = [];
  is_featured = false;
}

-- `UpdateAuction`
unfoldable pub update_auction : Text → UpdateAuctionInput → Database → Option Auction × Database
unfolding is_owned updated any_row update_rows get_auction_by_id
update_auction id input db =
    let owned = is_owned id input.owner_id in
    if is_blank input.owner_id || (is_blank input.title || is_blank input.description)
    then (none, db)
    else if any_row owned db.auctions
    then get_auction_by_id id
        (record db { auctions = update_rows owned (updated input) db.auctions })
    else (none, db)

-- `COUNT(DISTINCT NULLIF(user_id, ''))`
unfoldable pub bidder_ids : List BidRow → Dict (Unit {0})
bidder_ids [] = []
bidder_ids (b ∷ rows) =
    let ids = bidder_ids rows in if is_nil b.user_id then ids else insert b.user_id tt ids

-- `AuctionStats`
unfoldable pub auction_stats : Text → Text → Database → Option AuctionStats
unfolding bidder_ids
auction_stats id owner db = elim (auction_row id db) [
  | none ↦ none
  | some a ↦
      if text_eq a.owner_id owner
      then some (record {
        view_count = a.view_count;
        offer_user_count = length (bidder_ids (bid_rows id db));
        offers_count = length (bid_rows id db);
      })
      else none
]
