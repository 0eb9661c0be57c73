-- ===== src/Postgres/Instance.antt =====
-- The PostgreSQL store as an `AuctionStore`, so that the bidding service's theorems hold over it.
-- The repository's settings, the collation of the database and the failing statements of each
-- placement are parameters; a clock reading that the code does not make is not used.
use auction_server.Prelude.{Bool, ◌≡◌, false, some, arith, is_nil}
use auction_server.Prelude.Int.{ℤ, pos, ◌<ℤ◌}
use auction_server.Prelude.Text.{Text, trim_space, trim_space_idem, is_blank}
use auction_server.Domain.{Bid, PlaceBidInput}
use auction_server.Store.{AuctionStore}
use auction_server.Postgres.{AuctionRepository, Database, finalize_expired}
use auction_server.Postgres.Bidding.{Statement, bidder_of, delete_bid, min_required_bid, place_bid}
use auction_server.Postgres.BidLists.{last_bid_at_ms, result_contacts, top_bids}
use auction_server.Postgres.Owner.{
  auction_stats, bump_auction, create_auction, delete_auction, extend_auction, get_auction_by_id,
  set_featured, update_auction,
}
use auction_server.Postgres.Moderation.{
  approve_moderation, count_moderation_pending, reject_moderation,
}
use auction_server.Postgres.Feed.{list_auctions, list_owner_auctions}
use auction_server.Postgres.Pages.{list_auctions_page, list_moderation_queue}
use auction_server.Postgres.Pricing.{HasRoom, bids_of, min_required_bid-AboveBids}
use auction_server.Postgres.Placing.{last_bid_at_ms_of_row, place_bid-IsPlaced, select_row-placed}

-- An auction id without blanks round it.
pub record IsKey (id : Text) : Type 0 where
  pub trimmed : trim_space id ≡ id
  pub not_empty : is_nil id ≡ false

-- The time of an accepted bid is read back.
pub last_bid_at_ms-place_bid :
    (fails : Statement → Bool) (now : ℤ) (id : Text) (input : PlaceBidInput) (db : Database)
    {b : Bid}
    → pos 0 <ℤ now
    → IsKey id
    → is_blank input.user_id ≡ false
    → (place_bid fails now id input db).0 ≡ some b
    → last_bid_at_ms id (trim_space input.user_id) (place_bid fails now id input db).1 ≡ some now
last_bid_at_ms-place_bid fails now id input db positive key some_user h =
    let after = (place_bid fails now id input db).1 in
    let bidder : bidder_of input ≡ trim_space (trim_space input.user_id) =
      unfold bidder_of in ground (arith, trim_space_idem input.user_id) in
    let found =
      rw bidder at
        (select_row-placed now id input _ db after (place_bid-IsPlaced fails now id input db h)) in
    last_bid_at_ms_of_row id (trim_space input.user_id) now after key.trimmed key.not_empty
      (rw (trim_space_idem input.user_id) some_user) positive found

module _ (r : AuctionRepository) (after : Text → Text → Bool) (fails : Statement → Bool) where
  -- `AuctionRepository` of package postgres
  abbrev pub postgres_store : AuctionStore
  postgres_store = record {
    State = Database;
    list_auctions = λ t filter db. (list_auctions t filter db, db);
    list_auctions_page = λ t filter db. (some (list_auctions_page after t filter db), db);
    list_owner_auctions = λ t owner status db. (list_owner_auctions owner status db, db);
    get_auction_by_id = λ t. get_auction_by_id;
    create_auction = create_auction;
    top_bids = λ t id limit db. (top_bids id (pos limit) db, db);
    last_bid_at_ms = last_bid_at_ms;
    min_required_bid = λ t. min_required_bid;
    place_bid = λ t. place_bid fails;
    delete_bid = delete_bid;
    result_contacts = λ t id owner limit db. (result_contacts id owner limit db, db);
    extend_auction = extend_auction;
    bump_auction = bump_auction;
    set_featured = set_featured;
    delete_auction = delete_auction;
    update_auction = update_auction;
    auction_stats = auction_stats;
    finalize_expired = finalize_expired r;
    list_moderation_queue = λ filter db. some (list_moderation_queue after filter db);
    count_moderation_pending = count_moderation_pending;
    approve_moderation = approve_moderation;
    reject_moderation = reject_moderation;
    bids_of = bids_of;
    HasRoom = HasRoom;
    IsKey = IsKey;
    min_required_exceeds = λ t. min_required_bid-AboveBids;
    last_bid_after_place = λ t now t' id input n db b positive key some_user h.
        last_bid_at_ms-place_bid fails now id input db positive key some_user h;
  }
