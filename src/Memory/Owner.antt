-- ===== src/Memory/Owner.antt =====
-- What an owner does with an auction in the in-memory store (memory/auction_repository.go).
use auction_server.Prelude.{
  ◌≡◌, arith, Bool, true, false, ◌&&◌, List, [], ◌∷◌, ◌++◌, Option, none, some, is_nil, length,
  if◌then◌else◌,
}
use auction_server.Prelude.Int.{ℤ, pos, ltb_ℤ, leb_ℤ, add, mul}
use auction_server.Prelude.Text.{Text, text, text_eq, text_eq_iff, format_int}
use auction_server.Prelude.Dict.{Dict, lookup, insert, erase}
use auction_server.Domain.{
  Auction, AuctionStats, Bid, CreateAuctionInput, UpdateAuctionInput, status_eq, moderation_eq,
  active, pending, approved,
}
use auction_server.Memory.{Repository, bids_of}

unfoldable pub auction_key : ℤ → Text
auction_key n = text "auction-" ++ format_int n

-- `hours*60*60*1000`
unfoldable pub hours_ms : ℤ → ℤ
hours_ms hours = mul (mul (mul hours 60) 60) 1000

unfoldable pub new_auction : ℤ → Text → CreateAuctionInput → Auction
new_auction now id input = record {
  id = id;
  owner_id = input.owner_id;
  title = input.title;
  description = input.description;
  image_urls = input.image_urls;
  status = active;
  moderation_status = pending;
  moderation_reason = [];
  created_at_ms = now;
  expires_at_ms =
      add now
        (hours_ms (if leb_ℤ input.duration_hours (pos 0) then pos 24 else input.duration_hours));
  ended_at_ms = pos 0;
  offers_count = 0;
  base_price = input.base_price;
  min_bid_step = pos 0;
  bumped_at_ms = now;
  is_featured = false;
  view_count = 0;
  top_bids = [];
  final_top_offers = [];
}

-- `CreateAuction`
unfoldable pub create_auction : ℤ → CreateAuctionInput → Repository → Auction × Repository
create_auction now input r =
    let id = auction_key r.next_id in
    let a = new_auction now id input in
    (
      a,
      record r {
        auctions = insert id a r.auctions;
        bids = insert id [] r.bids;
        next_id = add r.next_id (pos 1);
      },
    )

-- The auction that an owner's call finds: `!ok || a.OwnerID != ownerID` answers `none`.
unfoldable pub owned : Text → Text → Repository → Option Auction
owned id owner r = elim (lookup id r.auctions) [
  | none ↦ none
  | some a ↦ if text_eq a.owner_id owner then some a else none
]

unfoldable pub put_auction : Text → Auction → Repository → Repository
put_auction id a r = record r { auctions = insert id a r.auctions }

unfoldable pub extended : ℤ → ℤ → Auction → Auction
extended now hours a = record a {
  expires_at_ms = add (if ltb_ℤ a.expires_at_ms now then now else a.expires_at_ms) (hours_ms hours);
  status = active;
  ended_at_ms = pos 0;
}

-- `ExtendAuction`
unfoldable pub extend_auction : ℤ → Text → Text → ℤ → Repository → Bool × Repository
extend_auction now id owner hours r = elim (owned id owner r) [
  | none ↦ (false, r)
  | some a ↦ (true, put_auction id (extended now hours a) r)
]

-- An active auction that is approved.
unfoldable pub is_live : Auction → Bool
is_live a = status_eq a.status active && moderation_eq a.moderation_status approved

-- `BumpAuction`
unfoldable pub bump_auction : ℤ → Text → Text → Repository → Bool × Repository
bump_auction now id owner r = elim (owned id owner r) [
  | none ↦ (false, r)
  | some a ↦
      if is_live a then (true, put_auction id (record a { bumped_at_ms = now }) r) else (false, r)
]

-- `SetFeatured`
unfoldable pub set_featured : ℤ → Text → Text → Repository → Bool × Repository
set_featured now id owner r = elim (owned id owner r) [
  | none ↦ (false, r)
  | some a ↦
      if is_live a
      then (true, put_auction id (record a { is_featured = true; bumped_at_ms = now }) r)
      else (false, r)
]

-- `DeleteAuction`
unfoldable pub delete_auction : Text → Text → Repository → Bool × Repository
delete_auction id owner r = elim (owned id owner r) [
  | none ↦ (false, r)
  | some a ↦ (true, record r { auctions = erase id r.auctions; bids = erase id r.bids })
]

unfoldable pub updated : UpdateAuctionInput → Auction → Auction
updated input a = record a {
  title = input.title;
  description = input.description;
  image_urls = if is_nil input.image_urls then a.image_urls else input.image_urls;
  base_price = input.base_price;
  moderation_status = pending;
  moderation_reason = [];
  is_featured = false;
}

-- `UpdateAuction`
unfoldable pub update_auction : Text → UpdateAuctionInput → Repository → Option Auction × Repository
update_auction id input r = elim (owned id input.owner_id r) [
  | none ↦ (none, r)
  | some a ↦ (some (updated input a), put_auction id (updated input a) r)
]

-- The set `users` of `AuctionStats`.
unfoldable pub add_bidders : List Bid → Dict (Unit {0}) → Dict (Unit {0})
add_bidders [] users = users
add_bidders (b ∷ bs) users =
    add_bidders bs (insert (if is_nil b.user_id then b.user_name else b.user_id) tt users)

-- `AuctionStats`
unfoldable pub auction_stats : Text → Text → Repository → Option AuctionStats
auction_stats id owner r = elim (owned id owner r) [
  | none ↦ none
  | some a ↦ some (record {
    view_count = a.view_count;
    offer_user_count = length (add_bidders (bids_of id r) []);
    offers_count = length (bids_of id r);
  })
]

pub owned_found :
    (id owner : Text) (r : Repository) {a : Auction}
    → owned id owner r ≡ some a
    → lookup id r.auctions ≡ some a
unfolding owned
owned_found id owner r h = ground arith

pub owned_by :
    (id owner : Text) (r : Repository) {a : Auction}
    → owned id owner r ≡ some a
    → a.owner_id ≡ owner
unfolding owned
owned_by id owner r {a} h = ground (arith, text_eq_iff a.owner_id owner)
