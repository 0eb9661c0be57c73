-- ===== src/Memory/Others.antt =====
-- What a call about one auction does to the others (memory/auction_repository.go).
use auction_server.Prelude.{◌≡◌, ◌≢◌, refl, false, none, some, arith, inl, inr, Option-cases, ◌∙◌}
use auction_server.Prelude.Int.{ℤ}
use auction_server.Prelude.Text.{Text, text_eq, text_eq_iff}
use auction_server.Prelude.Dict.{lookup, lookup-insert}
use auction_server.Domain.{Auction, Bid, PlaceBidInput, UpdateAuctionInput}
use auction_server.Memory.{Repository, bids_of, finalize_expired}
use auction_server.Memory.Aggregates.{bids-refresh, lookup-refresh}
use auction_server.Memory.Bidding.{
  place_bid, store_bid, write_bid, new_bid, active_auction, merge_bid, set_first_step,
}
use auction_server.Memory.Expiry.{IsExpiredAt, finalize_expired-IsExpiredAt}
use auction_server.Memory.Owner.{
  owned, extend_auction, bump_auction, set_featured, delete_auction, update_auction,
}
use auction_server.Memory.Steps.Keys.{IsMap}

lookup-store_bid :
    (bid : Bid) (id j : Text) (a : Auction) (r : Repository)
    → text_eq id j ≡ false
    → lookup j (store_bid bid id a r).auctions ≡ lookup j r.auctions
unfolding store_bid write_bid
lookup-store_bid bid id j a r other = ground (
  arith,
  lookup-refresh id j (write_bid bid id a r),
  lookup-insert id j (set_first_step bid (bids_of id r) a) r.auctions,
)

bids_of-store_bid :
    (bid : Bid) (id j : Text) (a : Auction) (r : Repository)
    → text_eq id j ≡ false
    → bids_of j (store_bid bid id a r) ≡ bids_of j r
unfolding store_bid write_bid bids_of
bids_of-store_bid bid id j a r other = ground (
  arith,
  bids-refresh id (write_bid bid id a r),
  lookup-insert id j (merge_bid bid (bids_of id r)) r.bids,
)

-- In a store whose map of auctions lists each key once, placing a bid on one auction leaves every
-- other auction, and its bids, as the expiry pass leaves them.
pub place_bid-IsExpiredAt :
    (t now : ℤ) (id j : Text) (input : PlaceBidInput) (r : Repository)
    → IsMap r
    → text_eq id j ≡ false
    → IsExpiredAt t j r (place_bid t now id input r).1
unfolding place_bid
place_bid-IsExpiredAt t now id j input r h other =
    let r' = finalize_expired t r in
    let left = finalize_expired-IsExpiredAt t j r h.unique in
    elim (Option-cases (active_auction id r')) [
      | inl missing ↦ rw (missing, place_bid) left
      | inr (a, found) ↦
          rw (found, place_bid)
            (record {
              auction_left =
                  lookup-store_bid (new_bid now id input) id j a r' other ∙ left.auction_left;
              bids_left = bids_of-store_bid (new_bid now id input) id j a r' other ∙ left.bids_left;
            })
    ]

-- The calls that only an auction's owner may make, with the owner that the caller names.
pub data OwnerCall : Type 0 where
  extending : (now hours : ℤ) → OwnerCall
  bumping featuring : (now : ℤ) → OwnerCall
  deleting : OwnerCall
  updating : UpdateAuctionInput → OwnerCall

-- The state after the call.
unfoldable pub call_as : Text → Text → OwnerCall → Repository → Repository
call_as owner id (extending now hours) r = (extend_auction now id owner hours r).1
call_as owner id (bumping now) r = (bump_auction now id owner r).1
call_as owner id (featuring now) r = (set_featured now id owner r).1
call_as owner id deleting r = (delete_auction id owner r).1
call_as owner id (updating input) r = (update_auction id (record input { owner_id = owner }) r).1

not_owned :
    (owner id : Text) (r : Repository) (a : Auction)
    → lookup id r.auctions ≡ some a
    → a.owner_id ≢ owner
    → owned id owner r ≡ none
unfolding owned
not_owned owner id r a found stranger = ground (arith, text_eq_iff a.owner_id owner)

-- Extending, bumping, featuring, deleting or updating an auction in the name of a user who does
-- not own it leaves the store as it was.
pub call_as_stranger :
    (owner id : Text) (call : OwnerCall) (r : Repository) (a : Auction)
    → lookup id r.auctions ≡ some a
    → a.owner_id ≢ owner
    → call_as owner id call r ≡ r
unfolding call_as extend_auction bump_auction set_featured delete_auction update_auction
call_as_stranger owner id (extending now hours) r a found stranger =
    rw (not_owned owner id r a found stranger, call_as, extend_auction) refl
call_as_stranger owner id (bumping now) r a found stranger =
    rw (not_owned owner id r a found stranger, call_as, bump_auction) refl
call_as_stranger owner id (featuring now) r a found stranger =
    rw (not_owned owner id r a found stranger, call_as, set_featured) refl
call_as_stranger owner id deleting r a found stranger =
    rw (not_owned owner id r a found stranger, call_as, delete_auction) refl
call_as_stranger owner id (updating input) r a found stranger =
    rw (not_owned owner id r a found stranger, call_as, update_auction) refl
