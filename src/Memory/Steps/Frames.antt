-- ===== src/Memory/Steps/Frames.antt =====
-- What each operation of the in-memory store does to the map of bids.
use auction_server.Prelude.{◌≡◌, refl, ◌⊎◌, List, [], ◌∷◌, arith, if◌then◌else◌}
use auction_server.Prelude.Int.{ℤ}
use auction_server.Prelude.Text.{Text, text_eq}
use auction_server.Prelude.Dict.{insert, erase, lookup-insert, lookup-erase}
use auction_server.Domain.{Auction, Bid, CreateAuctionInput, UpdateAuctionInput}
use auction_server.Memory.{Repository, bids_of, finalize_entry, end_auction}
use auction_server.Memory.Bidding.{min_required_of}
use auction_server.Memory.Owner.{
  create_auction, auction_key, extend_auction, bump_auction, set_featured, delete_auction,
  update_auction, put_auction,
}
use auction_server.Memory.Moderation.{approve_moderation, reject_moderation}
use auction_server.Memory.Aggregates.{bids-refresh}

-- The bids of a key after one entry of the expiry pass.
pub finalize_entry-bids :
    (now : ℤ) (id j : Text) (a : Auction) (r : Repository)
    → (bids_of j (finalize_entry now id a r) ≡ bids_of j r)
      ⊎ (bids_of j (finalize_entry now id a r) ≡ [])
unfolding finalize_entry bids_of
finalize_entry-bids now id j a r = ground (
  arith,
  bids-refresh id (record r { auctions = insert id (end_auction now a) r.auctions }),
  lookup-erase id j r.bids,
)

-- Which operations leave the bids alone.
pub bids-min_required_of :
    (id : Text) (a : Auction) (list : List Bid) (r : Repository)
    → (min_required_of id a list r).1.bids ≡ r.bids
unfolding min_required_of
bids-min_required_of id a [] r = refl
bids-min_required_of id a (b ∷ bs) r = ground arith

pub bids-create_auction :
    (now : ℤ) (input : CreateAuctionInput) (r : Repository)
    → (create_auction now input r).1.bids ≡ insert (auction_key r.next_id) [] r.bids
unfolding create_auction
bids-create_auction now input r = refl

pub bids-extend_auction :
    (now : ℤ) (id owner : Text) (hours : ℤ) (r : Repository)
    → (extend_auction now id owner hours r).1.bids ≡ r.bids
unfolding extend_auction put_auction
bids-extend_auction now id owner hours r = ground arith

pub bids-bump_auction :
    (now : ℤ) (id owner : Text) (r : Repository) → (bump_auction now id owner r).1.bids ≡ r.bids
unfolding bump_auction put_auction
bids-bump_auction now id owner r = ground arith

pub bids-set_featured :
    (now : ℤ) (id owner : Text) (r : Repository) → (set_featured now id owner r).1.bids ≡ r.bids
unfolding set_featured put_auction
bids-set_featured now id owner r = ground arith

pub bids-delete_auction :
    (id owner : Text) (r : Repository)
    → ((delete_auction id owner r).1.bids ≡ r.bids)
      ⊎ ((delete_auction id owner r).1.bids ≡ erase id r.bids)
unfolding delete_auction
bids-delete_auction id owner r = ground arith

pub bids-update_auction :
    (id : Text) (input : UpdateAuctionInput) (r : Repository)
    → (update_auction id input r).1.bids ≡ r.bids
unfolding update_auction put_auction
bids-update_auction id input r = ground arith

pub bids-approve_moderation :
    (now : ℤ) (id : Text) (r : Repository) → (approve_moderation now id r).1.bids ≡ r.bids
unfolding approve_moderation
bids-approve_moderation now id r = ground arith

pub bids-reject_moderation :
    (id reason : Text) (r : Repository) → (reject_moderation id reason r).1.bids ≡ r.bids
unfolding reject_moderation
bids-reject_moderation id reason r = ground arith

-- The bids of a key after a write and after a removal at some key.
pub bids_of_insert :
    (id j : Text) (list : List Bid) (r s : Repository)
    → s.bids ≡ insert id list r.bids
    → bids_of j s ≡ (if text_eq id j then list else bids_of j r)
unfolding bids_of
bids_of_insert id j list r s e = ground (arith, lookup-insert id j list r.bids)

pub bids_of_erase :
    (id j : Text) (r s : Repository)
    → s.bids ≡ erase id r.bids
    → bids_of j s ≡ (if text_eq id j then [] else bids_of j r)
unfolding bids_of
bids_of_erase id j r s e = ground (arith, lookup-erase id j r.bids)

pub bids_of-min_required_of :
    (id : Text) (a : Auction) (list : List Bid) (r : Repository)
    → bids_of id (min_required_of id a list r).1 ≡ bids_of id r
unfolding bids_of
bids_of-min_required_of id a list r = ground (arith, bids-min_required_of id a list r)
