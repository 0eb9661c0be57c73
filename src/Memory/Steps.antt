-- ===== src/Memory/Steps.antt =====
-- The operations that change the in-memory store, as one relation: a step is one call, with the
-- clock readings and arguments of the call. Reachable states are those of any sequence of calls, by
-- any clients in any order, since each call holds the lock.
pub mod Consistency
pub mod Keys
pub mod Frames
pub mod Bidders
pub mod Users
pub mod Cooldown
pub mod Statuses
pub mod Approvals
pub mod LastBid
use auction_server.Prelude.{ℕ}
use auction_server.Prelude.Int.{ℤ}
use auction_server.Prelude.Text.{Text}
use auction_server.Domain.{CreateAuctionInput, PlaceBidInput, UpdateAuctionInput}
use auction_server.Memory.{Repository, new_repository, finalize_expired}
use auction_server.Memory.Bidding.{place_bid, delete_bid, min_required_bid}
use auction_server.Memory.Owner.{
  create_auction, extend_auction, bump_auction, set_featured, delete_auction, update_auction,
}
use auction_server.Memory.Moderation.{approve_moderation, reject_moderation}

-- `finalize` is also every call that only reads after the expiry pass.
pub data Step (r : Repository) : Repository → Type 0 where
  finalize : (t : ℤ) → Step r (finalize_expired t r)
  create : (now : ℤ) (input : CreateAuctionInput) → Step r (create_auction now input r).1
  bid : (t now : ℤ) (id : Text) (input : PlaceBidInput) → Step r (place_bid t now id input r).1
  unbid : (id user : Text) → Step r (delete_bid id user r).1
  require : (t : ℤ) (id : Text) → Step r (min_required_bid t id r).1
  extend : (now : ℤ) (id owner : Text) (hours : ℤ) → Step r (extend_auction now id owner hours r).1
  bump : (now : ℤ) (id owner : Text) → Step r (bump_auction now id owner r).1
  feature : (now : ℤ) (id owner : Text) → Step r (set_featured now id owner r).1
  delete : (id owner : Text) → Step r (delete_auction id owner r).1
  update : (id : Text) (input : UpdateAuctionInput) → Step r (update_auction id input r).1
  approve : (now : ℤ) (id : Text) → Step r (approve_moderation now id r).1
  reject : (id reason : Text) → Step r (reject_moderation id reason r).1

pub data Reach (days : ℤ) : Repository → Type 0 where
  start : Reach days (new_repository days)
  next : {r s : Repository} → Reach days r → Step r s → Reach days s
