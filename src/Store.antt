-- ===== src/Store.antt =====
-- `repository.AuctionRepository` (internal/repository/auction_repository.go): the store as the
-- services see it. A method takes the clock readings it makes and the state, and returns its answer
-- with the next state; `none` is the answer `false`. The laws are what the bidding service relies on.
use auction_server.Prelude.{ℕ, ◌^◌, ◌≡◌, Bool, false, List, Option, none, some, All}
use auction_server.Prelude.Int.{ℤ, pos, ◌≤ℤ◌, ◌<ℤ◌}
use auction_server.Prelude.Text.{Text, trim_space, is_blank}
use auction_server.Domain.{
  Auction, AuctionFeedFilter, AuctionFeedPage, AuctionStats, AuctionStatus, Bid, BidSummary,
  CreateAuctionInput, ModerationQueueFilter, ModerationQueuePage, PlaceBidInput, UpdateAuctionInput,
}

-- A quarter of the range of int64, below which prices and steps add up without wrapping.
abbrev pub price_limit : ℤ
price_limit = pos (2 ^ 62)

abbrev pub IsBelow : ℤ → List Bid → Type 0
IsBelow m = All (λ b. b.price <ℤ m)

-- A required price is positive and above every bid of the list.
abbrev pub Exceeds : List Bid → Option ℤ → Type 0
Exceeds list none = Unit
Exceeds list (some m) = (pos 1 ≤ℤ m) × IsBelow m list

pub record AuctionStore : Type 1 where
  pub State : Type 0
  pub list_auctions : ℤ → AuctionFeedFilter → State → List Auction × State
  pub list_auctions_page : ℤ → AuctionFeedFilter → State → Option AuctionFeedPage × State
  pub list_owner_auctions : ℤ → Text → AuctionStatus → State → List Auction × State
  pub get_auction_by_id : ℤ → Text → State → Option Auction × State
  pub create_auction : ℤ → CreateAuctionInput → State → Auction × State
  pub top_bids : ℤ → Text → ℕ → State → List Bid × State
  pub last_bid_at_ms : Text → Text → State → Option ℤ
  pub min_required_bid : ℤ → Text → State → Option ℤ × State
  pub place_bid : ℤ → ℤ → Text → PlaceBidInput → State → Option Bid × State
  pub delete_bid : Text → Text → State → Bool × State
  pub result_contacts : ℤ → Text → Text → ℤ → State → Option (List BidSummary) × State
  pub extend_auction : ℤ → Text → Text → ℤ → State → Bool × State
  pub bump_auction : ℤ → Text → Text → State → Bool × State
  pub set_featured : ℤ → Text → Text → State → Bool × State
  pub delete_auction : Text → Text → State → Bool × State
  pub update_auction : Text → UpdateAuctionInput → State → Option Auction × State
  pub auction_stats : Text → Text → State → Option AuctionStats
  pub finalize_expired : ℤ → State → State
  pub list_moderation_queue : ModerationQueueFilter → State → Option ModerationQueuePage
  pub count_moderation_pending : State → ℕ
  pub approve_moderation : ℤ → Text → State → Option Auction × State
  pub reject_moderation : ℤ → Text → Text → State → Option Auction × State
  -- The bids on an auction, and that its prices and step are below the limit.
  pub bids_of : Text → State → List Bid
  pub HasRoom : Text → State → Type 0
  -- The auction ids under which the store finds a user's last bid.
  pub IsKey : Text → Type 0
  pub min_required_exceeds :
      (t : ℤ) (id : Text) (s : State)
      → HasRoom id s
      → Exceeds (bids_of id (min_required_bid t id s).1) (min_required_bid t id s).0
  pub last_bid_after_place :
      (t now t' : ℤ) (id : Text) (input : PlaceBidInput) (n : ℕ) (s : State) (b : Bid)
      → pos 0 <ℤ now
      → IsKey id
      → is_blank input.user_id ≡ false
      → (place_bid t now id input s).0 ≡ some b
      → last_bid_at_ms id
          (trim_space input.user_id)
          (top_bids t' id n (place_bid t now id input s).1).1
        ≡ some now
