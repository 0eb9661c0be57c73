-- ===== src/Domain.antt =====
-- The records of internal/domain: auctions, bids, feed pages, moderation and their inputs.
use auction_server.Prelude.{ℕ, Bool, true, false, List, [], ◌∷◌}
use auction_server.Prelude.Int.{ℤ}
use auction_server.Prelude.Text.{Text, text, text_eq}

-- `AuctionStatus`; `any_status` is the empty string, which a feed filter uses for "no filter".
pub data AuctionStatus : Type 0 where
  any_status active ended archived : AuctionStatus

-- `ModerationStatus`; a filter may hold any other text.
pub data ModerationStatus : Type 0 where
  no_moderation pending approved rejected : ModerationStatus
  other_moderation : Text → ModerationStatus

abbrev pub status_eq : AuctionStatus → AuctionStatus → Bool
status_eq any_status any_status = true
status_eq active active = true
status_eq ended ended = true
status_eq archived archived = true
status_eq _ _ = false

abbrev pub moderation_eq : ModerationStatus → ModerationStatus → Bool
moderation_eq no_moderation no_moderation = true
moderation_eq pending pending = true
moderation_eq approved approved = true
moderation_eq rejected rejected = true
moderation_eq (other_moderation s) (other_moderation t) = text_eq s t
moderation_eq _ _ = false

pub record Bid : Type 0 where
  pub auction_id : Text
  pub user_id : Text
  pub user_name : Text
  pub phone : Text
  pub gender : Text
  pub family_name : Text
  pub receive_calls : Bool
  pub price : ℤ
  pub created_at : ℤ

pub record PlaceBidInput : Type 0 where
  pub user_id : Text
  pub user_name : Text
  pub phone : Text
  pub price : ℤ

pub record BidCooldown : Type 0 where
  pub can_bid : Bool
  pub next_bid_at_ms : ℤ
  pub remaining_ms : ℤ
  pub cooldown_ms : ℤ
  pub last_bid_at_ms : ℤ

pub record BidSummary : Type 0 where
  pub user_name : Text
  pub phone : Text
  pub price : ℤ

pub record Auction : Type 0 where
  pub id : Text
  pub owner_id : Text
  pub title : Text
  pub description : Text
  pub image_urls : List Text
  pub status : AuctionStatus
  pub moderation_status : ModerationStatus
  pub moderation_reason : Text
  pub created_at_ms : ℤ
  pub expires_at_ms : ℤ
  pub ended_at_ms : ℤ
  pub offers_count : ℕ
  pub base_price : ℤ
  pub min_bid_step : ℤ
  pub bumped_at_ms : ℤ
  pub is_featured : Bool
  pub view_count : ℕ
  pub top_bids : List Bid
  pub final_top_offers : List BidSummary

pub record CreateAuctionInput : Type 0 where
  pub owner_id : Text
  pub title : Text
  pub description : Text
  pub image_urls : List Text
  pub duration_hours : ℤ
  pub base_price : ℤ

pub record UpdateAuctionInput : Type 0 where
  pub owner_id : Text
  pub title : Text
  pub description : Text
  pub image_urls : List Text
  pub base_price : ℤ

pub record AuctionStats : Type 0 where
  pub view_count : ℕ
  pub offer_user_count : ℕ
  pub offers_count : ℕ

-- The `Sort` of a feed filter is compared with "trending" only.
pub record AuctionFeedFilter : Type 0 where
  pub status : AuctionStatus
  pub sort : Text
  pub limit : ℤ
  pub cursor : Text
  pub bidder_user_id : Text

pub record AuctionFeedPage : Type 0 where
  pub items : List Auction
  pub next_cursor : Text
  pub has_more : Bool

pub record ModerationQueueFilter : Type 0 where
  pub status : ModerationStatus
  pub limit : ℤ
  pub cursor : Text

pub record ModerationQueuePage : Type 0 where
  pub items : List Auction
  pub next_cursor : Text
  pub has_more : Bool
  pub pending_count : ℤ

-- `SupportAuctionID`, and `SupportAdminID` by its code points (Persian for "auction support").
unfoldable pub support_auction_id : Text
support_auction_id = text "__support__"

unfoldable pub support_admin_id : Text
support_admin_id =
    0x67e ∷ 0x634 ∷ 0x62a ∷ 0x6cc ∷ 0x628 ∷ 0x627 ∷ 0x646 ∷ 0x6cc ∷ 0x20 ∷ 0x62d ∷ 0x631 ∷ 0x627
    ∷ 0x62c ∷ []
