-- ===== src/Server/Visibility.antt =====
-- Who sees an auction that no moderator has approved (internal/http/server.go).
use auction_server.Prelude.{ℕ, ◌≡◌, ◌⊎◌, Option, none, some, arith, List, [], ◌∷◌}
use auction_server.Prelude.Text.{Text, text, text_eq_iff, trim_space}
use auction_server.Prelude.Strings.{split, trim_prefix}
use auction_server.Domain.{Auction, approved}
use auction_server.Store.{AuctionStore}
use auction_server.Service.Methods.{get_auction}
use auction_server.Server.{Request, Server, Outside, respond, one_auction}
use auction_server.Server.Auctions.{
  show_auction, respond_bid, get_one, get_top_bids, get_bid_cooldown, post_bid, delete_own_bid,
  only_get, bids_endpoint, auction_action, auction_by_parts, handle_auction_by_path,
}

-- The viewer may see the auction.
pub record MaySee (viewer : Text) (a : Auction) : Type 0 where
  pub allowed : (a.moderation_status ≡ approved) ⊎ (a.owner_id ≡ viewer)

show_auction-MaySee :
    (viewer : Text) (o : Option Auction) (code : ℕ) (a : Auction)
    → show_auction viewer o ≡ respond code (one_auction a)
    → MaySee viewer a
unfolding show_auction
show_auction-MaySee viewer none code a h = absurd cc
show_auction-MaySee viewer (some b) code a h = record {
  allowed = ground (arith, text_eq_iff b.owner_id viewer);
}

module _ (store : AuctionStore) (srv : Server) (out : Outside) (req : Request)
    (s : store.State) where
  abbrev viewer : Text
  viewer = trim_space (req.query (text "viewerId"))

  get_one-MaySee :
      (id : Text) (code : ℕ) (a : Auction)
      → (only_get store srv out req (get_one store srv out req id) s).0
        ≡ respond code (one_auction a)
      → MaySee viewer a
  unfolding only_get get_one
  get_one-MaySee id code a h =
      show_auction-MaySee viewer (get_auction store out.first id s).0 code a (ground arith)

  auction_action-MaySee :
      (id : Text) (rest : List Text) (code : ℕ) (a : Auction)
      → (auction_action store srv out req id rest s).0 ≡ respond code (one_auction a)
      → MaySee viewer a
  unfolding auction_action only_get get_top_bids get_bid_cooldown bids_endpoint post_bid respond_bid
      delete_own_bid
  auction_action-MaySee id [] code a h = get_one-MaySee id code a h
  auction_action-MaySee id (action ∷ []) code a h = absurd (ground arith)
  auction_action-MaySee id (chat ∷ messages ∷ []) code a h = absurd (ground arith)
  auction_action-MaySee id (_ ∷ _ ∷ _ ∷ _) code a h = absurd cc

  auction_by_parts-MaySee :
      (parts : List Text) (code : ℕ) (a : Auction)
      → (auction_by_parts store srv out req parts s).0 ≡ respond code (one_auction a)
      → MaySee viewer a
  unfolding auction_by_parts
  auction_by_parts-MaySee [] code a h = absurd cc
  auction_by_parts-MaySee (id ∷ rest) code a h = auction_action-MaySee id rest code a (ground arith)

  -- An auction that `handle_auction_by_path` shows is approved, or its owner is the viewer that
  -- the request names, whatever the store, the request and the state.
  pub handle_auction_by_path-MaySee :
      (code : ℕ) (a : Auction)
      → (handle_auction_by_path store srv out req s).0 ≡ respond code (one_auction a)
      → MaySee viewer a
  unfolding handle_auction_by_path
  handle_auction_by_path-MaySee code a h =
      auction_by_parts-MaySee (split (trim_prefix req.path (text "/v1/auctions/"))) code a h
