-- ===== src/Server/Auctions.antt =====
-- The public endpoints of auctions and bids: `handleAuctions` and `handleAuctionByPath`
-- (internal/http/server.go).
use auction_server.Prelude.{◌&&◌, not, List, [], ◌∷◌, Option, none, some, is_nil, if◌then◌else◌}
use auction_server.Prelude.Int.{pos}
use auction_server.Prelude.Text.{Text, text, text_eq, trim_space, is_blank}
use auction_server.Prelude.Strings.{atoi, split, trim_prefix}
use auction_server.Domain.{Auction, AuctionFeedFilter, approved, moderation_eq}
use auction_server.Effects.{Effect}
use auction_server.Store.{AuctionStore}
use auction_server.Service.{BidReply, accepted, refused}
use auction_server.Service.Methods.{
  list_feed_page, list_auctions, create_auction, get_auction, top_bids, bid_cooldown, place_bid,
  delete_bid,
}
use auction_server.Service.Moderation.{on_auction_submitted}
use auction_server.Server.{
  Request, Response, Server, Outside, respond, panics, chat_handler, method_get, method_post,
  method_delete, write_error, method_not_allowed, parse_auction_status, feed_page, many_auctions,
  one_auction, one_bid, refusal, bids, cooldown, done,
}

-- The filter of a feed request, with and without a page.
unfoldable pub page_filter : Request → AuctionFeedFilter
page_filter req = record {
  status = parse_auction_status (req.query (text "status"));
  sort = req.query (text "sort");
  limit = atoi (req.query (text "limit"));
  cursor = req.query (text "cursor");
  bidder_user_id = trim_space (req.query (text "bidderUserId"));
}

unfoldable pub list_filter : Request → AuctionFeedFilter
list_filter req = record {
  status = parse_auction_status (req.query (text "status"));
  sort = req.query (text "sort");
  limit = pos 0;
  cursor = [];
  bidder_user_id = [];
}

-- The test of `handleAuctionByPath` on the auction that it found.
unfoldable pub show_auction : Text → Option Auction → Response
show_auction viewer none = write_error 404 "auction not found"
show_auction viewer (some a) =
    if not (moderation_eq a.moderation_status approved) && not (text_eq a.owner_id viewer)
    then write_error 404 "auction not found"
    else respond 200 (one_auction a)

unfoldable pub respond_bid : BidReply → Response
respond_bid (accepted b) = respond 201 (one_bid b)
respond_bid (refused why) = respond 400 (refusal why)

module _ (store : AuctionStore) (srv : Server) (out : Outside) (req : Request) where
  open store use {State}

  unfoldable pub get_feed : State → Response × State × List Effect
  get_feed s =
      if is_nil (req.query (text "limit"))
      then (let (items, s') = list_auctions store out.first (list_filter req) s in
          (respond 200 (many_auctions items), s', []))
      else (let (page, s', effects) =
            list_feed_page store srv.env out.first (page_filter req) out.cached_page s in
          elim page [
            | none ↦ (panics, s', effects)
            | some p ↦ (respond 200 (feed_page p), s', effects)
          ])

  unfoldable pub post_auction : State → Response × State × List Effect
  post_auction s = elim req.create_body [
    | none ↦ (write_error 400 "invalid body", s, [])
    | some input ↦
        let (item, s') = create_auction store srv.env out.first input s in
        elim item [
          | none ↦ (write_error 400 "title and description are required", s', [])
          | some a ↦ (
            respond 201 (one_auction a),
            s',
            elim srv.moderation [
              | none ↦ []
              | some env ↦ on_auction_submitted env out.second out.third a
            ],
          )
        ]
  ]

  -- `handleAuctions`
  unfoldable pub handle_auctions : State → Response × State × List Effect
  unfolding get_feed post_auction
  handle_auctions s = elim req.method [
    | method_get ↦ get_feed s
    | method_post ↦ post_auction s
    | _ ↦ (method_not_allowed, s, [])
  ]

  unfoldable pub get_one : Text → State → Response × State × List Effect
  get_one id s =
      let (a, s') = get_auction store out.first id s in
      (show_auction (trim_space (req.query (text "viewerId"))) a, s', [])

  unfoldable pub get_top_bids : Text → State → Response × State × List Effect
  get_top_bids id s =
      let (list, s', effects) = top_bids store srv.env out.first id out.cached_bids s in
      (respond 200 (bids list), s', effects)

  unfoldable pub get_bid_cooldown : Text → State → Response × State × List Effect
  get_bid_cooldown id s =
      let user = trim_space (req.query (text "userId")) in
      if is_nil user
      then (write_error 400 "userId is required", s, [])
      else (respond 200 (cooldown (bid_cooldown store srv.env out.first id user s)), s, [])

  unfoldable pub post_bid : Text → State → Response × State × List Effect
  post_bid id s = elim req.bid_body [
    | none ↦ (write_error 400 "invalid body", s, [])
    | some input ↦
        let (reply, s', effects) = place_bid store srv.env out.bid_times id input s in
        (respond_bid reply, s', effects)
  ]

  unfoldable pub delete_own_bid : Text → State → Response × State × List Effect
  delete_own_bid id s =
      let user = trim_space (req.query (text "userId")) in
      if is_nil user
      then (write_error 400 "userId is required", s, [])
      else (let (removed, s', effects) = delete_bid store srv.env id user s in
          (
            if removed then respond 200 (done (text "ok")) else write_error 404 "bid not found",
            s',
            effects,
          ))

  -- `r.Method != http.MethodGet`
  unfoldable pub only_get :
      (State → Response × State × List Effect) → State → Response × State × List Effect
  only_get handler s = elim req.method [ method_get ↦ handler s | _ ↦ (method_not_allowed, s, []) ]

  unfoldable pub bids_endpoint : Text → State → Response × State × List Effect
  bids_endpoint id s = elim req.method [
    | method_post ↦ post_bid id s
    | method_delete ↦ delete_own_bid id s
    | _ ↦ (method_not_allowed, s, [])
  ]

  -- The dispatch on the parts of the path after the id.
  unfoldable pub auction_action : Text → List Text → State → Response × State × List Effect
  auction_action id [] s = only_get (get_one id) s
  auction_action id (action ∷ []) s =
      if text_eq action (text "top-bids")
      then only_get (get_top_bids id) s
      else if text_eq action (text "bid-cooldown")
      then only_get (get_bid_cooldown id) s
      else if text_eq action (text "bids")
      then bids_endpoint id s
      else (write_error 404 "route not found", s, [])
  auction_action id (chat ∷ messages ∷ []) s =
      if text_eq chat (text "chat") && text_eq messages (text "messages")
      then (chat_handler id, s, [])
      else (write_error 404 "route not found", s, [])
  auction_action id (_ ∷ _ ∷ _ ∷ _) s = (write_error 404 "route not found", s, [])

  unfoldable pub auction_by_parts : List Text → State → Response × State × List Effect
  auction_by_parts [] s = (write_error 400 "invalid auction id", s, [])
  auction_by_parts (id ∷ rest) s =
      if is_blank id
      then (write_error 400 "invalid auction id", s, [])
      else auction_action id rest s

  -- `handleAuctionByPath`
  unfoldable pub handle_auction_by_path : State → Response × State × List Effect
  handle_auction_by_path s =
      auction_by_parts (split (trim_prefix req.path (text "/v1/auctions/"))) s
