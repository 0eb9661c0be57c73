-- ===== src/Server/MyAuctions.antt =====
-- The endpoints of an auction's owner: `handleMyAuctions` and `handleMyAuctionByPath`
-- (internal/http/server.go).
use auction_server.Prelude.{◌||◌, List, [], ◌∷◌, ◌++◌, Option, none, some, is_nil, if◌then◌else◌}
use auction_server.Prelude.Text.{Text, text, text_eq, trim_space, is_blank}
use auction_server.Prelude.Strings.{split, trim_prefix}
use auction_server.Domain.{Auction, UpdateAuctionInput}
use auction_server.Effects.{Effect, invalidate_feed_cache}
use auction_server.Store.{AuctionStore}
use auction_server.Service.{resolved_settings}
use auction_server.Service.Methods.{
  list_my_auctions, update_auction, delete_auction, result_contacts, extend_auction, get_auction,
  bump_auction, set_featured, auction_stats,
}
use auction_server.Service.Moderation.{on_auction_submitted}
use auction_server.Server.{
  Request, Response, Server, Outside, respond, method_get, method_post, method_put, method_patch,
  method_delete, write_error, method_not_allowed, parse_auction_status, many_auctions, one_auction,
  contacts, stats, done,
}

-- The owner that a request names, in its query or its header.
unfoldable pub owner_of : Request → Text
owner_of req =
    let given = trim_space (req.query (text "ownerId")) in
    if is_nil given then trim_space (req.header (text "X-Owner-Id")) else given

unfoldable pub with_owner : Text → UpdateAuctionInput → UpdateAuctionInput
with_owner owner input = record input { owner_id = if is_nil owner then input.owner_id else owner }

module _ (store : AuctionStore) (srv : Server) (out : Outside) (req : Request) where
  open store use {State}

  -- `handleMyAuctions`
  unfoldable pub handle_my_auctions : State → Response × State × List Effect
  handle_my_auctions s =
      let owner = trim_space (req.query (text "ownerId")) in
      elim req.method [
        | method_get ↦
            if is_nil owner
            then (write_error 400 "ownerId is required", s, [])
            else (let (items, s') =
                  list_my_auctions store out.first owner
                    (parse_auction_status (req.query (text "status"))) s in
                (respond 200 (many_auctions items), s', []))
        | _ ↦ (method_not_allowed, s, [])
      ]

  unfoldable pub change_auction : Text → Text → State → Response × State × List Effect
  change_auction id owner s = elim req.update_body [
    | none ↦ (write_error 400 "invalid body", s, [])
    | some input ↦
        let (item, s') = update_auction store id (with_owner owner input) s in
        elim item [
          | none ↦ (write_error 403 "update failed", s', [])
          | some a ↦ (
            respond 200 (one_auction a),
            s',
            elim srv.moderation [
              | none ↦ []
              | some env ↦ on_auction_submitted env out.first out.second a
            ]
                ++ invalidate_feed_cache srv.env.has_redis,
          )
        ]
  ]

  -- The frame of the calls that need an owner.
  unfoldable pub need_owner :
      Text → (State → Response × State × List Effect) → State → Response × State × List Effect
  need_owner owner handler s =
      if is_nil owner then (write_error 400 "ownerId is required", s, []) else handler s

  unfoldable pub remove_auction : Text → Text → State → Response × State × List Effect
  remove_auction id owner s =
      let (removed, s') = delete_auction store id owner s in
      (
        if removed then respond 200 (done (text "deleted")) else write_error 403 "delete failed",
        s',
        [],
      )

  unfoldable pub get_contacts : Text → Text → State → Response × State × List Effect
  get_contacts id owner s =
      if is_nil id || is_nil owner
      then (write_error 400 "auctionId and ownerId are required", s, [])
      else (let (list, s') = result_contacts store out.first id owner s in
          elim list [
            | none ↦ (write_error 403 "not allowed or auction not ended", s', [])
            | some cs ↦ (respond 200 (contacts cs), s', [])
          ])

  -- The answer after an extension, from the auction as it is read again.
  unfoldable pub show_extended : Option Auction → Response
  show_extended none = write_error 404 "auction not found"
  show_extended (some a) = respond 200 (one_auction a)

  unfoldable pub extend : Text → Text → State → Response × State × List Effect
  extend id owner s =
      let hours = (resolved_settings srv.env).extend_duration_hours in
      let (extended, s') = extend_auction store out.first id owner hours s in
      if extended
      then (let (a, s'') = get_auction store out.second id s' in (show_extended a, s'', []))
      else (write_error 403 "extend failed", s', [])

  unfoldable pub bump : Text → Text → State → Response × State × List Effect
  bump id owner s =
      let (bumped, s') = bump_auction store out.first id owner s in
      if bumped
      then (respond 200 (done (text "ok")), s', invalidate_feed_cache srv.env.has_redis)
      else (write_error 403 "bump failed", s', [])

  unfoldable pub feature : Text → Text → State → Response × State × List Effect
  feature id owner s =
      let (featured, s') = set_featured store out.first id owner s in
      if featured
      then (respond 200 (done (text "ok")), s', invalidate_feed_cache srv.env.has_redis)
      else (write_error 403 "feature failed", s', [])

  unfoldable pub get_stats : Text → Text → State → Response × State × List Effect
  get_stats id owner s = elim (auction_stats store id owner s) [
    | none ↦ (write_error 403 "not allowed", s, [])
    | some st ↦ (respond 200 (stats st), s, [])
  ]

  unfoldable pub on_get :
      (State → Response × State × List Effect) → State → Response × State × List Effect
  on_get handler s = elim req.method [ method_get ↦ handler s | _ ↦ (method_not_allowed, s, []) ]

  unfoldable pub on_post :
      (State → Response × State × List Effect) → State → Response × State × List Effect
  on_post handler s = elim req.method [ method_post ↦ handler s | _ ↦ (method_not_allowed, s, []) ]

  -- The dispatch on the parts of the path after the id; later parts are ignored.
  unfoldable pub my_auction_action :
      Text → Text → List Text → State → Response × State × List Effect
  my_auction_action id owner [] s = elim req.method [
    | method_patch ↦ change_auction id owner s
    | method_put ↦ change_auction id owner s
    | method_delete ↦ need_owner owner (remove_auction id owner) s
    | _ ↦ (method_not_allowed, s, [])
  ]
  my_auction_action id owner (action ∷ _) s =
      if text_eq action (text "result-contacts")
      then on_get (get_contacts id owner) s
      else if text_eq action (text "extend")
      then on_post (need_owner owner (extend id owner)) s
      else if text_eq action (text "bump")
      then on_post (need_owner owner (bump id owner)) s
      else if text_eq action (text "feature")
      then on_post (need_owner owner (feature id owner)) s
      else if text_eq action (text "stats")
      then on_get (need_owner owner (get_stats id owner)) s
      else (write_error 404 "route not found", s, [])

  unfoldable pub my_auction_by_parts : List Text → State → Response × State × List Effect
  my_auction_by_parts [] s = (write_error 400 "invalid auction id", s, [])
  my_auction_by_parts (part ∷ rest) s =
      if is_blank part
      then (write_error 400 "invalid auction id", s, [])
      else my_auction_action (trim_space part) (owner_of req) rest s

  -- `handleMyAuctionByPath`
  unfoldable pub handle_my_auction_by_path : State → Response × State × List Effect
  handle_my_auction_by_path s =
      my_auction_by_parts (split (trim_prefix req.path (text "/v1/me/auctions/"))) s
