-- ===== src/Server/Admin.antt =====
-- The moderators' endpoints (internal/http/admin_moderation.go): the admin key, the queue, and the
-- decisions.
use auction_server.Prelude.{List, [], ◌∷◌, Option, none, some, is_nil, if◌then◌else◌}
use auction_server.Prelude.Text.{Text, text, text_eq, trim_space}
use auction_server.Prelude.Strings.{atoi, split, trim_slashes}
use auction_server.Domain.{ModerationQueueFilter, pending}
use auction_server.Effects.{Effect}
use auction_server.Settings.{Config}
use auction_server.Store.{AuctionStore}
use auction_server.Service.Moderation.{ModerationEnvironment, list_queue, approve, reject}
use auction_server.Server.{
  Request, Response, Server, Outside, respond, panics, method_get, method_post, method_options,
  write_error, method_not_allowed, moderation_of_text, queue_page, one_auction, no_content,
}

-- The key that a request carries, in its header or its query.
unfoldable pub key_of : Request → Text
key_of req =
    let got = trim_space (req.header (text "X-Admin-Key")) in
    if is_nil got then trim_space (req.query (text "adminKey")) else got

-- `requireAdmin`: `none` lets the request pass.
unfoldable pub require_admin : Config → Request → Option Response
require_admin cfg req =
    let key = trim_space cfg.admin_api_key in
    if is_nil key
    then some (write_error 503 "admin API disabled")
    else if text_eq (key_of req) key
    then none
    else some (write_error 401 "invalid admin key")

-- `adminCORS`: `none` lets the request pass.
unfoldable pub admin_cors : Request → Option Response
admin_cors req = elim req.method [ method_options ↦ some (respond 204 no_content) | _ ↦ none ]

-- The last three parts of a path.
unfoldable pub last_three : List Text → Option (Text × Text × Text)
last_three (a ∷ b ∷ c ∷ []) = some (a, b, c)
last_three (a ∷ b ∷ c ∷ d ∷ parts) = last_three (b ∷ c ∷ d ∷ parts)
last_three _ = none

-- The filter of the queue; a missing status is pending.
unfoldable pub queue_filter : Request → ModerationQueueFilter
queue_filter req =
    let word = trim_space (req.query (text "status")) in
    record {
      status = if is_nil word then pending else moderation_of_text word;
      limit = atoi (req.query (text "limit"));
      cursor = trim_space (req.query (text "cursor"));
    }

module _ (store : AuctionStore) (srv : Server) (env : ModerationEnvironment) (out : Outside)
    (req : Request) where
  open store use {State}

  unfoldable pub get_queue : State → Response
  get_queue s = elim (list_queue store (queue_filter req) out.pending_count s) [
    | none ↦ panics
    | some page ↦ respond 200 (queue_page page)
  ]

  -- `handleAdminModerationQueue`, which checks the method before the key.
  unfoldable pub handle_admin_moderation_queue : State → Response
  handle_admin_moderation_queue s = elim (admin_cors req) [
    | some response ↦ response
    | none ↦ elim req.method [
      | method_get ↦ elim (require_admin srv.env.cfg req) [
        | some response ↦ response
        | none ↦ get_queue s
      ]
      | _ ↦ method_not_allowed
    ]
  ]

  unfoldable pub post_approve : Text → State → Response × State × List Effect
  post_approve id s =
      let (a, s', effects) = approve store env out.first out.second id s in
      elim a [
        | none ↦ (write_error 404 "auction not pending", s', effects)
        | some b ↦ (respond 200 (one_auction b), s', effects)
      ]

  unfoldable pub post_reject : Text → State → Response × State × List Effect
  post_reject id s =
      let (a, s', effects) = reject store env out.first out.second id req.reason_body s in
      elim a [
        | none ↦ (write_error 404 "auction not pending", s', effects)
        | some b ↦ (respond 200 (one_auction b), s', effects)
      ]

  unfoldable pub posted :
      (State → Response × State × List Effect) → State → Response × State × List Effect
  posted handler s = elim req.method [ method_post ↦ handler s | _ ↦ (method_not_allowed, s, []) ]

  unfoldable pub decide : Option (Text × Text × Text) → State → Response × State × List Effect
  decide none s = (write_error 404 "not found", s, [])
  decide (some (auctions, id, action)) s =
      if text_eq auctions (text "auctions")
      then (if text_eq action (text "approve")
          then posted (post_approve id) s
          else if text_eq action (text "reject")
          then posted (post_reject id) s
          else (write_error 404 "not found", s, []))
      else (write_error 404 "not found", s, [])

  -- `handleAdminModerationAuction`
  unfoldable pub handle_admin_moderation_auction : State → Response × State × List Effect
  handle_admin_moderation_auction s = elim (admin_cors req) [
    | some response ↦ (response, s, [])
    | none ↦ elim (require_admin srv.env.cfg req) [
      | some response ↦ (response, s, [])
      | none ↦ decide (last_three (split (trim_slashes req.path))) s
    ]
  ]
