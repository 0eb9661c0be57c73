-- ===== src/Hub.antt =====
-- The websocket hub (internal/ws/hub.go): rooms of connections, and which rooms a notification
-- reaches. A connection is a number; the hub's lock makes each call one step.
pub mod Rooms
use auction_server.Prelude.{
  ℕ, Bool, true, false, ◌&&◌, ◌||◌, not, List, [], ◌∷◌, ◌++◌, map, Option, none, some, is_nil, keep,
  ◌==◌, if◌then◌else◌,
}
use auction_server.Prelude.Text.{Text, text, text_eq, trim_space}
use auction_server.Prelude.Strings.{has_prefix, trim_prefix, trim_suffix, trim_slashes, split}
use auction_server.Prelude.Dict.{Dict, lookup, insert, erase}

-- The set of connections of a room, as a list.
abbrev pub Connections : Type 0
Connections = List ℕ

pub record Hub : Type 0 where
  pub rooms : Dict Connections
  pub admin_api_key : Text

-- `NewHub`
unfoldable pub new_hub : Text → Hub
new_hub key = record { rooms = []; admin_api_key = trim_space key }

unfoldable pub connections_of : Text → Hub → Connections
connections_of room h = elim (lookup room h.rooms) [ none ↦ [] | some conns ↦ conns ]

unfoldable pub contains : ℕ → Connections → Bool
contains conn [] = false
contains conn (c ∷ cs) = c == conn || contains conn cs

unfoldable pub add_connection : ℕ → Connections → Connections
unfolding contains
add_connection conn conns = if contains conn conns then conns else conn ∷ conns

-- `join`
unfoldable pub join : Text → ℕ → Hub → Hub
join room conn h = record h {
  rooms = insert room (add_connection conn (connections_of room h)) h.rooms;
}

unfoldable pub remove_connection : ℕ → Connections → Connections
remove_connection conn conns = keep (λ c. not (c == conn)) conns

-- `leave`: `delete` on the nil map of a missing room does nothing, and an empty room is deleted.
unfoldable pub leave : Text → ℕ → Hub → Hub
leave room conn h =
    let conns = remove_connection conn (connections_of room h) in
    if is_nil conns
    then record h { rooms = erase room h.rooms }
    else record h { rooms = insert room conns h.rooms }

unfoldable pub thread_room : Text → Text → Text → Text
thread_room auction_id viewer_id peer_id =
    text "thread:" ++ (auction_id ++ (text ":" ++ (viewer_id ++ (text ":" ++ peer_id))))

unfoldable pub inbox_room : Text → Text
inbox_room user_id = text "inbox:" ++ user_id

unfoldable pub admin_support_room : Text
admin_support_room = text "admin:support"

unfoldable pub support_room_id : Text
support_room_id = text "__support__"

-- The messages that the hub encodes.
pub data Payload : Type 0 where
  top_bids_updated : Text → Payload
  chat_messages_updated : Text → Payload
  inbox_updated : Payload
  support_tickets_updated : Payload

-- `broadcast`: the writes that it makes, one to each connection of the room; a failed write is
-- logged and the loop goes on.
unfoldable pub broadcast : Text → Payload → Hub → List (ℕ × Payload)
broadcast room payload h = map (λ c. (c, payload)) (connections_of room h)

-- `NotifyTopBids`
unfoldable pub notify_top_bids : Text → Hub → List (ℕ × Payload)
notify_top_bids auction_id h = broadcast auction_id (top_bids_updated auction_id) h

-- `NotifyChat`
unfoldable pub notify_chat : Text → Text → Text → Hub → List (ℕ × Payload)
notify_chat auction_id sender_id peer_id h =
    broadcast (thread_room auction_id sender_id peer_id) (chat_messages_updated auction_id) h
    ++ (broadcast (thread_room auction_id peer_id sender_id) (chat_messages_updated auction_id) h
        ++ (broadcast (inbox_room sender_id) inbox_updated h
            ++ (broadcast (inbox_room peer_id) inbox_updated h
                ++ (if text_eq auction_id support_room_id
                    then broadcast admin_support_room support_tickets_updated h
                    else []))))

-- What the hub reads of a websocket request.
pub record HubRequest : Type 0 where
  pub path : Text
  pub query_user_id : Text
  pub header_admin_key : Text
  pub query_admin_key : Text

pub data Admission : Type 0 where
  serve_room : Text → Admission
  bad_request unauthorized not_found : Admission

-- `checkAdminKey`
unfoldable pub check_admin_key : HubRequest → Hub → Bool
check_admin_key r h =
    let header = trim_space r.header_admin_key in
    let got = if is_nil header then trim_space r.query_admin_key else header in
    if is_nil h.admin_api_key then false else text_eq got h.admin_api_key

-- `serveAuctionBids`, `serveChatThread`, `serveChatInbox`, `serveAdminSupportTickets`
unfoldable pub serve_auction_bids : HubRequest → Admission
serve_auction_bids r =
    let id =
      trim_slashes (trim_suffix (trim_prefix r.path (text "/v1/ws/auctions/")) (text "/bids")) in
    if is_nil id then bad_request else serve_room id

unfoldable pub thread_of_parts : List Text → Admission
thread_of_parts (auction_id ∷ viewer_id ∷ peer_id ∷ []) =
    serve_room (thread_room auction_id viewer_id peer_id)
thread_of_parts _ = bad_request

unfoldable pub serve_chat_thread : HubRequest → Admission
serve_chat_thread r =
    thread_of_parts (split (trim_slashes (trim_prefix r.path (text "/v1/ws/chat/threads/"))))

unfoldable pub serve_chat_inbox : HubRequest → Admission
serve_chat_inbox r =
    let user_id = trim_space r.query_user_id in
    if is_nil user_id then bad_request else serve_room (inbox_room user_id)

unfoldable pub serve_admin_support_tickets : HubRequest → Hub → Admission
serve_admin_support_tickets r h =
    if check_admin_key r h then serve_room admin_support_room else unauthorized

-- `ServeHTTP`
unfoldable pub serve_http : HubRequest → Hub → Admission
serve_http r h =
    if has_prefix r.path (text "/v1/ws/auctions/")
    then serve_auction_bids r
    else if has_prefix r.path (text "/v1/ws/chat/threads/")
    then serve_chat_thread r
    else if text_eq r.path (text "/v1/ws/chat/inbox")
    then serve_chat_inbox r
    else if text_eq r.path (text "/v1/ws/admin/support-tickets")
    then serve_admin_support_tickets r h
    else not_found
