-- ===== src/Server/Chat.antt =====
-- The endpoints that send chat messages (internal/http/users_chat.go, internal/http/admin_tickets.go)
-- over any chat store. The store is a database, and is a parameter, as is whether two users may chat.
use Prim.Native.String.{String}
use auction_server.Prelude.{
  ℕ, Bool, false, ◌&&◌, ◌||◌, not, List, [], ◌∷◌, Option, none, some, is_nil, if◌then◌else◌,
}
use auction_server.Prelude.Int.{ℤ}
use auction_server.Prelude.Text.{Text, text, trim_space, is_blank}
use auction_server.Domain.{support_auction_id, support_admin_id}
use auction_server.Effects.{Effect, hub_chat}
use auction_server.Settings.{Config}
use auction_server.Server.{Request, Response, method_get, method_post, respond, error}
use auction_server.Server.Admin.{admin_cors, require_admin}

pub record ChatMessage : Type 0 where
  pub id : ℤ
  pub auction_id : Text
  pub sender_id : Text
  pub peer_id : Text
  pub sender_name : Text
  pub body : Text
  pub attachment_url : Text
  pub created_at_ms : ℤ

pub record SendChatInput : Type 0 where
  pub sender_id : Text
  pub peer_id : Text
  pub sender_name : Text
  pub body : Text
  pub attachment_url : Text

pub record AdminTicketMessageInput : Type 0 where
  pub user_id : Text
  pub body : Text
  pub attachment_url : Text

-- What the handlers use of `postgres.ChatRepository`.
pub record ChatStore : Type 1 where
  pub State : Type 0
  pub list_messages : (auction viewer peer : Text) (limit : ℕ) → State → List ChatMessage
  pub insert_message : Text → SendChatInput → State → Option ChatMessage × State

pub data ChatReply : Type 0 where
  sent : ChatMessage → ChatReply
  messages : List ChatMessage → ChatReply
  answered : Response → ChatReply

abbrev pub chat_error : ℕ → String → ChatReply
chat_error code message = answered (respond code (error (text message)))

-- The message with its texts trimmed.
unfoldable pub trimmed_message : SendChatInput → SendChatInput
trimmed_message input = record {
  sender_id = trim_space input.sender_id;
  peer_id = trim_space input.peer_id;
  sender_name = trim_space input.sender_name;
  body = trim_space input.body;
  attachment_url = trim_space input.attachment_url;
}

unfoldable pub named_message : SendChatInput → SendChatInput
named_message input = record input {
  sender_name = if is_nil input.sender_name then input.sender_id else input.sender_name;
}

-- Neither text nor attachment.
unfoldable pub has_no_content : Text → Text → Bool
has_no_content body attachment = is_nil body && is_nil attachment

-- The message to the support that a user's request makes.
unfoldable pub support_message : SendChatInput → SendChatInput
support_message input =
    let sender = trim_space input.sender_id in
    record {
      sender_id = sender;
      peer_id = support_admin_id;
      sender_name = if is_blank input.sender_name then sender else input.sender_name;
      body = trim_space input.body;
      attachment_url = trim_space input.attachment_url;
    }

unfoldable pub ticket_message : AdminTicketMessageInput → SendChatInput
ticket_message input = record {
  sender_id = support_admin_id;
  peer_id = trim_space input.user_id;
  sender_name = support_admin_id;
  body = trim_space input.body;
  attachment_url = trim_space input.attachment_url;
}

-- `s.users != nil && !s.users.BlockStatus(…).CanChat`
unfoldable pub is_blocked : Option (Text → Text → Bool) → SendChatInput → Bool
is_blocked none input = false
is_blocked (some can_chat) input = not (can_chat input.sender_id input.peer_id)

module _ (chat : ChatStore) (can_chat : Option (Text → Text → Bool)) (has_hub : Bool) where
  open chat use {State}

  -- The end of each handler.
  unfoldable pub send : Text → SendChatInput → State → ChatReply × State × List Effect
  send auction_id input s =
      let (msg, s') = chat.insert_message auction_id input s in
      elim msg [
        | none ↦ (chat_error 400 "could not send message", s', [])
        | some m ↦ (
          sent m,
          s',
          if has_hub then hub_chat auction_id input.sender_id input.peer_id ∷ [] else [],
        )
      ]

  unfoldable pub post_chat : Text → Option SendChatInput → State → ChatReply × State × List Effect
  unfolding send
  post_chat auction_id none s = (chat_error 400 "invalid body", s, [])
  post_chat auction_id (some given) s =
      let input = trimmed_message given in
      if is_nil input.sender_id
        || (is_nil input.peer_id || has_no_content input.body input.attachment_url)
      then (chat_error 400 "senderId, peerId and body or attachmentUrl are required", s, [])
      else if is_blocked can_chat input
      then (chat_error 403 "blocked", s, [])
      else send auction_id (named_message input) s

  -- `handleAuctionChat`
  unfoldable pub handle_auction_chat :
      Request → Text → Option SendChatInput → State → ChatReply × State × List Effect
  unfolding post_chat
  handle_auction_chat req auction_id body s = elim req.method [
    | method_get ↦ (
      messages (
          chat.list_messages auction_id (trim_space (req.query (text "viewerId")))
            (trim_space (req.query (text "peerId"))) 200 s),
      s,
      [],
    )
    | method_post ↦ post_chat auction_id body s
    | _ ↦ (chat_error 405 "method not allowed", s, [])
  ]

  unfoldable pub post_support : Option SendChatInput → State → ChatReply × State × List Effect
  unfolding send
  post_support none s = (chat_error 400 "invalid body", s, [])
  post_support (some given) s =
      let input = support_message given in
      if is_nil input.sender_id || has_no_content input.body input.attachment_url
      then (chat_error 400 "senderId and body or attachmentUrl are required", s, [])
      else send support_auction_id input s

  -- `handleSupportMessages`
  unfoldable pub handle_support_messages :
      Request → Option SendChatInput → State → ChatReply × State × List Effect
  unfolding post_support
  handle_support_messages req body s = elim req.method [
    | method_get ↦
        let user = trim_space (req.query (text "userId")) in
        if is_nil user
        then (chat_error 400 "userId is required", s, [])
        else (messages (chat.list_messages support_auction_id user support_admin_id 300 s), s, [])
    | method_post ↦ post_support body s
    | _ ↦ (chat_error 405 "method not allowed", s, [])
  ]

  unfoldable pub post_ticket :
      Option AdminTicketMessageInput → State → ChatReply × State × List Effect
  unfolding send
  post_ticket none s = (chat_error 400 "invalid body", s, [])
  post_ticket (some given) s =
      let input = ticket_message given in
      if is_nil input.peer_id || has_no_content input.body input.attachment_url
      then (chat_error 400 "userId and body or attachmentUrl are required", s, [])
      else send support_auction_id input s

  unfoldable pub ticket_messages :
      Request → Option AdminTicketMessageInput → State → ChatReply × State × List Effect
  unfolding post_ticket
  ticket_messages req body s = elim req.method [
    | method_get ↦
        let user = trim_space (req.query (text "userId")) in
        if is_nil user
        then (chat_error 400 "userId is required", s, [])
        else (messages (chat.list_messages support_auction_id support_admin_id user 300 s), s, [])
    | method_post ↦ post_ticket body s
    | _ ↦ (chat_error 405 "method not allowed", s, [])
  ]

  -- `handleAdminTicketMessages`
  unfoldable pub handle_admin_ticket_messages :
      Config → Request → Option AdminTicketMessageInput → State → ChatReply × State × List Effect
  unfolding ticket_messages
  handle_admin_ticket_messages cfg req body s = elim (admin_cors req) [
    | some response ↦ (answered response, s, [])
    | none ↦ elim (require_admin cfg req) [
      | some response ↦ (answered response, s, [])
      | none ↦ ticket_messages req body s
    ]
  ]
