-- ===== src/Server/ChatDelivery.antt =====
-- Which chat messages are stored, and whom the hub then tells (internal/http/users_chat.go,
-- internal/ws/hub.go).
use auction_server.Prelude.{
  ℕ, ◌≡◌, refl, Bool, true, false, List, [], ◌∷◌, ◌++◌, Option, some, arith, is_nil,
}
use auction_server.Prelude.Text.{Text, text_eq, trim_space}
use auction_server.Domain.{support_auction_id, support_admin_id}
use auction_server.Effects.{Effect, hub_chat, hub_top_bids}
use auction_server.Hub.{
  Hub, Payload, contains, notify_chat, notify_top_bids, admin_support_room, support_room_id,
}
use auction_server.Hub.Rooms.{is_member, recipients, contains-notify_chat, contains-append}
use auction_server.Server.Chat.{
  ChatStore, ChatMessage, SendChatInput, sent, send, post_chat, post_support, trimmed_message,
  named_message, has_no_content, is_blocked, support_message,
}

-- What has been checked when a message is sent on an auction's thread.
pub record IsSendable (can_chat : Option (Text → Text → Bool)) (input : SendChatInput)
    : Type 0 where
  pub has_sender : is_nil (trim_space input.sender_id) ≡ false
  pub has_peer : is_nil (trim_space input.peer_id) ≡ false
  pub has_content : has_no_content (trim_space input.body) (trim_space input.attachment_url) ≡ false
  pub may_chat : is_blocked can_chat (trimmed_message input) ≡ false

-- What the hub writes for the calls of a handler.
unfoldable pub deliver : List Effect → Hub → List (ℕ × Payload)
deliver [] h = []
deliver (hub_chat auction sender peer ∷ es) h = notify_chat auction sender peer h ++ deliver es h
deliver (hub_top_bids auction ∷ es) h = notify_top_bids auction h ++ deliver es h
deliver (_ ∷ es) h = deliver es h

module _ (chat : ChatStore) (can_chat : Option (Text → Text → Bool)) (has_hub : Bool)
    (input : SendChatInput) (s : chat.State) where
  -- A chat message that is sent on an auction has a sender, a peer, and a text or an attachment,
  -- after trimming; the two users may chat; and what the chat store took is the trimmed message,
  -- with the sender for a missing name.
  pub post_chat-IsSendable :
      (auction : Text) (m : ChatMessage)
      → (post_chat chat can_chat has_hub auction (some input) s).0 ≡ sent m
      → IsSendable can_chat input
        × ((chat.insert_message auction (named_message (trimmed_message input)) s).0 ≡ some m)
  unfolding post_chat send trimmed_message
  post_chat-IsSendable auction m h = (
    record {
      has_sender = ground arith;
      has_peer = ground arith;
      has_content = ground arith;
      may_chat = ground arith;
    },
    ground arith,
  )

  sent_support :
      (m : ChatMessage)
      → (post_support chat can_chat true (some input) s).0 ≡ sent m
      → (post_support chat can_chat true (some input) s).2
        ≡ hub_chat support_auction_id (trim_space input.sender_id) support_admin_id ∷ []
  unfolding post_support send support_message
  sent_support m h = ground arith

  -- Where there is a hub, a message to the support that is stored is announced to every connection
  -- in the moderators' room.
  pub support_reaches_moderators :
      (m : ChatMessage) (d : ℕ) (h : Hub)
      → (post_support chat can_chat true (some input) s).0 ≡ sent m
      → is_member admin_support_room d h ≡ true
      → contains d (recipients (deliver (post_support chat can_chat true (some input) s).2 h))
        ≡ true
  unfolding deliver
  support_reaches_moderators m d h done moderator =
      let sender = trim_space input.sender_id in
      let same : text_eq support_auction_id support_room_id ≡ true =
        unfold support_auction_id support_room_id text_eq in refl in
      rw (sent_support m done) (
        rw
          (
            contains-append d (notify_chat support_auction_id sender support_admin_id h) [],
            contains-notify_chat support_auction_id sender support_admin_id d h,
            same,
            moderator,
          )
          (ground arith))
