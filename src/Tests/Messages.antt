-- ===== src/Tests/Messages.antt =====
-- The theorems on chat messages at work on one message.
use auction_server.Prelude.{◌≡◌, refl, Bool, true, List, [], ◌∷◌, Option, some}
use auction_server.Prelude.Int.{pos}
use auction_server.Prelude.Text.{Text, text, is_space, trim_left, trim_right, trim, trim_space}
use auction_server.Hub.{Hub}
use auction_server.Server.Chat.{
  ChatStore, ChatMessage, SendChatInput, named_message, trimmed_message, post_chat, send,
  has_no_content, is_blocked,
}
use auction_server.Server.ChatDelivery.{IsSendable, post_chat-IsSendable}

abbrev line : SendChatInput
line = record {
  sender_id = text " u";
  peer_id = text "v";
  sender_name = [];
  body = text "hi";
  attachment_url = [];
}

abbrev message_of : Text → SendChatInput → ChatMessage
message_of auction input = record {
  id = pos 1;
  auction_id = auction;
  sender_id = input.sender_id;
  peer_id = input.peer_id;
  sender_name = input.sender_name;
  body = input.body;
  attachment_url = input.attachment_url;
  created_at_ms = pos 1;
}

-- A chat store that takes every message.
abbrev log : ChatStore
log = record {
  State = List ChatMessage;
  list_messages = λ auction viewer peer limit s. s;
  insert_message =
      λ auction input s. (some (message_of auction input), message_of auction input ∷ s);
}

abbrev anyone : Option (Text → Text → Bool)
anyone = some (λ sender peer. true)

post_chat-IsSendable_example :
    IsSendable anyone line
    × (some (message_of (text "a") (named_message (trimmed_message line)))
        ≡ some (message_of (text "a") (named_message (trimmed_message line))))
unfolding post_chat send trimmed_message named_message has_no_content is_blocked is_space trim_left
    trim_right trim trim_space
post_chat-IsSendable_example =
    post_chat-IsSendable log anyone true line [] (text "a")
      (message_of (text "a") (named_message (trimmed_message line))) refl

abbrev watched : Hub
watched = record { admin_api_key = text "k"; rooms = (text "admin:support", 7 ∷ []) ∷ [] }
