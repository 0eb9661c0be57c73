-- ===== src/Server/BlockedChat.antt =====
-- A block and the chat endpoint: the tables of users decide who may send messages
-- (internal/repository/postgres/user_repository.go, internal/http/users_chat.go).
use auction_server.Prelude.{◌≡◌, Bool, Option, some}
use auction_server.Prelude.Text.{Text, trim_space}
use auction_server.Users.{UserTables}
use auction_server.Users.Social.{block_status}
use auction_server.Server.Chat.{SendChatInput}

-- `s.users.BlockStatus(sender, peer).CanChat`
unfoldable pub can_chat_in : UserTables → Option (Text → Text → Bool)
can_chat_in t = some (λ sender peer. (block_status sender peer t).can_chat)

-- The two ends of a message are the two users.
pub record IsFromTo (x y : Text) (m : SendChatInput) : Type 0 where
  pub sender : trim_space m.sender_id ≡ trim_space x
  pub peer : trim_space m.peer_id ≡ trim_space y
