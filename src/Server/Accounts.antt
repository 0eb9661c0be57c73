-- ===== src/Server/Accounts.antt =====
-- The endpoints that log in, register users, report a chat and read the inbox
-- (internal/http/users_chat.go). They are registered only where the store that they use is there.
use auction_server.Prelude.{◌||◌, List, [], ◌∷◌, Option, none, some, Bool, is_nil, if◌then◌else◌}
use auction_server.Prelude.Int.{ℤ, pos}
use auction_server.Prelude.Text.{Text, text, trim_space, is_blank}
use auction_server.Users.{LoginInput, UpsertUserInput, User, UserTables, upsert_user}
use auction_server.Users.Profiles.{login}
use auction_server.Postgres.Chat.{ChatReportInput, ChatTables, ChatThread, list_inbox, report_chat}
use auction_server.Server.{
  Request, Response, error, method_get, method_not_allowed, method_post, respond, write_error,
}

pub data AccountReply : Type 0 where
  user : User → AccountReply
  threads : List ChatThread → AccountReply
  reported : AccountReply
  answered : Response → AccountReply

-- The message for a failed login, by its code points (Persian for "the user name or the password is
-- wrong").
unfoldable pub wrong_login : Text
wrong_login =
    0x646 ∷ 0x627 ∷ 0x645 ∷ 0x20 ∷ 0x6a9 ∷ 0x627 ∷ 0x631 ∷ 0x628 ∷ 0x631 ∷ 0x6cc ∷ 0x20 ∷ 0x6cc
    ∷ 0x627 ∷ 0x20 ∷ 0x631 ∷ 0x645 ∷ 0x632 ∷ 0x20 ∷ 0x639 ∷ 0x628 ∷ 0x648 ∷ 0x631 ∷ 0x20 ∷ 0x627
    ∷ 0x634 ∷ 0x62a ∷ 0x628 ∷ 0x627 ∷ 0x647 ∷ 0x20 ∷ 0x627 ∷ 0x633 ∷ 0x62a ∷ []

-- `handleAuthLogin`
unfoldable pub handle_auth_login :
    (Text → Text) → Request → Option LoginInput → UserTables → AccountReply
unfolding wrong_login
handle_auth_login lower req body t = elim req.method [
  | method_post ↦ elim body [
    | none ↦ answered (write_error 400 "invalid body")
    | some input ↦ elim (login lower input t) [
      | none ↦ answered (respond 401 (error wrong_login))
      | some u ↦ user u
    ]
  ]
  | _ ↦ answered method_not_allowed
]

unfoldable pub register : ℤ → UpsertUserInput → UserTables → AccountReply × UserTables
register now input t =
    let given : UpsertUserInput = record {
      id = trim_space input.id;
      phone = trim_space input.phone;
    } in
    let (u, t') = upsert_user now given t in
    if is_nil given.phone then (answered (write_error 400 "phone is required"), t) else elim u [
      | none ↦ (answered (write_error 500 "could not save user"), t')
      | some v ↦ (user v, t')
    ]

-- `handleUsers`
unfoldable pub handle_users :
    ℤ → Request → Option UpsertUserInput → UserTables → AccountReply × UserTables
unfolding register
handle_users now req body t = elim req.method [
  | method_post ↦ elim body [
    | none ↦ (answered (write_error 400 "invalid body"), t)
    | some input ↦ register now input t
  ]
  | _ ↦ (answered method_not_allowed, t)
]

unfoldable pub report : ℤ → ChatReportInput → ChatTables → AccountReply × ChatTables
report now input t =
    if is_blank input.auction_id || (is_blank input.reporter_id || is_blank input.peer_id)
    then (answered (write_error 400 "auctionId, reporterId and peerId are required"), t)
    else (let (done, t') = report_chat now input t in
        (if done then reported else answered (write_error 500 "could not save report"), t'))

-- `handleChatReport`
unfoldable pub handle_chat_report :
    ℤ → Request → Option ChatReportInput → ChatTables → AccountReply × ChatTables
unfolding report
handle_chat_report now req body t = elim req.method [
  | method_post ↦ elim body [
    | none ↦ (answered (write_error 400 "invalid body"), t)
    | some input ↦ report now input t
  ]
  | _ ↦ (answered method_not_allowed, t)
]

-- `handleChatInbox`
unfoldable pub handle_chat_inbox : (Text → Text → Bool) → Request → ChatTables → AccountReply
handle_chat_inbox after req t = elim req.method [
  | method_get ↦
      let id = trim_space (req.query (text "userId")) in
      if is_nil id
      then answered (write_error 400 "userId is required")
      else threads (list_inbox after id (pos 50) t)
  | _ ↦ answered method_not_allowed
]
