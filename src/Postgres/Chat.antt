-- ===== src/Postgres/Chat.antt =====
-- The chat messages in the PostgreSQL store (internal/repository/postgres/chat_repository.go). `after`
-- is the order of texts under the collation of the database.
use auction_server.Prelude.{
  ℕ, Bool, true, ◌&&◌, ◌||◌, not, List, [], ◌∷◌, ◌++◌, map, keep, take, Option, none, some, is_nil,
  ◌==◌, if◌then◌else◌,
}
use auction_server.Prelude.Int.{ℤ, pos, add, ltb_ℤ}
use auction_server.Prelude.Text.{Text, text_eq, trim_space, is_blank}
use auction_server.Prelude.Sort.{sort}
use auction_server.Postgres.{Database, UserRow, auction_row}
use auction_server.Postgres.BidLists.{limit_or, number_text, or_else, sql_trim, user_row}
use auction_server.Server.Chat.{ChatMessage, ChatStore, SendChatInput}

pub record MessageRow : Type 0 where
  pub message : ChatMessage
  pub auction_owner_id : Text

pub record ChatReportInput : Type 0 where
  pub auction_id : Text
  pub reporter_id : Text
  pub peer_id : Text
  pub body : Text

pub record ReportRow : Type 0 where
  pub report : ChatReportInput
  pub created_at_ms : ℤ

pub record ChatTables : Type 0 where
  pub db : Database
  pub messages : List MessageRow
  pub reports : List ReportRow
  pub next_message : ℤ

-- `ORDER BY created_at_ms ASC`
unfoldable pub by_time : ChatMessage → ChatMessage → Bool
by_time a b = ltb_ℤ a.created_at_ms b.created_at_ms

unfoldable pub is_on_auction : Text → ChatMessage → Bool
is_on_auction auction m = text_eq m.auction_id auction

-- `(sender_id = $2 AND peer_id = $3) OR (sender_id = $3 AND peer_id = $2)`
unfoldable pub is_between : Text → Text → ChatMessage → Bool
is_between viewer peer m =
    text_eq m.sender_id viewer && text_eq m.peer_id peer
    || text_eq m.sender_id peer && text_eq m.peer_id viewer

-- The clause of `ListMessages`: without a viewer or a peer, every message on the auction.
unfoldable pub is_listed : Text → Text → Text → ChatMessage → Bool
unfolding is_on_auction is_between
is_listed auction viewer peer m =
    is_on_auction auction m && (is_nil viewer || (is_nil peer || is_between viewer peer m))

-- `ListMessages`
unfoldable pub list_messages : Text → Text → Text → ℕ → ChatTables → List ChatMessage
unfolding by_time is_listed
list_messages auction viewer peer limit t = take (if limit == 0 then 100 else limit) (
    sort by_time (
      keep (is_listed auction (trim_space viewer) (trim_space peer))
        (map (λ r. r.message) t.messages)))

-- The message that `InsertMessage` stores and answers.
unfoldable pub new_message : ℤ → ℤ → Text → SendChatInput → ChatMessage
new_message now id auction input = record {
  id = id;
  auction_id = auction;
  sender_id = input.sender_id;
  peer_id = trim_space input.peer_id;
  sender_name = input.sender_name;
  body = trim_space input.body;
  attachment_url = trim_space input.attachment_url;
  created_at_ms = now;
}

unfoldable pub owner_of : Text → Database → Text
owner_of auction db = elim (auction_row auction db) [ none ↦ [] | some a ↦ a.owner_id ]

-- `InsertMessage`
unfoldable pub insert_message :
    ℤ → Text → SendChatInput → ChatTables → Option ChatMessage × ChatTables
unfolding new_message owner_of
insert_message now auction input t =
    let m = new_message now t.next_message auction input in
    if is_blank input.body && is_blank input.attachment_url then (none, t) else (
      some m,
      record t {
        messages =
            t.messages ++ record { message = m; auction_owner_id = owner_of auction t.db } ∷ [];
        next_message = add t.next_message (pos 1);
      },
    )

-- `ReportChat`
unfoldable pub report_chat : ℤ → ChatReportInput → ChatTables → Bool × ChatTables
report_chat now input t =
    let report : ChatReportInput = record {
      auction_id = trim_space input.auction_id;
      reporter_id = trim_space input.reporter_id;
      peer_id = trim_space input.peer_id;
      body = trim_space input.body;
    } in
    (true, record t { reports = t.reports ++ record { report = report; created_at_ms = now } ∷ [] })

-- `ChatRepository`, as the chat handlers use it; `now` is the clock of the insertion.
abbrev pub chat_store : ℤ → ChatStore
chat_store now = record {
  State = ChatTables;
  list_messages = list_messages;
  insert_message = insert_message now;
}

pub record ChatThread : Type 0 where
  pub auction_id : Text
  pub owner_id : Text
  pub peer_id : Text
  pub peer_name : Text
  pub peer_phone : Text
  pub peer_receive_calls : Bool
  pub peer_gender : Text
  pub peer_family_name : Text
  pub peer_avatar_key : Text
  pub last_body : Text
  pub last_at_ms : ℤ
  pub last_sender_id : Text

-- The other end of a message, seen from one of its ends.
unfoldable pub other_peer : Text → ChatMessage → Text
other_peer user m = if text_eq m.sender_id user then m.peer_id else m.sender_id

-- `COALESCE(NULLIF(TRIM(u.display_name), ''), the user's number, NULLIF(u.username, ''), t.other_peer)`
unfoldable pub peer_name : Text → UserRow → Text
unfolding or_else sql_trim number_text
peer_name other u =
    or_else (sql_trim u.display_name)
      (or_else (number_text u.user_number) (or_else u.username other))

-- A thread is a message with its other end's account, where there is one.
unfoldable pub thread_of : Text → MessageRow → Option UserRow → ChatThread
unfolding other_peer peer_name or_else sql_trim number_text
thread_of user r none = record {
  auction_id = r.message.auction_id;
  owner_id = r.auction_owner_id;
  peer_id = other_peer user r.message;
  peer_name = other_peer user r.message;
  peer_phone = [];
  peer_receive_calls = true;
  peer_gender = [];
  peer_family_name = [];
  peer_avatar_key = [];
  last_body = r.message.body;
  last_at_ms = r.message.created_at_ms;
  last_sender_id = r.message.sender_id;
}
thread_of user r (some u) = record {
  auction_id = r.message.auction_id;
  owner_id = r.auction_owner_id;
  peer_id = other_peer user r.message;
  peer_name = peer_name (other_peer user r.message) u;
  peer_phone = if u.receive_calls then u.phone else [];
  peer_receive_calls = u.receive_calls;
  peer_gender = u.gender;
  peer_family_name = or_else (sql_trim u.display_name) (number_text u.user_number);
  peer_avatar_key = u.avatar_key;
  last_body = r.message.body;
  last_at_ms = r.message.created_at_ms;
  last_sender_id = r.message.sender_id;
}

unfoldable pub same_thread : ChatThread → ChatThread → Bool
same_thread a b = text_eq a.auction_id b.auction_id && text_eq a.peer_id b.peer_id

-- `SELECT DISTINCT ON (t.auction_id, t.other_peer)` of sorted rows: the first of each thread.
unfoldable pub distinct_threads : List ChatThread → List ChatThread
unfolding same_thread
distinct_threads [] = []
distinct_threads (a ∷ rest) = a ∷ keep (λ b. not (same_thread a b)) (distinct_threads rest)

unfoldable pub by_last : ChatThread → ChatThread → Bool
by_last a b = ltb_ℤ b.last_at_ms a.last_at_ms

module _ (after : Text → Text → Bool) where
  -- `ORDER BY t.auction_id, t.other_peer, t.created_at_ms DESC`
  unfoldable pub by_thread : ChatThread → ChatThread → Bool
  by_thread a b =
      if text_eq a.auction_id b.auction_id
      then (if text_eq a.peer_id b.peer_id
          then ltb_ℤ b.last_at_ms a.last_at_ms
          else after b.peer_id a.peer_id)
      else after b.auction_id a.auction_id

  -- `ListInbox`: the loop stops at the limit, and what it has read is then sorted by time.
  unfoldable pub list_inbox : Text → ℤ → ChatTables → List ChatThread
  unfolding thread_of by_thread distinct_threads by_last
  list_inbox user_id limit t =
      let user = trim_space user_id in
      let rows =
        keep
          (λ (r : MessageRow). text_eq r.message.sender_id user || text_eq r.message.peer_id user)
          t.messages in
      let threads = distinct_threads (
        sort by_thread
          (map (λ r. thread_of user r (user_row (other_peer user r.message) t.db)) rows)) in
      if is_nil user then [] else sort by_last (take (limit_or 50 limit) threads)
