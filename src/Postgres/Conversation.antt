-- ===== src/Postgres/Conversation.antt =====
-- What the two ends of a conversation read (internal/repository/postgres/chat_repository.go).
use auction_server.Prelude.{
  ℕ, zero, suc, ◌≤◌, ◌≡◌, ◌⊎◌, refl, ap, sym, ◌∙◌, Bool, true, false, ◌&&◌, List, [], ◌∷◌, ◌++◌,
  map, keep, take, length, All, All-take, arith, is_nil, ◌==◌, if◌then◌else◌, inl, inr, Bool-cases,
}
use auction_server.Prelude.Int.{ℤ, ◌≤ℤ◌}
use auction_server.Prelude.Text.{Text, text_eq_iff, trim_space, is_blank}
use auction_server.Prelude.Sort.{insert_sorted, sort, sort-All, length-sort}
use auction_server.Prelude.Ordered.{All-imp}
use auction_server.Server.Chat.{ChatMessage, SendChatInput}
use auction_server.Postgres.Chat.{
  ChatTables, MessageRow, by_time, insert_message, is_between, is_listed, is_on_auction,
  list_messages, new_message, owner_of,
}

-- A message of the auction that one of the two users has sent to the other.
pub record IsBetween (auction viewer peer : Text) (m : ChatMessage) : Type 0 where
  pub on_auction : m.auction_id ≡ auction
  pub ends :
      ((m.sender_id ≡ viewer) × (m.peer_id ≡ peer)) ⊎ ((m.sender_id ≡ peer) × (m.peer_id ≡ viewer))

is_listed-IsBetween :
    (auction viewer peer : Text) (m : ChatMessage)
    → is_nil viewer ≡ false
    → is_nil peer ≡ false
    → is_listed auction viewer peer m ≡ true
    → IsBetween auction viewer peer m
unfolding is_listed is_between is_on_auction
is_listed-IsBetween auction viewer peer m h k listed = record {
  on_auction = ground (arith, text_eq_iff m.auction_id auction);
  ends = ground (
    arith,
    text_eq_iff m.sender_id viewer,
    text_eq_iff m.peer_id peer,
    text_eq_iff m.sender_id peer,
    text_eq_iff m.peer_id viewer,
  );
}

keep-IsBetween :
    (auction viewer peer : Text) (list : List ChatMessage)
    → is_nil viewer ≡ false
    → is_nil peer ≡ false
    → All (IsBetween auction viewer peer) (keep (is_listed auction viewer peer) list)
keep-IsBetween auction viewer peer [] h k = tt
keep-IsBetween auction viewer peer (m ∷ list) h k =
    let rest = keep-IsBetween auction viewer peer list h k in
    elim (Bool-cases (is_listed auction viewer peer m)) [
      | inl listed ↦ rw listed (is_listed-IsBetween auction viewer peer m h k listed, rest)
      | inr other ↦ rw other rest
    ]

-- Where both ids are given, every message in the list is of the auction and from one of the two
-- users to the other.
pub list_messages-IsBetween :
    (auction viewer peer : Text) (limit : ℕ) (t : ChatTables)
    → is_blank viewer ≡ false
    → is_blank peer ≡ false
    → All
        (IsBetween auction (trim_space viewer) (trim_space peer))
        (list_messages auction viewer peer limit t)
unfolding list_messages
list_messages-IsBetween auction viewer peer limit t h k =
    All-take (IsBetween auction (trim_space viewer) (trim_space peer))
      (if limit == 0 then 100 else limit) _
      (sort-All by_time (IsBetween auction (trim_space viewer) (trim_space peer)) _ (
        keep-IsBetween auction (trim_space viewer) (trim_space peer)
          (map (λ r. r.message) t.messages) h k))

-- A message no earlier than the others is sorted behind them.
insert_sorted-append :
    (x m : ChatMessage) (list : List ChatMessage)
    → by_time m x ≡ false
    → insert_sorted by_time x (list ++ m ∷ []) ≡ insert_sorted by_time x list ++ m ∷ []
unfolding insert_sorted
insert_sorted-append x m [] h = rw h refl
insert_sorted-append x m (y ∷ list) h = ground (arith, insert_sorted-append x m list h)

sort-append :
    (list : List ChatMessage) (m : ChatMessage)
    → All (λ x. by_time m x ≡ false) list
    → sort by_time (list ++ m ∷ []) ≡ sort by_time list ++ m ∷ []
unfolding sort
sort-append [] m h = unfold insert_sorted in refl
sort-append (x ∷ list) m h =
    ap (insert_sorted by_time x) (sort-append list m h.1)
    ∙ insert_sorted-append x m (sort by_time list) h.0

take-append :
    (n : ℕ) (list more : List ChatMessage) → n ≤ length list → take n (list ++ more) ≡ take n list
take-append zero list more h = refl
take-append (suc n) [] more h = absurd (omega arith)
take-append (suc n) (x ∷ list) more h = ap (◌∷◌ x) (take-append n list more (omega arith))

-- The messages of a conversation, in the order of the table.
unfoldable pub conversation : Text → Text → Text → ChatTables → List ChatMessage
conversation auction viewer peer t =
    keep (is_listed auction (trim_space viewer) (trim_space peer)) (map (λ r. r.message) t.messages)

keep-append_one :
    (p : ChatMessage → Bool) (list : List ChatMessage) (m : ChatMessage)
    → keep p (list ++ m ∷ []) ≡ (if p m then keep p list ++ m ∷ [] else keep p list)
keep-append_one p [] m = refl
keep-append_one p (x ∷ list) m = ground (arith, keep-append_one p list m)

map-append_one :
    (rows : List MessageRow) (r : MessageRow)
    → map (λ r. r.message) (rows ++ r ∷ []) ≡ map (λ r. r.message) rows ++ r.message ∷ []
map-append_one [] r = refl
map-append_one (x ∷ rows) r = ap (◌∷◌ x.message) (map-append_one rows r)

by_time_later : (m x : ChatMessage) → x.created_at_ms ≤ℤ m.created_at_ms → by_time m x ≡ false
unfolding by_time
by_time_later m x h = ground arith

-- A message with a later time does not change the first ones of a conversation.
take-sort-append :
    (n : ℕ) (list : List ChatMessage) (m : ChatMessage)
    → n ≤ length list
    → All (λ (x : ChatMessage). x.created_at_ms ≤ℤ m.created_at_ms) list
    → take n (sort by_time (list ++ m ∷ [])) ≡ take n (sort by_time list)
take-sort-append n list m full past =
    let later : All (λ x. by_time m x ≡ false) list =
      All-imp (λ (x : ChatMessage). x.created_at_ms ≤ℤ m.created_at_ms) (λ x. by_time m x ≡ false)
        list (by_time_later m) past in
    ap (take n) (sort-append list m later)
    ∙ take-append n (sort by_time list) (m ∷ []) (omega (arith, length-sort by_time list))

list_messages_of_conversation :
    (auction viewer peer : Text) (limit : ℕ) (t : ChatTables)
    → 1 ≤ limit
    → list_messages auction viewer peer limit t
      ≡ take limit (sort by_time (conversation auction viewer peer t))
unfolding list_messages conversation
list_messages_of_conversation auction viewer peer limit t positive =
    let given : limit == 0 ≡ false = ground arith in
    ap (λ b. take (if b then 100 else limit) (sort by_time (conversation auction viewer peer t)))
      given

conversation-insert :
    (now : ℤ) (auction viewer peer : Text) (input : SendChatInput) (t : ChatTables)
    → (conversation auction viewer peer (insert_message now auction input t).1
        ≡ conversation auction viewer peer t)
      ⊎ (conversation auction viewer peer (insert_message now auction input t).1
          ≡ conversation auction viewer peer t ++ new_message now t.next_message auction input ∷ [])
unfolding conversation insert_message
conversation-insert now auction viewer peer input t =
    let p = is_listed auction (trim_space viewer) (trim_space peer) in
    let m = new_message now t.next_message auction input in
    elim (Bool-cases (is_blank input.body && is_blank input.attachment_url)) [
      | inl blank ↦ inl (rw (insert_message, blank) refl)
      | inr given ↦
          let row : MessageRow = record { message = m; auction_owner_id = owner_of auction t.db } in
          let after : conversation auction viewer peer (insert_message now auction input t).1
              ≡ keep p (map (λ r. r.message) (t.messages ++ row ∷ [])) =
            rw (insert_message, given) refl in
          let read =
            after
            ∙ ap (keep p) (map-append_one t.messages row)
            ∙ keep-append_one p (map (λ r. r.message) t.messages) m in
          elim (Bool-cases (p m)) [
            | inl listed ↦ inr (rw listed at read)
            | inr other ↦ inl (rw other at read)
          ]
    ]

-- Once a conversation has as many messages as are asked for, a later message does not appear in
-- it: the list is cut after the oldest ones. The limit is positive and no message is later than
-- the new one.
pub full_conversation_stays :
    (now : ℤ) (auction viewer peer : Text) (input : SendChatInput) (limit : ℕ) (t : ChatTables)
    → 1 ≤ limit
    → limit ≤ length (conversation auction viewer peer t)
    → All (λ (m : ChatMessage). m.created_at_ms ≤ℤ now) (conversation auction viewer peer t)
    → list_messages auction viewer peer limit (insert_message now auction input t).1
      ≡ list_messages auction viewer peer limit t
full_conversation_stays now auction viewer peer input limit t positive full past =
    let after = (insert_message now auction input t).1 in
    let m = new_message now t.next_message auction input in
    let shown : take limit (sort by_time (conversation auction viewer peer after))
        ≡ take limit (sort by_time (conversation auction viewer peer t)) =
      elim (conversation-insert now auction viewer peer input t) [
        | inl same ↦ ap (λ list. take limit (sort by_time list)) same
        | inr more ↦
            ap (λ list. take limit (sort by_time list)) more
            ∙ take-sort-append limit (conversation auction viewer peer t) m full
                (unfold new_message in past)
      ] in
    list_messages_of_conversation auction viewer peer limit after positive
    ∙ shown
    ∙ sym (list_messages_of_conversation auction viewer peer limit t positive)
