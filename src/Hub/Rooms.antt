-- ===== src/Hub/Rooms.antt =====
-- Who is in a room of the websocket hub, and whom a notification reaches (internal/ws/hub.go).
use auction_server.Prelude.{
  ℕ, ◌≡◌, refl, Bool, false, ◌&&◌, ◌||◌, not, List, [], ◌∷◌, ◌++◌, map, some, arith, is_nil, ◌==◌,
  if◌then◌else◌, Bool-cases, inl, inr, ap, ◌∙◌,
}
use auction_server.Prelude.Text.{Text, text_eq, text_eq_iff}
use auction_server.Prelude.Dict.{
  lookup, insert, erase, lookup-insert, lookup-erase, HasUniqueKeys, insert-HasUniqueKeys,
  erase-HasUniqueKeys,
}
use auction_server.Hub.{
  Hub, Connections, connections_of, contains, add_connection, join, remove_connection, leave,
  Payload, support_tickets_updated, broadcast, notify_chat, thread_room, inbox_room,
  admin_support_room, support_room_id,
}

contains-add :
    (c d : ℕ) (cs : Connections) → contains d (add_connection c cs) ≡ (c == d || contains d cs)
unfolding contains add_connection
contains-add c d cs = ground arith

contains-remove :
    (c d : ℕ) (cs : Connections)
    → contains d (remove_connection c cs) ≡ (not (c == d) && contains d cs)
unfolding contains remove_connection
contains-remove c d [] = ground arith
contains-remove c d (e ∷ cs) = ground (arith, contains-remove c d cs)

-- The connection is in the room.
unfoldable pub is_member : Text → ℕ → Hub → Bool
is_member room conn h = contains conn (connections_of room h)

connections_of-insert :
    (room other : Text) (conns : Connections) (h : Hub)
    → connections_of other (record h { rooms = insert room conns h.rooms })
      ≡ (if text_eq room other then conns else connections_of other h)
unfolding connections_of
connections_of-insert room other conns h = ground (arith, lookup-insert room other conns h.rooms)

connections_of-erase :
    (room other : Text) (h : Hub)
    → connections_of other (record h { rooms = erase room h.rooms })
      ≡ (if text_eq room other then [] else connections_of other h)
unfolding connections_of
connections_of-erase room other h = ground (arith, lookup-erase room other h.rooms)

connections_of-leave :
    (room other : Text) (c : ℕ) (h : Hub)
    → connections_of other (leave room c h) ≡ (
        if text_eq room other
        then remove_connection c (connections_of room h)
        else connections_of other h)
unfolding leave
connections_of-leave room other c h =
    let rest = remove_connection c (connections_of room h) in
    ground (arith, connections_of-erase room other h, connections_of-insert room other rest h)

-- After a join, the members of a room are those before it, and the connection in its room.
pub is_member-join :
    (room other : Text) (c d : ℕ) (h : Hub)
    → is_member other d (join room c h) ≡ (text_eq room other && c == d || is_member other d h)
unfolding is_member join
is_member-join room other c d h = ground (
  arith,
  connections_of-insert room other (add_connection c (connections_of room h)) h,
  contains-add c d (connections_of room h),
  text_eq_iff room other,
)

-- After a leave, the members of a room are those before it, without the connection in its room.
pub is_member-leave :
    (room other : Text) (c d : ℕ) (h : Hub)
    → is_member other d (leave room c h)
      ≡ (not (text_eq room other && c == d) && is_member other d h)
unfolding is_member
is_member-leave room other c d h = ground (
  arith,
  connections_of-leave room other c h,
  contains-remove c d (connections_of room h),
  text_eq_iff room other,
)

-- What a connection does with the hub.
pub data Event : Type 0 where
  joins leaves : Text → ℕ → Event

unfoldable pub handle : Event → Hub → Hub
handle (joins room c) h = join room c h
handle (leaves room c) h = leave room c h

-- The hub after the events, the first first.
unfoldable pub replay : List Event → Hub → Hub
replay [] h = h
replay (e ∷ es) h = replay es (handle e h)

-- Whether the last of the events of the connection in the room is a join; `before` without one.
unfoldable pub joined_last : Text → ℕ → Bool → List Event → Bool
joined_last room d before [] = before
joined_last room d before (joins other c ∷ es) =
    joined_last room d (text_eq other room && c == d || before) es
joined_last room d before (leaves other c ∷ es) =
    joined_last room d (not (text_eq other room && c == d) && before) es

-- After any sequence of joins and leaves, a connection is in a room exactly where its last event
-- there is a join, or it has none and was in the room before.
pub is_member-replay :
    (room : Text) (d : ℕ) (es : List Event) (h : Hub)
    → is_member room d (replay es h) ≡ joined_last room d (is_member room d h) es
unfolding replay handle joined_last
is_member-replay room d [] h = refl
is_member-replay room d (joins other c ∷ es) h =
    is_member-replay room d es (join other c h)
    ∙ ap (λ b. joined_last room d b es) (is_member-join other room c d h)
is_member-replay room d (leaves other c ∷ es) h =
    is_member-replay room d es (leave other c h)
    ∙ ap (λ b. joined_last room d b es) (is_member-leave other room c d h)

-- The hub keeps each room once and no empty room.
pub record IsTidy (h : Hub) : Type 0 where
  pub unique : HasUniqueKeys h.rooms
  pub no_empty :
      (room : Text) (conns : Connections) → lookup room h.rooms ≡ some conns → is_nil conns ≡ false

add_connection_given : (c : ℕ) (cs : Connections) → is_nil (add_connection c cs) ≡ false
unfolding add_connection contains
add_connection_given c [] = refl
add_connection_given c (d ∷ cs) = ground arith

handle-IsTidy : (e : Event) (h : Hub) → IsTidy h → IsTidy (handle e h)
unfolding handle join leave
handle-IsTidy (joins room c) h t =
    let conns = add_connection c (connections_of room h) in
    record {
      unique = insert-HasUniqueKeys room conns h.rooms t.unique;
      no_empty = λ other found is_found. ground (
        arith,
        lookup-insert room other conns h.rooms,
        t.no_empty other found,
        add_connection_given c (connections_of room h),
      );
    }
handle-IsTidy (leaves room c) h t =
    let conns = remove_connection c (connections_of room h) in
    elim (Bool-cases (is_nil conns)) [
      | inl none_left ↦
          rw (none_left, leave)
            (record {
              unique = erase-HasUniqueKeys room h.rooms t.unique;
              no_empty = λ other found is_found.
                  ground (arith, lookup-erase room other h.rooms, t.no_empty other found);
            })
      | inr some_left ↦
          rw (some_left, leave)
            (record {
              unique = insert-HasUniqueKeys room conns h.rooms t.unique;
              no_empty = λ other found is_found.
                  ground (arith, lookup-insert room other conns h.rooms, t.no_empty other found);
            })
    ]

-- Joins and leaves, in any sequence, keep the hub tidy: each room is kept once and no room is
-- empty.
pub replay-IsTidy : (es : List Event) (h : Hub) → IsTidy h → IsTidy (replay es h)
unfolding replay
replay-IsTidy [] h t = t
replay-IsTidy (e ∷ es) h t = replay-IsTidy es (handle e h) (handle-IsTidy e h t)

-- The connections that the writes go to.
unfoldable pub recipients : List (ℕ × Payload) → Connections
recipients [] = []
recipients ((c, _) ∷ ws) = c ∷ recipients ws

pub contains-append :
    (d : ℕ) (ws vs : List (ℕ × Payload))
    → contains d (recipients (ws ++ vs))
      ≡ (contains d (recipients ws) || contains d (recipients vs))
unfolding contains recipients
contains-append d [] vs = refl
contains-append d ((c, m) ∷ ws) vs = ground (arith, contains-append d ws vs)

recipients-map : (m : Payload) (cs : Connections) → recipients (map (λ c. (c, m)) cs) ≡ cs
unfolding recipients
recipients-map m [] = refl
recipients-map m (c ∷ cs) = ap (◌∷◌ c) (recipients-map m cs)

is_member-broadcast :
    (room : Text) (m : Payload) (d : ℕ) (h : Hub)
    → contains d (recipients (broadcast room m h)) ≡ is_member room d h
unfolding broadcast is_member
is_member-broadcast room m d h = ap (contains d) (recipients-map m (connections_of room h))

support_copy :
    (auction : Text) (d : ℕ) (h : Hub)
    → contains d (
        recipients (
          if text_eq auction support_room_id
          then broadcast admin_support_room support_tickets_updated h
          else []))
      ≡ (text_eq auction support_room_id && is_member admin_support_room d h)
unfolding contains recipients
support_copy auction d h = elim (Bool-cases (text_eq auction support_room_id)) [
  | inl support ↦ rw support (is_member-broadcast admin_support_room support_tickets_updated d h)
  | inr other ↦ rw other refl
]

-- A chat message is announced to the members of the thread's room in either order of the two
-- users, to the members of both users' inboxes, to the members of the moderators' room where the
-- thread is the support thread, and to no one else.
pub contains-notify_chat :
    (auction sender peer : Text) (d : ℕ) (h : Hub)
    → contains d (recipients (notify_chat auction sender peer h)) ≡ (
        is_member (thread_room auction sender peer) d h
        || (is_member (thread_room auction peer sender) d h
            || (is_member (inbox_room sender) d h
                || (is_member (inbox_room peer) d h
                    || (text_eq auction support_room_id && is_member admin_support_room d h)))))
unfolding notify_chat
contains-notify_chat auction sender peer d h =
    simp (contains-append, is_member-broadcast, support_copy)
