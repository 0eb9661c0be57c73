-- ===== src/Tests/Rooms.antt =====
-- The theorems on the rooms of the hub at work on a short history.
use auction_server.Prelude.{◌≡◌, ◌&&◌, ◌||◌, List, [], ◌∷◌}
use auction_server.Prelude.Text.{text, text_eq}
use auction_server.Prelude.Dict.{lookup}
use auction_server.Hub.{
  Hub, new_hub, contains, thread_room, inbox_room, admin_support_room, support_room_id, notify_chat,
}
use auction_server.Hub.Rooms.{
  Event, joins, leaves, replay, joined_last, is_member, recipients, is_member-replay, IsTidy,
  contains-notify_chat,
}

abbrev history : List Event
history = joins (text "a") 1 ∷ joins (text "a") 2 ∷ leaves (text "a") 1 ∷ []

abbrev hub : Hub
hub = new_hub (text "k")

is_member-replay_example :
    is_member (text "a") 2 (replay history hub)
    ≡ joined_last (text "a") 2 (is_member (text "a") 2 hub) history
is_member-replay_example = is_member-replay (text "a") 2 history hub

hub-IsTidy : IsTidy hub
unfolding new_hub lookup
hub-IsTidy = record { unique = tt; no_empty = λ room conns found. absurd cc }

contains-notify_chat_example :
    contains 2 (recipients (notify_chat (text "a") (text "u") (text "v") (replay history hub))) ≡ (
      is_member (thread_room (text "a") (text "u") (text "v")) 2 (replay history hub)
      || (is_member (thread_room (text "a") (text "v") (text "u")) 2 (replay history hub)
          || (is_member (inbox_room (text "u")) 2 (replay history hub)
              || (is_member (inbox_room (text "v")) 2 (replay history hub)
                  || (text_eq (text "a") support_room_id
                      && is_member admin_support_room 2 (replay history hub))))))
contains-notify_chat_example =
    contains-notify_chat (text "a") (text "u") (text "v") 2 (replay history hub)
