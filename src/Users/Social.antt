-- ===== src/Users/Social.antt =====
-- Follows and blocks (internal/repository/postgres/user_repository.go).
use auction_server.Prelude.{
  ℕ, zero, suc, Bool, true, false, ◌&&◌, ◌||◌, not, List, [], ◌∷◌, ◌++◌, map, keep, length, take,
  Option, none, some, is_nil, ltb, if◌then◌else◌,
}
use auction_server.Prelude.Int.{ℤ, pos, negsuc, ltb_ℤ}
use auction_server.Prelude.Text.{Text, text_eq, trim_space}
use auction_server.Prelude.Sort.{sort}
use auction_server.Postgres.{UserRow, any_row, delete_rows}
use auction_server.Postgres.BidLists.{user_row}
use auction_server.Users.{Link, UserTables, has_user_id, resolve_name}

pub record FollowUserSummary : Type 0 where
  pub id : Text
  pub name : Text
  pub phone : Text
  pub avatar_key : Text

pub record BlockUserSummary : Type 0 where
  pub id : Text
  pub name : Text
  pub avatar_key : Text

pub record BlockStatus : Type 0 where
  pub blocked_by_viewer : Bool
  pub blocked_by_peer : Bool
  pub can_chat : Bool

unfoldable pub is_link : Text → Text → Link → Bool
is_link by of l = text_eq l.by by && text_eq l.of of

unfoldable pub is_user : Text → UserTables → Bool
unfolding any_row has_user_id
is_user id t = any_row (has_user_id id) t.db.users

-- `INSERT … ON CONFLICT DO NOTHING`; `none` where a foreign key has no row in `users`.
unfoldable pub insert_link : ℤ → Text → Text → UserTables → List Link → Option (List Link)
unfolding is_user is_link any_row
insert_link now by of t links =
    if any_row (is_link by of) links
    then some links
    else if is_user by t && is_user of t
    then some (links ++ record { by = by; of = of; created_at_ms = now } ∷ [])
    else none

-- `Follow`
unfoldable pub follow : ℤ → Text → Text → UserTables → Bool × UserTables
unfolding insert_link
follow now follower followed t =
    let by = trim_space follower in
    let of = trim_space followed in
    if is_nil by || (is_nil of || text_eq by of)
    then (false, t)
    else elim (insert_link now by of t t.follows) [
      | none ↦ (false, t)
      | some links ↦ (true, record t { follows = links })
    ]

-- `Unfollow`
unfoldable pub unfollow : Text → Text → UserTables → UserTables
unfolding delete_rows is_link
unfollow follower followed t = record t {
  follows = delete_rows (is_link (trim_space follower) (trim_space followed)) t.follows;
}

-- `IsFollowing`
unfoldable pub is_following : Text → Text → UserTables → Bool
unfolding any_row is_link
is_following follower followed t =
    any_row (is_link (trim_space follower) (trim_space followed)) t.follows

-- `CountFollowers`
unfoldable pub count_followers : Text → UserTables → ℕ
count_followers user t =
    let id = trim_space user in
    if is_nil id then 0 else length (keep (λ (l : Link). text_eq l.of id) t.follows)

-- `Block`: the block, and then the end of the follows in both directions.
unfoldable pub block : ℤ → Text → Text → UserTables → Bool × UserTables
unfolding insert_link delete_rows is_link
block now blocker blocked t =
    let by = trim_space blocker in
    let of = trim_space blocked in
    if is_nil by || (is_nil of || text_eq by of)
    then (false, t)
    else elim (insert_link now by of t t.blocks) [
      | none ↦ (false, t)
      | some links ↦ (
        true,
        record t {
          blocks = links;
          follows = delete_rows (is_link of by) (delete_rows (is_link by of) t.follows);
        },
      )
    ]

-- `Unblock`
unfoldable pub unblock : Text → Text → UserTables → UserTables
unfolding delete_rows is_link
unblock blocker blocked t = record t {
  blocks = delete_rows (is_link (trim_space blocker) (trim_space blocked)) t.blocks;
}

-- `IsBlocked`
unfoldable pub is_blocked : Text → Text → UserTables → Bool
unfolding any_row is_link
is_blocked blocker blocked t = any_row (is_link (trim_space blocker) (trim_space blocked)) t.blocks

-- `BlockStatus`
unfoldable pub block_status : Text → Text → UserTables → BlockStatus
unfolding is_blocked
block_status viewer_id peer_id t =
    let viewer = trim_space viewer_id in
    let peer = trim_space peer_id in
    let by_viewer = is_blocked viewer peer t in
    let by_peer = is_blocked peer viewer t in
    record {
      blocked_by_viewer = by_viewer;
      blocked_by_peer = by_peer;
      can_chat =
          not (is_nil viewer)
          && (not (is_nil peer) && (not (text_eq viewer peer) && (not by_viewer && not by_peer)));
    }

-- `if limit <= 0 || limit > 100 { limit = 50 }`
unfoldable pub list_limit : ℤ → ℕ
list_limit (pos zero) = 50
list_limit (pos (suc n)) = if ltb 100 (suc n) then 50 else suc n
list_limit (negsuc n) = 50

-- `ORDER BY created_at_ms DESC`
unfoldable pub by_newest : Link → Link → Bool
by_newest a b = ltb_ℤ b.created_at_ms a.created_at_ms

-- The users at the other end of a user's links (`JOIN users`).
unfoldable pub linked_users : List Link → UserTables → List UserRow
linked_users [] t = []
linked_users (l ∷ links) t = elim (user_row l.of t.db) [
  | none ↦ linked_users links t
  | some u ↦ u ∷ linked_users links t
]

unfoldable pub users_linked_by : Text → List Link → UserTables → List UserRow
unfolding by_newest linked_users
users_linked_by id links t =
    linked_users (sort by_newest (keep (λ (l : Link). text_eq l.by id) links)) t

-- `ListFollowing`; the id that the name is resolved from is that of an empty `User`.
unfoldable pub list_following : Text → ℤ → UserTables → List FollowUserSummary
unfolding users_linked_by list_limit
list_following follower limit t =
    map
      (λ u. record {
        id = u.id;
        name = resolve_name [] u.display_name;
        phone = u.phone;
        avatar_key = u.avatar_key;
      })
      (take (list_limit limit) (users_linked_by (trim_space follower) t.follows t))

-- `ListBlocked`
unfoldable pub list_blocked : Text → ℤ → UserTables → List BlockUserSummary
unfolding users_linked_by list_limit
list_blocked blocker limit t =
    map
      (λ u. record { id = u.id; name = resolve_name [] u.display_name; avatar_key = u.avatar_key })
      (take (list_limit limit) (users_linked_by (trim_space blocker) t.blocks t))
