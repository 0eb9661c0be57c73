-- ===== src/Users/Profiles.antt =====
-- The changes of a profile, and the login (internal/repository/postgres/user_repository.go). `lower` is
-- SQL's LOWER under the collation of the database.
use auction_server.Prelude.{Bool, ◌&&◌, ◌||◌, not, Option, none, some, is_nil, if◌then◌else◌}
use auction_server.Prelude.Text.{Text, text_eq, trim_space}
use auction_server.Postgres.{UserRow, any_row, select_row, update_rows}
use auction_server.Postgres.BidLists.{sql_trim}
use auction_server.Users.{
  LoginInput, ProfileUpdateInput, User, UserTables, get_by_id, has_user_id, scan_user, set_users,
}

-- The errors of `UpdateProfile`; the first is `ErrDisplayNameTaken`.
pub data ProfileError : Type 0 where
  display_name_taken id_required query_failed user_not_found : ProfileError

pub data ProfileResult : Type 0 where
  profile : User → ProfileResult
  failed : ProfileError → ProfileResult

-- `UPDATE users SET … WHERE id = $1`
unfoldable pub set_user : Text → (UserRow → UserRow) → UserTables → UserTables
unfolding set_users has_user_id update_rows
set_user id set t = set_users (update_rows (has_user_id id) set t.db.users) t

module _ (lower : Text → Text) where
  -- `Login`
  unfoldable pub login : LoginInput → UserTables → Option User
  unfolding scan_user select_row
  login input t =
      let username = trim_space input.username in
      let password = trim_space input.password in
      if is_nil username || is_nil password
      then none
      else elim (select_row
          (λ (u : UserRow).
            text_eq (lower u.username) (lower username)
            && text_eq (lower u.password) (lower password))
          t.db.users) [ none ↦ none | some u ↦ some (scan_user u) ]

  -- The unique index on `LOWER(TRIM(display_name))`: another account has the name.
  unfoldable pub is_name_taken : Text → Text → UserTables → Bool
  unfolding any_row has_user_id
  is_name_taken id name t =
      any_row
        (λ u.
          not (has_user_id id u)
          && (not (is_nil (sql_trim u.display_name))
              && text_eq (lower (sql_trim u.display_name)) (lower (sql_trim name))))
        t.db.users

  -- The statement that sets the name; `none` is its error.
  unfoldable pub set_name : Text → Option Text → UserTables → Option UserTables
  unfolding is_name_taken set_user any_row has_user_id
  set_name id none t = some t
  set_name id (some given) t =
      let name = trim_space given in
      if not (is_nil name) && (any_row (has_user_id id) t.db.users && is_name_taken id name t)
      then none
      else some (set_user id (λ u. record u { display_name = name }) t)

  -- The statements after that, one for each part that the input gives.
  unfoldable pub set_details : ProfileUpdateInput → UserRow → UserRow
  set_details input u = record u {
    city = if is_nil input.city then u.city else trim_space input.city;
    avatar_key = if is_nil input.avatar_key then u.avatar_key else trim_space input.avatar_key;
    bio = elim input.bio [ none ↦ u.bio | some bio ↦ trim_space bio ];
    receive_calls = elim input.receive_calls [ none ↦ u.receive_calls | some calls ↦ calls ];
  }

  -- `UpdateProfile`
  unfoldable pub update_profile : ProfileUpdateInput → UserTables → ProfileResult × UserTables
  unfolding set_name set_details set_user get_by_id
  update_profile input t =
      let id = trim_space input.user_id in
      if is_nil id then (failed id_required, t) else elim (set_name id input.name t) [
        | none ↦ (failed query_failed, t)
        | some t' ↦
            let t'' = set_user id (set_details input) t' in
            elim (get_by_id id t'') [
              | none ↦ (failed user_not_found, t'')
              | some u ↦ (profile u, t'')
            ]
      ]
