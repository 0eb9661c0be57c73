-- ===== src/Users.antt =====
-- Users and their accounts (internal/domain/user.go, internal/domain/user_name.go,
-- internal/repository/postgres/user_repository.go): the tables of users, follows and blocks, and the
-- statements on the accounts.
pub mod Profiles
pub mod Social
pub mod Graph
pub mod Refinement
pub mod Blocking
use auction_server.Prelude.{
  ℕ, ◌≡◌, Bool, true, false, ◌&&◌, ◌||◌, not, List, [], ◌∷◌, ◌++◌, map, keep, Option, none, some,
  is_nil, if◌then◌else◌,
}
use auction_server.Prelude.Int.{ℤ, pos, add, eqb_ℤ}
use auction_server.Prelude.Text.{Text, text_eq, trim_space, is_blank, format_int}
use auction_server.Prelude.Dict.{Dict, insert}
use auction_server.Postgres.{BidRow, Database, UserRow, any_row, select_row, update_rows}
use auction_server.Postgres.BidLists.{sql_trim, user_row}

pub record User : Type 0 where
  pub id : Text
  pub user_number : ℤ
  pub username : Text
  pub custom_name : Text
  pub name : Text
  pub gender : Text
  pub account_type : Text
  pub phone : Text
  pub city : Text
  pub avatar_key : Text
  pub receive_calls : Bool
  pub subscription_plan : Text
  pub subscription_buy_at_ms : ℤ
  pub subscription_expire_at_ms : ℤ
  pub bio : Text
  pub verified : Bool

pub record UpsertUserInput : Type 0 where
  pub id : Text
  pub phone : Text

pub record LoginInput : Type 0 where
  pub username : Text
  pub password : Text

pub record ProfileUpdateInput : Type 0 where
  pub user_id : Text
  pub name : Option Text
  pub city : Text
  pub avatar_key : Text
  pub receive_calls : Option Bool
  pub bio : Option Text

-- A row of `user_follows` (`by` follows `of`) or of `user_blocks` (`by` blocks `of`).
pub record Link : Type 0 where
  pub by : Text
  pub of : Text
  pub created_at_ms : ℤ

pub record UserTables : Type 0 where
  pub db : Database
  pub follows : List Link
  pub blocks : List Link
  pub next_user_number : ℤ

-- `ResolveName`; its last word is Persian for "user".
unfoldable pub resolve_name : Text → Text → Text
resolve_name user_id custom_name =
    if not (is_blank custom_name)
    then trim_space custom_name
    else if not (is_blank user_id)
    then trim_space user_id
    else 0x6a9 ∷ 0x627 ∷ 0x631 ∷ 0x628 ∷ 0x631 ∷ []

unfoldable pub or_zero : Option ℤ → ℤ
or_zero none = pos 0
or_zero (some n) = n

-- `scanUser`
unfoldable pub scan_user : UserRow → User
unfolding resolve_name or_zero
scan_user u = record {
  id = u.id;
  user_number = or_zero u.user_number;
  username = u.username;
  custom_name = u.display_name;
  name = resolve_name u.id u.display_name;
  gender = u.gender;
  account_type = u.account_type;
  phone = u.phone;
  city = u.city;
  avatar_key = u.avatar_key;
  receive_calls = u.receive_calls;
  subscription_plan = u.subscription_plan;
  subscription_buy_at_ms = or_zero u.subscription_buy_at_ms;
  subscription_expire_at_ms = or_zero u.subscription_expire_at_ms;
  bio = u.bio;
  verified = u.verified;
}

-- `GetByID`
unfoldable pub get_by_id : Text → UserTables → Option User
unfolding scan_user
get_by_id id t =
    if is_blank id
    then none
    else elim (user_row (trim_space id) t.db) [ none ↦ none | some u ↦ some (scan_user u) ]

unfoldable pub set_users : List UserRow → UserTables → UserTables
set_users rows t = record t { db = record t.db { users = rows } }

-- The row of a new account, with the defaults of schema.sql.
unfoldable pub new_user : ℤ → Text → Text → ℤ → UserRow
new_user now id phone number = record {
  id = id;
  username = [];
  password = [];
  display_name = [];
  phone = phone;
  subscription_plan = [];
  subscription_buy_at_ms = none;
  subscription_expire_at_ms = none;
  created_at_ms = now;
  gender = [];
  account_type = 0x634 ∷ 0x62e ∷ 0x635 ∷ 0x6cc ∷ [];
  receive_calls = true;
  city = 0x62a ∷ 0x647 ∷ 0x631 ∷ 0x627 ∷ 0x646 ∷ [];
  avatar_key = [];
  bio = [];
  verified = false;
  user_number = some number;
}

unfoldable pub has_number : ℤ → UserRow → Bool
has_number n u = elim u.user_number [ none ↦ false | some m ↦ eqb_ℤ m n ]

unfoldable pub has_user_id : Text → UserRow → Bool
has_user_id id u = text_eq u.id id

-- The sequence moves on, whether the insertion that asks for a number succeeds or not.
unfoldable pub next_number : UserTables → UserTables
next_number t = record t { next_user_number = add t.next_user_number (pos 1) }

-- `RegisterPhone`; `now` is the clock of the database.
unfoldable pub register_phone : ℤ → Text → UserTables → Option User × UserTables
unfolding new_user has_number has_user_id next_number set_users any_row scan_user
register_phone now phone t =
    let n = t.next_user_number in
    let u = new_user now (format_int n) (trim_space phone) n in
    let t' = next_number t in
    if is_blank phone
    then (none, t)
    else if any_row (has_user_id u.id) t.db.users || any_row (has_number n) t.db.users
    then (none, t')
    else (some (scan_user u), set_users (t.db.users ++ u ∷ []) t')

-- `UpsertUser`
unfoldable pub upsert_user : ℤ → UpsertUserInput → UserTables → Option User × UserTables
unfolding register_phone new_user has_number has_user_id next_number set_users any_row update_rows
    get_by_id
upsert_user now input t =
    let id = trim_space input.id in
    let phone = trim_space input.phone in
    let same = has_user_id id in
    let t' = next_number t in
    if is_nil phone
    then (none, t)
    else if is_nil id
    then register_phone now phone t
    else if any_row same t.db.users
    then (let t'' = set_users (update_rows same (λ u. record u { phone = phone }) t.db.users) t' in
        (get_by_id id t'', t''))
    else if any_row (has_number t.next_user_number) t.db.users
    then (none, t')
    else (let t'' = set_users (t.db.users ++ new_user now id phone t.next_user_number ∷ []) t' in
        (get_by_id id t'', t''))

-- `BidAuctionIDs`: the distinct auctions with a bid of the user.
unfoldable pub auctions_of : Text → List BidRow → Dict (Unit {0})
auctions_of user [] = []
auctions_of user (b ∷ rows) =
    let ids = auctions_of user rows in
    if text_eq b.user_id user then insert b.auction_id tt ids else ids

unfoldable pub bid_auction_ids : Text → UserTables → List Text
unfolding auctions_of
bid_auction_ids id t =
    if is_blank id
    then []
    else keep (λ i. not (is_nil i)) (map (λ e. e.0) (auctions_of (trim_space id) t.db.bids))
