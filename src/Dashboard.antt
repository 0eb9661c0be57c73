-- ===== src/Dashboard.antt =====
-- The administrators' lists and counts (internal/repository/postgres/user_repository.go,
-- auction_repository.go and chat_repository.go of that folder, internal/domain/admin.go). `lower` is
-- SQL's LOWER, `go_lower` is `unicode.ToLower` beyond ASCII, `after` the order of texts under the
-- collation of the database.
pub mod Search
use auction_server.Prelude.{
  ℕ, zero, suc, ◌||◌, ◌&&◌, not, Bool, true, false, List, [], ◌∷◌, ◌++◌, map, keep, take, drop,
  length, Option, none, some, is_nil, ltb, ◌==◌, if◌then◌else◌,
}
use auction_server.Prelude.Int.{ℤ, pos, negsuc, leb_ℤ, ltb_ℤ, eqb_ℤ, sub}
use auction_server.Prelude.Text.{Text, text, text_eq, trim_space, format_int}
use auction_server.Prelude.Strings.{to_lower}
use auction_server.Prelude.Sort.{sort}
use auction_server.Domain.{support_auction_id}
use auction_server.Postgres.{AuctionRow, Database, UserRow}
use auction_server.Postgres.BidLists.{or_else, sql_trim}
use auction_server.Postgres.Chat.{ChatTables}
use auction_server.Server.Chat.{ChatMessage}
use auction_server.Users.{or_zero}

pub record AdminUserRow : Type 0 where
  pub id : Text
  pub user_number : ℤ
  pub username : Text
  pub phone : Text
  pub subscription_plan : Text
  pub registered_at_ms : ℤ
  pub post_count : ℕ
  pub subscription_buy_at_ms : ℤ
  pub subscription_expire_at_ms : ℤ

pub record AdminUsersPage : Type 0 where
  pub items : List AdminUserRow
  pub total : ℕ

pub record AdminPeriodCount : Type 0 where
  pub label : Text
  pub value : ℕ

pub record AdminTicketThread : Type 0 where
  pub user_id : Text
  pub display_name : Text
  pub phone : Text
  pub last_body : Text
  pub last_at_ms : ℤ
  pub last_sender : Text

-- A pattern of LIKE: `%`, `_`, and characters, which a backslash may quote.
pub data LikePart : Type 0 where
  any_run any_one : LikePart
  exactly : ℕ → LikePart

unfoldable pub like_part : ℕ → LikePart
like_part c = if c == b'%' then any_run else if c == b'_' then any_one else exactly c

unfoldable pub like_parts : Bool → Text → List LikePart
unfolding like_part
like_parts quoted [] = []
like_parts true (c ∷ s) = exactly c ∷ like_parts false s
like_parts false (c ∷ s) =
    let quote = like_parts true s in
    let rest = like_parts false s in if c == 0x5c then quote else like_part c ∷ rest

unfoldable pub on_suffix : (Text → Bool) → Text → Bool
on_suffix f [] = f []
on_suffix f (c ∷ s) = let rest = on_suffix f s in f (c ∷ s) || rest

unfoldable pub after_one : (ℕ → Bool) → (Text → Bool) → Text → Bool
after_one p f [] = false
after_one p f (c ∷ s) = p c && f s

-- `s LIKE pattern`. The patterns of the lists end in `%`, so that none ends in a bare backslash.
unfoldable pub like : List LikePart → Text → Bool
unfolding on_suffix after_one
like [] s = is_nil s
like (any_run ∷ p) s = on_suffix (like p) s
like (any_one ∷ p) s = after_one (λ d. true) (like p) s
like (exactly c ∷ p) s = after_one (λ d. d == c) (like p) s

unfoldable pub search_pattern : (ℕ → ℕ) → Text → Text
search_pattern go_lower search =
    let words = trim_space search in
    if is_nil words then text "%" else text "%" ++ (to_lower go_lower words ++ text "%")

-- The columns that both searches read.
unfoldable pub matches : (Text → Text) → Text → UserRow → Bool
unfolding like like_parts
matches lower pattern u =
    let parts = like_parts false pattern in
    text_eq pattern (text "%%")
    || (like parts (lower u.id)
        || (like parts (lower u.username)
            || (like parts (lower u.display_name) || like parts (lower u.phone))))

unfoldable pub matches_number : Text → UserRow → Bool
unfolding like like_parts or_zero
matches_number pattern u = like (like_parts false pattern) (format_int (or_zero u.user_number))

-- `if limit <= 0 || limit > top { limit = 100 }`
unfoldable pub limit_within : ℕ → ℤ → ℕ
limit_within top (pos zero) = 100
limit_within top (pos (suc n)) = if ltb top (suc n) then 100 else suc n
limit_within top (negsuc n) = 100

-- `if offset < 0 { offset = 0 }`
unfoldable pub offset_of : ℤ → ℕ
offset_of (pos n) = n
offset_of (negsuc n) = 0

unfoldable pub admin_user_row : Database → UserRow → AdminUserRow
unfolding or_zero
admin_user_row db u = record {
  id = u.id;
  user_number = or_zero u.user_number;
  username = u.username;
  phone = u.phone;
  subscription_plan = u.subscription_plan;
  registered_at_ms = u.created_at_ms;
  post_count = length (keep (λ (a : AuctionRow). text_eq a.owner_id u.id) db.auctions);
  subscription_buy_at_ms = or_zero u.subscription_buy_at_ms;
  subscription_expire_at_ms = or_zero u.subscription_expire_at_ms;
}

-- `COUNT(*) FILTER (WHERE created_at_ms >= $1)`
unfoldable pub count_since : ℤ → List ℤ → ℕ
count_since from times = length (keep (λ t. leb_ℤ from t) times)

-- The counts of a day, a week and a month, with their names in Persian by code points.
unfoldable pub period_counts : ℤ → List ℤ → List AdminPeriodCount
unfolding count_since
period_counts now times =
    record {
      label = 0x631 ∷ 0x648 ∷ 0x632 ∷ [];
      value = count_since (sub now (pos 86400000)) times;
    }
    ∷ record {
      label = 0x647 ∷ 0x641 ∷ 0x62a ∷ 0x647 ∷ [];
      value = count_since (sub now (pos 604800000)) times;
    }
    ∷ record {
      label = 0x645 ∷ 0x627 ∷ 0x647 ∷ [];
      value = count_since (sub now (pos 2592000000)) times;
    }
    ∷ []

-- `PostPeriodCounts`
unfoldable pub post_period_counts : ℤ → Database → List AdminPeriodCount
unfolding period_counts
post_period_counts now db = period_counts now (map (λ a. a.created_at_ms) db.auctions)

-- `RegistrationPeriodCounts`
unfoldable pub registration_period_counts : ℤ → Database → List AdminPeriodCount
unfolding period_counts
registration_period_counts now db = period_counts now (map (λ u. u.created_at_ms) db.users)

-- A message of the support with the user at one of its ends.
unfoldable pub ticket_thread : UserRow → ChatMessage → AdminTicketThread
unfolding or_else sql_trim
ticket_thread u m = record {
  user_id = u.id;
  display_name = or_else (sql_trim u.display_name) u.id;
  phone = u.phone;
  last_body =
      if not (is_nil (sql_trim m.body))
      then m.body
      else if not (is_nil (sql_trim m.attachment_url))
      then 0x1f4f7 ∷ 0x20 ∷ 0x62a ∷ 0x635 ∷ 0x648 ∷ 0x6cc ∷ 0x631 ∷ []
      else [];
  last_at_ms = m.created_at_ms;
  last_sender = m.sender_id;
}

unfoldable pub is_users_ticket : UserRow → ChatMessage → Bool
is_users_ticket u m =
    text_eq m.auction_id support_auction_id && (text_eq m.sender_id u.id || text_eq m.peer_id u.id)

-- The join of the users with their messages to the support.
unfoldable pub ticket_rows : List ChatMessage → List UserRow → List AdminTicketThread
unfolding ticket_thread is_users_ticket
ticket_rows messages [] = []
ticket_rows messages (u ∷ users) =
    map (ticket_thread u) (keep (is_users_ticket u) messages) ++ ticket_rows messages users

-- `DISTINCT ON (u.id)` of sorted rows.
unfoldable pub distinct_users : List AdminTicketThread → List AdminTicketThread
distinct_users [] = []
distinct_users (a ∷ rest) = a ∷ keep (λ b. not (text_eq a.user_id b.user_id)) (distinct_users rest)

unfoldable pub by_last_at : AdminTicketThread → AdminTicketThread → Bool
by_last_at a b = ltb_ℤ b.last_at_ms a.last_at_ms

module _ (lower : Text → Text) (go_lower : ℕ → ℕ) (after : Text → Text → Bool) where
  unfoldable pub by_registration : UserRow → UserRow → Bool
  by_registration a b =
      if eqb_ℤ a.created_at_ms b.created_at_ms
      then after a.id b.id
      else ltb_ℤ b.created_at_ms a.created_at_ms

  unfoldable pub found_users : Text → Database → List UserRow
  unfolding by_registration search_pattern matches matches_number
  found_users search db =
      let pattern = search_pattern go_lower search in
      sort by_registration
        (keep (λ u. matches lower pattern u || matches_number pattern u) db.users)

  -- `ListForAdmin`
  unfoldable pub list_for_admin : Text → (limit offset : ℤ) → Database → AdminUsersPage
  unfolding found_users limit_within offset_of admin_user_row
  list_for_admin search limit offset db = record {
    items =
        map (admin_user_row db)
          (take (limit_within 500 limit) (drop (offset_of offset) (found_users search db)));
    total = length (found_users search db);
  }

  unfoldable pub by_user_then_last : AdminTicketThread → AdminTicketThread → Bool
  by_user_then_last a b =
      if text_eq a.user_id b.user_id
      then ltb_ℤ b.last_at_ms a.last_at_ms
      else after b.user_id a.user_id

  -- `ListSupportThreads`: the limit cuts in the order of the ids, before the sort by time.
  unfoldable pub list_support_threads : Text → ℤ → ChatTables → List AdminTicketThread
  unfolding by_user_then_last search_pattern matches limit_within ticket_rows distinct_users
      by_last_at
  list_support_threads search limit t =
      let pattern = search_pattern go_lower search in
      sort by_last_at (
        take (limit_within 200 limit) (
          distinct_users (
            sort by_user_then_last (
              ticket_rows (map (λ r. r.message) t.messages)
                (keep (matches lower pattern) t.db.users)))))
