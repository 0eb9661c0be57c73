-- ===== src/Postgres/BidLists.antt =====
-- What the PostgreSQL store tells about bids (postgres/auction_repository.go): the time of a user's
-- last one, the best ones joined with their bidders, and the contacts for the owner.
use auction_server.Prelude.{
  ℕ, zero, suc, keep, ◌==◌, Bool, true, ◌&&◌, ◌||◌, List, [], ◌∷◌, map, take, Option, none, some,
  is_nil, if◌then◌else◌,
}
use auction_server.Prelude.Int.{ℤ, pos, negsuc, ltb_ℤ}
use auction_server.Prelude.Text.{Text, text_eq, trim, trim_space, format_int}
use auction_server.Prelude.Sort.{sort}
use auction_server.Domain.{Bid, BidSummary, status_eq, ended}
use auction_server.Postgres.{BidRow, Database, UserRow, auction_row, bid_rows, select_row}
use auction_server.Postgres.Scan.{ranked}
use auction_server.Postgres.Bidding.{bid_of_row, is_bid_of, is_cooldown_of, max_of}

-- `COALESCE(MAX(created_at_ms), 0)` over the user's rows.
unfoldable pub latest_of : List BidRow → ℤ
unfolding max_of
latest_of [] = pos 0
latest_of (b ∷ rows) = max_of (λ r. r.created_at_ms) b.created_at_ms rows

-- The row of `bid_cooldowns`, and its time where that is positive.
unfoldable pub cooldown_at : Text → Text → Database → Option ℤ
unfolding select_row is_cooldown_of
cooldown_at id user db = elim (select_row (is_cooldown_of id user) db.bid_cooldowns) [
  | none ↦ none
  | some c ↦ if ltb_ℤ (pos 0) c.last_bid_at_ms then some c.last_bid_at_ms else none
]

-- `LastBidAtMs`
unfoldable pub last_bid_at_ms : Text → Text → Database → Option ℤ
unfolding cooldown_at latest_of is_bid_of
last_bid_at_ms auction_id user_id db =
    let id = trim_space auction_id in
    let user = trim_space user_id in
    if is_nil id || is_nil user then none else elim (cooldown_at id user db) [
      | some at ↦ some at
      | none ↦ some (latest_of (keep (is_bid_of id user) db.bids))
    ]

-- `TRIM(s)` of SQL, which removes blanks only.
unfoldable pub sql_trim : Text → Text
unfolding trim
sql_trim = trim (λ c. c == 0x20)

-- `CASE WHEN COALESCE(u.user_number, 0) > 0 THEN u.user_number::text ELSE '' END`
unfoldable pub number_text : Option ℤ → Text
number_text none = []
number_text (some n) = if ltb_ℤ (pos 0) n then format_int n else []

unfoldable pub or_else : Text → Text → Text
or_else s t = if is_nil s then t else s

-- A row of `TopBids`: the bid, joined with the bidder's account where there is one. A bidder who
-- takes no calls keeps the phone hidden.
unfoldable pub joined_bid : BidRow → Option UserRow → Bid
unfolding bid_of_row
joined_bid b none = record (bid_of_row b) { receive_calls = true }
joined_bid b (some u) = record (bid_of_row b) {
  phone = if u.receive_calls then or_else b.phone u.phone else [];
  gender = u.gender;
  family_name = or_else (sql_trim u.display_name) (number_text u.user_number);
  receive_calls = u.receive_calls;
}

unfoldable pub user_row : Text → Database → Option UserRow
unfolding select_row
user_row id db = select_row (λ u. text_eq u.id id) db.users

-- `if limit <= 0 { limit = … }`
unfoldable pub limit_or : ℕ → ℤ → ℕ
limit_or default (pos zero) = default
limit_or default (pos (suc n)) = suc n
limit_or default (negsuc n) = default

-- `TopBids`
unfoldable pub top_bids : Text → ℤ → Database → List Bid
unfolding joined_bid user_row limit_or
top_bids id limit db =
    map (λ b. joined_bid b (user_row b.user_id db))
      (take (limit_or 5 limit) (ranked (bid_rows id db)))

unfoldable pub by_price : BidRow → BidRow → Bool
by_price a b = ltb_ℤ b.price a.price

-- `ResultContacts`
unfoldable pub result_contacts : Text → Text → ℤ → Database → Option (List BidSummary)
unfolding by_price limit_or
result_contacts id owner limit db = elim (auction_row id db) [
  | none ↦ none
  | some a ↦
      if text_eq a.owner_id owner && status_eq a.status ended
      then some (
          map (λ b. record { user_name = b.user_name; phone = b.phone; price = b.price })
            (take (limit_or 20 limit) (sort by_price (bid_rows id db))))
      else none
]
