-- ===== src/Postgres.antt =====
-- The PostgreSQL store (internal/repository/postgres): its tables (schema.sql) as lists of rows, the
-- clauses of SQL that its statements use, the expiry pass, and how a row is scanned. A statement is
-- one step, and is executed; a method's reading of the clock is an argument.
pub mod Scan
pub mod Bidding
pub mod BidLists
pub mod Owner
pub mod Moderation
pub mod Cursor
pub mod Feed
pub mod Pages
pub mod CursorText
pub mod Keyset
pub mod Walk
pub mod FeedWalk
pub mod Pricing
pub mod Rows
pub mod Placing
pub mod BidTable
pub mod Expiry
pub mod Agreement
pub mod Instance
pub mod Chat
pub mod Conversation
pub mod Notifications
pub mod SettingsTable
use auction_server.Prelude.{
  ℕ, ◌+◌, ◌^◌, Bool, true, false, ◌&&◌, ◌||◌, not, List, [], ◌∷◌, ◌++◌, map, take, keep, length,
  Option, none, some, is_nil, ltb, leb, if◌then◌else◌,
}
use auction_server.Prelude.Int.{ℤ, pos, pos_part, neg_part, sub_ℕ, ltb_ℤ, leb_ℤ, eqb_ℤ, sub, mul}
use auction_server.Prelude.Text.{Text, text_eq}
use auction_server.Prelude.Sort.{sort}
use auction_server.Domain.{
  Auction, AuctionStatus, BidSummary, ModerationStatus, status_eq, moderation_eq, active, ended,
  approved,
}

pub record AuctionRow : Type 0 where
  pub id : Text
  pub owner_id : Text
  pub title : Text
  pub description : Text
  pub image_urls : List Text
  pub status : AuctionStatus
  pub created_at_ms : ℤ
  pub expires_at_ms : ℤ
  pub ended_at_ms : Option ℤ
  pub min_bid_step : ℤ
  pub base_price : ℤ
  pub bumped_at_ms : ℤ
  pub view_count : ℕ
  pub is_featured : Bool
  pub moderation_status : ModerationStatus
  pub moderation_reason : Text
  pub moderated_at_ms : Option ℤ
  pub duration_hours : ℤ

pub record BidRow : Type 0 where
  pub auction_id : Text
  pub user_id : Text
  pub user_name : Text
  pub phone : Text
  pub price : ℤ
  pub created_at_ms : ℤ

pub record CooldownRow : Type 0 where
  pub auction_id : Text
  pub user_id : Text
  pub last_bid_at_ms : ℤ

pub record UserRow : Type 0 where
  pub id : Text
  pub username : Text
  pub password : Text
  pub display_name : Text
  pub phone : Text
  pub subscription_plan : Text
  pub subscription_buy_at_ms : Option ℤ
  pub subscription_expire_at_ms : Option ℤ
  pub created_at_ms : ℤ
  pub gender : Text
  pub account_type : Text
  pub receive_calls : Bool
  pub city : Text
  pub avatar_key : Text
  pub bio : Text
  pub verified : Bool
  pub user_number : Option ℤ

-- The tables that the auction statements read and write, and `auction_id_seq`.
pub record Database : Type 0 where
  pub auctions : List AuctionRow
  pub bids : List BidRow
  pub bid_cooldowns : List CooldownRow
  pub users : List UserRow
  pub next_auction : ℤ

pub record AuctionRepository : Type 0 where
  pub feed_visible_hours : ℤ
  pub delete_days_after_expiry : ℤ

-- `NewAuctionRepository`
unfoldable pub new_auction_repository : ℤ → ℤ → AuctionRepository
new_auction_repository hours days = record {
  feed_visible_hours = if leb_ℤ hours (pos 0) then pos 72 else hours;
  delete_days_after_expiry = if ltb_ℤ days (pos 0) then pos 0 else days;
}

-- A sum or a difference of type BIGINT; `none` is the error "bigint out of range".
unfoldable pub in_bigint : ℤ → Option ℤ
in_bigint n = if ltb (pos_part n) (2 ^ 63) && leb (neg_part n) (2 ^ 63) then some n else none

unfoldable pub sql_add : ℤ → ℤ → Option ℤ
unfolding in_bigint
sql_add a b = in_bigint (sub_ℕ (pos_part a + pos_part b) (neg_part a + neg_part b))

unfoldable pub sql_sub : ℤ → ℤ → Option ℤ
unfolding in_bigint
sql_sub a b = in_bigint (sub_ℕ (pos_part a + neg_part b) (neg_part a + pos_part b))

unfoldable pub greatest : ℤ → ℤ → ℤ
greatest a b = if ltb_ℤ a b then b else a

module _ {ℓ} {Row : Type ℓ} (where_clause : Row → Bool) where
  -- The first row that a `SELECT` with the clause reads.
  unfoldable pub select_row : List Row → Option Row
  select_row [] = none
  select_row (r ∷ rows) = let rest = select_row rows in if where_clause r then some r else rest

  -- `RowsAffected() > 0`
  unfoldable pub any_row : List Row → Bool
  any_row [] = false
  any_row (r ∷ rows) = where_clause r || any_row rows

  -- `UPDATE … SET …`
  unfoldable pub update_rows : (Row → Row) → List Row → List Row
  update_rows set [] = []
  update_rows set (r ∷ rows) = (if where_clause r then set r else r) ∷ update_rows set rows

  -- `UPDATE … SET …` with an expression that may fail; then no row is changed (`none`).
  unfoldable pub try_update_rows : (Row → Option Row) → List Row → Option (List Row)
  try_update_rows set [] = some []
  try_update_rows set (r ∷ rows) =
      let rest = try_update_rows set rows in
      elim (if where_clause r then set r else some r) [
        | none ↦ none
        | some r' ↦ elim rest [ none ↦ none | some rows' ↦ some (r' ∷ rows') ]
      ]

  -- `DELETE FROM …`
  unfoldable pub delete_rows : List Row → List Row
  delete_rows = keep (λ r. not (where_clause r))

-- `INSERT … ON CONFLICT … DO UPDATE SET …`, where the clause says which rows have the key.
unfoldable pub upsert_row {ℓ} : {Row : Type ℓ} → (Row → Bool) → Row → List Row → List Row
unfolding any_row update_rows
upsert_row same_key row rows =
    if any_row same_key rows then update_rows same_key (λ _. row) rows else rows ++ row ∷ []

unfoldable pub has_id : Text → AuctionRow → Bool
has_id id a = text_eq a.id id

unfoldable pub auction_row : Text → Database → Option AuctionRow
unfolding select_row has_id
auction_row id db = select_row (has_id id) db.auctions

unfoldable pub is_on : Text → BidRow → Bool
is_on id b = text_eq b.auction_id id

-- The rows of `bids` of an auction.
unfoldable pub bid_rows : Text → Database → List BidRow
unfolding is_on
bid_rows id db = keep (is_on id) db.bids

-- `DELETE FROM auctions`; the foreign key of `bids` deletes the bids of the deleted rows.
unfoldable pub delete_auctions : (AuctionRow → Bool) → Database → Database
unfolding any_row delete_rows
delete_auctions p db = record db {
  auctions = delete_rows p db.auctions;
  bids = delete_rows (λ b. any_row (λ a. text_eq a.id b.auction_id && p a) db.auctions) db.bids;
}

-- `a.status = 'ACTIVE' AND a.moderation_status = 'APPROVED'`
unfoldable pub is_live : AuctionRow → Bool
is_live a = status_eq a.status active && moderation_eq a.moderation_status approved

-- The two statements of `FinalizeExpired`.
unfoldable pub is_due : ℤ → AuctionRow → Bool
unfolding is_live
is_due now a = is_live a && (ltb_ℤ (pos 0) a.expires_at_ms && leb_ℤ a.expires_at_ms now)

unfoldable pub end_row : ℤ → AuctionRow → AuctionRow
end_row now a = record a { status = ended; ended_at_ms = some now }

unfoldable pub is_stale : ℤ → AuctionRow → Bool
is_stale cutoff a = elim a.ended_at_ms [
  | none ↦ false
  | some at ↦
      status_eq a.status ended
      && (moderation_eq a.moderation_status approved && (ltb_ℤ (pos 0) at && leb_ℤ at cutoff))
]

unfoldable pub delete_cutoff : AuctionRepository → ℤ → ℤ
delete_cutoff r now = sub now (mul (mul (mul (mul r.delete_days_after_expiry 24) 60) 60) 1000)

-- `FinalizeExpired`
unfoldable pub finalize_expired : AuctionRepository → ℤ → Database → Database
unfolding is_due end_row is_stale delete_auctions update_rows delete_cutoff
finalize_expired r now db =
    let db' : Database = record db {
      auctions = update_rows (is_due now) (end_row now) db.auctions;
    } in
    if ltb_ℤ (pos 0) r.delete_days_after_expiry
    then delete_auctions (is_stale (delete_cutoff r now)) db'
    else db'
