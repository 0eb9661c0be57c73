-- ===== src/Postgres/Cursor.antt =====
-- The cursors of the paged lists (postgres/feed_page.go): their text, its parsing, and the bounds of
-- a page's length.
use auction_server.Prelude.{
  ℕ, ◌^◌, Bool, true, false, ◌||◌, List, [], ◌∷◌, ◌++◌, Option, none, some, is_nil, ltb, leb, ◌==◌,
  if◌then◌else◌,
}
use auction_server.Prelude.Int.{ℤ, pos, negsuc, leb_ℤ, eqb_ℤ, sub_ℕ}
use auction_server.Prelude.Text.{Text, trim_space, format_int}
use auction_server.Prelude.Strings.{parse_uint}
use auction_server.Domain.{Auction}

-- `strings.SplitN(s, ":", 2)` where it has two parts.
unfoldable pub cut_colon : Text → Option (Text × Text)
cut_colon [] = none
cut_colon (c ∷ s) =
    let rest = cut_colon s in
    if c == b':' then some ([], s) else elim rest [ none ↦ none | some p ↦ some (c ∷ p.0, p.1) ]

-- `strconv.ParseInt(s, 10, 64)`; `none` is an error of syntax or range.
unfoldable pub signed_int : Bool → Option ℕ → Option ℤ
signed_int negative none = none
signed_int true (some n) = if leb n (2 ^ 63) then some (sub_ℕ 0 n) else none
signed_int false (some n) = if ltb n (2 ^ 63) then some (pos n) else none

unfoldable pub digits_int : Bool → Text → Option ℤ
unfolding signed_int parse_uint
digits_int negative [] = none
digits_int negative (c ∷ s) = signed_int negative (parse_uint 0 (c ∷ s))

unfoldable pub parse_int : Text → Option ℤ
unfolding digits_int
parse_int [] = none
parse_int (c ∷ s) =
    if c == b'-'
    then digits_int true s
    else if c == b'+'
    then digits_int false s
    else digits_int false (c ∷ s)

-- `parseFeedCursor`
unfoldable pub cursor_parts : Text × Text → Option (ℤ × Text)
unfolding parse_int
cursor_parts (digits, id) = elim (parse_int digits) [
  | none ↦ none
  | some ms ↦ if leb_ℤ ms (pos 0) || is_nil id then none else some (ms, id)
]

unfoldable pub parse_feed_cursor : Text → Option (ℤ × Text)
unfolding cursor_parts cut_colon
parse_feed_cursor cursor = elim (cut_colon (trim_space cursor)) [
  | none ↦ none
  | some parts ↦ cursor_parts parts
]

-- `fmt.Sprintf("%d:%s", …)` of `makeFeedCursor` and `ListModerationQueue`.
unfoldable pub make_cursor : (Auction → ℤ) → Auction → Text
make_cursor key a = format_int (key a) ++ b':' ∷ a.id

-- `if limit <= 0 { limit = 20 }`, `if limit > 50 { limit = 50 }`
unfoldable pub page_limit : ℤ → ℕ
page_limit (pos n) = if n == 0 then 20 else if ltb 50 n then 50 else n
page_limit (negsuc n) = 20

unfoldable pub last_cursor : (Auction → ℤ) → List Auction → Text
unfolding make_cursor
last_cursor key [] = []
last_cursor key (a ∷ []) = make_cursor key a
last_cursor key (a ∷ b ∷ rest) = last_cursor key (b ∷ rest)

-- The column that orders the pages: `COALESCE(NULLIF(bumped_at_ms, 0), created_at_ms)`.
unfoldable pub sort_ms : Auction → ℤ
sort_ms a = if eqb_ℤ a.bumped_at_ms (pos 0) then a.created_at_ms else a.bumped_at_ms
