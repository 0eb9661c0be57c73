-- ===== src/Postgres/Keyset.antt =====
-- The rows that a page reads behind a cursor, as a part of the ordered list (postgres/feed_page.go, postgres/moderation.go).
use auction_server.Prelude.{
  ℕ, zero, suc, ◌+◌, ◌^◌, ◌<◌, ◌≡◌, refl, ap, ◌∙◌, Bool, true, false, ◌||◌, List, [], ◌∷◌, some,
  arith, keep, is_nil, All, length, take, drop,
}
use auction_server.Prelude.Int.{ℤ, pos, negsuc, ◌≤ℤ◌, ◌<ℤ◌}
use auction_server.Prelude.Text.{Text, text_eq, trim_space}
use auction_server.Prelude.Sort.{sort, sort-All}
use auction_server.Prelude.Ordered.{
  IsStrictOrder, IsComparable, sort-IsOrdered, sort-keep, keep_after, get_elem?, get_elem?_of_lt,
  All-get_elem?,
}
use auction_server.Domain.{Auction}
use auction_server.Postgres.Cursor.{last_cursor, make_cursor, parse_feed_cursor}
use auction_server.Postgres.CursorText.{parse_feed_cursor-make_cursor}
use auction_server.Postgres.Pages.{by_key, is_below, window}

-- What the order of texts is under any collation.
pub record IsTextOrder (after : Text → Text → Bool) : Type 0 where
  pub text_asym : (s t : Text) → after s t ≡ true → after t s ≡ false
  pub text_trans : (s t u : Text) → after s t ≡ true → after t u ≡ true → after s u ≡ true
  pub text_total : (s t : Text) → text_eq s t ≡ false → after s t ≡ false → after t s ≡ true

-- An item whose cursor can be read back.
pub record HasCursor (key : Auction → ℤ) (a : Auction) : Type 0 where
  pub key_positive : pos 1 ≤ℤ key a
  pub key_in_range : key a <ℤ pos (2 ^ 63)
  pub id_not_empty : is_nil a.id ≡ false
  pub id_trimmed : trim_space a.id ≡ a.id

-- No two items have one id.
abbrev pub HasDistinctIds : List Auction → Type 0
HasDistinctIds [] = Unit
HasDistinctIds (a ∷ list) = All (λ b. text_eq a.id b.id ≡ false) list × HasDistinctIds list

number_of :
    (n : ℤ) → pos 1 ≤ℤ n → n <ℤ pos (2 ^ 63) → (m : ℕ) × (n ≡ pos m) × (0 < m) × (m < 2 ^ 63)
number_of (pos m) h k = (m, refl, omega arith, omega arith)
number_of (negsuc m) h k = absurd (omega arith)

parse_own_cursor :
    (key : Auction → ℤ) (a : Auction)
    → HasCursor key a
    → parse_feed_cursor (make_cursor key a) ≡ some (key a, a.id)
parse_own_cursor key a h =
    let (m, e, positive, small) = number_of (key a) h.key_positive h.key_in_range in
    parse_feed_cursor-make_cursor key a e positive small h.id_not_empty h.id_trimmed

module _ (after : Text → Text → Bool) (order : IsTextOrder after) (key : Auction → ℤ) where
  pub by_key-IsStrictOrder : IsStrictOrder (by_key after key)
  unfolding by_key
  by_key-IsStrictOrder = record {
    asym = λ x y h. ground (arith, order.text_asym x.id y.id);
    trans = λ x y z h k. ground (arith, order.text_trans x.id y.id z.id);
  }

  by_key_total :
      (a b : Auction)
      → text_eq a.id b.id ≡ false
      → by_key after key a b || by_key after key b a ≡ true
  unfolding by_key
  by_key_total a b h = ground (arith, order.text_total a.id b.id)

  All-by_key_total :
      (a : Auction) (list : List Auction)
      → All (λ b. text_eq a.id b.id ≡ false) list
      → All (λ b. by_key after key a b || by_key after key b a ≡ true) list
  All-by_key_total a [] h = tt
  All-by_key_total a (b ∷ list) h = (by_key_total a b h.0, All-by_key_total a list h.1)

  HasDistinctIds-IsComparable :
      (list : List Auction) → HasDistinctIds list → IsComparable (by_key after key) list
  HasDistinctIds-IsComparable [] h = tt
  HasDistinctIds-IsComparable (a ∷ list) h =
      (All-by_key_total a list h.0, HasDistinctIds-IsComparable list h.1)

  -- The rows below the cursor of an item are those that the order puts behind it.
  is_below_item : (a b : Auction) → is_below after key (some (key a, a.id)) b ≡ by_key after key a b
  unfolding is_below by_key
  is_below_item a b = ground arith

  keep_below_item :
      (a : Auction) (list : List Auction)
      → keep (is_below after key (some (key a, a.id))) list ≡ keep (by_key after key a) list
  keep_below_item a [] = refl
  keep_below_item a (b ∷ list) = rw (is_below_item a b, keep_below_item a list)

  last_of_take :
      (start n k : ℕ) (list : List Auction) {a : Auction}
      → k ≡ start + n
      → get_elem? list k ≡ some a
      → last_cursor key (take (suc n) (drop start list)) ≡ make_cursor key a
  unfolding last_cursor
  last_of_take start n k [] at e = cc
  last_of_take zero zero zero (b ∷ list) {a} at e = let same : b ≡ a = cc in rw same
  last_of_take zero (suc n) zero (b ∷ list) at e = absurd (omega arith)
  last_of_take zero zero (suc k) (b ∷ list) at e = absurd (omega arith)
  last_of_take zero (suc n) (suc k) (b ∷ []) at e = cc
  last_of_take zero (suc n) (suc k) (b ∷ c ∷ list) at e =
      last_of_take zero n k (c ∷ list) (omega arith) e
  last_of_take (suc start) n zero (b ∷ list) at e = absurd (omega arith)
  last_of_take (suc start) n (suc k) (b ∷ list) at e = last_of_take start n k list (omega arith) e

  -- What the statement of a page reads behind a cursor after `start` items of the ordered list.
  pub window_at :
      (rows : List Auction) (cursor : Text) (start limit : ℕ)
      → HasDistinctIds rows
      → keep (is_below after key (parse_feed_cursor cursor)) (sort (by_key after key) rows)
        ≡ drop start (sort (by_key after key) rows)
      → window after key cursor limit rows
        ≡ take (suc limit) (drop start (sort (by_key after key) rows))
  unfolding window
  window_at rows cursor start limit distinct at = ap (take (suc limit)) (
      sort-keep (by_key after key) by_key-IsStrictOrder _ rows
        (HasDistinctIds-IsComparable rows distinct)
      ∙ at)

  -- The cursor of the last item of a page leads to the place behind it.
  pub next_start :
      (rows : List Auction) (start n : ℕ)
      → HasDistinctIds rows
      → All (HasCursor key) rows
      → start + n < length (sort (by_key after key) rows)
      → keep
          (is_below after key (
            parse_feed_cursor
              (last_cursor key (take (suc n) (drop start (sort (by_key after key) rows))))))
          (sort (by_key after key) rows)
        ≡ drop (suc (start + n)) (sort (by_key after key) rows)
  next_start rows start n distinct readable lt =
      let list = sort (by_key after key) rows in
      let (a, at) = get_elem?_of_lt list (start + n) lt in
      let own =
        All-get_elem? (HasCursor key) list (start + n) (sort-All _ (HasCursor key) rows readable)
          at in
      let ordered =
        sort-IsOrdered (by_key after key) by_key-IsStrictOrder rows
          (HasDistinctIds-IsComparable rows distinct) in
      rw (last_of_take start n (start + n) list refl at, parse_own_cursor key a own)
        (keep_below_item a list
          ∙ keep_after (by_key after key) by_key-IsStrictOrder list (start + n) ordered at)
