-- ===== src/Postgres/CursorText.antt =====
-- The text of a cursor and its parsing (postgres/feed_page.go).
use auction_server.Prelude.{
  ℕ, zero, suc, ◌+◌, ◌/◌, ◌%◌, ◌^◌, ◌<◌, ◌≤◌, ◌≡◌, refl, ◌∙◌, false, [], ◌∷◌, ◌++◌, some, arith,
  is_nil, ltb, All, inl, inr, Bool-cases,
}
use auction_server.Prelude.Int.{ℤ, pos}
use auction_server.Prelude.Text.{
  Text, digits_from, format_int, is_space, trim_left, trim_right, trim, trim_space, trim_right_idem,
}
use auction_server.Prelude.Strings.{parse_uint}
use auction_server.Domain.{Auction}
use auction_server.Postgres.Cursor.{
  cut_colon, signed_int, digits_int, parse_int, cursor_parts, parse_feed_cursor, make_cursor,
}

abbrev IsDigit : ℕ → Type 0
IsDigit c = (b'0' ≤ c) × (c ≤ b'9')

parse_uint-digits_from :
    (f n : ℕ) (acc : Text)
    → n < f
    → n < 2 ^ 63
    → parse_uint 0 (digits_from f n acc) ≡ parse_uint n acc
unfolding parse_uint digits_from
parse_uint-digits_from zero n acc h small = absurd (omega arith)
parse_uint-digits_from (suc f) n acc h small = elim (Bool-cases (ltb n 10)) [
  | inl one ↦ rw one (ground arith)
  | inr more ↦
      let big : 10 ≤ n = ground arith in
      rw more (
        parse_uint-digits_from f (n / 10) ((b'0' + n % 10) ∷ acc) (omega arith) (omega arith)
        ∙ (ground arith))
]

digits_from-IsDigit :
    (f n : ℕ) (acc : Text) → All IsDigit acc → n < f → All IsDigit (digits_from f n acc)
unfolding digits_from
digits_from-IsDigit zero n acc h lt = absurd (omega arith)
digits_from-IsDigit (suc f) n acc h lt = elim (Bool-cases (ltb n 10)) [
  | inl one ↦ let small : n < 10 = ground arith in rw one ((omega arith), h)
  | inr more ↦
      let big : 10 ≤ n = ground arith in
      rw more
        (digits_from-IsDigit f (n / 10) ((b'0' + n % 10) ∷ acc) ((omega arith), h) (omega arith))
]

is_nil-digits_from : (f n : ℕ) (acc : Text) → n < f → is_nil (digits_from f n acc) ≡ false
unfolding digits_from
is_nil-digits_from zero n acc lt = absurd (omega arith)
is_nil-digits_from (suc f) n acc lt = elim (Bool-cases (ltb n 10)) [
  | inl one ↦ rw one
  | inr more ↦
      let big : 10 ≤ n = ground arith in
      rw more (is_nil-digits_from f (n / 10) ((b'0' + n % 10) ∷ acc) (omega arith))
]

-- What holds of a number's digits.
record IsNumber (digits : Text) (n : ℕ) : Type 0 where
  digital : All IsDigit digits
  not_empty : is_nil digits ≡ false
  value : parse_uint 0 digits ≡ some n

format_int-IsNumber : (n : ℕ) → n < 2 ^ 63 → IsNumber (format_int (pos n)) n
unfolding format_int
format_int-IsNumber n small = record {
  digital = digits_from-IsDigit (suc n) n [] tt (omega arith);
  not_empty = is_nil-digits_from (suc n) n [] (omega arith);
  value = parse_uint-digits_from (suc n) n [] (omega arith) small ∙ unfold parse_uint in refl;
}

cut_colon-append :
    (digits id : Text) → All IsDigit digits → cut_colon (digits ++ b':' ∷ id) ≡ some (digits, id)
unfolding cut_colon
cut_colon-append [] id h = refl
cut_colon-append (c ∷ digits) id h = ground (arith, cut_colon-append digits id h.1)

parse_int-number :
    (digits : Text) (n : ℕ) → n < 2 ^ 63 → IsNumber digits n → parse_int digits ≡ some (pos n)
unfolding parse_int digits_int signed_int
parse_int-number [] n small h = absurd (cc (h.not_empty))
parse_int-number (c ∷ digits) n small h = ground (arith, h.value, h.digital)

is_nil-append : (s t : Text) → is_nil t ≡ false → is_nil (s ++ t) ≡ false
is_nil-append [] t h = h
is_nil-append (c ∷ s) t h = refl

-- A text that starts with a digit and ends as a trimmed text is trimmed.
trim_right-append :
    (s t : Text)
    → is_nil t ≡ false
    → trim_right is_space t ≡ t
    → trim_right is_space (s ++ t) ≡ s ++ t
unfolding trim_right
trim_right-append [] t some_text h = h
trim_right-append (c ∷ s) t some_text h =
    let ih = trim_right-append s t some_text h in
    let long : is_nil (s ++ t) ≡ false = is_nil-append s t some_text in rw (ih, long)

trim_left-number :
    (digits t : Text)
    → All IsDigit digits
    → is_nil digits ≡ false
    → trim_left is_space (digits ++ t) ≡ digits ++ t
unfolding trim_left is_space
trim_left-number [] t h some_text = absurd (cc some_text)
trim_left-number (c ∷ digits) t h some_text = ground (arith, h.0)

-- A text without blanks at its end.
trim_right_of_trimmed : (s : Text) → trim_space s ≡ s → trim_right is_space s ≡ s
unfolding trim_space trim
trim_right_of_trimmed s h =
    let twice = trim_right_idem is_space (trim_left is_space s) in rw h at twice

trim_space-cursor :
    (digits id : Text)
    → All IsDigit digits
    → is_nil digits ≡ false
    → is_nil id ≡ false
    → trim_space id ≡ id
    → trim_space (digits ++ b':' ∷ id) ≡ digits ++ b':' ∷ id
unfolding trim_space trim
trim_space-cursor digits id digital some_digits some_id trimmed =
    let end = trim_right_of_trimmed id trimmed in
    let tail : trim_right is_space (b':' ∷ id) ≡ b':' ∷ id =
      unfold trim_right in rw (end, some_id) in
    rw (trim_left-number digits (b':' ∷ id) digital some_digits)
      (trim_right-append digits (b':' ∷ id) refl tail)

-- The cursor made of an auction is read back as the auction's key and id, if the key is positive
-- and fits in 64 bits and the id is trimmed and not empty.
pub parse_feed_cursor-make_cursor :
    (key : Auction → ℤ) (a : Auction) {n : ℕ}
    → key a ≡ pos n
    → 0 < n
    → n < 2 ^ 63
    → is_nil a.id ≡ false
    → trim_space a.id ≡ a.id
    → parse_feed_cursor (make_cursor key a) ≡ some (key a, a.id)
unfolding parse_feed_cursor make_cursor cursor_parts
parse_feed_cursor-make_cursor key a {n} e positive small some_id trimmed =
    let number = format_int-IsNumber n small in
    rw e (
      rw
        (
          parse_feed_cursor,
          trim_space-cursor (format_int (pos n)) a.id number.digital number.not_empty some_id
              trimmed,
          cut_colon-append (format_int (pos n)) a.id number.digital,
          cursor_parts,
          parse_int-number (format_int (pos n)) n small number,
          some_id,
        )
        (ground arith))
