-- ===== src/Dashboard/Search.antt =====
-- The pages of a search for users (internal/repository/postgres/user_repository.go).
use auction_server.Prelude.{
  ℕ, zero, suc, ◌+◌, ◌*◌, ◌≤◌, ◌≡◌, refl, ap, ◌∙◌, sym, ◌||◌, ◌&&◌, Bool, true, false, List, [],
  ◌∷◌, ◌++◌, map, keep, take, drop, length, is_nil, ◌==◌, All, arith, take-append-drop,
}
use mathlib.Core.Path.{fun_ext}
use native.Mathlib.Numerals.{unary_clauses}
use auction_server.Prelude.Int.{pos}
use auction_server.Prelude.Text.{Text, text, text_eq, trim_space, is_blank, format_int}
use auction_server.Prelude.Strings.{has_prefix, to_lower}
use auction_server.Prelude.Sort.{sort}
use auction_server.Postgres.{Database, UserRow}
use auction_server.Users.{or_zero}
use auction_server.Dashboard.{
  AdminUserRow, admin_user_row, after_one, by_registration, found_users, like, like_part,
  like_parts, limit_within, list_for_admin, matches, matches_number, offset_of, on_suffix,
  search_pattern,
}

-- `strings.Contains(t, words)`
unfoldable pub contains : Text → Text → Bool
unfolding has_prefix
contains [] words = has_prefix [] words
contains (c ∷ t) words = let rest = contains t words in has_prefix (c ∷ t) words || rest

-- A character without a meaning in a pattern.
pub record IsPlain (c : ℕ) : Type 0 where
  pub no_run : c == b'%' ≡ false
  pub no_one : c == b'_' ≡ false
  pub no_quote : c == 0x5c ≡ false

like_rest : (t : Text) → like (like_parts false (text "%")) t ≡ true
unfolding like like_parts like_part on_suffix
like_rest [] = refl
like_rest (c ∷ t) = like_rest t

like-has_prefix :
    (words t : Text)
    → All IsPlain words
    → like (like_parts false (words ++ text "%")) t ≡ has_prefix t words
unfolding like like_parts like_part after_one has_prefix
like-has_prefix [] t h = like_rest t
like-has_prefix (c ∷ words) [] h = rw (h.0.no_quote, h.0.no_run, h.0.no_one) refl
like-has_prefix (c ∷ words) (d ∷ t) h =
    rw (h.0.no_quote, h.0.no_run, h.0.no_one)
      (ap (λ rest. d == c && rest) (like-has_prefix words t h.1))

like-contains :
    (words t : Text)
    → All IsPlain words
    → like (like_parts false (text "%" ++ (words ++ text "%"))) t ≡ contains t words
unfolding like like_parts like_part on_suffix contains
like-contains words [] h = like-has_prefix words [] h
like-contains words (c ∷ t) h =
    rw (like-has_prefix words (c ∷ t) h)
      (ap (λ rest. has_prefix (c ∷ t) words || rest) (like-contains words t h))

-- A user with the words in the id, the name of the account, the shown name, the phone or the number.
unfoldable pub has_words : (Text → Text) → Text → UserRow → Bool
unfolding contains or_zero
has_words lower words u =
    contains (lower u.id) words
    || (contains (lower u.username) words
        || (contains (lower u.display_name) words
            || (contains (lower u.phone) words
                || contains (format_int (or_zero u.user_number)) words)))

-- `strings.ToLower(strings.TrimSpace(search))`
abbrev pub words_of : (ℕ → ℕ) → Text → Text
words_of go_lower search = to_lower go_lower (trim_space search)

is_nil-to_lower : (go_lower : ℕ → ℕ) (s : Text) → is_nil (to_lower go_lower s) ≡ is_nil s
unfolding to_lower
is_nil-to_lower go_lower [] = refl
is_nil-to_lower go_lower (c ∷ s) = refl

search_pattern_of_words :
    (go_lower : ℕ → ℕ) (search : Text)
    → is_blank search ≡ false
    → search_pattern go_lower search ≡ text "%" ++ (words_of go_lower search ++ text "%")
unfolding search_pattern
search_pattern_of_words go_lower search h = rw h refl

pattern_not_empty :
    (words : Text)
    → is_nil words ≡ false
    → text_eq (text "%" ++ (words ++ text "%")) (text "%%") ≡ false
unfolding text_eq
pattern_not_empty [] h = cc
pattern_not_empty (c ∷ []) h = ground arith
pattern_not_empty (c ∷ d ∷ words) h = ground arith

matches_of_words :
    (lower : Text → Text) (words : Text) (u : UserRow)
    → All IsPlain words
    → is_nil words ≡ false
    → matches lower (text "%" ++ (words ++ text "%")) u
        || matches_number (text "%" ++ (words ++ text "%")) u
      ≡ has_words lower words u
unfolding matches matches_number has_words
matches_of_words lower words u plain some_words =
    rw
      (
        pattern_not_empty words some_words,
        like-contains words (lower u.id) plain,
        like-contains words (lower u.username) plain,
      )
      (rw
        (
          like-contains words (lower u.display_name) plain,
          like-contains words (lower u.phone) plain,
          like-contains words (format_int (or_zero u.user_number)) plain,
        )
        (ground arith))

keep_ext :
    (p q : UserRow → Bool) (users : List UserRow)
    → ((u : UserRow) → p u ≡ q u)
    → keep p users ≡ keep q users
keep_ext p q users same = ap (λ r. keep r users) (fun_ext same)

suc_add : (k l : ℕ) → suc (k + l) ≡ suc k + l
suc_add k l = omega arith

suc_mul : (n m : ℕ) → suc n * m ≡ m + n * m
suc_mul n m = omega arith

drop-drop : {A : Type 0} (k l : ℕ) (list : List A) → drop l (drop k list) ≡ drop (k + l) list
drop-drop zero l list = ap (λ n. drop n list) (omega arith)
drop-drop (suc k) zero [] = simp unary_clauses refl
drop-drop (suc k) (suc l) [] = simp unary_clauses refl
drop-drop (suc k) l (x ∷ list) = drop-drop k l list ∙ ap (λ n. drop n (x ∷ list)) (suc_add k l)

take-append-later :
    (k l : ℕ) (list : List UserRow) → take l (drop k list) ++ drop (k + l) list ≡ drop k list
take-append-later k l list =
    ap (λ rest. take l (drop k list) ++ rest) (sym (drop-drop k l list))
    ∙ take-append-drop l (drop k list)

map-append :
    (f : UserRow → AdminUserRow) (xs ys : List UserRow) → map f (xs ++ ys) ≡ map f xs ++ map f ys
map-append f [] ys = refl
map-append f (x ∷ xs) ys = ap (λ rest. f x ∷ rest) (map-append f xs ys)

drop_past : (k : ℕ) (list : List UserRow) → length list ≤ k → drop k list ≡ []
drop_past zero [] h = refl
drop_past zero (x ∷ list) h = absurd (omega (arith, h))
drop_past (suc k) [] h = refl
drop_past (suc k) (x ∷ list) h = drop_past k list (omega (arith, h))

limit_within_self : (n : ℕ) → 1 ≤ n → n ≤ 500 → limit_within 500 (pos n) ≡ n
unfolding limit_within
limit_within_self zero h k = absurd (omega (arith, h))
limit_within_self (suc n) h k = ground arith

module _ (lower : Text → Text) (go_lower : ℕ → ℕ) (after : Text → Text → Bool) (search : Text)
    (db : Database) where
  -- The pages that an administrator reads from an offset on, `limit` users on each.
  unfoldable pub pages : (limit n from : ℕ) → List AdminUserRow
  pages limit zero from = []
  pages limit (suc n) from =
      (list_for_admin lower go_lower after search (pos limit) (pos from) db).items
      ++ pages limit n (from + limit)

  pages_of_rows :
      (limit n from : ℕ)
      → 1 ≤ limit
      → limit ≤ 500
      → length (found_users lower go_lower after search db) ≤ from + n * limit
      → pages limit n from
        ≡ map (admin_user_row db) (drop from (found_users lower go_lower after search db))
  unfolding pages list_for_admin offset_of
  pages_of_rows limit zero from positive small enough =
      let users = found_users lower go_lower after search db in
      rw (drop_past from users (omega (arith, enough))) refl
  pages_of_rows limit (suc n) from positive small enough =
      let users = found_users lower go_lower after search db in
      let all : length users ≤ from + (limit + n * limit) =
        omega (arith, suc_mul n limit, enough) in
      let rest = pages_of_rows limit n (from + limit) positive small (omega (arith, all)) in
      rw (limit_within_self limit positive small, rest)
        (sym (
            map-append (admin_user_row db) (take limit (drop from users))
              (drop (from + limit) users))
          ∙ ap (map (admin_user_row db)) (take-append-later from limit users))

  found_users_of_words :
      is_blank search ≡ false
      → All IsPlain (words_of go_lower search)
      → found_users lower go_lower after search db
        ≡ sort
            (by_registration lower go_lower after)
            (keep (has_words lower (words_of go_lower search)) db.users)
  unfolding found_users
  found_users_of_words some_words plain = ap (sort (by_registration lower go_lower after)) (
      rw (search_pattern_of_words go_lower search some_words) (
        keep_ext _ _ db.users (λ u.
          matches_of_words lower (words_of go_lower search) u plain
            (is_nil-to_lower go_lower (trim_space search) ∙ some_words))))

  -- An administrator who searches for words without a special character of LIKE, and reads pages
  -- of at most 500 users until they cover the total, gets every user whose id, account name, shown
  -- name, phone or number contains the words, once and in the order of registration, and no other
  -- user.
  pub search_pages_find :
      (limit n : ℕ)
      → is_blank search ≡ false
      → All IsPlain (words_of go_lower search)
      → 1 ≤ limit
      → limit ≤ 500
      → (list_for_admin lower go_lower after search (pos limit) (pos 0) db).total ≤ n * limit
      → pages limit n 0
        ≡ map (admin_user_row db) (
            sort
              (by_registration lower go_lower after)
              (keep (has_words lower (words_of go_lower search)) db.users))
  unfolding list_for_admin
  search_pages_find limit n some_words plain positive small enough =
      pages_of_rows limit n 0 positive small (omega (arith, enough))
      ∙ ap (map (admin_user_row db)) (found_users_of_words some_words plain)
