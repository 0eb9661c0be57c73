-- ===== src/Prelude/Strings.antt =====
-- The functions of Go's `strings` that cut, split and replace, for the separators and patterns with
-- which the server calls them.
use auction_server.Prelude.{
  ℕ, ◌+◌, ◌-◌, ◌*◌, ◌^◌, Option, none, some, Bool, true, false, ◌&&◌, List, [], ◌∷◌, ◌++◌, map, leb,
  ltb, ◌==◌, if◌then◌else◌, length, drop,
}
use auction_server.Prelude.Int.{ℤ, pos, sub_ℕ}
use auction_server.Prelude.Text.{Text, text_eq, trim}

-- `strings.HasPrefix(s, prefix)`
unfoldable pub has_prefix : Text → Text → Bool
has_prefix s [] = true
has_prefix [] (d ∷ prefix) = false
has_prefix (c ∷ s) (d ∷ prefix) = c == d && has_prefix s prefix

-- `strings.TrimPrefix(s, prefix)`
unfoldable pub trim_prefix : Text → Text → Text
unfolding has_prefix
trim_prefix s prefix = if has_prefix s prefix then drop (length prefix) s else s

-- `strings.TrimSuffix(s, suffix)`: the rest of `s` is the suffix at one place at most.
unfoldable pub trim_suffix : Text → Text → Text
trim_suffix [] suffix = []
trim_suffix (c ∷ s) suffix =
    let rest = trim_suffix s suffix in if text_eq (c ∷ s) suffix then [] else c ∷ rest

-- `strings.Trim(s, "/")`
unfoldable pub trim_slashes : Text → Text
unfolding trim
trim_slashes s = trim (λ c. c == b'/') s

push : ℕ → List Text → List Text
push c [] = (c ∷ []) ∷ []
push c (part ∷ parts) = (c ∷ part) ∷ parts

-- `strings.Split(s, "/")`
unfoldable pub split : Text → List Text
unfolding push
split [] = [] ∷ []
split (c ∷ s) = let rest = split s in if c == b'/' then [] ∷ rest else push c rest

-- `strings.Replace(s, old, new, 1)` for an `old` that is not empty.
unfoldable pub replace_first : Text → Text → Text → Text
unfolding has_prefix
replace_first old new [] = []
replace_first old new (c ∷ s) =
    let rest = replace_first old new s in
    if has_prefix (c ∷ s) old then new ++ drop (length old) (c ∷ s) else c ∷ rest

-- `unicode.ToUpper` where its value is a letter A to Z: the small letters, the dotless i and the
-- long s. Every other character stays outside that range, as its upper case does.
unfoldable pub to_upper_rune : ℕ → ℕ
to_upper_rune c =
    if leb b'a' c && leb c b'z'
    then c - 32
    else if c == 0x131
    then b'I'
    else if c == 0x17f
    then b'S'
    else c

-- `strings.ToUpper`, for comparison with words of the letters A to Z.
unfoldable pub to_upper : Text → Text
unfolding to_upper_rune
to_upper = map to_upper_rune

-- The loop of `strconv.ParseUint` in base 10, to 64 bits: `none` is a syntax error, and a value that
-- is too large is cut at the largest.
unfoldable pub parse_uint : ℕ → Text → Option ℕ
parse_uint n [] = some n
parse_uint n (c ∷ s) =
    let m = n * 10 + (c - b'0') in
    let rest = parse_uint m s in
    if leb b'0' c && leb c b'9' then (if leb (2 ^ 64) m then some (2 ^ 64 - 1) else rest) else none

unfoldable pub signed : Bool → Option ℕ → ℤ
signed negative none = pos 0
signed true (some n) = sub_ℕ 0 (if leb (2 ^ 63) n then 2 ^ 63 else n)
signed false (some n) = pos (if leb (2 ^ 63) n then 2 ^ 63 - 1 else n)

unfoldable pub parse_digits : Bool → Text → ℤ
unfolding signed parse_uint
parse_digits negative [] = pos 0
parse_digits negative (c ∷ s) = signed negative (parse_uint 0 (c ∷ s))

-- `n, _ := strconv.Atoi(s)`: 0 where the text is not a number.
unfoldable pub atoi : Text → ℤ
unfolding parse_digits
atoi [] = pos 0
atoi (c ∷ s) =
    if c == b'-'
    then parse_digits true s
    else if c == b'+'
    then parse_digits false s
    else parse_digits false (c ∷ s)

-- `strings.ToLower`, where `lower` is `unicode.ToLower` beyond ASCII.
unfoldable pub to_lower : (ℕ → ℕ) → Text → Text
to_lower lower =
    map (λ c. if leb b'A' c && leb c b'Z' then c + 32 else if ltb c 128 then c else lower c)
