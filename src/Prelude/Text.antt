-- ===== src/Prelude/Text.antt =====
-- Go's strings as lists of code points, and the functions of `strings`, `strconv` and `fmt` that
-- the server calls. Comparing strings byte by byte, as Go does, orders UTF-8 by code points.
use Prim.Native.Char.{code}
use Prim.Native.String.{String}
use Prim.Native.Nat.{compare, Ordering}
use auction_server.Prelude.{
  ℕ, zero, suc, ◌+◌, ◌/◌, ◌%◌, ◌≡◌, refl, ◌↔◌, Bool, true, false, ◌&&◌, ◌||◌, List, [], ◌∷◌, arith,
  ltb, leb, ◌==◌, if◌then◌else◌, is_nil, ap, ◌∙◌,
}
use auction_server.Prelude.Int.{ℤ, pos, negsuc}

abbrev pub Text : Type 0
Text = List ℕ

-- A literal.
abbrev pub text : String → Text
text String.[] = []
text (String.◌∷◌ c s) = code c ∷ text s

-- `a == b`
unfoldable pub text_eq : Text → Text → Bool
text_eq [] [] = true
text_eq [] (d ∷ t) = false
text_eq (c ∷ s) [] = false
text_eq (c ∷ s) (d ∷ t) = c == d && text_eq s t

pub text_eq_iff : (s t : Text) → (text_eq s t ≡ true) ↔ (s ≡ t)
unfolding text_eq
text_eq_iff [] [] = ground arith
text_eq_iff [] (d ∷ t) = ground arith
text_eq_iff (c ∷ s) [] = ground arith
text_eq_iff (c ∷ s) (d ∷ t) = ground (arith, text_eq_iff s t)

pub text_eq_self : (s : Text) → text_eq s s ≡ true
text_eq_self s = (text_eq_iff s s).1 refl

-- `a > b`
unfoldable pub text_gt : Text → Text → Bool
text_gt [] t = false
text_gt (c ∷ s) [] = true
text_gt (c ∷ s) (d ∷ t) =
    let rest = text_gt s t in
    elim (compare c d) [ Ordering.lt ↦ false | Ordering.eq ↦ rest | Ordering.gt ↦ true ]

-- `unicode.IsSpace`
unfoldable pub is_space : ℕ → Bool
is_space c =
    leb 0x9 c && leb c 0xd
    || c == 0x20
    || c == 0x85
    || c == 0xa0
    || c == 0x1680
    || leb 0x2000 c && leb c 0x200a
    || c == 0x2028
    || c == 0x2029
    || c == 0x202f
    || c == 0x205f
    || c == 0x3000

module _ (p : ℕ → Bool) where
  unfoldable pub trim_left : Text → Text
  trim_left [] = []
  trim_left (c ∷ s) = let rest = trim_left s in if p c then rest else c ∷ s

  unfoldable pub trim_right : Text → Text
  trim_right [] = []
  trim_right (c ∷ s) = let rest = trim_right s in if is_nil rest && p c then [] else c ∷ rest

  -- `strings.TrimFunc`
  unfoldable pub trim : Text → Text
  unfolding trim_left trim_right
  trim s = trim_right (trim_left s)

  pub trim_right_idem : (s : Text) → trim_right (trim_right s) ≡ trim_right s
  unfolding trim_right
  trim_right_idem [] = refl
  trim_right_idem (c ∷ s) = ground (arith, trim_right_idem s)

  trim_left_of_trimmed :
      (s : Text) → trim_left (trim_right (trim_left s)) ≡ trim_right (trim_left s)
  unfolding trim_left trim_right
  trim_left_of_trimmed [] = refl
  trim_left_of_trimmed (c ∷ s) = ground (arith, trim_left_of_trimmed s)

  pub trim_idem : (s : Text) → trim (trim s) ≡ trim s
  unfolding trim
  trim_idem s = ap trim_right (trim_left_of_trimmed s) ∙ trim_right_idem (trim_left s)

-- `strings.TrimSpace`
unfoldable pub trim_space : Text → Text
unfolding trim is_space
trim_space s = trim is_space s

-- `strings.TrimSpace(s) == ""`
abbrev pub is_blank : Text → Bool
is_blank s = is_nil (trim_space s)

pub trim_space_idem : (s : Text) → trim_space (trim_space s) ≡ trim_space s
unfolding trim_space
trim_space_idem s = trim_idem is_space s

-- The decimal digits of a number, the last first; the fuel is the number itself, and one more.
unfoldable pub digits_from : ℕ → ℕ → Text → Text
digits_from zero n acc = acc
digits_from (suc f) n acc =
    let rest = digits_from f (n / 10) ((b'0' + n % 10) ∷ acc) in
    if ltb n 10 then (b'0' + n) ∷ acc else rest

-- `%d`, `strconv.FormatInt(n, 10)`
unfoldable pub format_int : ℤ → Text
unfolding digits_from
format_int (pos n) = digits_from (suc n) n []
format_int (negsuc n) = b'-' ∷ digits_from (suc (suc n)) (suc n) []

pub text_gt_asym : (s t : Text) → text_gt s t ≡ true → text_gt t s ≡ false
unfolding text_gt
text_gt_asym [] t h = cc
text_gt_asym (c ∷ s) [] h = refl
text_gt_asym (c ∷ s) (d ∷ t) h = ground (arith, text_gt_asym s t)

pub text_gt_trans : (s t u : Text) → text_gt s t ≡ true → text_gt t u ≡ true → text_gt s u ≡ true
unfolding text_gt
text_gt_trans [] t u h k = cc
text_gt_trans (c ∷ s) [] u h k = cc
text_gt_trans (c ∷ s) (d ∷ t) [] h k = refl
text_gt_trans (c ∷ s) (d ∷ t) (e ∷ u) h k = ground (arith, text_gt_trans s t u)

pub text_gt_total : (s t : Text) → text_eq s t ≡ false → text_gt s t ≡ false → text_gt t s ≡ true
unfolding text_gt text_eq
text_gt_total [] [] h k = cc
text_gt_total [] (d ∷ t) h k = refl
text_gt_total (c ∷ s) [] h k = cc
text_gt_total (c ∷ s) (d ∷ t) h k = ground (arith, text_gt_total s t)
