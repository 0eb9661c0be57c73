-- ===== src/Prelude/Ordered.antt =====
-- Sorting under a strict order: the sorted list, filters of it, and the part behind one of its items.
use auction_server.Prelude.{
  ℕ, zero, suc, ◌<◌, ◌≡◌, refl, ap, sym, Bool, true, false, ◌||◌, List, [], ◌∷◌, Option, none, some,
  arith, keep, All, length, drop, inl, inr, Bool-cases, if◌then◌else◌,
}
use auction_server.Prelude.Sort.{insert_sorted, sort, insert_sorted-All, sort-All}

module _ {ℓ} {A : Type ℓ} where
  abbrev pub get_elem? : List A → ℕ → Option A
  get_elem? [] i = none
  get_elem? (x ∷ xs) zero = some x
  get_elem? (x ∷ xs) (suc i) = get_elem? xs i

  pub get_elem?_of_lt : (xs : List A) (i : ℕ) → i < length xs → (x : A) × (get_elem? xs i ≡ some x)
  get_elem?_of_lt [] i h = absurd (omega arith)
  get_elem?_of_lt (x ∷ xs) zero h = (x, refl)
  get_elem?_of_lt (x ∷ xs) (suc i) h = get_elem?_of_lt xs i (omega arith)

  pub All-get_elem? {κ} :
      (P : A → Type κ) (xs : List A) (i : ℕ) {x : A} → All P xs → get_elem? xs i ≡ some x → P x
  All-get_elem? P [] i h e = cc
  All-get_elem? P (y ∷ xs) zero {x} h e = let same : y ≡ x = cc in rw (← same) (h.0)
  All-get_elem? P (y ∷ xs) (suc i) h e = All-get_elem? P xs i h.1 e

  pub keep_whole : (p : A → Bool) (xs : List A) → All (λ x. p x ≡ true) xs → keep p xs ≡ xs
  keep_whole p [] h = refl
  keep_whole p (x ∷ xs) h = rw (h.0) (ap (◌∷◌ x) (keep_whole p xs h.1))

  pub All-imp {κ μ} :
      (P : A → Type κ) (Q : A → Type μ) (xs : List A) → ((x : A) → P x → Q x) → All P xs → All Q xs
  All-imp P Q [] f h = tt
  All-imp P Q (x ∷ xs) f h = (f x h.0, All-imp P Q xs f h.1)

  pub All-keep {κ} : (P : A → Type κ) (p : A → Bool) (xs : List A) → All P xs → All P (keep p xs)
  All-keep P p [] h = tt
  All-keep P p (x ∷ xs) h = elim (Bool-cases (p x)) [
    | inl e ↦ rw e (h.0, All-keep P p xs h.1)
    | inr e ↦ rw e (All-keep P p xs h.1)
  ]

-- What makes `less` a strict order.
pub record IsStrictOrder {ℓ} {A : Type ℓ} (less : A → A → Bool) : Type ℓ where
  pub asym : (x y : A) → less x y ≡ true → less y x ≡ false
  pub trans : (x y z : A) → less x y ≡ true → less y z ≡ true → less x z ≡ true

module _ {ℓ} {A : Type ℓ} (less : A → A → Bool) where
  -- Each item comes before all the later ones.
  abbrev pub IsOrdered : List A → Type ℓ
  IsOrdered [] = Unit
  IsOrdered (x ∷ xs) = All (λ y. less x y ≡ true) xs × IsOrdered xs

  -- Of any two items, one is less.
  abbrev pub IsComparable : List A → Type ℓ
  IsComparable [] = Unit
  IsComparable (x ∷ xs) = All (λ y. less x y || less y x ≡ true) xs × IsComparable xs

module _ {ℓ} {A : Type ℓ} (less : A → A → Bool) (order : IsStrictOrder less) where
  insert_sorted-IsOrdered :
      (x : A) (ys : List A)
      → IsOrdered less ys
      → All (λ y. less x y || less y x ≡ true) ys
      → IsOrdered less (insert_sorted less x ys)
  unfolding insert_sorted
  insert_sorted-IsOrdered x [] h c = (tt, tt)
  insert_sorted-IsOrdered x (y ∷ ys) h c = elim (Bool-cases (less y x)) [
    | inl before ↦ rw before (
      insert_sorted-All less (λ z. less y z ≡ true) x ys before h.0,
      insert_sorted-IsOrdered x ys h.1 c.1,
    )
    | inr after ↦
        let first : less x y ≡ true = ground (arith, c.0) in
        rw after ((first, All-imp _ _ ys (λ z e. order.trans x y z first e) h.0), h)
  ]

  pub sort-IsOrdered : (xs : List A) → IsComparable less xs → IsOrdered less (sort less xs)
  unfolding sort
  sort-IsOrdered [] c = tt
  sort-IsOrdered (x ∷ xs) c =
      insert_sorted-IsOrdered x (sort less xs) (sort-IsOrdered xs c.1)
        (sort-All less (λ y. less x y || less y x ≡ true) xs c.0)

  insert_sorted_first :
      (x : A) (ys : List A) → All (λ y. less y x ≡ false) ys → insert_sorted less x ys ≡ x ∷ ys
  unfolding insert_sorted
  insert_sorted_first x [] h = refl
  insert_sorted_first x (y ∷ ys) h = rw (h.0)

  -- A filter and an insertion commute, if the filter keeps what is inserted.
  keep-insert_sorted :
      (p : A → Bool) (x : A) (ys : List A)
      → IsOrdered less ys
      → keep p (insert_sorted less x ys)
        ≡ (if p x then insert_sorted less x (keep p ys) else keep p ys)
  unfolding insert_sorted
  keep-insert_sorted p x [] h = refl
  keep-insert_sorted p x (y ∷ ys) h =
      let ih = keep-insert_sorted p x ys h.1 in
      elim (Bool-cases (less y x)) [
        | inl before ↦ ground (arith, ih)
        | inr after ↦
            let later : All (λ z. less z x ≡ false) (y ∷ ys) = (
              after,
              All-imp _ _ ys
                  (λ z e. elim (Bool-cases (less z x)) [
                    | inr no' ↦ no'
                    | inl yes' ↦ absurd (cc (order.trans y z x e yes'))
                  ])
                  h.0,
            ) in
            let first = insert_sorted_first x (keep p (y ∷ ys)) (All-keep _ p (y ∷ ys) later) in
            rw after (elim (Bool-cases (p x)) [
              | inl kept ↦ rw kept (sym first)
              | inr dropped ↦ rw dropped
            ])
      ]

  pub sort-keep :
      (p : A → Bool) (xs : List A)
      → IsComparable less xs
      → sort less (keep p xs) ≡ keep p (sort less xs)
  unfolding sort
  sort-keep p [] c = refl
  sort-keep p (x ∷ xs) c =
      let step = keep-insert_sorted p x (sort less xs) (sort-IsOrdered xs c.1) in
      let ih = sort-keep p xs c.1 in
      elim (Bool-cases (p x)) [
        | inl kept ↦ rw (step, kept) (ap (insert_sorted less x) ih)
        | inr dropped ↦ rw (step, dropped) ih
      ]

  less_self : (x : A) → less x x ≡ false
  less_self x = elim (Bool-cases (less x x)) [ inl e ↦ order.asym x x e | inr e ↦ e ]

  -- The items of an ordered list that come after the one at a place are those behind the place.
  pub keep_after :
      (xs : List A) (k : ℕ) {x : A}
      → IsOrdered less xs
      → get_elem? xs k ≡ some x
      → keep (less x) xs ≡ drop (suc k) xs
  keep_after [] k h e = refl
  keep_after (y ∷ ys) zero {x} h e =
      let same : y ≡ x = cc in
      let itself : less x y ≡ false = rw same (less_self x) in
      rw itself (keep_whole (less x) ys (rw (← same) (h.0)))
  keep_after (y ∷ ys) (suc k) {x} h e =
      let later : less x y ≡ false = order.asym y x (All-get_elem? _ ys k h.0 e) in
      rw later (keep_after ys k h.1 e)
