-- ===== src/Prelude/Sort.antt =====
-- `sort.Slice`, as insertion sort by the same `less`. Elements that `less` does not tell apart keep
-- their order here; Go leaves it open.
use mathlib.Core.List.{Perm}
use mathlib.Core.List.Perm
use auction_server.Prelude.{
  suc, ◌≡◌, arith, length, true, false, All, Bool, List, [], ◌∷◌, if◌then◌else◌, Bool-cases, inl,
  inr,
}

module _ {ℓ} {A : Type ℓ} (less : A → A → Bool) where
  unfoldable pub insert_sorted : A → List A → List A
  insert_sorted x [] = x ∷ []
  insert_sorted x (y ∷ ys) =
      let rest = insert_sorted x ys in if less y x then y ∷ rest else x ∷ y ∷ ys

  unfoldable pub sort : List A → List A
  unfolding insert_sorted
  sort [] = []
  sort (x ∷ xs) = insert_sorted x (sort xs)

  insert_sorted-perm : (x : A) (ys : List A) → Perm (insert_sorted x ys) (x ∷ ys)
  unfolding insert_sorted
  insert_sorted-perm x [] = Perm.refl (x ∷ [])
  insert_sorted-perm x (y ∷ ys) = elim (Bool-cases (less y x)) [
    | inl before ↦ rw before (Perm.trans (Perm.cons y (insert_sorted-perm x ys)) (Perm.swap x y ys))
    | inr after ↦ rw after (Perm.refl (x ∷ y ∷ ys))
  ]

  pub sort-perm : (xs : List A) → Perm (sort xs) xs
  unfolding sort
  sort-perm [] = Perm.refl []
  sort-perm (x ∷ xs) = Perm.trans (insert_sorted-perm x (sort xs)) (Perm.cons x (sort-perm xs))

  length-insert_sorted : (x : A) (ys : List A) → length (insert_sorted x ys) ≡ suc (length ys)
  unfolding insert_sorted
  length-insert_sorted x [] = omega arith
  length-insert_sorted x (y ∷ ys) = ground (arith, length-insert_sorted x ys)

  pub length-sort : (xs : List A) → length (sort xs) ≡ length xs
  unfolding sort
  length-sort [] = omega arith
  length-sort (x ∷ xs) = omega (arith, length-insert_sorted x (sort xs), length-sort xs)

  -- Every element of the sorted list is one of the list.
  pub insert_sorted-All {κ} :
      (P : A → Type κ) (x : A) (ys : List A) → P x → All P ys → All P (insert_sorted x ys)
  unfolding insert_sorted
  insert_sorted-All P x [] h k = (h, tt)
  insert_sorted-All P x (y ∷ ys) h k = elim (Bool-cases (less y x)) [
    | inl before ↦ rw before (k.0, insert_sorted-All P x ys h k.1)
    | inr after ↦ rw after (h, k)
  ]

  pub sort-All {κ} : (P : A → Type κ) (xs : List A) → All P xs → All P (sort xs)
  unfolding sort
  sort-All P [] h = tt
  sort-All P (x ∷ xs) h = insert_sorted-All P x (sort xs) h.0 (sort-All P xs h.1)

  -- No element is less than the one before it.
  abbrev pub IsSorted : List A → Type 0
  IsSorted [] = Unit
  IsSorted (x ∷ []) = Unit
  IsSorted (x ∷ y ∷ ys) = (less y x ≡ false) × IsSorted (y ∷ ys)

  insert_sorted-IsSorted :
      (asym : (x y : A) → less x y ≡ true → less y x ≡ false) (x : A) (ys : List A)
      → IsSorted ys
      → IsSorted (insert_sorted x ys)
  unfolding insert_sorted
  insert_sorted-IsSorted asym x [] h = tt
  insert_sorted-IsSorted asym x (y ∷ []) h = elim (Bool-cases (less y x)) [
    | inl before ↦ rw before (asym y x before, tt)
    | inr after ↦ rw after (after, tt)
  ]
  insert_sorted-IsSorted asym x (y ∷ z ∷ zs) h =
      let ih = insert_sorted-IsSorted asym x (z ∷ zs) h.1 in
      elim (Bool-cases (less y x)) [
        | inr after ↦ rw after (after, h)
        | inl before ↦ rw before (elim (Bool-cases (less z x)) [
          | inl both ↦ rw both (h.0, rw both at ih)
          | inr between ↦ rw between (asym y x before, rw between at ih)
        ])
      ]

  pub sort-IsSorted :
      (asym : (x y : A) → less x y ≡ true → less y x ≡ false) (xs : List A) → IsSorted (sort xs)
  unfolding sort
  sort-IsSorted asym [] = tt
  sort-IsSorted asym (x ∷ xs) = insert_sorted-IsSorted asym x (sort xs) (sort-IsSorted asym xs)
