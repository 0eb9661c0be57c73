-- ===== src/Memory/Walk.antt =====
-- A client that follows the cursors of a paged list (memory/auction_repository.go, memory/moderation.go).
use auction_server.Prelude.{
  ℕ, zero, suc, ◌+◌, ◌^◌, ◌≤◌, ◌<◌, ◌≡◌, refl, ap, ◌∙◌, true, false, List, [], ◌∷◌, ◌++◌, none,
  some, arith, is_nil, length, take, drop, All, ltb, inl, inr, Bool-cases, take-append-drop,
  take_of_length-le, length-drop,
}
use auction_server.Prelude.Int.{ℤ, pos}
use auction_server.Prelude.Text.{Text, text_eq_self, format_int}
use auction_server.Domain.{Auction}
use auction_server.Memory.Feed.{
  cursor_of, is_at_cursor, find_cursor, start_of, last_cursor, page_of,
}
use auction_server.Memory.Paging.{HasDistinctCursors, start_of-le, plain_page, page_of_plain}

module _ (key : Auction → ℤ) where
  -- The cursor of an item leads to the place after it.
  is_at_own_cursor : (a : Auction) → is_at_cursor key (cursor_of key a) a ≡ true
  unfolding is_at_cursor
  is_at_own_cursor a = ground (arith, text_eq_self (cursor_of key a))

  All-last_cursor :
      (P : Text → Type 0) (n : ℕ) (all : List Auction)
      → All (λ b. P (cursor_of key b)) all
      → n < length all
      → P (last_cursor key (take (suc n) all))
  unfolding last_cursor
  All-last_cursor P n [] h lt = absurd (omega arith)
  All-last_cursor P zero (a ∷ rest) h lt = h.0
  All-last_cursor P (suc n) (a ∷ []) h lt = absurd (omega arith)
  All-last_cursor P (suc n) (a ∷ b ∷ rest) h lt = All-last_cursor P n (b ∷ rest) h.1 (omega arith)

  All-drop : {A : Type 0} (P : A → Type 0) (n : ℕ) (xs : List A) → All P xs → All P (drop n xs)
  All-drop P zero xs h = h
  All-drop P (suc n) [] h = tt
  All-drop P (suc n) (x ∷ xs) h = All-drop P n xs h.1

  find_last :
      (n : ℕ) (all : List Auction)
      → HasDistinctCursors key all
      → n < length all
      → find_cursor key (last_cursor key (take (suc n) all)) all ≡ some (suc n)
  unfolding find_cursor last_cursor
  find_last n [] h lt = absurd (omega arith)
  find_last zero (a ∷ rest) h lt = rw (is_at_own_cursor a)
  find_last (suc n) (a ∷ []) h lt = absurd (omega arith)
  find_last (suc n) (a ∷ b ∷ rest) h lt =
      let away =
        All-last_cursor (λ c. is_at_cursor key c a ≡ false) n (b ∷ rest) h.0 (omega arith) in
      rw away (rw (find_last n (b ∷ rest) h.1 (omega arith)))

  find_next :
      (start n : ℕ) (all : List Auction)
      → HasDistinctCursors key all
      → start + n < length all
      → find_cursor key (last_cursor key (take (suc n) (drop start all))) all ≡ some (start + suc n)
  unfolding find_cursor
  find_next zero n all h lt = find_last n all h (omega arith) ∙ ap some (omega arith)
  find_next (suc start) n [] h lt = absurd (omega arith)
  find_next (suc start) n (a ∷ rest) h lt =
      let away =
        All-last_cursor (λ c. is_at_cursor key c a ≡ false) n (drop start rest)
          (All-drop _ start rest h.0) (omega (arith, length-drop {0} start rest)) in
      rw away (rw (find_next start n rest h.1 (omega arith)) (ap some (omega arith)))

  is_nil_of_middle : (s t : Text) (c : ℕ) → is_nil (s ++ c ∷ t) ≡ false
  is_nil_of_middle [] t c = refl
  is_nil_of_middle (d ∷ s) t c = refl

  is_nil-cursor_of : (a : Auction) → is_nil (cursor_of key a) ≡ false
  unfolding cursor_of
  is_nil-cursor_of a = is_nil_of_middle (format_int (key a)) a.id b':'

  All-always : {A : Type 0} (P : A → Type 0) (xs : List A) → ((a : A) → P a) → All P xs
  All-always P [] h = tt
  All-always P (x ∷ xs) h = (h x, All-always P xs h)

  start_of_next :
      (start n : ℕ) (all : List Auction)
      → HasDistinctCursors key all
      → start + n < length all
      → start_of key (last_cursor key (take (suc n) (drop start all))) all ≡ start + suc n
  unfolding start_of
  start_of_next start n all h lt =
      let some_text =
        All-last_cursor (λ c. is_nil c ≡ false) n (drop start all)
          (All-always _ (drop start all) is_nil-cursor_of)
          (omega (arith, length-drop {0} start all)) in
      rw some_text (rw (find_next start n all h lt))

  -- A client that follows the cursors, with a bound on its requests.
  pub walk : ℕ → ℤ → Text → List Auction → List Auction
  walk zero limit cursor all = []
  walk (suc f) limit cursor all = elim (page_of key limit cursor all) [
    | none ↦ []
    | some page ↦ elim page.has_more [
      | true ↦ page.items ++ walk f limit page.next_cursor all
      | false ↦ page.items
    ]
  ]

  drop-drop : (start n : ℕ) (all : List Auction) → drop n (drop start all) ≡ drop (start + n) all
  drop-drop zero n all = ap (λ k. drop k all) (omega arith)
  drop-drop (suc start) zero [] = ap (λ k. drop {A = Auction} k []) {x = suc start} (omega arith)
  drop-drop (suc start) (suc n) [] =
      let e : suc start + suc n ≡ suc (start + suc n) = omega arith in rw e
  drop-drop (suc start) n (a ∷ rest) =
      let e : suc start + n ≡ suc (start + n) = omega arith in rw e (drop-drop start n rest)

  take-then-drop :
      (start n : ℕ) (all : List Auction)
      → take n (drop start all) ++ drop (start + n) all ≡ drop start all
  take-then-drop start n all = rw (← drop-drop start n all) (take-append-drop n (drop start all))

  plain_page_items :
      (start limit : ℕ) (all : List Auction)
      → (plain_page key start limit all).items ≡ take limit (drop start all)
  unfolding plain_page
  plain_page_items start limit all = refl

  plain_page_more :
      (start limit : ℕ) (all : List Auction)
      → start + limit < length all
      → ((plain_page key start limit all).has_more ≡ true)
        × ((plain_page key start limit all).next_cursor
            ≡ last_cursor key (take limit (drop start all)))
  unfolding plain_page
  plain_page_more start limit all h = ground arith

  plain_page_last :
      (start limit : ℕ) (all : List Auction)
      → length all ≤ start + limit
      → (plain_page key start limit all).has_more ≡ false
  unfolding plain_page
  plain_page_last start limit all h = ground arith

  walk_from :
      (f limit : ℕ) (cursor : Text) (all : List Auction)
      → 0 < limit
      → length all + limit < 2 ^ 63
      → HasDistinctCursors key all
      → length all < start_of key cursor all + f
      → walk f (pos limit) cursor all ≡ drop (start_of key cursor all) all
  unfolding walk
  walk_from zero limit cursor all positive small h enough =
      absurd (omega (arith, start_of-le key cursor all))
  walk_from (suc f) zero cursor all positive small h enough = absurd (omega arith)
  walk_from (suc f) (suc l) cursor all positive small h enough =
      let start = start_of key cursor all in
      let items = take (suc l) (drop start all) in
      let page = page_of_plain key (suc l) cursor all positive small in
      elim (Bool-cases (ltb (start + suc l) (length all))) [
        | inl more ↦
            let on : start + suc l < length all = ground arith in
            let next = start_of_next start l all h (omega arith) in
            let rest =
              walk_from f (suc l) (last_cursor key items) all positive small h
                (omega (arith, next)) in
            let (has_more, cursor') = plain_page_more start (suc l) all on in
            rw (page, walk)
              (rw (has_more, plain_page_items, cursor')
                (rw (rest ∙ ap (λ k. drop k all) next) (take-then-drop start (suc l) all)))
        | inr last ↦
            let over : length all ≤ start + suc l = ground arith in
            rw (page, walk)
              (rw (plain_page_last start (suc l) all over, plain_page_items)
                (take_of_length-le (suc l) (drop start all)
                  (omega (arith, length-drop {0} start all))))
      ]

  -- Following the cursors from the start gives the whole list, each item once and in order, if the
  -- limit is positive, the length and the limit add up below 2 ^ 63, no cursor fits an earlier
  -- item, and there are more requests than items.
  pub walk_all :
      (f limit : ℕ) (all : List Auction)
      → 0 < limit
      → length all + limit < 2 ^ 63
      → HasDistinctCursors key all
      → length all < f
      → walk f (pos limit) [] all ≡ all
  walk_all f limit all positive small h enough =
      let from_start : start_of key [] all ≡ 0 = unfold start_of in refl in
      walk_from f limit [] all positive small h (omega (arith, from_start))
      ∙ ap (λ k. drop k all) from_start
