-- ===== src/Postgres/Walk.antt =====
-- A client that follows the cursors of a paged list (postgres/feed_page.go, postgres/moderation.go).
use auction_server.Prelude.{
  ℕ, zero, suc, ◌+◌, ◌<◌, ◌≤◌, ◌≡◌, refl, ap, ◌∙◌, Bool, true, false, List, [], ◌∷◌, ◌++◌, arith,
  keep, All, length, take, drop, ltb, inl, inr, Bool-cases, take-append-drop, take_of_length-le,
  length-take, length-drop,
}
use auction_server.Prelude.Int.{ℤ}
use auction_server.Prelude.Text.{Text, trim_space}
use auction_server.Prelude.Sort.{length-sort, sort}
use auction_server.Domain.{Auction, AuctionFeedPage}
use auction_server.Postgres.Cursor.{cut_colon, last_cursor, parse_feed_cursor}
use auction_server.Postgres.Pages.{by_key, is_below, window, page_of_window}
use auction_server.Postgres.Keyset.{IsTextOrder, HasCursor, HasDistinctIds, window_at, next_start}

-- A client that asks for the page behind the last cursor, with a bound on its requests.
pub walk : (Text → AuctionFeedPage) → ℕ → Text → List Auction
walk page zero cursor = []
walk page (suc f) cursor = elim (page cursor).has_more [
  | true ↦ (page cursor).items ++ walk page f (page cursor).next_cursor
  | false ↦ (page cursor).items
]

module _ (page : Text → AuctionFeedPage) (f : ℕ) (cursor : Text) {items : List Auction}
    {next : Text} where
  walk_more :
      page cursor ≡ record { items = items; next_cursor = next; has_more = true }
      → walk page (suc f) cursor ≡ items ++ walk page f next
  unfolding walk
  walk_more e =
      let more = ap (λ (p : AuctionFeedPage). p.has_more) e in
      rw (walk, more) (ap (λ (p : AuctionFeedPage). p.items ++ walk page f p.next_cursor) e)

  walk_last :
      page cursor ≡ record { items = items; next_cursor = next; has_more = false }
      → walk page (suc f) cursor ≡ items
  unfolding walk
  walk_last e =
      let more = ap (λ (p : AuctionFeedPage). p.has_more) e in
      rw (walk, more) (ap (λ (p : AuctionFeedPage). p.items) e)

take-take : {A : Type 0} (n : ℕ) (xs : List A) → take n (take (suc n) xs) ≡ take n xs
take-take zero xs = refl
take-take (suc n) [] = refl
take-take (suc n) (x ∷ xs) = ap (◌∷◌ x) (take-take n xs)

take-then-drop :
    {A : Type 0} (start n end : ℕ) (xs : List A)
    → end ≡ start + n
    → take n (drop start xs) ++ drop end xs ≡ drop start xs
take-then-drop zero n end xs e = let same : end ≡ n = omega arith in rw same (take-append-drop n xs)
take-then-drop (suc start) n zero xs e = absurd (omega arith)
take-then-drop (suc start) zero (suc end) [] e = refl
take-then-drop (suc start) (suc n) (suc end) [] e = refl
take-then-drop (suc start) n (suc end) (x ∷ xs) e = take-then-drop start n end xs (omega arith)

module _ (key : Auction → ℤ) (n : ℕ) (xs : List Auction) where
  page_of_take_more :
      n < length xs
      → page_of_window key (λ items. items) n (take (suc n) xs)
        ≡ record { items = take n xs; next_cursor = last_cursor key (take n xs); has_more = true }
  unfolding page_of_window
  page_of_take_more h =
      let more : ltb n (length (take (suc n) xs)) ≡ true = ground (arith, length-take (suc n) xs) in
      rw (more, take-take n xs)

  page_of_take_last :
      length xs ≤ n
      → page_of_window key (λ items. items) n (take (suc n) xs)
        ≡ record { items = xs; next_cursor = []; has_more = false }
  unfolding page_of_window
  page_of_take_last h =
      let whole = take_of_length-le (suc n) xs (omega arith) in
      let last : ltb n (length xs) ≡ false = ground arith in rw (whole, last)

module _ (after : Text → Text → Bool) (key : Auction → ℤ) where
  -- A page of a list.
  unfoldable pub page_at : List Auction → ℕ → Text → AuctionFeedPage
  unfolding page_of_window window
  page_at rows limit cursor =
      page_of_window key (λ list. list) limit (window after key cursor limit rows)

module _ (after : Text → Text → Bool) (order : IsTextOrder after) (key : Auction → ℤ) where
  walk_from :
      (rows : List Auction) (l f start : ℕ) (cursor : Text)
      → HasDistinctIds rows
      → All (HasCursor key) rows
      → keep (is_below after key (parse_feed_cursor cursor)) (sort (by_key after key) rows)
        ≡ drop start (sort (by_key after key) rows)
      → length (sort (by_key after key) rows) < start + f
      → start ≤ length (sort (by_key after key) rows)
      → walk (page_at after key rows (suc l)) f cursor ≡ drop start (sort (by_key after key) rows)
  walk_from rows l zero start cursor distinct readable at enough inside = absurd (omega arith)
  walk_from rows l (suc f) start cursor distinct readable at enough inside =
      let list = sort (by_key after key) rows in
      let read : page_at after key rows (suc l) cursor
          ≡ page_of_window key (λ items. items) (suc l) (take (suc (suc l)) (drop start list)) =
        unfold page_at in
        ap (page_of_window key (λ items. items) (suc l))
          (window_at after order key rows cursor start (suc l) distinct at) in
      elim (Bool-cases (ltb (start + suc l) (length list))) [
        | inl more ↦
            let on : start + suc l < length list = ground arith in
            let page =
              page_of_take_more key (suc l) (drop start list)
                (omega (arith, length-drop {0} start list)) in
            let rest =
              walk_from rows l f (suc (start + l))
                (last_cursor key (take (suc l) (drop start list))) distinct readable
                (next_start after order key rows start l distinct readable (omega arith))
                (omega arith) (omega arith) in
            walk_more (page_at after key rows (suc l)) f cursor (read ∙ page)
            ∙ ap (◌++◌ (take (suc l) (drop start list))) rest
            ∙ take-then-drop start (suc l) (suc (start + l)) list (omega arith)
        | inr last ↦
            let over : length list ≤ start + suc l = ground arith in
            walk_last (page_at after key rows (suc l)) f cursor (
              read
              ∙ page_of_take_last key (suc l) (drop start list)
                  (omega (arith, length-drop {0} start list)))
      ]

  -- Without a cursor, every row is read.
  keep_from_start :
      (list : List Auction) → keep (is_below after key (parse_feed_cursor [])) list ≡ list
  unfolding is_below parse_feed_cursor cut_colon trim_space
  keep_from_start [] = refl
  keep_from_start (a ∷ list) = ap (◌∷◌ a) (keep_from_start list)

  pub walk_rows :
      (rows : List Auction) (l f : ℕ)
      → HasDistinctIds rows
      → All (HasCursor key) rows
      → length rows < f
      → walk (page_at after key rows (suc l)) f [] ≡ sort (by_key after key) rows
  walk_rows rows l f distinct readable enough =
      walk_from rows l f 0 [] distinct readable (keep_from_start (sort (by_key after key) rows))
        (omega (arith, length-sort (by_key after key) rows)) (omega arith)
