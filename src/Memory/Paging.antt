-- ===== src/Memory/Paging.antt =====
-- The pages that the paged lists cut (memory/auction_repository.go, memory/moderation.go), in plain
-- arithmetic where nothing wraps.
use auction_server.Prelude.{
  ℕ, ◌+◌, ◌-◌, ◌^◌, ◌≤◌, ◌<◌, ◌≡◌, sym, ap, ◌∙◌, false, List, [], ◌∷◌, none, some, arith, length,
  take, drop, All, ltb, inl, inr, Bool-cases, Option-cases, if◌then◌else◌, take_of_length-le,
  length-drop,
}
use auction_server.Prelude.Int.{ℤ, pos, add, add_pos}
use auction_server.Prelude.Text.{Text}
use auction_server.Domain.{Auction, AuctionFeedPage}
use auction_server.Memory.Feed.{
  slice, cursor_of, is_at_cursor, find_cursor, start_of, limit_of, last_cursor, page_at, page_of,
}

module _ (key : Auction → ℤ) where
  -- The cursor of an auction fits no earlier one.
  abbrev pub HasDistinctCursors : List Auction → Type 0
  HasDistinctCursors [] = Unit
  HasDistinctCursors (a ∷ rest) =
      All (λ b. is_at_cursor key (cursor_of key b) a ≡ false) rest × HasDistinctCursors rest

  find_cursor-le :
      (cursor : Text) (all : List Auction) {i : ℕ}
      → find_cursor key cursor all ≡ some i
      → i ≤ length all
  unfolding find_cursor
  find_cursor-le cursor [] h = cc
  find_cursor-le cursor (a ∷ rest) {i = i} h = elim (Option-cases (find_cursor key cursor rest)) [
    | inl nowhere ↦ ground arith
    | inr (j, later) ↦ ground (arith, find_cursor-le cursor rest later)
  ]

  pub start_of-le : (cursor : Text) (all : List Auction) → start_of key cursor all ≤ length all
  unfolding start_of
  start_of-le cursor all = elim (Option-cases (find_cursor key cursor all)) [
    | inl nowhere ↦ ground arith
    | inr (i, found) ↦ ground (arith, find_cursor-le cursor all found)
  ]

  -- A page in plain arithmetic, where nothing wraps.
  unfoldable pub plain_page : ℕ → ℕ → List Auction → AuctionFeedPage
  plain_page start limit all =
      let items = take limit (drop start all) in
      let has_more = ltb (start + limit) (length all) in
      record {
        items = items;
        next_cursor = if has_more then last_cursor key items else [];
        has_more = has_more;
      }

  slice_within :
      (start high : ℕ) (all : List Auction)
      → start ≤ high
      → high ≤ length all
      → slice start (pos high) all ≡ some (take (high - start) (drop start all))
  unfolding slice
  slice_within start high all h k = ground arith

  take_rest :
      (start limit : ℕ) (all : List Auction)
      → length all ≤ start + limit
      → take (length all - start) (drop start all) ≡ take limit (drop start all)
  take_rest start limit all h =
      take_of_length-le (length all - start) (drop start all)
        (omega (arith, length-drop {0} start all))
      ∙ sym (take_of_length-le limit (drop start all) (omega (arith, length-drop {0} start all)))

  page_at_plain :
      (start limit : ℕ) (all : List Auction)
      → start ≤ length all
      → page_at key start (pos (start + limit)) all ≡ some (plain_page start limit all)
  unfolding page_at plain_page
  page_at_plain start limit all le = elim (Bool-cases (ltb (start + limit) (length all))) [
    | inl more ↦
        let cut = slice_within start (start + limit) all (omega arith) (ground arith) in
        let same : start + limit - start ≡ limit = omega arith in
        ground (arith, ap (λ n. take n (drop start all)) same)
    | inr last ↦
        let cut = slice_within start (length all) all le (omega arith) in
        let same = take_rest start limit all (ground arith) in ground arith
  ]

  -- The limit is positive and the positions are numbers that add up without wrapping.
  pub page_of_plain :
      (limit : ℕ) (cursor : Text) (all : List Auction)
      → 0 < limit
      → length all + limit < 2 ^ 63
      → page_of key (pos limit) cursor all ≡ some (plain_page (start_of key cursor all) limit all)
  unfolding page_of
  page_of_plain limit cursor all positive small =
      let start = start_of key cursor all in
      let le : start ≤ length all = start_of-le cursor all in
      let whole : limit_of (pos limit) ≡ pos limit = unfold limit_of in ground arith in
      ap (λ l. page_at key start (add (pos start) l) all) whole
      ∙ ap (λ e. page_at key start e all) (add_pos start limit (omega arith))
      ∙ page_at_plain start limit all le

-- Where the cursor names an item and the position after it and the limit fit in 64 bits but their
-- sum does not, the slice of the page is out of range and the call panics.
pub page_of_panics :
    (key : Auction → ℤ) (limit : ℕ) (cursor : Text) (all : List Auction)
    → 0 < start_of key cursor all
    → start_of key cursor all < 2 ^ 63
    → limit < 2 ^ 63
    → 2 ^ 63 ≤ start_of key cursor all + limit
    → page_of key (pos limit) cursor all ≡ none
unfolding page_of page_at limit_of add slice
page_of_panics key limit cursor all after_item small h over = ground arith
