-- ===== src/Users/Blocking.antt =====
-- What a block does to both users (internal/repository/postgres/user_repository.go).
use auction_server.Prelude.{
  ◌≡◌, refl, true, false, List, [], ◌∷◌, ◌++◌, some, arith, inl, inr, Bool-cases, Option-cases,
}
use auction_server.Prelude.Int.{ℤ}
use auction_server.Prelude.Text.{Text, text_eq_self, trim_space, trim_space_idem}
use auction_server.Postgres.{any_row, delete_rows}
use auction_server.Users.{Link, UserTables}
use auction_server.Users.Social.{
  is_link, insert_link, is_following, block, is_blocked, block_status,
}

any_row_last :
    (now : ℤ) (by of : Text) (links : List Link)
    → any_row (is_link by of) (links ++ record { by = by; of = of; created_at_ms = now } ∷ [])
      ≡ true
unfolding any_row is_link
any_row_last now by of [] = ground (arith, text_eq_self by, text_eq_self of)
any_row_last now by of (l ∷ links) = ground (arith, any_row_last now by of links)

insert_link_present :
    (now : ℤ) (by of : Text) (t : UserTables) (links : List Link) {after : List Link}
    → insert_link now by of t links ≡ some after
    → any_row (is_link by of) after ≡ true
unfolding insert_link
insert_link_present now by of t links h = elim (Bool-cases (any_row (is_link by of) links)) [
  | inl old ↦ ground arith
  | inr new ↦ ground (arith, any_row_last now by of links)
]

gone :
    (by of : Text) (links : List Link)
    → any_row (is_link by of) (delete_rows (is_link by of) links) ≡ false
unfolding any_row delete_rows
gone by of [] = refl
gone by of (l ∷ links) = ground (arith, gone by of links)

still_gone :
    (by of by' of' : Text) (links : List Link)
    → any_row (is_link by of) links ≡ false
    → any_row (is_link by of) (delete_rows (is_link by' of') links) ≡ false
unfolding any_row delete_rows
still_gone by of by' of' [] h = refl
still_gone by of by' of' (l ∷ links) h = ground (arith, still_gone by of by' of' links)

-- What is left between two users of whom one has blocked the other.
pub record AreApart (x y : Text) (t : UserTables) : Type 0 where
  pub no_chat : (block_status x y t).can_chat ≡ false
  pub no_chat_back : (block_status y x t).can_chat ≡ false
  pub no_follow : is_following x y t ≡ false
  pub no_follow_back : is_following y x t ≡ false

block_stored :
    (now : ℤ) (x y : Text) (t : UserTables)
    → (block now x y t).0 ≡ true
    → (links : List Link) × (insert_link now (trim_space x) (trim_space y) t t.blocks ≡ some links)
      × (block now x y t ≡ (
        true,
        record t {
          blocks = links;
          follows =
              delete_rows
                (is_link (trim_space y) (trim_space x))
                (delete_rows (is_link (trim_space x) (trim_space y)) t.follows);
        },
      ))
unfolding block
block_stored now x y t h =
    elim (Option-cases (insert_link now (trim_space x) (trim_space y) t t.blocks)) [
      | inl none' ↦ absurd (ground arith)
      | inr (links, stored) ↦ (links, stored, ground arith)
    ]

apart_of_tables :
    (x y : Text) (t : UserTables)
    → any_row (is_link (trim_space x) (trim_space y)) t.blocks ≡ true
    → any_row (is_link (trim_space x) (trim_space y)) t.follows ≡ false
    → any_row (is_link (trim_space y) (trim_space x)) t.follows ≡ false
    → AreApart x y t
apart_of_tables x y t blocked h k =
    let stands : is_blocked (trim_space x) (trim_space y) t ≡ true =
      unfold is_blocked in rw (trim_space_idem x, trim_space_idem y) blocked in
    record {
      no_chat = unfold block_status in ground (arith, stands);
      no_chat_back = unfold block_status in ground (arith, stands);
      no_follow = unfold is_following in h;
      no_follow_back = unfold is_following in k;
    }

-- After a block that succeeds the block is stored, neither user can chat with the other, and
-- neither follows the other.
pub block-AreApart :
    (now : ℤ) (x y : Text) (t : UserTables)
    → (block now x y t).0 ≡ true
    → AreApart x y (block now x y t).1
block-AreApart now x y t h =
    let (links, stored, done) = block_stored now x y t h in
    let by = trim_space x in
    let of = trim_space y in
    rw done (
      apart_of_tables x y _ (insert_link_present now by of t t.blocks stored)
        (still_gone by of of by (delete_rows (is_link by of) t.follows) (gone by of t.follows))
        (gone of by (delete_rows (is_link by of) t.follows)))
