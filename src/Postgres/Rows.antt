-- ===== src/Postgres/Rows.antt =====
-- What `SELECT` reads after the other statements on a table.
use auction_server.Prelude.{
  ◌≡◌, refl, Bool, true, false, List, [], ◌∷◌, ◌++◌, none, some, arith, inl, inr, Bool-cases,
  if◌then◌else◌,
}
use auction_server.Postgres.{any_row, select_row, update_rows, upsert_row, delete_rows}

module _ {ℓ} {Row : Type ℓ} (p : Row → Bool) where
  select_row-append :
      (rows : List Row) (row : Row)
      → any_row p rows ≡ false
      → p row ≡ true
      → select_row p (rows ++ row ∷ []) ≡ some row
  unfolding select_row any_row
  select_row-append [] row h k = rw k
  select_row-append (r ∷ rows) row h k = ground (arith, select_row-append rows row)

  select_row-update_rows :
      (rows : List Row) (row : Row)
      → any_row p rows ≡ true
      → p row ≡ true
      → select_row p (update_rows p (λ _. row) rows) ≡ some row
  unfolding select_row any_row update_rows
  select_row-update_rows [] row h k = cc
  select_row-update_rows (r ∷ rows) row h k = ground (arith, select_row-update_rows rows row)

  pub select_row-upsert_row :
      (rows : List Row) (row : Row) → p row ≡ true → select_row p (upsert_row p row rows) ≡ some row
  unfolding upsert_row
  select_row-upsert_row rows row k = elim (Bool-cases (any_row p rows)) [
    | inl old ↦ rw old (select_row-update_rows rows row old k)
    | inr new ↦ rw new (select_row-append rows row new k)
  ]

  pub select_row-delete_rows : (rows : List Row) → select_row p (delete_rows p rows) ≡ none
  unfolding select_row delete_rows
  select_row-delete_rows [] = refl
  select_row-delete_rows (r ∷ rows) = ground (arith, select_row-delete_rows rows)

  -- The rows of another key are left alone.
  module _ (q : Row → Bool) (apart : (r : Row) → p r ≡ true → q r ≡ false) where
    select_row-append_other :
        (rows : List Row) (row : Row)
        → q row ≡ false
        → select_row q (rows ++ row ∷ []) ≡ select_row q rows
    unfolding select_row
    select_row-append_other [] row k = rw k
    select_row-append_other (r ∷ rows) row k = ground (arith, select_row-append_other rows row k)

    select_row-update_rows_other :
        (rows : List Row) (row : Row)
        → q row ≡ false
        → select_row q (update_rows p (λ _. row) rows) ≡ select_row q rows
    unfolding select_row update_rows
    select_row-update_rows_other [] row k = refl
    select_row-update_rows_other (r ∷ rows) row k =
        ground (arith, select_row-update_rows_other rows row k, apart r)

    pub select_row-upsert_row_other :
        (rows : List Row) (row : Row)
        → q row ≡ false
        → select_row q (upsert_row p row rows) ≡ select_row q rows
    unfolding upsert_row
    select_row-upsert_row_other rows row k = elim (Bool-cases (any_row p rows)) [
      | inl old ↦ rw old (select_row-update_rows_other rows row k)
      | inr new ↦ rw new (select_row-append_other rows row k)
    ]

    pub select_row-delete_rows_other :
        (rows : List Row) → select_row q (delete_rows p rows) ≡ select_row q rows
    unfolding select_row delete_rows
    select_row-delete_rows_other [] = refl
    select_row-delete_rows_other (r ∷ rows) =
        ground (arith, select_row-delete_rows_other rows, apart r)

-- An update that leaves the clause of another `SELECT` alone.
pub select_row-update_rows_frame {ℓ} :
    {Row : Type ℓ} (p q : Row → Bool) (set : Row → Row) (rows : List Row)
    → ((r : Row) → q (set r) ≡ q r)
    → select_row q (update_rows p set rows)
      ≡ (elim (select_row q rows) [ none ↦ none | some r ↦ some (if p r then set r else r) ])
unfolding select_row update_rows
select_row-update_rows_frame p q set [] h = refl
select_row-update_rows_frame p q set (r ∷ rows) h =
    ground (arith, select_row-update_rows_frame p q set rows h, h r)
