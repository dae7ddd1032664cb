-- ===== src/Table/Sums.antt =====
-- How sums over a table follow its updates.
use finnri_api.Base.{ℕ, ◌+◌, ◌≡◌, some, List, [], ◌∷◌, ◌++◌, arith}
use finnri_api.Table.{find_row, update_row, sum_rows}

module _ {ℓ} {A : Type ℓ} (w : A → ℕ) where
  pub sum_rows-update_row :
      (id : ℕ) (f : A → A) (rows : List (ℕ × A)) (a : A)
      → find_row id rows ≡ some a
      → sum_rows w (update_row id f rows) + w a ≡ sum_rows w rows + w (f a)
  unfolding find_row update_row sum_rows
  sum_rows-update_row id f [] a h = cc
  sum_rows-update_row id f ((i, b) ∷ rows) a h = ground (arith, sum_rows-update_row id f rows a)

  pub sum_rows-append :
      (id : ℕ) (a : A) (rows : List (ℕ × A))
      → sum_rows w (rows ++ (id, a) ∷ []) ≡ sum_rows w rows + w a
  unfolding sum_rows
  sum_rows-append id a [] = omega arith
  sum_rows-append id a ((i, b) ∷ rows) = omega (arith, sum_rows-append id a rows)
