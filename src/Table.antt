-- ===== src/Table.antt =====
-- A database table: rows under their primary keys, in the order of insertion. The statements that
-- the program sends (SELECT ... WHERE, UPDATE ... WHERE id, INSERT, SUM) are functions on the rows.
pub mod Laws
pub mod Sums
pub mod Search
pub mod Latest
pub mod Where
use finnri_api.Base.{
  ℕ, suc, ◌+◌, ◌==◌, ltb, Bool, if◌then◌else◌, Option, none, some, List, [], ◌∷◌, ◌++◌, keep,
}

pub record Table {ℓ} (A : Type ℓ) : Type ℓ where
  pub rows : List (ℕ × A)
  pub next_id : ℕ

module _ {ℓ} {A : Type ℓ} where
  -- SELECT ... WHERE id = ?
  unfoldable pub find_row : ℕ → List (ℕ × A) → Option A
  find_row id [] = none
  find_row id ((i, a) ∷ rows) = if i == id then some a else find_row id rows

  -- UPDATE ... WHERE id = ?; a primary key names one row at most.
  unfoldable pub update_row : ℕ → (A → A) → List (ℕ × A) → List (ℕ × A)
  update_row id f [] = []
  update_row id f ((i, a) ∷ rows) =
      if i == id then (i, f a) ∷ rows else (i, a) ∷ update_row id f rows

  -- SELECT ... WHERE p LIMIT 1
  unfoldable pub first_row : (A → Bool) → List (ℕ × A) → Option (ℕ × A)
  first_row p [] = none
  first_row p ((i, a) ∷ rows) = if p a then some (i, a) else first_row p rows

  -- SELECT ... WHERE p
  unfoldable pub select : (A → Bool) → List (ℕ × A) → List (ℕ × A)
  select p = keep (λ r. p r.1)

  -- UPDATE ... WHERE p
  unfoldable pub update_where : (A → Bool) → (A → A) → List (ℕ × A) → List (ℕ × A)
  update_where p f [] = []
  update_where p f ((i, a) ∷ rows) = (i, if p a then f a else a) ∷ update_where p f rows

  -- DELETE ... WHERE id = ?
  unfoldable pub delete_row : ℕ → List (ℕ × A) → List (ℕ × A)
  delete_row id [] = []
  delete_row id ((i, a) ∷ rows) = if i == id then rows else (i, a) ∷ delete_row id rows

  -- SELECT ... WHERE p ORDER BY key DESC LIMIT 1; `First` breaks a tie by the primary key.
  unfoldable pub last_by : (A → Bool) → (A → ℕ) → List (ℕ × A) → Option (ℕ × A)
  last_by p key [] = none
  last_by p key ((i, a) ∷ rows) =
      let rest = last_by p key rows in
      let best : Option (ℕ × A) = elim rest [
        | none ↦ some (i, a)
        | some (j, b) ↦ if ltb (key a) (key b) then some (j, b) else some (i, a)
      ] in
      if p a then best else rest

  -- SELECT COALESCE(SUM(w), 0)
  unfoldable pub sum_rows : (A → ℕ) → List (ℕ × A) → ℕ
  sum_rows w [] = 0
  sum_rows w ((i, a) ∷ rows) = w a + sum_rows w rows

  -- INSERT takes the next key of the sequence.
  unfoldable pub insert : Table A → A → Table A
  insert t a = record { rows = t.rows ++ (t.next_id, a) ∷ []; next_id = suc t.next_id }

  unfoldable pub update : Table A → ℕ → (A → A) → Table A
  update t id f = record t { rows = update_row id f t.rows }
