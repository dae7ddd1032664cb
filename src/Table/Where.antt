-- ===== src/Table/Where.antt =====
-- What UPDATE ... WHERE leaves of a table's keys and of the first row that passes a test.
use finnri_api.Base.{
  ℕ, ◌≡◌, refl, ap, ◌∙◌, Bool, false, Bool-cases, inl, inr, none, some, List, [], ◌∷◌, arith,
  if◌then◌else◌,
}
use mathlib.Core.Option.{some-injective}
use finnri_api.Table.{Table, find_row, first_row, update_where}
use finnri_api.Table.Laws.{IsTable, IsKeyed}

module _ {ℓ} {A : Type ℓ} (q : A → Bool) (f : A → A) where
  no_row_appears :
      (i : ℕ) (rows : List (ℕ × A))
      → find_row i rows ≡ none
      → find_row i (update_where q f rows) ≡ none
  unfolding find_row update_where
  no_row_appears i [] h = refl
  no_row_appears i ((j, a) ∷ rows) h = ground (arith, no_row_appears i rows)

  update_where-IsKeyed : (rows : List (ℕ × A)) → IsKeyed rows → IsKeyed (update_where q f rows)
  unfolding update_where
  update_where-IsKeyed [] h = tt
  update_where-IsKeyed ((j, a) ∷ rows) h =
      (no_row_appears j rows h.0, update_where-IsKeyed rows h.1)

  pub update_where-IsTable :
      (t : Table A) → IsTable t → IsTable (record t { rows = update_where q f t.rows })
  update_where-IsTable t h = record {
    keyed = update_where-IsKeyed t.rows h.keyed;
    fresh = λ id le. no_row_appears id t.rows (h.fresh id le);
  }

  -- A row that is not updated stays the first that passes where the others pass as before.
  pub first_row-update_where :
      (p : A → Bool) (i : ℕ) (a : A) (rows : List (ℕ × A))
      → ((b : A) → p (if q b then f b else b) ≡ p b)
      → q a ≡ false
      → first_row p rows ≡ some (i, a)
      → first_row p (update_where q f rows) ≡ some (i, a)
  unfolding first_row update_where
  first_row-update_where p i a [] same left h = absurd (cc h)
  first_row-update_where p i a ((j, b) ∷ rows) same left h = elim (Bool-cases (p b)) [
    | inl e ↦
        let here : (j, b) ≡ (i, a) = some-injective _ _ (rw e refl ∙ h) in
        let kept : q b ≡ false = ap (λ r. q r.1) here ∙ left in rw (kept, e) (ap some here)
    | inr e ↦
        let skipped : p (if q b then f b else b) ≡ false = same b ∙ e in
        rw skipped (first_row-update_where p i a rows same left (rw e refl ∙ h))
  ]
