-- ===== src/Table/Search.antt =====
-- The first row that passes a test, after an insertion and after an update.
use finnri_api.Base.{
  ℕ, ◌≡◌, ◌==◌, ==_iff, refl, sym, ◌∙◌, ap, Bool, true, false, Bool-cases, inl, inr, none, some,
  List, [], ◌∷◌, ◌++◌, arith,
}
use mathlib.Core.Option.{some-injective}
use finnri_api.Table.{find_row, update_row, first_row}
use finnri_api.Table.Laws.{IsKeyed}

==-ne : (m j : ℕ) → ¬ (m ≡ j) → (m == j) ≡ false
==-ne m j other = elim (Bool-cases (m == j)) [
  | inl e ↦ absurd (other ((==_iff m j).0 e))
  | inr e ↦ e
]

module _ {ℓ} {A : Type ℓ} (p : A → Bool) where
  pub first_row-append :
      (id : ℕ) (a : A) (rows : List (ℕ × A))
      → first_row p rows ≡ none
      → p a ≡ true
      → first_row p (rows ++ (id, a) ∷ []) ≡ some (id, a)
  unfolding first_row
  first_row-append id a [] n h = rw h refl
  first_row-append id a ((j, b) ∷ rows) n h = ground (arith, first_row-append id a rows)

  -- The key of a row that was found is a key of the table.
  first_row-find_row :
      (i : ℕ) (a : A) (rows : List (ℕ × A))
      → first_row p rows ≡ some (i, a)
      → ¬ (find_row i rows ≡ none)
  unfolding first_row find_row
  first_row-find_row i a [] h = λ n. cc
  first_row-find_row i a ((j, b) ∷ rows) h = λ n. ground (arith, first_row-find_row i a rows)

  pub first_row-update_row :
      (i : ℕ) (a : A) (f : A → A) (rows : List (ℕ × A))
      → IsKeyed rows
      → first_row p rows ≡ some (i, a)
      → p (f a) ≡ true
      → first_row p (update_row i f rows) ≡ some (i, f a)
  unfolding first_row update_row
  first_row-update_row i a f [] k h e = cc
  first_row-update_row i a f ((j, b) ∷ rows) k h e = elim (Bool-cases (p b)) [
    | inl q ↦
        let here : (j, b) ≡ (i, a) = some-injective _ _ (rw q refl ∙ h) in
        let key : j ≡ i = ap (λ r. r.0) here in
        let row : b ≡ a = ap (λ r. r.1) here in rw (key, row) (rw ((==_iff i i).1 refl) (rw e refl))
    | inr q ↦
        let there : first_row p rows ≡ some (i, a) = rw q refl ∙ h in
        let differ : (j == i) ≡ false = ground (arith, first_row-find_row i a rows there, k.0) in
        rw (differ, q) (first_row-update_row i a f rows k.1 there e)
  ]

  -- A row that was found passes the test.
  pub first_row-holds :
      (i : ℕ) (a : A) (rows : List (ℕ × A)) → first_row p rows ≡ some (i, a) → p a ≡ true
  unfolding first_row
  first_row-holds i a [] h = absurd (cc h)
  first_row-holds i a ((j, b) ∷ rows) h = elim (Bool-cases (p b)) [
    | inl q ↦
        let here : (j, b) ≡ (i, a) = some-injective _ _ (rw q refl ∙ h) in
        let row : b ≡ a = ap (λ r. r.1) here in rw (← row) q
    | inr q ↦ first_row-holds i a rows (rw q refl ∙ h)
  ]

  -- A row that was found is the row under its key.
  pub first_row-Held :
      (i : ℕ) (a : A) (rows : List (ℕ × A))
      → IsKeyed rows
      → first_row p rows ≡ some (i, a)
      → find_row i rows ≡ some a
  unfolding first_row find_row
  first_row-Held i a [] k h = absurd (cc h)
  first_row-Held i a ((j, b) ∷ rows) k h = elim (Bool-cases (p b)) [
    | inl q ↦
        let here : (j, b) ≡ (i, a) = some-injective _ _ (rw q refl ∙ h) in
        let key : j ≡ i = ap (λ r. r.0) here in
        let row : b ≡ a = ap (λ r. r.1) here in rw (key, row) (rw ((==_iff i i).1 refl) refl)
    | inr q ↦
        let there : first_row p rows ≡ some (i, a) = rw q refl ∙ h in
        let differ : (j == i) ≡ false = ground (arith, first_row-find_row i a rows there, k.0) in
        rw differ (first_row-Held i a rows k.1 there)
  ]

  -- An update of another row that leaves the test as it was leaves the row that was found.
  pub first_row-update_other :
      (i j : ℕ) (a : A) (f : A → A) (rows : List (ℕ × A))
      → ((b : A) → p (f b) ≡ p b)
      → ¬ (j ≡ i)
      → first_row p rows ≡ some (i, a)
      → first_row p (update_row j f rows) ≡ some (i, a)
  unfolding first_row update_row
  first_row-update_other i j a f [] same other h = absurd (cc h)
  first_row-update_other i j a f ((m, b) ∷ rows) same other h = elim (Bool-cases (p b)) [
    | inl q ↦
        let here : (m, b) ≡ (i, a) = some-injective _ _ (rw q refl ∙ h) in
        let differ : (m == j) ≡ false = ==-ne m j (λ e. other (sym e ∙ ap (λ r. r.0) here)) in
        rw (differ, q) (ap some here)
    | inr q ↦
        let there : first_row p rows ≡ some (i, a) = rw q refl ∙ h in
        elim (Bool-cases (m == j)) [
          | inl e ↦ rw (e, same b, q) there
          | inr e ↦ rw (e, q) (first_row-update_other i j a f rows same other there)
        ]
  ]

  -- An insertion leaves the row that was found.
  pub first_row-append_found :
      (r : ℕ × A) (rows more : List (ℕ × A))
      → first_row p rows ≡ some r
      → first_row p (rows ++ more) ≡ some r
  unfolding first_row
  first_row-append_found r [] more h = absurd (cc h)
  first_row-append_found r ((m, b) ∷ rows) more h = elim (Bool-cases (p b)) [
    | inl q ↦ rw q (rw q refl ∙ h)
    | inr q ↦ rw q (first_row-append_found r rows more (rw q refl ∙ h))
  ]
