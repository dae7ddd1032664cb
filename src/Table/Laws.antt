-- ===== src/Table/Laws.antt =====
-- What a table's statements do to the row under a key.
use finnri_api.Base.{
  ℕ, ◌≤◌, ◌==◌, ==_iff, ◌≡◌, ◌≢◌, refl, sym, ◌⊎◌, ◌∙◌, Bool, Bool-cases, inl, inr, if◌then◌else◌,
  none, some, List, [], ◌∷◌, ◌++◌, All, All-keep, All-map, arith,
}
use mathlib.Core.Option
use mathlib.Core.Option.{some-injective}
use finnri_api.Table.{Table, find_row, update_row, select, insert, update}

module _ {ℓ} {A : Type ℓ} where
  pub find_row-update_row_self :
      (id : ℕ) (f : A → A) (rows : List (ℕ × A))
      → find_row id (update_row id f rows) ≡ Option.map f (find_row id rows)
  unfolding find_row update_row
  find_row-update_row_self id f [] = refl
  find_row-update_row_self id f ((i, a) ∷ rows) = ground (arith, find_row-update_row_self id f rows)

  pub find_row-update_row_ne :
      (id j : ℕ) (f : A → A) (rows : List (ℕ × A))
      → id ≢ j
      → find_row j (update_row id f rows) ≡ find_row j rows
  unfolding find_row update_row
  find_row-update_row_ne id j f [] h = refl
  find_row-update_row_ne id j f ((i, a) ∷ rows) h =
      ground (arith, find_row-update_row_ne id j f rows h)

  -- A row that is found after an update was there before it.
  pub find_row-update_row_cases :
      (id j : ℕ) (f : A → A) (rows : List (ℕ × A)) {b : A}
      → find_row j (update_row id f rows) ≡ some b
      → ((a : A) × (find_row j rows ≡ some a) × (b ≡ f a)) ⊎ (find_row j rows ≡ some b)
  unfolding find_row update_row
  find_row-update_row_cases id j f [] h = inr h
  find_row-update_row_cases id j f ((i, a) ∷ rows) {b} h = elim (Bool-cases (i == id)) [
    | inl e ↦ elim (Bool-cases (i == j)) [
      | inl p ↦ inl (a, ground arith, sym (some-injective _ _ (ground arith)))
      | inr p ↦ inr (ground arith)
    ]
    | inr e ↦ elim (Bool-cases (i == j)) [
      | inl p ↦ inr (ground arith)
      | inr p ↦ rw p (find_row-update_row_cases id j f rows (ground arith))
    ]
  ]

  pub find_row-append :
      (j id : ℕ) (a : A) (rows : List (ℕ × A))
      → find_row id rows ≡ none
      → find_row j (rows ++ (id, a) ∷ []) ≡ (if id == j then some a else find_row j rows)
  unfolding find_row
  find_row-append j id a [] h = refl
  find_row-append j id a ((i, b) ∷ rows) h = ground (arith, find_row-append j id a rows)

  -- No two rows share a key.
  abbrev pub IsKeyed : List (ℕ × A) → Type ℓ
  IsKeyed [] = Unit
  IsKeyed ((i, a) ∷ rows) = (find_row i rows ≡ none) × IsKeyed rows

  -- The keys are distinct, and no key of the sequence to come is taken.
  pub record IsTable (t : Table A) : Type ℓ where
    pub keyed : IsKeyed t.rows
    pub fresh : (id : ℕ) → t.next_id ≤ id → find_row id t.rows ≡ none

  pub update_row-IsKeyed :
      (id : ℕ) (f : A → A) (rows : List (ℕ × A)) → IsKeyed rows → IsKeyed (update_row id f rows)
  unfolding update_row
  update_row-IsKeyed id f [] h = tt
  update_row-IsKeyed id f ((i, a) ∷ rows) h = elim (Bool-cases (i == id)) [
    | inl e ↦ rw e h
    | inr e ↦ rw e (
      find_row-update_row_ne id i f rows (λ p. ground (arith, p)) ∙ h.0,
      update_row-IsKeyed id f rows h.1,
    )
  ]

  pub append-IsKeyed :
      (id : ℕ) (a : A) (rows : List (ℕ × A))
      → find_row id rows ≡ none
      → IsKeyed rows
      → IsKeyed (rows ++ (id, a) ∷ [])
  unfolding find_row
  append-IsKeyed id a [] n h = (refl, tt)
  append-IsKeyed id a ((i, b) ∷ rows) n h =
      (ground (arith, find_row-append i id a rows), append-IsKeyed id a rows (ground arith) h.1)

  -- A row that a SELECT returned is the row under its key.
  abbrev pub Held : List (ℕ × A) → ℕ × A → Type ℓ
  Held rows r = find_row r.0 rows ≡ some r.1

  Held-cons :
      (i : ℕ) (a : A) (rows : List (ℕ × A)) (r : ℕ × A)
      → find_row i rows ≡ none
      → Held rows r
      → Held ((i, a) ∷ rows) r
  unfolding find_row
  Held-cons i a rows (j, b) n h = elim (Bool-cases (i == j)) [
    | inl e ↦ cc (n, h, (==_iff i j).0 e)
    | inr e ↦ rw e h
  ]

  pub IsKeyed-Held : (rows : List (ℕ × A)) → IsKeyed rows → All (Held rows) rows
  unfolding find_row
  IsKeyed-Held [] h = tt
  IsKeyed-Held ((i, a) ∷ rows) h = (
    ground arith,
    All-map (Held rows) (Held ((i, a) ∷ rows)) (λ r. Held-cons i a rows r h.0) rows
        (IsKeyed-Held rows h.1),
  )

  pub select-Held :
      (p : A → Bool) (rows : List (ℕ × A)) → IsKeyed rows → All (Held rows) (select p rows)
  unfolding select
  select-Held p rows h = All-keep (Held rows) (λ r. p r.1) rows (IsKeyed-Held rows h)

  pub insert-IsTable : (t : Table A) (a : A) → IsTable t → IsTable (insert t a)
  unfolding insert
  insert-IsTable t a h = record {
    keyed = append-IsKeyed t.next_id a t.rows (h.fresh t.next_id (omega arith)) h.keyed;
    fresh = λ id le. ground (
      arith,
      find_row-append id t.next_id a t.rows (h.fresh t.next_id (omega arith)),
      h.fresh id (omega arith),
    );
  }

  pub update-IsTable : (t : Table A) (id : ℕ) (f : A → A) → IsTable t → IsTable (update t id f)
  unfolding update
  update-IsTable t id f h = record {
    keyed = update_row-IsKeyed id f t.rows h.keyed;
    fresh = λ j le. elim (Bool-cases (id == j)) [
      | inl e ↦ rw (← (==_iff id j).0 e) (
          find_row-update_row_self id f t.rows
          ∙ rw (h.fresh id (ground (arith, (==_iff id j).0 e))) refl)
      | inr e ↦ find_row-update_row_ne id j f t.rows (ground arith) ∙ h.fresh j le
    ];
  }
