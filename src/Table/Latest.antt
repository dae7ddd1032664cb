-- ===== src/Table/Latest.antt =====
-- What `ORDER BY key DESC LIMIT 1` finds.
use finnri_api.Base.{
  ℕ, ◌≡◌, ◌≤◌, ltb, ltb→lt, Bool-cases, inl, inr, refl, Bool, true, false, Option, none, some, List,
  [], ◌∷◌, if◌then◌else◌, All, All-map, All-keep_of, arith,
}
use finnri_api.Base.Members.{Has}
use finnri_api.Table.{last_by, select}

module _ {A : Type 0} where
  -- No row passes the test, or the row found is in the table, passes it, and has no smaller key than
  -- any row that does.
  abbrev pub IsLatest : (A → Bool) → (A → ℕ) → List (ℕ × A) → Option (ℕ × A) → Type 0
  IsLatest p key rows none = All (λ r. p r.1 ≡ false) rows
  IsLatest p key rows (some r) =
      Has r rows × (p r.1 ≡ true) × All (λ q. p q.1 ≡ true → key q.1 ≤ key r.1) rows

  -- One row in front of those looked through.
  abbrev better : (A → ℕ) → ℕ × A → Option (ℕ × A) → Option (ℕ × A)
  better key q none = some q
  better key q (some r) = if ltb (key q.1) (key r.1) then some r else some q

  chosen :
      (p : A → Bool) (key : A → ℕ) (q r : ℕ × A) (rows : List (ℕ × A)) (less : Bool)
      → ltb (key q.1) (key r.1) ≡ less
      → p q.1 ≡ true
      → IsLatest p key rows (some r)
      → IsLatest p key (q ∷ rows) (if less then some r else some q)
  chosen p key q r rows true l e h = (inr h.0, h.1, ((λ _. omega (arith, ltb→lt _ _ l)), h.2))
  chosen p key q r rows false l e h =
      let first : key r.1 ≤ key q.1 = ground arith in
      (
        inl refl,
        e,
        (
          (λ _. omega arith),
          All-map _ _ (λ x below pass. omega (arith, below pass, first)) rows h.2,
        ),
      )

  step :
      (p : A → Bool) (key : A → ℕ) (q : ℕ × A) (rows : List (ℕ × A)) (b : Bool)
      → p q.1 ≡ b
      → (best : Option (ℕ × A)) → IsLatest p key rows best
      → IsLatest p key (q ∷ rows) (if b then better key q best else best)
  step p key q rows false e none h = (e, h)
  step p key q rows false e (some r) h = (inr h.0, h.1, ((λ pass. cc), h.2))
  step p key q rows true e none h =
      (inl refl, e, ((λ _. omega arith), All-map _ _ (λ x fails pass. cc) rows h))
  step p key q rows true e (some r) h = chosen p key q r rows _ refl e h

  pub last_by-IsLatest :
      (p : A → Bool) (key : A → ℕ) (rows : List (ℕ × A)) → IsLatest p key rows (last_by p key rows)
  unfolding last_by
  last_by-IsLatest p key [] = tt
  last_by-IsLatest p key (q ∷ rows) = go (last_by p key rows) (last_by-IsLatest p key rows)
    where
      go :
          (best : Option (ℕ × A))
          → IsLatest p key rows best
          → IsLatest p key (q ∷ rows) (
              if p q.1
              then elim best [
                | none ↦ some q
                | some r ↦ if ltb (key q.1) (key r.1) then some r else some q
              ]
              else best)
      go none h = step p key q rows (p q.1) refl none h
      go (some r) h = step p key q rows (p q.1) refl (some r) h

  -- No row passes the test, or the row found is one that does, and none that does has a greater key.
  abbrev pub IsNewest : (A → Bool) → (A → ℕ) → List (ℕ × A) → Option (ℕ × A) → Type 0
  IsNewest p key rows none = select p rows ≡ []
  IsNewest p key rows (some r) =
      Has r (select p rows) × All (λ q. key q.1 ≤ key r.1) (select p rows)

  select_none :
      (p : A → Bool) (rows : List (ℕ × A)) → All (λ r. p r.1 ≡ false) rows → select p rows ≡ []
  unfolding select
  select_none p [] h = refl
  select_none p (r ∷ rows) h = rw (h.0) (select_none p rows h.1)

  Has-select :
      (p : A → Bool) (r : ℕ × A) (rows : List (ℕ × A))
      → Has r rows
      → p r.1 ≡ true
      → Has r (select p rows)
  unfolding select
  Has-select p r [] k h = elim k [ ]
  Has-select p r (q ∷ rows) (inl e) h = rw (let f : p q.1 ≡ true = rw (← e) h in f) (inl e)
  Has-select p r (q ∷ rows) (inr k) h = elim (Bool-cases (p q.1)) [
    | inl e ↦ rw e (inr (Has-select p r rows k h))
    | inr e ↦ rw e (Has-select p r rows k h)
  ]

  pub last_by-IsNewest :
      (p : A → Bool) (key : A → ℕ) (rows : List (ℕ × A)) → IsNewest p key rows (last_by p key rows)
  unfolding select
  last_by-IsNewest p key rows = go (last_by p key rows) (last_by-IsLatest p key rows)
    where
      go : (best : Option (ℕ × A)) → IsLatest p key rows best → IsNewest p key rows best
      go none h = select_none p rows h
      go (some r) h = (
        Has-select p r rows h.0 h.1,
        All-keep_of (λ q. p q.1 ≡ true → key q.1 ≤ key r.1) (λ q. key q.1 ≤ key r.1) (λ q. p q.1)
            (λ q pass f. f pass) rows h.2,
      )
