-- ===== src/Cards/Match/Greedy/Cover.antt =====
-- A candidate that the loop leaves has its line or its entry taken.
use finnri_api.Base.{ℕ, ◌+◌, ◌≡◌, ◌⊎◌, arith, true, ◌||◌, List, [], ◌∷◌, Bool-cases, inl, inr}
use finnri_api.Base.Members.{Has}
use finnri_api.Cards.Match.Greedy.{Used, has, pick, take_pair}
use finnri_api.Cards.Match.Greedy.Once.{taken, pick_once}

taken_grows :
    (n : ℕ) (before after : List ℕ) (i : ℕ)
    → n + taken before i ≡ taken after i
    → has before i ≡ true
    → has after i ≡ true
taken_grows n before after i e h = ground arith

module _ {C : Type 0} (line entry : C → ℕ) where
  -- What is taken stays taken.
  pub pick_grows :
      (cs : List C) (used : Used) (i : ℕ)
      → (has used.lines i ≡ true → has (pick line entry cs used).1.lines i ≡ true)
        × (has used.entries i ≡ true → has (pick line entry cs used).1.entries i ≡ true)
  pick_grows cs used i =
      let (l, e) = pick_once line entry cs used i in
      (taken_grows _ used.lines _ i l, taken_grows _ used.entries _ i e)

  abbrev pub IsCovered : Used → C → Type 0
  IsCovered used c = (has used.lines (line c) ≡ true) ⊎ (has used.entries (entry c) ≡ true)

  IsCovered-grows :
      (cs : List C) (used : Used) (c : C)
      → IsCovered used c
      → IsCovered (pick line entry cs used).1 c
  IsCovered-grows cs used c (inl h) = inl ((pick_grows cs used (line c)).0 h)
  IsCovered-grows cs used c (inr h) = inr ((pick_grows cs used (entry c)).1 h)

  blocked-IsCovered :
      (used : Used) (c : C)
      → (has used.lines (line c) || has used.entries (entry c)) ≡ true
      → IsCovered used c
  blocked-IsCovered used c h = elim (Bool-cases (has used.lines (line c))) [
    | inl e ↦ inl e
    | inr e ↦ inr (rw e at h)
  ]

  pub pick_covers :
      (cs : List C) (used : Used) (c : C) → Has c cs → IsCovered (pick line entry cs used).1 c
  unfolding pick
  pick_covers [] used c k = elim k [ ]
  pick_covers (d ∷ cs) used c k =
      elim (Bool-cases (has used.lines (line d) || has used.entries (entry d))) [
        | inl blocked ↦
            rw blocked (skip k (blocked-IsCovered used d blocked) (λ k. pick_covers cs used c k))
        | inr free ↦ rw free (take k (λ k. pick_covers cs (take_pair line entry d used) c k))
      ]
    where
      skip :
          (c ≡ d) ⊎ Has c cs
          → IsCovered used d
          → (Has c cs → IsCovered (pick line entry cs used).1 c)
          → IsCovered (pick line entry cs used).1 c
      skip (inl e) h rest = rw e (IsCovered-grows cs used d h)
      skip (inr k) h rest = rest k

      take :
          (c ≡ d) ⊎ Has c cs
          → (Has c cs → IsCovered (pick line entry cs (take_pair line entry d used)).1 c)
          → IsCovered (pick line entry cs (take_pair line entry d used)).1 c
      take (inl e) rest =
          rw e (IsCovered-grows cs (take_pair line entry d used) d (inl (ground arith)))
      take (inr k) rest = rest k
