-- ===== src/Cards/Match/Greedy/Sorted.antt =====
-- The stable sort loses and adds nothing.
use finnri_api.Base.{refl, Bool, List, [], ◌∷◌, Bool-cases, inl, inr, All}
use finnri_api.Base.Members.{Has}
use finnri_api.Cards.Match.Greedy.{sort_stable, place}

module _ {C : Type 0} (less : C → C → Bool) where
  All-place : (P : C → Type 0) (c : C) (cs : List C) → P c → All P cs → All P (place less c cs)
  unfolding place
  All-place P c [] p h = (p, tt)
  All-place P c (q ∷ cs) p h = elim (Bool-cases (less q c)) [
    | inl e ↦ rw e (h.0, All-place P c cs p h.1)
    | inr e ↦ rw e (p, h)
  ]

  pub All-sort_stable : (P : C → Type 0) (cs : List C) → All P cs → All P (sort_stable less cs)
  unfolding sort_stable
  All-sort_stable P [] h = tt
  All-sort_stable P (c ∷ cs) h = All-place P c _ h.0 (All-sort_stable P cs h.1)

  Has-place_self : (c : C) (cs : List C) → Has c (place less c cs)
  unfolding place
  Has-place_self c [] = inl refl
  Has-place_self c (q ∷ cs) = elim (Bool-cases (less q c)) [
    | inl e ↦ rw e (inr (Has-place_self c cs))
    | inr e ↦ rw e (inl refl)
  ]

  Has-place : (x c : C) (cs : List C) → Has x cs → Has x (place less c cs)
  unfolding place
  Has-place x c [] k = elim k [ ]
  Has-place x c (q ∷ cs) (inl s) = elim (Bool-cases (less q c)) [
    | inl e ↦ rw e (inl s)
    | inr e ↦ rw e (inr (inl s))
  ]
  Has-place x c (q ∷ cs) (inr k) = elim (Bool-cases (less q c)) [
    | inl e ↦ rw e (inr (Has-place x c cs k))
    | inr e ↦ rw e (inr (inr k))
  ]

  pub Has-sort_stable : (x : C) (cs : List C) → Has x cs → Has x (sort_stable less cs)
  unfolding sort_stable
  Has-sort_stable x [] k = elim k [ ]
  Has-sort_stable x (c ∷ cs) (inl e) = rw e (Has-place_self c (sort_stable less cs))
  Has-sort_stable x (c ∷ cs) (inr k) = Has-place x c (sort_stable less cs) (Has-sort_stable x cs k)
