-- ===== src/Cards/Match/Greedy/Once.antt =====
-- The greedy loop takes each line and each entry at most once, and keeps what was taken.
use finnri_api.Base.{
  ℕ, suc, ◌+◌, ◌≡◌, ◌==◌, refl, arith, Bool, true, false, ◌||◌, List, [], ◌∷◌, if◌then◌else◌,
  Bool-cases, inl, inr, All,
}
use finnri_api.Base.Members.{times}
use finnri_api.Cards.Match.Greedy.{Used, has, pick, take_pair}

-- One if a place is taken.
abbrev pub taken : List ℕ → ℕ → ℕ
taken places i = if has places i then 1 else 0

-- A place that was free and is taken now is counted once.
count_step :
    (places : List ℕ) (k i n t : ℕ)
    → has places k ≡ false
    → n + taken (k ∷ places) i ≡ t
    → (if k == i then suc n else n) + taken places i ≡ t
count_step places k i n t free e = elim (Bool-cases (k == i)) [
  | inl same ↦ rw same (let f : has places i ≡ false = ground arith in rw f (ground arith))
  | inr other ↦ rw other (rw other at e)
]

or_false : (a b : Bool) → (a || b) ≡ false → (a ≡ false) × (b ≡ false)
or_false true b e = cc
or_false false b e = (refl, e)

module _ {C : Type 0} (line entry : C → ℕ) where
  -- For every place: the pairs taken there and the places taken before make up the places taken after.
  pub pick_once :
      (cs : List C) (used : Used) (i : ℕ)
      → (times line i (pick line entry cs used).0 + taken used.lines i
          ≡ taken (pick line entry cs used).1.lines i)
        × (times entry i (pick line entry cs used).0 + taken used.entries i
            ≡ taken (pick line entry cs used).1.entries i)
  unfolding pick
  pick_once [] used i = (omega arith, omega arith)
  pick_once (c ∷ cs) used i =
      elim (Bool-cases (has used.lines (line c) || has used.entries (entry c))) [
        | inl blocked ↦ rw blocked (pick_once cs used i)
        | inr free ↦
            let (f, g) = or_false (has used.lines (line c)) (has used.entries (entry c)) free in
            let (l, e) = pick_once cs (take_pair line entry c used) i in
            rw free (
              count_step used.lines (line c) i _ _ f l,
              count_step used.entries (entry c) i _ _ g e,
            )
      ]

  pub All-pick :
      (P : C → Type 0) (cs : List C) (used : Used) → All P cs → All P (pick line entry cs used).0
  unfolding pick
  All-pick P [] used h = tt
  All-pick P (c ∷ cs) used h =
      elim (Bool-cases (has used.lines (line c) || has used.entries (entry c))) [
        | inl blocked ↦ rw blocked (All-pick P cs used h.1)
        | inr free ↦ rw free (h.0, All-pick P cs (take_pair line entry c used) h.1)
      ]
