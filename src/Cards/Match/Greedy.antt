-- ===== src/Cards/Match/Greedy.antt =====
-- The two loops that `diffStatementLines` and `pairProbable` share: a stable sort of the candidate
-- pairs, and taking those whose line and entry are both free.
pub mod Once
pub mod Sorted
pub mod Cover
use finnri_api.Base.{ℕ, ◌==◌, Bool, ◌||◌, List, [], ◌∷◌, any_of, if◌then◌else◌}

-- The places of the lines and of the entries that are taken.
pub record Used : Type 0 where
  pub lines : List ℕ
  pub entries : List ℕ

abbrev pub has : List ℕ → ℕ → Bool
has taken i = any_of (λ j. j == i) taken

module _ {C : Type 0} where
  -- `sort.SliceStable`
  place : (C → C → Bool) → C → List C → List C
  place less c [] = c ∷ []
  place less c (q ∷ rest) =
      let later = q ∷ place less c rest in if less q c then later else c ∷ q ∷ rest

  unfoldable pub sort_stable : (C → C → Bool) → List C → List C
  unfolding place
  sort_stable less [] = []
  sort_stable less (c ∷ cs) = place less c (sort_stable less cs)

  abbrev pub take_pair : (C → ℕ) → (C → ℕ) → C → Used → Used
  take_pair line entry c used = record {
    lines = line c ∷ used.lines;
    entries = entry c ∷ used.entries;
  }

  -- The pairs taken, and the places taken after them.
  unfoldable pub pick : (C → ℕ) → (C → ℕ) → List C → Used → List C × Used
  pick line entry [] used = ([], used)
  pick line entry (c ∷ cs) used =
      let skipped = pick line entry cs used in
      let taken : List C × Used =
        let rest = pick line entry cs (take_pair line entry c used) in (c ∷ rest.0, rest.1) in
      if has used.lines (line c) || has used.entries (entry c) then skipped else taken
