-- ===== src/Cards/Match/Sound.antt =====
-- What is paired may be paired.
use finnri_api.Base.{
  ℕ, ◌≡◌, refl, Bool, true, false, not, ◌||◌, Option, none, some, List, [], ◌∷◌, Bool-cases, inl,
  inr, All, ◌⊎◌, ◌+◌, ◌-◌, ◌≤◌, ◌<◌, String, leb, leb→le, ltb, ltb→lt, ◌==◌, ==_iff, ◌&&◌,
  if◌then◌else◌, Option-cases, arith,
}
use finnri_api.Base.Int64.{sub64, le64}
use finnri_api.Base.Members.{Has, All-concat_map, indexed, concat_map}
use finnri_api.Money.{Money}
use finnri_api.Cards.Match.Text.{
  is_credit, is_income, parse_api_date, day_gap, Strings, StatementLine, LedgerLine,
}
use finnri_api.Cards.Match.Greedy.{Used, has, sort_stable}
use finnri_api.Cards.Match.Greedy.Once.{All-pick}
use finnri_api.Cards.Match.Greedy.Sorted.{All-sort_stable}
use finnri_api.Cards.Match.{
  at_most, abs_money, similarity_of, Candidate, KindLine, Reason, same_amount, same_date,
  pick_pairs, matchable_lines, candidate, gap_of, gap_or_zero, is_strict, same_direction,
  probable_reason, strict_candidate, strict_candidates, strict_less, probable_candidate,
  probable_candidates, probable_less, pair_strict, pair_probable, diff_statement_lines,
}

direction_of : (a b d : Bool) → (a || b || not d) ≡ false → d ≡ true
direction_of a b true h = refl
direction_of true b false h = cc
direction_of false true false h = cc
direction_of false false false h = cc

reason_cases :
    (same near small close shared forex : Bool) (r : Reason)
    → ◌≡◌ {A = Option Reason}
        (if same && near
          then some same_amount
          else if close && small
          then some same_date
          else if close && shared && forex
          then some same_date
          else none)
        (some r)
    → ((same ≡ true) × (near ≡ true))
      ⊎ ((close ≡ true) × ((small ≡ true) ⊎ ((shared ≡ true) × (forex ≡ true))))
reason_cases same near small close shared forex r h = ground arith

module _ (st : Strings) (within_forex : Money → Money → Bool) where
  -- Two dates that are read, at most n days from each other.
  abbrev pub IsWithin : String → String → ℕ → Type 0
  IsWithin a b n =
      (p : ℕ) × (q : ℕ) × (parse_api_date st a ≡ some p)
      × (parse_api_date st b ≡ some q)
      × (p ≤ q + n)
      × (q ≤ p + n)

  -- The line and the entry of a pair are those at its places.
  abbrev pub IsPlaced : List KindLine → List LedgerLine → Candidate → Type 0
  IsPlaced lines entries c =
      Has (c.line_index, c.line) (indexed 0 lines)
      × Has (c.entry_index, c.entry) (indexed 0 entries)

  -- What a pair of the strict pass has in common, and one of the second.
  abbrev pub IsStrict : Candidate → Type 0
  IsStrict c =
      (c.line.line.amount ≡ c.entry.amount)
      × (is_credit st c.line.line ≡ is_income st c.entry)
      × IsWithin c.line.line.date c.entry.date 3

  abbrev pub IsProbable : Candidate → Type 0
  IsProbable c =
      let difference = sub64 c.line.line.amount c.entry.amount in
      (is_credit st c.line.line ≡ is_income st c.entry)
      × (((difference ≡ 0) × IsWithin c.line.line.date c.entry.date 10)
          ⊎ (IsWithin c.line.line.date c.entry.date 3
              × ((le64 (abs_money difference) 100 ≡ true)
                  ⊎ ((0 < (similarity_of st within_forex c.line c.entry).shared)
                      × (within_forex (abs_money difference) c.line.line.amount ≡ true)))))

  days_are_close :
      (a b : String) (n : ℕ) → at_most st within_forex (day_gap st a b) n ≡ true → IsWithin a b n
  unfolding day_gap
  days_are_close a b n h = elim (Option-cases (parse_api_date st a)) [
    | inl e ↦ absurd (cc (rw e at h))
    | inr (p, e) ↦ elim (Option-cases (parse_api_date st b)) [
      | inl f ↦ absurd (cc (rw (e, f) at h))
      | inr (q, f) ↦
          let near : leb (p - q + (q - p)) n ≡ true = rw (e, f) at h in
          (p, q, e, f, omega (arith, leb→le _ _ near), omega (arith, leb→le _ _ near))
    ]
  ]

  same_way :
      (l : KindLine) (e : LedgerLine)
      → same_direction st within_forex l e ≡ true
      → is_credit st l.line ≡ is_income st e
  unfolding same_direction
  same_way l e h = ground arith

  strict_means :
      (l : KindLine) (e : LedgerLine)
      → is_strict st within_forex l e ≡ true
      → (l.line.amount ≡ e.amount)
        × (is_credit st l.line ≡ is_income st e)
        × IsWithin l.line.date e.date 3
  unfolding is_strict gap_of
  strict_means l e h = (
    ground arith,
    same_way l e (ground arith),
    days_are_close l.line.date e.date 3 (ground arith),
  )

  strict_candidate-IsStrict :
      (lines : List KindLine) (entries : List LedgerLine) (l : ℕ × KindLine) (e : ℕ × LedgerLine)
      → Has l (indexed 0 lines)
      → Has e (indexed 0 entries)
      → All (λ c. IsPlaced lines entries c × IsStrict c) (strict_candidate st within_forex l e)
  unfolding strict_candidate
  strict_candidate-IsStrict lines entries (i, l) (j, e) k k' =
      elim (Bool-cases (is_strict st within_forex l e)) [
        | inl good ↦ rw good (((k, k'), strict_means l e good), tt)
        | inr bad ↦ rw bad tt
      ]

  probable_means :
      (l : KindLine) (e : LedgerLine) (r : Reason)
      → probable_reason st within_forex l e ≡ some r
      → let difference = sub64 l.line.amount e.amount in
        ((difference ≡ 0) × IsWithin l.line.date e.date 10)
        ⊎ (IsWithin l.line.date e.date 3
            × ((le64 (abs_money difference) 100 ≡ true)
                ⊎ ((0 < (similarity_of st within_forex l e).shared)
                    × (within_forex (abs_money difference) l.line.amount ≡ true))))
  unfolding probable_reason gap_of
  probable_means l e r h =
      let difference = sub64 l.line.amount e.amount in
      let shared = (similarity_of st within_forex l e).shared in
      let days = day_gap st l.line.date e.date in
      elim (reason_cases (difference == 0) (at_most st within_forex days 10)
        (le64 (abs_money difference) 100) (at_most st within_forex days 3) (ltb 0 shared)
        (within_forex (abs_money difference) l.line.amount) r h) [
          | inl (same, near) ↦ inl ((==_iff _ _).0 same, days_are_close l.line.date e.date 10 near)
          | inr (close, inl small) ↦ inr (days_are_close l.line.date e.date 3 close, inl small)
          | inr (close, inr (some_shared, forex)) ↦
              inr (days_are_close l.line.date e.date 3 close, inr (ltb→lt _ _ some_shared, forex))
        ]

  probable_candidate-IsProbable :
      (lines : List KindLine) (entries : List LedgerLine) (used : Used) (l : ℕ × KindLine)
      (e : ℕ × LedgerLine)
      → Has l (indexed 0 lines)
      → Has e (indexed 0 entries)
      → All
          (λ c. IsPlaced lines entries c × IsProbable c)
          (probable_candidate st within_forex used l e)
  unfolding probable_candidate
  probable_candidate-IsProbable lines entries used (i, l) (j, e) k k' =
      elim (Bool-cases
        (has used.lines i || has used.entries j || not (same_direction st within_forex l e))) [
          | inl bad ↦ rw bad tt
          | inr free ↦ rw free (
              go (direction_of (has used.lines i) (has used.entries j) _ free)
                (probable_reason st within_forex l e) refl)
        ]
    where
      go :
          same_direction st within_forex l e ≡ true
          → (r : Option Reason) → probable_reason st within_forex l e ≡ r
          → All
              (λ c. IsPlaced lines entries c × IsProbable c)
              (elim r [
                | none ↦ []
                | some r ↦
                    candidate st within_forex
                      (i, l)
                      (j, e)
                      (gap_or_zero st within_forex (gap_of st within_forex l e))
                      (some r)
                    ∷ []
              ])
      go d none h = tt
      go d (some r) h = (((k, k'), (same_way l e d, probable_means l e r h)), tt)

  strict_candidates-IsStrict :
      (lines : List KindLine) (entries : List LedgerLine)
      → All
          (λ c. IsPlaced lines entries c × IsStrict c)
          (strict_candidates st within_forex lines entries)
  unfolding strict_candidates
  strict_candidates-IsStrict lines entries =
      All-concat_map (λ c. IsPlaced lines entries c × IsStrict c)
        (λ l. concat_map (λ e. strict_candidate st within_forex l e) (indexed 0 entries))
        (indexed 0 lines)
        λ l k.
          All-concat_map (λ c. IsPlaced lines entries c × IsStrict c)
            (λ e. strict_candidate st within_forex l e) (indexed 0 entries)
            λ e k'. strict_candidate-IsStrict lines entries l e k k'

  probable_candidates-IsProbable :
      (lines : List KindLine) (entries : List LedgerLine) (used : Used)
      → All
          (λ c. IsPlaced lines entries c × IsProbable c)
          (probable_candidates st within_forex lines entries used)
  unfolding probable_candidates
  probable_candidates-IsProbable lines entries used =
      All-concat_map (λ c. IsPlaced lines entries c × IsProbable c)
        (λ l. concat_map (λ e. probable_candidate st within_forex used l e) (indexed 0 entries))
        (indexed 0 lines)
        λ l k.
          All-concat_map (λ c. IsPlaced lines entries c × IsProbable c)
            (λ e. probable_candidate st within_forex used l e) (indexed 0 entries)
            λ e k'. probable_candidate-IsProbable lines entries used l e k k'

  picked :
      (P : Candidate → Type 0) (less : Candidate → Candidate → Bool) (cs : List Candidate)
      (used : Used)
      → All P cs
      → All P (pick_pairs st within_forex (sort_stable less cs) used).0
  picked P less cs used h =
      All-pick (λ c. c.line_index) (λ c. c.entry_index) P (sort_stable less cs) used
        (All-sort_stable less P cs h)

  -- Every pair consists of the line and the entry at its places, a line that is a credit goes with an entry
  -- that is an income and no other, and both dates can be read. In a matched pair the amounts are the
  -- same and the dates at most three days apart. In a probable pair either the amounts do not differ and the
  -- dates are at most ten days apart, or the dates are at most three days apart and the amounts differ
  -- by at most 1.00, or by what a foreign currency allows where the texts share a word.
  pub diff_statement_lines-IsSound :
      (lines : List StatementLine) (entries : List LedgerLine)
      → let diff = diff_statement_lines st within_forex lines entries in
        let matchable = matchable_lines st within_forex lines in
        All (λ c. IsPlaced matchable entries c × IsStrict c) diff.matched
        × All (λ c. IsPlaced matchable entries c × IsProbable c) diff.probable
  unfolding diff_statement_lines pair_strict pair_probable
  diff_statement_lines-IsSound lines entries =
      let matchable = matchable_lines st within_forex lines in
      let used = (pair_strict st within_forex matchable entries).1 in
      (
        picked (λ c. IsPlaced matchable entries c × IsStrict c) (strict_less st within_forex)
            (strict_candidates st within_forex matchable entries)
            (record { lines = []; entries = [] }) (strict_candidates-IsStrict matchable entries),
        picked (λ c. IsPlaced matchable entries c × IsProbable c) (probable_less st within_forex)
            (probable_candidates st within_forex matchable entries used) used
            (probable_candidates-IsProbable matchable entries used),
      )
