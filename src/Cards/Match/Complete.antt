-- ===== src/Cards/Match/Complete.antt =====
-- Nothing that may be paired is left over.
use finnri_api.Base.{
  ℕ, ◌≡◌, ◌∙◌, sym, refl, Bool, true, false, not, ◌&&◌, Option, none, some, List, [], Bool-cases,
  ◌⊎◌, inl, inr,
}
use finnri_api.Base.Members.{Has, Has-keep, Has-concat_map, indexed, concat_map}
use finnri_api.Money.{Money}
use finnri_api.Cards.Match.Text.{Strings, StatementLine, LedgerLine}
use finnri_api.Cards.Match.Greedy.{Used, has, sort_stable}
use finnri_api.Cards.Match.Greedy.Sorted.{Has-sort_stable}
use finnri_api.Cards.Match.Greedy.Cover.{IsCovered, pick_grows, pick_covers}
use finnri_api.Cards.Match.{
  Candidate, KindLine, Reason, pick_pairs, matchable_lines, candidate, gap_of, gap_or_zero,
  is_strict, same_direction, probable_reason, strict_candidate, strict_candidates, strict_less,
  probable_candidate, probable_candidates, probable_less, pair_strict, pair_probable,
  diff_statement_lines,
}

not-true : (b : Bool) → not b ≡ true → b ≡ false
not-true true h = cc
not-true false h = refl

and_first : (a b : Bool) → (a && b) ≡ true → a ≡ true
and_first true b h = refl
and_first false b h = cc

module _ (st : Strings) (within_forex : Money → Money → Bool) where
  -- A place that neither pass has taken.
  abbrev Free : Used → ℕ → ℕ → Type 0
  Free used i j = (has used.lines i ≡ false) × (has used.entries j ≡ false)

  covered-Free :
      (used : Used) (c : Candidate)
      → Free used c.line_index c.entry_index
      → IsCovered (λ c. c.line_index) (λ c. c.entry_index) used c
      → ⊥
  covered-Free used c h (inl k) = let e = sym k ∙ h.0 in cc
  covered-Free used c h (inr k) = let e = sym k ∙ h.1 in cc

  -- A free place was free before the second pass.
  Free-before :
      (cs : List Candidate) (used : Used) (i j : ℕ)
      → Free (pick_pairs st within_forex cs used).1 i j
      → Free used i j
  Free-before cs used i j h = (back (has used.lines i) refl, back' (has used.entries j) refl)
    where
      grown :
          (k : ℕ)
          → (has used.lines k ≡ true → has (pick_pairs st within_forex cs used).1.lines k ≡ true)
            × (has used.entries k ≡ true
                → has (pick_pairs st within_forex cs used).1.entries k ≡ true)
      grown k = pick_grows (λ c. c.line_index) (λ c. c.entry_index) cs used k

      back : (b : Bool) → has used.lines i ≡ b → b ≡ false
      back true e = let f = sym ((grown i).0 e) ∙ h.0 in cc
      back false e = refl

      back' : (b : Bool) → has used.entries j ≡ b → b ≡ false
      back' true e = let f = sym ((grown j).1 e) ∙ h.1 in cc
      back' false e = refl

  module _ (matchable : List KindLine) (entries : List LedgerLine) (i j : ℕ) (l : KindLine)
      (e : LedgerLine) (here : Has (i, l) (indexed 0 matchable))
      (there : Has (j, e) (indexed 0 entries)) where
    pair : Option Reason → Candidate
    pair r =
        candidate st within_forex (i, l) (j, e)
          (gap_or_zero st within_forex (gap_of st within_forex l e)) r

    -- A candidate for the pair would have been taken, or blocked.
    no_candidate :
        (less : Candidate → Candidate → Bool) (f : ℕ × KindLine → ℕ × LedgerLine → List Candidate)
        (used : Used) (r : Option Reason)
        → Has (pair r) (f (i, l) (j, e))
        → Free
            (pick_pairs st within_forex
              (sort_stable less (
                concat_map
                  (λ l. concat_map (λ e. f l e) (indexed 0 entries))
                  (indexed 0 matchable)))
              used).1
            i
            j
        → ⊥
    unfolding pair
    no_candidate less f used r k free = covered-Free _ (pair r) free (
        pick_covers (λ c. c.line_index) (λ c. c.entry_index) (sort_stable less all) used (pair r)
          (Has-sort_stable less (pair r) all found))
      where
        all : List Candidate
        all = concat_map (λ l. concat_map (λ e. f l e) (indexed 0 entries)) (indexed 0 matchable)

        found : Has (pair r) all
        found =
            Has-concat_map (λ l. concat_map (λ e. f l e) (indexed 0 entries)) (i, l) (pair r)
              (indexed 0 matchable) here
              (Has-concat_map (λ e. f (i, l) e) (j, e) (pair r) (indexed 0 entries) there k)

    strict_left :
        Free (pair_strict st within_forex matchable entries).1 i j
        → is_strict st within_forex l e ≡ false
    unfolding pair_strict strict_candidates strict_candidate pair
    strict_left h = go (is_strict st within_forex l e) refl
      where
        go : (b : Bool) → is_strict st within_forex l e ≡ b → b ≡ false
        go false _ = refl
        go true s = absurd (
            no_candidate (strict_less st within_forex) (strict_candidate st within_forex)
              (record { lines = []; entries = [] }) none (rw s (inl refl)) h)

    probable_left :
        (used : Used)
        → Free used i j
        → Free (pair_probable st within_forex matchable entries used).1 i j
        → same_direction st within_forex l e ≡ true
        → probable_reason st within_forex l e ≡ none
    unfolding pair_probable probable_candidates probable_candidate pair
    probable_left used f h d = go (probable_reason st within_forex l e) refl
      where
        go : (r : Option Reason) → probable_reason st within_forex l e ≡ r → r ≡ none
        go none _ = refl
        go (some r) s = absurd (
            no_candidate (probable_less st within_forex) (probable_candidate st within_forex used)
              used (some r) (rw (f.0, f.1, d, s) (inl refl)) h)

  -- For a line that is missing and an entry that is extra: the strict rules do not pair them, and either one
  -- is a debit and the other a credit, or there is no reason to call them probably the same.
  pub diff_statement_lines_complete :
      (lines : List StatementLine) (entries : List LedgerLine) (i j : ℕ) (l : KindLine)
      (e : LedgerLine)
      → Has (i, l) (diff_statement_lines st within_forex lines entries).missing
      → Has (j, e) (diff_statement_lines st within_forex lines entries).extra
      → (is_strict st within_forex l e ≡ false)
        × ((same_direction st within_forex l e ≡ false)
            ⊎ (probable_reason st within_forex l e ≡ none))
  unfolding diff_statement_lines
  diff_statement_lines_complete lines entries i j l e m x =
      let (here, lone) = Has-keep (λ r. not (has after.lines r.0)) (i, l) (indexed 0 matchable) m in
      let (there, left) =
        Has-keep (λ r. not (has after.entries r.0) && not r.1.outside_cycle) (j, e)
          (indexed 0 entries) x in
      let free : Free after i j = (
        not-true _ lone,
        not-true (has after.entries j) (and_first (not (has after.entries j)) _ left),
      ) in
      let before =
        Free-before
          (sort_stable (probable_less st within_forex)
            (probable_candidates st within_forex matchable entries used))
          used i j free in
      (
        strict_left matchable entries i j l e here there before,
        elim (Bool-cases (same_direction st within_forex l e)) [
          | inl d ↦ inr (probable_left matchable entries i j l e here there used before free d)
          | inr d ↦ inl d
        ],
      )
    where
      matchable : List KindLine
      matchable = matchable_lines st within_forex lines

      used : Used
      used = (pair_strict st within_forex matchable entries).1

      after : Used
      after = (pair_probable st within_forex matchable entries used).1
