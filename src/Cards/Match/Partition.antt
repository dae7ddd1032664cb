-- ===== src/Cards/Match/Partition.antt =====
-- The comparison accounts for each line and each entry once.
use finnri_api.Base.{ℕ, ◌+◌, ◌≡◌, ◌≤◌, ◌<◌, arith, Bool, not, List, [], if◌then◌else◌, length}
use finnri_api.Base.Members.{
  times, indexed, times-keep, times-keep_le, times-indexed, times-indexed_le,
}
use finnri_api.Money.{Money}
use finnri_api.Cards.Match.Text.{Strings, StatementLine, LedgerLine}
use finnri_api.Cards.Match.Greedy.{Used, has, sort_stable}
use finnri_api.Cards.Match.Greedy.Once.{taken, pick_once}
use finnri_api.Cards.Match.{
  Candidate, KindLine, matchable_lines, strict_candidates, strict_less, probable_candidates,
  probable_less, pair_strict, pair_probable, diff_statement_lines,
}

-- Both passes at one place of the lines, and of the entries.
module _ (st : Strings) (within_forex : Money → Money → Bool) (matchable : List KindLine)
    (entries : List LedgerLine) where
  abbrev strict : List Candidate × Used
  strict = pair_strict st within_forex matchable entries

  abbrev loose : List Candidate × Used
  loose = pair_probable st within_forex matchable entries strict.1

  both_once :
      (i : ℕ)
      → (times (λ c. c.line_index) i strict.0 + times (λ c. c.line_index) i loose.0
          ≡ taken loose.1.lines i)
        × (times (λ c. c.entry_index) i strict.0 + times (λ c. c.entry_index) i loose.0
            ≡ taken loose.1.entries i)
  unfolding pair_strict pair_probable
  both_once i =
      let (a, b) =
        pick_once (λ c. c.line_index) (λ c. c.entry_index)
          (sort_stable (strict_less st within_forex)
            (strict_candidates st within_forex matchable entries))
          (record { lines = []; entries = [] }) i in
      let (c, d) =
        pick_once (λ c. c.line_index) (λ c. c.entry_index)
          (sort_stable (probable_less st within_forex)
            (probable_candidates st within_forex matchable entries strict.1))
          strict.1 i in
      (omega (arith, a, c), omega (arith, b, d))

one_or_none : (b : Bool) (n : ℕ) → n ≡ (if b then 1 else 0) → n + (if not b then 1 else 0) ≡ 1
one_or_none b n e = ground arith

at_most_one :
    (b : Bool) (n extra all : ℕ)
    → n ≡ (if b then 1 else 0)
    → extra ≤ (if not b then all else 0)
    → all ≤ 1
    → n + extra ≤ 1
at_most_one b n extra all e h k = ground arith

-- In the comparison of a statement with the ledger, each line that is not a payment is matched,
-- probable or missing, exactly once, and each entry is matched, probable or extra at most once.
pub diff_statement_lines_once :
    (st : Strings) (within_forex : Money → Money → Bool) (lines : List StatementLine)
    (entries : List LedgerLine) (i j : ℕ)
    → i < length (matchable_lines st within_forex lines)
    → let diff = diff_statement_lines st within_forex lines entries in
      (times (λ c. c.line_index) i diff.matched
          + times (λ c. c.line_index) i diff.probable
          + times (λ l. l.0) i diff.missing
        ≡ 1)
      × (times (λ c. c.entry_index) j diff.matched
            + times (λ c. c.entry_index) j diff.probable
            + times (λ e. e.0) j diff.extra
          ≤ 1)
unfolding diff_statement_lines
diff_statement_lines_once st within_forex lines entries i j h = (
  rw
      (
        times-keep (λ k. not (has used.lines k)) i (indexed 0 matchable),
        times-indexed 0 i matchable (omega arith) (omega (arith, h)),
      )
      (one_or_none (has used.lines i) _ (both_once st within_forex matchable entries i).0),
  at_most_one (has used.entries j) _ _ _ (both_once st within_forex matchable entries j).1
      (times-keep_le (λ k. not (has used.entries k)) (λ e. not e.1.outside_cycle) j
        (indexed 0 entries))
      (times-indexed_le 0 j entries),
)
  where
    matchable : List KindLine
    matchable = matchable_lines st within_forex lines

    used : Used
    used = (loose st within_forex matchable entries).1
