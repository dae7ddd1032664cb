-- ===== src/Cards/Match.antt =====
-- internal/http/card_statement_match.go: a statement's lines against the ledger's entries.
pub mod Text
pub mod Greedy
pub mod Partition
pub mod Sound
pub mod Complete
use finnri_api.Base.{
  ℕ, ◌+◌, ltb, leb, ◌==◌, Bool, true, false, not, ◌&&◌, ◌||◌, Option, none, some, List, [], ◌∷◌,
  ◌++◌, map, keep, length, if◌then◌else◌, append,
}
use finnri_api.Base.Int64.{add64, sub64, neg64, le64, lt64, is_negative}
use finnri_api.Base.Members.{concat_map, indexed}
use finnri_api.Money.{Money}
use finnri_api.Cards.Match.Text.{
  Strings, StatementLine, LedgerLine, LineKind, payment, fee, interest, Similarity, more_similar,
  is_credit, is_income, classify_line, day_gap, describe_similarity,
}
use finnri_api.Cards.Match.Greedy.{Used, has, sort_stable, pick}

-- A line with the kind that the code sets on it.
pub record KindLine : Type 0 where
  pub line : StatementLine
  pub kind : LineKind

pub data Reason : Type 0 where
  same_amount same_date : Reason

-- A candidate pair of either pass, with what it is ranked by; `reason` is set in the second.
pub record Candidate : Type 0 where
  pub line_index : ℕ
  pub line : KindLine
  pub entry_index : ℕ
  pub entry : LedgerLine
  pub gap : ℕ
  pub amount_gap : Money
  pub similarity : Similarity
  pub reason : Option Reason

pub record StatementDiffTotal : Type 0 where
  pub statement_lines : ℕ
  pub matched_count : ℕ
  pub missing_count : ℕ
  pub extra_count : ℕ
  pub ignored_count : ℕ
  pub probable_count : ℕ
  pub charges_count : ℕ
  pub missing_amount : Money
  pub extra_amount : Money
  pub charges_amount : Money

pub record StatementDiff : Type 0 where
  pub matched : List Candidate
  pub probable : List Candidate
  pub missing : List (ℕ × KindLine)
  pub extra : List (ℕ × LedgerLine)
  pub ignored : List KindLine
  pub charges : List KindLine
  pub summary : StatementDiffTotal

abbrev pub abs_money : Money → Money
abs_money m = if is_negative m then neg64 m else m

abbrev sum_money {ℓ} : {A : Type ℓ} → (A → Money) → List A → Money
sum_money f [] = 0
sum_money f (x ∷ xs) = add64 (f x) (sum_money f xs)

abbrev pub same_bool : Bool → Bool → Bool
same_bool a b = if a then b else not b

abbrev pub is_kind_payment : LineKind → Bool
is_kind_payment payment = true
is_kind_payment _ = false

abbrev is_charge : LineKind → Bool
is_charge fee = true
is_charge interest = true
is_charge _ = false

-- `within_forex gap amount` is float64(gap) <= 0.035 * float64(amount).
module _ (st : Strings) (within_forex : Money → Money → Bool) where
  pub set_kind : StatementLine → KindLine
  unfolding classify_line
  set_kind line = record { line = line; kind = classify_line st line }

  -- A debit cannot be a credit.
  unfoldable pub same_direction : KindLine → LedgerLine → Bool
  unfolding is_credit is_income
  same_direction l e = same_bool (is_credit st l.line) (is_income st e)

  unfoldable pub gap_of : KindLine → LedgerLine → Option ℕ
  unfolding day_gap
  gap_of l e = day_gap st l.line.date e.date

  pub similarity_of : KindLine → LedgerLine → Similarity
  unfolding describe_similarity
  similarity_of l e =
      describe_similarity st l.line.description (append e.title (append " " e.merchant))

  abbrev candidate : ℕ × KindLine → ℕ × LedgerLine → ℕ → Option Reason → Candidate
  candidate (i, l) (j, e) gap reason = record {
    line_index = i;
    line = l;
    entry_index = j;
    entry = e;
    gap = gap;
    amount_gap = sub64 l.line.amount e.amount;
    similarity = similarity_of l e;
    reason = reason;
  }

  abbrev pub at_most : Option ℕ → ℕ → Bool
  at_most none n = false
  at_most (some g) n = leb g n

  -- The strict pass: the same amount, the same direction and at most three days apart.
  unfoldable pub is_strict : KindLine → LedgerLine → Bool
  unfolding same_direction gap_of
  is_strict l e = l.line.amount == e.amount && same_direction l e && at_most (gap_of l e) 3

  abbrev gap_or_zero : Option ℕ → ℕ
  gap_or_zero none = 0
  gap_or_zero (some g) = g

  strict_candidate : ℕ × KindLine → ℕ × LedgerLine → List Candidate
  unfolding is_strict
  strict_candidate (i, l) (j, e) =
      if is_strict l e then candidate (i, l) (j, e) (gap_or_zero (gap_of l e)) none ∷ [] else []

  unfoldable pub strict_candidates : List KindLine → List LedgerLine → List Candidate
  unfolding strict_candidate
  strict_candidates lines entries =
      concat_map (λ l. concat_map (λ e. strict_candidate l e) (indexed 0 entries)) (indexed 0 lines)

  unfoldable pub strict_less : Candidate → Candidate → Bool
  strict_less a b =
      if a.gap == b.gap then more_similar a.similarity b.similarity else ltb a.gap b.gap

  -- The reason for a probable pair, if it is one.
  unfoldable pub probable_reason : KindLine → LedgerLine → Option Reason
  unfolding gap_of similarity_of
  probable_reason l e =
      let amount_gap = sub64 l.line.amount e.amount in
      if amount_gap == 0 && at_most (gap_of l e) 10
      then some same_amount
      else if at_most (gap_of l e) 3 && le64 (abs_money amount_gap) 100
      then some same_date
      else if at_most (gap_of l e) 3
          && ltb 0 (similarity_of l e).shared
          && within_forex (abs_money amount_gap) l.line.amount
      then some same_date
      else none

  probable_candidate : Used → ℕ × KindLine → ℕ × LedgerLine → List Candidate
  unfolding probable_reason same_direction
  probable_candidate used (i, l) (j, e) =
      if has used.lines i || has used.entries j || not (same_direction l e)
      then []
      else elim (probable_reason l e) [
        | none ↦ []
        | some r ↦ candidate (i, l) (j, e) (gap_or_zero (gap_of l e)) (some r) ∷ []
      ]

  unfoldable pub probable_candidates : List KindLine → List LedgerLine → Used → List Candidate
  unfolding probable_candidate
  probable_candidates lines entries used =
      concat_map (λ l. concat_map (λ e. probable_candidate used l e) (indexed 0 entries))
        (indexed 0 lines)

  unfoldable pub probable_less : Candidate → Candidate → Bool
  probable_less a b =
      let x = abs_money a.amount_gap in
      let y = abs_money b.amount_gap in
      if not (same_bool (a.amount_gap == 0) (b.amount_gap == 0))
      then a.amount_gap == 0
      else if not (x == y)
      then lt64 x y
      else if not (a.gap == b.gap)
      then ltb a.gap b.gap
      else more_similar a.similarity b.similarity

  abbrev pub pick_pairs : List Candidate → Used → List Candidate × Used
  pick_pairs = pick (λ c. c.line_index) (λ c. c.entry_index)

  unfoldable pub pair_strict : List KindLine → List LedgerLine → List Candidate × Used
  unfolding strict_candidates strict_less sort_stable pick
  pair_strict lines entries =
      pick_pairs (sort_stable strict_less (strict_candidates lines entries))
        (record { lines = []; entries = [] })

  unfoldable pub pair_probable : List KindLine → List LedgerLine → Used → List Candidate × Used
  unfolding probable_candidates probable_less sort_stable pick
  pair_probable lines entries used =
      pick_pairs (sort_stable probable_less (probable_candidates lines entries used)) used

  -- The lines that are not payments.
  unfoldable pub matchable_lines : List StatementLine → List KindLine
  unfolding set_kind
  matchable_lines lines = keep (λ l. not (is_kind_payment l.kind)) (map set_kind lines)

  unfoldable pub diff_statement_lines : List StatementLine → List LedgerLine → StatementDiff
  unfolding matchable_lines pair_strict pair_probable
  diff_statement_lines lines entries =
      let matchable = matchable_lines lines in
      let strict = pair_strict matchable entries in
      let loose = pair_probable matchable entries strict.1 in
      let missing = keep (λ l. not (has loose.1.lines l.0)) (indexed 0 matchable) in
      let extra =
        keep (λ e. not (has loose.1.entries e.0) && not e.1.outside_cycle) (indexed 0 entries) in
      let ignored = keep (λ l. is_kind_payment l.kind) (map set_kind lines) in
      let charges = keep (λ l. is_charge l.kind) (map set_kind lines) in
      record {
        matched = strict.0;
        probable = loose.0;
        missing = missing;
        extra = extra;
        ignored = ignored;
        charges = charges;
        summary = record {
          statement_lines = length lines;
          matched_count = length strict.0;
          missing_count = length missing;
          extra_count = length extra;
          ignored_count = length ignored;
          probable_count = length loose.0;
          charges_count = length charges;
          missing_amount = sum_money (λ l. l.1.line.amount) missing;
          extra_amount = sum_money (λ e. e.1.amount) extra;
          charges_amount = sum_money (λ l. l.line.amount) charges;
        };
      }
