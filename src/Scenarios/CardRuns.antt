-- ===== src/Scenarios/CardRuns.antt =====
-- The theorems on statements and their cycles at concrete inputs.
use finnri_api.Base.{
  ℕ, ◌+◌, ◌≡◌, ◌≤◌, ◌<◌, ◌⊎◌, inl, refl, arith, Bool, false, if◌then◌else◌, str_eq, String, none,
  some, List, [], ◌∷◌, All, length,
}
use finnri_api.Base.Int.{pos}
use finnri_api.Base.Int64.{add64}
use finnri_api.Base.Members.{times, Has}
use finnri_api.Cards.Calendar.{Date, date, IsDay, Before, days_in, next_day}
use finnri_api.Cards.Cycle.{clamp_day_to_month, statement_cycle, due_date_for, next_statement_date}
use finnri_api.Cards.Cycle.Due.{due_date_for_next}
use finnri_api.Cards.Cycle.Tiles.{next_statement_date_tiles}
use finnri_api.Cards.Match.Text.{Strings, StatementLine, LedgerLine}
use finnri_api.Cards.Match.{
  KindLine, matchable_lines, diff_statement_lines, is_strict, same_direction, probable_reason,
  set_kind,
}
use finnri_api.Cards.Match.Partition.{diff_statement_lines_once}
use finnri_api.Cards.Match.Sound.{IsPlaced, IsStrict, IsProbable, diff_statement_lines-IsSound}
use finnri_api.Cards.Match.Complete.{diff_statement_lines_complete}
use finnri_api.Table.{find_row}
use finnri_api.Cards.Reconcile.{
  Entry, CardStatement, CardStore, unpaid, under, cycle_total, load_previous_unpaid,
  reconcile_statement,
}
use finnri_api.Cards.Reconcile.Booked.{reconcile_statement_books_gap}

-- 25 March 2026, and the 14th to pay on.
abbrev march : Date
march = date 24314 25

due_date_for_next_example :
    let due = due_date_for march (pos 14) in
    IsDay due
    × Before march due
    × (due ≡ clamp_day_to_month due.month (pos 14))
    × (due.month ≤ 24315)
unfolding clamp_day_to_month
due_date_for_next_example = due_date_for_next march (pos 14) 24315 (inl (omega arith))

due_in_april : due_date_for march (pos 14) ≡ date 24315 14
unfolding due_date_for days_in
due_in_april = refl

-- A card that bills on the 31st: January's statement, and February's window.
next_statement_date_tiles_example :
    let statement = clamp_day_to_month 24312 (pos 31) in
    let following = next_statement_date statement (pos 31) in
    statement_cycle following (pos 31) ≡ (next_day statement, following)
next_statement_date_tiles_example =
    next_statement_date_tiles 24312 (pos 31) (omega arith) (omega arith)

february : next_statement_date (date 24312 31) (pos 31) ≡ date 24313 28
unfolding next_statement_date days_in
february = refl

march-IsDay : IsDay march
unfolding days_in
march-IsDay = (omega arith, omega arith)

-- Two dates are told apart, and no text has words.
abbrev plain : Strings
plain = record {
  upper = λ s. s;
  lower = λ s. s;
  equal_fold = str_eq;
  is_letter = λ c. false;
  is_digit = λ c. false;
  parse_day = λ s. if str_eq s "2026-03-02" then some 61 else some 60;
}

abbrev never : ℕ → ℕ → Bool
never gap amount = false

abbrev coffee : String → ℕ → StatementLine
coffee day amount = record { date = day; description = "COFFEE"; amount = amount; type = "expense" }

abbrev logged : ℕ → ℕ → LedgerLine
logged id amount = record {
  entry_id = id;
  date = "2026-03-02";
  title = "Coffee";
  merchant = "";
  category = "Food";
  amount = amount;
  type = "expense";
  tag = "";
  outside_cycle = false;
}

abbrev lines : List StatementLine
lines = coffee "2026-03-01" 25000 ∷ coffee "2026-03-02" 90000 ∷ []

abbrev entries : List LedgerLine
entries = logged 1 25000 ∷ logged 2 40000 ∷ []

two_lines : 1 < length (matchable_lines plain never lines)
unfolding matchable_lines
two_lines = omega arith

diff_statement_lines_once_example :
    let diff = diff_statement_lines plain never lines entries in
    (times (λ c. c.line_index) 1 diff.matched
        + times (λ c. c.line_index) 1 diff.probable
        + times (λ l. l.0) 1 diff.missing
      ≡ 1)
    × (times (λ c. c.entry_index) 0 diff.matched
          + times (λ c. c.entry_index) 0 diff.probable
          + times (λ e. e.0) 0 diff.extra
        ≤ 1)
diff_statement_lines_once_example =
    diff_statement_lines_once plain never lines entries 1 0 two_lines

diff_statement_lines-IsSound_example :
    let diff = diff_statement_lines plain never lines entries in
    let matchable = matchable_lines plain never lines in
    All (λ c. IsPlaced plain never matchable entries c × IsStrict plain never c) diff.matched
    × All (λ c. IsPlaced plain never matchable entries c × IsProbable plain never c) diff.probable
diff_statement_lines-IsSound_example = diff_statement_lines-IsSound plain never lines entries

abbrev left_line : KindLine
left_line = set_kind plain never (coffee "2026-03-02" 90000)

second_missing : Has (1, left_line) (diff_statement_lines plain never lines entries).missing
unfolding diff_statement_lines
second_missing = inl refl

second_extra : Has (1, logged 2 40000) (diff_statement_lines plain never lines entries).extra
unfolding diff_statement_lines
second_extra = inl refl

diff_statement_lines_complete_example :
    (is_strict plain never left_line (logged 2 40000) ≡ false)
    × ((same_direction plain never left_line (logged 2 40000) ≡ false)
        ⊎ (probable_reason plain never left_line (logged 2 40000) ≡ none))
diff_statement_lines_complete_example =
    diff_statement_lines_complete plain never lines entries 1 1 left_line (logged 2 40000)
      second_missing second_extra

abbrev statement : CardStatement
statement = record {
  user_id = 1;
  account_id = 2;
  cycle_start = 100;
  cycle_end = 130;
  statement_date = 130;
  due_date = 150;
  total_due = 50000;
  currency = "INR";
  paid_amount = 0;
  status = unpaid;
  unitemized_entry_id = none;
}

abbrev dinner : Entry
dinner = record {
  user_id = 1;
  account_id = some 2;
  title = "Dinner";
  type = "expense";
  amount = 20000;
  currency = "INR";
  source = "manual";
  category = "Food";
  merchant = "";
  tag = "";
  notes = "";
  date = 110;
}

abbrev card_store : CardStore
card_store = record {
  entries = record { rows = (1, dinner) ∷ []; next_id = 2 };
  statements = record { rows = (1, statement) ∷ []; next_id = 2 };
}

falls_short : (reconcile_statement (λ s. s) 1 statement card_store).0.state ≡ under
unfolding reconcile_statement
falls_short = refl

reconcile_statement_books_gap_example :
    add64
      (cycle_total
        (λ s. s)
        statement
        (reconcile_statement (λ s. s) 1 statement card_store).2.entries.rows)
      (load_previous_unpaid card_store 1 2 130)
    ≡ 50000
unfolding find_row
reconcile_statement_books_gap_example =
    reconcile_statement_books_gap (λ s. s) refl 1 statement card_store (refl, tt) (omega arith)
      (omega arith) (λ k e linked found. cc) refl falls_short
