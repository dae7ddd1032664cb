-- ===== src/Cards/Reconcile.antt =====
-- internal/http/card_statement_reconcile.go: a statement against the ledger, and the entry that
-- holds what is not itemised yet. A date is the number of its day.
pub mod Booked
use finnri_api.Base.{
  ℕ, ◌+◌, ◌%◌, leb, ltb, ◌==◌, holds, Bool, true, false, not, ◌&&◌, ◌||◌, String, str_eq, Option,
  none, some, List, keep, length, if◌then◌else◌,
}
use finnri_api.Base.Int64.{two_64, sub64, neg64, le64, lt64}
use finnri_api.Money.{Money}
use finnri_api.Table.{Table, find_row, last_by, sum_rows, insert, update, delete_row}

pub data StatementStatus : Type 0 where
  draft unpaid partial paid : StatementStatus

pub data ReconcileState : Type 0 where
  balanced under over : ReconcileState

pub record Entry : Type 0 where
  pub user_id : ℕ
  pub account_id : Option ℕ
  pub title : String
  pub type : String
  pub amount : Money
  pub currency : String
  pub source : String
  pub category : String
  pub merchant : String
  pub tag : String
  pub notes : String
  pub date : ℕ

pub record CardStatement : Type 0 where
  pub user_id : ℕ
  pub account_id : ℕ
  pub cycle_start : ℕ
  pub cycle_end : ℕ
  pub statement_date : ℕ
  pub due_date : ℕ
  pub total_due : Money
  pub currency : String
  pub paid_amount : Money
  pub status : StatementStatus
  pub unitemized_entry_id : Option ℕ

pub record CardStore : Type 0 where
  pub entries : Table Entry
  pub statements : Table CardStatement

pub record StatementReconciliation : Type 0 where
  pub cycle_start : ℕ
  pub cycle_end : ℕ
  pub itemized_total : Money
  pub entries_count : ℕ
  pub previous_unpaid : Money
  pub statement_total : Money
  pub unitemized_amount : Money
  pub gap : Money
  pub state : ReconcileState

abbrev pub is_draft : StatementStatus → Bool
is_draft draft = true
is_draft _ = false

abbrev pub is_paid : StatementStatus → Bool
is_paid paid = true
is_paid _ = false

abbrev pub reconcile_tolerance : Money
reconcile_tolerance = 100

unfoldable pub gap_state : Money → ReconcileState
gap_state gap =
    if lt64 reconcile_tolerance gap
    then under
    else if lt64 gap (neg64 reconcile_tolerance)
    then over
    else balanced

-- The cycle and the number of entries are set by the caller.
unfoldable pub compute_reconciliation : Money → Money → Money → StatementReconciliation
unfolding gap_state
compute_reconciliation total_due itemized previous_unpaid =
    let gap = sub64 (sub64 total_due itemized) previous_unpaid in
    record {
      cycle_start = 0;
      cycle_end = 0;
      itemized_total = itemized;
      entries_count = 0;
      previous_unpaid = previous_unpaid;
      statement_total = total_due;
      unitemized_amount = if lt64 reconcile_tolerance gap then gap else 0;
      gap = gap;
      state = gap_state gap;
    }

unfoldable pub derive_statement_status : StatementStatus → Money → Money → StatementStatus
derive_statement_status current total_due amount_paid =
    if is_draft current
    then draft
    else if le64 total_due amount_paid
    then paid
    else if lt64 0 amount_paid
    then partial
    else unpaid

unfoldable pub statement_is_overdue : CardStatement → ℕ → Bool
statement_is_overdue st today =
    if is_draft st.status || is_paid st.status then false else ltb st.due_date today

unfoldable pub remaining_due : CardStatement → Money
remaining_due st =
    let remaining = sub64 st.total_due st.paid_amount in if lt64 remaining 0 then 0 else remaining

unfoldable pub unpaid_of : Option (ℕ × CardStatement) → Money
unfolding remaining_due
unpaid_of none = 0
unpaid_of (some (i, previous)) = remaining_due previous

unfoldable pub load_previous_unpaid : CardStore → ℕ → ℕ → ℕ → Money
unfolding unpaid_of last_by
load_previous_unpaid s user account statement_date =
    let earlier : CardStatement → Bool = λ st.
      st.user_id == user
      && st.account_id == account
      && ltb st.statement_date statement_date
      && not (is_draft st.status) in
    unpaid_of (last_by earlier (λ st. st.statement_date) s.statements.rows)

-- AND id <> ?, if an entry is left out
unfoldable pub exclude : Option ℕ → List (ℕ × Entry) → List (ℕ × Entry)
exclude none rows = rows
exclude (some id) rows = keep (λ r. not (r.0 == id)) rows

abbrev default_category : String
default_category = "Misc"

-- `lower` is SQL's LOWER.
module _ (lower : String → String) where
  unfoldable pub in_cycle : CardStatement → Entry → Bool
  in_cycle st e =
      e.user_id == st.user_id
      && holds e.account_id st.account_id
      && leb st.cycle_start e.date
      && leb e.date st.cycle_end

  abbrev pub is_expense : Entry → Bool
  is_expense e = str_eq (lower e.type) "expense"

  unfoldable pub spent_in : CardStatement → Entry → Money
  unfolding in_cycle
  spent_in st e = if in_cycle st e && is_expense e then e.amount else 0

  unfoldable pub credited_in : CardStatement → Entry → Money
  unfolding in_cycle
  credited_in st e = if in_cycle st e && not (is_expense e) then e.amount else 0

  -- What the rows of a cycle sum to: the purchases less the credits.
  unfoldable pub cycle_total : CardStatement → List (ℕ × Entry) → Money
  unfolding spent_in credited_in sum_rows
  cycle_total st rows =
      sub64 (sum_rows (spent_in st) rows % two_64) (sum_rows (credited_in st) rows % two_64)

  unfoldable pub load_cycle_itemized_total : CardStore → CardStatement → Option ℕ → Money × ℕ
  unfolding cycle_total exclude in_cycle
  load_cycle_itemized_total s st excluded =
      let rows = exclude excluded s.entries.rows in
      (cycle_total st rows, length (keep (λ r. in_cycle st r.1) rows))

  abbrev pub bucket : CardStatement → Money → Entry
  bucket st amount = record {
    user_id = st.user_id;
    account_id = some st.account_id;
    title = "Unitemized card spends";
    type = "expense";
    amount = amount;
    currency = st.currency;
    source = "manual";
    category = default_category;
    merchant = "";
    tag = "Statement";
    notes = "Billed on your statement but not itemised in Finnri yet.";
    date = st.cycle_end;
  }

  -- The statement as it is in memory and in its row after the operation, with the rows of the entries.
  abbrev pub link : ℕ → CardStatement → Option ℕ → CardStore → CardStatement × CardStore
  link id st entry s = (
    record st { unitemized_entry_id = entry },
    record s {
      statements = update s.statements id (λ row. record row { unitemized_entry_id = entry });
    },
  )

  -- DELETE ... WHERE id = ? AND user_id = ?
  unfoldable pub delete_entry : ℕ → ℕ → CardStore → CardStore
  delete_entry entry user s = elim (find_row entry s.entries.rows) [
    | none ↦ s
    | some e ↦
        if e.user_id == user
        then record s { entries = record s.entries { rows = delete_row entry s.entries.rows } }
        else s
  ]

  unfoldable pub clear_unitemized_entry : ℕ → CardStatement → CardStore → CardStatement × CardStore
  unfolding delete_entry
  clear_unitemized_entry id st s = elim st.unitemized_entry_id [
    | none ↦ (st, s)
    | some entry ↦ let (st', s') = link id st none s in (st', delete_entry entry st.user_id s')
  ]

  unfoldable pub create_bucket : ℕ → CardStatement → Money → CardStore → CardStatement × CardStore
  unfolding insert
  create_bucket id st amount s =
      link id st (some s.entries.next_id)
        (record s { entries = insert s.entries (bucket st amount) })

  abbrev pub rebook : CardStatement → Money → Entry → Entry
  rebook st amount e = record e { amount = amount; date = st.cycle_end }

  -- The UPDATE of the entry with its user; where no row is affected, a new entry is made.
  unfoldable pub rebook_found :
      ℕ → CardStatement → Money → CardStore → ℕ → Option Entry → CardStatement × CardStore
  unfolding create_bucket update
  rebook_found id st amount s entry none = create_bucket id st amount s
  rebook_found id st amount s entry (some e) =
      if e.user_id == st.user_id
      then (st, record s { entries = update s.entries entry (rebook st amount) })
      else create_bucket id st amount s

  unfoldable pub book : ℕ → CardStatement → Money → CardStore → Option ℕ → CardStatement × CardStore
  unfolding rebook_found find_row
  book id st amount s none = create_bucket id st amount s
  book id st amount s (some entry) =
      rebook_found id st amount s entry (find_row entry s.entries.rows)

  unfoldable pub sync_unitemized_entry :
      ℕ → CardStatement → Money → CardStore → CardStatement × CardStore
  unfolding clear_unitemized_entry book
  sync_unitemized_entry id st amount s =
      if le64 amount 0
      then clear_unitemized_entry id st s
      else book id st amount s st.unitemized_entry_id

  -- reconcileStatement of the statement under a key.
  unfoldable pub reconcile_statement :
      ℕ → CardStatement → CardStore → StatementReconciliation × CardStatement × CardStore
  unfolding load_cycle_itemized_total load_previous_unpaid compute_reconciliation
      sync_unitemized_entry
  reconcile_statement id st s =
      let (itemized, entries) = load_cycle_itemized_total s st st.unitemized_entry_id in
      let previous = load_previous_unpaid s st.user_id st.account_id st.statement_date in
      let computed = compute_reconciliation st.total_due itemized previous in
      let result : StatementReconciliation = record computed {
        cycle_start = st.cycle_start;
        cycle_end = st.cycle_end;
        entries_count = entries;
      } in
      if is_draft st.status
      then (result, st, s)
      else let (st', s') = sync_unitemized_entry id st result.unitemized_amount s in
        (result, st', s')
