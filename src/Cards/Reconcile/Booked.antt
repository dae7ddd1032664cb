-- ===== src/Cards/Reconcile/Booked.antt =====
-- The money that is not itemised does not disappear.
use finnri_api.Base.{
  ℕ, ◌+◌, ◌%◌, ◌≡◌, ◌≤◌, ◌<◌, refl, subst, ==_iff, arith, ◌==◌, Bool, true, false, String, Option,
  none, some, List, [], ◌∷◌, if◌then◌else◌, Bool-cases, inl, inr,
}
use finnri_api.Base.Int64.{two_64, add64, sub64, neg64, le64, lt64}
use finnri_api.Money.{Money}
use finnri_api.Table.{find_row, sum_rows, insert, update, last_by}
use finnri_api.Table.Laws.{IsKeyed}
use finnri_api.Table.Sums.{sum_rows-update_row, sum_rows-append}
use finnri_api.Cards.Reconcile.{
  Entry, CardStatement, CardStore, under, over, balanced, gap_state, reconcile_tolerance, unpaid_of,
  is_draft, exclude, in_cycle, spent_in, credited_in, cycle_total, load_previous_unpaid,
  remaining_due, bucket, rebook, create_bucket, rebook_found, book, sync_unitemized_entry,
  reconcile_statement,
}

-- The weight of the row under a key.
abbrev at : (Entry → ℕ) → Option Entry → ℕ
at w none = 0
at w (some e) = w e

-- A sum is that of the other rows, with the row under a key.
sum_rows-exclude :
    (w : Entry → ℕ) (k : ℕ) (rows : List (ℕ × Entry))
    → IsKeyed rows
    → sum_rows w rows ≡ sum_rows w (exclude (some k) rows) + at w (find_row k rows)
unfolding sum_rows exclude find_row
sum_rows-exclude w k [] h = omega arith
sum_rows-exclude w k ((i, e) ∷ rows) h = elim (Bool-cases (i == k)) [
  | inl same ↦
      let absent : find_row k rows ≡ none =
        subst (λ j. find_row j rows ≡ none) ((==_iff i k).0 same) h.0 in
      let rest = sum_rows-exclude w k rows h.1 in rw same (omega (arith, rw absent at rest))
  | inr other ↦ rw other (omega (arith, sum_rows-exclude w k rows h.1))
]

unpaid_word : (o : Option (ℕ × CardStatement)) → unpaid_of o < two_64
unfolding unpaid_of remaining_due
unpaid_word none = omega arith
unpaid_word (some (i, st)) = ground arith

module _ (lower : String → String) (lower_expense : lower "expense" ≡ "expense") where
  -- The rows with an expense of an amount in the cycle besides those that were summed.
  abbrev IsBooked : CardStatement → ℕ → List (ℕ × Entry) → List (ℕ × Entry) → Type 0
  IsBooked st amount rest rows =
      (sum_rows (spent_in lower st) rows ≡ sum_rows (spent_in lower st) rest + amount)
      × (sum_rows (credited_in lower st) rows ≡ sum_rows (credited_in lower st) rest)

  bucket_weights :
      (st : CardStatement) (amount : ℕ) (e : Entry)
      → st.cycle_start ≤ st.cycle_end
      → e.user_id ≡ st.user_id
      → e.account_id ≡ some st.account_id
      → lower e.type ≡ "expense"
      → e.date ≡ st.cycle_end
      → e.amount ≡ amount
      → (spent_in lower st e ≡ amount) × (credited_in lower st e ≡ 0)
  unfolding spent_in credited_in in_cycle
  bucket_weights st amount e order u a t d m = rw (t, u, a, d, m) (ground arith)

  other_user :
      (st : CardStatement) (e : Entry)
      → (e.user_id == st.user_id) ≡ false
      → (spent_in lower st e ≡ 0) × (credited_in lower st e ≡ 0)
  unfolding spent_in credited_in in_cycle
  other_user st e h = rw h (refl, refl)

  create_bucket-IsBooked :
      (id : ℕ) (st : CardStatement) (amount : ℕ) (s : CardStore) (rest : List (ℕ × Entry))
      → st.cycle_start ≤ st.cycle_end
      → (sum_rows (spent_in lower st) s.entries.rows ≡ sum_rows (spent_in lower st) rest)
      → (sum_rows (credited_in lower st) s.entries.rows ≡ sum_rows (credited_in lower st) rest)
      → IsBooked st amount rest (create_bucket lower id st amount s).1.entries.rows
  unfolding create_bucket insert
  create_bucket-IsBooked id st amount s rest order a b =
      let (x, y) =
        bucket_weights st amount (bucket lower st amount) order refl refl lower_expense refl refl in
      (
        omega (
          arith,
          sum_rows-append (spent_in lower st) s.entries.next_id (bucket lower st amount)
              s.entries.rows,
          a,
          x,
        ),
        omega (
          arith,
          sum_rows-append (credited_in lower st) s.entries.next_id (bucket lower st amount)
              s.entries.rows,
          b,
          y,
        ),
      )

  -- An entry is an expense on the statement's card.
  abbrev pub IsOnCard : CardStatement → Entry → Type 0
  IsOnCard st e = (e.account_id ≡ some st.account_id) × (lower e.type ≡ "expense")

  rebook_found-IsBooked :
      (id : ℕ) (st : CardStatement) (amount k : ℕ) (s : CardStore)
      → IsKeyed s.entries.rows
      → st.cycle_start ≤ st.cycle_end
      → (row : Option Entry) → find_row k s.entries.rows ≡ row
      → ((e : Entry) → row ≡ some e → IsOnCard st e)
      → IsBooked st amount
          (exclude (some k) s.entries.rows)
          (rebook_found lower id st amount s k row).1.entries.rows
  unfolding rebook_found update
  rebook_found-IsBooked id st amount k s keyed order none e linked =
      let x = sum_rows-exclude (spent_in lower st) k s.entries.rows keyed in
      let y = sum_rows-exclude (credited_in lower st) k s.entries.rows keyed in
      create_bucket-IsBooked id st amount s (exclude (some k) s.entries.rows) order
        (omega (arith, rw e at x)) (omega (arith, rw e at y))
  rebook_found-IsBooked id st amount k s keyed order (some row) e linked =
      elim (Bool-cases (row.user_id == st.user_id)) [
        | inl own ↦
            let (card, expense) = linked row refl in
            let (p, q) =
              bucket_weights st amount (rebook lower st amount row) order
                ((==_iff row.user_id st.user_id).0 own) card expense refl refl in
            let u =
              sum_rows-update_row (spent_in lower st) k (rebook lower st amount) s.entries.rows row
                e in
            let v =
              sum_rows-update_row (credited_in lower st) k (rebook lower st amount) s.entries.rows
                row e in
            rw own (omega (arith, u, p, rw e at x), omega (arith, v, q, rw e at y))
        | inr other ↦
            let (a, b) = other_user st row other in
            rw other (
              create_bucket-IsBooked id st amount s (exclude (some k) s.entries.rows) order
                (omega (arith, rw e at x, a)) (omega (arith, rw e at y, b)))
      ]
    where
      x :
          sum_rows (spent_in lower st) s.entries.rows
          ≡ sum_rows (spent_in lower st) (exclude (some k) s.entries.rows)
            + at (spent_in lower st) (find_row k s.entries.rows)
      x = sum_rows-exclude (spent_in lower st) k s.entries.rows keyed

      y :
          sum_rows (credited_in lower st) s.entries.rows
          ≡ sum_rows (credited_in lower st) (exclude (some k) s.entries.rows)
            + at (credited_in lower st) (find_row k s.entries.rows)
      y = sum_rows-exclude (credited_in lower st) k s.entries.rows keyed

  sync_unitemized_entry-IsBooked :
      (id : ℕ) (st : CardStatement) (amount : ℕ) (s : CardStore)
      → IsKeyed s.entries.rows
      → st.cycle_start ≤ st.cycle_end
      → ((k : ℕ) (e : Entry)
          → st.unitemized_entry_id ≡ some k
          → find_row k s.entries.rows ≡ some e
          → IsOnCard st e)
      → le64 amount 0 ≡ false
      → IsBooked st amount
          (exclude st.unitemized_entry_id s.entries.rows)
          (sync_unitemized_entry lower id st amount s).1.entries.rows
  unfolding sync_unitemized_entry book exclude
  sync_unitemized_entry-IsBooked id st amount s keyed order linked on =
      rw on (go st.unitemized_entry_id linked)
    where
      go :
          (o : Option ℕ)
          → ((k : ℕ) (e : Entry) → o ≡ some k → find_row k s.entries.rows ≡ some e → IsOnCard st e)
          → IsBooked st amount
              (exclude o s.entries.rows)
              (book lower id st amount s o).1.entries.rows
      go none _ = create_bucket-IsBooked id st amount s s.entries.rows order refl refl
      go (some k) linked =
          rebook_found-IsBooked id st amount k s keyed order (find_row k s.entries.rows) refl
            λ e. linked k e refl

  previous_word :
      (s : CardStore) (user account day : ℕ) → load_previous_unpaid s user account day < two_64
  unfolding load_previous_unpaid
  previous_word s user account day =
      unpaid_word (last_by _ (λ st. st.statement_date) s.statements.rows)

  under_gap : (gap : ℕ) → gap_state gap ≡ under → lt64 reconcile_tolerance gap ≡ true
  unfolding gap_state
  under_gap gap h = go (lt64 reconcile_tolerance gap) (lt64 gap (neg64 reconcile_tolerance)) h
    where
      go :
          (more less : Bool)
          → (if more then under else if less then over else balanced) ≡ under
          → more ≡ true
      go true less e = refl
      go false true e = cc
      go false false e = cc

  positive_gap : (gap : ℕ) → gap < two_64 → lt64 reconcile_tolerance gap ≡ true → le64 gap 0 ≡ false
  positive_gap gap w h = ground arith

  -- Int64 words: adding the gap to what is itemised, and the carried part, gives the total.
  close_gap :
      (spent credited spent' total previous : ℕ)
      → total < two_64
      → previous < two_64
      → spent' ≡ spent + sub64 (sub64 total (sub64 (spent % two_64) (credited % two_64))) previous
      → add64 (sub64 (spent' % two_64) (credited % two_64)) previous ≡ total
  close_gap spent credited spent' total previous t p e = omega (arith, e)

  -- For a statement that is not a draft, whose cycle does not end before it starts, with a table of entries
  -- of distinct keys in which the entry that the statement links to, if it is there, is an expense on the
  -- card: where the bill exceeds the itemised entries and what is carried over by more than the
  -- tolerance, the entries of the cycle and what is carried over sum to the bill after reconciling.
  pub reconcile_statement_books_gap :
      (id : ℕ) (st : CardStatement) (s : CardStore)
      → IsKeyed s.entries.rows
      → st.cycle_start ≤ st.cycle_end
      → st.total_due < two_64
      → ((k : ℕ) (e : Entry)
          → st.unitemized_entry_id ≡ some k
          → find_row k s.entries.rows ≡ some e
          → IsOnCard st e)
      → is_draft st.status ≡ false
      → (reconcile_statement lower id st s).0.state ≡ under
      → add64
          (cycle_total lower st (reconcile_statement lower id st s).2.entries.rows)
          (load_previous_unpaid s st.user_id st.account_id st.statement_date)
        ≡ st.total_due
  unfolding reconcile_statement
  reconcile_statement_books_gap id st s keyed order word linked final more =
      let m = rw final at more in
      let large = under_gap gap m in
      let booked =
        sync_unitemized_entry-IsBooked id st gap s keyed order linked
          (positive_gap gap (omega arith) large) in
      rw (final, large, booked.1)
        (close_gap spent credited _ st.total_due previous word
          (previous_word s st.user_id st.account_id st.statement_date) booked.0)
    where
      rest : List (ℕ × Entry)
      rest = exclude st.unitemized_entry_id s.entries.rows

      spent : ℕ
      spent = sum_rows (spent_in lower st) rest

      credited : ℕ
      credited = sum_rows (credited_in lower st) rest

      previous : Money
      previous = load_previous_unpaid s st.user_id st.account_id st.statement_date

      gap : Money
      gap = sub64 (sub64 st.total_due (cycle_total lower st rest)) previous
