-- ===== src/Billing/Balance.antt =====
-- The accounting invariant of the credit tables: every grant's balance is what the ledger says of it.
pub mod Rules
pub mod Moves
pub mod Operations
pub mod Service
pub mod Openings
pub mod Calls
pub mod History
use finnri_api.Base.{
  ℕ, suc, ◌+◌, ◌≤◌, ◌<◌, ◌==◌, ==_iff, holds, ◌≡◌, ◌≢◌, refl, sym, ap, ◌∙◌, Bool, true, false, ◌&&◌,
  Bool-cases, inl, inr, if◌then◌else◌, Option, none, some, List, ◌⊎◌, arith,
}
use mathlib.Core.Option.{some-injective}
use finnri_api.Table.{Table, find_row, insert, update, sum_rows}
use finnri_api.Table.Laws.{
  IsTable, insert-IsTable, update-IsTable, find_row-append, find_row-update_row_self,
  find_row-update_row_ne,
}
use finnri_api.Table.Sums.{sum_rows-append}
use finnri_api.Billing.Data.{CreditGrant, CreditLedger, Direction, grant, debit, refund, expiry}
use finnri_api.Billing.Tx.{Store}

-- What a ledger row adds to a grant, and what it takes.
abbrev pub is_credit : Direction → Bool
is_credit grant = true
is_credit refund = true
is_credit debit = false
is_credit expiry = false

abbrev pub credited : CreditLedger → ℕ
credited x = if is_credit x.direction then x.credits else 0

abbrev pub debited : CreditLedger → ℕ
debited x = if is_credit x.direction then 0 else x.credits

abbrev pub inflow_of : ℕ → CreditLedger → ℕ
inflow_of id x = if holds x.grant_id id then credited x else 0

abbrev pub outflow_of : ℕ → CreditLedger → ℕ
outflow_of id x = if holds x.grant_id id then debited x else 0

unfoldable pub inflow : ℕ → Table CreditLedger → ℕ
inflow id ledger = sum_rows (inflow_of id) ledger.rows

unfoldable pub outflow : ℕ → Table CreditLedger → ℕ
outflow id ledger = sum_rows (outflow_of id) ledger.rows

pub record IsBalanced (grants : Table CreditGrant) (ledger : Table CreditLedger) : Type 0 where
  pub table : IsTable grants
  pub within :
      (id : ℕ) (g : CreditGrant)
      → find_row id grants.rows ≡ some g
      → g.credits_remaining ≤ g.credits_granted
  pub reconciled :
      (id : ℕ) (g : CreditGrant)
      → find_row id grants.rows ≡ some g
      → g.credits_remaining + outflow id ledger ≡ inflow id ledger
  pub unopened : (id : ℕ) → grants.next_id ≤ id → (inflow id ledger ≡ 0) × (outflow id ledger ≡ 0)

abbrev pub IsSound : Store → Type 0
IsSound s = IsBalanced s.grants s.ledger

inflow-insert :
    (id : ℕ) (ledger : Table CreditLedger) (x : CreditLedger)
    → inflow id (insert ledger x) ≡ inflow id ledger + inflow_of id x
unfolding inflow insert
inflow-insert id ledger x = sum_rows-append (inflow_of id) ledger.next_id x ledger.rows

outflow-insert :
    (id : ℕ) (ledger : Table CreditLedger) (x : CreditLedger)
    → outflow id (insert ledger x) ≡ outflow id ledger + outflow_of id x
unfolding outflow insert
outflow-insert id ledger x = sum_rows-append (outflow_of id) ledger.next_id x ledger.rows

-- A row of another grant does not count.
inflow_of_ne : (id j : ℕ) (x : CreditLedger) → x.grant_id ≡ some id → id ≢ j → inflow_of j x ≡ 0
inflow_of_ne id j x n h = rw n (ground arith)

outflow_of_ne : (id j : ℕ) (x : CreditLedger) → x.grant_id ≡ some id → id ≢ j → outflow_of j x ≡ 0
outflow_of_ne id j x n h = rw n (ground arith)

inflow_of_self : (id : ℕ) (x : CreditLedger) → x.grant_id ≡ some id → inflow_of id x ≡ credited x
inflow_of_self id x n = rw n (ground arith)

outflow_of_self : (id : ℕ) (x : CreditLedger) → x.grant_id ≡ some id → outflow_of id x ≡ debited x
outflow_of_self id x n = rw n (ground arith)

-- A movement on an open account: the balance changes by what the ledger row says.
module _ {grants : Table CreditGrant} {ledger : Table CreditLedger} (b : IsBalanced grants ledger)
    (id : ℕ) (f : CreditGrant → CreditGrant) (x : CreditLedger) {g : CreditGrant}
    (found : find_row id grants.rows ≡ some g)
    (fits : (f g).credits_remaining ≤ (f g).credits_granted) (noted : x.grant_id ≡ some id)
    (moved : (f g).credits_remaining + debited x ≡ g.credits_remaining + credited x) where
  find-update :
      (j : ℕ) (a : CreditGrant)
      → find_row j (update grants id f).rows ≡ some a
      → ((id ≡ j) × (a ≡ f g)) ⊎ ((id ≢ j) × (find_row j grants.rows ≡ some a))
  unfolding update
  find-update j a h = elim (Bool-cases (id == j)) [
    | inl e ↦
        let same : id ≡ j = (==_iff id j).0 e in
        inl (
          same,
          some-injective _ _
              (sym h ∙ rw (← same) (find_row-update_row_self id f grants.rows ∙ rw found refl)),
        )
    | inr e ↦
        let differ : id ≢ j = λ p. ground (arith, p) in
        inr (differ, sym (find_row-update_row_ne id j f grants.rows differ) ∙ h)
  ]

  id-lt-next : id < grants.next_id
  id-lt-next = ground (arith, b.table.fresh id)

  pub move-IsBalanced : IsBalanced (update grants id f) (insert ledger x)
  move-IsBalanced = record {
    table = update-IsTable grants id f b.table;
    within =
        λ j a h. elim (find-update j a h) [ inl (e, p) ↦ rw p fits | inr (e, p) ↦ b.within j a p ];
    reconciled = λ j a h. elim (find-update j a h) [
      | inl (e, p) ↦
          rw (p, ← e)
            (omega (
              arith,
              inflow-insert id ledger x,
              outflow-insert id ledger x,
              inflow_of_self id x noted,
              outflow_of_self id x noted,
              b.reconciled id g found,
            ))
      | inr (e, p) ↦ omega (
        arith,
        inflow-insert j ledger x,
        outflow-insert j ledger x,
        inflow_of_ne id j x noted e,
        outflow_of_ne id j x noted e,
        b.reconciled j a p,
      )
    ];
    unopened = λ j le.
        let above : grants.next_id ≤ j = unfold update in le in
        let ne : id ≢ j = λ p. omega (arith, id-lt-next, above, p) in
        let old = b.unopened j above in
        (
          omega (arith, inflow-insert j ledger x, inflow_of_ne id j x noted ne, old),
          omega (arith, outflow-insert j ledger x, outflow_of_ne id j x noted ne, old),
        );
  }

-- A new account, with the row that opens it.
module _ {grants : Table CreditGrant} {ledger : Table CreditLedger} (b : IsBalanced grants ledger)
    (g : CreditGrant) (x : CreditLedger) (fits : g.credits_remaining ≤ g.credits_granted)
    (noted : x.grant_id ≡ some grants.next_id) (opening : credited x ≡ g.credits_remaining)
    (pure_credit : debited x ≡ 0) where
  find-insert :
      (j : ℕ) (a : CreditGrant)
      → find_row j (insert grants g).rows ≡ some a
      → ((grants.next_id ≡ j) × (a ≡ g))
        ⊎ ((grants.next_id ≢ j) × (find_row j grants.rows ≡ some a))
  unfolding insert
  find-insert j a h =
      let found = find_row-append j grants.next_id g grants.rows (b.table.fresh _ (omega arith)) in
      ground (arith, found)

  pub open-IsBalanced : IsBalanced (insert grants g) (insert ledger x)
  open-IsBalanced = record {
    table = insert-IsTable grants g b.table;
    within =
        λ j a h. elim (find-insert j a h) [ inl (e, p) ↦ rw p fits | inr (e, p) ↦ b.within j a p ];
    reconciled = λ j a h. elim (find-insert j a h) [
      | inl (e, p) ↦
          rw (p, ← e)
            (omega (
              arith,
              inflow-insert grants.next_id ledger x,
              outflow-insert grants.next_id ledger x,
              inflow_of_self grants.next_id x noted,
              outflow_of_self grants.next_id x noted,
              b.unopened grants.next_id (omega arith),
              opening,
              pure_credit,
            ))
      | inr (e, p) ↦ omega (
        arith,
        inflow-insert j ledger x,
        outflow-insert j ledger x,
        inflow_of_ne grants.next_id j x noted e,
        outflow_of_ne grants.next_id j x noted e,
        b.reconciled j a p,
      )
    ];
    unopened = λ j le.
        let below : grants.next_id < j = unfold insert in le in
        let ne : grants.next_id ≢ j = λ p. omega (arith, p, below) in
        let old = b.unopened j (omega (arith, below)) in
        (
          omega (arith, inflow-insert j ledger x, inflow_of_ne grants.next_id j x noted ne, old),
          omega (arith, outflow-insert j ledger x, outflow_of_ne grants.next_id j x noted ne, old),
        );
  }
