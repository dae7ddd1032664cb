-- ===== src/Cards/Payment/Settles.antt =====
-- A statement, its payments and its instalments agree after a refresh.
use finnri_api.Base.{
  ℕ, ◌-◌, ◌≡◌, ◌≤◌, ◌<◌, ◌↔◌, refl, ◌∙◌, arith, Bool, Bool-cases, true, false, inl, inr, ◌&&◌, List,
  [], ◌∷◌, All, ltb, lt→ltb, if◌then◌else◌,
}
use finnri_api.Base.Int64.{two_63, le64, lt64, sub64}
use finnri_api.Result.{ok}
use finnri_api.Table.{update_where}
use finnri_api.Cards.Calendar.{Date}
use finnri_api.Cards.Reconcile as Reconcile
use finnri_api.Cards.Reconcile.{
  CardStatement, StatementStatus, partial, unpaid, is_draft, derive_statement_status, remaining_due,
}
use finnri_api.Cards.Plan.{
  CardEmiInstallment, PlanStore, SettledStatement, is_billed, is_paid, with_status, billed, paid,
  covered_by, release_emi_principal_for_statement, reblock_emi_principal_for_statement,
}
use finnri_api.Cards.Payment.{
  PaymentStore, paid_total, with_paid, settled_view, settle_installments, store_paid,
  refresh_statement_paid_amount,
}

-- An instalment that the statement covers is not left in the status of the other kind.
abbrev pub is_stale : Bool → SettledStatement → CardEmiInstallment → Bool
is_stale settled v i = covered_by v i && (if settled then is_billed i.status else is_paid i.status)

and_swap : (b c : Bool) → (c && b) ≡ (b && c)
and_swap true true = refl
and_swap true false = refl
and_swap false true = refl
and_swap false false = refl

no_billed :
    (v : SettledStatement) (rows : List (ℕ × CardEmiInstallment))
    → All
        (λ r. is_stale true v r.1 ≡ false)
        (update_where (λ i. is_billed i.status && covered_by v i) (with_status paid) rows)
unfolding update_where covered_by
no_billed v [] = tt
no_billed v ((k, i) ∷ rows) = (
  elim (Bool-cases (is_billed i.status && covered_by v i)) [
    | inl e ↦ rw e (and_swap false (covered_by v i))
    | inr e ↦ rw e (and_swap (is_billed i.status) (covered_by v i) ∙ e)
  ],
  no_billed v rows,
)

no_paid :
    (v : SettledStatement) (rows : List (ℕ × CardEmiInstallment))
    → All
        (λ r. is_stale false v r.1 ≡ false)
        (update_where (λ i. is_paid i.status && covered_by v i) (with_status billed) rows)
unfolding update_where covered_by
no_paid v [] = tt
no_paid v ((k, i) ∷ rows) = (
  elim (Bool-cases (is_paid i.status && covered_by v i)) [
    | inl e ↦ rw e (and_swap false (covered_by v i))
    | inr e ↦ rw e (and_swap (is_paid i.status) (covered_by v i) ∙ e)
  ],
  no_paid v rows,
)

settle_installments-fresh :
    (date_of : ℕ → Date) (id : ℕ) (st : CardStatement) (plans : PlanStore)
    → All
        (λ r. is_stale (Reconcile.is_paid st.status) (settled_view date_of id st) r.1 ≡ false)
        (settle_installments date_of id st plans).installments.rows
unfolding settle_installments release_emi_principal_for_statement
    reblock_emi_principal_for_statement
settle_installments-fresh date_of id st plans = elim (Bool-cases (Reconcile.is_paid st.status)) [
  | inl e ↦ rw e (no_billed (settled_view date_of id st) plans.installments.rows)
  | inr e ↦ rw e (no_paid (settled_view date_of id st) plans.installments.rows)
]

le64_iff : (a b : ℕ) → a < two_63 → b < two_63 → (le64 a b ≡ true) ↔ (a ≤ b)
le64_iff a b h k = ground arith

not_settled : (b : Bool) → Reconcile.is_paid (if b then partial else unpaid) ≡ false
not_settled true = refl
not_settled false = refl

derived_paid :
    (status : StatementStatus) (due total : ℕ)
    → is_draft status ≡ false
    → due < two_63
    → total < two_63
    → (Reconcile.is_paid (derive_statement_status status due total) ≡ true) ↔ (due ≤ total)
unfolding derive_statement_status
derived_paid status due total d a b = elim (Bool-cases (le64 due total)) [
  | inl e ↦ rw (d, e) (λ h. (le64_iff due total a b).0 e, λ h. refl)
  | inr e ↦
      rw (d, e)
        (
          λ h. let no = not_settled (lt64 0 total) in cc,
          λ h. let yes = (le64_iff due total a b).1 h in cc,
        )
]

remaining_after :
    (st : CardStatement) (total : ℕ)
    → st.total_due < two_63
    → total < two_63
    → remaining_due (with_paid total st) ≡ st.total_due - total
unfolding remaining_due with_paid
remaining_after st total a b = elim (Bool-cases (lt64 (sub64 st.total_due total) 0)) [
  | inl e ↦ rw e ground arith
  | inr e ↦ rw e ground arith
]

-- When the payments of a statement that is no draft and whose bill is not negative are refreshed: it is
-- paid exactly if its payments reach the bill, what remains is the bill less the payments and never less
-- than nothing, and of the instalments that it covers none is left billed when it is paid, and none is
-- left paid when it is not.
pub refresh_statement_paid_amount-Settles :
    (date_of : ℕ → Date) (id : ℕ) (st : CardStatement) (s : PaymentStore)
    → is_draft st.status ≡ false
    → st.total_due < two_63
    → paid_total id st s < two_63
    → (st' : CardStatement) × (s' : PaymentStore) × (refresh_statement_paid_amount date_of id st s
        ≡ ok (st', s'))
      × ((Reconcile.is_paid st'.status ≡ true) ↔ (st.total_due ≤ paid_total id st s))
      × (remaining_due st' ≡ st.total_due - paid_total id st s)
      × All
          (λ r. is_stale (Reconcile.is_paid st'.status) (settled_view date_of id st') r.1 ≡ false)
          s'.plans.installments.rows
unfolding refresh_statement_paid_amount with_paid store_paid
refresh_statement_paid_amount-Settles date_of id st s d a b =
    let small : ltb (paid_total id st s) two_63 ≡ true = lt→ltb (paid_total id st s) two_63 b in
    (
      with_paid (paid_total id st s) st,
      store_paid date_of id (with_paid (paid_total id st s) st) s,
      rw small refl,
      derived_paid st.status st.total_due (paid_total id st s) d a b,
      remaining_after st (paid_total id st s) a b,
      settle_installments-fresh date_of id (with_paid (paid_total id st s) st) s.plans,
    )
