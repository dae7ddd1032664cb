-- ===== src/Cards/Plan/Released.antt =====
-- Taking back the release of a settled statement's instalments.
use finnri_api.Base.{
  ℕ, ◌≡◌, ◌∙◌, refl, sym, ap, Bool, true, false, ◌&&◌, List, [], ◌∷◌, All, if◌then◌else◌,
}
use finnri_api.Table.{update_where}
use finnri_api.Cards.Plan.{
  CardEmiInstallment, InstallmentStatus, scheduled, billed, paid, is_billed, is_paid, with_status,
  PlanStore, SettledStatement, covered_by, release_emi_principal_for_statement,
  reblock_emi_principal_for_statement,
}

-- The statement when it is owed again.
abbrev pub owed_again : SettledStatement → SettledStatement
owed_again st = record st { is_settled = false }

abbrev released : SettledStatement → CardEmiInstallment → CardEmiInstallment
released st i = if is_billed i.status && covered_by st i then with_status paid i else i

abbrev blocked : SettledStatement → CardEmiInstallment → CardEmiInstallment
blocked st i = if is_paid i.status && covered_by st i then with_status billed i else i

then_of : (b : Bool) (x y : CardEmiInstallment) → b ≡ true → (if b then x else y) ≡ x
then_of true x y h = refl
then_of false x y h = cc

else_of : (b : Bool) (x y : CardEmiInstallment) → b ≡ false → (if b then x else y) ≡ y
else_of true x y h = cc
else_of false x y h = refl

row_back :
    (st : SettledStatement) (i : CardEmiInstallment) (x : InstallmentStatus) (c : Bool)
    → i.status ≡ x
    → covered_by st i ≡ c
    → (is_paid x && c) ≡ false
    → blocked st (released st i) ≡ i
unfolding covered_by
row_back st i scheduled c e f h =
    ap (blocked st) (else_of (is_billed i.status && covered_by st i) _ _ (rw e refl))
    ∙ else_of (is_paid i.status && covered_by st i) _ _ (rw e refl)
row_back st i billed true e f h =
    ap (blocked st) (then_of (is_billed i.status && covered_by st i) _ _ (rw (e, f) refl))
    ∙ then_of (covered_by st i) _ _ f
    ∙ ap (λ x. with_status x i) (sym e)
row_back st i billed false e f h =
    ap (blocked st) (else_of (is_billed i.status && covered_by st i) _ _ (rw (e, f) refl))
    ∙ else_of (is_paid i.status && covered_by st i) _ _ (rw e refl)
row_back st i paid true e f h = cc
row_back st i paid false e f h =
    ap (blocked st) (else_of (is_billed i.status && covered_by st i) _ _ (rw e refl))
    ∙ else_of (is_paid i.status && covered_by st i) _ _ (rw (e, f) refl)

there_and_back :
    (st : SettledStatement) (rows : List (ℕ × CardEmiInstallment))
    → All (λ r. (is_paid r.1.status && covered_by st r.1) ≡ false) rows
    → update_where
        (λ i. is_paid i.status && covered_by st i)
        (with_status billed)
        (update_where (λ i. is_billed i.status && covered_by st i) (with_status paid) rows)
      ≡ rows
unfolding update_where
there_and_back st [] h = refl
there_and_back st ((k, i) ∷ rows) h =
    ap (λ r. (k, r) ∷ again) (row_back st i i.status (covered_by st i) refl refl h.0)
    ∙ ap (λ rest. (k, i) ∷ rest) (there_and_back st rows h.1)
  where
    again : List (ℕ × CardEmiInstallment)
    again =
        update_where (λ i. is_paid i.status && covered_by st i) (with_status billed)
          (update_where (λ i. is_billed i.status && covered_by st i) (with_status paid) rows)

-- If no instalment that the statement covers was paid before, then settling the statement and owing it
-- again leaves the instalments and the plans as they were.
pub reblock-release :
    (st : SettledStatement) (s : PlanStore)
    → All (λ r. (is_paid r.1.status && covered_by st r.1) ≡ false) s.installments.rows
    → st.is_settled ≡ true
    → reblock_emi_principal_for_statement (owed_again st) (release_emi_principal_for_statement st s)
      ≡ s
unfolding reblock_emi_principal_for_statement release_emi_principal_for_statement covered_by
reblock-release st s h settled = rw settled (
    ap (λ rows. record s { installments = record s.installments { rows = rows } })
      (there_and_back st s.installments.rows h))
