-- ===== src/Payments/Refund/Ends.antt =====
-- A payment that is refunded in full ends the pass that it bought.
use finnri_api.Base.{
  ℕ, ◌+◌, ◌≡◌, ◌≤◌, refl, sym, ap, ◌∙◌, subst, ltb, arith, ◌||◌, true, false, Bool-cases,
  Option-cases, inl, inr, String, str_eq, append, decimal, none, some, List, [], ◌∷◌, if◌then◌else◌,
}
use mathlib.Core.Option
use mathlib.Core.Option.{some-injective}
use finnri_api.Result.{Result, ok, err}
use finnri_api.Table.{find_row, first_row, select, update}
use finnri_api.Table.Laws.{IsTable, find_row-update_row_self}
use finnri_api.Table.Search.{first_row-Held}
use finnri_api.Billing.Data.{UserSubscription, CreditGrant, expiry}
use finnri_api.Billing.Ledger.{create_grant_ledger, grant_entry}
use finnri_api.Billing.Tx.{Store, pure, gets, modify, ◌>>=◌}
use finnri_api.Billing.Balance.Rules.{OnSuccess, bind-OnSuccess, Keeps-pure}
use finnri_api.Billing.Balance.Moves.{create_ledger-then}
use finnri_api.Billing.Revocation.{
  emptied, write_off, revoke_grants, revoke_subscription_credits, is_period_of, is_unchanged,
}
use finnri_api.Billing.Revocation.Sweep.{revoke_subscription_credits_complete}
use finnri_api.Payments.Data.{
  Payment, WebhookRefund, WebhookStatus, PayStore, WebhookService, Applied, processed, is_refunded,
}
use finnri_api.Payments.Refund.{
  apply_refund, refund_payment, count_refund, end_payment, end_subscription, end_pass, counted,
  add_refunded, set_refunded, for_payment, same_refund,
}

-- The pass's subscription is not active, and none of its period grants has credits left.
pub record HasEnded (sub : ℕ) (s : Store) : Type 0 where
  pub inactive :
      (x : UserSubscription)
      → find_row sub s.subscriptions.rows ≡ some x
      → str_eq x.status "active" ≡ false
  pub emptied :
      (id : ℕ) (g : CreditGrant) → find_row id s.grants.rows ≡ some g → is_period_of sub g ≡ false

abbrev Inactive : ℕ → Store → Type 0
Inactive sub s =
    (x : UserSubscription)
    → find_row sub s.subscriptions.rows ≡ some x
    → str_eq x.status "active" ≡ false

end_pass_inactive :
    (now : ℕ) (x : UserSubscription) → str_eq (end_pass now x).status "active" ≡ false
end_pass_inactive now x = elim (Bool-cases (str_eq x.status "active")) [
  | inl e ↦ rw e refl
  | inr e ↦ rw e e
]

ended-Inactive :
    (now sub : ℕ) (s : Store)
    → Inactive sub (record s { subscriptions = update s.subscriptions sub (end_pass now) })
unfolding update
ended-Inactive now sub s x h = elim (Option-cases (find_row sub s.subscriptions.rows)) [
  | inl n ↦ absurd (cc (n, h, find_row-update_row_self sub (end_pass now) s.subscriptions.rows))
  | inr (old, was) ↦
      let now_ : x ≡ end_pass now old = some-injective _ _ (
        sym h
        ∙ find_row-update_row_self sub (end_pass now) s.subscriptions.rows
        ∙ ap (Option.map (end_pass now)) was) in
      rw now_ (end_pass_inactive now old)
]

-- What is written off touches no subscription.
write_off-Inactive :
    (sub : ℕ) (reason key : String) (r : ℕ × CreditGrant) (s : Store)
    → Inactive sub s
    → OnSuccess (Inactive sub) (write_off reason key r s)
unfolding write_off create_grant_ledger pure
write_off-Inactive sub reason key (id, g) s h =
    elim (Bool-cases (is_unchanged id g.credits_remaining s)) [
      | inl e ↦
          let x =
            grant_entry id (emptied g) expiry g.credits_remaining reason
              (append key (decimal id)) in
          rw e (
            create_ledger-then (Inactive sub) x (λ t. pure g.credits_remaining)
              (record s { grants = update s.grants id emptied }) h (Keeps-pure g.credits_remaining))
      | inr e ↦ rw e h
    ]

revoke_grants-Inactive :
    (sub : ℕ) (reason key : String) (rows : List (ℕ × CreditGrant)) (n : ℕ) (s : Store)
    → Inactive sub s
    → OnSuccess (Inactive sub) (revoke_grants reason key rows n s)
unfolding revoke_grants pure
revoke_grants-Inactive sub reason key [] n s h = h
revoke_grants-Inactive sub reason key (r ∷ rows) n s h =
    bind-OnSuccess (Inactive sub) (Inactive sub) (write_off reason key r) _ s
      (write_off-Inactive sub reason key r s h)
      (λ taken t k. revoke_grants-Inactive sub reason key rows (n + taken) t k)

ended_after :
    (sub : ℕ) (s b : Store) (n : ℕ)
    → Inactive sub s
    → revoke_subscription_credits sub s ≡ ok (n, b)
    → HasEnded sub b
unfolding revoke_subscription_credits gets ◌>>=◌
ended_after sub s b n h run = record {
  inactive = subst (OnSuccess (Inactive sub)) run (
      revoke_grants-Inactive sub "subscription_refund_revoked" "refund:grant:"
        (select (is_period_of sub) s.grants.rows) 0 s h);
  emptied = λ id g found. revoke_subscription_credits_complete sub s run id g found;
}

end_subscription-HasEnded :
    (now sub : ℕ) (s b : Store) (n : ℕ) → end_subscription now sub s ≡ ok (n, b) → HasEnded sub b
unfolding end_subscription modify ◌>>=◌
end_subscription-HasEnded now sub s b n run =
    ended_after sub (record s { subscriptions = update s.subscriptions sub (end_pass now) }) b n
      (ended-Inactive now sub s) run

-- The row of the payment that is refunded.
abbrev pub IsRefunded : ℕ → PayStore → Type 0
IsRefunded id t =
    (q : Payment) × (find_row id t.payments.rows ≡ some q) × (is_refunded q.status ≡ true)

end_payment-HasEnded :
    (w : WebhookService) (id : ℕ) (p q : Payment) (sub : ℕ) (before s t : PayStore)
    (r : WebhookStatus × String)
    → p.subscription_id ≡ some sub
    → find_row id s.payments.rows ≡ some q
    → end_payment w id p before s ≡ (ok r, t)
    → HasEnded sub t.billing × IsRefunded id t
unfolding end_payment update
end_payment-HasEnded w id p q sub before s t r known found run =
    go (end_subscription w.credits.now sub s.billing) refl (rw known at run)
  where
    marked : PayStore
    marked = record s { payments = update s.payments id (set_refunded w.credits.now) }

    go :
        (x : Result (ℕ × Store))
        → end_subscription w.credits.now sub s.billing ≡ x
        → elim x as (λ y. Applied) [
          | err y ↦ (err y, before)
          | ok (n, b) ↦ (
            ok (processed, "refunded in full, subscription ended"),
            record marked { billing = b },
          )
        ]
          ≡ (ok r, t)
        → HasEnded sub t.billing × IsRefunded id t
    go (err y) e h = absurd (cc (ap (λ a. a.0) h))
    go (ok (n, b)) e h =
        subst (λ u. HasEnded sub u.billing × IsRefunded id u) (ap (λ a. a.1) h)
          (
            end_subscription-HasEnded w.credits.now sub s.billing b n e,
            (
              set_refunded w.credits.now q,
              find_row-update_row_self id (set_refunded w.credits.now) s.payments.rows
                  ∙ ap (Option.map (set_refunded w.credits.now)) found,
              refl,
            ),
          )

reaches : (m r x : ℕ) → m ≤ r + x → ltb (if ltb m (r + x) then m else r + x) m ≡ false
reaches m r x h = ground arith

-- A refund that brings the amount back in full goes on to end the payment.
refund-end_payment :
    (w : WebhookService) (e : WebhookRefund) (s : PayStore) (id : ℕ) (p : Payment)
    → str_eq e.payment_id "" ≡ false
    → str_eq e.id "" ≡ false
    → IsTable s.payments
    → first_row (for_payment e.payment_id) s.payments.rows ≡ some (id, p)
    → first_row (same_refund e.id) s.refunds.rows ≡ none
    → is_refunded p.status ≡ false
    → p.amount_minor ≤ p.amount_refunded_minor + e.amount_minor
    → (apply_refund w e s ≡ end_payment w id p s (counted id e s))
      × (find_row id (counted id e s).payments.rows ≡ some (add_refunded e.amount_minor p))
unfolding apply_refund refund_payment count_refund
refund-end_payment w e s id p given named table found new unrefunded full =
    let held : find_row id (counted id e s).payments.rows ≡ some (add_refunded e.amount_minor p) =
      unfold update in
      find_row-update_row_self id (add_refunded e.amount_minor) s.payments.rows
      ∙ ap (Option.map (add_refunded e.amount_minor))
          (first_row-Held (for_payment e.payment_id) id p s.payments.rows table.keyed found) in
    let looked : apply_refund w e s ≡ refund_payment w e id p s =
      rw (apply_refund, given, found) refl in
    let fresh : refund_payment w e id p s ≡ count_refund w e id p s =
      rw (refund_payment, named, new) refl in
    let short : (ltb (add_refunded e.amount_minor p).amount_refunded_minor p.amount_minor
          || is_refunded p.status)
        ≡ false =
      rw (reaches p.amount_minor p.amount_refunded_minor e.amount_minor full) unrefunded in
    let ends : count_refund w e id p s ≡ end_payment w id p s (counted id e s) =
      rw (count_refund, held, short) refl in
    (looked ∙ fresh ∙ ends, held)

-- When the table of payments has its keys in order, and a new refund brings a payment that bought a
-- subscription to its full amount for the first time: if the event is applied without an error, the
-- payment is refunded, the subscription is not active, and no period grant of it has credits left.
pub apply_refund-HasEnded :
    (w : WebhookService) (e : WebhookRefund) (s t : PayStore) (id : ℕ) (p : Payment) (sub : ℕ)
    (r : WebhookStatus × String)
    → str_eq e.payment_id "" ≡ false
    → str_eq e.id "" ≡ false
    → IsTable s.payments
    → first_row (for_payment e.payment_id) s.payments.rows ≡ some (id, p)
    → first_row (same_refund e.id) s.refunds.rows ≡ none
    → is_refunded p.status ≡ false
    → p.amount_minor ≤ p.amount_refunded_minor + e.amount_minor
    → p.subscription_id ≡ some sub
    → apply_refund w e s ≡ (ok r, t)
    → HasEnded sub t.billing × IsRefunded id t
apply_refund-HasEnded w e s t id p sub r given named table found new unrefunded full bought run =
    let (same, held) = refund-end_payment w e s id p given named table found new unrefunded full in
    end_payment-HasEnded w id p (add_refunded e.amount_minor p) sub s (counted id e s) t r bought
      held (sym same ∙ run)
