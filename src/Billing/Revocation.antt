-- ===== src/Billing/Revocation.antt =====
-- Credits that end: `ExpireCredits` and `RevokeSubscriptionCreditsTx` of internal/billing/credits.go, and
-- `RevokeGiftedPassCreditsTx` of internal/billing/gift_pass.go.
pub mod Sweep
use finnri_api.Base.{
  ℕ, suc, ◌+◌, ltb, leb, ◌==◌, holds, Bool, ◌&&◌, false, if◌then◌else◌, String, append, decimal,
  Option, none, some, List, [], ◌∷◌,
}
use finnri_api.Table.{find_row, select, update}
use finnri_api.Billing.Data.{CreditGrant, subscription_period, same_source, expiry}
use finnri_api.Billing.Tx.{Store, Tx, pure, modify, gets, ◌>>=◌, ◌>>◌}
use finnri_api.Billing.Allowance.{CreditService}
use finnri_api.Billing.Ledger.{create_grant_ledger}

abbrev pub emptied : CreditGrant → CreditGrant
emptied g = record g { credits_remaining = 0 }

-- UPDATE credit_grants SET credits_remaining = 0 WHERE id = ? AND credits_remaining = ?; the answer is
-- whether a row was affected.
unfoldable pub is_unchanged : ℕ → ℕ → Store → Bool
is_unchanged id remaining s = elim (find_row id s.grants.rows) [
  | none ↦ false
  | some g ↦ g.credits_remaining == remaining
]

-- One round of the loops: what is left of a grant is written off in the ledger. A row that has
-- changed meanwhile is passed over.
unfoldable pub write_off : String → String → ℕ × CreditGrant → Tx ℕ
unfolding is_unchanged create_grant_ledger ◌>>=◌
write_off reason key (id, g) s =
    let write = do
      modify (λ s. record s { grants = update s.grants id emptied })
      create_grant_ledger id (emptied g) expiry g.credits_remaining reason (append key (decimal id))
      pure g.credits_remaining
    in (if is_unchanged id g.credits_remaining s then write else pure 0) s

-- The credits taken back in all.
unfoldable pub revoke_grants : String → String → List (ℕ × CreditGrant) → ℕ → Tx ℕ
unfolding write_off ◌>>=◌
revoke_grants reason key [] revoked = pure revoked
revoke_grants reason key (r ∷ rows) revoked = do
  taken ← write_off reason key r
  revoke_grants reason key rows (revoked + taken)

abbrev pub is_period_of : ℕ → CreditGrant → Bool
is_period_of subscription g =
    holds g.subscription_id subscription
    && same_source g.source subscription_period
    && ltb 0 g.credits_remaining

unfoldable pub revoke_subscription_credits : ℕ → Tx ℕ
unfolding revoke_grants
revoke_subscription_credits subscription = do
  rows ← gets (λ s. select (is_period_of subscription) s.grants.rows)
  revoke_grants "subscription_refund_revoked" "refund:grant:" rows 0

abbrev pub is_tied_to : ℕ → CreditGrant → Bool
is_tied_to subscription g = holds g.subscription_id subscription && ltb 0 g.credits_remaining

unfoldable pub revoke_gifted_pass_credits : ℕ → Tx ℕ
unfolding revoke_grants
revoke_gifted_pass_credits subscription = do
  rows ← gets (λ s. select (is_tied_to subscription) s.grants.rows)
  revoke_grants "gift_pass_revoked" "gift_revoke:grant:" rows 0

abbrev pub has_ended : ℕ → Option ℕ → Bool
has_ended now none = false
has_ended now (some t) = leb t now

abbrev pub is_expired : ℕ → CreditGrant → Bool
is_expired now g = has_ended now g.expires_at && ltb 0 g.credits_remaining

-- The number of grants that expired.
unfoldable pub expire_grants : List (ℕ × CreditGrant) → ℕ → Tx ℕ
unfolding write_off ◌>>=◌
expire_grants [] expired = pure expired
expire_grants (r ∷ rows) expired = do
  taken ← write_off "credit_grant_expiry" "expiry:grant:" r
  expire_grants rows (if ltb 0 taken then suc expired else expired)

unfoldable pub expire_credits : CreditService → Tx ℕ
unfolding expire_grants
expire_credits svc = do
  rows ← gets (λ s. select (is_expired svc.now) s.grants.rows)
  expire_grants rows 0
