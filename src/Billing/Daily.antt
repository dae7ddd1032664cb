-- ===== src/Billing/Daily.antt =====
-- `adjustDailyUsage` of internal/billing/credits.go: the day's counter of a subject, never below 0.
use finnri_api.Base.{ℕ, Bool, true, false, if◌then◌else◌, trim_space, none, some}
use finnri_api.Base.Int.{ℤ, pos, negsuc, pos_part, add_floor}
use finnri_api.Table.{first_row, insert, update}
use finnri_api.Billing.Data.{CreditSubject, DailyCreditUsage}
use finnri_api.Billing.Tx.{Tx, pure, modify}
use finnri_api.Billing.Allowance.{is_daily_row, usage_day}

abbrev pub is_zero : ℤ → Bool
is_zero (pos ℕ.zero) = true
is_zero (pos (ℕ.suc n)) = false
is_zero (negsuc n) = false

abbrev pub add_credits_used : ℤ → DailyCreditUsage → DailyCreditUsage
add_credits_used delta u = record u { credits_used = add_floor u.credits_used delta }

abbrev pub new_daily : CreditSubject → ℕ → ℤ → DailyCreditUsage
new_daily c at delta = record {
  user_id = c.user_id;
  guest_device_id_hash = trim_space c.guest_device_id_hash;
  usage_date = usage_day at;
  credits_used = pos_part delta;
}

unfoldable pub adjust_daily_usage : CreditSubject → ℕ → ℤ → Tx (Unit {0})
unfolding pure modify
adjust_daily_usage c at delta s =
    if is_zero delta
    then pure tt s
    else elim (first_row (is_daily_row c (usage_day at)) s.daily.rows) [
      | none ↦ modify (λ s. record s { daily = insert s.daily (new_daily c at delta) }) s
      | some (i, u) ↦ modify (λ s. record s { daily = update s.daily i (add_credits_used delta) }) s
    ]
