-- ===== src/Billing/Balance/Openings.antt =====
-- The operations that open accounts keep them balanced.
use finnri_api.Base.{
  str_eq, append, ℕ, zero, suc, ◌≡◌, refl, Bool, true, false, String, trim_space, Option, none,
  some,
}
use finnri_api.Base.Int.{ℤ, pos, negsuc}
use finnri_api.Result.{Result, ok, err}
use finnri_api.Table.{Table, first_row, insert, update}
use finnri_api.Billing.Data.{
  CreditGrant, CreditSubject, UserSubscription, GuestUsageKey, manual_adjustment,
}
use finnri_api.Billing.Tx.{Store, Tx, pure}
use finnri_api.Billing.Allowance.{CreditService}
use finnri_api.Billing.Grants.{
  Granted, guest_trial, first_seen, seen_again, is_guest_trial, write_guest_keys, find_or_open,
  new_grant, is_grant_entry, open_grant, adjust_manually, grant_manual_adjustment,
  ensure_user_trial, or_existing, load_grant, ensure_logged_in_free_trial_grant, ensure_guest_trial,
  ensure_guest_trial_grant, touch_guest_key, set_trial, grant_subscription_period, open_period,
}
use finnri_api.Billing.Balance.{IsSound}
use finnri_api.Billing.Balance.Rules.{
  Keeps, KeepsAccounts, OnSuccess, Keeps-pure, Keeps-gets, Keeps-bind, Keeps-option, keeps_rules,
}
use finnri_api.Billing.Balance.Moves.{open_grant_with-Keeps}
use finnri_api.Billing.Balance.Operations.{KeepsAccounts-Keeps}

open_grant-Keeps :
    (g : CreditGrant) (reason key : String)
    → g.credits_remaining ≡ g.credits_granted
    → Keeps IsSound (open_grant g reason key)
unfolding open_grant
open_grant-Keeps g reason key full =
    open_grant_with-Keeps g reason key (λ id. pure tt) full
      (λ id. record { same = λ s. unfold pure in (refl, refl) })

or_existing-Keeps :
    (p : CreditGrant → Bool) (m : Tx Granted) → Keeps IsSound m → Keeps IsSound (or_existing p m)
unfolding or_existing
or_existing-Keeps p m k = record { at = λ s h. fall_back s h (m s) (k.at s h) }
  where
    fall_back :
        (s : Store)
        → IsSound s
        → (r : Result (Granted × Store)) → OnSuccess IsSound r
        → OnSuccess IsSound (elim r [
          | ok (a, t) ↦ ok (a, t)
          | err e ↦ elim (first_row p s.grants.rows) [
            | some (i, g) ↦ ok ((some (i, g), false), s)
            | none ↦ err e
          ]
        ])
    fall_back s h (ok (a, t)) q = q
    fall_back s h (err e) q = existing (first_row p s.grants.rows)
      where
        existing :
            (o : Option (ℕ × CreditGrant))
            → OnSuccess {A = Granted} IsSound
                (elim o [ some (i, g) ↦ ok ((some (i, g), false), s) | none ↦ err e ])
        existing none = tt
        existing (some r) = h

find_or_open-Keeps :
    (p : CreditGrant → Bool) (g : CreditGrant) (reason key : String)
    → g.credits_remaining ≡ g.credits_granted
    → Keeps IsSound (find_or_open p g reason key)
unfolding find_or_open
find_or_open-Keeps p g reason key full =
    Keeps-bind _ _ (Keeps-gets (λ s. first_row p s.grants.rows)) (λ earlier.
      Keeps-option earlier _ _
        (Keeps-bind _ _ (open_grant-Keeps g reason key full)
          (λ opened. Keeps-pure (some opened, true)))
        (λ r. Keeps-pure (some r, false)))

load_grant-Keeps : (o : Option ℕ) → Keeps IsSound (load_grant o)
unfolding load_grant
load_grant-Keeps none = search keeps_rules
load_grant-Keeps (some id) = search keeps_rules

adjust_manually-Keeps :
    (svc : CreditService) (c : CreditSubject) (credits : ℕ) (reason key : String)
    (expires : Option ℕ)
    → Keeps IsSound (adjust_manually svc c credits reason key expires)
unfolding adjust_manually
adjust_manually-Keeps svc c credits reason key expires =
    Keeps-bind _ _ (Keeps-gets (λ s. first_row (is_grant_entry key) s.ledger.rows)) (λ earlier.
      Keeps-option earlier _ _
        (Keeps-bind _ _
          (open_grant-Keeps
            (new_grant c.user_id (trim_space c.guest_device_id_hash) manual_adjustment credits
              svc.now expires none)
            reason key refl)
          (λ opened. Keeps-pure (some opened, true)))
        (λ x. load_grant-Keeps x.1.grant_id))

pub grant_manual_adjustment-Keeps :
    (svc : CreditService) (c : CreditSubject) (credits : ℤ) (reason key : String)
    (expires : Option ℕ)
    → Keeps IsSound (grant_manual_adjustment svc c credits reason key expires)
unfolding grant_manual_adjustment
grant_manual_adjustment-Keeps svc c (negsuc n) reason key expires = search keeps_rules
grant_manual_adjustment-Keeps svc c (pos zero) reason key expires = search keeps_rules
grant_manual_adjustment-Keeps svc c (pos (suc n)) reason key expires =
    search (keeps_rules, adjust_manually-Keeps)

ensure_user_trial-Keeps :
    (svc : CreditService) (user : ℕ) → Keeps IsSound (ensure_user_trial svc user)
unfolding ensure_user_trial
ensure_user_trial-Keeps svc user = find_or_open-Keeps _ _ _ _ refl

pub ensure_logged_in_free_trial_grant-Keeps :
    (svc : CreditService) (user : ℕ) → Keeps IsSound (ensure_logged_in_free_trial_grant svc user)
unfolding ensure_logged_in_free_trial_grant
ensure_logged_in_free_trial_grant-Keeps svc user =
    search (keeps_rules, or_existing-Keeps, ensure_user_trial-Keeps)

open_period-Keeps :
    (svc : CreditService) (id : ℕ) (sub : UserSubscription) (credits from expires : ℕ)
    → Keeps IsSound (open_period svc id sub credits from expires)
unfolding open_period
open_period-Keeps svc id sub credits from expires = find_or_open-Keeps _ _ _ _ refl

pub grant_subscription_period-Keeps :
    (svc : CreditService) (id : ℕ) (sub : UserSubscription) (credits from expires : ℕ)
    → Keeps IsSound (grant_subscription_period svc id sub credits from expires)
unfolding grant_subscription_period
grant_subscription_period-Keeps svc id sub credits from expires =
    search (keeps_rules, or_existing-Keeps, open_period-Keeps) depth 9

write_guest_keys-Keeps :
    (f : Table GuestUsageKey → Table GuestUsageKey) → KeepsAccounts (write_guest_keys f)
unfolding write_guest_keys
write_guest_keys-Keeps f = record { same = λ s. (refl, refl) }

set_trial-Keeps : (key id : ℕ) → KeepsAccounts (set_trial key id)
unfolding set_trial
set_trial-Keeps key id =
    write_guest_keys-Keeps (λ keys. update keys key (λ k. record k { trial_grant_id = some id }))

keys_frame : (f : Table GuestUsageKey → Table GuestUsageKey) → Keeps IsSound (write_guest_keys f)
keys_frame f = KeepsAccounts-Keeps _ (write_guest_keys-Keeps f)

touch_guest_key-Keeps :
    (now : ℕ) (device ip : String) → Keeps IsSound (touch_guest_key now device ip)
unfolding touch_guest_key
touch_guest_key-Keeps now device ip =
    Keeps-bind _ _
      (Keeps-gets (λ s. first_row (λ k. str_eq k.guest_device_id_hash device) s.guest_keys.rows))
      (λ known.
        Keeps-option known _ _
          (Keeps-bind _ _ (Keeps-gets (λ s. s.guest_keys.next_id)) (λ i.
            Keeps-bind _ _ (keys_frame (λ keys. insert keys (first_seen now device ip)))
              (λ t. Keeps-pure (i, none))))
          (λ r.
            Keeps-bind _ _ (keys_frame (λ keys. update keys r.0 (seen_again now ip)))
              (λ t. Keeps-pure (r.0, r.1.trial_grant_id))))

ensure_guest_trial-Keeps :
    (svc : CreditService) (device ip : String) → Keeps IsSound (ensure_guest_trial svc device ip)
unfolding ensure_guest_trial
ensure_guest_trial-Keeps svc device ip =
    Keeps-bind _ _ (touch_guest_key-Keeps svc.now device ip) (λ key.
      Keeps-bind _ _ (Keeps-gets (λ s. first_row (is_guest_trial device) s.grants.rows)) (λ earlier.
        Keeps-option earlier _ _
          (Keeps-bind _ _
            (open_grant_with-Keeps (guest_trial svc device) "guest_trial_grant"
              (append "free_trial:guest:" device) (set_trial key.0) refl (set_trial-Keeps key.0))
            (λ opened. Keeps-pure (some opened, true)))
          (λ r.
            Keeps-bind _ _
              (Keeps-option key.1 _ _ (KeepsAccounts-Keeps _ (set_trial-Keeps key.0 r.0))
                (λ t. Keeps-pure tt))
              (λ t. Keeps-pure (some r, false)))))

pub ensure_guest_trial_grant-Keeps :
    (svc : CreditService) (sha256_hex : String → String) (device ip : String)
    → Keeps IsSound (ensure_guest_trial_grant svc sha256_hex device ip)
unfolding ensure_guest_trial_grant
ensure_guest_trial_grant-Keeps svc sha256_hex device ip =
    search (keeps_rules, or_existing-Keeps, ensure_guest_trial-Keeps) depth 9
