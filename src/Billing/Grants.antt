-- ===== src/Billing/Grants.antt =====
-- How a subject comes by credits (internal/billing/credits.go): manual adjustments, the free trial of
-- a user or a guest device, and the period of a subscription.
pub mod Once
pub mod Adds
use finnri_api.Base.{
  ℕ, zero, suc, ◌+◌, ◌-◌, ◌*◌, ltb, leb, ◌==◌, holds, Bool, true, false, not, ◌&&◌, if◌then◌else◌,
  String, str_eq, is_blank, trim_space, append, decimal, Option, none, some,
}
use finnri_api.Base.Int.{ℤ, pos, negsuc}
use finnri_api.Result.{
  Result, ok, err, record_not_found, invalid_credit_subject, credits_not_positive, user_required,
  subscription_required, expiry_not_after,
}
use finnri_api.Table.{Table, find_row, first_row, insert, update}
use finnri_api.Billing.Data.{
  UserSubscription, CreditGrant, CreditLedger, GuestUsageKey, CreditSubject, GrantSource,
  free_trial, subscription_period, manual_adjustment, same_source, grant, same_direction,
  trial_duration, logged_in_free_trial_credits, guest_trial_credits,
}
use finnri_api.Billing.Tx.{Store, Tx, pure, fail, gets, demand, modify, ◌>>=◌, ◌>>◌}
use finnri_api.Billing.Allowance.{CreditService, is_valid}
use finnri_api.Billing.Ledger.{create_grant_ledger}

-- The grant, unless the call found none to return, and whether it was created.
abbrev pub Granted : Type 0
Granted = Option (ℕ × CreditGrant) × Bool

-- A new grant, what is done with its key, and the ledger row that opens its account.
unfoldable pub open_grant_with :
    CreditGrant → String → String → (ℕ → Tx (Unit {0})) → Tx (ℕ × CreditGrant)
unfolding create_grant_ledger ◌>>=◌
open_grant_with g reason key use_key = do
  id ← gets (λ s. s.grants.next_id)
  modify (λ s. record s { grants = insert s.grants g })
  use_key id
  create_grant_ledger id g grant g.credits_granted reason key
  pure (id, g)

unfoldable pub open_grant : CreditGrant → String → String → Tx (ℕ × CreditGrant)
unfolding open_grant_with
open_grant g reason key = open_grant_with g reason key (λ id. pure tt)

abbrev pub new_grant : Option ℕ → String → GrantSource → ℕ → ℕ → Option ℕ → Option ℕ → CreditGrant
new_grant user hash source credits from expires subscription = record {
  user_id = user;
  guest_device_id_hash = hash;
  source = source;
  credits_granted = credits;
  credits_remaining = credits;
  valid_from = from;
  expires_at = expires;
  subscription_id = subscription;
}

-- The first grant that passes the test, or else a new one.
unfoldable pub find_or_open : (CreditGrant → Bool) → CreditGrant → String → String → Tx Granted
unfolding open_grant ◌>>=◌
find_or_open p g reason key = do
  earlier ← gets (λ s. first_row p s.grants.rows)
  elim earlier [
    | none ↦ do opened ← open_grant g reason key; pure (some opened, true)
    | some r ↦ pure (some r, false)
  ]

-- Go's zero time lies this many seconds before the Unix epoch.
abbrev pub unix_nano : ℕ → ℕ
unix_nano t = t - 62_135_596_800 * 1_000_000_000

abbrev pub manual_reason : String → String
manual_reason reason = if is_blank reason then "manual_credit_adjustment" else trim_space reason

abbrev pub manual_key : CreditService → String → String → String
manual_key svc reason key =
    if is_blank key
    then append "manual_adjustment:" (append (decimal (unix_nano svc.now)) (append ":" reason))
    else trim_space key

abbrev pub is_grant_entry : String → CreditLedger → Bool
is_grant_entry key x = str_eq x.idempotency_key key && same_direction x.direction grant

unfoldable pub load_grant : Option ℕ → Tx Granted
unfolding ◌>>=◌
load_grant none = pure (none, false)
load_grant (some id) = do
  found ← gets (λ s. find_row id s.grants.rows)
  g ← demand record_not_found found
  pure (some (id, g), false)

unfoldable pub adjust_manually :
    CreditService → CreditSubject → ℕ → String → String → Option ℕ → Tx Granted
unfolding open_grant load_grant ◌>>=◌
adjust_manually svc c credits reason key expires = do
  earlier ← gets (λ s. first_row (is_grant_entry key) s.ledger.rows)
  elim earlier [
    | some (i, x) ↦ load_grant x.grant_id
    | none ↦ do
      opened ←
          open_grant
            (new_grant c.user_id (trim_space c.guest_device_id_hash) manual_adjustment credits
              svc.now expires none)
            reason key
      pure (some opened, true)
  ]

unfoldable pub grant_manual_adjustment :
    CreditService → CreditSubject → ℤ → String → String → Option ℕ → Tx Granted
unfolding adjust_manually is_valid
grant_manual_adjustment svc c (negsuc n) reason key expires =
    fail (if not (is_valid c) then invalid_credit_subject else credits_not_positive)
grant_manual_adjustment svc c (pos zero) reason key expires =
    fail (if not (is_valid c) then invalid_credit_subject else credits_not_positive)
grant_manual_adjustment svc c (pos (suc n)) reason key expires =
    if not (is_valid c)
    then fail invalid_credit_subject
    else adjust_manually svc c (suc n) (manual_reason reason)
        (manual_key svc (manual_reason reason) key) expires

abbrev pub is_user_trial : ℕ → CreditGrant → Bool
is_user_trial user g = holds g.user_id user && same_source g.source free_trial

abbrev pub user_trial_grant : CreditService → ℕ → CreditGrant
user_trial_grant svc user =
    new_grant (some user) "" free_trial logged_in_free_trial_credits svc.now
      (some (svc.now + trial_duration)) none

abbrev pub user_trial_key : ℕ → String
user_trial_key user = append "free_trial:user:" (decimal user)

-- `ensureLoggedInFreeTrialGrantTx`
unfoldable pub ensure_user_trial : CreditService → ℕ → Tx Granted
ensure_user_trial svc user =
    find_or_open (is_user_trial user) (user_trial_grant svc user) "free_trial_grant"
      (user_trial_key user)

-- After a failure the grant of another request is looked for once more.
unfoldable pub or_existing : (CreditGrant → Bool) → Tx Granted → Tx Granted
or_existing p m s = elim (m s) [
  | ok (r, s') ↦ ok (r, s')
  | err e ↦ elim (first_row p s.grants.rows) [
    | some (i, g) ↦ ok ((some (i, g), false), s)
    | none ↦ err e
  ]
]

unfoldable pub ensure_logged_in_free_trial_grant : CreditService → ℕ → Tx Granted
unfolding ensure_user_trial find_or_open or_existing
ensure_logged_in_free_trial_grant svc user =
    if user == 0
    then fail user_required
    else or_existing (is_user_trial user) (ensure_user_trial svc user)

-- `HashUsageKey`, over the hexadecimal SHA-256 of a text.
unfoldable pub hash_usage_key : (String → String) → String → String
hash_usage_key sha256_hex value = if is_blank value then "" else sha256_hex (trim_space value)

abbrev pub seen_again : ℕ → String → GuestUsageKey → GuestUsageKey
seen_again now ip k = record k {
  last_seen_at = now;
  ip_hash = if str_eq ip "" then k.ip_hash else ip;
}

unfoldable pub write_guest_keys : (Table GuestUsageKey → Table GuestUsageKey) → Tx (Unit {0})
unfolding modify
write_guest_keys f = modify (λ s. record s { guest_keys = f s.guest_keys })

abbrev pub first_seen : ℕ → String → String → GuestUsageKey
first_seen now device ip = record {
  guest_device_id_hash = device;
  ip_hash = ip;
  first_seen_at = now;
  last_seen_at = now;
  trial_grant_id = none;
}

-- The row of the device, and the trial grant that it knows of.
unfoldable pub touch_guest_key : ℕ → String → String → Tx (ℕ × Option ℕ)
unfolding write_guest_keys ◌>>=◌
touch_guest_key now device ip = do
  known ← gets (λ s. first_row (λ k. str_eq k.guest_device_id_hash device) s.guest_keys.rows)
  elim known [
    | none ↦ do
      i ← gets (λ s. s.guest_keys.next_id)
      write_guest_keys (λ keys. insert keys (first_seen now device ip))
      pure (i, none)
    | some (i, k) ↦ do
      write_guest_keys (λ keys. update keys i (seen_again now ip))
      pure (i, k.trial_grant_id)
  ]

unfoldable pub set_trial : ℕ → ℕ → Tx (Unit {0})
unfolding write_guest_keys
set_trial key id =
    write_guest_keys (λ keys. update keys key (λ k. record k { trial_grant_id = some id }))

abbrev pub is_guest_trial : String → CreditGrant → Bool
is_guest_trial device g = str_eq g.guest_device_id_hash device && same_source g.source free_trial

abbrev pub guest_trial : CreditService → String → CreditGrant
guest_trial svc device =
    new_grant none device free_trial guest_trial_credits svc.now (some (svc.now + trial_duration))
      none

unfoldable pub ensure_guest_trial : CreditService → String → String → Tx Granted
unfolding touch_guest_key set_trial open_grant_with ◌>>=◌
ensure_guest_trial svc device ip = do
  key ← touch_guest_key svc.now device ip
  earlier ← gets (λ s. first_row (is_guest_trial device) s.grants.rows)
  elim earlier [
    | some (i, g) ↦ do
      elim key.1 [ none ↦ set_trial key.0 i | some t ↦ pure tt ]
      pure (some (i, g), false)
    | none ↦ do
      opened ←
          open_grant_with (guest_trial svc device) "guest_trial_grant"
            (append "free_trial:guest:" device) (set_trial key.0)
      pure (some opened, true)
  ]

unfoldable pub ensure_guest_trial_grant :
    CreditService → (String → String) → String → String → Tx Granted
unfolding ensure_guest_trial or_existing hash_usage_key
ensure_guest_trial_grant svc sha256_hex device ip =
    let hash = hash_usage_key sha256_hex device in
    if str_eq hash ""
    then pure (none, false)
    else or_existing (is_guest_trial hash)
        (ensure_guest_trial svc hash (hash_usage_key sha256_hex ip))

abbrev pub is_period_grant : ℕ → ℕ → CreditGrant → Bool
is_period_grant subscription from g =
    holds g.subscription_id subscription
    && (g.valid_from == from)
    && same_source g.source subscription_period

abbrev pub period_grant : ℕ → UserSubscription → ℕ → ℕ → ℕ → CreditGrant
period_grant id sub credits from expires =
    new_grant (some sub.user_id) "" subscription_period credits from (some expires) (some id)

abbrev pub period_key : CreditService → ℕ → ℕ → String
period_key svc id from =
    append "subscription_period:" (append (decimal id) (append ":" (svc.rfc3339 from)))

unfoldable pub open_period : CreditService → ℕ → UserSubscription → ℕ → ℕ → ℕ → Tx Granted
open_period svc id sub credits from expires =
    find_or_open (is_period_grant id from) (period_grant id sub credits from expires)
      "subscription_period_grant" (period_key svc id from)

unfoldable pub grant_subscription_period :
    CreditService → ℕ → UserSubscription → ℕ → ℕ → ℕ → Tx Granted
unfolding open_period find_or_open or_existing
grant_subscription_period svc id sub credits from expires =
    if id == 0
    then fail subscription_required
    else if sub.user_id == 0
    then fail user_required
    else if credits == 0
    then fail credits_not_positive
    else if leb expires from
    then fail expiry_not_after
    else or_existing (is_period_grant id from) (open_period svc id sub credits from expires)
