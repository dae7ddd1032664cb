-- ===== src/AiGuard/Blocks.antt =====
-- The rows that block a subject's reads by AI, and the pause after reads that failed.

pub mod Pause
use finnri_api.Base.{
  ℕ, ◌+◌, ◌-◌, leb, ltb, Bool, true, false, ◌&&◌, ◌||◌, String, str_eq, Option, none, some, List,
  if◌then◌else◌, length,
}
use finnri_api.Base.Int64.{Int64, two_64, mul64, neg64, le64, is_negative}
use finnri_api.Table.{select, last_by}
use finnri_api.Billing.Data.{
  AiAbuseBlock, CreditSubject, AiUsageEvent, UsageStatus, failed_after_provider,
}
use finnri_api.Billing.Allowance.{in_scope, unexpired}

-- active = true AND scope IN ('ai_parse', 'all_ai') AND (expires_at IS NULL OR expires_at > now), and
-- the subject's.
unfoldable pub is_blocking : CreditSubject → ℕ → AiAbuseBlock → Bool
unfolding in_scope
is_blocking subject now block =
    block.active
    && (str_eq block.scope "ai_parse" || str_eq block.scope "all_ai")
    && unexpired block.expires_at now
    && in_scope subject block.user_id block.guest_device_id_hash

unfoldable pub active_ai_abuse_block :
    CreditSubject → ℕ → List (ℕ × AiAbuseBlock) → Option (ℕ × AiAbuseBlock)
unfolding is_blocking last_by
active_ai_abuse_block subject now rows = last_by (is_blocking subject now) (λ b. b.created_at) rows

pub record CooldownSettings : Type 0 where
  pub threshold : Int64
  pub window_minutes : Int64
  pub minutes : Int64

-- `t.Add(d)`
abbrev pub add_duration : ℕ → Int64 → ℕ
add_duration t d = if is_negative d then t - (two_64 - d) else t + d

abbrev pub minute : ℕ
minute = 60000000000

unfoldable pub is_failed : CreditSubject → ℕ → AiUsageEvent → Bool
unfolding in_scope
is_failed subject window_start e =
    leb window_start e.started_at
    && failed_status e.status
    && in_scope subject e.user_id e.guest_device_id_hash
  where
    failed_status : UsageStatus → Bool
    failed_status failed_after_provider = true
    failed_status _ = false

-- The answer from the number of failed reads in the window and the latest of them. The second query
-- finds a row whenever the first has counted one.
unfoldable pub cooldown_from : CooldownSettings → ℕ → ℕ → Option (ℕ × AiUsageEvent) → Bool × ℕ × ℕ
cooldown_from cfg now failures none = (false, 0, failures)
cooldown_from cfg now failures (some (i, latest)) =
    let retry_at = add_duration latest.started_at (mul64 cfg.minutes minute) in
    if ltb failures cfg.threshold
    then (false, 0, failures)
    else if ltb now retry_at
    then (true, retry_at, failures)
    else (false, 0, failures)

-- Whether a pause is active, until when, and how many reads failed in the window.
unfoldable pub active_ai_failure_cooldown :
    CooldownSettings → CreditSubject → ℕ → List (ℕ × AiUsageEvent) → Bool × ℕ × ℕ
unfolding is_failed last_by select cooldown_from
active_ai_failure_cooldown cfg subject now rows =
    let window_start = add_duration now (neg64 (mul64 cfg.window_minutes minute)) in
    let failed = is_failed subject window_start in
    if le64 cfg.threshold 0 || le64 cfg.window_minutes 0 || le64 cfg.minutes 0
    then (false, 0, 0)
    else cooldown_from cfg now (length (select failed rows))
        (last_by failed (λ e. e.started_at) rows)

-- aiReadBlocked: the two lookups without a response.
unfoldable pub ai_read_blocked :
    CooldownSettings → CreditSubject → ℕ → List (ℕ × AiAbuseBlock) → List (ℕ × AiUsageEvent) → Bool
unfolding active_ai_abuse_block active_ai_failure_cooldown
ai_read_blocked cfg subject now blocks events =
    elim (active_ai_abuse_block subject now blocks) [ none ↦ false | some _ ↦ true ]
    || (active_ai_failure_cooldown cfg subject now events).0
