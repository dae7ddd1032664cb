-- ===== src/AiGuard/Blocks/Pause.antt =====
-- Which block is reported, and when a pause is active.
use finnri_api.Base.{
  ℕ, ◌+◌, ◌*◌, ◌≡◌, ◌≤◌, ◌<◌, ◌↔◌, ltb, refl, Bool, true, false, Option, none, some, List, length,
  arith, if◌then◌else◌,
}
use finnri_api.Base.Int64.{two_63, mul64, neg64, le64, is_negative}
use finnri_api.Table.{select}
use finnri_api.Base.Members.{Has, All-Has}
use finnri_api.Table.Latest.{IsLatest, IsNewest, last_by-IsLatest, last_by-IsNewest}
use finnri_api.Billing.Data.{AiAbuseBlock, CreditSubject, AiUsageEvent}
use finnri_api.AiGuard.Blocks.{
  CooldownSettings, is_blocking, active_ai_abuse_block, is_failed, minute, add_duration,
  cooldown_from, active_ai_failure_cooldown,
}

-- Either no row blocks the subject at the time, or the row found is one that does, and none that does was
-- created later.
active_ai_abuse_block-IsNewest :
    (subject : CreditSubject) (now : ℕ) (rows : List (ℕ × AiAbuseBlock))
    → IsNewest
        (is_blocking subject now)
        (λ b. b.created_at)
        rows
        (active_ai_abuse_block subject now rows)
unfolding active_ai_abuse_block
active_ai_abuse_block-IsNewest subject now rows =
    last_by-IsNewest (is_blocking subject now) (λ b. b.created_at) rows

-- The settings are on, and a pause is shorter than 2^63 nanoseconds.
abbrev IsOn : CooldownSettings → Type 0
IsOn cfg =
    (0 < cfg.threshold)
    × (cfg.threshold < two_63)
    × (0 < cfg.window_minutes)
    × (cfg.window_minutes < two_63)
    × (0 < cfg.minutes)
    × (cfg.minutes * minute < two_63)

abbrev pub window_start : CooldownSettings → ℕ → ℕ
window_start cfg now = add_duration now (neg64 (mul64 cfg.window_minutes minute))

pause_lem :
    (cfg : CooldownSettings) (started : ℕ)
    → IsOn cfg
    → add_duration started (mul64 cfg.minutes minute) ≡ started + cfg.minutes * minute
pause_lem cfg started on =
    rw (let e : mul64 cfg.minutes minute ≡ cfg.minutes * minute = omega (arith, on.5) in e)
      (rw (let e : is_negative (cfg.minutes * minute) ≡ false = ground arith in e) refl)

-- Some failed read in the rows was less than the pause before now.
abbrev pub Recent : CooldownSettings → ℕ → (AiUsageEvent → Bool) → List (ℕ × AiUsageEvent) → Type 0
Recent cfg now failed rows =
    (r : ℕ × AiUsageEvent) × Has r rows
    × (failed r.1 ≡ true)
    × (now < r.1.started_at + cfg.minutes * minute)

abbrev answer : ℕ → ℕ → ℕ → ℕ → Bool × ℕ × ℕ
answer threshold n now late =
    if ltb n threshold
    then (false, 0, n)
    else if ltb now late
    then (true, late, n)
    else (false, 0, n)

answer_iff :
    (threshold n now late : ℕ)
    → ((answer threshold n now late).0 ≡ true) ↔ ((threshold ≤ n) × (now < late))
answer_iff threshold n now late = ground arith

cooldown_from_iff :
    (cfg : CooldownSettings) (now n : ℕ) (failed : AiUsageEvent → Bool)
    (rows : List (ℕ × AiUsageEvent))
    → IsOn cfg
    → (best : Option (ℕ × AiUsageEvent)) → IsLatest failed (λ e. e.started_at) rows best
    → ((cooldown_from cfg now n best).0 ≡ true) ↔ ((cfg.threshold ≤ n) × Recent cfg now failed rows)
unfolding cooldown_from
cooldown_from_iff cfg now n failed rows on none h = (
  λ e. cc,
  λ k. let fails = All-Has (λ (r : ℕ × AiUsageEvent). failed r.1 ≡ false) k.1.0 rows k.1.1 h in cc,
)
cooldown_from_iff cfg now n failed rows on (some (i, latest)) h =
    rw (pause_lem cfg latest.started_at on) (to, back)
  where
    late : ℕ
    late = latest.started_at + cfg.minutes * minute

    to :
        (answer cfg.threshold n now late).0 ≡ true
        → (cfg.threshold ≤ n) × Recent cfg now failed rows
    to e =
        let both = (answer_iff cfg.threshold n now late).0 e in
        (both.0, ((i, latest), h.0, h.1, both.1))

    back :
        (cfg.threshold ≤ n) × Recent cfg now failed rows
        → (answer cfg.threshold n now late).0 ≡ true
    back (enough, (r, here, fails, soon)) =
        let newest =
          All-Has (λ (q : ℕ × AiUsageEvent). failed q.1 ≡ true → q.1.started_at ≤ latest.started_at)
            r rows here h.2 fails in
        (answer_iff cfg.threshold n now late).1 (enough, omega (arith, newest, soon))

-- With settings that are on, a pause is active exactly if the failed reads of the subject in the window
-- have reached the threshold and one of them was less than the pause ago.
pub active_ai_failure_cooldown_iff :
    (cfg : CooldownSettings) (subject : CreditSubject) (now : ℕ) (rows : List (ℕ × AiUsageEvent))
    → IsOn cfg
    → ((active_ai_failure_cooldown cfg subject now rows).0 ≡ true) ↔ (
        (cfg.threshold ≤ length (select (is_failed subject (window_start cfg now)) rows))
        × Recent cfg now (is_failed subject (window_start cfg now)) rows)
unfolding active_ai_failure_cooldown
active_ai_failure_cooldown_iff cfg subject now rows on =
    rw
      (
        (let e : le64 cfg.threshold 0 ≡ false = ground arith in e),
        (let e : le64 cfg.window_minutes 0 ≡ false = ground arith in e),
        (let e : le64 cfg.minutes 0 ≡ false = ground arith in e),
      )
      (cooldown_from_iff cfg now _ (is_failed subject (window_start cfg now)) rows on _
        (last_by-IsLatest _ _ rows))
