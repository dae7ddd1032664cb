-- ===== src/AiGuard/Breaker.antt =====
-- The circuit breaker of the AI providers. Go's zero time is `none`, and the settings are int64 words.
pub mod Trips
use finnri_api.Base.{ℕ, ◌+◌, ◌-◌, ◌/◌, ltb, Bool, ◌||◌, Option, none, some, if◌then◌else◌}
use finnri_api.Base.Int64.{Int64, add64, mul64, le64}

pub record ProviderCircuitBreaker : Type 0 where
  pub consecutive_failures : Int64
  pub open_until : Option ℕ

abbrev pub closed_breaker : ProviderCircuitBreaker
closed_breaker = record { consecutive_failures = 0; open_until = none }

-- What `allow` answers: whether a call may be made, or the time to wait for, and the breaker left.
pub data Verdict : Type 0 where
  allowed : ProviderCircuitBreaker → Verdict
  refused : ℕ → Verdict

unfoldable pub allow : ProviderCircuitBreaker → ℕ → Verdict
allow b now = elim b.open_until [
  | none ↦ allowed b
  | some t ↦ if ltb now t then refused t else allowed closed_breaker
]

unfoldable pub record_failure : ProviderCircuitBreaker → ℕ → Int64 → Int64 → ProviderCircuitBreaker
record_failure b now threshold open_for =
    let failures = add64 b.consecutive_failures 1 in
    if le64 threshold 0 || le64 open_for 0 then b else record {
      consecutive_failures = failures;
      open_until = if le64 threshold failures then some (now + open_for) else b.open_until;
    }

unfoldable pub record_success : ProviderCircuitBreaker → ProviderCircuitBreaker
record_success b = record { consecutive_failures = 0; open_until = none }

-- The parts of the server and its settings that the breaker uses; it is made at the first use.
pub record Settings : Type 0 where
  pub provider_failure_threshold : Int64
  pub provider_circuit_breaker_seconds : Int64

unfoldable pub circuit_breaker : Option ProviderCircuitBreaker → ProviderCircuitBreaker
circuit_breaker none = closed_breaker
circuit_breaker (some b) = b

abbrev pub breaker_off : Settings → Bool
breaker_off cfg =
    le64 cfg.provider_failure_threshold 0 || le64 cfg.provider_circuit_breaker_seconds 0

-- The breaker after `allow`, and whether it refused until a time.
abbrev pub settle : ProviderCircuitBreaker → Verdict → Option ProviderCircuitBreaker × Option ℕ
settle b (allowed b') = (some b', none)
settle b (refused t) = (some b, some t)

-- The seconds of the Retry-After header: the whole seconds that are left, and at least one.
abbrev pub retry_after : ℕ → ℕ → ℕ
retry_after t now = let seconds = (t - now) / 1000000000 in if ltb seconds 1 then 1 else seconds

-- rejectIfProviderCircuitOpen, and providerCircuitOpen, which makes the same test and answers no request.
unfoldable pub reject_if_provider_circuit_open :
    Settings → Option ProviderCircuitBreaker → ℕ → Option ProviderCircuitBreaker × Option ℕ
unfolding circuit_breaker allow
reject_if_provider_circuit_open cfg b now =
    if breaker_off cfg
    then (b, none)
    else settle (circuit_breaker b) (allow (circuit_breaker b) now)

unfoldable pub record_ai_provider_failure :
    Settings → Option ProviderCircuitBreaker → ℕ → Option ProviderCircuitBreaker
unfolding circuit_breaker record_failure
record_ai_provider_failure cfg b now =
    if breaker_off cfg
    then b
    else some (
        record_failure (circuit_breaker b) now cfg.provider_failure_threshold
          (mul64 cfg.provider_circuit_breaker_seconds 1000000000))

unfoldable pub record_ai_provider_success :
    Option ProviderCircuitBreaker → Option ProviderCircuitBreaker
unfolding record_success
record_ai_provider_success none = none
record_ai_provider_success (some b) = some (record_success b)
