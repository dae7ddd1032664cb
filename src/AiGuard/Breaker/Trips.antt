-- ===== src/AiGuard/Breaker/Trips.antt =====
-- When the breaker refuses calls, and for how long.
use finnri_api.Base.{
  ℕ, suc, ◌+◌, ◌≡◌, ◌<◌, ◌≤◌, refl, arith, Bool, true, false, leb, ltb, Option, none, some, List,
  [], ◌∷◌, if◌then◌else◌, Bool-cases, ◌⊎◌, ◌↔◌, length, inl, inr, leb→le,
}
use finnri_api.Base.Int64.{Int64, add64, le64, two_63}
use finnri_api.AiGuard.Breaker.{
  ProviderCircuitBreaker, closed_breaker, allowed, refused, allow, record_failure, record_success,
}

-- The calls that the server makes on its breaker, with the settings that it passes.
pub data Step (threshold open_for : Int64)
    : ProviderCircuitBreaker → ProviderCircuitBreaker → Type 0 where
  asked :
      (b b' : ProviderCircuitBreaker) (now : ℕ)
      → allow b now ≡ allowed b'
      → Step threshold open_for b b'
  failed :
      (b : ProviderCircuitBreaker) (now : ℕ)
      → Step threshold open_for b (record_failure b now threshold open_for)
  succeeded : (b : ProviderCircuitBreaker) → Step threshold open_for b (record_success b)

-- The states that a number of calls can lead to, from the breaker as it is made.
pub data Reachable (threshold open_for : Int64) : ℕ → ProviderCircuitBreaker → Type 0 where
  start : Reachable threshold open_for 0 closed_breaker
  step :
      (n : ℕ) (b b' : ProviderCircuitBreaker)
      → Reachable threshold open_for n b
      → Step threshold open_for b b'
      → Reachable threshold open_for (n + 1) b'

-- The settings are on: both are positive int64 words.
abbrev IsOn : Int64 → Int64 → Type 0
IsOn threshold open_for =
    (0 < threshold) × (threshold < two_63) × (0 < open_for) × (open_for < two_63)

-- It has a time to wait for if, and only if, the failures counted have reached the threshold.
abbrev Fits : ℕ → ℕ → Option ℕ → Type 0
Fits threshold failures none = failures < threshold
Fits threshold failures (some t) = threshold ≤ failures

abbrev opened : Int64 → Int64 → ProviderCircuitBreaker → ℕ → Option ℕ
opened threshold open_for b now =
    if leb threshold (b.consecutive_failures + 1) then some (now + open_for) else b.open_until

Fits-next :
    (threshold failures : ℕ) (o : Option ℕ)
    → Fits threshold failures o
    → leb threshold (failures + 1) ≡ false
    → Fits threshold (failures + 1) o
Fits-next threshold failures none h e = ground arith
Fits-next threshold failures (some t) h e = omega arith

allow_cases :
    (b b' : ProviderCircuitBreaker) (now : ℕ)
    → allow b now ≡ allowed b'
    → (b' ≡ b) ⊎ (b' ≡ closed_breaker)
unfolding allow
allow_cases b b' now e = go b.open_until e
  where
    go :
        (o : Option ℕ)
        → (elim o [
          | none ↦ allowed b
          | some t ↦ if ltb now t then refused t else allowed closed_breaker
        ])
          ≡ allowed b'
        → (b' ≡ b) ⊎ (b' ≡ closed_breaker)
    go none e = inl cc
    go (some t) e = choose (ltb now t) e
      where
        choose :
            (early : Bool)
            → (if early then refused t else allowed closed_breaker) ≡ allowed b'
            → (b' ≡ b) ⊎ (b' ≡ closed_breaker)
        choose true e = cc
        choose false e = inr cc

later_open :
    (threshold total first : ℕ) (p q o : Option ℕ)
    → first ≤ total
    → (if leb threshold total then p else if leb threshold first then q else o)
      ≡ (if leb threshold total then p else o)
later_open threshold total first p q o h = ground arith

module _ (threshold open_for : Int64) (on : IsOn threshold open_for) where
  -- A failure in exact arithmetic, as long as the count is below 2^63 - 1.
  counted :
      (b : ProviderCircuitBreaker) (now : ℕ)
      → b.consecutive_failures + 1 < two_63
      → record_failure b now threshold open_for ≡ record {
        consecutive_failures = b.consecutive_failures + 1;
        open_until = opened threshold open_for b now;
      }
  unfolding record_failure
  counted b now small =
      rw
        (
          (let e : le64 threshold 0 ≡ false = ground arith in e),
          (let e : le64 open_for 0 ≡ false = ground arith in e),
          (let e : add64 b.consecutive_failures 1 ≡ b.consecutive_failures + 1 = omega arith in e),
          (let e : le64 threshold (b.consecutive_failures + 1)
                  ≡ leb threshold (b.consecutive_failures + 1) =
                ground arith in
              e),
        )
        refl

  Step-Fits :
      {b b' : ProviderCircuitBreaker} (n : ℕ)
      → Step threshold open_for b b'
      → n + 1 < two_63
      → (b.consecutive_failures ≤ n) × Fits threshold b.consecutive_failures b.open_until
      → (b'.consecutive_failures ≤ n + 1) × Fits threshold b'.consecutive_failures b'.open_until
  unfolding allow record_success
  Step-Fits n (asked b b' now e) small h = go (allow_cases b b' now e)
    where
      go :
          ((b' ≡ b) ⊎ (b' ≡ closed_breaker))
          → (b'.consecutive_failures ≤ n + 1) × Fits threshold b'.consecutive_failures b'.open_until
      go (inl same) = rw same (omega (arith, h.0), h.1)
      go (inr reset) = rw reset (omega arith, on.0)
  Step-Fits n (failed b now) small h = rw (counted b now (omega (arith, h.0))) (
    omega (arith, h.0),
    elim (Bool-cases (leb threshold (b.consecutive_failures + 1))) [
      | inl reached ↦ rw reached (leb→le _ _ reached)
      | inr below ↦ rw below (Fits-next threshold b.consecutive_failures b.open_until h.1 below)
    ],
  )
  Step-Fits n (succeeded b) small h = (omega arith, on.0)

  Reachable-Fits :
      {n : ℕ} {b : ProviderCircuitBreaker}
      → Reachable threshold open_for n b
      → n < two_63
      → (b.consecutive_failures ≤ n) × Fits threshold b.consecutive_failures b.open_until
  Reachable-Fits start small = (omega arith, on.0)
  Reachable-Fits (step n b b' r s) small =
      Step-Fits n s (omega arith) (Reachable-Fits r (omega arith))

  -- In any state that the server's calls lead to, fewer than 2^63 of them, with settings that are on: the
  -- breaker refuses a call until a time exactly if the failures counted have reached the threshold,
  -- and the time set by the last of them has not come.
  pub allow_iff :
      {n : ℕ} {b : ProviderCircuitBreaker} (now until : ℕ)
      → Reachable threshold open_for n b
      → n < two_63
      → (allow b now ≡ refused until)
        ↔ ((threshold ≤ b.consecutive_failures) × (b.open_until ≡ some until) × (now < until))
  unfolding allow
  allow_iff {b = b} now until r small = go b.open_until (Reachable-Fits r small).1
    where
      go :
          (o : Option ℕ)
          → Fits threshold b.consecutive_failures o
          → ((elim o [
            | none ↦ allowed b
            | some t ↦ if ltb now t then refused t else allowed closed_breaker
          ])
              ≡ refused until)
            ↔ ((threshold ≤ b.consecutive_failures) × (o ≡ some until) × (now < until))
      go none h = (λ e. cc, λ e. cc)
      go (some t) h = (λ e. ground arith, λ e. ground arith)

  -- A run of failures, the last of which is at `now`.
  abbrev pub fail_all : ProviderCircuitBreaker → List ℕ → ℕ → ProviderCircuitBreaker
  fail_all b [] now = record_failure b now threshold open_for
  fail_all b (t ∷ times) now = fail_all (record_failure b t threshold open_for) times now

  fail_all_state :
      (b : ProviderCircuitBreaker) (times : List ℕ) (now : ℕ)
      → b.consecutive_failures + length times + 1 < two_63
      → fail_all b times now ≡ record {
        consecutive_failures = b.consecutive_failures + length times + 1;
        open_until =
            if leb threshold (b.consecutive_failures + length times + 1)
            then some (now + open_for)
            else b.open_until;
      }
  fail_all_state b [] now small =
      rw
        (
          counted b now (omega (arith, small)),
          (let e : b.consecutive_failures + 0 ≡ b.consecutive_failures = omega arith in e),
        )
        refl
  fail_all_state b (t ∷ times) now small =
      let f = b.consecutive_failures in
      let next : ProviderCircuitBreaker = record {
        consecutive_failures = f + 1;
        open_until = opened threshold open_for b t;
      } in
      let total : f + suc (length times) + 1 ≡ f + 1 + length times + 1 = omega arith in
      rw
        (
          counted b t (omega (arith, small)),
          fail_all_state next times now (omega (arith, small)),
          total,
        )
        (rw
          (later_open threshold (f + 1 + length times + 1) (f + 1) _ (some (t + open_for))
            b.open_until (omega arith))
          refl)

  -- After a run of failures without a success, starting from a closed breaker: below the threshold
  -- every call is allowed; from the threshold on a call is refused as long as the pause after the last
  -- failure lasts, and then the first call is allowed and the count begins anew.
  pub fail_all_trips :
      (times : List ℕ) (now later : ℕ)
      → length times + 1 < two_63
      → allow (fail_all closed_breaker times now) later ≡ (
          if leb threshold (length times + 1)
          then if ltb later (now + open_for)
            then refused (now + open_for)
            else allowed closed_breaker
          else allowed (record { consecutive_failures = length times + 1; open_until = none }))
  unfolding allow
  fail_all_trips times now later small =
      rw
        (
          fail_all_state closed_breaker times now (omega (arith, small)),
          (let e : 0 + length times + 1 ≡ length times + 1 = omega arith in e),
        )
        (elim (Bool-cases (leb threshold (length times + 1))) [
          | inl reached ↦ rw reached refl
          | inr below ↦ rw below refl
        ])
