-- ===== src/Billing/Usage.antt =====
-- What a finished provider call writes to its usage event: `copyUsageUpdates`, `findModelPricing` and
-- `estimateUsageCostUSDMicros` of internal/billing/credits.go. Products are not cut to 64 bits.
use finnri_api.Base.{
  ℕ, ◌+◌, ◌*◌, ltb, ◌==◌, is_none, Bool, ◌&&◌, if◌then◌else◌, String, str_eq, is_blank, trim_space,
  Option, none, some,
}
use finnri_api.Base.Int.{ℤ, pos_part}
use finnri_api.Table.{last_by}
use finnri_api.Billing.Data.{
  AiModelPricing, UsageDetails, AiUsageEvent, ProviderUsage, UsageStatus, succeeded,
  failed_after_provider, default_credit_cost_usd_micros,
}
use finnri_api.Billing.Tx.{Store}
use finnri_api.Billing.Allowance.{CreditService}

-- Blank texts and missing numbers leave the column as it is; `maxInt(0, v)` is `pos_part`.
abbrev pub copy_text : String → String → String
copy_text old new = if is_blank new then old else trim_space new

abbrev pub copy_number : Option ℕ → Option ℤ → Option ℕ
copy_number old none = old
copy_number old (some z) = some (pos_part z)

abbrev pub copy_time : Option ℕ → Option ℕ → Option ℕ
copy_time old none = old
copy_time old (some t) = some t

unfoldable pub copy_usage_updates : UsageDetails → ProviderUsage → UsageDetails
copy_usage_updates d u = record {
  provider = copy_text d.provider u.provider;
  model = copy_text d.model u.model;
  secondary_provider = copy_text d.secondary_provider u.secondary_provider;
  secondary_model = copy_text d.secondary_model u.secondary_model;
  error_code = copy_text d.error_code u.error_code;
  intent = copy_text d.intent u.intent;
  actual_cost_usd_micros = copy_number d.actual_cost_usd_micros u.actual_cost_usd_micros;
  prompt_tokens = copy_number d.prompt_tokens u.prompt_tokens;
  completion_tokens = copy_number d.completion_tokens u.completion_tokens;
  total_tokens = copy_number d.total_tokens u.total_tokens;
  audio_duration_ms = copy_number d.audio_duration_ms u.audio_duration_ms;
  audio_bytes = copy_number d.audio_bytes u.audio_bytes;
  input_chars = copy_number d.input_chars u.input_chars;
  response_bytes = copy_number d.response_bytes u.response_bytes;
  provider_started_at = copy_time d.provider_started_at u.provider_started_at;
}

abbrev column_is : String → String → Bool
column_is wanted column =
    if is_blank wanted then str_eq column "" else str_eq column (trim_space wanted)

unfoldable pub find_model_pricing : Store → String → String → String → Option (ℕ × AiModelPricing)
find_model_pricing s provider model operation =
    last_by
      (λ p.
        str_eq p.operation operation
        && p.active
        && column_is provider p.provider
        && column_is model p.model)
      (λ p. p.updated_at) s.pricing.rows

abbrev tokens : Option ℤ → ℕ
tokens none = 0
tokens (some z) = pos_part z

unfoldable pub llm_cost : Store → ProviderUsage → ℕ
unfolding find_model_pricing
llm_cost s u =
    if is_none u.prompt_tokens && is_none u.completion_tokens
    then 0
    else elim (find_model_pricing s u.provider u.model "llm") [
      | none ↦ 0
      | some (i, p) ↦
          tokens u.prompt_tokens * p.input_token_usd_micros
          + tokens u.completion_tokens * p.output_token_usd_micros
          + p.request_usd_micros
    ]

audio_cost : CreditService → Store → ProviderUsage → ℕ
unfolding find_model_pricing
audio_cost svc s u = elim u.audio_duration_ms [
  | none ↦ 0
  | some ms ↦ elim (find_model_pricing s u.secondary_provider u.secondary_model "transcription") [
    | none ↦ 0
    | some (i, p) ↦ svc.audio_micros (pos_part ms) p.audio_minute_usd_micros + p.request_usd_micros
  ]
]

credit_cost : Store → ℕ
unfolding find_model_pricing
credit_cost s = elim (find_model_pricing s "" "" "credit_fallback") [
  | none ↦ default_credit_cost_usd_micros
  | some (i, p) ↦
      if ltb 0 p.credit_usd_micros then p.credit_usd_micros else default_credit_cost_usd_micros
]

unfoldable pub estimate_usage_cost : CreditService → Store → AiUsageEvent → ProviderUsage → ℕ → ℕ
unfolding llm_cost audio_cost credit_cost
estimate_usage_cost svc s e u final =
    let total = llm_cost s u + audio_cost svc s u in
    let charged = if final == 0 then e.reserved_credits else final in
    if ltb 0 total then total else charged * credit_cost s

-- The status that `FinalizeUsage` accepts, success where none is given.
unfoldable pub final_status : String → Option UsageStatus
final_status text =
    let t = trim_space text in
    if str_eq t ""
    then some succeeded
    else if str_eq t "succeeded"
    then some succeeded
    else if str_eq t "failed_after_provider"
    then some failed_after_provider
    else none

-- The columns of one `Updates` call.
unfoldable pub finish_event :
    CreditService → Store → UsageStatus → ℕ → ProviderUsage → AiUsageEvent → AiUsageEvent
unfolding copy_usage_updates estimate_usage_cost
finish_event svc s status final u e = record e {
  status = status;
  final_credits = final;
  finished_at = elim u.finished_at [ none ↦ some svc.now | some t ↦ some t ];
  details = copy_usage_updates e.details u;
  estimated_cost_usd_micros = elim u.estimated_cost_usd_micros [
    | none ↦ estimate_usage_cost svc s e u final
    | some z ↦ pos_part z
  ];
}
