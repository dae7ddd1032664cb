-- ===== src/Ai.antt =====
-- The registry of AI actions (internal/ai/registry.go). A Go map is an association list that a later
-- entry of the same key overrides; its keys are the codes.
pub mod Sound
use finnri_api.Base.{
  ℕ, zero, suc, ◌*◌, ltb, leb, ◌==◌, Bool, true, false, not, ◌||◌, if◌then◌else◌, String, str_eq,
  Option, none, some, List, [], ◌∷◌,
}
use finnri_api.Base.Int.{ℤ, pos, pos_part, ltb_ℤ}
use finnri_api.Result.{
  Result, ok, err, ◌>>=◌, from_option, unknown_action, action_not_implemented, invalid_action,
  empty_registry,
}

-- The constants of the source are the texts themselves.
abbrev pub InputKind : Type 0
InputKind = String

abbrev pub ProviderOperation : Type 0
ProviderOperation = String

pub record ActionInputLimits : Type 0 where
  pub max_transcript_chars : ℕ
  pub max_audio_seconds : ℕ
  pub max_batch_items : ℕ
  pub max_file_bytes : ℕ

pub record Action : Type 0 where
  pub code : String
  pub label : String
  pub input_kind : InputKind
  pub guest_allowed : Bool
  pub default_credits : ℤ
  pub max_credits : ℤ
  pub provider_operations : List ProviderOperation
  pub input_limits : ActionInputLimits
  pub paid_plan_required : Bool
  pub implemented : Bool

-- The credits of an action where they are not negative. A credit service always has the default
-- registry, whose credits are positive.
abbrev pub price_of : Action → ℕ
price_of a = pos_part a.default_credits

abbrev pub maximum_of : Action → ℕ
maximum_of a = pos_part a.max_credits

abbrev pub ActionRegistry : Type 0
ActionRegistry = List (String × Action)

abbrev pub no_limits : ActionInputLimits
no_limits = record {
  max_transcript_chars = 0;
  max_audio_seconds = 0;
  max_batch_items = 0;
  max_file_bytes = 0;
}

abbrev pub default_actions : List Action
default_actions =
    record {
      code = "transaction_parse_text";
      label = "Text AI transaction parse";
      input_kind = "text";
      guest_allowed = true;
      default_credits = pos 5;
      max_credits = pos 10;
      provider_operations = "llm" ∷ [];
      input_limits = record no_limits { max_transcript_chars = 1000 };
      paid_plan_required = false;
      implemented = true;
    }
    ∷ record {
      code = "transaction_parse_voice_short";
      label = "Short voice AI transaction parse";
      input_kind = "voice";
      guest_allowed = true;
      default_credits = pos 12;
      max_credits = pos 18;
      provider_operations = "transcription" ∷ "llm" ∷ [];
      input_limits = record no_limits { max_transcript_chars = 1000; max_audio_seconds = 15 };
      paid_plan_required = false;
      implemented = true;
    }
    ∷ record {
      code = "transaction_parse_voice_medium";
      label = "Medium voice AI transaction parse";
      input_kind = "voice";
      guest_allowed = false;
      default_credits = pos 18;
      max_credits = pos 30;
      provider_operations = "transcription" ∷ "llm" ∷ [];
      input_limits = record no_limits { max_transcript_chars = 1000; max_audio_seconds = 30 };
      paid_plan_required = false;
      implemented = true;
    }
    ∷ record {
      code = "transaction_parse_voice_long";
      label = "Long voice AI transaction parse";
      input_kind = "voice";
      guest_allowed = false;
      default_credits = pos 30;
      max_credits = pos 60;
      provider_operations = "transcription" ∷ "llm" ∷ [];
      input_limits = record no_limits { max_transcript_chars = 1000; max_audio_seconds = 60 };
      paid_plan_required = true;
      implemented = false;
    }
    ∷ record {
      code = "transaction_parse_receipt";
      label = "Receipt photo AI transaction parse";
      input_kind = "image";
      guest_allowed = true;
      default_credits = pos 25;
      max_credits = pos 50;
      provider_operations = "llm" ∷ [];
      input_limits = record no_limits { max_file_bytes = 5 * 1024 * 1024 };
      paid_plan_required = false;
      implemented = true;
    }
    ∷ record {
      code = "future_ai_advisor_message";
      label = "AI advisor message";
      input_kind = "chat";
      guest_allowed = false;
      default_credits = pos 35;
      max_credits = pos 80;
      provider_operations = "llm" ∷ [];
      input_limits = no_limits;
      paid_plan_required = true;
      implemented = false;
    }
    ∷ record {
      code = "future_ai_weekly_summary";
      label = "AI weekly summary";
      input_kind = "text";
      guest_allowed = false;
      default_credits = pos 25;
      max_credits = pos 60;
      provider_operations = "llm" ∷ [];
      input_limits = no_limits;
      paid_plan_required = true;
      implemented = false;
    }
    ∷ record {
      code = "future_ai_bulk_categorization";
      label = "AI bulk categorization";
      input_kind = "text";
      guest_allowed = false;
      default_credits = pos 50;
      max_credits = pos 150;
      provider_operations = "llm" ∷ [];
      input_limits = record no_limits { max_batch_items = 50 };
      paid_plan_required = true;
      implemented = false;
    }
    ∷ record {
      code = "statement_pdf_read";
      label = "Card statement PDF read";
      input_kind = "file";
      guest_allowed = true;
      default_credits = pos 50;
      max_credits = pos 150;
      provider_operations = "llm" ∷ [];
      input_limits = record no_limits { max_file_bytes = 12 * 1024 * 1024 };
      paid_plan_required = false;
      implemented = true;
    }
    ∷ record {
      code = "future_ai_statement_import";
      label = "AI statement screenshot import";
      input_kind = "file";
      guest_allowed = false;
      default_credits = pos 100;
      max_credits = pos 300;
      provider_operations = "llm" ∷ [];
      input_limits = record no_limits { max_file_bytes = 5 * 1024 * 1024 };
      paid_plan_required = true;
      implemented = true;
    }
    ∷ []

-- `m[k] = v`
abbrev pub map_insert : String → Action → ActionRegistry → ActionRegistry
map_insert k a [] = (k, a) ∷ []
map_insert k a ((j, b) ∷ m) = if str_eq j k then (k, a) ∷ m else (j, b) ∷ map_insert k a m

unfoldable pub register : ActionRegistry → List Action → ActionRegistry
register m [] = m
register m (a ∷ actions) = register (map_insert a.code a m) actions

unfoldable pub new_action_registry : List Action → ActionRegistry
unfolding register
new_action_registry actions = register [] actions

unfoldable pub default_action_registry : ActionRegistry
unfolding new_action_registry
default_action_registry = new_action_registry default_actions

unfoldable pub lookup : ActionRegistry → String → Option Action
lookup [] code = none
lookup ((j, a) ∷ m) code = if str_eq j code then some a else lookup m code

unfoldable pub require : ActionRegistry → String → Result Action
unfolding lookup
require r code = from_option unknown_action (lookup r code)

unfoldable pub require_implemented : ActionRegistry → String → Result Action
unfolding require
require_implemented r code = do
  action ← require r code
  if not action.implemented then err action_not_implemented else ok action

validate_operations : List ProviderOperation → Result (Unit {0})
validate_operations [] = ok tt
validate_operations (op ∷ ops) =
    let rest = validate_operations ops in if str_eq op "" then err invalid_action else rest

unfoldable pub validate_action : Action → Result (Unit {0})
unfolding validate_operations
validate_action a =
    if str_eq a.code "" || str_eq a.label "" || str_eq a.input_kind ""
    then err invalid_action
    else if not (ltb_ℤ (pos 0) a.default_credits) || ltb_ℤ a.max_credits a.default_credits
    then err invalid_action
    else elim a.provider_operations [
      | [] ↦ err invalid_action
      | op ∷ ops ↦ validate_operations (op ∷ ops)
    ]

unfoldable pub validate_all : ActionRegistry → Result (Unit {0})
unfolding validate_action
validate_all [] = ok tt
validate_all ((code, a) ∷ m) =
    let rest = validate_action a >>= λ _. validate_all m in
    if not (str_eq code a.code) then err invalid_action else rest

unfoldable pub validate : ActionRegistry → Result (Unit {0})
unfolding validate_all
validate [] = err empty_registry
validate (x ∷ m) = validate_all (x ∷ m)
