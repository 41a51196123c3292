-- ===== src/SemanticReview/Models.antt =====
-- semantic_review/models.py, errors.py and the fields of config.py that the service reads.
use ai_data_quality_platform.Base.{ℕ, String, Bool, Option, none, some, List}
use ai_data_quality_platform.Base.Assoc.{Dict}
use ai_data_quality_platform.Base.Float.{Float}
use ai_data_quality_platform.EntityResolution.Models.{MatchDecisionType}
use ai_data_quality_platform.HumanReview.Models.{ReviewStatus}
use ai_data_quality_platform.HumanReview.Errors.{HumanReviewError}

pub data SemanticSuggestionType : Type 0 where
  suggest_match suggest_no_match insufficient_evidence provider_failure : SemanticSuggestionType

unfoldable pub suggestion_value : SemanticSuggestionType → String
suggestion_value suggest_match = "SUGGEST_MATCH"
suggestion_value suggest_no_match = "SUGGEST_NO_MATCH"
suggestion_value insufficient_evidence = "INSUFFICIENT_EVIDENCE"
suggestion_value provider_failure = "PROVIDER_FAILURE"

pub data CostMode : Type 0 where
  simulated live unknown : CostMode

pub data SemanticFailureCode : Type 0 where
  configuration_error provider_timeout provider_rate_limit : SemanticFailureCode
  provider_unavailable invalid_structured_output response_id_mismatch : SemanticFailureCode
  input_too_large unsafe_or_ineligible_case budget_exceeded : SemanticFailureCode

unfoldable pub failure_value : SemanticFailureCode → String
failure_value SemanticFailureCode.configuration_error = "CONFIGURATION_ERROR"
failure_value SemanticFailureCode.provider_timeout = "PROVIDER_TIMEOUT"
failure_value SemanticFailureCode.provider_rate_limit = "PROVIDER_RATE_LIMIT"
failure_value SemanticFailureCode.provider_unavailable = "PROVIDER_UNAVAILABLE"
failure_value SemanticFailureCode.invalid_structured_output = "INVALID_STRUCTURED_OUTPUT"
failure_value SemanticFailureCode.response_id_mismatch = "RESPONSE_ID_MISMATCH"
failure_value SemanticFailureCode.input_too_large = "INPUT_TOO_LARGE"
failure_value SemanticFailureCode.unsafe_or_ineligible_case = "UNSAFE_OR_INELIGIBLE_CASE"
failure_value SemanticFailureCode.budget_exceeded = "BUDGET_EXCEEDED"

pub data SemanticSkipReason : Type 0 where
  llm_disabled not_review_decision case_not_found case_resolved : SemanticSkipReason
  case_terminal authorization_blocked missing_evidence : SemanticSkipReason
  input_too_large unsafe_or_ineligible_case : SemanticSkipReason

-- The classes of errors.py.
pub data ErrorClass : Type 0 where
  configuration routing budget provider timeout rate_limit client : ErrorClass
  invalid_output identity_mismatch input_too_large : ErrorClass

-- An instance may carry a code in place of that of its class.
pub record SemanticReviewError : Type 0 where
  pub error_class : ErrorClass
  pub message : String
  pub own_failure_code : Option SemanticFailureCode

-- The attribute `failure_code` that each class sets.
unfoldable pub class_failure_code : ErrorClass → SemanticFailureCode
class_failure_code ErrorClass.configuration = SemanticFailureCode.configuration_error
class_failure_code ErrorClass.routing = SemanticFailureCode.unsafe_or_ineligible_case
class_failure_code ErrorClass.budget = SemanticFailureCode.budget_exceeded
class_failure_code ErrorClass.provider = SemanticFailureCode.provider_unavailable
class_failure_code ErrorClass.timeout = SemanticFailureCode.provider_timeout
class_failure_code ErrorClass.rate_limit = SemanticFailureCode.provider_rate_limit
class_failure_code ErrorClass.client = SemanticFailureCode.provider_unavailable
class_failure_code ErrorClass.invalid_output = SemanticFailureCode.invalid_structured_output
class_failure_code ErrorClass.identity_mismatch = SemanticFailureCode.response_id_mismatch
class_failure_code ErrorClass.input_too_large = SemanticFailureCode.input_too_large

-- The attribute `failure_code` of an instance.
unfoldable pub failure_code : SemanticReviewError → SemanticFailureCode
unfolding class_failure_code
failure_code e = elim (e.own_failure_code) [
  | none ↦ class_failure_code e.error_class
  | some given ↦ given
]

-- What leaves a call of the service: an error of its own, one of the human review, an exception that
-- a dictionary or a test of the request raises, or any other exception of the provider.
pub data Raised : Type 0 where
  semantic : SemanticReviewError → Raised
  human_review : HumanReviewError → Raised
  key_or_value_error foreign : Raised

pub data FieldPresence : Type 0 where
  missing empty present : FieldPresence

pub record BoundedFieldValue : Type 0 where
  pub field_name : String
  pub presence : FieldPresence
  pub value : Option String
  pub truncated : Bool

pub record SemanticEvidenceItem : Type 0 where
  pub kind : String
  pub field_name : String
  pub code : String
  pub strength : String
  pub description : String

pub record SemanticRecordView : Type 0 where
  pub record_id : String
  pub fields : List BoundedFieldValue

pub record SemanticReviewRequest : Type 0 where
  pub request_id : String
  pub review_case_id : String
  pub record_a_id : String
  pub record_b_id : String
  pub record_a : SemanticRecordView
  pub record_b : SemanticRecordView
  pub machine_decision : MatchDecisionType
  pub review_status : ReviewStatus
  pub machine_score : Float
  pub machine_reason : String
  pub supporting_evidence : List SemanticEvidenceItem
  pub conflicting_evidence : List SemanticEvidenceItem
  pub missing_evidence_notes : List String
  pub prompt_version : String
  pub prompt_template_hash : String
  pub request_schema_version : String
  pub response_schema_version : String
  pub request_fingerprint : String
  pub created_at_utc : String

pub record SemanticSuggestion : Type 0 where
  pub suggestion_id : String
  pub request_id : String
  pub review_case_id : String
  pub record_a_id : String
  pub record_b_id : String
  pub suggestion : SemanticSuggestionType
  pub reason_codes : List String
  pub explanation : String
  pub provider : String
  pub requested_model : String
  pub returned_model : Option String
  pub model_snapshot : Option String
  pub provider_request_id : Option String
  pub prompt_version : String
  pub prompt_template_hash : String
  pub request_schema_version : String
  pub response_schema_version : String
  pub request_fingerprint : String
  pub attempt_count : ℕ
  pub latency_ms : ℕ
  pub input_token_count : ℕ
  pub cached_input_token_count : ℕ
  pub output_token_count : ℕ
  pub reasoning_token_count : ℕ
  pub estimated_cost_usd : Option Float
  pub actual_provider_cost_usd : Option Float
  pub hypothetical_model_cost_usd : Option Float
  pub cost_mode : CostMode
  pub usage_available : Bool
  pub pricing_version : String
  pub failure_code : Option SemanticFailureCode
  pub created_at_utc : String
  pub live : Bool
  pub result_source : String

-- The answer of the routing without its text `detail`.
pub record SemanticRoutingDecision : Type 0 where
  pub eligible : Bool
  pub reason : Option SemanticSkipReason

pub record ModelPricing : Type 0 where
  pub input_usd_per_million : Float
  pub cached_input_usd_per_million : Float
  pub output_usd_per_million : Float

pub record SemanticReviewConfig : Type 0 where
  pub enabled : Bool
  pub model : String
  pub max_retries : ℕ
  pub max_input_tokens : ℕ
  pub max_output_tokens : ℕ
  pub prompt_version : String
  pub request_schema_version : String
  pub response_schema_version : String
  pub max_field_chars : ℕ
  pub max_live_calls : ℕ
  pub max_live_usd : Float
  pub pricing_version : String
  pub pricing_models : Dict ModelPricing
