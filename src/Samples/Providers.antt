-- ===== src/Samples/Providers.antt =====
-- A live provider that always times out, and what is asked of it.
use ai_data_quality_platform.Base.{ℕ, suc, true, false, none, some, [], ◌∷◌, err, text_eq}
use ai_data_quality_platform.EntityResolution.Models.{MatchDecisionType}
use ai_data_quality_platform.EntityResolution.Conflicts.{zero_point_zero}
use ai_data_quality_platform.HumanReview.Models.{ReviewStatus}
use ai_data_quality_platform.SemanticReview.Models.{
  SemanticSuggestionType, CostMode, SemanticFailureCode, ErrorClass, SemanticReviewError, semantic,
  SemanticReviewRequest, SemanticSuggestion, SemanticRoutingDecision, ModelPricing,
  SemanticReviewConfig,
}
use ai_data_quality_platform.SemanticReview.Request.{PromptTools, record_view}
use ai_data_quality_platform.SemanticReview.Budget.{CostTools}
use ai_data_quality_platform.SemanticReview.Attempts.{SemanticReviewProvider, ServiceState}
use ai_data_quality_platform.SemanticReview.Service.{SuggestCall, SemanticReviewService}
use ai_data_quality_platform.Samples.Data.{plain_tools, config, records, customer, case_of}
use ai_data_quality_platform.Samples.Boundaries.{unresolved, no_edges}

abbrev pub prompts : PromptTools
prompts = record {
  fingerprint = λ request. request.review_case_id;
  suggestion_digest = λ request_id suggestion attempts fingerprint. fingerprint;
  prompt_template_hash = "0";
  prompt_length = λ request. 40;
  leaks = λ request. false;
}

abbrev pub costs : CostTools
costs = record {
  plus = λ x y. x;
  round_cost = λ x. x;
  token_cost = λ rates input output. zero_point_zero;
}

abbrev pub rates : ModelPricing
rates = record {
  input_usd_per_million = zero_point_zero;
  cached_input_usd_per_million = zero_point_zero;
  output_usd_per_million = zero_point_zero;
}

abbrev pub limits : SemanticReviewConfig
limits = record {
  enabled = true;
  model = "luna";
  max_retries = 1;
  max_input_tokens = 100;
  max_output_tokens = 100;
  prompt_version = "1";
  request_schema_version = "1.0";
  response_schema_version = "1.0";
  max_field_chars = 120;
  max_live_calls = 2;
  max_live_usd = zero_point_zero;
  pricing_version = "1";
  pricing_models = ("luna", rates) ∷ [];
}

abbrev pub timed_out : SemanticReviewError
timed_out = record {
  error_class = ErrorClass.timeout;
  message = "timeout";
  own_failure_code = none;
}

-- Its state is the number of its calls.
abbrev pub silent : SemanticReviewProvider ℕ
silent = record {
  provider_name = "openai";
  live = true;
  suggest = λ calls request. record {
    answer = err (semantic timed_out);
    latency_ms = 5;
    next = suc calls;
  };
}

abbrev pub service : SemanticReviewService ℕ
service = record {
  texts = plain_tools;
  tools = prompts;
  costs = costs;
  config = limits;
  provider = silent;
  require_enabled = none;
}

abbrev pub asked : SuggestCall
asked = record {
  case = some (case_of "RC-1" "a" "b");
  records_by_id = records;
  context = record {
    outcome = some unresolved;
    resolution = some no_edges;
    entity_resolution_config = some config;
  };
  routing_stamp = "2026-01-01T00:00:00Z";
  request_stamp = "2026-01-01T00:00:01Z";
}

abbrev pub start : ServiceState ℕ
start = record { budget = none; provider_state = 0 }

abbrev pub eligible : SemanticRoutingDecision
eligible = record { eligible = true; reason = none }

abbrev pub request : SemanticReviewRequest
request = record {
  request_id = "SR-RC-1";
  review_case_id = "RC-1";
  record_a_id = "a";
  record_b_id = "b";
  record_a = record_view (customer "a") 120;
  record_b = record_view (customer "b") 120;
  machine_decision = MatchDecisionType.review;
  review_status = ReviewStatus.pending;
  machine_score = zero_point_zero;
  machine_reason = "Plausible duplicate evidence requires human review.";
  supporting_evidence = [];
  conflicting_evidence = [];
  missing_evidence_notes = [];
  prompt_version = "1";
  prompt_template_hash = "0";
  request_schema_version = "1.0";
  response_schema_version = "1.0";
  request_fingerprint = "RC-1";
  created_at_utc = "2026-01-01T00:00:01Z";
}

abbrev pub failure : SemanticSuggestion
failure = record {
  suggestion_id = "LS-RC-1";
  request_id = "SR-RC-1";
  review_case_id = "RC-1";
  record_a_id = "a";
  record_b_id = "b";
  suggestion = SemanticSuggestionType.provider_failure;
  reason_codes = "PROVIDER_TIMEOUT" ∷ [];
  explanation = "timeout";
  provider = "openai";
  requested_model = "luna";
  returned_model = none;
  model_snapshot = none;
  provider_request_id = none;
  prompt_version = "1";
  prompt_template_hash = "0";
  request_schema_version = "1.0";
  response_schema_version = "1.0";
  request_fingerprint = "RC-1";
  attempt_count = 2;
  latency_ms = 0;
  input_token_count = 0;
  cached_input_token_count = 0;
  output_token_count = 0;
  reasoning_token_count = 0;
  estimated_cost_usd = none;
  actual_provider_cost_usd = none;
  hypothetical_model_cost_usd = none;
  cost_mode = CostMode.live;
  usage_available = false;
  pricing_version = "1";
  failure_code = some SemanticFailureCode.provider_timeout;
  created_at_utc = "2026-01-01T00:00:01Z";
  live = true;
  result_source = "provider_failure_fail_closed";
}
