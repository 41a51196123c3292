-- ===== src/SemanticReview/Request.antt =====
-- semantic_review/request_builder.py and ids.py: the bounded request on a pending case. The digest of
-- a JSON text and the text of the prompt are functions of the request, taken as arguments.
pub mod Identity
use Prim.Native.String.{count, ◌++◌}
use Prim.Native.Nat.{◌/◌, max}
use ai_data_quality_platform.Base.{
  ℕ, zero, suc, ◌+◌, String, Bool, true, false, not, Option, none, some, List, [], ◌∷◌, map, ltb,
  nat_eq, ◌==◌, if◌then◌else◌, Result, ok, err, ◌>>=◌, ◌>>◌, or_raise, raise_if,
}
use ai_data_quality_platform.Base.Assoc.{Dict, lookup}
use ai_data_quality_platform.EntityResolution.Models.{MatchDecisionType, EntityRecord, get_field}
use ai_data_quality_platform.HumanReview.Models.{ReviewStatus, status_eq, ReviewCase}
use ai_data_quality_platform.SemanticReview.Models.{
  FieldPresence, BoundedFieldValue, SemanticEvidenceItem, SemanticRecordView, SemanticReviewRequest,
  SemanticReviewConfig, ErrorClass, Raised, semantic, key_or_value_error,
}

-- SHA-256 of the canonical JSON, the hash and the length in characters of the prompt, and whether a
-- key of the request's dictionary holds a forbidden word.
pub record PromptTools : Type 0 where
  pub fingerprint : SemanticReviewRequest → String
  pub suggestion_digest : String → String → ℕ → String → String
  pub prompt_template_hash : String
  pub prompt_length : SemanticReviewRequest → ℕ
  pub leaks : SemanticReviewRequest → Bool

-- `text[:n]`, by characters
unfoldable pub first_chars : ℕ → String → String
first_chars zero text = ""
first_chars (suc n) String.[] = ""
first_chars (suc n) (String.◌∷◌ c text) = String.◌∷◌ c (first_chars n text)

abbrev pub allowed_fields : List String
allowed_fields =
    "first_name" ∷ "last_name" ∷ "email" ∷ "phone" ∷ "company" ∷ "city" ∷ "district" ∷ "address"
    ∷ []

-- `_bounded_field`
unfoldable pub bounded_field : String → Option String → ℕ → BoundedFieldValue
unfolding first_chars
bounded_field name none max_chars = record {
  field_name = name;
  presence = FieldPresence.missing;
  value = none;
  truncated = false;
}
bounded_field name (some raw) max_chars =
    if raw == ""
    then record {
      field_name = name;
      presence = FieldPresence.empty;
      value = some "";
      truncated = false;
    }
    else record {
      field_name = name;
      presence = FieldPresence.present;
      value = some (first_chars max_chars raw);
      truncated = ltb max_chars (count raw);
    }

-- `_record_view`
unfoldable pub record_view : EntityRecord → ℕ → SemanticRecordView
unfolding bounded_field get_field
record_view r max_chars = record {
  record_id = r.record_id;
  fields = map (λ name. bounded_field name (get_field r name) max_chars) allowed_fields;
}

-- `estimate_token_count`, by the number of characters
unfoldable pub estimate_token_count : ℕ → ℕ
estimate_token_count chars = if nat_eq chars 0 then 0 else max 1 ((chars + 3) / 4)

unfoldable pub is_review : MatchDecisionType → Bool
is_review MatchDecisionType.review = true
is_review _ = false

module _ (tools : PromptTools) where
  -- The request before its two ids are known.
  draft_request :
      ReviewCase
      → EntityRecord
      → EntityRecord
      → SemanticReviewConfig
      → String
      → SemanticReviewRequest
  unfolding record_view first_chars
  draft_request c a b config stamp = record {
    request_id = "pending";
    review_case_id = c.review_case_id;
    record_a_id = c.pair.record_a_id;
    record_b_id = c.pair.record_b_id;
    record_a = record_view a config.max_field_chars;
    record_b = record_view b config.max_field_chars;
    machine_decision = c.machine_decision;
    review_status = c.status;
    machine_score = c.machine_score;
    machine_reason = first_chars config.max_field_chars c.machine_reason;
    supporting_evidence =
        map
          (λ item. record {
            kind = "supporting";
            field_name = item.field_name;
            code = item.evidence_type;
            strength = item.strength;
            description = first_chars config.max_field_chars item.description;
          })
          c.supporting_evidence;
    conflicting_evidence =
        map
          (λ item. record {
            kind = "conflicting";
            field_name = item.field_name;
            code = item.conflict_type;
            strength = item.severity;
            description = first_chars config.max_field_chars item.description;
          })
          c.conflicting_evidence;
    missing_evidence_notes = map (first_chars config.max_field_chars) c.missing_evidence_notes;
    prompt_version = config.prompt_version;
    prompt_template_hash = tools.prompt_template_hash;
    request_schema_version = config.request_schema_version;
    response_schema_version = config.response_schema_version;
    request_fingerprint = "pending";
    created_at_utc = stamp;
  }

  -- `stable_request_id`, and the second construction of the request
  with_ids : SemanticReviewRequest → SemanticReviewRequest
  unfolding first_chars
  with_ids r = record r {
    request_id = "SR-" ++ first_chars 16 (tools.fingerprint r);
    request_fingerprint = tools.fingerprint r;
  }

  -- The two tests on the case, and the two on the finished request.
  check_case : ReviewCase → Result Raised (Unit {0})
  unfolding is_review
  check_case c =
      raise_if (not (is_review c.machine_decision)) key_or_value_error
      >> raise_if (not (status_eq c.status ReviewStatus.pending)) key_or_value_error

  check_prompt : SemanticReviewConfig → SemanticReviewRequest → Result Raised (Unit {0})
  unfolding estimate_token_count
  check_prompt config request =
      raise_if (tools.leaks request) key_or_value_error
      >> raise_if (ltb config.max_input_tokens (estimate_token_count (tools.prompt_length request)))
          (semantic record {
            error_class = ErrorClass.input_too_large;
            own_failure_code = none;
            message = "Estimated input tokens exceed max_input_tokens.";
          })

  unfoldable pub build_semantic_review_request :
      ReviewCase
      → Dict EntityRecord
      → SemanticReviewConfig
      → String
      → Result Raised SemanticReviewRequest
  unfolding check_case lookup draft_request with_ids check_prompt
  build_semantic_review_request c records config stamp = check_case c >>= λ checked.
      or_raise (lookup c.pair.record_a_id records) key_or_value_error >>= λ a.
      or_raise (lookup c.pair.record_b_id records) key_or_value_error >>= λ b.
      check_prompt config (with_ids (draft_request c a b config stamp)) >>= λ passed.
      ok (with_ids (draft_request c a b config stamp))
