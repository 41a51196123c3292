-- ===== src/Samples/Data.antt =====
-- The records, the configuration and the cases that the examples share.
use ai_data_quality_platform.Base.{String, true, none, [], ◌∷◌}
use ai_data_quality_platform.Base.Assoc.{Dict}
use ai_data_quality_platform.EntityResolution.Models.{
  MatchDecisionType, EntityRecord, EntityResolutionConfig,
}
use ai_data_quality_platform.EntityResolution.Conflicts.{TextTools, zero_point_zero}
use ai_data_quality_platform.HumanReview.Models.{ReviewStatus, ReviewCase}

-- Texts that are stored in their normal form already.
abbrev pub plain_tools : TextTools
plain_tools = record {
  strip = λ s. s;
  nfc = λ s. s;
  collapse_spaces = λ s. s;
  casefold = λ s. s;
  digits_only = λ s. s;
  ratio = λ s t. zero_point_zero;
}

abbrev pub config : EntityResolutionConfig
config = record {
  conflict_penalties = [];
  company_conflict_threshold = zero_point_zero;
  auto_match_threshold = zero_point_zero;
  review_threshold = zero_point_zero;
  require_strong_identity = true;
  strong_evidence_types = "EMAIL_EXACT" ∷ "PHONE_EXACT" ∷ [];
  forbid_severe_conflicts = true;
  severe_conflict_types = "EMAIL_CONFLICT" ∷ "PHONE_CONFLICT" ∷ [];
  weak_only_forces_review = true;
  weak_evidence_types = [];
  cluster_conflict_guard = true;
}

abbrev pub customer : String → EntityRecord
customer id = record { record_id = id; source_name = "crm"; field_values = [] }

abbrev pub records : Dict EntityRecord
records = ("a", customer "a") ∷ ("b", customer "b") ∷ ("c", customer "c") ∷ []

abbrev pub case_of : String → String → String → ReviewCase
case_of id left right = record {
  review_case_id = id;
  pair = record { record_a_id = left; record_b_id = right };
  record_ids = (left, right);
  machine_decision = MatchDecisionType.review;
  machine_score = zero_point_zero;
  auto_match_threshold = zero_point_zero;
  review_threshold = zero_point_zero;
  machine_reason = "Plausible duplicate evidence requires human review.";
  blocking_reasons = [];
  supporting_evidence = [];
  conflicting_evidence = [];
  missing_evidence_notes = [];
  machine_readable_reasons = [];
  human_summary = "";
  status = ReviewStatus.pending;
  resolution = none;
}
