-- ===== src/ReviewApplication/Bundle.antt =====
-- review_application/models.py: `WorkflowBundle`, all that the authorization of a MATCH needs, with
-- its checks. The keys and types of the snapshot are those of the record `Snapshot`.
pub mod Distinct
use ai_data_quality_platform.Base.{
  ℕ, String, Bool, not, Option, List, [], ◌∷◌, ◌||◌, ltb, Result, ok, err, ◌>>=◌, ◌>>◌, raise_if,
  contains, text_eq, map, any,
}
use ai_data_quality_platform.Base.Assoc.{Dict, dict_of}
use ai_data_quality_platform.EntityResolution.Models.{EntityRecord}
use ai_data_quality_platform.HumanReview.Models.{ReviewAuditEntry, ReviewCase, ReviewWorkflowState}
use ai_data_quality_platform.ReviewApplication.Errors.{
  ReviewApplicationError, persisted_case_integrity,
}
use ai_data_quality_platform.ReviewApplication.Models.{PersistedCase}

-- What `resolution_snapshot` of human_review/reporting.py keeps of a resolution.
pub record Snapshot : Type 0 where
  pub source_label : String
  pub auto_match_pairs : List (String × String)

pub record WorkflowBundle : Type 0 where
  pub persisted_cases : List PersistedCase
  pub entity_records : List EntityRecord
  pub resolution_snapshot : Snapshot
  pub next_resolution_sequence : ℕ
  pub audit_entries : List ReviewAuditEntry
  pub entity_resolution_config_path : Option String

abbrev pub case_ids : List PersistedCase → List String
case_ids [] = []
case_ids (p ∷ ps) = p.case.review_case_id ∷ case_ids ps

-- `_assert_unique_cases`, with the ids seen so far.
unfoldable pub assert_unique_cases :
    List String → List PersistedCase → Result ReviewApplicationError (Unit {0})
assert_unique_cases seen [] = ok tt
assert_unique_cases seen (p ∷ ps) =
    raise_if (contains p.case.review_case_id seen) persisted_case_integrity
    >> assert_unique_cases (p.case.review_case_id ∷ seen) ps

-- `_assert_record_coverage`
unfoldable pub assert_record_coverage :
    List String → List PersistedCase → Result ReviewApplicationError (Unit {0})
assert_record_coverage known [] = ok tt
assert_record_coverage known (p ∷ ps) =
    raise_if
      (not (contains p.case.pair.record_a_id known) || not (contains p.case.pair.record_b_id known))
      persisted_case_integrity
    >> assert_record_coverage known ps

-- `WorkflowBundle(...)`
unfoldable pub workflow_bundle : WorkflowBundle → Result ReviewApplicationError WorkflowBundle
unfolding assert_unique_cases assert_record_coverage
workflow_bundle bundle = do
  raise_if (ltb bundle.next_resolution_sequence 1) persisted_case_integrity
  assert_unique_cases [] bundle.persisted_cases
  assert_record_coverage (map (λ r. r.record_id) bundle.entity_records) bundle.persisted_cases
  ok bundle

abbrev pub cases_in : List PersistedCase → List ReviewCase
cases_in [] = []
cases_in (p ∷ ps) = p.case ∷ cases_in ps

-- `WorkflowBundle.to_workflow_state`
unfoldable pub to_workflow_state : WorkflowBundle → ReviewWorkflowState
to_workflow_state bundle = record {
  cases = cases_in bundle.persisted_cases;
  audit_trail = bundle.audit_entries;
  next_resolution_sequence = bundle.next_resolution_sequence;
}

-- `WorkflowBundle.records_by_id`
unfoldable pub records_by_id : WorkflowBundle → Dict EntityRecord
unfolding dict_of
records_by_id bundle = dict_of (map (λ r. (r.record_id, r)) bundle.entity_records)
