-- ===== src/Samples/Queues.antt =====
-- Runs of the review queue: a queue of two cases is registered, and a MATCH is recorded in it.
use ai_data_quality_platform.Samples.Data.{plain_tools, config, customer, case_of}
use ai_data_quality_platform.Base.{
  String, Option, none, some, List, [], ◌∷◌, ◌≡◌, refl, Result, ok, err, text_lt, eq_iff,
  sorted_texts,
}
use ai_data_quality_platform.Base.AllOf.{AllOf}
use ai_data_quality_platform.EntityResolution.Models.{EntityRecord, EntityResolutionConfig, ordered}
use ai_data_quality_platform.EntityResolution.Severity.{cluster_conflict}
use ai_data_quality_platform.UnionFind.{
  find, find_halving, singletons, union, members_of, component_members,
}
use ai_data_quality_platform.HumanReview.Models.{
  HumanReviewDecision, ReviewWorkflowState, ReviewAuditEntry,
}
use ai_data_quality_platform.HumanReview.Constraints.{assert_human_match_allowed}
use ai_data_quality_platform.HumanReview.Authorization.{assert_human_match_authorization_boundary}
use ai_data_quality_platform.ReviewApi.Tenancy.{OrganizationStatus}
use ai_data_quality_platform.ReviewApplication.Errors.{ReviewApplicationError, review_conflict}
use ai_data_quality_platform.ReviewApplication.Payload.{
  to_dict, audit_entry_from_payload, audit_entry_from_payload-to_dict,
}
use ai_data_quality_platform.ReviewApplication.Models.{ReviewEventType, PersistedCase}
use ai_data_quality_platform.ReviewApplication.Bundle.{Snapshot}
use ai_data_quality_platform.ReviewApplication.Service.{ReviewResolutionResult, resolve_case}
use ai_data_quality_platform.ReviewApplication.Service.Refinement.{
  Refines, resolve_case-Refines, resolve_case-conflict,
}
use ai_data_quality_platform.ReviewApplication.Service.Isolation.{resolve_case-isolated}
use ai_data_quality_platform.ReviewApplication.Service.Runs.{
  Step, Runs, start, followed, Runs-StoreIsValid,
}
use ai_data_quality_platform.ReviewPersistence.Rows.{StorageTools}
use ai_data_quality_platform.ReviewPersistence.Tables.{ReviewStore}
use ai_data_quality_platform.ReviewPersistence.Repository.{load_workflow_bundle}
use ai_data_quality_platform.ReviewPersistence.Repository.Validity.{StoreIsValid}
use ai_data_quality_platform.ReviewPersistence.Registration.{register_workflow}
use ai_data_quality_platform.ReviewPersistence.Registration.Added.{HasOrderedPair}
use ai_data_quality_platform.ReviewPersistence.Registration.Additions.{Adds, register_workflow-Adds}
use ai_data_quality_platform.ReviewPersistence.Registration.Validity.{
  register_workflow-StoreIsValid,
}

abbrev exact_tools : StorageTools
exact_tools = record { strip = λ s. s; round_score = λ x. x }

abbrev empty_queue : ReviewStore
empty_queue = record {
  organizations =
      record {
        organization_id = "org_1";
        slug = "acme";
        display_name = "Acme";
        status = OrganizationStatus.active;
        created_at_utc = "t0";
      }
      ∷ [];
  review_queues =
      record {
        review_queue_id = "rq_1";
        organization_id = "org_1";
        name = "crm";
        created_at_utc = "t0";
      }
      ∷ [];
  workflow_contexts = [];
  review_cases = [];
  review_case_events = [];
  next_event_id = 1;
}

abbrev generated : ReviewWorkflowState
generated = record {
  cases = case_of "RC-1" "a" "b" ∷ case_of "RC-2" "b" "c" ∷ [];
  audit_trail = [];
  next_resolution_sequence = 1;
}

abbrev customers : List EntityRecord
customers = customer "a" ∷ customer "b" ∷ customer "c" ∷ []

abbrev no_automatic_match : Snapshot
no_automatic_match = record { source_label = "crm"; auto_match_pairs = [] }

load_config : String → Option EntityResolutionConfig
load_config path = some config

-- What a run answers, or the value that stands in for an exception.
abbrev value_of {ℓ} : {A : Type ℓ} → A → Result ReviewApplicationError A → A
value_of other (err raised) = other
value_of other (ok value) = value

abbrev no_cases : List PersistedCase × ReviewStore
no_cases = ([], empty_queue)

abbrev registered : Result ReviewApplicationError (List PersistedCase × ReviewStore)
registered =
    register_workflow exact_tools "rq_1" generated customers no_automatic_match (some "er.yaml")
      "t1" empty_queue

abbrev first_queue : List PersistedCase × ReviewStore
first_queue = value_of no_cases registered

registration : registered ≡ ok first_queue
unfolding register_workflow
registration = refl

abbrev blank_entry : ReviewAuditEntry
blank_entry = record {
  review_case_id = "";
  record_a_id = "";
  record_b_id = "";
  machine_decision = "";
  machine_reason = "";
  human_decision = "";
  reviewer_id = none;
  resolution_sequence = 0;
  downstream_action = "";
}

abbrev no_result : ReviewResolutionResult × ReviewStore
no_result = (
  record {
    persisted_case = record {
      case = case_of "" "" "";
      version = 0;
      created_at_utc = "";
      updated_at_utc = "";
    };
    audit_entry = blank_entry;
    event = record {
      review_case_id = "";
      event_type = ReviewEventType.case_created;
      occurred_at_utc = "";
      schema_version = none;
      event_id = none;
      resolution_sequence = none;
      reviewer_id = none;
      audit_entry_payload = none;
      suggestion_id = none;
    };
    workflow_state = generated;
  },
  empty_queue,
)

abbrev match_run : Result ReviewApplicationError (ReviewResolutionResult × ReviewStore)
match_run =
    resolve_case plain_tools exact_tools "rq_1" [] load_config "RC-1" HumanReviewDecision.match none
      1 "t2" first_queue.1

abbrev matched : ReviewResolutionResult × ReviewStore
matched = value_of no_result match_run

match_resolves : match_run ≡ ok matched
unfolding resolve_case load_config register_workflow assert_human_match_authorization_boundary
    assert_human_match_allowed members_of find singletons sorted_texts text_lt union
    component_members find_halving cluster_conflict
match_resolves = refl

match_advances : matched.0.persisted_case.version ≡ 2
unfolding resolve_case load_config register_workflow assert_human_match_authorization_boundary
    assert_human_match_allowed members_of find singletons sorted_texts text_lt union
    component_members find_halving cluster_conflict
match_advances = refl

pairs_in_order : AllOf HasOrderedPair generated.cases
unfolding ordered text_lt
pairs_in_order = (refl, (refl, tt))

first_queue-valid : StoreIsValid exact_tools first_queue.1
first_queue-valid =
    register_workflow-StoreIsValid exact_tools "rq_1" generated customers no_automatic_match
      (some "er.yaml") "t1" empty_queue first_queue.0 first_queue.1 (λ x. refl) pairs_in_order
      (record { stored = tt; fresh = tt }) registration

resolve_case-Refines_example :
    Refines plain_tools exact_tools "rq_1" [] load_config "RC-1" HumanReviewDecision.match none 1
      first_queue.1 matched.0 matched.1
resolve_case-Refines_example =
    resolve_case-Refines plain_tools exact_tools "rq_1" [] load_config "RC-1"
      HumanReviewDecision.match none 1 "t2" first_queue.1 matched.0 matched.1 first_queue-valid
      match_resolves

resolve_case-conflict_example :
    resolve_case plain_tools exact_tools "rq_1" [] load_config "RC-1" HumanReviewDecision.no_match
      (some "ann")
      1
      "t3"
      matched.1
    ≡ err review_conflict
resolve_case-conflict_example =
    resolve_case-conflict plain_tools exact_tools "rq_1" [] load_config "RC-1"
      HumanReviewDecision.match none 1 "t2" first_queue.1 matched.0 matched.1
      HumanReviewDecision.no_match (some "ann") "t3" first_queue-valid match_resolves

resolve_case-isolated_example :
    load_workflow_bundle exact_tools "rq_2" matched.1
    ≡ load_workflow_bundle exact_tools "rq_2" first_queue.1
resolve_case-isolated_example =
    resolve_case-isolated plain_tools exact_tools "rq_1" [] load_config "RC-1"
      HumanReviewDecision.match none 1 "t2" first_queue.1 matched.0 matched.1 "rq_2" match_resolves
      (λ e. cc ((eq_iff "rq_1" "rq_2").1 e))

register_workflow-Adds_example :
    Adds exact_tools "rq_1" generated.cases customers no_automatic_match
      (some "er.yaml")
      empty_queue
      first_queue.1
register_workflow-Adds_example =
    register_workflow-Adds exact_tools "rq_1" generated customers no_automatic_match
      (some "er.yaml") "t1" empty_queue first_queue.0 first_queue.1 pairs_in_order registration

two_steps : Runs plain_tools exact_tools load_config empty_queue matched.1
two_steps =
    followed
      (followed start (
        Step.registered "rq_1" generated customers no_automatic_match (some "er.yaml") "t1"
          first_queue.0 pairs_in_order registration))
      (Step.resolved "rq_1" [] "RC-1" HumanReviewDecision.match none 1 "t2" matched.0
        match_resolves)

Runs-StoreIsValid_example : StoreIsValid exact_tools matched.1
Runs-StoreIsValid_example =
    Runs-StoreIsValid plain_tools exact_tools load_config (λ x. refl) two_steps
      (record { stored = tt; fresh = tt })

audit_entry_from_payload-to_dict_example :
    audit_entry_from_payload (to_dict matched.0.audit_entry) ≡ ok matched.0.audit_entry
audit_entry_from_payload-to_dict_example = audit_entry_from_payload-to_dict matched.0.audit_entry
