-- ===== src/ReviewPersistence/Repository/Calls.antt =====
-- What a bundle that was loaded went through.
use ai_data_quality_platform.Base.{
  String, false, some, List, [], ◌==◌, ltb, map, ok, raise_if, raise_if-false, returned-bind,
  ok-injective, ◌≡◌, sym, ap, inl, inr, Option-cases,
}
use ai_data_quality_platform.EntityResolution.Models.{EntityRecord}
use ai_data_quality_platform.ReviewApplication.Errors.{persisted_case_integrity}
use ai_data_quality_platform.ReviewApplication.Models.{PersistedCase, ReviewEvent}
use ai_data_quality_platform.ReviewApplication.Bundle.{
  WorkflowBundle, assert_unique_cases, assert_record_coverage, workflow_bundle,
}
use ai_data_quality_platform.ReviewApplication.History.{ReconstructedHistory, reconstruct_history}
use ai_data_quality_platform.ReviewPersistence.Rows.{StorageTools}
use ai_data_quality_platform.ReviewPersistence.Tables.{ContextRow, ReviewStore}
use ai_data_quality_platform.ReviewPersistence.Context.{entity_records_from_payload}
use ai_data_quality_platform.ReviewPersistence.Repository.{
  fetchone, select_cases, select_events, load_workflow_bundle,
}

-- The bundle of what was read.
abbrev pub bundle_of :
    ContextRow → List PersistedCase → ReconstructedHistory → List EntityRecord → WorkflowBundle
bundle_of context persisted history records = record {
  persisted_cases = persisted;
  entity_records = records;
  resolution_snapshot = context.resolution_snapshot;
  next_resolution_sequence = history.next_resolution_sequence;
  audit_entries = history.audit_entries;
  entity_resolution_config_path = context.entity_resolution_config_path;
}

pub record Loaded (tools : StorageTools) (queue : String) (store : ReviewStore)
    (bundle : WorkflowBundle) : Type 0 where
  pub context : ContextRow
  pub persisted : List PersistedCase
  pub events : List ReviewEvent
  pub history : ReconstructedHistory
  pub records : List EntityRecord
  pub has_context :
      fetchone (λ (row : ContextRow). row.review_queue_id == queue) store.workflow_contexts
      ≡ some context
  pub has_cases : select_cases tools queue store ≡ ok persisted
  pub has_events : select_events tools queue store ≡ ok events
  pub has_history : reconstruct_history persisted events ≡ ok history
  pub has_records : entity_records_from_payload context.entity_records ≡ ok records
  pub positive : ltb history.next_resolution_sequence 1 ≡ false
  pub unique : assert_unique_cases [] persisted ≡ ok tt
  pub covered : assert_record_coverage (map (λ r. r.record_id) records) persisted ≡ ok tt
  pub value : bundle ≡ bundle_of context persisted history records

module _ (tools : StorageTools) (queue : String) (store : ReviewStore)
    (bundle : WorkflowBundle) where
  pub load_workflow_bundle-Loaded :
      load_workflow_bundle tools queue store ≡ ok bundle → Loaded tools queue store bundle
  unfolding load_workflow_bundle workflow_bundle
  load_workflow_bundle-Loaded h =
      elim (Option-cases
        (fetchone (λ (row : ContextRow). row.review_queue_id == queue) store.workflow_contexts)) [
          | inl missing ↦ cc (rw missing at h)
          | inr (context, has_context) ↦
              let (persisted, h2, has_cases) =
                returned-bind (select_cases tools queue store) _ (rw has_context at h) in
              let (events, h3, has_events) = returned-bind (select_events tools queue store) _ h2 in
              let (history, h4, has_history) =
                returned-bind (reconstruct_history persisted events) _ h3 in
              let (records, h5, has_records) =
                returned-bind (entity_records_from_payload context.entity_records) _ h4 in
              let (u, h6, positive) =
                returned-bind
                  (raise_if (ltb history.next_resolution_sequence 1) persisted_case_integrity) _
                  h5 in
              let (v, h7, unique) = returned-bind (assert_unique_cases [] persisted) _ h6 in
              let (w, h8, covered) =
                returned-bind
                  (assert_record_coverage (map (λ (r : EntityRecord). r.record_id) records)
                    persisted)
                  _ h7 in
              record {
                context = context;
                persisted = persisted;
                events = events;
                history = history;
                records = records;
                has_context = has_context;
                has_cases = has_cases;
                has_events = has_events;
                has_history = has_history;
                has_records = has_records;
                positive = raise_if-false _ _ positive;
                unique = unique;
                covered = covered;
                value = sym (ok-injective h8);
              }
        ]

  pub Loaded-load_workflow_bundle :
      Loaded tools queue store bundle → load_workflow_bundle tools queue store ≡ ok bundle
  unfolding load_workflow_bundle workflow_bundle
  Loaded-load_workflow_bundle l =
      rw
        (
          l.has_context, l.has_cases, l.has_events, l.has_history, l.has_records, l.positive,
          l.unique, l.covered,
        )
        (ap ok (sym l.value))
