-- ===== src/ReviewApplication/Service/Refinement.antt =====
-- The stored queue refines the workflow: what is loaded after a resolution is the state that
-- the workflow returned.
use ai_data_quality_platform.Base.{
  ℕ, ◌+◌, nat_eq, String, false, Option, some, List, [], ◌∷◌, ◌==◌, ok, err, some-injective, ◌≡◌,
  refl, sym, ap, ◌∙◌, arith, eq_iff, inl, inr, Bool-cases, text_eq,
}
use ai_data_quality_platform.Base.Assoc.{Dict}
use ai_data_quality_platform.EntityResolution.Models.{EntityResolutionConfig}
use ai_data_quality_platform.EntityResolution.Conflicts.{TextTools}
use ai_data_quality_platform.HumanReview.Models.{HumanReviewDecision, ReviewCase}
use ai_data_quality_platform.HumanReview.Workflow.{
  ReviewContext, resolved_case, resolve_case as resolve,
}
use ai_data_quality_platform.HumanReview.Workflow.Invariant.{find_case-id}
use ai_data_quality_platform.HumanReview.Workflow.Transitions.{
  resolved_case-id, Resolved, resolve_case-Resolved,
}
use ai_data_quality_platform.ReviewApplication.Errors.{review_conflict}
use ai_data_quality_platform.ReviewApplication.Models.{PersistedCase}
use ai_data_quality_platform.ReviewApplication.Bundle.{WorkflowBundle, to_workflow_state}
use ai_data_quality_platform.ReviewPersistence.Rows.{StorageTools}
use ai_data_quality_platform.ReviewPersistence.Rows.Reading.{updated_case}
use ai_data_quality_platform.ReviewPersistence.Tables.{ReviewStore}
use ai_data_quality_platform.ReviewPersistence.Repository.{fetchone, load_workflow_bundle}
use ai_data_quality_platform.ReviewPersistence.Repository.Loading.{update_cases}
use ai_data_quality_platform.ReviewPersistence.Repository.Calls.{
  Loaded, load_workflow_bundle-Loaded, Loaded-load_workflow_bundle,
}
use ai_data_quality_platform.ReviewPersistence.Repository.Validity.{StoreIsValid}
use ai_data_quality_platform.ReviewPersistence.Repository.Holding.{is_named}
use ai_data_quality_platform.ReviewApplication.Service.{
  ReviewResolutionResult, authorization_context, locate, assert_not_stale, resolve_case,
}
use ai_data_quality_platform.ReviewApplication.Service.Calls.{Ran, resolve_case-Ran}
use ai_data_quality_platform.ReviewApplication.Service.Written.{
  bundle_after, reloaded, state-agrees, store-valid, version_returned,
}

module _ (texts : TextTools) (tools : StorageTools) (queue : String)
    (cached : Dict EntityResolutionConfig) (load : String → Option EntityResolutionConfig)
    (case_id : String) (d : HumanReviewDecision) (reviewer : Option String) where
  -- The workflow decides on what was loaded, and what it returned is what is loaded next.
  pub record Refines (version : ℕ) (store : ReviewStore) (result : ReviewResolutionResult)
      (store' : ReviewStore) : Type 0 where
    pub before : WorkflowBundle
    pub context : ReviewContext
    pub after : WorkflowBundle
    pub loads : load_workflow_bundle tools queue store ≡ ok before
    pub authorizes : authorization_context cached load before d ≡ ok context
    pub decides :
        resolve texts (to_workflow_state before) case_id d reviewer context
        ≡ ok result.workflow_state
    pub reloads : load_workflow_bundle tools queue store' ≡ ok after
    pub agrees : to_workflow_state after ≡ result.workflow_state
    pub valid : StoreIsValid tools store'
    pub latest : PersistedCase
    pub locates : fetchone (is_named case_id) after.persisted_cases ≡ some latest
    pub advances : latest.version ≡ version + 1
    pub returns : result.persisted_case.version ≡ version + 1

  fetchone-update_cases :
      (after : ReviewCase) (now : String) (ps : List PersistedCase) (p : PersistedCase)
      → after.review_case_id ≡ case_id
      → fetchone (is_named case_id) ps ≡ some p
      → fetchone (is_named case_id) (update_cases case_id after now ps)
        ≡ some (updated_case after now p)
  unfolding fetchone update_cases
  fetchone-update_cases after now [] p named h = cc
  fetchone-update_cases after now (q ∷ ps) p named h =
      elim (Bool-cases (q.case.review_case_id == case_id)) [
        | inl hit ↦
            let same : q ≡ p = some-injective (rw hit at h) in
            rw (hit, (eq_iff after.review_case_id case_id).1 named)
              (ap (λ w. some (updated_case after now w)) same)
        | inr miss ↦ rw (miss, miss) (fetchone-update_cases after now ps p named (rw miss at h))
      ]

  -- Where a resolution succeeds on a valid store, the workflow decided it on the loaded queue, the queue
  -- that is loaded next is the state that the workflow returned, and the store is valid again.
  pub resolve_case-Refines :
      (version : ℕ) (now : String) (store : ReviewStore) (result : ReviewResolutionResult)
      (store' : ReviewStore)
      → StoreIsValid tools store
      → resolve_case texts tools queue cached load case_id d reviewer version now store
        ≡ ok (result, store')
      → Refines version store result store'
  resolve_case-Refines version now store result store' v h =
      let r : Ran texts tools queue cached load case_id d reviewer version now store result store' =
        resolve_case-Ran texts tools queue cached load case_id d reviewer version now store result
          store' h in
      let l : Loaded tools queue store r.bundle =
        load_workflow_bundle-Loaded tools queue store r.bundle r.loads in
      let dom : Resolved texts (to_workflow_state r.bundle) case_id d reviewer r.context
          result.workflow_state =
        resolve_case-Resolved texts (to_workflow_state r.bundle) case_id d reviewer r.context
          result.workflow_state r.decides in
      let located : fetchone (is_named case_id) l.persisted ≡ some r.persisted =
        ap (λ b. fetchone (is_named case_id) b.persisted_cases) (sym l.value) ∙ r.located in
      record {
        before = r.bundle;
        context = r.context;
        after =
            bundle_after texts tools queue case_id d reviewer version now store result store'
              r.bundle r.context r.persisted l v r.decides dom r.wrote located r.current;
        loads = r.loads;
        authorizes = r.authorizes;
        decides = r.decides;
        reloads = Loaded-load_workflow_bundle tools queue store' _ (
            reloaded texts tools queue case_id d reviewer version now store result store' r.bundle
              r.context r.persisted l v r.decides dom r.wrote located r.current);
        latest =
            updated_case (resolved_case (to_workflow_state r.bundle) dom.was d reviewer) now
              r.persisted;
        locates =
            fetchone-update_cases (resolved_case (to_workflow_state r.bundle) dom.was d reviewer)
              now l.persisted r.persisted
              (resolved_case-id (to_workflow_state r.bundle) dom.was d reviewer
                ∙ find_case-id case_id (to_workflow_state r.bundle).cases dom.was dom.found)
              located;
        advances = ap (λ n. n + 1) r.current;
        returns =
            version_returned texts tools queue case_id d reviewer version now store result store'
              r.bundle r.context r.persisted l v r.decides dom r.wrote located r.current;
        agrees =
            state-agrees texts tools queue case_id d reviewer version now store result store'
              r.bundle r.context r.persisted l v r.decides dom r.wrote located r.current;
        valid =
            store-valid texts tools queue case_id d reviewer version now store result store'
              r.bundle r.context r.persisted l v r.decides dom r.wrote located r.current;
      }

  -- A queue that holds the case at a later version refuses the decision.
  stale-conflict :
      (version : ℕ) (now : String) (store : ReviewStore) (bundle : WorkflowBundle)
      (p : PersistedCase) (again : HumanReviewDecision) (reviewer' : Option String)
      → load_workflow_bundle tools queue store ≡ ok bundle
      → fetchone (is_named case_id) bundle.persisted_cases ≡ some p
      → p.version ≡ version + 1
      → resolve_case texts tools queue cached load case_id again reviewer' version now store
        ≡ err review_conflict
  unfolding resolve_case locate assert_not_stale
  stale-conflict version now store bundle p again reviewer' loads located later =
      let stale : nat_eq p.version version ≡ false = rw later (ground arith) in
      rw (loads, located, stale) refl

  -- A decision that was taken against the version before a resolution is refused after it as a
  -- conflict, whatever it decides.
  pub resolve_case-conflict :
      (version : ℕ) (now : String) (store : ReviewStore) (result : ReviewResolutionResult)
      (store' : ReviewStore) (again : HumanReviewDecision) (reviewer' : Option String)
      (now' : String)
      → StoreIsValid tools store
      → resolve_case texts tools queue cached load case_id d reviewer version now store
        ≡ ok (result, store')
      → resolve_case texts tools queue cached load case_id again reviewer' version now' store'
        ≡ err review_conflict
  resolve_case-conflict version now store result store' again reviewer' now' v h =
      let r : Refines version store result store' =
        resolve_case-Refines version now store result store' v h in
      stale-conflict version now' store' r.after r.latest again reviewer' r.reloads r.locates
        r.advances
