-- ===== src/ReviewApplication/Service/Runs.antt =====
-- The steps that the repository and the service take on one store, and that its rows stay valid.
use ai_data_quality_platform.Base.{String, Option, List, ℕ, ok, ◌≡◌}
use ai_data_quality_platform.Base.Assoc.{Dict}
use ai_data_quality_platform.Base.AllOf.{AllOf}
use ai_data_quality_platform.Base.Float.{Float}
use ai_data_quality_platform.EntityResolution.Models.{EntityRecord, EntityResolutionConfig}
use ai_data_quality_platform.EntityResolution.Conflicts.{TextTools}
use ai_data_quality_platform.HumanReview.Models.{HumanReviewDecision, ReviewWorkflowState}
use ai_data_quality_platform.ReviewApplication.Models.{PersistedCase}
use ai_data_quality_platform.ReviewApplication.Bundle.{Snapshot}
use ai_data_quality_platform.ReviewPersistence.Rows.{StorageTools}
use ai_data_quality_platform.ReviewPersistence.Tables.{ReviewStore}
use ai_data_quality_platform.ReviewPersistence.Registration.{register_workflow}
use ai_data_quality_platform.ReviewPersistence.Registration.Added.{HasOrderedPair}
use ai_data_quality_platform.ReviewPersistence.Registration.Validity.{
  register_workflow-StoreIsValid,
}
use ai_data_quality_platform.ReviewPersistence.Repository.Validity.{StoreIsValid}
use ai_data_quality_platform.ReviewApplication.Service.{ReviewResolutionResult, resolve_case}
use ai_data_quality_platform.ReviewApplication.Service.Refinement.{resolve_case-Refines}

module _ (texts : TextTools) (tools : StorageTools)
    (load : String → Option EntityResolutionConfig) where
  -- A registration or a resolution that succeeded, in any queue.
  pub data Step : ReviewStore → ReviewStore → Type 0 where
    registered :
        {store store' : ReviewStore} (queue : String) (state : ReviewWorkflowState)
        (records : List EntityRecord) (snapshot : Snapshot) (path : Option String) (now : String)
        (ps : List PersistedCase)
        → AllOf HasOrderedPair state.cases
        → register_workflow tools queue state records snapshot path now store ≡ ok (ps, store')
        → Step store store'
    resolved :
        {store store' : ReviewStore} (queue : String) (cached : Dict EntityResolutionConfig)
        (case_id : String) (d : HumanReviewDecision) (reviewer : Option String) (version : ℕ)
        (now : String) (result : ReviewResolutionResult)
        → resolve_case texts tools queue cached load case_id d reviewer version now store
          ≡ ok (result, store')
        → Step store store'

  -- Any number of steps, one after another.
  pub data Runs (store : ReviewStore) : ReviewStore → Type 0 where
    start : Runs store store
    followed :
        {middle after : ReviewStore} → Runs store middle → Step middle after → Runs store after

  module _
      (round : (x : Float) → tools.round_score (tools.round_score x) ≡ tools.round_score x) where
    Step-StoreIsValid :
        {store store' : ReviewStore}
        → Step store store'
        → StoreIsValid tools store
        → StoreIsValid tools store'
    Step-StoreIsValid {store} {store'}
          (registered queue state records snapshot path now ps in_order h) v =
        register_workflow-StoreIsValid tools queue state records snapshot path now store ps store'
          round in_order v h
    Step-StoreIsValid {store} {store'}
          (resolved queue cached case_id d reviewer version now result h) v =
        (resolve_case-Refines texts tools queue cached load case_id d reviewer version now store
          result store' v h).valid

    -- Registrations of ordered cases and resolutions, in whatever order and queues, keep a store valid.
    pub Runs-StoreIsValid :
        {store store' : ReviewStore}
        → Runs store store'
        → StoreIsValid tools store
        → StoreIsValid tools store'
    Runs-StoreIsValid start v = v
    Runs-StoreIsValid (followed r s) v = Step-StoreIsValid s (Runs-StoreIsValid r v)
