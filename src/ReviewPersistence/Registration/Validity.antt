-- ===== src/ReviewPersistence/Registration/Validity.antt =====
-- What a registration leaves valid.
use ai_data_quality_platform.Base.{String, Option, List, [], ◌∷◌, ok, ◌≡◌, text_eq}
use ai_data_quality_platform.Base.AllOf.{AllOf, AllOf-append}
use ai_data_quality_platform.Base.Float.{Float}
use ai_data_quality_platform.EntityResolution.Models.{EntityRecord}
use ai_data_quality_platform.HumanReview.Models.{ReviewWorkflowState}
use ai_data_quality_platform.ReviewApplication.Models.{PersistedCase}
use ai_data_quality_platform.ReviewApplication.Bundle.{Snapshot}
use ai_data_quality_platform.ReviewPersistence.Rows.{StorageTools, CaseRow, case_payload_json}
use ai_data_quality_platform.ReviewPersistence.Rows.Reading.{IsStored}
use ai_data_quality_platform.ReviewPersistence.Tables.{ReviewStore}
use ai_data_quality_platform.ReviewPersistence.Repository.Validity.{StoreIsValid}
use ai_data_quality_platform.ReviewPersistence.Registration.{register_workflow}
use ai_data_quality_platform.ReviewPersistence.Registration.Added.{HasOrderedPair, IsNew}
use ai_data_quality_platform.ReviewPersistence.Registration.Additions.{register_workflow-Adds}

module _ (tools : StorageTools) (queue : String) where
  new-IsStored :
      ((x : Float) → tools.round_score (tools.round_score x) ≡ tools.round_score x)
      → (rows : List CaseRow) → AllOf (IsNew tools queue) rows
      → AllOf (IsStored tools) rows
  unfolding case_payload_json
  new-IsStored round [] new = tt
  new-IsStored round (row ∷ rows) (n, new) = (
    record {
      in_order = rw n.payload n.in_order;
      rounded = rw n.payload (round n.source.machine_score);
    },
    new-IsStored round rows new,
  )

  -- Where rounding a rounded score changes nothing, a registration leaves a valid store valid.
  pub register_workflow-StoreIsValid :
      (state : ReviewWorkflowState) (records : List EntityRecord) (snapshot : Snapshot)
      (path : Option String) (now : String) (store : ReviewStore) (ps : List PersistedCase)
      (store' : ReviewStore)
      → ((x : Float) → tools.round_score (tools.round_score x) ≡ tools.round_score x)
      → AllOf HasOrderedPair state.cases
      → StoreIsValid tools store
      → register_workflow tools queue state records snapshot path now store ≡ ok (ps, store')
      → StoreIsValid tools store'
  register_workflow-StoreIsValid state records snapshot path now store ps store' round in_order v
        h =
      let a =
        (register_workflow-Adds tools queue state records snapshot path now store ps store' in_order
          h).rows_added in
      record {
        stored = rw a.rows (
            AllOf-append (IsStored tools) store.review_cases a.added v.stored
              (new-IsStored round a.added a.fresh));
        fresh = rw (a.events, a.next) v.fresh;
      }
