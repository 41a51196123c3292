-- ===== src/ReviewPersistence/Registration/Additions.antt =====
-- What a registration changes: it adds its cases and the context of its queue, and leaves what was
-- stored as it was.
use ai_data_quality_platform.Base.{
  String, Option, List, [], ◌∷◌, ◌==◌, ok, returned-bind, ok-injective, ◌≡◌, refl, sym, ap, ◌∙◌,
  subst, text_eq, inl, inr, Option-cases, append-nil,
}
use ai_data_quality_platform.Base.AllOf.{AllOf, AnyOf-append}
use ai_data_quality_platform.EntityResolution.Models.{EntityRecord}
use ai_data_quality_platform.HumanReview.Models.{ReviewCase, ReviewWorkflowState}
use ai_data_quality_platform.ReviewApplication.Models.{PersistedCase}
use ai_data_quality_platform.ReviewApplication.Bundle.{Snapshot}
use ai_data_quality_platform.ReviewPersistence.Rows.{StorageTools}
use ai_data_quality_platform.ReviewPersistence.Tables.{ContextRow, ReviewStore}
use ai_data_quality_platform.ReviewPersistence.Repository.{
  fetchone, assert_queue_accepts_registration,
}
use ai_data_quality_platform.ReviewPersistence.Registration.Contexts.{
  HoldsContext, context_row-queue, stored_anew, stored_before,
}
use ai_data_quality_platform.ReviewPersistence.Registration.Stored.{
  IsStoredIn, IsRowOf, register_case_in-IsStoredIn,
}
use ai_data_quality_platform.ReviewPersistence.Registration.{
  assert_all_registrable, assert_records_cover_cases, store_context, assert_same_context,
  context_row, register_case_in, register_cases_in, register_workflow,
}
use ai_data_quality_platform.ReviewPersistence.Registration.Added.{
  HasOrderedPair, AddsRows, AddsRows-refl, AddsRows-trans, register_cases_in-Adds,
}

module _ (tools : StorageTools) (queue : String) where
  -- Every case of the list is stored when the last one is registered.
  register_cases_in-IsStoredIn :
      (cases : List ReviewCase) (now : String) (ps : List PersistedCase)
      (store store' : ReviewStore)
      → AllOf HasOrderedPair cases
      → register_cases_in tools queue cases now store ≡ ok (ps, store')
      → AllOf (IsStoredIn queue store'.review_cases) cases
  unfolding register_cases_in
  register_cases_in-IsStoredIn [] now ps store store' in_order h = tt
  register_cases_in-IsStoredIn (c ∷ cases) now ps store store' (ordered_c, in_order) h =
      let (first, h1, e1) = returned-bind (register_case_in tools queue c now store) _ h in
      let (rest, h2, e2) = returned-bind (register_cases_in tools queue cases now first.1) _ h1 in
      let later = register_cases_in-Adds tools queue cases now rest.0 first.1 rest.1 in_order e2 in
      subst (λ (s : ReviewStore). AllOf (IsStoredIn queue s.review_cases) (c ∷ cases))
        (ap (λ w. w.1) (ok-injective h2))
        (
          subst (λ rows. IsStoredIn queue rows c) (sym later.rows)
              (AnyOf-append (IsRowOf queue c.review_case_id) first.1.review_cases later.added
                (register_case_in-IsStoredIn tools queue c now first.0 store first.1 e1)),
          register_cases_in-IsStoredIn cases now rest.0 first.1 rest.1 in_order e2,
        )

  -- What became of the store.
  pub record Adds (cases : List ReviewCase) (records : List EntityRecord) (snapshot : Snapshot)
      (path : Option String) (store store' : ReviewStore) : Type 0 where
    pub contexts : List ContextRow
    pub own : AllOf (λ row. row.review_queue_id ≡ queue) contexts
    pub rows_added : AddsRows tools queue contexts store store'
    pub context : HoldsContext tools queue records snapshot path store'.workflow_contexts
    pub every_case : AllOf (IsStoredIn queue store'.review_cases) cases

  store_context-Adds :
      (records : List EntityRecord) (snapshot : Snapshot) (path : Option String) (now : String)
      (store store' : ReviewStore)
      → store_context tools queue records snapshot path now store ≡ ok store'
      → Adds [] records snapshot path store store'
  unfolding store_context
  store_context-Adds records snapshot path now store store' h =
      elim (Option-cases
        (fetchone (λ (row : ContextRow). row.review_queue_id == queue) store.workflow_contexts)) [
          | inl absent ↦
              subst (Adds [] records snapshot path store)
                (ok-injective (rw (absent, store_context) at h))
                (record {
                  contexts = context_row tools queue records snapshot path now ∷ [];
                  own = (context_row-queue tools queue records snapshot path now, tt);
                  rows_added = record {
                    added = [];
                    rows = sym (append-nil store.review_cases);
                    fresh = tt;
                    events = refl;
                    next = refl;
                    tenants = refl;
                    queues = refl;
                    contexts_after = refl;
                  };
                  context =
                      stored_anew tools queue records snapshot path now store.workflow_contexts
                        absent;
                  every_case = tt;
                })
          | inr (stored, there) ↦
              let (u, same, e) =
                returned-bind (assert_same_context tools queue records snapshot path stored) _
                  (rw (there, store_context) at h) in
              subst (Adds [] records snapshot path store) (ok-injective same) (record {
                contexts = [];
                own = tt;
                rows_added = AddsRows-refl tools queue store;
                context =
                    stored_before tools queue records snapshot path stored store.workflow_contexts
                      there e;
                every_case = tt;
              })
        ]

  -- A registration of cases whose pairs are in order only adds rows: pending cases of its queue at
  -- version 1, and contexts of its queue; every stored row of every table stays. Afterwards every
  -- registered case has a row in the queue, and a context is stored for the queue whose fingerprint is
  -- that of the registered one, and whose configuration path, where both are given, is the registered
  -- one.
  pub register_workflow-Adds :
      (state : ReviewWorkflowState) (records : List EntityRecord) (snapshot : Snapshot)
      (path : Option String) (now : String) (store : ReviewStore) (ps : List PersistedCase)
      (store' : ReviewStore)
      → AllOf HasOrderedPair state.cases
      → register_workflow tools queue state records snapshot path now store ≡ ok (ps, store')
      → Adds state.cases records snapshot path store store'
  unfolding register_workflow
  register_workflow-Adds state records snapshot path now store ps store' in_order h =
      let (u, h1, e1) = returned-bind (assert_records_cover_cases state.cases records) _ h in
      let (v, h2, e2) = returned-bind (assert_all_registrable state.cases) _ h1 in
      let (w, h3, e3) = returned-bind (assert_queue_accepts_registration queue store) _ h2 in
      let (middle, h4, e4) =
        returned-bind (store_context tools queue records snapshot path now store) _ h3 in
      let first : Adds [] records snapshot path store middle =
        store_context-Adds records snapshot path now store middle e4 in
      let rest : AddsRows tools queue [] middle store' =
        register_cases_in-Adds tools queue state.cases now ps middle store' in_order h4 in
      record {
        contexts = first.contexts;
        own = first.own;
        rows_added =
            subst (λ xs. AddsRows tools queue xs store store') (append-nil first.contexts)
              (AddsRows-trans tools queue first.contexts [] store middle store' first.rows_added
                rest);
        context =
            subst (HoldsContext tools queue records snapshot path)
              (sym (rest.contexts_after ∙ append-nil middle.workflow_contexts)) first.context;
        every_case = register_cases_in-IsStoredIn state.cases now ps middle store' in_order h4;
      }
