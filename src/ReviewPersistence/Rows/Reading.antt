-- ===== src/ReviewPersistence/Rows/Reading.antt =====
-- What is read from a row, and that a resolved case is read from its row as it was written.
use ai_data_quality_platform.Base.{
  ◌+◌, String, true, false, not, ◌&&◌, ◌==◌, ltb, ok, raise_if, raise_if-false, returned-bind,
  ok-injective, ◌≡◌, refl, sym, ap, ◌∙◌, arith,
}
use ai_data_quality_platform.EntityResolution.Models.{RecordPair, ordered}
use ai_data_quality_platform.HumanReview.Models.{ReviewStatus, status_eq, ReviewCase}
use ai_data_quality_platform.ReviewApplication.Errors.{persisted_case_integrity}
use ai_data_quality_platform.ReviewApplication.Models.{PersistedCase, require_text, persisted_case}
use ai_data_quality_platform.ReviewPersistence.Rows.{
  StorageTools, CaseRow, resolution_from_payload, review_case_from_payload,
  assert_row_agrees_with_payload, case_payload_json, row_to_persisted_case,
}
use ai_data_quality_platform.ReviewPersistence.Tables.{cas_row}

-- A row as the supported writers leave it: the pair in order, and the score rounded.
pub record IsStored (tools : StorageTools) (row : CaseRow) : Type 0 where
  pub in_order :
      ordered row.case_payload.pair.record_a_id row.case_payload.pair.record_b_id
      ≡ row.case_payload.pair
  pub rounded : tools.round_score row.case_payload.machine_score ≡ row.case_payload.machine_score

-- What a case keeps when it is resolved.
pub record Succeeds (before after : ReviewCase) : Type 0 where
  pub same_id : after.review_case_id ≡ before.review_case_id
  pub same_pair : after.pair ≡ before.pair
  pub same_ids : after.record_ids ≡ before.record_ids
  pub same_score : after.machine_score ≡ before.machine_score
  pub own_resolution : resolution_from_payload after ≡ after.resolution

-- What a row that was read looks like.
pub record Reads (tools : StorageTools) (row : CaseRow) (p : PersistedCase) : Type 0 where
  pub agrees : assert_row_agrees_with_payload row row.case_payload ≡ ok tt
  pub positive : ltb row.version 1 ≡ false
  pub created : require_text tools.strip persisted_case_integrity row.created_at_utc ≡ ok tt
  pub updated : require_text tools.strip persisted_case_integrity row.updated_at_utc ≡ ok tt
  pub named :
      require_text tools.strip persisted_case_integrity row.case_payload.review_case_id ≡ ok tt
  pub value : p ≡ record {
    case = review_case_from_payload row.case_payload;
    version = row.version;
    created_at_utc = row.created_at_utc;
    updated_at_utc = row.updated_at_utc;
  }

status_eq_refl : (s : ReviewStatus) → status_eq s s ≡ true
status_eq_refl ReviewStatus.pending = refl
status_eq_refl ReviewStatus.match = refl
status_eq_refl ReviewStatus.no_match = refl
status_eq_refl ReviewStatus.deferred = refl

module _ (tools : StorageTools) where
  pub row_to_persisted_case-Reads :
      (row : CaseRow) (p : PersistedCase)
      → row_to_persisted_case tools row ≡ ok p
      → Reads tools row p
  unfolding row_to_persisted_case persisted_case review_case_from_payload
  row_to_persisted_case-Reads row p h =
      let (u, h1, agrees) =
        returned-bind (assert_row_agrees_with_payload row row.case_payload) _ h in
      let (v, h2, positive) =
        returned-bind (raise_if (ltb row.version 1) persisted_case_integrity) _ h1 in
      let (w, h3, created) =
        returned-bind (require_text tools.strip persisted_case_integrity row.created_at_utc) _ h2 in
      let (x, h4, updated) =
        returned-bind (require_text tools.strip persisted_case_integrity row.updated_at_utc) _ h3 in
      let (y, h5, named) =
        returned-bind
          (require_text tools.strip persisted_case_integrity row.case_payload.review_case_id) _
          h4 in
      record {
        agrees = agrees;
        positive = raise_if-false _ _ positive;
        created = created;
        updated = updated;
        named = named;
        value = sym (ok-injective h5);
      }

  pub Reads-row_to_persisted_case :
      (row : CaseRow) (p : PersistedCase)
      → Reads tools row p
      → row_to_persisted_case tools row ≡ ok p
  unfolding row_to_persisted_case persisted_case review_case_from_payload
  Reads-row_to_persisted_case row p r =
      rw (r.agrees, r.positive, r.created, r.updated, r.named) (ap ok (sym r.value))

-- The row and the stored case after a resolution.
abbrev pub updated_row : StorageTools → ReviewCase → String → CaseRow → CaseRow
updated_row tools after now row = cas_row after.status (case_payload_json tools after) now row

abbrev pub updated_case : ReviewCase → String → PersistedCase → PersistedCase
updated_case after now p = record p { case = after; version = p.version + 1; updated_at_utc = now }

module _ (tools : StorageTools) (row : CaseRow) (after : ReviewCase) (now : String)
    (stored : IsStored tools row)
    (succeeds : Succeeds (review_case_from_payload row.case_payload) after) where
  after-pair : after.pair ≡ row.case_payload.pair
  unfolding review_case_from_payload
  after-pair = succeeds.same_pair ∙ stored.in_order

  after-id : after.review_case_id ≡ row.case_payload.review_case_id
  unfolding review_case_from_payload
  after-id = succeeds.same_id

  after-rounded : tools.round_score after.machine_score ≡ after.machine_score
  unfolding review_case_from_payload
  after-rounded = rw succeeds.same_score stored.rounded

  after-ordered : ordered after.pair.record_a_id after.pair.record_b_id ≡ after.pair
  after-ordered = rw after-pair stored.in_order

  after-ids : (after.pair.record_a_id, after.pair.record_b_id) ≡ after.record_ids
  unfolding review_case_from_payload
  after-ids =
      ap (λ (w : RecordPair). (w.record_a_id, w.record_b_id)) after-pair ∙ sym succeeds.same_ids

  -- The resolved case is read from its payload as it was written.
  review_case_from_payload-after : review_case_from_payload (case_payload_json tools after) ≡ after
  unfolding review_case_from_payload case_payload_json resolution_from_payload
  review_case_from_payload-after =
      ap
        (λ w. record after {
          pair = w;
          record_ids = (after.pair.record_a_id, after.pair.record_b_id);
          machine_score = tools.round_score after.machine_score;
          resolution = resolution_from_payload after;
        })
        after-ordered
      ∙ ap
          (λ w. record after {
            record_ids = w;
            machine_score = tools.round_score after.machine_score;
            resolution = resolution_from_payload after;
          })
          after-ids
      ∙ ap (λ w. record after { machine_score = w; resolution = resolution_from_payload after })
          after-rounded
      ∙ ap (λ w. record after { resolution = w }) succeeds.own_resolution

  updated-agrees :
      assert_row_agrees_with_payload row row.case_payload ≡ ok tt
      → assert_row_agrees_with_payload
          (updated_row tools after now row)
          (updated_row tools after now row).case_payload
        ≡ ok tt
  unfolding assert_row_agrees_with_payload case_payload_json cas_row
  updated-agrees h =
      let agreed : not (
            row.review_case_id == row.case_payload.review_case_id
            && row.record_a_id == row.case_payload.pair.record_a_id
            && row.record_b_id == row.case_payload.pair.record_b_id
            && status_eq row.status row.case_payload.status)
          ≡ false =
        raise_if-false _ _ h in
      rw (after-id, after-pair, status_eq_refl after.status) (ground arith)

  -- A row that was read is read after the update as the resolved case at the next version.
  pub row_to_persisted_case-updated :
      (p : PersistedCase)
      → require_text tools.strip persisted_case_integrity now ≡ ok tt
      → row_to_persisted_case tools row ≡ ok p
      → row_to_persisted_case tools (updated_row tools after now row)
        ≡ ok (updated_case after now p)
  unfolding cas_row case_payload_json
  row_to_persisted_case-updated p timely h =
      let r : Reads tools row p = row_to_persisted_case-Reads tools row p h in
      Reads-row_to_persisted_case tools (updated_row tools after now row) (updated_case after now p)
        (record {
          agrees = updated-agrees r.agrees;
          positive = ground arith;
          created = r.created;
          updated = timely;
          named = ap (require_text tools.strip persisted_case_integrity) after-id ∙ r.named;
          value = rw review_case_from_payload-after (ap (updated_case after now) r.value);
        })

  pub updated_row-IsStored : IsStored tools (updated_row tools after now row)
  unfolding cas_row case_payload_json
  updated_row-IsStored = record {
    in_order = after-ordered;
    rounded = rw after-rounded after-rounded;
  }
