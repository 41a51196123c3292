-- ===== src/ReviewPersistence/Context.antt =====
-- review_persistence/sqlite/context_mapper.py: how a stored authorization context is read, and when two
-- contexts are equivalent. A fingerprint is the structure that its canonical JSON text spells.
pub mod Fingerprints
use ai_data_quality_platform.Base.{
  String, Bool, true, false, Option, List, [], ◌∷◌, ◌&&◌, ◌||◌, ◌==◌, if◌then◌else◌, text_lt,
  Result, ok, err, sorted, map,
}
use ai_data_quality_platform.EntityResolution.Models.{EntityRecord}
use ai_data_quality_platform.ReviewApplication.Errors.{ReviewApplicationError, review_persistence}
use ai_data_quality_platform.ReviewApplication.Bundle.{Snapshot}
use ai_data_quality_platform.ReviewApplication.History.{optional_text_eq}

-- `str(item.get("source_name") or "unknown")`
entity_record_from_payload : EntityRecord → EntityRecord
entity_record_from_payload r = record r {
  source_name = if r.source_name == "" then "unknown" else r.source_name;
}

-- `entity_records_from_payload`
unfoldable pub entity_records_from_payload :
    List EntityRecord → Result ReviewApplicationError (List EntityRecord)
unfolding entity_record_from_payload
entity_records_from_payload [] = err review_persistence
entity_records_from_payload (r ∷ records) = ok (map entity_record_from_payload (r ∷ records))

abbrev id_pair_before : String × String → String × String → Bool
id_pair_before p q = text_lt p.0 q.0 || (p.0 == q.0 && text_lt p.1 q.1)

abbrev field_before : String × Option String → String × Option String → Bool
field_before f g = text_lt f.0 g.0

sorted_fields : EntityRecord → EntityRecord
unfolding text_lt
sorted_fields r = record r { field_values = sorted field_before r.field_values }

pub record Fingerprint : Type 0 where
  pub entity_records : List EntityRecord
  pub source_label : String
  pub auto_match_pairs : List (String × String)

-- `normalized_context_fingerprint`: neither the order of the records, nor that of the fields, nor
-- that of the pairs counts.
unfoldable pub normalized_context_fingerprint : List EntityRecord → Snapshot → Fingerprint
unfolding sorted_fields text_lt
normalized_context_fingerprint records snapshot = record {
  entity_records =
      map sorted_fields (sorted (λ (r s : EntityRecord). text_lt r.record_id s.record_id) records);
  source_label = snapshot.source_label;
  auto_match_pairs = sorted id_pair_before snapshot.auto_match_pairs;
}

module _ {ℓ} {A : Type ℓ} (equal : A → A → Bool) where
  -- `==` on two lists.
  abbrev list_eq : List A → List A → Bool
  list_eq [] [] = true
  list_eq (x ∷ xs) (y ∷ ys) = equal x y && list_eq xs ys
  list_eq _ _ = false

abbrev field_eq : String × Option String → String × Option String → Bool
field_eq f g = f.0 == g.0 && optional_text_eq f.1 g.1

abbrev record_eq : EntityRecord → EntityRecord → Bool
record_eq r s =
    r.record_id == s.record_id
    && r.source_name == s.source_name
    && list_eq field_eq r.field_values s.field_values

abbrev id_pair_eq : String × String → String × String → Bool
id_pair_eq p q = p.0 == q.0 && p.1 == q.1

-- `stored.fingerprint == incoming`
unfoldable pub fingerprint_eq : Fingerprint → Fingerprint → Bool
fingerprint_eq f g =
    list_eq record_eq f.entity_records g.entity_records
    && f.source_label == g.source_label
    && list_eq id_pair_eq f.auto_match_pairs g.auto_match_pairs
