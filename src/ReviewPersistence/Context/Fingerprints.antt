-- ===== src/ReviewPersistence/Context/Fingerprints.antt =====
-- A context describes what it describes.
use ai_data_quality_platform.Base.{
  String, Bool, true, Option, none, some, List, [], ◌∷◌, ◌≡◌, refl, arith, eq_refl,
}
use ai_data_quality_platform.EntityResolution.Models.{EntityRecord}
use ai_data_quality_platform.ReviewPersistence.Context.{
  Fingerprint, list_eq, field_eq, record_eq, id_pair_eq, fingerprint_eq,
}

list_eq_refl :
    {A : Type 0} (equal : A → A → Bool) (xs : List A)
    → ((x : A) → equal x x ≡ true)
    → list_eq equal xs xs ≡ true
list_eq_refl equal [] same = refl
list_eq_refl equal (x ∷ xs) same = ground (arith, same x, list_eq_refl equal xs same)

field_eq_refl : (f : String × Option String) → field_eq f f ≡ true
field_eq_refl (name, none) = ground (arith, eq_refl name)
field_eq_refl (name, some value) = ground (arith, eq_refl name, eq_refl value)

record_eq_refl : (r : EntityRecord) → record_eq r r ≡ true
record_eq_refl r = ground (
  arith,
  eq_refl r.record_id,
  eq_refl r.source_name,
  list_eq_refl field_eq r.field_values field_eq_refl,
)

id_pair_eq_refl : (p : String × String) → id_pair_eq p p ≡ true
id_pair_eq_refl (a, b) = ground (arith, eq_refl a, eq_refl b)

pub fingerprint_eq_refl : (f : Fingerprint) → fingerprint_eq f f ≡ true
unfolding fingerprint_eq
fingerprint_eq_refl f = ground (
  arith,
  list_eq_refl record_eq f.entity_records record_eq_refl,
  eq_refl f.source_label,
  list_eq_refl id_pair_eq f.auto_match_pairs id_pair_eq_refl,
)
