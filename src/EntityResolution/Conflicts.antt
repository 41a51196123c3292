-- ===== src/EntityResolution/Conflicts.antt =====
-- entity_resolution/similarity.py, `collect_pair_conflicts` of entity_resolution/evidence.py,
-- `has_severe_conflict` of entity_resolution/decisions.py and
-- `_cluster_has_severe_internal_conflict` of entity_resolution/clustering.py.
use ai_data_quality_platform.Base.{
  String, Bool, false, not, Option, none, some, List, [], ◌∷◌, ◌++◌, ◌&&◌, ◌==◌, if◌then◌else◌, ltb,
  text_eq, sorted, text_lt,
}
use Prim.Native.String.{count}
use ai_data_quality_platform.Base.Float.{Float, float_lt}
use ai_data_quality_platform.Base.Assoc.{Dict, lookup}
use ai_data_quality_platform.EntityResolution.Models.{
  email_conflict, phone_conflict, company_conflict, location_conflict, conflict_value, EntityRecord,
  get_field, PairConflict, EntityResolutionConfig,
}

-- What Python's text library computes by tables: `str.strip`, `unicodedata.normalize("NFC", _)`,
-- `" ".join(_.split())`, `str.casefold`, the removal of all but digits, and the ratio of difflib's
-- `SequenceMatcher`.
pub record TextTools : Type 0 where
  pub strip : String → String
  pub nfc : String → String
  pub collapse_spaces : String → String
  pub casefold : String → String
  pub digits_only : String → String
  pub ratio : String → String → Float

abbrev pub zero_point_zero : Float
zero_point_zero = record { negative = false; magnitude = 0 }

abbrev pub one_point_zero : Float
one_point_zero = record { negative = false; magnitude = 0x3ff0000000000000 }

-- 0.55, 0.20 and 0.15
abbrev severe_penalty : Float
severe_penalty = record { negative = false; magnitude = 0x3fe199999999999a }

abbrev company_penalty : Float
company_penalty = record { negative = false; magnitude = 0x3fc999999999999a }

abbrev location_penalty : Float
location_penalty = record { negative = false; magnitude = 0x3fc3333333333333 }

-- `d.get(key, default)`
unfoldable pub get_or : Dict Float → String → Float → Float
unfolding lookup
get_or d key default = elim (lookup key d) [ none ↦ default | some value ↦ value ]

-- `left and right and left != right` on optional texts: None and "" are false.
unfoldable pub both_and_differ : Option String → Option String → Bool
both_and_differ none right = false
both_and_differ (some left) none = false
both_and_differ (some left) (some right) =
    not (left == "") && not (right == "") && not (left == right)

module _ (tools : TextTools) where
  unfoldable pub normalize_text : Option String → Option String
  normalize_text none = none
  normalize_text (some value) =
      let text = tools.strip value in
      if text == "" then none else some (tools.casefold (tools.collapse_spaces (tools.nfc text)))

  unfoldable pub normalize_email : Option String → Option String
  unfolding normalize_text
  normalize_email value = elim (normalize_text value) [ none ↦ none | some text ↦ some text ]

  unfoldable pub normalize_phone : Option String → Option String
  normalize_phone none = none
  normalize_phone (some value) =
      let digits = tools.digits_only value in if ltb (count digits) 8 then none else some digits

  unfoldable pub similarity_of : Option String → Option String → Float
  similarity_of none right = zero_point_zero
  similarity_of (some left) none = zero_point_zero
  similarity_of (some left) (some right) =
      if left == right then one_point_zero else tools.ratio left right

  unfoldable pub fuzzy_similarity : Option String → Option String → Float
  unfolding normalize_text similarity_of
  fuzzy_similarity left right = similarity_of (normalize_text left) (normalize_text right)

  module _ (config : EntityResolutionConfig) where
    unfoldable pub email_conflicts : EntityRecord → EntityRecord → List PairConflict
    unfolding normalize_email both_and_differ get_or get_field
    email_conflicts left right =
        if both_and_differ (normalize_email (get_field left "email"))
          (normalize_email (get_field right "email"))
        then record {
          conflict_type = email_conflict;
          field_name = "email";
          severity = "severe";
          penalty = get_or config.conflict_penalties "email_conflict" severe_penalty;
          description = "Both records have different non-empty email addresses.";
        }
          ∷ []
        else []

    unfoldable pub phone_conflicts : EntityRecord → EntityRecord → List PairConflict
    unfolding normalize_phone both_and_differ get_or get_field
    phone_conflicts left right =
        if both_and_differ (normalize_phone (get_field left "phone"))
          (normalize_phone (get_field right "phone"))
        then record {
          conflict_type = phone_conflict;
          field_name = "phone";
          severity = "severe";
          penalty = get_or config.conflict_penalties "phone_conflict" severe_penalty;
          description = "Both records have different non-empty phone numbers.";
        }
          ∷ []
        else []

    unfoldable pub company_conflicts : EntityRecord → EntityRecord → List PairConflict
    unfolding normalize_text fuzzy_similarity both_and_differ get_or get_field float_lt
    company_conflicts left right =
        if both_and_differ (normalize_text (get_field left "company"))
            (normalize_text (get_field right "company"))
          && float_lt (fuzzy_similarity (get_field left "company") (get_field right "company"))
              config.company_conflict_threshold
        then record {
          conflict_type = company_conflict;
          field_name = "company";
          severity = "moderate";
          penalty = get_or config.conflict_penalties "company_conflict" company_penalty;
          description = "Company names differ beyond similarity tolerance.";
        }
          ∷ []
        else []

    unfoldable pub location_conflicts : EntityRecord → EntityRecord → List PairConflict
    unfolding normalize_text both_and_differ get_or get_field
    location_conflicts left right =
        if both_and_differ (normalize_text (get_field left "city"))
          (normalize_text (get_field right "city"))
        then record {
          conflict_type = location_conflict;
          field_name = "city";
          severity = "moderate";
          penalty = get_or config.conflict_penalties "location_conflict" location_penalty;
          description = "City values differ.";
        }
          ∷ []
        else []

    -- `collect_pair_conflicts`, sorted by the texts of the types.
    unfoldable pub collect_pair_conflicts : EntityRecord → EntityRecord → List PairConflict
    unfolding email_conflicts phone_conflicts company_conflicts location_conflicts conflict_value
    collect_pair_conflicts left right =
        sorted (λ c d. text_lt (conflict_value c.conflict_type) (conflict_value d.conflict_type))
          (email_conflicts left right
            ++ (phone_conflicts left right
                ++ (company_conflicts left right ++ location_conflicts left right)))
