-- ===== src/EntityResolution/Models.antt =====
-- entity_resolution/models.py and the fields of entity_resolution/config.py that the decisions read.
use ai_data_quality_platform.Base.{
  String, Bool, true, Option, none, some, List, ◌&&◌, ◌||◌, ◌==◌, ◌≡◌, ◌↔◌, arith, text_lt,
  if◌then◌else◌, Eq, eq_iff, not, text_lt_total, text_lt_asymm,
}
use ai_data_quality_platform.Base.Assoc.{Dict, lookup}
use ai_data_quality_platform.Base.Float.{Float}

pub data MatchDecisionType : Type 0 where
  auto_match review no_match : MatchDecisionType

unfoldable pub match_decision_value : MatchDecisionType → String
match_decision_value auto_match = "AUTO_MATCH"
match_decision_value review = "REVIEW"
match_decision_value no_match = "NO_MATCH"

pub data BlockingReasonType : Type 0 where
  email_exact_block phone_exact_block phone_last7_block name_surname_block : BlockingReasonType
  name_city_block surname_company_block company_city_block : BlockingReasonType

pub data EvidenceType : Type 0 where
  email_exact phone_exact first_name_exact last_name_exact company_exact city_exact : EvidenceType
  district_exact address_exact first_name_similarity last_name_similarity : EvidenceType
  company_similarity address_similarity : EvidenceType

-- The members of a StrEnum compare as their texts.
unfoldable pub evidence_value : EvidenceType → String
evidence_value email_exact = "EMAIL_EXACT"
evidence_value phone_exact = "PHONE_EXACT"
evidence_value first_name_exact = "FIRST_NAME_EXACT"
evidence_value last_name_exact = "LAST_NAME_EXACT"
evidence_value company_exact = "COMPANY_EXACT"
evidence_value city_exact = "CITY_EXACT"
evidence_value district_exact = "DISTRICT_EXACT"
evidence_value address_exact = "ADDRESS_EXACT"
evidence_value first_name_similarity = "FIRST_NAME_SIMILARITY"
evidence_value last_name_similarity = "LAST_NAME_SIMILARITY"
evidence_value company_similarity = "COMPANY_SIMILARITY"
evidence_value address_similarity = "ADDRESS_SIMILARITY"

pub data ConflictType : Type 0 where
  email_conflict phone_conflict company_conflict location_conflict : ConflictType

unfoldable pub conflict_value : ConflictType → String
conflict_value email_conflict = "EMAIL_CONFLICT"
conflict_value phone_conflict = "PHONE_CONFLICT"
conflict_value company_conflict = "COMPANY_CONFLICT"
conflict_value location_conflict = "LOCATION_CONFLICT"

pub record EntityRecord : Type 0 where
  pub record_id : String
  pub source_name : String
  pub field_values : Dict (Option String)

-- `EntityRecord.get`: a missing field and a stored None are one answer.
unfoldable pub get_field : EntityRecord → String → Option String
unfolding lookup
get_field r name = elim (lookup name r.field_values) [ none ↦ none | some value ↦ value ]

pub record RecordPair : Type 0 where
  pub record_a_id : String
  pub record_b_id : String

abbrev pub pair_beq : RecordPair → RecordPair → Bool
pair_beq p q = p.record_a_id == q.record_a_id && p.record_b_id == q.record_b_id

pub pair_beq_iff : (p q : RecordPair) → (pair_beq p q ≡ true) ↔ (p ≡ q)
pair_beq_iff p q =
    ground (arith, eq_iff p.record_a_id q.record_a_id, eq_iff p.record_b_id q.record_b_id)

instance abbrev pub pair_eq : Eq RecordPair
pair_eq = record { equal = pair_beq; equal_iff = pair_beq_iff }

-- `RecordPair.ordered`: `left_id <= right_id` is that `right_id` does not come first.
unfoldable pub ordered : String → String → RecordPair
ordered left_id right_id =
    if not (text_lt right_id left_id)
    then record { record_a_id = left_id; record_b_id = right_id }
    else record { record_a_id = right_id; record_b_id = left_id }

-- The order of `key=lambda pair: (pair.record_a_id, pair.record_b_id)`.
unfoldable pub pair_before : RecordPair → RecordPair → Bool
pair_before p q =
    text_lt p.record_a_id q.record_a_id
    || (p.record_a_id == q.record_a_id && text_lt p.record_b_id q.record_b_id)

pub record CandidateReason : Type 0 where
  pub reason_type : BlockingReasonType
  pub blocking_key : String
  pub description : String

pub record PairEvidence : Type 0 where
  pub evidence_type : EvidenceType
  pub field_name : String
  pub value : Float
  pub weight : Float
  pub contribution : Float
  pub strength : String
  pub description : String

pub record PairConflict : Type 0 where
  pub conflict_type : ConflictType
  pub field_name : String
  pub severity : String
  pub penalty : Float
  pub description : String

pub record PairComparison : Type 0 where
  pub pair : RecordPair
  pub candidate_reasons : List CandidateReason
  pub evidence : List PairEvidence
  pub conflicts : List PairConflict
  pub score : Float

pub record MatchDecision : Type 0 where
  pub pair : RecordPair
  pub comparison : PairComparison
  pub decision : MatchDecisionType
  pub reason : String

pub record ReviewItem : Type 0 where
  pub pair : RecordPair
  pub score : Float
  pub decision : MatchDecisionType
  pub evidence : List PairEvidence
  pub conflicts : List PairConflict
  pub candidate_reasons : List CandidateReason
  pub reason : String

pub record EntityCluster : Type 0 where
  pub cluster_id : String
  pub member_record_ids : List String
  pub auto_match_edges : List RecordPair
  pub has_internal_conflict : Bool
  pub conflict_description : Option String

-- The parts of `ResolutionResult` that the review reads.
pub record ResolutionResult : Type 0 where
  pub decisions : List MatchDecision
  pub review_queue : List ReviewItem

pub record EntityResolutionConfig : Type 0 where
  pub conflict_penalties : Dict Float
  pub company_conflict_threshold : Float
  pub auto_match_threshold : Float
  pub review_threshold : Float
  pub require_strong_identity : Bool
  pub strong_evidence_types : List String
  pub forbid_severe_conflicts : Bool
  pub severe_conflict_types : List String
  pub weak_only_forces_review : Bool
  pub weak_evidence_types : List String
  pub cluster_conflict_guard : Bool

-- A pair made by `ordered` does not depend on the order of its arguments.
pub ordered_comm : (x y : String) → ordered x y ≡ ordered y x
unfolding ordered
ordered_comm x y = ground (arith, text_lt_asymm x y, text_lt_total x y, eq_iff x y)
