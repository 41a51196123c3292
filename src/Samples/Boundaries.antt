-- ===== src/Samples/Boundaries.antt =====
-- The boundary check at a pair of two records without any other edge.
use ai_data_quality_platform.Base.{
  none, [], ◌∷◌, ◌≡◌, ◌≢◌, refl, text_eq, eq_iff, arith, ok, text_lt, sorted_texts,
}
use ai_data_quality_platform.Base.Assoc.{keys}
use ai_data_quality_platform.UnionFind.{
  find, find_halving, singletons, union, component_members, members_of,
}
use ai_data_quality_platform.EntityResolution.Models.{RecordPair, ResolutionResult}
use ai_data_quality_platform.EntityResolution.Severity.{cluster_conflict}
use ai_data_quality_platform.HumanReview.Models.{ReviewWorkflowState, resolved_match_pairs}
use ai_data_quality_platform.HumanReview.Constraints.{assert_human_match_allowed}
use ai_data_quality_platform.HumanReview.Proposal.{EndsListed}
use ai_data_quality_platform.HumanReview.Authorization.{
  assert_human_match_authorization_boundary, auto_pairs,
}
use ai_data_quality_platform.HumanReview.Authorization.Projection.{AutoEndsListed, HumanEndsListed}
use ai_data_quality_platform.HumanReview.Authorization.Boundary.{
  IsAuthorized, boundary-IsAuthorized,
}
use ai_data_quality_platform.Samples.Data.{plain_tools, config, records, case_of}

abbrev pub unresolved : ReviewWorkflowState
unresolved = record {
  cases = case_of "RC-1" "a" "b" ∷ [];
  audit_trail = [];
  next_resolution_sequence = 1;
}

abbrev pub no_edges : ResolutionResult
no_edges = record { decisions = []; review_queue = [] }

abbrev pair_ab : RecordPair
pair_ab = record { record_a_id = "a"; record_b_id = "b" }

pub passes :
    assert_human_match_authorization_boundary plain_tools pair_ab unresolved no_edges records config
      none none
    ≡ ok tt
unfolding assert_human_match_authorization_boundary assert_human_match_allowed members_of find
    singletons sorted_texts text_lt union component_members find_halving cluster_conflict
passes = refl

autos : AutoEndsListed pair_ab unresolved no_edges records
unfolding auto_pairs
autos e h = cc

humans : HumanEndsListed pair_ab unresolved no_edges records
unfolding resolved_match_pairs
humans e h = cc

ends : EndsListed (keys records) pair_ab
unfolding keys
ends = (refl, refl)

apart : pair_ab.record_a_id ≢ pair_ab.record_b_id
apart e = ground (arith, eq_iff "a" "b")

boundary-IsAuthorized_example : IsAuthorized plain_tools config records unresolved no_edges pair_ab
boundary-IsAuthorized_example =
    boundary-IsAuthorized plain_tools pair_ab unresolved no_edges records config autos humans ends
      apart passes
