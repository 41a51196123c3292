-- ===== src/ReviewApplication/Bundle/Distinct.antt =====
-- The stored cases of a bundle have distinct ids, so that their dictionary is the list of them.
use ai_data_quality_platform.Base.{
  String, false, List, [], ◌∷◌, ◌++◌, contains, text_eq, ok, raise_if, raise_if-false,
  returned-bind, ◌≡◌, refl, ap, ◌∙◌, arith, eq_iff, map, contains-append,
}
use ai_data_quality_platform.Base.Assoc.{Dict, lookup, keys, AreNew, dict_of-distinct}
use ai_data_quality_platform.HumanReview.Models.{ReviewCase, find_case}
use ai_data_quality_platform.HumanReview.Workflow.Invariant.{AreDistinct}
use ai_data_quality_platform.ReviewApplication.Errors.{persisted_case_integrity}
use ai_data_quality_platform.ReviewApplication.Models.{PersistedCase}
use ai_data_quality_platform.ReviewApplication.History.{cases_by_id}
use ai_data_quality_platform.ReviewApplication.Bundle.{case_ids, assert_unique_cases, cases_in}

-- None of the ids was seen before.
AreUnseen : List String → List String → Type 0
AreUnseen seen [] = Unit
AreUnseen seen (x ∷ xs) = (contains x seen ≡ false) × AreUnseen seen xs

unseen_later :
    (y : String) (seen xs : List String)
    → AreUnseen (y ∷ seen) xs
    → (contains y xs ≡ false) × AreUnseen seen xs
unfolding AreUnseen
unseen_later y seen [] h = (refl, tt)
unseen_later y seen (x ∷ xs) (h, rest) =
    let (absent, unseen) = unseen_later y seen xs rest in
    (ground (arith, eq_iff x y, eq_iff y x), (ground arith, unseen))

assert_unique_cases-AreUnseen :
    (seen : List String) (ps : List PersistedCase)
    → assert_unique_cases seen ps ≡ ok tt
    → AreDistinct (case_ids ps) × AreUnseen seen (case_ids ps)
unfolding assert_unique_cases AreUnseen
assert_unique_cases-AreUnseen seen [] h = (tt, tt)
assert_unique_cases-AreUnseen seen (p ∷ ps) h =
    let id : String = p.case.review_case_id in
    let (u, rest, first) =
      returned-bind (raise_if (contains id seen) persisted_case_integrity)
        (λ _. assert_unique_cases (id ∷ seen) ps) h in
    let (distinct, unseen) = assert_unique_cases-AreUnseen (id ∷ seen) ps rest in
    let (absent, unseen') = unseen_later id seen (case_ids ps) unseen in
    ((absent, distinct), (raise_if-false _ _ first, unseen'))

-- A bundle that passed the check has each id once.
pub assert_unique_cases-AreDistinct :
    (ps : List PersistedCase) → assert_unique_cases [] ps ≡ ok tt → AreDistinct (case_ids ps)
assert_unique_cases-AreDistinct ps h = (assert_unique_cases-AreUnseen [] ps h).0

abbrev pub pairs_of : List PersistedCase → Dict ReviewCase
pairs_of ps = map (λ p. (p.case.review_case_id, p.case)) ps

pub keys-pairs_of : (ps : List PersistedCase) → keys (pairs_of ps) ≡ case_ids ps
unfolding keys
keys-pairs_of [] = refl
keys-pairs_of (p ∷ ps) = ap (λ w. p.case.review_case_id ∷ w) (keys-pairs_of ps)

pub lookup-pairs_of :
    (k : String) (ps : List PersistedCase) → lookup k (pairs_of ps) ≡ find_case k (cases_in ps)
unfolding lookup find_case
lookup-pairs_of k [] = refl
lookup-pairs_of k (p ∷ ps) = ground (arith, lookup-pairs_of k ps)

unseen_also :
    (y : String) (seen xs : List String)
    → contains y xs ≡ false
    → AreUnseen seen xs
    → AreUnseen (seen ++ y ∷ []) xs
unfolding AreUnseen
unseen_also y seen [] h unseen = tt
unseen_also y seen (x ∷ xs) h (hx, unseen) = (
  contains-append x seen (y ∷ []) ∙ ground (arith, eq_iff x y, eq_iff y x),
  unseen_also y seen xs (ground arith) unseen,
)

pairs_of-AreNew :
    (known : List String) (ps : List PersistedCase)
    → AreDistinct (case_ids ps)
    → AreUnseen known (case_ids ps)
    → AreNew known (pairs_of ps)
unfolding AreUnseen
pairs_of-AreNew known [] distinct unseen = tt
pairs_of-AreNew known (p ∷ ps) (absent, distinct) (h, unseen) = (
  h,
  pairs_of-AreNew (known ++ p.case.review_case_id ∷ []) ps distinct
      (unseen_also p.case.review_case_id known (case_ids ps) absent unseen),
)

all_unseen : (xs : List String) → AreUnseen [] xs
unfolding AreUnseen
all_unseen [] = tt
all_unseen (x ∷ xs) = (refl, all_unseen xs)

-- The dictionary of distinct cases lists them.
pub cases_by_id-pairs_of :
    (ps : List PersistedCase) → AreDistinct (case_ids ps) → cases_by_id ps ≡ pairs_of ps
unfolding cases_by_id
cases_by_id-pairs_of ps distinct =
    dict_of-distinct (pairs_of ps) (pairs_of-AreNew [] ps distinct (all_unseen (case_ids ps)))
