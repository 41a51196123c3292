-- ===== src/HumanReview/Integration/Exclusion.antt =====
-- `review_excluded_record_ids`: the records whose review is open are left out, and no others.
use ai_data_quality_platform.Base.{
  String, Bool, true, false, Option, List, [], ◌∷◌, ◌++◌, ◌&&◌, ◌||◌, ◌==◌, ◌≡◌, ◌≢◌, ◌⊎◌, ◌↔◌,
  refl, sym, ap, ◌∙◌, inl, inr, arith, contains, text_eq, any, add, contains-add, Bool-cases,
  if_true, if_false, eq_iff,
}
use ai_data_quality_platform.Base.AllOf.{AllOf, AnyOf}
use ai_data_quality_platform.EntityResolution.Models.{
  RecordPair, ReviewItem, ResolutionResult, pair_beq, pair_beq_iff,
}
use ai_data_quality_platform.HumanReview.Models.{ReviewStatus, ReviewCase, ReviewWorkflowState}
use ai_data_quality_platform.HumanReview.Integration.{
  status_of_pair, is_open, cases_of, exclude_open, review_excluded_record_ids,
}

-- No case of the list is about the pair.
abbrev pub HasNoCase : RecordPair → List ReviewCase → Type 0
HasNoCase pair cases = AllOf (λ c. c.pair ≢ pair) cases

-- The last case about the pair in the list is PENDING or DEFERRED.
pub record IsLastOpen (pair : RecordPair) (cases : List ReviewCase) : Type 0 where
  pub before : List ReviewCase
  pub last : ReviewCase
  pub after : List ReviewCase
  pub split : cases ≡ before ++ last ∷ after
  pub about : last.pair ≡ pair
  pub none_later : HasNoCase pair after
  pub is_waiting : (last.status ≡ ReviewStatus.pending) ⊎ (last.status ≡ ReviewStatus.deferred)

-- The item names the record, and its pair has no case or its last case is PENDING or DEFERRED.
pub record KeepsOut (cases : List ReviewCase) (x : String) (item : ReviewItem) : Type 0 where
  pub names : (item.pair.record_a_id ≡ x) ⊎ (item.pair.record_b_id ≡ x)
  pub waits : HasNoCase item.pair cases ⊎ IsLastOpen item.pair cases

open_cases :
    (s : ReviewStatus) → is_open s ≡ true → (s ≡ ReviewStatus.pending) ⊎ (s ≡ ReviewStatus.deferred)
open_cases ReviewStatus.pending h = inl refl
open_cases ReviewStatus.deferred h = inr refl
open_cases ReviewStatus.match h = cc
open_cases ReviewStatus.no_match h = cc

module _ (pair : RecordPair) where
  later :
      (c : ReviewCase) (cases : List ReviewCase)
      → IsLastOpen pair cases
      → IsLastOpen pair (c ∷ cases)
  later c cases l = record {
    before = c ∷ l.before;
    last = l.last;
    after = l.after;
    split = ap (λ w. c ∷ w) l.split;
    about = l.about;
    none_later = l.none_later;
    is_waiting = l.is_waiting;
  }

  -- An open status comes from the start, where there is no case, or from the last case.
  status-IsLastOpen :
      (cases : List ReviewCase) (status : ReviewStatus)
      → is_open (status_of_pair pair cases status) ≡ true
      → (HasNoCase pair cases × (is_open status ≡ true)) ⊎ IsLastOpen pair cases
  unfolding status_of_pair
  status-IsLastOpen [] status h = inl (tt, h)
  status-IsLastOpen (c ∷ cases) status h = elim (Bool-cases (pair_beq c.pair pair)) [
    | inl about ↦ elim (status-IsLastOpen cases c.status (rw about at h)) [
      | inl (no_case, is_waiting) ↦ inr (record {
        before = [];
        last = c;
        after = cases;
        split = refl;
        about = (pair_beq_iff c.pair pair).0 about;
        none_later = no_case;
        is_waiting = open_cases c.status is_waiting;
      })
      | inr l ↦ inr (later c cases l)
    ]
    | inr other ↦ elim (status-IsLastOpen cases status (rw other at h)) [
      | inl (no_case, is_waiting) ↦
          inl ((λ e. cc ((pair_beq_iff c.pair pair).1 e), no_case), is_waiting)
      | inr l ↦ inr (later c cases l)
    ]
  ]

  differs : (c : ReviewCase) → c.pair ≢ pair → pair_beq c.pair pair ≡ false
  differs c ne = elim (Bool-cases (pair_beq c.pair pair)) [
    | inl same ↦ absurd (ne ((pair_beq_iff c.pair pair).0 same))
    | inr other ↦ other
  ]

  HasNoCase-status :
      (cases : List ReviewCase) (status : ReviewStatus)
      → HasNoCase pair cases
      → status_of_pair pair cases status ≡ status
  unfolding status_of_pair
  HasNoCase-status [] status none_here = refl
  HasNoCase-status (c ∷ cases) status (ne, none_here) =
      rw (differs c ne) (HasNoCase-status cases status none_here)

  last-status :
      (before after : List ReviewCase) (c : ReviewCase) (status : ReviewStatus)
      → c.pair ≡ pair
      → HasNoCase pair after
      → status_of_pair pair (before ++ c ∷ after) status ≡ c.status
  unfolding status_of_pair
  last-status [] after c status about none_later =
      rw ((pair_beq_iff c.pair pair).1 about, status_of_pair)
        (HasNoCase-status after c.status none_later)
  last-status (b ∷ before) after c status about none_later =
      last-status before after c _ about none_later

  open_where :
      (s : ReviewStatus)
      → (s ≡ ReviewStatus.pending) ⊎ (s ≡ ReviewStatus.deferred)
      → is_open s ≡ true
  open_where s (inl e) = ap is_open e
  open_where s (inr e) = ap is_open e

  IsLastOpen-status :
      (cases : List ReviewCase) (status : ReviewStatus)
      → IsLastOpen pair cases
      → is_open (status_of_pair pair cases status) ≡ true
  IsLastOpen-status cases status l =
      ap (λ w. is_open (status_of_pair pair w status)) l.split
      ∙ ap is_open (last-status l.before l.after l.last status l.about l.none_later)
      ∙ open_where l.last.status l.is_waiting

-- The test that the loop makes of an item.
keeps_out : List ReviewCase → String → ReviewItem → Bool
keeps_out cases x item =
    is_open (status_of_pair item.pair cases ReviewStatus.pending)
    && (item.pair.record_a_id == x || item.pair.record_b_id == x)

keeps_out-KeepsOut :
    (cases : List ReviewCase) (x : String) (item : ReviewItem)
    → keeps_out cases x item ≡ true
    → KeepsOut cases x item
unfolding keeps_out
keeps_out-KeepsOut cases x item h = record {
  names = elim (Bool-cases (item.pair.record_a_id == x)) [
    | inl left ↦ inl ((eq_iff item.pair.record_a_id x).0 left)
    | inr other ↦ inr ((eq_iff item.pair.record_b_id x).0 (ground arith))
  ];
  waits = elim (status-IsLastOpen item.pair cases ReviewStatus.pending (ground arith)) [
    | inl (no_case, started) ↦ inl no_case
    | inr l ↦ inr l
  ];
}

named :
    (x : String) (item : ReviewItem)
    → (item.pair.record_a_id ≡ x) ⊎ (item.pair.record_b_id ≡ x)
    → (item.pair.record_a_id == x || item.pair.record_b_id == x) ≡ true
named x item (inl e) = ground (arith, eq_iff item.pair.record_a_id x)
named x item (inr e) = ground (arith, eq_iff item.pair.record_b_id x)

still_open :
    (cases : List ReviewCase) (item : ReviewItem)
    → HasNoCase item.pair cases ⊎ IsLastOpen item.pair cases
    → is_open (status_of_pair item.pair cases ReviewStatus.pending) ≡ true
still_open cases item (inl no_case) =
    ap is_open (HasNoCase-status item.pair cases ReviewStatus.pending no_case)
still_open cases item (inr l) = IsLastOpen-status item.pair cases ReviewStatus.pending l

KeepsOut-keeps_out :
    (cases : List ReviewCase) (x : String) (item : ReviewItem)
    → KeepsOut cases x item
    → keeps_out cases x item ≡ true
unfolding keeps_out
KeepsOut-keeps_out cases x item k =
    let a = still_open cases item k.waits in let b = named x item k.names in ground arith

module _ (cases : List ReviewCase) (x : String) where
  any-AnyOf :
      (queue : List ReviewItem)
      → any (keeps_out cases x) queue ≡ true
      → AnyOf (KeepsOut cases x) queue
  any-AnyOf [] h = cc
  any-AnyOf (item ∷ queue) h = elim (Bool-cases (keeps_out cases x item)) [
    | inl out ↦ inl (keeps_out-KeepsOut cases x item out)
    | inr other ↦ inr (any-AnyOf queue (rw other at h))
  ]

  AnyOf-any :
      (queue : List ReviewItem)
      → AnyOf (KeepsOut cases x) queue
      → any (keeps_out cases x) queue ≡ true
  AnyOf-any [] h = absurd h
  AnyOf-any (item ∷ queue) (inl k) = let here = KeepsOut-keeps_out cases x item k in ground arith
  AnyOf-any (item ∷ queue) (inr rest) = let there = AnyOf-any queue rest in ground arith

contains-exclude_open :
    (cases : List ReviewCase) (x : String) (queue : List ReviewItem) (excluded : List String)
    → contains x (exclude_open cases queue excluded)
      ≡ (contains x excluded || any (keeps_out cases x) queue)
unfolding exclude_open keeps_out
contains-exclude_open cases x [] excluded = ground arith
contains-exclude_open cases x (item ∷ queue) excluded =
    let both : List String = add item.pair.record_b_id (add item.pair.record_a_id excluded) in
    let open_now : Bool = is_open (status_of_pair item.pair cases ReviewStatus.pending) in
    let in_both : contains x both
        ≡ ((contains x excluded || item.pair.record_a_id == x) || item.pair.record_b_id == x) =
      contains-add x item.pair.record_b_id (add item.pair.record_a_id excluded)
      ∙ ap (λ b. b || item.pair.record_b_id == x) (contains-add x item.pair.record_a_id excluded) in
    elim (Bool-cases open_now) [
      | inl is_open_now ↦
          ap (λ w. contains x (exclude_open cases queue w))
            (if_true open_now both excluded is_open_now)
          ∙ contains-exclude_open cases x queue both
          ∙ ground (arith, in_both, is_open_now)
      | inr closed ↦
          ap (λ w. contains x (exclude_open cases queue w)) (if_false open_now both excluded closed)
          ∙ contains-exclude_open cases x queue excluded
          ∙ ground (arith, closed)
    ]

-- A record is left out exactly where some item of the review queue names it whose pair has no case,
-- or whose pair's last case is PENDING or DEFERRED.
pub contains-review_excluded_record_ids :
    (resolution : ResolutionResult) (outcome : Option ReviewWorkflowState) (x : String)
    → (contains x (review_excluded_record_ids resolution outcome) ≡ true)
      ↔ AnyOf (KeepsOut (cases_of outcome) x) resolution.review_queue
unfolding review_excluded_record_ids
contains-review_excluded_record_ids resolution outcome x =
    let found = contains-exclude_open (cases_of outcome) x resolution.review_queue [] in
    (
      λ h. any-AnyOf (cases_of outcome) x resolution.review_queue (sym found ∙ h),
      λ k. found ∙ AnyOf-any (cases_of outcome) x resolution.review_queue k,
    )
