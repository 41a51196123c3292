-- ===== src/ReviewApplication/History/Index.antt =====
-- `_resolution_events_by_case` when a pending case is resolved and its event is appended.
use ai_data_quality_platform.Base.{
  String, true, false, none, some, List, [], ◌∷◌, ◌++◌, ok, ◌>>=◌, raise_if-false, returned-bind,
  bind-ok, ok-injective, some-injective, ◌≡◌, ◌≢◌, refl, sym, ap, ◌∙◌, inl, inr, Bool-cases,
  Option-cases, text_cases, raise_if,
}
use ai_data_quality_platform.Base.Assoc.{Dict, lookup, insert, lookup-insert_ne, lookup-insert_self}
use ai_data_quality_platform.HumanReview.Models.{ReviewStatus, status_eq, ReviewCase}
use ai_data_quality_platform.ReviewApplication.Errors.{review_event_integrity}
use ai_data_quality_platform.ReviewApplication.Models.{
  ReviewEventType, status_is_type, ReviewEvent, is_resolution, is_some,
}
use ai_data_quality_platform.ReviewApplication.History.{
  assert_event_agrees_with_case, index_event, index_events,
}

pending-no_type :
    (status : ReviewStatus) (t : ReviewEventType)
    → status_eq status ReviewStatus.pending ≡ true
    → status_is_type status t ≡ false
pending-no_type ReviewStatus.pending t h = refl
pending-no_type ReviewStatus.match t h = cc
pending-no_type ReviewStatus.no_match t h = cc
pending-no_type ReviewStatus.deferred t h = cc

-- No event agrees with a pending case.
pending-disagrees :
    (event : ReviewEvent) (c : ReviewCase)
    → status_eq c.status ReviewStatus.pending ≡ true
    → assert_event_agrees_with_case event c ≢ ok tt
unfolding assert_event_agrees_with_case
pending-disagrees event c pending h =
    let no : status_is_type c.status event.event_type ≡ false =
      pending-no_type c.status event.event_type pending in
    cc (rw no at h)

pub index_events-append :
    (cases : Dict ReviewCase) (indexed : Dict ReviewEvent) (events : List ReviewEvent)
    (event : ReviewEvent) (more : Dict ReviewEvent)
    → index_events cases indexed events ≡ ok more
    → index_events cases indexed (events ++ event ∷ []) ≡ index_event cases more event
unfolding index_events
index_events-append cases indexed [] event more h =
    bind-ok (index_event cases indexed event) ∙ ap (λ w. index_event cases w event) (ok-injective h)
index_events-append cases indexed (e ∷ events) event more h =
    let (next, rest, first) = returned-bind (index_event cases indexed e) _ h in
    rw first (index_events-append cases next events event more rest)

absent_at_first : (case_id : String) → lookup {V = ReviewEvent} case_id [] ≡ none
unfolding lookup
absent_at_first case_id = refl

-- What an event that was indexed went through.
record Indexed (cases : Dict ReviewCase) (indexed : Dict ReviewEvent) (event : ReviewEvent)
    (more : Dict ReviewEvent) : Type 0 where
  case : ReviewCase
  found : lookup event.review_case_id cases ≡ some case
  unseen : is_some (lookup event.review_case_id indexed) ≡ false
  agrees : assert_event_agrees_with_case event case ≡ ok tt
  result : insert event.review_case_id event indexed ≡ more

index_event-Indexed :
    (cases : Dict ReviewCase) (indexed : Dict ReviewEvent) (event : ReviewEvent)
    (more : Dict ReviewEvent)
    → is_resolution event ≡ true
    → index_event cases indexed event ≡ ok more
    → Indexed cases indexed event more
unfolding index_event
index_event-Indexed cases indexed event more resolution h =
    elim (Option-cases (lookup event.review_case_id cases)) [
      | inl missing ↦ cc (rw (resolution, missing) at h)
      | inr (c, found) ↦
          let rest : (raise_if (is_some (lookup event.review_case_id indexed))
                  review_event_integrity
                >>= λ _. assert_event_agrees_with_case event c >>= λ _.
                    ok (insert event.review_case_id event indexed))
              ≡ ok more =
            rw (resolution, found) at h in
          let (u, rest', unseen) = returned-bind _ _ rest in
          let (v, result, agrees) = returned-bind (assert_event_agrees_with_case event c) _ rest' in
          record {
            case = c;
            found = found;
            unseen = raise_if-false _ _ unseen;
            agrees = agrees;
            result = ok-injective result;
          }
    ]

Indexed-index_event :
    (cases : Dict ReviewCase) (indexed : Dict ReviewEvent) (event : ReviewEvent)
    (more : Dict ReviewEvent)
    → is_resolution event ≡ true
    → Indexed cases indexed event more
    → index_event cases indexed event ≡ ok more
unfolding index_event
Indexed-index_event cases indexed event more resolution i =
    rw (resolution, i.found, i.unseen, i.agrees, i.result) refl

module _ (case_id : String) (before after : ReviewCase) (cases : Dict ReviewCase)
    (stored : lookup case_id cases ≡ some before)
    (pending : status_eq before.status ReviewStatus.pending ≡ true) where
  -- An event that was indexed belongs to another case, and is indexed after the change too.
  index_event-keeps :
      (indexed : Dict ReviewEvent) (event : ReviewEvent) (more : Dict ReviewEvent)
      → lookup case_id indexed ≡ none
      → index_event cases indexed event ≡ ok more
      → (index_event (insert case_id after cases) indexed event ≡ ok more)
        × (lookup case_id more ≡ none)
  unfolding index_event
  index_event-keeps indexed event more absent h = elim (Bool-cases (is_resolution event)) [
    | inr other ↦
        let same : indexed ≡ more = ok-injective (rw other at h) in
        (rw other (ap ok same), ap (lookup case_id) (sym same) ∙ absent)
    | inl resolution ↦
        let i : Indexed cases indexed event more =
          index_event-Indexed cases indexed event more resolution h in
        elim (text_cases case_id event.review_case_id) [
          | inl same ↦ absurd (
              pending-disagrees event i.case
                (ap (λ w. status_eq w.status ReviewStatus.pending)
                    (some-injective (sym i.found ∙ ap (λ w. lookup w cases) (sym same) ∙ stored))
                  ∙ pending)
                i.agrees)
          | inr ne ↦ (
            Indexed-index_event (insert case_id after cases) indexed event more resolution (record {
              case = i.case;
              found = lookup-insert_ne case_id event.review_case_id after cases ne ∙ i.found;
              unseen = i.unseen;
              agrees = i.agrees;
              result = i.result;
            }),
            ap (lookup case_id) (sym i.result)
                ∙ lookup-insert_ne event.review_case_id case_id event indexed (λ e. ne (sym e))
                ∙ absent,
          )
        ]
  ]

  pub index_events-keeps :
      (indexed : Dict ReviewEvent) (events : List ReviewEvent) (more : Dict ReviewEvent)
      → lookup case_id indexed ≡ none
      → index_events cases indexed events ≡ ok more
      → (index_events (insert case_id after cases) indexed events ≡ ok more)
        × (lookup case_id more ≡ none)
  unfolding index_events
  index_events-keeps indexed [] more absent h =
      (h, ap (lookup case_id) (sym (ok-injective h)) ∙ absent)
  index_events-keeps indexed (e ∷ events) more absent h =
      let (next, rest, first) = returned-bind (index_event cases indexed e) _ h in
      let (first', absent') = index_event-keeps indexed e next absent first in
      let (rest', absent'') = index_events-keeps next events more absent' rest in
      (rw first' rest', absent'')

  -- The event of the resolution is indexed at the end.
  pub index_events-extended :
      (events : List ReviewEvent) (event : ReviewEvent) (more : Dict ReviewEvent)
      → index_events cases [] events ≡ ok more
      → event.review_case_id ≡ case_id
      → is_resolution event ≡ true
      → assert_event_agrees_with_case event after ≡ ok tt
      → (index_events (insert case_id after cases) [] (events ++ event ∷ [])
          ≡ ok (insert case_id event more))
        × (lookup case_id more ≡ none)
  index_events-extended events event more h same resolution agrees =
      let (kept, absent) = index_events-keeps [] events more (absent_at_first case_id) h in
      (
        index_events-append (insert case_id after cases) [] events event more kept
            ∙ Indexed-index_event (insert case_id after cases) more event
                (insert case_id event more) resolution
                (record {
                  case = after;
                  found =
                      ap (λ w. lookup w (insert case_id after cases)) same
                      ∙ lookup-insert_self case_id after cases;
                  unseen = ap (λ w. is_some (lookup w more)) same ∙ ap is_some absent;
                  agrees = agrees;
                  result = ap (λ w. insert w event more) same;
                }),
        absent,
      )
