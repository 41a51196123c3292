-- ===== src/Identity/SessionService/Lifecycle.antt =====
-- The session table as a state machine: a step is a call of the service that succeeds, and what
-- becomes of one row along any sequence of steps.
use ai_data_quality_platform.Base.{
  ℕ, String, true, false, not, Option, none, some, List, [], ◌∷◌, ◌++◌, ◌||◌, ◌==◌, ◌≡◌, refl, sym,
  ap, ◌∙◌, inl, inr, arith, ok, subst, Bool-cases, any, returned-bind, ok-injective, or_raise,
}
use ai_data_quality_platform.Identity.Clock.{utc_now}
use ai_data_quality_platform.Identity.Sessions.{
  IdentityTools, SessionPolicy, Session, check_session, hash_session_token, identity_not_found,
}
use ai_data_quality_platform.Identity.Store.{
  IdentityStore, find_by_hash, insert_session, touch_rows, touch_applies, touched, revoke_rows,
  revoke_applies, revoked, clashes, passes_checks, get_user,
}
use ai_data_quality_platform.Identity.Store.Rows.{
  find_by_hash-here, find_by_hash-there, find_by_hash-update_rows, updated,
}
use ai_data_quality_platform.Identity.SessionService.{
  create_session, touch_session, revoke_session, lookup_session, assert_usable, after_touch,
  from_row, require_active_user, new_session,
}
use ai_data_quality_platform.Identity.SessionService.Continuation.{
  Continues, Continues-refl, Continues-trans, touched-Continues, revoked-Continues,
}

module _ (tools : IdentityTools) (policy : SessionPolicy) where
  -- One successful call of the service.
  pub data Step (store store' : IdentityStore) : Type 0 where
    creates :
        (user_id session_id raw_token : String) (reading : ℕ) (s : Session)
        → create_session tools policy store user_id session_id raw_token reading ≡ ok (s, store')
        → Step store store'
    touches :
        (raw_token : String) (reading : ℕ) (s : Session)
        → touch_session tools policy store raw_token reading ≡ ok (s, store')
        → Step store store'
    revokes :
        (raw_token : String) (reading : ℕ) (s : Session)
        → revoke_session tools store raw_token reading ≡ ok (s, store')
        → Step store store'

  -- Any number of them, in any order and at any readings of the clock.
  pub data Runs : IdentityStore → IdentityStore → Type 0 where
    stop : {store store' : IdentityStore} → store ≡ store' → Runs store store'
    next : {store later last : IdentityStore} → Step store later → Runs later last → Runs store last

-- The row of a token in a later store.
abbrev pub RowContinues : IdentityStore → String → Session → Type 0
RowContinues store h s = (t : Session) × (find_by_hash h store.sessions ≡ some t) × Continues s t

pub inserted :
    (store : IdentityStore) (new s : Session) (store' : IdentityStore)
    → insert_session store new ≡ ok (s, store')
    → (clashes new store.sessions ≡ false)
      × (passes_checks new ≡ true)
      × (new ≡ s)
      × (store'.sessions ≡ store.sessions ++ new ∷ [])
unfolding insert_session
inserted store new s store' h =
    let (u, rest, known) =
      returned-bind (or_raise (get_user store new.user_id) identity_not_found) _ h in
    elim (Bool-cases (clashes new store.sessions || not (passes_checks new))) [
      | inl refused ↦ cc (rw refused at rest)
      | inr free ↦
          let fresh : clashes new store.sessions ≡ false = ground arith in
          let checks : passes_checks new ≡ true = ground arith in
          let done : (new, record { users = store.users; sessions = store.sessions ++ new ∷ [] })
              ≡ (s, store') =
            ok-injective (rw free at rest) in
          (fresh, checks, ap (λ w. w.0) done, sym (ap (λ w. w.1.sessions) done))
    ]

find-append :
    (h : String) (rows more : List Session) (s : Session)
    → find_by_hash h rows ≡ some s
    → find_by_hash h (rows ++ more) ≡ some s
unfolding find_by_hash
find-append h [] more s e = cc
find-append h (r ∷ rows) more s e = elim (Bool-cases (r.token_hash == h)) [
  | inl here ↦ find_by_hash-here h r (rows ++ more) here ∙ sym (find_by_hash-here h r rows here) ∙ e
  | inr there ↦
      find_by_hash-there h r (rows ++ more) there
      ∙ find-append h rows more s (sym (find_by_hash-there h r rows there) ∙ e)
]

RowContinues-touch :
    (store : IdentityStore) (session_id h : String) (now idle : ℕ) (s : Session)
    → find_by_hash h store.sessions ≡ some s
    → RowContinues (touch_rows store session_id now idle).1 h s
unfolding touch_rows
RowContinues-touch store session_id h now idle s e =
    elim (Bool-cases (any (touch_applies session_id now) store.sessions)) [
      | inl some_row ↦ rw some_row (
        updated (touch_applies session_id now) (touched now idle) s,
        find_by_hash-update_rows (touch_applies session_id now) (touched now idle) (λ w. refl) h
            store.sessions s e,
        touched-Continues session_id now idle s,
      )
      | inr no_row ↦ rw no_row (s, e, Continues-refl s)
    ]

RowContinues-revoke :
    (store : IdentityStore) (session_id h : String) (at : ℕ) (s : Session)
    → find_by_hash h store.sessions ≡ some s
    → RowContinues (revoke_rows store session_id at).1 h s
unfolding revoke_rows
RowContinues-revoke store session_id h at s e = (
  updated (revoke_applies session_id) (revoked at) s,
  find_by_hash-update_rows (revoke_applies session_id) (revoked at) (λ w. refl) h store.sessions s
      e,
  revoked-Continues session_id at s,
)

after_touch-store :
    (tools : IdentityTools) (raw_token : String) (now : ℕ) (answer : Option Session × IdentityStore)
    (s : Session) (store : IdentityStore)
    → after_touch tools raw_token now answer ≡ ok (s, store)
    → store ≡ answer.1
unfolding after_touch
after_touch-store tools raw_token now (some row, found) s store h =
    let (r, done, checked) = returned-bind (check_session tools row) _ h in
    sym (ap (λ w. w.1) (ok-injective done))
after_touch-store tools raw_token now (none, found) s store h =
    let (r, rest, looked) = returned-bind (lookup_session tools found raw_token) _ h in
    let (u, done, usable) = returned-bind (assert_usable r now) _ rest in
    sym (ap (λ w. w.1) (ok-injective done))

module _ (tools : IdentityTools) (policy : SessionPolicy) (h : String) (s : Session) where
  Step-RowContinues :
      (store store' : IdentityStore)
      → Step tools policy store store'
      → find_by_hash h store.sessions ≡ some s
      → RowContinues store' h s
  unfolding create_session touch_session revoke_session
  Step-RowContinues store store' (creates user_id session_id raw_token reading new done) e =
      let (u, rest1, active) =
        returned-bind (require_active_user store user_id identity_not_found) _ done in
      let (token_hash, rest2, hashes) =
        returned-bind (hash_session_token tools raw_token) _ rest1 in
      let (r, rest3, checked) =
        returned-bind
          (check_session tools
            (new_session tools policy session_id u.user_id token_hash (utc_now reading)))
          _ rest2 in
      let (fresh, checks, same, rows) = inserted store r new store' rest3 in
      (s, ap (find_by_hash h) rows ∙ find-append h store.sessions (r ∷ []) s e, Continues-refl s)
  Step-RowContinues store store' (touches raw_token reading row done) e =
      let (r, rest1, looked) = returned-bind (lookup_session tools store raw_token) _ done in
      let (u, rest2, usable) = returned-bind (assert_usable r (utc_now reading)) _ rest1 in
      subst (λ w. RowContinues w h s)
        (sym (after_touch-store tools raw_token (utc_now reading) _ row store' rest2))
        (RowContinues-touch store r.session_id h _ _ s e)
  Step-RowContinues store store' (revokes raw_token reading row done) e =
      let (r, rest1, looked) = returned-bind (lookup_session tools store raw_token) _ done in
      let (t, rest2, read) = returned-bind (from_row tools _) _ rest1 in
      subst (λ w. RowContinues w h s) (ap (λ w. w.1) (ok-injective rest2))
        (RowContinues-revoke store r.session_id h _ s e)

RowContinues-then :
    (h : String) (s : Session) (store : IdentityStore)
    → (t : Session) → Continues s t
    → RowContinues store h t
    → RowContinues store h s
RowContinues-then h s store t c (w, found, d) = (w, found, Continues-trans s t w c d)

-- Whatever is done, the row of a token stays in the table and continues.
pub Runs-RowContinues :
    (tools : IdentityTools) (policy : SessionPolicy) (h : String) (s : Session)
    (store last : IdentityStore)
    → Runs tools policy store last
    → find_by_hash h store.sessions ≡ some s
    → RowContinues last h s
Runs-RowContinues tools policy h s store last (stop same) e =
    (s, ap (λ w. find_by_hash h w.sessions) (sym same) ∙ e, Continues-refl s)
Runs-RowContinues tools policy h s store last (next {later = later} step runs) e =
    let (t, found, c) = Step-RowContinues tools policy h s store later step e in
    RowContinues-then h s last t c (Runs-RowContinues tools policy h t later last runs found)
