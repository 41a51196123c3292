-- ===== src/Identity/SessionService/Lifetime.antt =====
-- How long a token can be used: from its creation, and to its absolute bound.
use ai_data_quality_platform.Base.{
  ℕ, ◌+◌, ◌<◌, String, true, false, Option, none, some, List, [], ◌∷◌, ◌==◌, ◌≡◌, refl, sym, ap,
  ◌∙◌, inl, inr, arith, ok, ◌>>=◌, subst, Bool-cases, returned-bind, ok-injective, some-injective,
  or_raise, eq_iff,
}
use ai_data_quality_platform.Identity.Clock.{utc_now, format_utc_timestamp, parse_utc_timestamp}
use ai_data_quality_platform.Identity.Sessions.{
  IdentityError, IdentityTools, SessionPolicy, Session, User, UserStatus, is_revoked,
  is_absolutely_expired, is_idle_expired, identity_not_found, session_not_found,
}
use ai_data_quality_platform.Identity.Store.{IdentityStore, find_user, get_user, passes_checks}
use ai_data_quality_platform.Identity.SessionService.{
  create_session, resolve_session, lookup_session, assert_usable, require_active_user,
  require_status, new_session,
}
use ai_data_quality_platform.Identity.SessionService.Checks.{
  IsFound, lookup_session-IsFound, IsFound-lookup_session, IsUsable, assert_usable-IsUsable,
  IsUsable-assert_usable,
}
use ai_data_quality_platform.Identity.SessionService.Lifecycle.{Runs, Runs-RowContinues}
use ai_data_quality_platform.Identity.SessionService.Creation.{Created, create_session-Created}

-- The bound that no activity moves.
lifetime :
    (tools : IdentityTools) (policy : SessionPolicy) (session_id user_id token_hash : String)
    (made reading : ℕ) (t : Session)
    → t.absolute_expires_at_utc
      ≡ (new_session tools policy session_id user_id token_hash
          (utc_now made)).absolute_expires_at_utc
    → is_absolutely_expired t (utc_now reading) ≡ false
    → reading < made + policy.absolute_timeout
unfolding new_session is_absolutely_expired utc_now format_utc_timestamp parse_utc_timestamp
lifetime tools policy session_id user_id token_hash made reading t same h = ground arith

-- A token never resolves once the absolute timeout has passed since its session was created,
-- whatever the service did in between.
pub resolve_session-lifetime :
    (tools : IdentityTools) (policy : SessionPolicy) (store after last : IdentityStore)
    (user_id session_id raw_token : String) (made reading : ℕ) (s t : Session) (u : User)
    → create_session tools policy store user_id session_id raw_token made ≡ ok (s, after)
    → Runs tools policy after last
    → resolve_session tools last raw_token reading ≡ ok (t, u)
    → reading < made + policy.absolute_timeout
unfolding resolve_session
resolve_session-lifetime tools policy store after last user_id session_id raw_token made reading s t
      u creation runs resolution =
    let c : Created tools policy store user_id session_id raw_token made s after =
      create_session-Created tools policy store user_id session_id raw_token made s after
        creation in
    let (w, found, continued) =
      Runs-RowContinues tools policy (tools.sha256_hex raw_token) s after last runs c.found.row in
    let (r, rest, looked) = returned-bind (lookup_session tools last raw_token) _ resolution in
    let f : IsFound tools last raw_token r = lookup_session-IsFound tools last raw_token r looked in
    let (_, rest2, usable) = returned-bind (assert_usable r (utc_now reading)) _ rest in
    let same : r ≡ w = some-injective (sym f.row ∙ found) in
    lifetime tools policy session_id c.owner.user_id (tools.sha256_hex raw_token) made reading r
      (ap (λ v. v.absolute_expires_at_utc) same
        ∙ continued.same_absolute
        ∙ ap (λ v. v.absolute_expires_at_utc) c.built)
      (assert_usable-IsUsable r (utc_now reading) usable).not_absolutely

fresh-IsUsable :
    (tools : IdentityTools) (policy : SessionPolicy) (session_id user_id token_hash : String)
    (made now : ℕ)
    → is_idle_expired (new_session tools policy session_id user_id token_hash made) now ≡ false
    → passes_checks (new_session tools policy session_id user_id token_hash made) ≡ true
    → IsUsable (new_session tools policy session_id user_id token_hash made) now
unfolding new_session is_revoked is_absolutely_expired is_idle_expired passes_checks
    parse_utc_timestamp
fresh-IsUsable tools policy session_id user_id token_hash made now h checks = record {
  not_revoked = refl;
  not_absolutely = ground arith;
  not_idle = h;
}

status_same_at : (v u : User) (status : UserStatus) → require_status v status ≡ ok u → v ≡ u
unfolding require_status
status_same_at v u UserStatus.active h = ok-injective h
status_same_at v u UserStatus.disabled h = cc

status_same : (v u : User) → require_status v v.status ≡ ok u → v ≡ u
unfolding require_status
status_same v u h = status_same_at v u v.status h

status_active_at :
    (v u : User) (status : UserStatus) → require_status v status ≡ ok u → status ≡ UserStatus.active
unfolding require_status
status_active_at v u UserStatus.active h = refl
status_active_at v u UserStatus.disabled h = cc

or_raise-some :
    {A : Type 0} (e : IdentityError) (o : Option A) {a : A} → or_raise o e ≡ ok a → o ≡ some a
or_raise-some e none h = cc
or_raise-some e (some a) h = ap some (ok-injective h)

require_active_user-same :
    (store after : IdentityStore) (user_id : String) (e : IdentityError)
    → after.users ≡ store.users
    → require_active_user after user_id e ≡ require_active_user store user_id e
unfolding require_active_user get_user
require_active_user-same store after user_id e same =
    ap (λ w. or_raise (find_user user_id w) e >>= λ x. require_status x x.status) same

new_session-owner :
    (tools : IdentityTools) (policy : SessionPolicy) (store : IdentityStore)
    (session_id user_id token_hash : String) (now : ℕ)
    → require_active_user store
        (new_session tools policy session_id user_id token_hash now).user_id
        session_not_found
      ≡ require_active_user store user_id session_not_found
unfolding new_session
new_session-owner tools policy store session_id user_id token_hash now = refl

find_user-id :
    (user_id : String) (users : List User) (u : User)
    → find_user user_id users ≡ some u
    → u.user_id ≡ user_id
unfolding find_user
find_user-id user_id [] u h = cc
find_user-id user_id (v ∷ users) u h = elim (Bool-cases (v.user_id == user_id)) [
  | inl same ↦
      let here : v ≡ u = some-injective (rw same at h) in
      ap (λ w. w.user_id) (sym here) ∙ (eq_iff v.user_id user_id).0 same
  | inr other ↦ find_user-id user_id users u (rw other at h)
]

active-owner :
    (store : IdentityStore) (user_id : String) (e e' : IdentityError) (u : User)
    → require_active_user store user_id e ≡ ok u
    → (require_active_user store u.user_id e' ≡ ok u)
      × (u.user_id ≡ user_id)
      × (u.status ≡ UserStatus.active)
unfolding require_active_user get_user
active-owner store user_id e e' u h =
    let (v, status, found) = returned-bind (or_raise (find_user user_id store.users) e) _ h in
    let same : v ≡ u = status_same v u status in
    let row : find_user user_id store.users ≡ some v =
      or_raise-some e (find_user user_id store.users) found in
    let ids : u.user_id ≡ user_id =
      ap (λ w. w.user_id) (sym same) ∙ find_user-id user_id store.users v row in
    (
      ap (λ w. or_raise (find_user w store.users) e' >>= λ x. require_status x x.status) ids
          ∙ ap (λ w. or_raise w e' >>= λ x. require_status x x.status) row
          ∙ status,
      ids,
      ap (λ w. w.status) (sym same) ∙ status_active_at v u v.status status,
    )

-- A token that was just created resolves to its session and to the user it was created for, whose
-- status is ACTIVE, until the idle expiry.
pub resolve_session-create_session :
    (tools : IdentityTools) (policy : SessionPolicy) (store after : IdentityStore)
    (user_id session_id raw_token : String) (made reading : ℕ) (s : Session)
    → create_session tools policy store user_id session_id raw_token made ≡ ok (s, after)
    → is_idle_expired s (utc_now reading) ≡ false
    → (u : User) × (resolve_session tools after raw_token reading ≡ ok (s, u))
      × (u.user_id ≡ user_id)
      × (u.status ≡ UserStatus.active)
unfolding resolve_session
resolve_session-create_session tools policy store after user_id session_id raw_token made reading s
      creation idle =
    let c : Created tools policy store user_id session_id raw_token made s after =
      create_session-Created tools policy store user_id session_id raw_token made s after
        creation in
    let digest : String = tools.sha256_hex raw_token in
    let usable : IsUsable s (utc_now reading) =
      subst (λ w. IsUsable w (utc_now reading)) (sym c.built)
        (fresh-IsUsable tools policy session_id c.owner.user_id digest (utc_now made)
          (utc_now reading) (subst (λ w. is_idle_expired w (utc_now reading) ≡ false) c.built idle)
          (subst (λ w. passes_checks w ≡ true) c.built c.checks)) in
    let (again, ids, is_active) =
      active-owner store user_id identity_not_found session_not_found c.owner c.active in
    let owner : require_active_user after s.user_id session_not_found ≡ ok c.owner =
      require_active_user-same store after s.user_id session_not_found c.same_users
      ∙ ap (λ w. require_active_user store w.user_id session_not_found) c.built
      ∙ new_session-owner tools policy store session_id c.owner.user_id digest (utc_now made)
      ∙ again in
    (
      c.owner,
      rw (IsFound-lookup_session tools after raw_token s c.found)
          (rw (IsUsable-assert_usable s (utc_now reading) usable) (rw owner refl)),
      ids,
      is_active,
    )
