-- ===== src/Identity/SessionService/Creation.antt =====
-- What a successful `create_session` leaves in the table.
use ai_data_quality_platform.Base.{
  ℕ, String, true, false, not, some, List, [], ◌∷◌, ◌++◌, ◌||◌, ◌==◌, ◌≡◌, refl, sym, ap, ◌∙◌, inl,
  inr, arith, ok, subst, Bool-cases, returned-bind, ok-injective, or_raise, eq_refl,
}
use ai_data_quality_platform.Identity.Clock.{utc_now}
use ai_data_quality_platform.Identity.Sessions.{
  IdentityTools, SessionPolicy, Session, User, check_session, hash_session_token,
  identity_not_found,
}
use ai_data_quality_platform.Identity.Store.{
  IdentityStore, find_by_hash, get_user, insert_session, clashes, passes_checks,
}
use ai_data_quality_platform.Identity.Store.Rows.{find_by_hash-here, find_by_hash-there}
use ai_data_quality_platform.Identity.SessionService.{
  create_session, require_active_user, new_session,
}
use ai_data_quality_platform.Identity.SessionService.Checks.{
  IsFound, IsWellFormed, check_session-IsWellFormed,
}
use ai_data_quality_platform.Identity.SessionService.Lifecycle.{inserted}

find-fresh :
    (new : Session) (rows : List Session)
    → clashes new rows ≡ false
    → find_by_hash new.token_hash (rows ++ new ∷ []) ≡ some new
unfolding clashes
find-fresh new [] h = find_by_hash-here new.token_hash new [] (eq_refl new.token_hash)
find-fresh new (r ∷ rows) h =
    find_by_hash-there new.token_hash r (rows ++ new ∷ []) (ground arith)
    ∙ find-fresh new rows (ground arith)

-- What a successful creation leaves.
pub record Created (tools : IdentityTools) (policy : SessionPolicy) (store : IdentityStore)
    (user_id session_id raw_token : String) (reading : ℕ) (s : Session) (after : IdentityStore)
    : Type 0 where
  pub owner : User
  pub active : require_active_user store user_id identity_not_found ≡ ok owner
  pub found : IsFound tools after raw_token s
  pub checks : passes_checks s ≡ true
  pub built :
      s
      ≡ new_session tools policy session_id owner.user_id
          (tools.sha256_hex raw_token)
          (utc_now reading)
  pub same_users : after.users ≡ store.users

digest-of :
    (tools : IdentityTools) (raw_token token_hash : String)
    → hash_session_token tools raw_token ≡ ok token_hash
    → token_hash ≡ tools.sha256_hex raw_token
unfolding hash_session_token
digest-of tools raw_token token_hash h = elim (Bool-cases (raw_token == "")) [
  | inl blank ↦ cc (rw blank at h)
  | inr text ↦ sym (ok-injective (rw text at h))
]

new_session-hash :
    (tools : IdentityTools) (policy : SessionPolicy) (session_id user_id token_hash : String)
    (now : ℕ)
    → (new_session tools policy session_id user_id token_hash now).token_hash ≡ token_hash
unfolding new_session
new_session-hash tools policy session_id user_id token_hash now = refl

insert_session-users :
    (store : IdentityStore) (new s : Session) (after : IdentityStore)
    → insert_session store new ≡ ok (s, after)
    → after.users ≡ store.users
unfolding insert_session
insert_session-users store new s after h =
    let (u, rest, known) =
      returned-bind (or_raise (get_user store new.user_id) identity_not_found) _ h in
    elim (Bool-cases (clashes new store.sessions || not (passes_checks new))) [
      | inl refused ↦ cc (rw refused at rest)
      | inr free ↦ sym (ap (λ w. w.1.users) (ok-injective (rw free at rest)))
    ]

pub create_session-Created :
    (tools : IdentityTools) (policy : SessionPolicy) (store : IdentityStore)
    (user_id session_id raw_token : String) (reading : ℕ) (s : Session) (after : IdentityStore)
    → create_session tools policy store user_id session_id raw_token reading ≡ ok (s, after)
    → Created tools policy store user_id session_id raw_token reading s after
unfolding create_session
create_session-Created tools policy store user_id session_id raw_token reading s after done =
    let (u, rest1, active) =
      returned-bind (require_active_user store user_id identity_not_found) _ done in
    let (token_hash, rest2, hashes) = returned-bind (hash_session_token tools raw_token) _ rest1 in
    let is_digest : token_hash ≡ tools.sha256_hex raw_token =
      digest-of tools raw_token token_hash hashes in
    let new : Session =
      new_session tools policy session_id u.user_id token_hash (utc_now reading) in
    let (r, rest3, checked) = returned-bind (check_session tools new) _ rest2 in
    let (formed, same_r) = check_session-IsWellFormed tools new r checked in
    let (fresh, checks, same, rows) = inserted store r s after rest3 in
    let new_s : new ≡ s = same_r ∙ same in
    let hash_s : s.token_hash ≡ tools.sha256_hex raw_token =
      ap (λ w. w.token_hash) (sym new_s)
      ∙ new_session-hash tools policy session_id u.user_id token_hash (utc_now reading)
      ∙ is_digest in
    record {
      owner = u;
      active = active;
      found = record {
        hashes = hashes ∙ ap ok is_digest;
        row =
            ap (find_by_hash (tools.sha256_hex raw_token)) rows
            ∙ ap (λ w. find_by_hash w (store.sessions ++ r ∷ []))
                (sym (ap (λ w. w.token_hash) same ∙ hash_s))
            ∙ find-fresh r store.sessions fresh
            ∙ ap some same;
        formed = subst (IsWellFormed tools) new_s formed;
      };
      checks = subst (λ w. passes_checks w ≡ true) same checks;
      built =
          sym new_s
          ∙ ap (λ w. new_session tools policy session_id u.user_id w (utc_now reading)) is_digest;
      same_users = insert_session-users store r s after rest3;
    }
