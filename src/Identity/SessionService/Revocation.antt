-- ===== src/Identity/SessionService/Revocation.antt =====
-- A revocation lasts.
use ai_data_quality_platform.Base.{
  ℕ, String, true, some, ◌≡◌, refl, sym, ap, ◌∙◌, inl, inr, arith, ok, err, subst, Bool-cases,
  Option-cases, returned-bind, ok-injective, eq_refl, if_true, if_false,
}
use ai_data_quality_platform.Identity.Clock.{utc_now, format_utc_timestamp}
use ai_data_quality_platform.Identity.Sessions.{
  IdentityError, IdentityTools, SessionPolicy, Session, is_revoked, session_revoked,
}
use ai_data_quality_platform.Identity.Store.{
  IdentityStore, find_by_hash, revoke_rows, revoke_applies, revoked,
}
use ai_data_quality_platform.Identity.Store.Rows.{find_by_hash-update_rows, updated}
use ai_data_quality_platform.Identity.SessionService.{
  resolve_session, revoke_session, lookup_session, assert_usable, from_row,
}
use ai_data_quality_platform.Identity.SessionService.Checks.{
  IsFound, IsWellFormed, lookup_session-IsFound, IsFound-lookup_session,
}
use ai_data_quality_platform.Identity.SessionService.Lifecycle.{Runs, Runs-RowContinues}

-- The row after the statement of a revocation.
module _ (at : ℕ) (s : Session) where
  abbrev ended : Session
  ended = updated (revoke_applies s.session_id) (revoked at) s

  ended-is_revoked : is_revoked ended ≡ true
  unfolding revoke_applies is_revoked
  ended-is_revoked = elim (Option-cases s.revoked_at_utc) [
    | inl live ↦ ap is_revoked (
        if_true (revoke_applies s.session_id s) (revoked at s) s
          (ground (arith, eq_refl s.session_id, live)))
    | inr (first, gone) ↦
        ap is_revoked
          (if_false (revoke_applies s.session_id s) (revoked at s) s (ground (arith, gone)))
        ∙ rw gone refl
  ]

  ended-IsWellFormed : (tools : IdentityTools) → IsWellFormed tools s → IsWellFormed tools ended
  ended-IsWellFormed tools w = elim (Bool-cases (revoke_applies s.session_id s)) [
    | inl applies ↦
        subst (IsWellFormed tools)
          (sym (if_true (revoke_applies s.session_id s) (revoked at s) s applies))
          (record {
            session_id_opaque = w.session_id_opaque;
            user_id_opaque = w.user_id_opaque;
            digest = w.digest;
            capped = w.capped;
          })
    | inr stays ↦
        subst (IsWellFormed tools)
          (sym (if_false (revoke_applies s.session_id s) (revoked at s) s stays)) w
  ]

assert_usable-revoked :
    (s : Session) (now : ℕ) → is_revoked s ≡ true → assert_usable s now ≡ err session_revoked
unfolding assert_usable
assert_usable-revoked s now h = rw h refl

module _ (tools : IdentityTools) (policy : SessionPolicy) where
  resolve-refused :
      (store : IdentityStore) (raw_token : String) (s : Session) (reading : ℕ) (e : IdentityError)
      → IsFound tools store raw_token s
      → assert_usable s (utc_now reading) ≡ err e
      → resolve_session tools store raw_token reading ≡ err e
  unfolding resolve_session
  resolve-refused store raw_token s reading e f refused =
      rw (IsFound-lookup_session tools store raw_token s f) (rw refused refl)

  -- After a revocation, whatever the service does next, the token is refused as revoked at every
  -- reading of the clock.
  pub revoke_session_final :
      (store after last : IdentityStore) (raw_token : String) (at : ℕ) (s : Session)
      → revoke_session tools store raw_token at ≡ ok (s, after)
      → Runs tools policy after last
      → (reading : ℕ) → resolve_session tools last raw_token reading ≡ err session_revoked
  unfolding revoke_session revoke_rows
  revoke_session_final store after last raw_token at s done runs reading =
      let (r, rest, looked) = returned-bind (lookup_session tools store raw_token) _ done in
      let f : IsFound tools store raw_token r =
        lookup_session-IsFound tools store raw_token r looked in
      let (t, rest2, read) = returned-bind (from_row tools _) _ rest in
      let stamp : ℕ = format_utc_timestamp (utc_now at) in
      let row : find_by_hash (tools.sha256_hex raw_token) after.sessions ≡ some (ended stamp r) =
        ap (λ w. find_by_hash (tools.sha256_hex raw_token) w.1.sessions) (sym (ok-injective rest2))
        ∙ find_by_hash-update_rows (revoke_applies r.session_id) (revoked stamp) (λ w. refl)
            (tools.sha256_hex raw_token) store.sessions r f.row in
      let (w, found, c) =
        Runs-RowContinues tools policy (tools.sha256_hex raw_token) (ended stamp r) after last runs
          row in
      let same : w ≡ ended stamp r = c.final (ended-is_revoked stamp r) in
      resolve-refused last raw_token (ended stamp r) reading session_revoked
        (record {
          hashes = f.hashes;
          row = found ∙ ap some same;
          formed = ended-IsWellFormed stamp r tools f.formed;
        })
        (assert_usable-revoked (ended stamp r) (utc_now reading) (ended-is_revoked stamp r))
