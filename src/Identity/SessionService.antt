-- ===== src/Identity/SessionService.antt =====
-- identity/session_service.py: the class `SessionService`. A call is given the clock's reading, and
-- `create_session` the id and the token that the system draws; it returns what it answers and the
-- store after it. Rows that are read back pass `Session.__post_init__` again.
pub mod Checks
pub mod Continuation
pub mod Lifecycle
pub mod Revocation
pub mod Creation
pub mod Lifetime
use ai_data_quality_platform.Base.{
  ℕ, ◌+◌, String, Bool, true, false, Option, none, some, min, if◌then◌else◌, Result, ok, err, ◌>>=◌,
  ◌>>◌, raise_if, or_raise,
}
use ai_data_quality_platform.Identity.Clock.{utc_now, format_utc_timestamp, parse_utc_timestamp}
use ai_data_quality_platform.Identity.Sessions.{
  IdentityError, identity_validation, identity_not_found, inactive_user, session_not_found,
  session_revoked, session_expired, IdentityTools, UserStatus, User, SessionPolicy, Session,
  check_session, hash_session_token, is_revoked, is_absolutely_expired, is_idle_expired,
}
use ai_data_quality_platform.Identity.Store.{
  IdentityStore, get_user, find_by_hash, insert_session, touch_rows, revoke_rows,
}

-- `_assert_usable`
unfoldable pub assert_usable : Session → ℕ → Result IdentityError (Unit {0})
unfolding is_revoked is_absolutely_expired is_idle_expired
assert_usable s now =
    raise_if (is_revoked s) session_revoked
    >> (raise_if (is_absolutely_expired s now) (session_expired "absolute")
        >> raise_if (is_idle_expired s now) (session_expired "idle"))

-- A token that cannot be hashed is a token that no session has.
abbrev pub as_not_found : Result IdentityError String → Result IdentityError String
as_not_found (ok token_hash) = ok token_hash
as_not_found (err e) = err session_not_found

unfoldable pub require_status : User → UserStatus → Result IdentityError User
require_status u UserStatus.active = ok u
require_status u UserStatus.disabled = err inactive_user

-- `_require_active_user`; `missing` is the error for a user who is not stored.
unfoldable pub require_active_user :
    IdentityStore → String → IdentityError → Result IdentityError User
unfolding require_status get_user
require_active_user store user_id missing =
    or_raise (get_user store user_id) missing >>= λ u. require_status u u.status

module _ (tools : IdentityTools) where
  -- `_session_from_row` on what a SELECT found.
  unfoldable pub from_row : Option Session → Result IdentityError Session
  unfolding check_session
  from_row row = or_raise row session_not_found >>= λ s. check_session tools s

  -- `_lookup`
  unfoldable pub lookup_session : IdentityStore → String → Result IdentityError Session
  unfolding hash_session_token from_row find_by_hash
  lookup_session store raw_token =
      as_not_found (hash_session_token tools raw_token) >>= λ token_hash.
      from_row (find_by_hash token_hash store.sessions)

  -- `ResolvedSession`; the call writes nothing.
  unfoldable pub resolve_session :
      IdentityStore → String → ℕ → Result IdentityError (Session × User)
  unfolding lookup_session assert_usable require_active_user utc_now
  resolve_session store raw_token reading = lookup_session store raw_token >>= λ s.
      assert_usable s (utc_now reading) >>= λ _.
      require_active_user store s.user_id session_not_found >>= λ u. ok (s, u)

  -- What follows the conditional update: a row, or a reading of why there is none.
  unfoldable pub after_touch :
      String → ℕ → Option Session × IdentityStore → Result IdentityError (Session × IdentityStore)
  unfolding lookup_session assert_usable check_session
  after_touch raw_token now (some s, store) = check_session tools s >>= λ row. ok (row, store)
  after_touch raw_token now (none, store) =
      lookup_session store raw_token >>= λ s. assert_usable s now >>= λ _. ok (s, store)

  unfoldable pub revoke_session :
      IdentityStore → String → ℕ → Result IdentityError (Session × IdentityStore)
  unfolding lookup_session revoke_rows from_row utc_now format_utc_timestamp
  revoke_session store raw_token reading = lookup_session store raw_token >>= λ s.
      let answer = revoke_rows store s.session_id (format_utc_timestamp (utc_now reading)) in
      from_row answer.0 >>= λ row. ok (row, answer.1)

  module _ (policy : SessionPolicy) where
    -- The row that `create_session` builds at the instant `now`.
    unfoldable pub new_session : String → String → String → ℕ → Session
    unfolding format_utc_timestamp
    new_session session_id user_id token_hash now = record {
      session_id = session_id;
      user_id = user_id;
      token_hash = token_hash;
      created_at_utc = format_utc_timestamp now;
      last_activity_at_utc = format_utc_timestamp now;
      idle_expires_at_utc =
          format_utc_timestamp (min (now + policy.idle_timeout) (now + policy.absolute_timeout));
      absolute_expires_at_utc = format_utc_timestamp (now + policy.absolute_timeout);
      revoked_at_utc = none;
    }

    -- The answer is the stored session; the raw token goes back to the caller.
    unfoldable pub create_session :
        IdentityStore
        → String
        → String
        → String
        → ℕ
        → Result IdentityError (Session × IdentityStore)
    unfolding require_active_user hash_session_token check_session new_session insert_session
        utc_now
    create_session store user_id session_id raw_token reading =
        require_active_user store user_id identity_not_found >>= λ u.
        hash_session_token tools raw_token >>= λ token_hash.
        check_session tools (new_session session_id u.user_id token_hash (utc_now reading)) >>= λ s.
        insert_session store s

    unfoldable pub touch_session :
        IdentityStore → String → ℕ → Result IdentityError (Session × IdentityStore)
    unfolding lookup_session assert_usable touch_rows after_touch utc_now format_utc_timestamp
        parse_utc_timestamp
    touch_session store raw_token reading = lookup_session store raw_token >>= λ s.
        assert_usable s (utc_now reading) >>= λ _. after_touch raw_token (utc_now reading) (
          touch_rows store s.session_id (format_utc_timestamp (utc_now reading)) (
            format_utc_timestamp (
              min (utc_now reading + policy.idle_timeout)
                (parse_utc_timestamp s.absolute_expires_at_utc))))
