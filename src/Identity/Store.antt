-- ===== src/Identity/Store.antt =====
-- review_persistence/sqlite/session_repository.py: the statements on the table `user_sessions`, with
-- the constraints that review_persistence/identity_schema.py puts on it, and the reads of the table
-- `users`. A statement answers and leaves a new table.
pub mod Rows
use ai_data_quality_platform.Base.{
  ℕ, ◌+◌, String, Bool, true, false, not, Option, none, some, List, [], ◌∷◌, ◌++◌, ◌&&◌, ◌||◌, ◌==◌,
  ltb, leb, nat_eq, if◌then◌else◌, Result, ok, err, ◌>>=◌, any, or_raise,
}
use ai_data_quality_platform.Identity.Sessions.{
  IdentityError, duplicate_identity, identity_not_found, User, Session, is_revoked,
}

pub record IdentityStore : Type 0 where
  pub users : List User
  pub sessions : List Session

-- `SELECT ... FROM users WHERE user_id = ?`
unfoldable pub find_user : String → List User → Option User
find_user user_id [] = none
find_user user_id (u ∷ users) = if u.user_id == user_id then some u else find_user user_id users

unfoldable pub get_user : IdentityStore → String → Option User
unfolding find_user
get_user store user_id = find_user user_id store.users

-- `SELECT ... WHERE token_hash = ?` and `... WHERE session_id = ?`
unfoldable pub find_by_hash : String → List Session → Option Session
find_by_hash token_hash [] = none
find_by_hash token_hash (s ∷ rows) =
    if s.token_hash == token_hash then some s else find_by_hash token_hash rows

unfoldable pub find_by_id : String → List Session → Option Session
find_by_id session_id [] = none
find_by_id session_id (s ∷ rows) =
    if s.session_id == session_id then some s else find_by_id session_id rows

-- The three CHECK constraints of a row.
unfoldable pub passes_checks : Session → Bool
passes_checks s =
    ltb s.created_at_utc s.absolute_expires_at_utc
    && leb s.idle_expires_at_utc s.absolute_expires_at_utc
    && leb s.created_at_utc s.last_activity_at_utc

-- PRIMARY KEY and UNIQUE.
unfoldable pub clashes : Session → List Session → Bool
clashes new rows = any (λ s. s.session_id == new.session_id || s.token_hash == new.token_hash) rows

-- `UPDATE user_sessions SET ... WHERE ...`
unfoldable pub update_rows : (Session → Bool) → (Session → Session) → List Session → List Session
update_rows where_ set [] = []
update_rows where_ set (s ∷ rows) = (if where_ s then set s else s) ∷ update_rows where_ set rows

-- `SqliteSessionRepository.create_session`
unfoldable pub insert_session :
    IdentityStore → Session → Result IdentityError (Session × IdentityStore)
unfolding get_user clashes passes_checks
insert_session store s = or_raise (get_user store s.user_id) identity_not_found >>= λ u.
    if clashes s store.sessions || not (passes_checks s)
    then err duplicate_identity
    else ok (s, record { users = store.users; sessions = store.sessions ++ s ∷ [] })

-- The WHERE and the SET of the statement `_TOUCH`.
unfoldable pub touch_applies : String → ℕ → Session → Bool
unfolding is_revoked
touch_applies session_id now s =
    s.session_id == session_id
    && not (is_revoked s)
    && leb s.last_activity_at_utc now
    && ltb now s.idle_expires_at_utc
    && ltb now s.absolute_expires_at_utc

abbrev pub touched : ℕ → ℕ → Session → Session
touched now idle_expires s = record s {
  last_activity_at_utc = now;
  idle_expires_at_utc = idle_expires;
}

-- `SqliteSessionRepository.touch_session`: no row matched, or the row as it is now. `session_id` is
-- the primary key, so `rowcount` is 1 exactly where some row matched.
unfoldable pub touch_rows : IdentityStore → String → ℕ → ℕ → Option Session × IdentityStore
unfolding touch_applies update_rows find_by_id
touch_rows store session_id now idle_expires =
    if any (touch_applies session_id now) store.sessions
    then (let rows =
          update_rows (touch_applies session_id now) (touched now idle_expires) store.sessions in
        (find_by_id session_id rows, record { users = store.users; sessions = rows }))
    else (none, store)

-- The WHERE and the SET of the statement `_REVOKE`.
unfoldable pub revoke_applies : String → Session → Bool
unfolding is_revoked
revoke_applies session_id s = s.session_id == session_id && not (is_revoked s)

abbrev pub revoked : ℕ → Session → Session
revoked at s = record s { revoked_at_utc = some at }

-- `SqliteSessionRepository.revoke_session`
unfoldable pub revoke_rows : IdentityStore → String → ℕ → Option Session × IdentityStore
unfolding revoke_applies update_rows find_by_id
revoke_rows store session_id at =
    let rows = update_rows (revoke_applies session_id) (revoked at) store.sessions in
    (find_by_id session_id rows, record { users = store.users; sessions = rows })
