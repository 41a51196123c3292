-- ===== src/Samples/Sessions.antt =====
-- A session that is created, used and revoked.
use ai_data_quality_platform.Base.{ℕ, ◌+◌, ◌<◌, false, none, some, [], ◌∷◌, ◌≡◌, refl, ok, err}
use ai_data_quality_platform.Identity.Clock.{utc_now}
use ai_data_quality_platform.Identity.Sessions.{
  IdentityTools, SessionPolicy, Session, User, UserStatus, session_revoked, is_idle_expired,
  check_policy,
}
use ai_data_quality_platform.Identity.Store.{IdentityStore}
use ai_data_quality_platform.Identity.SessionService.{
  create_session, resolve_session, revoke_session, touch_session,
}
use ai_data_quality_platform.Identity.SessionService.Lifecycle.{Runs, stop, next, touches}
use ai_data_quality_platform.Identity.SessionService.Revocation.{revoke_session_final}
use ai_data_quality_platform.Identity.SessionService.Lifetime.{
  resolve_session-lifetime, resolve_session-create_session,
}

-- Tokens and ids without white space, and a digest of the right length.
abbrev plain_identity : IdentityTools
plain_identity = record {
  strip = λ s. s;
  has_space = λ s. false;
  sha256_hex = λ s. "0123456789abcdef0123456789abcdef0123456789abcdef0123456789abcdef";
}

abbrev default_policy : SessionPolicy
default_policy = record {
  idle_timeout = 3600000000;
  warning_after = 3300000000;
  absolute_timeout = 28800000000;
}

default_policy_ok : check_policy default_policy ≡ ok default_policy
unfolding check_policy
default_policy_ok = refl

abbrev ada : User
ada = record {
  user_id = "USR-1";
  normalized_email = "ada@example.org";
  display_name = "Ada";
  status = UserStatus.active;
}

abbrev empty_store : IdentityStore
empty_store = record { users = ada ∷ []; sessions = [] }

abbrev session_at : ℕ → ℕ → Session
session_at activity idle = record {
  session_id = "SES-1";
  user_id = "USR-1";
  token_hash = "0123456789abcdef0123456789abcdef0123456789abcdef0123456789abcdef";
  created_at_utc = 100;
  last_activity_at_utc = activity;
  idle_expires_at_utc = idle;
  absolute_expires_at_utc = 28900;
  revoked_at_utc = none;
}

abbrev store_with : Session → IdentityStore
store_with s = record { users = ada ∷ []; sessions = s ∷ [] }

creation :
    create_session plain_identity default_policy empty_store "USR-1" "SES-1" "token" 100500000
    ≡ ok (session_at 100 3700, store_with (session_at 100 3700))
unfolding create_session
creation = refl

-- 27000 seconds later the idle window is cut at the absolute bound.
touch_caps :
    touch_session plain_identity default_policy
      (store_with (session_at 27000 28000))
      "token"
      27500000000
    ≡ ok (session_at 27500 28900, store_with (session_at 27500 28900))
unfolding touch_session
touch_caps = refl

touch_once :
    touch_session plain_identity default_policy (store_with (session_at 100 3700)) "token" 200000000
    ≡ ok (session_at 200 3800, store_with (session_at 200 3800))
unfolding touch_session
touch_once = refl

abbrev touch_run :
    Runs plain_identity default_policy
      (store_with (session_at 100 3700))
      (store_with (session_at 200 3800))
touch_run = next (touches "token" 200000000 (session_at 200 3800) touch_once) (stop refl)

resolves_then :
    resolve_session plain_identity (store_with (session_at 200 3800)) "token" 3000000000
    ≡ ok (session_at 200 3800, ada)
unfolding resolve_session
resolves_then = refl

resolve_session-lifetime_example : 3000000000 < 100500000 + default_policy.absolute_timeout
resolve_session-lifetime_example =
    resolve_session-lifetime plain_identity default_policy empty_store
      (store_with (session_at 100 3700)) (store_with (session_at 200 3800)) "USR-1" "SES-1" "token"
      100500000 3000000000 (session_at 100 3700) (session_at 200 3800) ada creation touch_run
      resolves_then

not_idle : is_idle_expired (session_at 100 3700) (utc_now 3000000000) ≡ false
unfolding is_idle_expired utc_now
not_idle = refl

resolve_session-create_session_example :
    (u : User) × (resolve_session plain_identity
        (store_with (session_at 100 3700))
        "token"
        3000000000
      ≡ ok (session_at 100 3700, u))
    × (u.user_id ≡ "USR-1")
    × (u.status ≡ UserStatus.active)
resolve_session-create_session_example =
    resolve_session-create_session plain_identity default_policy empty_store
      (store_with (session_at 100 3700)) "USR-1" "SES-1" "token" 100500000 3000000000
      (session_at 100 3700) creation not_idle

abbrev revoked_session : Session
revoked_session = record (session_at 200 3800) { revoked_at_utc = some 300 }

revocation :
    revoke_session plain_identity (store_with (session_at 200 3800)) "token" 300000000
    ≡ ok (revoked_session, store_with revoked_session)
unfolding revoke_session
revocation = refl

revoke_session_final_example :
    resolve_session plain_identity (store_with revoked_session) "token" 400000000
    ≡ err session_revoked
revoke_session_final_example =
    revoke_session_final plain_identity default_policy (store_with (session_at 200 3800))
      (store_with revoked_session) (store_with revoked_session) "token" 300000000 revoked_session
      revocation (stop refl) 400000000
