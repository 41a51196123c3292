-- ===== src/Identity/Sessions.antt =====
-- identity/sessions.py, `assert_opaque_id` of identity/ids.py, identity/errors.py and the user's
-- status of identity/models.py.
use ai_data_quality_platform.Base.{
  ℕ, String, Bool, true, false, not, Option, none, some, ◌&&◌, ◌||◌, ◌==◌, ltb, leb, nat_eq,
  if◌then◌else◌, Result, ok, err, ◌>>◌, raise_if,
}
use Prim.Native.String.{count, len, slice}
use ai_data_quality_platform.Identity.Clock.{parse_utc_timestamp}

pub data IdentityError : Type 0 where
  identity_validation duplicate_identity identity_not_found inactive_user : IdentityError
  authentication_failed session_not_found session_revoked : IdentityError
  session_expired : String → IdentityError

-- What Python computes by tables or by hashing: `str.strip`, `any(c.isspace() for c in _)` and
-- `sha256(_.encode("utf-8")).hexdigest()`.
pub record IdentityTools : Type 0 where
  pub strip : String → String
  pub has_space : String → Bool
  pub sha256_hex : String → String

pub data UserStatus : Type 0 where
  active disabled : UserStatus

pub record User : Type 0 where
  pub user_id : String
  pub normalized_email : String
  pub display_name : String
  pub status : UserStatus

-- Lengths of time in microseconds. A negative `timedelta` fails the same tests as zero does.
pub record SessionPolicy : Type 0 where
  pub idle_timeout : ℕ
  pub warning_after : ℕ
  pub absolute_timeout : ℕ

-- `SessionPolicy.__post_init__`
unfoldable pub check_policy : SessionPolicy → Result IdentityError SessionPolicy
check_policy policy =
    raise_if (nat_eq policy.warning_after 0) identity_validation
    >> (raise_if (leb policy.idle_timeout policy.warning_after) identity_validation
        >> (raise_if (leb policy.absolute_timeout policy.idle_timeout) identity_validation
            >> ok policy))

pub record Session : Type 0 where
  pub session_id : String
  pub user_id : String
  pub token_hash : String
  pub created_at_utc : ℕ
  pub last_activity_at_utc : ℕ
  pub idle_expires_at_utc : ℕ
  pub absolute_expires_at_utc : ℕ
  pub revoked_at_utc : Option ℕ

-- `value.startswith(prefix)`
starts_with : String → String → Bool
starts_with prefix value = slice value 0 (len prefix) == prefix

module _ (tools : IdentityTools) where
  -- The tests of `assert_opaque_id`.
  unfoldable pub is_opaque_id : String → String → Bool
  unfolding starts_with
  is_opaque_id prefix value =
      value == tools.strip value
      && starts_with prefix value
      && ltb (count prefix) (count value)
      && leb (count value) 128
      && not (tools.has_space value)

  -- `Session.__post_init__`; a stamp is never an empty text here.
  unfoldable pub check_session : Session → Result IdentityError Session
  unfolding is_opaque_id
  check_session s =
      raise_if (not (is_opaque_id "SES-" s.session_id)) identity_validation
      >> (raise_if (not (is_opaque_id "USR-" s.user_id)) identity_validation
          >> (raise_if (not (nat_eq (count s.token_hash) 64)) identity_validation
              >> (raise_if (ltb s.absolute_expires_at_utc s.idle_expires_at_utc) identity_validation
                  >> ok s)))

  unfoldable pub hash_session_token : String → Result IdentityError String
  hash_session_token raw_token =
      if raw_token == "" then err identity_validation else ok (tools.sha256_hex raw_token)

unfoldable pub is_revoked : Session → Bool
is_revoked s = elim (s.revoked_at_utc) [ none ↦ false | some at ↦ true ]

unfoldable pub is_idle_expired : Session → ℕ → Bool
unfolding parse_utc_timestamp
is_idle_expired s now = leb (parse_utc_timestamp s.idle_expires_at_utc) now

unfoldable pub is_absolutely_expired : Session → ℕ → Bool
unfolding parse_utc_timestamp
is_absolutely_expired s now = leb (parse_utc_timestamp s.absolute_expires_at_utc) now

unfoldable pub is_valid_at : Session → ℕ → Bool
unfolding is_revoked is_absolutely_expired is_idle_expired
is_valid_at s now = not (is_revoked s || is_absolutely_expired s now || is_idle_expired s now)
