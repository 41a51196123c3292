-- ===== src/Identity/SessionService/Checks.antt =====
-- What the checks that a call makes say of a session that passed them.
use ai_data_quality_platform.Base.{
  ℕ, String, Bool, true, false, not, Option, none, some, ◌≡◌, refl, arith, ltb, nat_eq, Result, ok,
  ◌>>◌, raise_if, returned-bind, ap, subst, inl, inr, ◌==◌, Bool-cases,
}
use Prim.Native.String.{count}
use ai_data_quality_platform.Identity.Sessions.{
  IdentityTools, Session, is_opaque_id, check_session, is_revoked, is_absolutely_expired,
  is_idle_expired, identity_validation, hash_session_token,
}
use ai_data_quality_platform.Identity.Store.{IdentityStore, find_by_hash}
use ai_data_quality_platform.Identity.SessionService.{
  assert_usable, from_row, lookup_session, as_not_found,
}

returned-raise_if :
    {E A : Type 0} (b : Bool) (e : E) (next : Result E A) {a : A}
    → (raise_if b e >> next) ≡ ok a
    → (b ≡ false) × (next ≡ ok a)
returned-raise_if true e next h = cc
returned-raise_if false e next h = (refl, h)

-- What `Session.__post_init__` asks for.
pub record IsWellFormed (tools : IdentityTools) (s : Session) : Type 0 where
  pub session_id_opaque : not (is_opaque_id tools "SES-" s.session_id) ≡ false
  pub user_id_opaque : not (is_opaque_id tools "USR-" s.user_id) ≡ false
  pub digest : not (nat_eq (count s.token_hash) 64) ≡ false
  pub capped : ltb s.absolute_expires_at_utc s.idle_expires_at_utc ≡ false

pub check_session-IsWellFormed :
    (tools : IdentityTools) (s t : Session)
    → check_session tools s ≡ ok t
    → IsWellFormed tools s × (s ≡ t)
unfolding check_session
check_session-IsWellFormed tools s t h =
    let (a, h1) =
      returned-raise_if (not (is_opaque_id tools "SES-" s.session_id)) identity_validation _ h in
    let (b, h2) =
      returned-raise_if (not (is_opaque_id tools "USR-" s.user_id)) identity_validation _ h1 in
    let (c, h3) =
      returned-raise_if (not (nat_eq (count s.token_hash) 64)) identity_validation _ h2 in
    let (d, h4) =
      returned-raise_if (ltb s.absolute_expires_at_utc s.idle_expires_at_utc) identity_validation _
        h3 in
    (record { session_id_opaque = a; user_id_opaque = b; digest = c; capped = d }, cc (h4))

pub IsWellFormed-check_session :
    (tools : IdentityTools) (s : Session) → IsWellFormed tools s → check_session tools s ≡ ok s
unfolding check_session
IsWellFormed-check_session tools s w =
    simp (w.session_id_opaque, w.user_id_opaque, w.digest, w.capped)

-- What `_assert_usable` asks for.
pub record IsUsable (s : Session) (now : ℕ) : Type 0 where
  pub not_revoked : is_revoked s ≡ false
  pub not_absolutely : is_absolutely_expired s now ≡ false
  pub not_idle : is_idle_expired s now ≡ false

pub assert_usable-IsUsable : (s : Session) (now : ℕ) → assert_usable s now ≡ ok tt → IsUsable s now
unfolding assert_usable
assert_usable-IsUsable s now h = record {
  not_revoked = ground arith;
  not_absolutely = ground arith;
  not_idle = ground arith;
}

pub IsUsable-assert_usable : (s : Session) (now : ℕ) → IsUsable s now → assert_usable s now ≡ ok tt
unfolding assert_usable
IsUsable-assert_usable s now u = rw (u.not_revoked, u.not_absolutely, u.not_idle) refl

-- A token that is found has its row in the table.
pub record IsFound (tools : IdentityTools) (store : IdentityStore) (raw_token : String)
    (s : Session) : Type 0 where
  pub hashes : hash_session_token tools raw_token ≡ ok (tools.sha256_hex raw_token)
  pub row : find_by_hash (tools.sha256_hex raw_token) store.sessions ≡ some s
  pub formed : IsWellFormed tools s

found-row :
    (tools : IdentityTools) (row : Option Session) (s : Session)
    → from_row tools row ≡ ok s
    → (row ≡ some s) × IsWellFormed tools s
unfolding from_row
found-row tools none s h = cc
found-row tools (some r) s h =
    let (w, same) = check_session-IsWellFormed tools r s h in
    (ap some same, subst (IsWellFormed tools) same w)

module _ (tools : IdentityTools) (store : IdentityStore) (raw_token : String) where
  hashed :
      (token_hash : String)
      → as_not_found (hash_session_token tools raw_token) ≡ ok token_hash
      → (hash_session_token tools raw_token ≡ ok (tools.sha256_hex raw_token))
        × (token_hash ≡ tools.sha256_hex raw_token)
  unfolding hash_session_token
  hashed token_hash h = elim (Bool-cases (raw_token == "")) [
    | inl blank ↦ cc (rw blank at h)
    | inr text ↦ (rw text refl, cc (rw text at h))
  ]

  pub lookup_session-IsFound :
      (s : Session) → lookup_session tools store raw_token ≡ ok s → IsFound tools store raw_token s
  unfolding lookup_session
  lookup_session-IsFound s h =
      let (token_hash, found, hashes) =
        returned-bind (as_not_found (hash_session_token tools raw_token)) _ h in
      let (is_hash, same) = hashed token_hash hashes in
      let (row, formed) = found-row tools (find_by_hash token_hash store.sessions) s found in
      record {
        hashes = is_hash;
        row = subst (λ w. find_by_hash w store.sessions ≡ some s) same row;
        formed = formed;
      }

  pub IsFound-lookup_session :
      (s : Session) → IsFound tools store raw_token s → lookup_session tools store raw_token ≡ ok s
  unfolding lookup_session from_row
  IsFound-lookup_session s f = rw f.hashes (rw f.row (IsWellFormed-check_session tools s f.formed))
