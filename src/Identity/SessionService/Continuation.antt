-- ===== src/Identity/SessionService/Continuation.antt =====
-- What one statement may make of a row of the session table.
use ai_data_quality_platform.Base.{
  ℕ, ◌≤◌, String, true, ◌≡◌, refl, sym, ◌∙◌, inl, inr, arith, subst, Bool-cases, if_true, if_false,
}
use ai_data_quality_platform.Identity.Sessions.{Session, is_revoked}
use ai_data_quality_platform.Identity.Store.{touch_applies, touched, revoke_applies, revoked}
use ai_data_quality_platform.Identity.Store.Rows.{updated}

-- What a row may become: its identity, its hash and its absolute bound stay, its activity does not
-- go back, and a revoked row does not change any more.
pub record Continues (s t : Session) : Type 0 where
  pub same_session : t.session_id ≡ s.session_id
  pub same_user : t.user_id ≡ s.user_id
  pub same_hash : t.token_hash ≡ s.token_hash
  pub same_absolute : t.absolute_expires_at_utc ≡ s.absolute_expires_at_utc
  pub activity : s.last_activity_at_utc ≤ t.last_activity_at_utc
  pub final : is_revoked s ≡ true → t ≡ s

pub Continues-refl : (s : Session) → Continues s s
Continues-refl s = record {
  same_session = refl;
  same_user = refl;
  same_hash = refl;
  same_absolute = refl;
  activity = omega arith;
  final = λ r. refl;
}

pub Continues-trans : (s t w : Session) → Continues s t → Continues t w → Continues s w
Continues-trans s t w a b = record {
  same_session = b.same_session ∙ a.same_session;
  same_user = b.same_user ∙ a.same_user;
  same_hash = b.same_hash ∙ a.same_hash;
  same_absolute = b.same_absolute ∙ a.same_absolute;
  activity = omega (arith, a.activity, b.activity);
  final = λ r.
      let same : t ≡ s = a.final r in
      b.final (subst (λ v. is_revoked v ≡ true) (sym same) r) ∙ same;
}

pub touched-Continues :
    (session_id : String) (now idle : ℕ) (s : Session)
    → Continues s (updated (touch_applies session_id now) (touched now idle) s)
unfolding touch_applies
touched-Continues session_id now idle s = elim (Bool-cases (touch_applies session_id now s)) [
  | inl applies ↦
      subst (Continues s)
        (sym (if_true (touch_applies session_id now s) (touched now idle s) s applies))
        (record {
          same_session = refl;
          same_user = refl;
          same_hash = refl;
          same_absolute = refl;
          activity = ground arith;
          final = λ r. absurd (ground arith);
        })
  | inr stays ↦
      subst (Continues s)
        (sym (if_false (touch_applies session_id now s) (touched now idle s) s stays))
        (Continues-refl s)
]

pub revoked-Continues :
    (session_id : String) (at : ℕ) (s : Session)
    → Continues s (updated (revoke_applies session_id) (revoked at) s)
unfolding revoke_applies
revoked-Continues session_id at s = elim (Bool-cases (revoke_applies session_id s)) [
  | inl applies ↦
      subst (Continues s) (sym (if_true (revoke_applies session_id s) (revoked at s) s applies))
        (record {
          same_session = refl;
          same_user = refl;
          same_hash = refl;
          same_absolute = refl;
          activity = omega arith;
          final = λ r. absurd (ground arith);
        })
  | inr stays ↦
      subst (Continues s) (sym (if_false (revoke_applies session_id s) (revoked at s) s stays))
        (Continues-refl s)
]
