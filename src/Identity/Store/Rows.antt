-- ===== src/Identity/Store/Rows.antt =====
-- What an UPDATE that keeps the token hashes does to the row of a token.
use ai_data_quality_platform.Base.{
  String, Bool, true, false, some, List, [], ◌∷◌, ◌==◌, ◌≡◌, sym, ap, ◌∙◌, inl, inr, if◌then◌else◌,
  if_true, if_false, Bool-cases,
}
use ai_data_quality_platform.Identity.Sessions.{Session}
use ai_data_quality_platform.Identity.Store.{find_by_hash, update_rows}

pub find_by_hash-here :
    (h : String) (s : Session) (rows : List Session)
    → (s.token_hash == h) ≡ true
    → find_by_hash h (s ∷ rows) ≡ some s
unfolding find_by_hash
find_by_hash-here h s rows = if_true (s.token_hash == h) (some s) (find_by_hash h rows)

pub find_by_hash-there :
    (h : String) (s : Session) (rows : List Session)
    → (s.token_hash == h) ≡ false
    → find_by_hash h (s ∷ rows) ≡ find_by_hash h rows
unfolding find_by_hash
find_by_hash-there h s rows = if_false (s.token_hash == h) (some s) (find_by_hash h rows)

none_found : (h : String) (s : Session) → find_by_hash h [] ≡ some s → ⊥
unfolding find_by_hash
none_found h s e = cc

-- A row after an UPDATE.
abbrev pub updated : (Session → Bool) → (Session → Session) → Session → Session
updated where_ set s = if where_ s then set s else s

module _ (where_ : Session → Bool) (set : Session → Session)
    (keeps_hash : (s : Session) → (set s).token_hash ≡ s.token_hash) where
  updated-token_hash : (s : Session) → (updated where_ set s).token_hash ≡ s.token_hash
  updated-token_hash s = elim (Bool-cases (where_ s)) [
    | inl applies ↦ ap (λ w. w.token_hash) (if_true (where_ s) (set s) s applies) ∙ keeps_hash s
    | inr stays ↦ ap (λ w. w.token_hash) (if_false (where_ s) (set s) s stays)
  ]

  -- The row of a token after the statement is its row before it, updated.
  pub find_by_hash-update_rows :
      (h : String) (rows : List Session) (s : Session)
      → find_by_hash h rows ≡ some s
      → find_by_hash h (update_rows where_ set rows) ≡ some (updated where_ set s)
  unfolding update_rows
  find_by_hash-update_rows h [] s e = absurd (none_found h s e)
  find_by_hash-update_rows h (r ∷ rows) s e =
      let same_hash : ((updated where_ set r).token_hash == h) ≡ (r.token_hash == h) =
        ap (λ w. w == h) (updated-token_hash r) in
      elim (Bool-cases (r.token_hash == h)) [
        | inl here ↦
            let found : some r ≡ some s = sym (find_by_hash-here h r rows here) ∙ e in
            let same : r ≡ s = cc in
            find_by_hash-here h (updated where_ set r) (update_rows where_ set rows)
              (same_hash ∙ here)
            ∙ ap (λ w. some (updated where_ set w)) same
        | inr there ↦
            find_by_hash-there h (updated where_ set r) (update_rows where_ set rows)
              (same_hash ∙ there)
            ∙ find_by_hash-update_rows h rows s (sym (find_by_hash-there h r rows there) ∙ e)
      ]
