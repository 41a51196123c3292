-- ===== src/UnionFind/Union.antt =====
-- `union` joins exactly two components, whichever search it uses, and starts from singletons.
use ai_data_quality_platform.Base.{
  String, Bool, true, not, some, ◌==◌, ◌||◌, ◌≡◌, refl, sym, ap, ◌∙◌, inl, inr, arith, text_lt,
  text_eq, eq_iff, eq_false, text_cases, Bool-cases, subst, Result, ok, if◌then◌else◌,
  text_lt_total, text_lt_asymm,
}
use ai_data_quality_platform.Base.Assoc.{
  lookup, insert, keys, lookup-insert_self, lookup-insert_ne, keys-insert,
}
use ai_data_quality_platform.UnionFind.Find.{Root-back}
use ai_data_quality_platform.UnionFind.{Parent, Fault, Finder, link, union}
use ai_data_quality_platform.UnionFind.Forest.{
  IsKey, IsForest, Root, here, up, Root-end, Refines, Refines-trans, Found, IsFinder,
  IsKey-of_lookup, insert-IsForest, ne_of_text_lt,
}

-- The root of what hung under `a` or `b`, once the two are joined.
abbrev pub merged : String → String → String → String
merged a b s = if s == a || s == b then (if text_lt b a then b else a) else s

pub record Joined (p q : Parent) (a b : String) : Type 0 where
  pub forest : IsForest q
  pub same_keys : keys q ≡ keys p
  pub roots : (x s : String) → Root p x s → Root q x (merged a b s)

module _ {p : Parent} (f : IsForest p) (a b : String) (ha : lookup a p ≡ some a)
    (hb : lookup b p ≡ some b) (lt : text_lt a b ≡ true) where
  -- `parent[b] = a` for two roots.
  graft-Root : Root (insert b a p) b a
  graft-Root =
      up a (lookup-insert_self b a p) (ne_of_text_lt a b lt)
        (here (lookup-insert_ne b a a p (ne_of_text_lt a b lt) ∙ ha) refl)

  -- `parent[b] = a` for two roots.
  graft-roots : {z s : String} → Root p z s → Root (insert b a p) z (if s == b then a else s)
  graft-roots {z} {s} (here h e) = elim (text_cases s b) [
    | inl same ↦
        rw ((eq_iff s b).1 same) (subst (λ w. Root (insert b a p) w a) (sym (e ∙ same)) graft-Root)
    | inr other ↦
        rw (eq_false s b other) (here (lookup-insert_ne b z a p (λ d. other (sym (d ∙ e))) ∙ h) e)
  ]
  graft-roots {z} {s} (up y h me q) =
      up y (lookup-insert_ne b z a p (λ d. me (cc)) ∙ h) me (graft-roots q)

  graft-IsForest : IsForest (insert b a p)
  graft-IsForest = insert-IsForest b a b p f hb (IsKey-of_lookup a a p ha) (λ _. lt)

module _ (a b s : String) where
  merged_same : a ≡ b → merged a b s ≡ s
  merged_same e = ground (arith, eq_iff s a, eq_iff s b)

  merged_left : text_lt a b ≡ true → (if s == b then a else s) ≡ merged a b s
  merged_left lt = ground (arith, eq_iff s a, eq_iff s b, text_lt_asymm a b lt)

  merged_right : text_lt b a ≡ true → (if s == a then b else s) ≡ merged a b s
  merged_right lt = ground (arith, eq_iff s a, eq_iff s b)

link-Joined :
    (a b : String) (p : Parent)
    → IsForest p
    → lookup a p ≡ some a
    → lookup b p ≡ some b
    → Joined p (link a b p).1 a b
unfolding link
link-Joined a b p f ha hb = elim (text_cases a b) [
  | inl same ↦ rw ((eq_iff a b).1 same) (record {
    forest = f;
    same_keys = refl;
    roots = λ x s h. subst (λ w. Root p x w) (sym (merged_same a b s same)) h;
  })
  | inr other ↦ elim (Bool-cases (text_lt a b)) [
    | inl lt ↦
        rw (eq_false a b other, lt)
          (record {
            forest = graft-IsForest f a b ha hb lt;
            same_keys = keys-insert b a b p hb;
            roots = λ x s h.
                subst (λ w. Root (insert b a p) x w) (merged_left a b s lt)
                  (graft-roots f a b ha hb lt h);
          })
    | inr ge ↦
        let lt : text_lt b a ≡ true = text_lt_total a b other ge in
        rw (eq_false a b other, ge)
          (record {
            forest = graft-IsForest f b a hb ha lt;
            same_keys = keys-insert a b a p ha;
            roots = λ x s h.
                subst (λ w. Root (insert a b p) x w) (merged_right a b s lt)
                  (graft-roots f b a hb ha lt h);
          })
  ]
]

link-answer : (a b : String) (p : Parent) → (link a b p).0 ≡ not (a == b)
unfolding link
link-answer a b p = ground arith

-- What `union(left, right)` did: it answered whether the two ids were apart, and joined them.
pub record United (p : Parent) (left right : String) (answer : Result Fault (Bool × Parent))
    : Type 0 where
  pub root_left : String
  pub root_right : String
  pub after : Parent
  pub returns : answer ≡ ok (not (root_left == root_right), after)
  pub way_left : Root p left root_left
  pub way_right : Root p right root_right
  pub joined : Joined p after root_left root_right

pub union-United :
    (search_root : Finder) (left right : String) (p : Parent)
    → IsFinder search_root
    → IsForest p
    → IsKey left p
    → IsKey right p
    → United p left right (union search_root left right p)
unfolding union
union-United search_root left right p laws f kl kr =
    let l : Found p left (search_root left p) = laws.finds left p f kl in
    let r : Found l.after right (search_root right l.after) =
      laws.finds right l.after l.refines.forest (rw l.refines.same_keys kr) in
    let way : Root p right r.root = Root-back f l.refines kr r.way in
    let both : Refines p r.after = Refines-trans l.refines r.refines in
    let step : Joined r.after (link l.root r.root r.after).1 l.root r.root =
      link-Joined l.root r.root r.after both.forest (Root-end (both.roots left l.root l.way))
        (Root-end (both.roots right r.root way)) in
    record {
      root_left = l.root;
      root_right = r.root;
      after = (link l.root r.root r.after).1;
      returns = rw l.returns (
          rw r.returns (
            ap {B = Result Fault (Bool × Parent)} (λ w. ok (w, (link l.root r.root r.after).1))
              (link-answer l.root r.root r.after)));
      way_left = l.way;
      way_right = way;
      joined = record {
        forest = step.forest;
        same_keys = step.same_keys ∙ both.same_keys;
        roots = λ x s h. step.roots x s (both.roots x s h);
      };
    }
