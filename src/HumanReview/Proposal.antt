-- ===== src/HumanReview/Proposal.antt =====
-- What the loops of human_review/integration.py and human_review/authorization.py do with one edge:
-- they search what would become one component, and then join it or pass over it.
use ai_data_quality_platform.Base.{
  String, Bool, true, List, ◌||◌, ◌==◌, ◌≡◌, sym, contains, text_eq, ok, subst,
}
use ai_data_quality_platform.Base.Assoc.{keys}
use ai_data_quality_platform.UnionFind.{Parent, singletons, find_halving, union, component_members}
use ai_data_quality_platform.UnionFind.Forest.{IsKey, IsForest, Root-IsKey, Refines}
use ai_data_quality_platform.UnionFind.Find.{Root-exists}
use ai_data_quality_platform.UnionFind.Halving.{find_halving-IsFinder}
use ai_data_quality_platform.UnionFind.Partition.{
  JoinsExactly, union-JoinsExactly, singletons-IsKey, IsKey-singletons,
}
use ai_data_quality_platform.UnionFind.Collect.{Collected, AllKeys, component_members-collects}
use ai_data_quality_platform.EntityResolution.Models.{RecordPair, pair_eq}
use ai_data_quality_platform.HumanReview.Guard.{
  IsClear, Proposes, Collected-Proposes, JoinsExactly-Refines,
}
use ai_data_quality_platform.HumanReview.Linked.{SameTree-back}

abbrev pub EndsListed : List String → RecordPair → Type 0
EndsListed members e =
    (contains e.record_a_id members ≡ true) × (contains e.record_b_id members ≡ true)

-- The ids of the dictionary are the members.
pub record Covers (members : List String) (p : Parent) : Type 0 where
  pub stored : AllKeys members p
  pub listed : (x : String) → IsKey x p → contains x members ≡ true

pub Covers-keys :
    {members : List String} {p q : Parent} → keys q ≡ keys p → Covers members p → Covers members q
Covers-keys {members} {p} {q} same c = record {
  stored = λ m h. subst (λ ks. contains m ks ≡ true) (sym same) (c.stored m h);
  listed = λ x k. c.listed x (subst (λ ks. contains x ks ≡ true) same k);
}

pub record Proposal (members : List String) (p : Parent) (left right : String) : Type 0 where
  pub proposed : List String
  pub searched : Parent
  pub joined : Bool
  pub after : Parent
  pub searches : component_members find_halving members left right p ≡ ok (proposed, searched)
  pub refines : Refines p searched
  pub unites : union find_halving left right searched ≡ ok (joined, after)
  pub proposes : Proposes proposed p left right
  pub joins : JoinsExactly p after left right
  pub from_members : (m : String) → contains m proposed ≡ true → contains m members ≡ true

pub proposal :
    (members : List String) (p : Parent) (left right : String)
    → IsForest p
    → Covers members p
    → IsKey left p
    → IsKey right p
    → Proposal members p left right
proposal members p left right f covers kl kr =
    let (a, wl) = Root-exists left f kl in
    let (b, wr) = Root-exists right f kr in
    let c : Collected (λ root. root == a || root == b) members p
        (component_members find_halving members left right p) =
      component_members-collects find_halving find_halving-IsFinder members left right a b p f
        covers.stored wl wr in
    let (answer, q, returns, _, j) =
      union-JoinsExactly find_halving left right c.after find_halving-IsFinder c.refines.forest
        (rw c.refines.same_keys kl) (rw c.refines.same_keys kr) in
    record {
      proposed = c.members;
      searched = c.after;
      joined = answer;
      after = q;
      searches = c.returns;
      refines = c.refines;
      unites = returns;
      proposes =
          Collected-Proposes f wl wr members (component_members find_halving members left right p)
            covers.stored covers.listed c;
      joins = JoinsExactly-Refines f c.refines left right kl kr j;
      from_members = c.from_ids;
    }

-- Searches keep the NO_MATCH pairs apart.
pub IsClear-Refines :
    (no_match_pairs : List RecordPair) {p q : Parent}
    → IsForest p
    → Refines p q
    → IsClear no_match_pairs p
    → IsClear no_match_pairs q
IsClear-Refines no_match_pairs {p} f g clear n m ne h = clear n m ne (
    SameTree-back f g (subst (λ ks. contains n.record_a_id ks ≡ true) g.same_keys (Root-IsKey h.1))
      (subst (λ ks. contains n.record_b_id ks ≡ true) g.same_keys (Root-IsKey h.2)) h)

pub singletons-Covers : (members : List String) → Covers members (singletons members)
singletons-Covers members = record {
  stored = λ m h. singletons-IsKey m members h;
  listed = λ x k. IsKey-singletons x members k;
}
