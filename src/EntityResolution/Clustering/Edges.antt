-- ===== src/EntityResolution/Clustering/Edges.antt =====
-- Lists of accepted edges that say the same.
use ai_data_quality_platform.Base.{
  List, [], ◌∷◌, ◌++◌, ◌≡◌, sym, ◌∙◌, inl, inr, arith, contains, text_eq, contains_cons,
  contains-cons_cases, contains-append, subst,
}
use ai_data_quality_platform.UnionFind.{Parent}
use ai_data_quality_platform.UnionFind.Partition.{SameTree}
use ai_data_quality_platform.EntityResolution.Models.{RecordPair, pair_eq}
use ai_data_quality_platform.HumanReview.Linked.{Linked-more, Spans}

pub Spans-same_edges :
    {edges others : List RecordPair} {p : Parent}
    → ((e : RecordPair) → contains e others ≡ contains e edges)
    → Spans edges p
    → Spans others p
Spans-same_edges same s = record {
  forest = s.forest;
  joins = λ e m. s.joins e (sym (same e) ∙ m);
  only = λ x y kx ky h. Linked-more (λ e m. same e ∙ m) (s.only x y kx ky h);
}

pub last_first :
    (e d : RecordPair) (accepted : List RecordPair)
    → contains d (accepted ++ e ∷ []) ≡ contains d (e ∷ accepted)
last_first e d accepted = contains-append d accepted (e ∷ []) ∙ ground arith

-- An edge whose records are in one component already.
pub Spans-known :
    {edges : List RecordPair} {p : Parent} (e : RecordPair)
    → Spans edges p
    → SameTree p e.record_a_id e.record_b_id
    → Spans (e ∷ edges) p
Spans-known {edges} {p} e s h = record {
  forest = s.forest;
  joins = λ d m. elim (contains-cons_cases d e edges m) [
    | inl same ↦ subst (λ w. SameTree p w.record_a_id w.record_b_id) same h
    | inr there ↦ s.joins d there
  ];
  only = λ x y kx ky w. Linked-more (λ d m. contains_cons d e edges m) (s.only x y kx ky w);
}
