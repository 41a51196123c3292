-- ===== src/ReviewApi/Tenancy/Access.antt =====
-- Who is granted a scope, and what someone without a membership is told.
use ai_data_quality_platform.Base.{
  String, Bool, true, false, not, Option, none, some, List, [], ◌∷◌, ◌==◌, ◌≡◌, ◌↔◌, refl, sym, ap,
  ◌∙◌, inl, inr, ok, err, raise_if, or_raise, subst, Bool-cases, Option-cases, eq_iff,
  returned-bind, ok-injective, some-injective,
}
use ai_data_quality_platform.ReviewApi.Tenancy.{
  Organization, OrganizationMembership, ReviewQueue, Capability, has_capability, TenantError,
  scope_not_visible, TenantScope, TenantDirectory, select, get_organization, get_review_queue,
  get_membership, is_active, authorize,
}

selected :
    {A : Type 0} (where_ : A → Bool) (rows : List A) (x : A)
    → select where_ rows ≡ some x
    → where_ x ≡ true
unfolding select
selected where_ [] x h = cc
selected where_ (y ∷ rows) x h = elim (Bool-cases (where_ y)) [
  | inl here ↦ subst (λ w. where_ w ≡ true) (some-injective (rw here at h)) here
  | inr there ↦ selected where_ rows x (rw there at h)
]

-- The four facts, and the scope that they make.
pub record IsGranted (d : TenantDirectory) (user_id organization_id review_queue_id : String)
    (capability : Capability) (scope : TenantScope) : Type 0 where
  pub organization : Organization
  pub queue : ReviewQueue
  pub membership : OrganizationMembership
  pub organization_known : get_organization d organization_id ≡ some organization
  pub organization_active : is_active organization.status ≡ true
  pub queue_known : get_review_queue d review_queue_id ≡ some queue
  pub queue_owned : queue.organization_id ≡ organization_id
  pub member : get_membership d organization_id user_id ≡ some membership
  pub allowed : has_capability membership.role capability ≡ true
  pub scoped : scope ≡ record {
    user_id = user_id;
    organization_id = organization_id;
    review_queue_id = review_queue_id;
    role = membership.role;
    capability = capability;
  }

or_raise-some :
    {A : Type 0} (e : TenantError) (o : Option A) {a : A} → or_raise o e ≡ ok a → o ≡ some a
or_raise-some e none h = cc
or_raise-some e (some a) h = ap some (ok-injective h)

raise_if-false : (b : Bool) (e : TenantError) (u : Unit {0}) → raise_if (not b) e ≡ ok u → b ≡ true
raise_if-false true e u h = refl
raise_if-false false e u h = cc

module _ (d : TenantDirectory) (user_id organization_id review_queue_id : String)
    (capability : Capability) where
  named_organization :
      (o : Organization)
      → get_organization d organization_id ≡ some o
      → o.organization_id ≡ organization_id
  unfolding get_organization
  named_organization o h =
      (eq_iff o.organization_id organization_id).0
        (selected (λ w. w.organization_id == organization_id) d.organizations o h)

  named_queue :
      (q : ReviewQueue)
      → get_review_queue d review_queue_id ≡ some q
      → q.review_queue_id ≡ review_queue_id
  unfolding get_review_queue
  named_queue q h =
      (eq_iff q.review_queue_id review_queue_id).0
        (selected (λ w. w.review_queue_id == review_queue_id) d.queues q h)

  granted :
      (scope : TenantScope)
      → authorize d user_id organization_id review_queue_id capability ≡ ok scope
      → IsGranted d user_id organization_id review_queue_id capability scope
  unfolding authorize
  granted scope h =
      let (o, h1, known) = returned-bind (or_raise (get_organization d organization_id) _) _ h in
      let (u1, h2, live) = returned-bind (raise_if (not (is_active o.status)) _) _ h1 in
      let (q, h3, queued) = returned-bind (or_raise (get_review_queue d review_queue_id) _) _ h2 in
      let (u2, h4, owned) =
        returned-bind (raise_if (not (q.organization_id == o.organization_id)) _) _ h3 in
      let (m, h5, joined) =
        returned-bind (or_raise (get_membership d o.organization_id user_id) _) _ h4 in
      let (u3, h6, may) =
        returned-bind (raise_if (not (has_capability m.role capability)) _) _ h5 in
      let row : get_organization d organization_id ≡ some o = or_raise-some _ _ known in
      let queue_row : get_review_queue d review_queue_id ≡ some q = or_raise-some _ _ queued in
      let o_named : o.organization_id ≡ organization_id = named_organization o row in
      let q_named : q.review_queue_id ≡ review_queue_id = named_queue q queue_row in
      record {
        organization = o;
        queue = q;
        membership = m;
        organization_known = row;
        organization_active = raise_if-false (is_active o.status) _ u1 live;
        queue_known = queue_row;
        queue_owned =
            (eq_iff q.organization_id o.organization_id).0 (raise_if-false _ _ u2 owned) ∙ o_named;
        member =
            subst (λ w. get_membership d w user_id ≡ some m) o_named (or_raise-some _ _ joined);
        allowed = raise_if-false (has_capability m.role capability) _ u3 may;
        scoped = sym (ok-injective h6) ∙ cc (o_named, q_named);
      }

  granting :
      (scope : TenantScope)
      → IsGranted d user_id organization_id review_queue_id capability scope
      → authorize d user_id organization_id review_queue_id capability ≡ ok scope
  unfolding authorize
  granting scope g =
      let o_named : g.organization.organization_id ≡ organization_id =
        named_organization g.organization g.organization_known in
      let q_named : g.queue.review_queue_id ≡ review_queue_id = named_queue g.queue g.queue_known in
      let owned : (g.queue.organization_id == g.organization.organization_id) ≡ true =
        (eq_iff g.queue.organization_id g.organization.organization_id).1
          (g.queue_owned ∙ sym o_named) in
      let member : get_membership d g.organization.organization_id user_id ≡ some g.membership =
        subst (λ w. get_membership d w user_id ≡ some g.membership) (sym o_named) g.member in
      simp (g.organization_known, g.organization_active, g.queue_known, owned, member, g.allowed)
        (ap ok (cc (o_named, q_named, g.scoped)))

  -- A scope is granted exactly where the organization is known and active, the queue is its own, and
  -- the user's membership in it has a role with the capability.
  pub authorize-IsGranted :
      (scope : TenantScope)
      → (authorize d user_id organization_id review_queue_id capability ≡ ok scope)
        ↔ IsGranted d user_id organization_id review_queue_id capability scope
  authorize-IsGranted scope = (granted scope, granting scope)

  -- Someone without a membership in the organization is told that the scope is not visible, whatever
  -- exists and whatever is asked for.
  pub authorize-outsider :
      get_membership d organization_id user_id ≡ none
      → (reason : String) × (authorize d user_id organization_id review_queue_id capability
          ≡ err (scope_not_visible reason))
  unfolding authorize
  authorize-outsider stranger = elim (Option-cases (get_organization d organization_id)) [
    | inl unknown ↦ ("unknown organization", rw unknown refl)
    | inr (o, known) ↦ elim (Bool-cases (is_active o.status)) [
      | inr suspended ↦ ("organization is SUSPENDED", rw known (rw suspended refl))
      | inl live ↦ elim (Option-cases (get_review_queue d review_queue_id)) [
        | inl no_queue ↦ ("unknown review queue", rw known (rw live (rw no_queue refl)))
        | inr (q, queued) ↦ elim (Bool-cases (q.organization_id == o.organization_id)) [
          | inr foreign ↦ (
            "review queue belongs to another organization",
            rw known (rw live (rw queued (rw foreign refl))),
          )
          | inl owned ↦
              let nobody : get_membership d o.organization_id user_id ≡ none =
                subst (λ w. get_membership d w user_id ≡ none) (sym (named_organization o known))
                  stranger in
              (
                "no membership in this organization",
                rw known (rw live (rw queued (rw owned (rw nobody refl)))),
              )
        ]
      ]
    ]
  ]
