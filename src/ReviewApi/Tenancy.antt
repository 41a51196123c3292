-- ===== src/ReviewApi/Tenancy.antt =====
-- review_api/tenancy.py: `TenantAuthorizationService.authorize` over the tables of organizations,
-- review queues and memberships (review_persistence/sqlite/tenant_repository.py). A row that is read
-- is taken as the row that was validated when it was written.
pub mod Access
use ai_data_quality_platform.Base.{
  String, Bool, true, false, not, Option, none, some, List, [], ◌∷◌, ◌&&◌, ◌==◌, if◌then◌else◌,
  Result, ok, err, ◌>>=◌, ◌>>◌, raise_if, or_raise,
}

pub data MembershipRole : Type 0 where
  reviewer viewer : MembershipRole

pub data OrganizationStatus : Type 0 where
  active suspended : OrganizationStatus

pub record Organization : Type 0 where
  pub organization_id : String
  pub slug : String
  pub display_name : String
  pub status : OrganizationStatus
  pub created_at_utc : String

pub record OrganizationMembership : Type 0 where
  pub membership_id : String
  pub organization_id : String
  pub user_id : String
  pub role : MembershipRole
  pub created_at_utc : String

pub record ReviewQueue : Type 0 where
  pub review_queue_id : String
  pub organization_id : String
  pub name : String
  pub created_at_utc : String

pub data Capability : Type 0 where
  read_review_queue resolve_review_case : Capability

-- `capability in ROLE_CAPABILITIES[role]`
unfoldable pub has_capability : MembershipRole → Capability → Bool
has_capability MembershipRole.viewer Capability.read_review_queue = true
has_capability MembershipRole.viewer Capability.resolve_review_case = false
has_capability MembershipRole.reviewer Capability.read_review_queue = true
has_capability MembershipRole.reviewer Capability.resolve_review_case = true

-- The reason is for the log of the server; every answer to such a request is the same.
pub data TenantError : Type 0 where
  scope_not_visible : String → TenantError
  capability_denied : TenantError

pub record TenantScope : Type 0 where
  pub user_id : String
  pub organization_id : String
  pub review_queue_id : String
  pub role : MembershipRole
  pub capability : Capability

-- `TenantDirectory`: the three tables.
pub record TenantDirectory : Type 0 where
  pub organizations : List Organization
  pub queues : List ReviewQueue
  pub memberships : List OrganizationMembership

-- The first row that a WHERE selects.
unfoldable pub select {ℓ} : {A : Type ℓ} → (A → Bool) → List A → Option A
select where_ [] = none
select where_ (x ∷ rows) = if where_ x then some x else select where_ rows

unfoldable pub get_organization : TenantDirectory → String → Option Organization
unfolding select
get_organization d organization_id =
    select (λ o. o.organization_id == organization_id) d.organizations

unfoldable pub get_review_queue : TenantDirectory → String → Option ReviewQueue
unfolding select
get_review_queue d review_queue_id = select (λ q. q.review_queue_id == review_queue_id) d.queues

unfoldable pub get_membership : TenantDirectory → String → String → Option OrganizationMembership
unfolding select
get_membership d organization_id user_id =
    select (λ m. m.organization_id == organization_id && m.user_id == user_id) d.memberships

unfoldable pub is_active : OrganizationStatus → Bool
is_active OrganizationStatus.active = true
is_active OrganizationStatus.suspended = false

unfoldable pub authorize :
    TenantDirectory → String → String → String → Capability → Result TenantError TenantScope
unfolding get_organization get_review_queue get_membership is_active has_capability
authorize d user_id organization_id review_queue_id capability =
    or_raise (get_organization d organization_id) (scope_not_visible "unknown organization")
    >>= λ organization.
        raise_if (not (is_active organization.status))
          (scope_not_visible "organization is SUSPENDED")
        >>= λ _.
            or_raise (get_review_queue d review_queue_id) (scope_not_visible "unknown review queue")
            >>= λ queue.
                raise_if (not (queue.organization_id == organization.organization_id))
                  (scope_not_visible "review queue belongs to another organization")
                >>= λ _.
                    or_raise (get_membership d organization.organization_id user_id)
                      (scope_not_visible "no membership in this organization")
                    >>= λ membership.
                        raise_if (not (has_capability membership.role capability)) capability_denied
                        >>= λ _. ok (record {
                          user_id = user_id;
                          organization_id = organization.organization_id;
                          review_queue_id = queue.review_queue_id;
                          role = membership.role;
                          capability = capability;
                        })
