-- ===== src/Samples/Tenants.antt =====
-- Two organizations, one member and one outsider.
use ai_data_quality_platform.Base.{String, [], ◌∷◌, ◌≡◌, ◌↔◌, refl, ok, err}
use ai_data_quality_platform.ReviewApi.Tenancy.{
  MembershipRole, OrganizationStatus, Organization, Capability, scope_not_visible, TenantScope,
  TenantDirectory, authorize, get_membership,
}
use ai_data_quality_platform.ReviewApi.Tenancy.Access.{
  IsGranted, authorize-IsGranted, authorize-outsider,
}

abbrev organization : String → OrganizationStatus → Organization
organization id status = record {
  organization_id = id;
  slug = id;
  display_name = id;
  status = status;
  created_at_utc = "2026-01-01T00:00:00Z";
}

abbrev directory : TenantDirectory
directory = record {
  organizations =
      organization "ORG-1" OrganizationStatus.active
      ∷ organization "ORG-2" OrganizationStatus.suspended
      ∷ [];
  queues =
      record {
        review_queue_id = "RQ-1";
        organization_id = "ORG-1";
        name = "default";
        created_at_utc = "2026-01-01T00:00:00Z";
      }
      ∷ [];
  memberships =
      record {
        membership_id = "MEM-1";
        organization_id = "ORG-1";
        user_id = "USR-1";
        role = MembershipRole.reviewer;
        created_at_utc = "2026-01-01T00:00:00Z";
      }
      ∷ [];
}

abbrev scope : TenantScope
scope = record {
  user_id = "USR-1";
  organization_id = "ORG-1";
  review_queue_id = "RQ-1";
  role = MembershipRole.reviewer;
  capability = Capability.resolve_review_case;
}

reviewer_resolves :
    authorize directory "USR-1" "ORG-1" "RQ-1" Capability.resolve_review_case ≡ ok scope
unfolding authorize
reviewer_resolves = refl

authorize-IsGranted_example :
    (authorize directory "USR-1" "ORG-1" "RQ-1" Capability.resolve_review_case ≡ ok scope)
    ↔ IsGranted directory "USR-1" "ORG-1" "RQ-1" Capability.resolve_review_case scope
authorize-IsGranted_example =
    authorize-IsGranted directory "USR-1" "ORG-1" "RQ-1" Capability.resolve_review_case scope

authorize-outsider_example :
    (reason : String) × (authorize directory "USR-2" "ORG-1" "RQ-1" Capability.read_review_queue
      ≡ err (scope_not_visible reason))
unfolding get_membership
authorize-outsider_example =
    authorize-outsider directory "USR-2" "ORG-1" "RQ-1" Capability.read_review_queue refl
