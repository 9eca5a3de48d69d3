-- ===== src/Authz/Client.antt =====
-- packages/authz/src/client.ts: the typed helpers, over the tuples of the in-memory store. Each
-- helper is the primitive that it calls with the object types and relation names of the platform.
pub mod Roles
pub mod Revocation
use ai_de.Common.{String, Bool, Option, none, some, List, [], ◌∷◌}
use ai_de.Authz.{
  Tuple, SubjectRef, CheckRequest, RelationshipUpdate, RelationshipFilter, touch, check,
}
use ai_de.Authz.Store.{WriteOutcome, write_relationships, delete_relationships, lookup_resources}

-- packages/authz/src/schema.ts
pub data EngagementRole : Type 0 where
  viewer member admin : EngagementRole

pub data TenantRole : Type 0 where
  tenant_member tenant_admin : TenantRole

abbrev pub role_name : EngagementRole → String
role_name viewer = "viewer"
role_name member = "member"
role_name admin = "admin"

abbrev pub tenant_role_name : TenantRole → String
tenant_role_name tenant_member = "member"
tenant_role_name tenant_admin = "admin"

-- `subj`
abbrev pub subj : String → SubjectRef
subj user = record { type = "user"; id = user; relation = none }

abbrev pub request : String → String → String → String → CheckRequest
request user permission type id = record {
  subject = subj user;
  permission = permission;
  resource_type = type;
  resource_id = id;
}

pub can_view_engagement : List Tuple → String → String → Option Bool
can_view_engagement tuples user engagement =
    check tuples (request user "view" "engagement" engagement)

pub can_contribute_to_engagement : List Tuple → String → String → Option Bool
can_contribute_to_engagement tuples user engagement =
    check tuples (request user "contribute" "engagement" engagement)

pub can_administer_engagement : List Tuple → String → String → Option Bool
can_administer_engagement tuples user engagement =
    check tuples (request user "administer" "engagement" engagement)

pub can_administer_tenant : List Tuple → String → String → Option Bool
can_administer_tenant tuples user tenant = check tuples (request user "administer" "tenant" tenant)

pub is_tenant_member : List Tuple → String → String → Option Bool
is_tenant_member tuples user tenant = check tuples (request user "belong" "tenant" tenant)

pub list_viewable_engagements : List Tuple → String → List String
list_viewable_engagements tuples user = lookup_resources tuples (subj user) "view" "engagement"

-- The tuple of a role, with a subject that has no sub-relation.
abbrev pub role_tuple : String → String → String → String → String → Tuple
role_tuple type id relation subject_type subject_id = record {
  resource_type = type;
  resource_id = id;
  relation = relation;
  subject_type = subject_type;
  subject_id = subject_id;
  subject_relation = none;
}

abbrev touching : Tuple → List RelationshipUpdate
touching t = record { operation = touch; tuple = t } ∷ []

pub grant_engagement_role :
    String → String → EngagementRole → List Tuple → List Tuple × WriteOutcome
grant_engagement_role user engagement role =
    write_relationships (touching (role_tuple "engagement" engagement (role_name role) "user" user))

abbrev pub roles_of : String → String → String → RelationshipFilter
roles_of type id user = record {
  resource_type = type;
  resource_id = some id;
  relation = none;
  subject = some (record { type = "user"; id = some user; relation = none });
}

pub revoke_engagement_roles : String → String → List Tuple → List Tuple
revoke_engagement_roles user engagement =
    delete_relationships (roles_of "engagement" engagement user)

pub grant_tenant_role : String → String → TenantRole → List Tuple → List Tuple × WriteOutcome
grant_tenant_role user tenant role =
    write_relationships (touching (role_tuple "tenant" tenant (tenant_role_name role) "user" user))

pub revoke_tenant_roles : String → String → List Tuple → List Tuple
revoke_tenant_roles user tenant = delete_relationships (roles_of "tenant" tenant user)

pub link_engagement_to_tenant : String → String → List Tuple → List Tuple × WriteOutcome
link_engagement_to_tenant engagement tenant =
    write_relationships
      (touching (role_tuple "engagement" engagement "parent_tenant" "tenant" tenant))
