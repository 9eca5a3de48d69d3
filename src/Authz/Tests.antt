-- ===== src/Authz/Tests.antt =====
-- Examples: a tenant with an administrator, and an engagement of the tenant with a viewer.
use ai_de.Common.{◌≡◌, ◌↔◌, refl, Bool, true, false, some, List, [], ◌∷◌, arith, Memᴰ}
use ai_de.Authz.{Tuple, RelationshipUpdate, create, touch, delete, check, is_on}
use ai_de.Authz.Store.{
  written, already_exists, write_one, write_relationships, lookup_resources, holds_tuple,
  same_tuple, remove_first,
}
use ai_de.Authz.Client.{
  viewer, subj, request, role_tuple, can_view_engagement, can_contribute_to_engagement,
  can_administer_engagement, grant_engagement_role, revoke_engagement_roles,
}
use ai_de.Authz.Grants.{Grants, IsWellFormed}
use ai_de.Authz.Decides.{check_decides}
use ai_de.Authz.Store.Writes.{IsDistinct, updated_set, write_relationships_lem}
use ai_de.Authz.Store.Lookup.{asked, mem-lookup_resources}
use ai_de.Authz.Client.Roles.{grant_engagement_role-view}
use ai_de.Authz.Client.Revocation.{revoke_engagement_roles_lem}

abbrev alice_admin : Tuple
alice_admin = role_tuple "tenant" "t1" "admin" "user" "alice"

abbrev parent : Tuple
parent = role_tuple "engagement" "e1" "parent_tenant" "tenant" "t1"

abbrev bob_viewer : Tuple
bob_viewer = role_tuple "engagement" "e1" "viewer" "user" "bob"

abbrev store : List Tuple
store = alice_admin ∷ parent ∷ bob_viewer ∷ []

store-IsWellFormed : IsWellFormed store
store-IsWellFormed = ground arith

check_decides_example :
    (b : Bool) × (check store (request "alice" "view" "engagement" "e1") ≡ some b)
    × ((b ≡ true) ↔ Grants store (subj "alice") "engagement" "e1" "view")
check_decides_example =
    check_decides store (request "alice" "view" "engagement" "e1") store-IsWellFormed (ground arith)

-- The administrator of the tenant sees the engagement, the viewer does not contribute to it, and a
-- cycle of subject sets ends.
check_alice : check store (request "alice" "view" "engagement" "e1") ≡ some true
unfolding check
check_alice = refl

check_bob : check store (request "bob" "contribute" "engagement" "e1") ≡ some false
unfolding check
check_bob = refl

abbrev cycle : List Tuple
cycle =
    record {
      resource_type = "engagement";
      resource_id = "e2";
      relation = "viewer";
      subject_type = "engagement";
      subject_id = "e2";
      subject_relation = some "view";
    }
    ∷ []

check-cycle : check cycle (request "bob" "view" "engagement" "e2") ≡ some false
unfolding check
check-cycle = refl

mem-lookup_resources_example :
    Memᴰ "e1" (lookup_resources store (subj "bob") "view" "engagement")
    ↔ (check store (asked (subj "bob") "view" "engagement" "e1") ≡ some true)
mem-lookup_resources_example =
    mem-lookup_resources store (subj "bob") "view" "engagement" "e1" store-IsWellFormed
      (ground arith)

store-IsDistinct : IsDistinct store
unfolding holds_tuple same_tuple
store-IsDistinct = ground arith

abbrev batch : List RelationshipUpdate
batch =
    record { operation = delete; tuple = bob_viewer }
    ∷ record { operation = create; tuple = parent }
    ∷ record { operation = touch; tuple = bob_viewer }
    ∷ []

-- The batch fails at its second write, and the first one stays.
write_batch : write_relationships batch store ≡ (alice_admin ∷ parent ∷ [], already_exists parent)
unfolding write_relationships write_one holds_tuple same_tuple remove_first
write_batch = refl

write_relationships_lem_example :
    let (next, outcome) = write_relationships batch store in
    let (set, expected) = updated_set batch (λ t. holds_tuple t store) in
    (outcome ≡ expected) × ((t : Tuple) → holds_tuple t next ≡ set t) × IsDistinct next
write_relationships_lem_example = write_relationships_lem batch store store-IsDistinct

grant_engagement_role-view_example :
    let (next, outcome) = grant_engagement_role "carol" "e1" viewer store in
    (outcome ≡ written) × (can_view_engagement next "carol" "e1" ≡ some true)
grant_engagement_role-view_example =
    grant_engagement_role-view store "carol" "e1" viewer store-IsWellFormed (ground arith)
      (ground arith)

revoke_engagement_roles_lem_example :
    let left = revoke_engagement_roles "bob" "e1" store in
    (can_contribute_to_engagement left "bob" "e1" ≡ some false)
    × (can_administer_engagement left "bob" "e1" ≡ some false)
    × (can_view_engagement left "bob" "e1" ≡ some true
        → (t : Tuple) × Memᴰ t store
          × (is_on "engagement" "e1" "parent_tenant" t ≡ true)
          × Grants left (subj "bob") t.subject_type t.subject_id "administer")
revoke_engagement_roles_lem_example =
    revoke_engagement_roles_lem store "bob" "e1" store-IsWellFormed (ground arith) (ground arith)
