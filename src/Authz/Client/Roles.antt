-- ===== src/Authz/Client/Roles.antt =====
-- Granting and revoking a platform role changes what the user may do.
use ai_de.Common.{
  String, ◌≡◌, refl, ◌⊎◌, inl, inr, true, none, some, or_else, List, [], ◌∷◌, ◌++◌, Memᴰ, arith,
  str_eq_iff, All-append, Lacks, Bool-cases,
}
use ai_de.Authz.{Tuple, touch, rules, subject_set, is_on, is_subject}
use ai_de.Authz.Grants.{Reads, ruled, Grants, direct, IsPlain, IsWellFormed}
use ai_de.Authz.Decides.{check-true}
use ai_de.Authz.Store.{same_tuple, holds_tuple, written, write_one, write_relationships}
use ai_de.Authz.Store.Writes.{canonical, same_tuple_iff, holds_tuple-append}
use ai_de.Authz.Client.{
  EngagementRole, viewer, member, admin, role_name, role_tuple, subj, request, can_view_engagement,
  grant_engagement_role,
}

-- A stored relationship stands on a tuple.
holds_tuple-mem :
    (t : Tuple) (ts : List Tuple)
    → holds_tuple t ts ≡ true
    → (x : Tuple) × Memᴰ x ts × (same_tuple x t ≡ true)
unfolding holds_tuple
holds_tuple-mem t [] h = cc
holds_tuple-mem t (x ∷ ts) h = elim (Bool-cases (same_tuple x t)) [
  | inl same ↦ (x, Memᴰ.head refl, same)
  | inr other ↦ let (y, m, same) = holds_tuple-mem t ts (ground arith) in (y, Memᴰ.tail m, same)
]

engagement-view : (role : EngagementRole) → Reads "engagement" "view" (role_name role)
unfolding rules
engagement-view viewer = ruled _ refl (Memᴰ.head refl)
engagement-view member = ruled _ refl (Memᴰ.tail (Memᴰ.head refl))
engagement-view admin = ruled _ refl (Memᴰ.tail (Memᴰ.tail (Memᴰ.head refl)))

-- A stored relationship with no sub-relation, under a relation that counts, is a grant.
holds_tuple-Grants :
    (tuples : List Tuple) (user type id relation name : String)
    → Reads type name relation
    → holds_tuple (role_tuple type id relation "user" user) tuples ≡ true
    → Grants tuples (subj user) type id name
holds_tuple-Grants tuples user type id relation name reads h =
    let (t, m, same) = holds_tuple-mem (role_tuple type id relation "user" user) tuples h in
    let fields = (same_tuple_iff t (role_tuple type id relation "user" user)).0 same in
    let (on, alone, named) = role_facts t fields in direct relation t reads m on alone named
  where
    role_facts :
        (t : Tuple)
        → canonical t ≡ canonical (role_tuple type id relation "user" user)
        → (is_on type id relation t ≡ true)
          × (subject_set t ≡ none)
          × (is_subject (subj user) t ≡ true)
    role_facts t e = ground (
      arith,
      str_eq_iff t.resource_type type,
      str_eq_iff t.resource_id id,
      str_eq_iff t.relation relation,
      str_eq_iff t.subject_type "user",
      str_eq_iff t.subject_id user,
      str_eq_iff (or_else t.subject_relation "") "",
    )

-- TOUCH leaves the relationship stored, and keeps every other tuple.
touch_lem :
    (t : Tuple) (ts : List Tuple)
    → let (next, outcome) = write_relationships (record { operation = touch; tuple = t } ∷ []) ts in
      (outcome ≡ written) × (holds_tuple t next ≡ true) × ((next ≡ ts) ⊎ (next ≡ ts ++ t ∷ []))
unfolding write_relationships write_one
touch_lem t ts = ground (arith, holds_tuple-append t t ts, same_tuple_iff t t)

touch-IsWellFormed :
    (t : Tuple) (ts : List Tuple)
    → IsWellFormed ts
    → IsPlain t.subject_type t.subject_id
    → IsWellFormed (write_relationships (record { operation = touch; tuple = t } ∷ []) ts).0
touch-IsWellFormed t ts formed p = elim (touch_lem t ts).2 [
  | inl e ↦ rw e formed
  | inr e ↦
      rw e
        (All-append (λ (x : Tuple). IsPlain x.subject_type x.subject_id) ts (t ∷ []) formed (p, tt))
]

-- After a role on an engagement is granted the write has succeeded and the user may view the
-- engagement, whatever the role, for well-formed relationships and ids with no `#`.
pub grant_engagement_role-view :
    (tuples : List Tuple) (user engagement : String) (role : EngagementRole)
    → IsWellFormed tuples
    → Lacks b'#' user
    → Lacks b'#' engagement
    → let (next, outcome) = grant_engagement_role user engagement role tuples in
      (outcome ≡ written) × (can_view_engagement next user engagement ≡ some true)
unfolding grant_engagement_role can_view_engagement
grant_engagement_role-view tuples user engagement role formed lacks_user lacks_engagement =
    let t = role_tuple "engagement" engagement (role_name role) "user" user in
    let touched = touch_lem t tuples in
    (
      touched.0,
      (check-true (write_relationships (record { operation = touch; tuple = t } ∷ []) tuples).0
            (request user "view" "engagement" engagement)
            (touch-IsWellFormed t tuples formed (omega arith, lacks_user))
            (omega arith, lacks_engagement)).1
          (holds_tuple-Grants
            (write_relationships (record { operation = touch; tuple = t } ∷ []) tuples).0 user
            "engagement" engagement (role_name role) "view" (engagement-view role) touched.1),
    )
