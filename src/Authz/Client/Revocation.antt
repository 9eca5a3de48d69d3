-- ===== src/Authz/Client/Revocation.antt =====
-- Revoking the roles of a user on an engagement.
use ai_de.Common.{
  String, ◌≡◌, subst, ◌↔◌, true, false, not, none, some, List, Memᴰ, arith, All, All-intro, All-mem,
  mem-filter_iff, Lacks,
}
use ai_de.Authz.{Tuple, Rule, rel, arrow, rules, subject_set, is_on, is_subject}
use ai_de.Authz.Grants.{Grants, direct, through_set, through_arrow, IsPlain, IsWellFormed}
use ai_de.Authz.Decides.{check-true, check-false}
use ai_de.Authz.Store.{matches_filter, delete_relationships}
use ai_de.Authz.Client.{
  subj, request, roles_of, can_view_engagement, can_contribute_to_engagement,
  can_administer_engagement, revoke_engagement_roles,
}

-- The platform-role schema has no subject sets.
abbrev pub HasNoSets : List Tuple → Type 0
HasNoSets tuples = All (λ t. subject_set t ≡ none) tuples

mem-revoke_iff :
    (user engagement : String) (t : Tuple) (tuples : List Tuple)
    → Memᴰ t (revoke_engagement_roles user engagement tuples)
      ↔ (Memᴰ t tuples × (not (matches_filter t (roles_of "engagement" engagement user)) ≡ true))
unfolding revoke_engagement_roles delete_relationships
mem-revoke_iff user engagement t tuples =
    mem-filter_iff (λ x. not (matches_filter x (roles_of "engagement" engagement user))) t tuples

matches_role :
    (user engagement relation : String) (t : Tuple)
    → is_on "engagement" engagement relation t ≡ true
    → is_subject (subj user) t ≡ true
    → matches_filter t (roles_of "engagement" engagement user) ≡ true
unfolding matches_filter
matches_role user engagement relation t on hit = ground arith

abbrev IsRel : Rule → Type 0
IsRel (rel r) = Unit
IsRel (arrow r p) = ⊥

contribute-IsRel : (rs : List Rule) → rules "engagement" "contribute" ≡ some rs → All IsRel rs
unfolding rules
contribute-IsRel rs e = ground arith

administer-IsRel : (rs : List Rule) → rules "engagement" "administer" ≡ some rs → All IsRel rs
unfolding rules
administer-IsRel rs e = ground arith

abbrev IsParent : Rule → Type 0
IsParent (rel r) = Unit
IsParent (arrow r p) = (r ≡ "parent_tenant") × (p ≡ "administer")

view-IsParent : (rs : List Rule) → rules "engagement" "view" ≡ some rs → All IsParent rs
unfolding rules
view-IsParent rs e = ground arith

module _ (tuples : List Tuple) (user engagement : String) (formed : IsWellFormed tuples)
    (alone : HasNoSets tuples) (lacks : Lacks b'#' engagement) where
  abbrev after : List Tuple
  after = revoke_engagement_roles user engagement tuples

  revoked-IsWellFormed : IsWellFormed after
  revoked-IsWellFormed =
      All-intro (λ (x : Tuple). IsPlain x.subject_type x.subject_id) after
        (λ t m.
          All-mem (λ (x : Tuple). IsPlain x.subject_type x.subject_id)
            ((mem-revoke_iff user engagement t tuples).0 m).0 formed)

  no_direct :
      (relation : String) (t : Tuple)
      → Memᴰ t after
      → is_on "engagement" engagement relation t ≡ true
      → ¬ (is_subject (subj user) t ≡ true)
  no_direct relation t m on hit =
      let kept = ((mem-revoke_iff user engagement t tuples).0 m).1 in
      cc (matches_role user engagement relation t on hit, kept)

  no_set : (t : Tuple) (r : String) → Memᴰ t after → ¬ (subject_set t ≡ some r)
  no_set t r m e = cc (
    e,
    All-mem (λ (x : Tuple). subject_set x ≡ none) ((mem-revoke_iff user engagement t tuples).0 m).0
        alone,
  )

  not-Grants :
      (name : String)
      → ((rs : List Rule) → rules "engagement" name ≡ some rs → All IsRel rs)
      → ¬ Grants after (subj user) "engagement" engagement name
  not-Grants name flat (direct relation t reads m on e hit) = no_direct relation t m on hit
  not-Grants name flat (through_set relation t r reads m on e g) = no_set t r m e
  not-Grants name flat (through_arrow relation t q rs e rule m on g) =
      All-mem IsRel rule (flat rs e)

  of_parent :
      (name : String)
      → ((rs : List Rule) → rules "engagement" name ≡ some rs → All IsParent rs)
      → Grants after (subj user) "engagement" engagement name
      → (t : Tuple) × Memᴰ t tuples
        × (is_on "engagement" engagement "parent_tenant" t ≡ true)
        × Grants after (subj user) t.subject_type t.subject_id "administer"
  of_parent name parents (direct relation t reads m on e hit) =
      absurd (no_direct relation t m on hit)
  of_parent name parents (through_set relation t r reads m on e g) = absurd (no_set t r m e)
  of_parent name parents (through_arrow relation t q rs e rule m on g) =
      let (same, perm) = All-mem IsParent rule (parents rs e) in
      (
        t,
        ((mem-revoke_iff user engagement t tuples).0 m).0,
        subst (λ (x : String). is_on "engagement" engagement x t ≡ true) same on,
        subst (λ (x : String). Grants after (subj user) t.subject_type t.subject_id x) perm g,
      )

  -- After the roles of a user on an engagement are revoked the user may neither contribute to it
  -- nor administer it, and may view it only through a parent of the engagement on which the user
  -- still has the permission to administer; for well-formed stores with no subject sets and an
  -- engagement id with no `#`.
  pub revoke_engagement_roles_lem :
      (can_contribute_to_engagement after user engagement ≡ some false)
      × (can_administer_engagement after user engagement ≡ some false)
      × (can_view_engagement after user engagement ≡ some true
          → (t : Tuple) × Memᴰ t tuples
            × (is_on "engagement" engagement "parent_tenant" t ≡ true)
            × Grants after (subj user) t.subject_type t.subject_id "administer")
  unfolding can_contribute_to_engagement can_administer_engagement can_view_engagement
  revoke_engagement_roles_lem = (
    check-false after (request user "contribute" "engagement" engagement) revoked-IsWellFormed
        (omega arith, lacks) (not-Grants "contribute" contribute-IsRel),
    check-false after (request user "administer" "engagement" engagement) revoked-IsWellFormed
        (omega arith, lacks) (not-Grants "administer" administer-IsRel),
    λ h. of_parent "view" view-IsParent (
        (check-true after (request user "view" "engagement" engagement) revoked-IsWellFormed
            (omega arith, lacks)).0
          h),
  )
