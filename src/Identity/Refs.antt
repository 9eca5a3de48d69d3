-- ===== src/Identity/Refs.antt =====
-- packages/identity/src/matching.ts: the references of an entity to systems of origin, and the keys
-- that identify it. The text functions of the language and of normalize.ts, which fold Unicode, are
-- parameters. A `Set` of reference keys is a list of references: `refKey` writes both fields as JSON,
-- so two keys are equal when the references are.
pub mod Laws
pub mod Keys
use ai_de.Common.{
  ℕ, String, Bool, true, false, ◌&&◌, Option, none, some, List, [], ◌∷◌, ◌++◌, any, filter, str_eq,
  if◌then◌else◌, leb,
}

pub record ExternalRef : Type 0 where
  pub connector : String
  pub external_id : String

-- `trim`, `normalizeEmail` and `normalizeDomain`
pub record Normalizers : Type 0 where
  pub trim : String → String
  pub email : String → String
  pub domain : String → String

abbrev pub identity_ref_email : String
identity_ref_email = "fde:email"

abbrev pub identity_ref_sso : String
identity_ref_sso = "fde:sso"

abbrev pub identity_ref_domain : String
identity_ref_domain = "fde:domain"

-- equality of `refKey`
abbrev pub same_ref : ExternalRef → ExternalRef → Bool
same_ref a b = str_eq a.connector b.connector && str_eq a.external_id b.external_id

-- `seen.has(refKey(r))`
abbrev pub has : ExternalRef → List ExternalRef → Bool
has r refs = any (same_ref r) refs

abbrev pub not_blank : ExternalRef → Option ExternalRef
not_blank r = if str_eq r.external_id "" then none else some r

-- The references of the second list that the first does not have, each once.
unfoldable pub unseen_refs : List ExternalRef → List ExternalRef → List ExternalRef
unseen_refs seen [] = []
unseen_refs seen (r ∷ rs) =
    let skipped = unseen_refs seen rs in
    let kept = r ∷ unseen_refs (r ∷ seen) rs in if has r seen then skipped else kept

module _ (n : Normalizers) where
  -- the body of the loop in `normalizeExternalRefs`; a blank id is dropped
  pub normalize_ref : ExternalRef → Option ExternalRef
  normalize_ref r =
      let id = n.trim r.external_id in
      not_blank (record {
        connector = r.connector;
        external_id =
            if str_eq r.connector identity_ref_email
            then n.email id
            else if str_eq r.connector identity_ref_domain
            then n.domain id
            else id;
      })

  pub normalized : List ExternalRef → List ExternalRef
  normalized [] = []
  normalized (r ∷ rs) = elim (normalize_ref r) [ none ↦ normalized rs | some x ↦ x ∷ normalized rs ]

  -- `normalizeExternalRefs`: what the loop adds to `out`, the first occurrence of each
  pub normalize_external_refs : List ExternalRef → List ExternalRef
  normalize_external_refs refs = unseen_refs [] (normalized refs)

  -- `unionRefs`
  pub union_refs : List ExternalRef → List ExternalRef → List ExternalRef
  union_refs a b =
      let merged = normalize_external_refs a in
      merged ++ unseen_refs merged (normalize_external_refs b)

  -- `sharesExactRef`
  pub shares_exact_ref : List ExternalRef → List ExternalRef → Bool
  shares_exact_ref a b = any (λ r. has r (normalize_external_refs a)) (normalize_external_refs b)
