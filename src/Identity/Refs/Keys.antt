-- ===== src/Identity/Refs/Keys.antt =====
-- packages/identity/src/matching.ts, `deterministicKeys`: the keys that an entity is looked up by, in
-- the order of their tiers. The stable `sort` of the language is an insertion sort.
pub mod Order
use ai_de.Common.{ℕ, String, Option, none, some, List, [], ◌∷◌, leb, str_eq, if◌then◌else◌}
use ai_de.Identity.Refs.{
  ExternalRef, Normalizers, identity_ref_email, identity_ref_sso, identity_ref_domain,
  normalize_external_refs,
}

pub record DeterministicKey : Type 0 where
  pub ref : ExternalRef
  pub tier : ℕ

-- `MATCH_TIER` of a reference; a domain identifies an organisation only
pub tier_of_ref : String → ExternalRef → Option ℕ
tier_of_ref type ref =
    if str_eq ref.connector identity_ref_email
    then some 2
    else if str_eq ref.connector identity_ref_sso
    then some 3
    else if str_eq ref.connector identity_ref_domain
    then (if str_eq type "organization" then some 4 else none)
    else some 1

-- the loop, before the sort
pub keys_of : String → List ExternalRef → List DeterministicKey
keys_of type [] = []
keys_of type (r ∷ rs) = elim (tier_of_ref type r) [
  | none ↦ keys_of type rs
  | some t ↦ record { ref = r; tier = t } ∷ keys_of type rs
]

pub insert_key : DeterministicKey → List DeterministicKey → List DeterministicKey
insert_key k [] = k ∷ []
insert_key k (x ∷ xs) =
    let later = x ∷ insert_key k xs in if leb k.tier x.tier then k ∷ x ∷ xs else later

-- `keys.sort((x, y) => x.tier - y.tier)`
pub sort_keys : List DeterministicKey → List DeterministicKey
sort_keys [] = []
sort_keys (k ∷ ks) = insert_key k (sort_keys ks)

-- `deterministicKeys`
pub deterministic_keys : Normalizers → String → List ExternalRef → List DeterministicKey
deterministic_keys n type refs = sort_keys (keys_of type (normalize_external_refs n refs))
