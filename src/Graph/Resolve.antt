-- ===== src/Graph/Resolve.antt =====
-- packages/identity/src/resolve-entity.ts: the upsert of a person or an organisation, by the tiers
-- of its keys.
use ai_de.Common.{
  ℕ, suc, ◌==◌, String, Bool, true, false, Option, none, some, List, [], ◌∷◌, ◌++◌, any, filter,
  map, if◌then◌else◌, str_eq, ◌&&◌,
}
use ai_de.Tenancy.{update_where}
use ai_de.Identity.Refs.{ExternalRef, Normalizers, normalize_external_refs, union_refs}
use ai_de.Identity.Refs.Keys.{DeterministicKey, deterministic_keys}
use ai_de.Graph.{
  CanonicalEntity, NodeRow, Attributes, Graph, Cipher, Ids, Scope, Result, ok, err, cannot_open,
  type_name, limit_one, matches, merge_attributes, seal_body, filled_body, new_row,
}

-- `[...new Set(keys.map((k) => k.tier))]`
unfoldable pub tiers : List ℕ → List DeterministicKey → List ℕ
tiers seen [] = []
tiers seen (k ∷ ks) =
    let skipped = tiers seen ks in
    let kept = k.tier ∷ tiers (k.tier ∷ seen) ks in
    if any (λ t. t == k.tier) seen then skipped else kept

abbrev pub keys_of_tier : ℕ → List DeterministicKey → List ExternalRef
keys_of_tier t keys = map (λ (k : DeterministicKey). k.ref) (filter (λ k. k.tier == t) keys)

-- A hit and the tier of its key.
pub record Hit : Type 0 where
  pub row : NodeRow
  pub tier : ℕ

pub record ResolveEntityResult : Type 0 where
  pub entity_id : String
  pub created : Bool
  pub matched_by : Option ℕ

module _ (n : Normalizers) (cipher : Cipher) (ids : Ids) (c : Scope) where
  -- The loop over the tiers: the first tier with a hit wins.
  unfoldable pub first_hit : CanonicalEntity → List DeterministicKey → List ℕ → Graph → Option Hit
  first_hit e keys [] g = none
  first_hit e keys (t ∷ ts) g =
      let rest = first_hit e keys ts g in
      elim (limit_one ids (matches c e.type (keys_of_tier t keys)) g) [
        | some row ↦ some (record { row = row; tier = t })
        | none ↦ rest
      ]

  -- The row that the UPDATE selects: by tenant and id.
  abbrev pub is_resolved_row : String → NodeRow → Bool
  is_resolved_row id row = str_eq row.tenant_id c.tenant_id && str_eq row.id id

  abbrev pub resolved_row : NodeRow → Attributes → CanonicalEntity → ℕ → NodeRow → NodeRow
  resolved_row hit existing e draw row = record row {
    external_refs = union_refs n hit.external_refs (normalize_external_refs n e.external_refs);
    attributes = cipher.seal_json draw (merge_attributes existing e.attributes);
    body = filled_body hit.body (seal_body cipher draw e.body) row.body;
    updated_at = c.now;
  }

  unfoldable pub resolve_hit : CanonicalEntity → Hit → Graph → Result (ResolveEntityResult × Graph)
  resolve_hit e h g = elim (cipher.open_json h.row.attributes) [
    | none ↦ err cannot_open
    | some existing ↦ ok (
      record { entity_id = h.row.id; created = false; matched_by = some h.tier },
      record g {
        entities =
            update_where (is_resolved_row h.row.id) (resolved_row h.row existing e g.draws)
              g.entities;
        draws = suc g.draws;
      },
    )
  ]

  unfoldable pub insert_resolved : CanonicalEntity → Graph → ResolveEntityResult × Graph
  insert_resolved e g = (
    record { entity_id = ids.new_id g.draws; created = true; matched_by = none },
    record g {
      entities =
          g.entities
          ++ new_row cipher ids c (normalize_external_refs n e.external_refs) e g.draws ∷ [];
      draws = suc g.draws;
    },
  )

  -- `resolveEntity`
  unfoldable pub resolve_entity : CanonicalEntity → Graph → Result (ResolveEntityResult × Graph)
  resolve_entity e g =
      let keys = deterministic_keys n (type_name e.type) e.external_refs in
      elim (first_hit e keys (tiers [] keys) g) [
        | some h ↦ resolve_hit e h g
        | none ↦ ok (insert_resolved e g)
      ]
