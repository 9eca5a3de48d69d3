-- ===== src/Graph/Edges.antt =====
-- packages/db/src/graph-write.ts: the edges of the graph, kept unique by their key, and the nodes
-- that references name.
use ai_de.Common.{
  String, Bool, true, false, ◌&&◌, Option, none, some, [], ◌∷◌, ◌++◌, any, find, str_eq,
  if◌then◌else◌,
}
use ai_de.Identity.Refs.{ExternalRef, has}
use ai_de.Graph.{
  NodeKind, entity, fact, EdgeRow, NodeRow, FactRow, Graph, Ids, Scope, in_scope, limit_one,
}

abbrev pub same_kind : NodeKind → NodeKind → Bool
same_kind entity entity = true
same_kind fact fact = true
same_kind _ _ = false

-- `relationships_edge_uq`
unfoldable pub same_edge : EdgeRow → EdgeRow → Bool
same_edge a b =
    same_kind a.from_kind b.from_kind
    && (str_eq a.from_id b.from_id
        && (str_eq a.predicate b.predicate
            && (same_kind a.to_kind b.to_kind && str_eq a.to_id b.to_id)))

-- `upsertRelationship`: whether the edge was inserted
unfoldable pub upsert_relationship : EdgeRow → Graph → Bool × Graph
upsert_relationship e g =
    if any (same_edge e) g.edges then (false, g) else (true, record g { edges = g.edges ++ e ∷ [] })

pub record Endpoint : Type 0 where
  pub kind : NodeKind
  pub id : String

-- `resolveEndpointRef`
module _ (ids : Ids) (c : Scope) where
  abbrev pub has_ref : ExternalRef → NodeRow → Bool
  has_ref r row = in_scope c row && has r row.external_refs

  abbrev pub is_fact : String → FactRow → Bool
  is_fact id row =
      str_eq row.tenant_id c.tenant_id
      && (str_eq row.engagement_id c.engagement_id && ids.same_uuid row.id id)

  unfoldable pub resolve_fact : ExternalRef → Graph → Option Endpoint
  resolve_fact r g =
      if str_eq r.connector "fde" && ids.is_uuid r.external_id
      then elim (find (is_fact r.external_id) g.facts) [
        | some row ↦ some (record { kind = fact; id = row.id })
        | none ↦ none
      ]
      else none

  unfoldable pub resolve_endpoint_ref : ExternalRef → Graph → Option Endpoint
  resolve_endpoint_ref r g = elim (limit_one ids (has_ref r) g) [
    | some row ↦ some (record { kind = entity; id = row.id })
    | none ↦ resolve_fact r g
  ]
