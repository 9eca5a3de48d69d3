-- ===== src/Identity/ReviewQueue.antt =====
-- packages/identity/src/review-queue.ts: a reviewer's decision on a pair of entities that may be one.
-- The tables hold the columns that the code reads and writes, and a query sees the rows of the tenant.
-- A throw leaves the tables to the rollback of the caller's transaction. Deleting an entity removes
-- the queue rows that name it (the foreign keys of packages/db/src/schema/identity.ts).
pub mod Decide
pub mod Edges
pub mod Outcomes
use ai_de.Common.{
  ℕ, zero, suc, ◌+◌, String, Bool, true, false, not, ◌&&◌, ◌||◌, Option, none, some, or_else, List,
  [], ◌∷◌, ◌++◌, any, filter, find, str_eq, if◌then◌else◌,
}
use ai_de.Tenancy.{update_where}
use ai_de.Identity.Refs.{ExternalRef, Normalizers, union_refs}

pub data ReviewStatus : Type 0 where
  pending merged rejected : ReviewStatus

pub record EntityRow : Type 0 where
  pub id : String
  pub tenant_id : String
  pub engagement_id : String
  pub external_refs : List ExternalRef
  pub updated_at : ℕ

pub record QueueRow : Type 0 where
  pub id : String
  pub tenant_id : String
  pub entity_a_id : String
  pub entity_b_id : String
  pub status : ReviewStatus
  pub decided_by : Option String
  pub decided_at : Option ℕ

pub record Edge : Type 0 where
  pub tenant_id : String
  pub engagement_id : String
  pub from_kind : String
  pub from_id : String
  pub predicate : String
  pub to_kind : String
  pub to_id : String
  pub source_id : Option String
  pub confidence : Option String

pub data Decision : Type 0 where
  merge reject : Decision

-- the access-log row of a decision: who, what, and how many edges were moved
pub record LogEntry : Type 0 where
  pub tenant_id : String
  pub engagement_id : Option String
  pub actor_id : String
  pub resource_id : String
  pub decision : Decision
  pub moved : ℕ

pub record Db : Type 0 where
  pub entities : List EntityRow
  pub queue : List QueueRow
  pub edges : List Edge
  pub log : List LogEntry

pub data Error : Type 0 where
  row_not_found row_decided not_of_pair side_missing cross_engagement : Error

-- `ApplyMatchDecisionResult`
pub record Decided : Type 0 where
  pub decision : Decision
  pub status : ReviewStatus
  pub kept : Option String
  pub merged : Option String
  pub moved : ℕ

pub data Result : Type 0 where
  ok : Decided → Result
  err : Error → Result

-- `relationships_edge_uq`
unfoldable pub same_key : Edge → Edge → Bool
same_key a b =
    str_eq a.from_kind b.from_kind
    && (str_eq a.from_id b.from_id
        && (str_eq a.predicate b.predicate
            && (str_eq a.to_kind b.to_kind && str_eq a.to_id b.to_id)))

-- `touchesFrom`
unfoldable pub is_end : String → Edge → Bool
is_end from e =
    (str_eq e.from_kind "entity" && str_eq e.from_id from)
    || (str_eq e.to_kind "entity" && str_eq e.to_id from)

-- `touchesFrom` among the rows of the tenant
unfoldable pub touches : String → String → Edge → Bool
touches tenant from e = str_eq e.tenant_id tenant && is_end from e

abbrev pub moved_id : String → String → String → String → String
moved_id from to kind id = if str_eq kind "entity" && str_eq id from then to else id

-- the values that the loop inserts for an edge: the confidence is not among them, so it is null
unfoldable pub moved_edge : String → String → String → Edge → Edge
moved_edge tenant from to e = record {
  tenant_id = tenant;
  engagement_id = e.engagement_id;
  from_kind = e.from_kind;
  from_id = moved_id from to e.from_kind e.from_id;
  predicate = e.predicate;
  to_kind = e.to_kind;
  to_id = moved_id from to e.to_kind e.to_id;
  source_id = e.source_id;
  confidence = none;
}

unfoldable pub is_self_edge : Edge → Bool
is_self_edge e = str_eq e.from_kind e.to_kind && str_eq e.from_id e.to_id

-- one round of the loop: a loop edge is dropped, and a key of the table is a conflict
unfoldable pub insert_one : Edge → List Edge × ℕ → List Edge × ℕ
insert_one e (table, moved) =
    if is_self_edge e || any (same_key e) table
    then (table, moved)
    else (table ++ e ∷ [], suc moved)

-- the loop of `repointEntityEdges`, with the edges of the table and the number moved so far
unfoldable pub insert_moved : List Edge → List Edge × ℕ → List Edge × ℕ
insert_moved [] acc = acc
insert_moved (e ∷ es) acc = insert_moved es (insert_one e acc)

unfoldable pub moved_edges : String → String → String → List Edge → List Edge
moved_edges tenant from to [] = []
moved_edges tenant from to (e ∷ es) =
    let rest = moved_edges tenant from to es in
    if touches tenant from e then moved_edge tenant from to e ∷ rest else rest

-- `repointEntityEdges`: recreate, then delete
unfoldable pub repoint_entity_edges : String → String → String → List Edge → List Edge × ℕ
repoint_entity_edges tenant from to edges =
    let (all_edges, moved) = insert_moved (moved_edges tenant from to edges) (edges, 0) in
    (filter (λ e. not (touches tenant from e)) all_edges, moved)
