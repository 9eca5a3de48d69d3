-- ===== src/Graph.antt =====
-- packages/db/src/graph-write.ts: the rows of the canonical graph of an engagement, and the writes
-- that a sync makes. The tables hold the columns that the code reads and writes. The sealing of
-- columns, the test and the comparison of UUIDs, and the ids and nonces that the database and the
-- cipher draw are arguments, the draws are counted. Where a query has LIMIT 1 and no order, the
-- database may return any of the rows that match. A throw leaves the tables to the rollback of the
-- caller's transaction.
mod Tests
pub mod Edges
pub mod Picked
pub mod Resolve
pub mod Persist
pub mod Persisted
pub mod Tallied
pub mod Counts
pub mod Upserts
pub mod Ends
pub mod Grows
use ai_de.Common.{
  ℕ, zero, suc, filter, String, Bool, true, false, ◌&&◌, ◌||◌, Option, none, some, is_some, List,
  [], ◌∷◌, ◌++◌, any, find, str_eq, if◌then◌else◌, Entry, map_set,
}
use ai_de.Tenancy.{update_where}
use ai_de.Identity.Refs.{ExternalRef, has, unseen_refs}

pub data EntityType : Type 0 where
  person organization work_item document meeting : EntityType

-- `types` are written as they stand in the table.
abbrev pub type_name : EntityType → String
type_name person = "person"
type_name organization = "organization"
type_name work_item = "work_item"
type_name document = "document"
type_name meeting = "meeting"

abbrev pub Attributes : Type 0
Attributes = List (Entry String)

pub record CanonicalEntity : Type 0 where
  pub type : EntityType
  pub external_refs : List ExternalRef
  pub display_name : String
  pub attributes : Attributes
  pub body : Option String

-- The columns `attributes` and `body` are sealed.
pub record NodeRow : Type 0 where
  pub id : String
  pub tenant_id : String
  pub engagement_id : String
  pub type : EntityType
  pub display_name : String
  pub external_refs : List ExternalRef
  pub attributes : String
  pub body : Option String
  pub updated_at : ℕ

pub record FactRow : Type 0 where
  pub id : String
  pub tenant_id : String
  pub engagement_id : String
  pub summary : String
  pub body : Option String
  pub occurred_at : String

pub record EvidenceRow : Type 0 where
  pub tenant_id : String
  pub engagement_id : String
  pub fact_id : String
  pub source_id : String

pub data NodeKind : Type 0 where
  entity fact : NodeKind

pub record EdgeRow : Type 0 where
  pub tenant_id : String
  pub engagement_id : String
  pub from_kind : NodeKind
  pub from_id : String
  pub predicate : String
  pub to_kind : NodeKind
  pub to_id : String
  pub source_id : Option String
  pub confidence : Option String

pub record Graph : Type 0 where
  pub entities : List NodeRow
  pub facts : List FactRow
  pub evidence : List EvidenceRow
  pub edges : List EdgeRow
  pub draws : ℕ

-- The cipher of the engagement: a column is sealed with the nonce of a draw.
pub record Cipher : Type 0 where
  pub seal_json : ℕ → Attributes → String
  pub open_json : String → Option Attributes
  pub seal_text : ℕ → String → String

-- `pick` says which of the rows that match a query with LIMIT 1 and no order is returned: its number,
-- in the graph as it stands, where a number past the end is that of the last one.
pub record Ids : Type 0 where
  pub new_id : ℕ → String
  pub is_uuid : String → Bool
  pub same_uuid : String → String → Bool
  pub pick : Graph → List NodeRow → ℕ

-- The tenant and the engagement of the transaction, and its clock.
pub record Scope : Type 0 where
  pub tenant_id : String
  pub engagement_id : String
  pub now : ℕ

-- The row of a number, the last one where there are fewer.
abbrev pub row_at {ℓ} : {A : Type ℓ} → ℕ → List A → Option A
row_at n [] = none
row_at n (x ∷ []) = some x
row_at zero (x ∷ y ∷ ys) = some x
row_at (suc n) (x ∷ y ∷ ys) = row_at n (y ∷ ys)

-- `.where(…).limit(1)` on the entities
unfoldable pub limit_one : Ids → (NodeRow → Bool) → Graph → Option NodeRow
limit_one ids p g = let rows = filter p g.entities in row_at (ids.pick g rows) rows

pub data Error : Type 0 where
  no_external_refs cannot_open : Error

pub data Result {ℓ} (A : Type ℓ) : Type ℓ where
  ok : A → Result A
  err : Error → Result A

abbrev pub same_type : EntityType → EntityType → Bool
same_type a b = str_eq (type_name a) (type_name b)

abbrev pub in_scope : Scope → NodeRow → Bool
in_scope c row = str_eq row.tenant_id c.tenant_id && str_eq row.engagement_id c.engagement_id

-- `normalizeRefs`: the first occurrence of each
abbrev pub normalize_refs : List ExternalRef → List ExternalRef
normalize_refs refs = unseen_refs [] refs

-- `unionRefs`
abbrev pub join_refs : List ExternalRef → List ExternalRef → List ExternalRef
join_refs a b = normalize_refs (a ++ b)

-- `{ ...a, ...b }`, for keys that are no array indices
unfoldable pub merge_attributes : Attributes → Attributes → Attributes
merge_attributes a [] = a
merge_attributes a (e ∷ es) = merge_attributes (map_set e.entry_key e.value a) es

abbrev pub seal_body : Cipher → ℕ → Option String → Option String
seal_body cipher n none = none
seal_body cipher n (some b) = some (cipher.seal_text n b)

-- `...(hit.body == null && enc.body != null ? { body: enc.body } : {})`: the body of a selected row,
-- from that of the row that was read and the sealed one.
abbrev pub filled_body : Option String → Option String → Option String → Option String
filled_body none (some sealed) _ = some sealed
filled_body none none kept = kept
filled_body (some _) _ kept = kept

pub record UpsertEntityResult : Type 0 where
  pub entity_id : String
  pub created : Bool
  pub previous_attributes : Option Attributes

-- A row of the scope and of the type that has one of the references.
abbrev pub matches : Scope → EntityType → List ExternalRef → NodeRow → Bool
matches c type refs row =
    in_scope c row && (same_type row.type type && any (λ r. has r row.external_refs) refs)

-- The row that an UPDATE by id selects.
abbrev pub is_hit : Scope → String → NodeRow → Bool
is_hit c id row = in_scope c row && str_eq row.id id

module _ (cipher : Cipher) (ids : Ids) (c : Scope) where
  -- The SET of the update: computed from the row that was read, for every row that is selected.
  abbrev pub merged_row :
      NodeRow → Attributes → List ExternalRef → CanonicalEntity → ℕ → NodeRow → NodeRow
  merged_row hit existing refs e n row = record row {
    external_refs = join_refs hit.external_refs refs;
    attributes = cipher.seal_json n (merge_attributes existing e.attributes);
    body = filled_body hit.body (seal_body cipher n e.body) row.body;
    updated_at = c.now;
  }

  abbrev pub new_row : List ExternalRef → CanonicalEntity → ℕ → NodeRow
  new_row refs e n = record {
    id = ids.new_id n;
    tenant_id = c.tenant_id;
    engagement_id = c.engagement_id;
    type = e.type;
    display_name = e.display_name;
    external_refs = refs;
    attributes = cipher.seal_json n e.attributes;
    body = seal_body cipher n e.body;
    updated_at = c.now;
  }

  -- A hit is merged, a miss is inserted.
  unfoldable pub merge_hit :
      List ExternalRef → CanonicalEntity → NodeRow → Graph → Result (UpsertEntityResult × Graph)
  merge_hit refs e hit g = elim (cipher.open_json hit.attributes) [
    | none ↦ err cannot_open
    | some existing ↦ ok (
      record { entity_id = hit.id; created = false; previous_attributes = some existing },
      record g {
        entities =
            update_where (is_hit c hit.id) (merged_row hit existing refs e g.draws) g.entities;
        draws = suc g.draws;
      },
    )
  ]

  unfoldable pub insert_row :
      List ExternalRef → CanonicalEntity → Graph → Result (UpsertEntityResult × Graph)
  insert_row refs e g = ok (
    record { entity_id = ids.new_id g.draws; created = true; previous_attributes = none },
    record g { entities = g.entities ++ new_row refs e g.draws ∷ []; draws = suc g.draws },
  )

  unfoldable pub upsert_refs :
      List ExternalRef → CanonicalEntity → Graph → Result (UpsertEntityResult × Graph)
  upsert_refs refs e g = elim (limit_one ids (matches c e.type refs) g) [
    | some hit ↦ merge_hit refs e hit g
    | none ↦ insert_row refs e g
  ]

  -- `upsertEntityByRef`
  unfoldable pub upsert_entity_by_ref :
      CanonicalEntity → Graph → Result (UpsertEntityResult × Graph)
  upsert_entity_by_ref e g = elim (normalize_refs e.external_refs) [
    | [] ↦ err no_external_refs
    | r ∷ rs ↦ upsert_refs (r ∷ rs) e g
  ]

  -- `insertStatusChangeFact`: the fact and its evidence
  unfoldable pub insert_status_change_fact :
      String → Option String → String → String → Graph → Graph
  insert_status_change_fact summary body occurred_at source_id g = record g {
    facts =
        g.facts
        ++ record {
          id = ids.new_id g.draws;
          tenant_id = c.tenant_id;
          engagement_id = c.engagement_id;
          summary = summary;
          body = seal_body cipher g.draws body;
          occurred_at = occurred_at;
        }
          ∷ [];
    evidence =
        g.evidence
        ++ record {
          tenant_id = c.tenant_id;
          engagement_id = c.engagement_id;
          fact_id = ids.new_id g.draws;
          source_id = source_id;
        }
          ∷ [];
    draws = suc g.draws;
  }
