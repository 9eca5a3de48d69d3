-- ===== src/Graph/Persist.antt =====
-- packages/identity/src/persist-graph.ts and sync-seam.ts: the canonical records of one artifact are
-- written to the graph, in the transaction that landed its source. The scan for fuzzy match
-- candidates (candidates.ts, scores in floating point) only reads the graph and writes the review
-- queue: it is an argument, which says how many pairs it enqueued. So are `normalize` and
-- `detectStatusChange`, which each connector brings.
use ai_de.Common.{
  ℕ, ◌+◌, String, Bool, true, false, ◌&&◌, Option, none, some, List, [], ◌∷◌, ◌++◌, if◌then◌else◌,
  or_else,
}
use ai_de.Identity.Refs.{ExternalRef, Normalizers}
use ai_de.Graph.{
  EntityType, person, organization, work_item, document, meeting, CanonicalEntity, Attributes,
  Graph, Cipher, Ids, Scope, Result, ok, err, EdgeRow, UpsertEntityResult, upsert_entity_by_ref,
  insert_status_change_fact,
}
use ai_de.Graph.Edges.{Endpoint, upsert_relationship, resolve_endpoint_ref}
use ai_de.Graph.Resolve.{resolve_entity}

pub record CanonicalRelationship : Type 0 where
  pub from : ExternalRef
  pub predicate : String
  pub to : ExternalRef

pub data CanonicalRecord : Type 0 where
  entity_record : CanonicalEntity → CanonicalRecord
  relationship_record : CanonicalRelationship → CanonicalRecord

pub record StatusChange : Type 0 where
  pub summary : String
  pub body : Option String
  pub occurred_at : String

pub record Tally : Type 0 where
  pub entities_resolved : ℕ
  pub entities_upserted : ℕ
  pub relationships_upserted : ℕ
  pub relationships_deferred : ℕ
  pub match_candidates_queued : ℕ
  pub facts_synthesized : ℕ
  pub new_work_item_entity_ids : List String

-- `ZERO_TALLY`
abbrev pub zero_tally : Tally
zero_tally = record {
  entities_resolved = 0;
  entities_upserted = 0;
  relationships_upserted = 0;
  relationships_deferred = 0;
  match_candidates_queued = 0;
  facts_synthesized = 0;
  new_work_item_entity_ids = [];
}

-- `addTally`
abbrev pub add_tally : Tally → Tally → Tally
add_tally a b = record {
  entities_resolved = a.entities_resolved + b.entities_resolved;
  entities_upserted = a.entities_upserted + b.entities_upserted;
  relationships_upserted = a.relationships_upserted + b.relationships_upserted;
  relationships_deferred = a.relationships_deferred + b.relationships_deferred;
  match_candidates_queued = a.match_candidates_queued + b.match_candidates_queued;
  facts_synthesized = a.facts_synthesized + b.facts_synthesized;
  new_work_item_entity_ids = a.new_work_item_entity_ids ++ b.new_work_item_entity_ids;
}

-- What runs in the transaction, with the tally of the run.
pub record Run : Type 0 where
  pub graph : Graph
  pub tally : Tally

abbrev pub has_identity : EntityType → Bool
has_identity person = true
has_identity organization = true
has_identity work_item = false
has_identity document = false
has_identity meeting = false

abbrev pub is_work_item : EntityType → Bool
is_work_item work_item = true
is_work_item _ = false

-- What the run is given: the tools of the transaction, the connector, and the source.
pub record Setting : Type 0 where
  pub normalizers : Normalizers
  pub cipher : Cipher
  pub ids : Ids
  pub scope : Scope
  pub scan : String → Graph → ℕ
  pub detect : Option (Attributes → CanonicalEntity → Option StatusChange)
  pub source_id : String

module _ (s : Setting) where
  -- One record of `resolveNormalizedRecords`.
  unfoldable pub resolve_record : CanonicalRecord → Run → Result Run
  resolve_record (relationship_record r) run = ok run
  resolve_record (entity_record e) run =
      if has_identity e.type
      then elim (resolve_entity s.normalizers s.cipher s.ids s.scope e run.graph) [
        | err x ↦ err x
        | ok p ↦
            let (resolved, g) = p in
            ok (record {
              graph = g;
              tally = record run.tally {
                entities_resolved = run.tally.entities_resolved + 1;
                match_candidates_queued =
                    run.tally.match_candidates_queued + s.scan resolved.entity_id g;
              };
            })
      ]
      else ok run

  -- The transition of a row that existed, if the connector sees one.
  abbrev pub detected : UpsertEntityResult → CanonicalEntity → Option StatusChange
  detected u e =
      if u.created
      then none
      else elim s.detect [ none ↦ none | some f ↦ f (or_else u.previous_attributes []) e ]

  -- The tally of an upsert.
  abbrev pub counted : UpsertEntityResult → CanonicalEntity → Tally → Tally
  counted u e t = record t {
    entities_upserted = t.entities_upserted + 1;
    new_work_item_entity_ids =
        if u.created && is_work_item e.type
        then t.new_work_item_entity_ids ++ u.entity_id ∷ []
        else t.new_work_item_entity_ids;
  }

  unfoldable pub after_upsert : UpsertEntityResult → CanonicalEntity → Graph → Tally → Run
  after_upsert u e g t = elim (detected u e) [
    | none ↦ record { graph = g; tally = counted u e t }
    | some change ↦ record {
      graph =
          insert_status_change_fact s.cipher s.ids s.scope change.summary change.body
            change.occurred_at s.source_id g;
      tally = record (counted u e t) { facts_synthesized = t.facts_synthesized + 1 };
    }
  ]

  -- One record of the second loop.
  unfoldable pub upsert_record : CanonicalRecord → Run → Result Run
  upsert_record (relationship_record r) run = ok run
  upsert_record (entity_record e) run =
      if has_identity e.type
      then ok run
      else elim (upsert_entity_by_ref s.cipher s.ids s.scope e run.graph) [
        | err x ↦ err x
        | ok p ↦ let (u, g) = p in ok (after_upsert u e g run.tally)
      ]

  abbrev pub edge_of : CanonicalRelationship → Endpoint → Endpoint → EdgeRow
  edge_of r from to = record {
    tenant_id = s.scope.tenant_id;
    engagement_id = s.scope.engagement_id;
    from_kind = from.kind;
    from_id = from.id;
    predicate = r.predicate;
    to_kind = to.kind;
    to_id = to.id;
    source_id = some s.source_id;
    confidence = none;
  }

  abbrev pub deferred : Run → Run
  deferred run = record run {
    tally = record run.tally { relationships_deferred = run.tally.relationships_deferred + 1 };
  }

  unfoldable pub connect : EdgeRow → Run → Run
  connect e run =
      let (inserted, g) = upsert_relationship e run.graph in
      record {
        graph = g;
        tally =
            if inserted
            then record run.tally { relationships_upserted = run.tally.relationships_upserted + 1 }
            else run.tally;
      }

  -- One record of the third loop.
  unfoldable pub relate_record : CanonicalRecord → Run → Result Run
  relate_record (entity_record e) run = ok run
  relate_record (relationship_record r) run =
      elim (resolve_endpoint_ref s.ids s.scope r.from run.graph) [
        | none ↦ ok (deferred run)
        | some from ↦ elim (resolve_endpoint_ref s.ids s.scope r.to run.graph) [
          | none ↦ ok (deferred run)
          | some to ↦ ok (connect (edge_of r from to) run)
        ]
      ]

-- A loop over the records, ended by a throw.
unfoldable pub each : (CanonicalRecord → Run → Result Run) → List CanonicalRecord → Run → Result Run
each step [] run = ok run
each step (r ∷ rs) run = elim (step r run) [ ok next ↦ each step rs next | err x ↦ err x ]

infixl 5 ◌>>=◌
abbrev pub ◌>>=◌ : Result Run → (Run → Result Run) → Result Run
ok run >>= f = f run
err x >>= f = err x

-- `persistGraph`
unfoldable pub persist_graph : Setting → List CanonicalRecord → Graph → Result Run
persist_graph s records g =
    each (resolve_record s) records (record { graph = g; tally = zero_tally })
    >>= (λ run. each (upsert_record s) records run)
    >>= (λ run. each (relate_record s) records run)
