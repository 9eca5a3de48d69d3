-- ===== src/Graph/Tests.antt =====
-- Examples: an artifact with a work item, a document and an edge between them, and an edge to a
-- person that nobody has seen. Columns are sealed as a constant text.
use ai_de.Common.{
  zero, suc, ◌+◌, ◌≤◌, String, false, ◌≡◌, refl, none, some, List, [], ◌∷◌, length, Memᴰ, map_set,
}
use ai_de.Identity.Refs.{ExternalRef, unseen_refs}
use ai_de.Graph.{
  normalize_refs, entity, EntityType, work_item, document, CanonicalEntity, NodeRow, Graph, Cipher,
  Ids, Scope, ok, UpsertEntityResult, upsert_entity_by_ref, upsert_refs, merge_hit, insert_row,
  merge_attributes, insert_status_change_fact, limit_one,
}
use ai_de.Graph.Edges.{same_edge, upsert_relationship, resolve_endpoint_ref, resolve_fact}
use ai_de.Graph.Persist.{
  CanonicalRecord, entity_record, relationship_record, Setting, Run, resolve_record, upsert_record,
  after_upsert, relate_record, connect, each, persist_graph,
}
use ai_de.Graph.Ends.{HasEnds}
use ai_de.Graph.Persisted.{persist_graph-HasEnds}
use ai_de.Graph.Tallied.{IsTallied, total, identities, others, relationships}
use ai_de.Graph.Counts.{persist_graph-IsTallied}
use ai_de.Graph.Upserts.{IsPrimary, IsSole, IsKept, upsert_entity_by_ref_again}

abbrev cipher : Cipher
cipher = record { seal_json = λ n a. "sealed"; open_json = λ s. some []; seal_text = λ n s. s }

abbrev ids : Ids
ids = record {
  new_id = λ n. elim n [ zero ↦ "id0" | suc k ↦ "id1" ];
  is_uuid = λ s. false;
  same_uuid = λ a b. false;
  pick = λ g rows. 0;
}

abbrev scope : Scope
scope = record { tenant_id = "t"; engagement_id = "e"; now = 5 }

abbrev ref : String → ExternalRef
ref id = record { connector = "linear"; external_id = id }

abbrev item : EntityType → String → CanonicalEntity
item type id = record {
  type = type;
  external_refs = ref id ∷ [];
  display_name = id;
  attributes = [];
  body = none;
}

abbrev empty : Graph
empty = record { entities = []; facts = []; evidence = []; edges = []; draws = 0 }

abbrev setting : Setting
setting = record {
  normalizers = record { trim = λ s. s; email = λ s. s; domain = λ s. s };
  cipher = cipher;
  ids = ids;
  scope = scope;
  scan = λ id g. 0;
  detect = none;
  source_id = "src";
}

abbrev records : List CanonicalRecord
records =
    entity_record (item work_item "LIN-1")
    ∷ entity_record (item document "LIN-2")
    ∷ relationship_record
        (record { from = ref "LIN-1"; predicate = "references"; to = ref "LIN-2" })
    ∷ relationship_record (record { from = ref "LIN-1"; predicate = "owns"; to = ref "jane" })
    ∷ []

abbrev row : EntityType → String → String → NodeRow
row type id name = record {
  id = id;
  tenant_id = "t";
  engagement_id = "e";
  type = type;
  display_name = name;
  external_refs = ref name ∷ [];
  attributes = "sealed";
  body = none;
  updated_at = 5;
}

abbrev written : Run
written = record {
  graph = record {
    entities = row work_item "id0" "LIN-1" ∷ row document "id1" "LIN-2" ∷ [];
    facts = [];
    evidence = [];
    edges =
        record {
          tenant_id = "t";
          engagement_id = "e";
          from_kind = entity;
          from_id = "id0";
          predicate = "references";
          to_kind = entity;
          to_id = "id1";
          source_id = some "src";
          confidence = none;
        }
        ∷ [];
    draws = 2;
  };
  tally = record {
    entities_resolved = 0;
    entities_upserted = 2;
    relationships_upserted = 1;
    relationships_deferred = 1;
    match_candidates_queued = 0;
    facts_synthesized = 0;
    new_work_item_entity_ids = "id0" ∷ [];
  };
}

persisting : persist_graph setting records empty ≡ ok written
unfolding limit_one persist_graph each resolve_record upsert_record after_upsert relate_record
    connect upsert_relationship same_edge resolve_endpoint_ref resolve_fact upsert_entity_by_ref
    upsert_refs merge_hit insert_row merge_attributes map_set unseen_refs insert_status_change_fact
persisting = refl

persist_graph-HasEnds_example : HasEnds written.graph
persist_graph-HasEnds_example =
    persist_graph-HasEnds setting records empty written persisting (tt, tt)

persist_graph-IsTallied_example :
    IsTallied empty written
    × (written.tally.entities_resolved ≡ total identities records)
    × (written.tally.entities_upserted ≡ total others records)
    × (written.tally.relationships_upserted + written.tally.relationships_deferred
        ≤ total relationships records)
persist_graph-IsTallied_example = persist_graph-IsTallied setting empty records written persisting

-- The work item is there, and comes again.
abbrev one_row : Graph
one_row = record empty { entities = row work_item "id0" "LIN-1" ∷ []; draws = 1 }

one_row-IsPrimary : IsPrimary one_row.entities
one_row-IsPrimary x y (Memᴰ.head p) (Memᴰ.head q) e = cc (p, q)
one_row-IsPrimary x y (Memᴰ.head p) (Memᴰ.tail m) e = elim m [ ]
one_row-IsPrimary x y (Memᴰ.tail m) n e = elim m [ ]

one_row-IsSole : IsSole scope (item work_item "LIN-1") one_row.entities
one_row-IsSole x y (Memᴰ.head p) (Memᴰ.head q) f h = cc (p, q)
one_row-IsSole x y (Memᴰ.head p) (Memᴰ.tail m) f h = elim m [ ]
one_row-IsSole x y (Memᴰ.tail m) n f h = elim m [ ]

abbrev merged : UpsertEntityResult
merged = record { entity_id = "id0"; created = false; previous_attributes = some [] }

upserting :
    upsert_entity_by_ref cipher ids scope (item work_item "LIN-1") one_row
    ≡ ok (merged, record one_row { draws = 2 })
unfolding limit_one upsert_entity_by_ref upsert_refs merge_hit merge_attributes unseen_refs
upserting = refl

upsert_entity_by_ref_again_example :
    (v : UpsertEntityResult) × (h : Graph) × (upsert_entity_by_ref cipher ids scope
        (item work_item "LIN-1")
        (record one_row { draws = 2 })
      ≡ ok (v, h))
    × (v.entity_id ≡ "id0")
    × (v.created ≡ false)
    × (length h.entities ≡ 1)
    × ((row : NodeRow) × IsKept
          (normalize_refs (ref "LIN-1" ∷ []))
          (record one_row { draws = 2 })
          "id0"
          row)
upsert_entity_by_ref_again_example =
    upsert_entity_by_ref_again cipher ids scope (λ n a. refl) (item work_item "LIN-1") one_row
      merged (record one_row { draws = 2 }) one_row-IsPrimary one_row-IsSole upserting
