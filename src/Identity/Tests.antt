-- ===== src/Identity/Tests.antt =====
-- Examples: two entities of one engagement with a shared employer, and a pending pair of them.
use ai_de.Common.{
  filter, str_eq, All, ◌≤◌, ◌&&◌, String, ◌≡◌, ◌≢◌, refl, false, ◌||◌, none, some, List, [], ◌∷◌,
  ◌++◌, any, str_eq_iff,
}
use ai_de.Identity.Refs.{
  ExternalRef, Normalizers, has, normalized, normalize_external_refs, union_refs,
}
use ai_de.Identity.Refs.Laws.{IsDistinct, union_refs_lem}
use ai_de.Identity.Refs.Keys.{deterministic_keys}
use ai_de.Identity.Refs.Keys.Order.{IsSorted, refs_of_tier, is_system, deterministic_keys_lem}
use ai_de.Identity.ReviewQueue.{
  EntityRow, Edge, merge, reject, pending, Db, Decided, ok, err, row_not_found, row_decided,
  touches, repoint_entity_edges, moved_edges, rejected, merged, same_key, insert_moved, insert_one,
  is_end, moved_edge, is_self_edge,
}
use ai_de.Identity.ReviewQueue.Decide.{
  apply_match_decision, merge_checked, merge_match, reject_match,
}
use ai_de.Identity.ReviewQueue.Edges.{IsKeyed, has_key, left, movable, repoint_entity_edges_lem}
use ai_de.Identity.ReviewQueue.Outcomes.{
  IsGone, apply_match_decision-reject, apply_match_decision-merge,
}

-- texts as they are
abbrev plain : Normalizers
plain = record { trim = λ s. s; email = λ s. s; domain = λ s. s }

abbrev github : ExternalRef
github = record { connector = "github"; external_id = "7" }

abbrev mail : ExternalRef
mail = record { connector = "fde:email"; external_id = "jane@acme.com" }

union_refs_lem_example :
    IsDistinct (union_refs plain (github ∷ []) (mail ∷ github ∷ []))
    × ((x : ExternalRef)
        → has x (union_refs plain (github ∷ []) (mail ∷ github ∷ [])) ≡ (
            has x (normalized plain (github ∷ []))
            || has x (normalized plain (mail ∷ github ∷ []))))
    × ((rest : List ExternalRef) × (union_refs plain (github ∷ []) (mail ∷ github ∷ [])
          ≡ normalize_external_refs plain (github ∷ []) ++ rest))
union_refs_lem_example = union_refs_lem plain (github ∷ []) (mail ∷ github ∷ [])

deterministic_keys_lem_example :
    let keys = deterministic_keys plain "person" (mail ∷ github ∷ []) in
    let given = normalize_external_refs plain (mail ∷ github ∷ []) in
    IsSorted keys
    × (refs_of_tier 1 keys ≡ filter is_system given)
    × (refs_of_tier 2 keys ≡ filter (λ r. str_eq r.connector "fde:email") given)
    × (refs_of_tier 3 keys ≡ filter (λ r. str_eq r.connector "fde:sso") given)
    × (refs_of_tier 4 keys
        ≡ filter (λ r. str_eq "person" "organization" && str_eq r.connector "fde:domain") given)
    × All (λ k. (1 ≤ k.tier) × (k.tier ≤ 4)) keys
deterministic_keys_lem_example = deterministic_keys_lem plain "person" (mail ∷ github ∷ [])

abbrev entity : String → List ExternalRef → EntityRow
entity id refs = record {
  id = id;
  tenant_id = "t1";
  engagement_id = "e1";
  external_refs = refs;
  updated_at = 0;
}

abbrev edge : String → String → String → Edge
edge from predicate to = record {
  tenant_id = "t1";
  engagement_id = "e1";
  from_kind = "entity";
  from_id = from;
  predicate = predicate;
  to_kind = "entity";
  to_id = to;
  source_id = none;
  confidence = none;
}

-- An edge that a model suggested.
abbrev suggested : Edge
suggested = record (edge "jane2" "owns" "acme") { confidence = some "0.8" }

-- It is moved, and its confidence is lost.
moved_suggested :
    repoint_entity_edges "t1" "jane2" "jane" (suggested ∷ []) ≡ (edge "jane" "owns" "acme" ∷ [], 1)
unfolding repoint_entity_edges moved_edges insert_moved insert_one touches is_end moved_edge
    is_self_edge same_key
moved_suggested = refl

abbrev edges : List Edge
edges =
    edge "jane" "member_of" "acme"
    ∷ edge "jane2" "member_of" "acme"
    ∷ edge "jane2" "knows" "jane"
    ∷ []

abbrev db : Db
db = record {
  entities = entity "jane" (github ∷ []) ∷ entity "jane2" (mail ∷ []) ∷ [];
  queue =
      record {
        id = "q1";
        tenant_id = "t1";
        entity_a_id = "jane";
        entity_b_id = "jane2";
        status = pending;
        decided_by = none;
        decided_at = none;
      }
      ∷ [];
  edges = edges;
  log = [];
}

jane2-ne-jane : ◌≢◌ {A = String} "jane2" "jane"
jane2-ne-jane q = cc ((str_eq_iff "jane2" "jane").1 q)

repoint_entity_edges_lem_example :
    let after = (repoint_entity_edges "t1" "jane2" "jane" edges).0 in
    (any (touches "t1" "jane2") after ≡ false)
    × IsKeyed after
    × ((k : Edge)
        → has_key k after ≡ (
            has_key k (left "t1" "jane2" edges)
            || movable k (moved_edges "t1" "jane2" "jane" edges)))
unfolding same_key
repoint_entity_edges_lem_example =
    repoint_entity_edges_lem "t1" "jane2" "jane" jane2-ne-jane edges (refl, (refl, (refl, tt)))

-- The shared employer is coalesced and the edge between the two is dropped.
repoint_example :
    repoint_entity_edges "t1" "jane2" "jane" edges ≡ (edge "jane" "member_of" "acme" ∷ [], 0)
unfolding repoint_entity_edges moved_edges insert_moved insert_one touches is_end moved_edge
    is_self_edge same_key
repoint_example = refl

missing : (apply_match_decision plain 5 "t1" "q9" merge "bob" none db).0 ≡ err row_not_found
unfolding apply_match_decision
missing = refl

rejected_result : Decided
rejected_result = record {
  decision = reject;
  status = rejected;
  kept = none;
  merged = none;
  moved = 0;
}

rejecting : (apply_match_decision plain 5 "t1" "q1" reject "bob" none db).0 ≡ ok rejected_result
unfolding apply_match_decision reject_match rejected_result
rejecting = refl

apply_match_decision-reject_example :
    let run = apply_match_decision plain 5 "t1" "q1" reject "bob" none db in
    (run.1.entities ≡ db.entities)
    × (run.1.edges ≡ db.edges)
    × (apply_match_decision plain 9 "t1" "q1" merge "carol" none run.1 ≡ (err row_decided, run.1))
apply_match_decision-reject_example =
    apply_match_decision-reject plain 5 "t1" "q1" "bob" none 9 merge "carol" none db rejected_result
      rejecting

merged_result : Decided
merged_result = record {
  decision = merge;
  status = merged;
  kept = some "jane";
  merged = some "jane2";
  moved = 0;
}

merging : (apply_match_decision plain 5 "t1" "q1" merge "bob" none db).0 ≡ ok merged_result
unfolding apply_match_decision merge_checked merge_match merged_result repoint_entity_edges
    moved_edges insert_moved insert_one touches is_end moved_edge is_self_edge same_key
merging = refl

apply_match_decision-merge_example :
    let run = apply_match_decision plain 5 "t1" "q1" merge "bob" none db in
    (drop : String) × (merged_result.merged ≡ some drop) × IsGone "t1" drop run.1
apply_match_decision-merge_example =
    apply_match_decision-merge plain 5 "t1" "q1" "bob" none db merged_result merging
