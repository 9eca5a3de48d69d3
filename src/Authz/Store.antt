-- ===== src/Authz/Store.antt =====
-- packages/authz/src/in-memory.ts: the operations that change the tuples, and `lookupResources`.
pub mod Writes
pub mod Lookup
use ai_de.Common.{
  String, Bool, true, false, not, ◌&&◌, Option, none, some, or_else, List, [], ◌∷◌, ◌++◌, map, any,
  filter, if◌then◌else◌, str_eq, contains,
}
use ai_de.Authz.{
  Tuple, SubjectRef, SubjectFilter, CheckRequest, RelationshipOp, create, touch, delete,
  RelationshipUpdate, RelationshipFilter, check,
}

-- `sameTuple`
unfoldable pub same_tuple : Tuple → Tuple → Bool
same_tuple a b =
    str_eq a.resource_type b.resource_type
    && str_eq a.resource_id b.resource_id
    && str_eq a.relation b.relation
    && str_eq a.subject_type b.subject_type
    && str_eq a.subject_id b.subject_id
    && str_eq (or_else a.subject_relation "") (or_else b.subject_relation "")

-- `findIndex(…) !== -1`
unfoldable pub holds_tuple : Tuple → List Tuple → Bool
holds_tuple t [] = false
holds_tuple t (x ∷ xs) = let later = holds_tuple t xs in if same_tuple x t then true else later

-- `splice(findIndex(…), 1)`
unfoldable pub remove_first : Tuple → List Tuple → List Tuple
remove_first t [] = []
remove_first t (x ∷ xs) = let later = remove_first t xs in if same_tuple x t then xs else x ∷ later

-- How `writeRelationships` ends: it returns, or throws `AuthzError` for a tuple.
pub data WriteOutcome : Type 0 where
  written : WriteOutcome
  already_exists : Tuple → WriteOutcome

-- one round of the loop in `writeRelationships`; on a throw the tuples are as they were
unfoldable pub write_one : RelationshipUpdate → List Tuple → List Tuple × WriteOutcome
write_one u tuples =
    let existing = holds_tuple u.tuple tuples in
    elim u.operation [
      | delete ↦ if existing then (remove_first u.tuple tuples, written) else (tuples, written)
      | touch ↦ if not existing then (tuples ++ u.tuple ∷ [], written) else (tuples, written)
      | create ↦
          if not existing
          then (tuples ++ u.tuple ∷ [], written)
          else (tuples, already_exists u.tuple)
    ]

unfoldable pub write_relationships :
    List RelationshipUpdate → List Tuple → List Tuple × WriteOutcome
write_relationships [] tuples = (tuples, written)
write_relationships (u ∷ us) tuples =
    let (next, outcome) = write_one u tuples in
    elim outcome [
      | written ↦ write_relationships us next
      | already_exists t ↦ (next, already_exists t)
    ]

-- `wanted !== undefined && actual !== wanted` negated
abbrev pub allows : Option String → String → Bool
allows none actual = true
allows (some wanted) actual = str_eq actual wanted

abbrev pub allows_subject : Option SubjectFilter → Tuple → Bool
allows_subject none t = true
allows_subject (some f) t =
    str_eq t.subject_type f.type
    && allows f.id t.subject_id
    && allows f.relation (or_else t.subject_relation "")

-- `matchesFilter`
unfoldable pub matches_filter : Tuple → RelationshipFilter → Bool
matches_filter t f =
    str_eq t.resource_type f.resource_type
    && allows f.resource_id t.resource_id
    && allows f.relation t.relation
    && allows_subject f.subject t

unfoldable pub delete_relationships : RelationshipFilter → List Tuple → List Tuple
delete_relationships f tuples = filter (λ t. not (matches_filter t f)) tuples

-- `new Set(ids)`: the distinct ids in the order of their first occurrence
distinct_from : List String → List String → List String
distinct_from seen [] = []
distinct_from seen (x ∷ xs) =
    let skipped = distinct_from seen xs in
    let kept = x ∷ distinct_from (x ∷ seen) xs in if contains x seen then skipped else kept

pub resource_ids : String → List Tuple → List String
resource_ids type tuples =
    distinct_from [] (map (λ t. t.resource_id) (filter (λ t. str_eq t.resource_type type) tuples))

abbrev is_true : Option Bool → Bool
is_true none = false
is_true (some b) = b

-- `lookupResources` before its sort, which permutes the list
pub lookup_resources : List Tuple → SubjectRef → String → String → List String
lookup_resources tuples subject permission type =
    filter
      (λ id. is_true (
        check tuples (record {
          subject = subject;
          permission = permission;
          resource_type = type;
          resource_id = id;
        })))
      (resource_ids type tuples)
