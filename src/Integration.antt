-- ===== src/Integration.antt =====
-- packages/core/src/custom-integration-normalize.ts: the records that a customer's mapping derives
-- from a payload. The payload is JSON, with a number as the text that `String` gives; the split of a
-- path into its tokens by `TOKEN_RE` and `trim` are parameters.
mod Tests
pub mod Endpoints
use ai_de.Common.{
  ◌||◌, ℕ, zero, suc, String, Bool, true, false, not, ◌&&◌, Option, none, some, List, [], ◌∷◌, ◌++◌,
  str_eq, if◌then◌else◌, is_some,
}

mutual
  pub data Json : Type 0 where
    null : Json
    bool : Bool → Json
    number : String → Json
    text : String → Json
    array : Items → Json
    object : Fields → Json

  pub data Items : Type 0 where
    no_item : Items
    item : Json → Items → Items

  pub data Fields : Type 0 where
    no_field : Fields
    field : String → Json → Fields → Fields

pub data Token : Type 0 where
  name_token : String → Token
  index_token : ℕ → Token

-- `Object.hasOwn(cur, name)` with the value; an object has each name once
pub own_field : String → Fields → Option Json
own_field name no_field = none
own_field name (field n v fs) =
    let rest = own_field name fs in if str_eq n name then some v else rest

pub item_at : ℕ → Items → Option Json
item_at i no_item = none
item_at zero (item v vs) = some v
item_at (suc i) (item v vs) = item_at i vs

-- one token of the path; a value that is not an object or an array ends it
pub step : Token → Json → Option Json
unfolding own_field item_at
step (name_token n) (object fs) = own_field n fs
step (index_token i) (array vs) = item_at i vs
step _ _ = none

-- `resolveDotPath`; `none` is `undefined`
pub resolve_dot_path : List Token → Json → Option Json
unfolding step
resolve_dot_path [] cur = some cur
resolve_dot_path (t ∷ ts) cur = elim (step t cur) [
  | none ↦ none
  | some next ↦ resolve_dot_path ts next
]

pub record EntityMapping : Type 0 where
  pub key : String
  pub type : String
  pub external_id_path : String
  pub display_name_path : String
  pub body_path : Option String
  pub attributes : List (String × String)

pub record RelationshipMapping : Type 0 where
  pub from : String
  pub predicate : String
  pub to : String

pub record Mapping : Type 0 where
  pub entities : List EntityMapping
  pub relationships : List RelationshipMapping

pub record Ref : Type 0 where
  pub connector : String
  pub external_id : String

pub data Record : Type 0 where
  -- type, name, reference, attributes, body
  entity : String → String → Ref → List (String × Json) → Option String → Record
  relationship : Ref → String → Ref → Record

-- where in the mapping an issue is
pub data Issue : Type 0 where
  no_id no_name bad_body no_endpoint : ℕ → Issue
  no_attribute : ℕ → String → Issue

pub record Normalized : Type 0 where
  pub records : List Record
  pub refs : List (String × Ref)
  pub issues : List Issue

abbrev pub start : Normalized
start = record { records = []; refs = []; issues = [] }

abbrev pub add_issue : Issue → Normalized → Normalized
add_issue i n = record n { issues = n.issues ++ i ∷ [] }

abbrev pub add_issues : List Issue → Normalized → Normalized
add_issues is n = record n { issues = n.issues ++ is }

abbrev pub add_entity : String → Ref → Record → Normalized → Normalized
add_entity key ref r n = record n { records = n.records ++ r ∷ []; refs = (key, ref) ∷ n.refs }

abbrev pub add_record : Record → Normalized → Normalized
add_record r n = record n { records = n.records ++ r ∷ [] }

-- `refs.get(key)`: the newest entry
pub get_ref : String → List (String × Ref) → Option Ref
get_ref key [] = none
get_ref key (e ∷ es) = let rest = get_ref key es in if str_eq e.0 key then some e.1 else rest

-- `Number.isFinite`, of a number by the text that it prints as; `JSON.parse` reads 1e999 as infinity
abbrev is_finite : String → Bool
is_finite r = not (str_eq r "Infinity" || (str_eq r "-Infinity" || str_eq r "NaN"))

module _ (tokens : String → List Token) (trim : String → String) (connector : String)
    (payload : Json) where
  abbrev pub at_path : String → Option Json
  at_path path = resolve_dot_path (tokens path) payload

  -- `asId`: a number is the text that it prints as
  pub as_id : Option Json → Option String
  as_id (some (text s)) = if str_eq (trim s) "" then none else some s
  as_id (some (number r)) = if is_finite r then some r else none
  as_id _ = none

  -- the body of an entity, with the issue that it raises
  pub body_of : ℕ → Option String → Option String × List Issue
  body_of i none = (none, [])
  body_of i (some path) = if str_eq path "" then (none, []) else elim (at_path path) [
    | none ↦ (none, [])
    | some v ↦ elim v [
      | null ↦ (none, [])
      | text b ↦ if str_eq b "" then (none, bad_body i ∷ []) else (some b, [])
      | bool _ ↦ (none, bad_body i ∷ [])
      | number _ ↦ (none, bad_body i ∷ [])
      | array _ ↦ (none, bad_body i ∷ [])
      | object _ ↦ (none, bad_body i ∷ [])
    ]
  ]

  pub attributes_of : ℕ → List (String × String) → List (String × Json) × List Issue
  attributes_of i [] = ([], [])
  attributes_of i (a ∷ as_) =
      let (values, issues) = attributes_of i as_ in
      elim (at_path a.1) [
        | none ↦ (values, no_attribute i a.0 ∷ issues)
        | some v ↦ ((a.0, v) ∷ values, issues)
      ]

  -- the loop over `mapping.entities` for one entity
  pub normalize_entity : ℕ → EntityMapping → Normalized → Normalized
  unfolding as_id body_of attributes_of
  normalize_entity i e n = elim (as_id (at_path e.external_id_path)) [
    | none ↦ elim (as_id (at_path e.display_name_path)) [
      | none ↦ add_issues (no_id i ∷ no_name i ∷ []) n
      | some name ↦ add_issues (no_id i ∷ []) n
    ]
    | some id ↦ elim (as_id (at_path e.display_name_path)) [
      | none ↦ add_issues (no_name i ∷ []) n
      | some name ↦
          let (body, body_issues) = body_of i e.body_path in
          let (attributes, attribute_issues) = attributes_of i e.attributes in
          let ref : Ref = record { connector = connector; external_id = id } in
          add_entity e.key ref (entity e.type name ref attributes body)
            (add_issues (body_issues ++ attribute_issues) n)
    ]
  ]

  pub normalize_entities : ℕ → List EntityMapping → Normalized → Normalized
  unfolding normalize_entity
  normalize_entities i [] n = n
  normalize_entities i (e ∷ es) n = normalize_entities (suc i) es (normalize_entity i e n)

  -- the loop over `mapping.relationships` for one relationship
  pub normalize_relationship : ℕ → RelationshipMapping → Normalized → Normalized
  unfolding get_ref
  normalize_relationship i r n = elim (get_ref r.from n.refs) [
    | none ↦ add_issue (no_endpoint i) n
    | some from ↦ elim (get_ref r.to n.refs) [
      | none ↦ add_issue (no_endpoint i) n
      | some to ↦ add_record (relationship from r.predicate to) n
    ]
  ]

  pub normalize_relationships : ℕ → List RelationshipMapping → Normalized → Normalized
  unfolding normalize_relationship
  normalize_relationships i [] n = n
  normalize_relationships i (r ∷ rs) n =
      normalize_relationships (suc i) rs (normalize_relationship i r n)

  abbrev has_issues : List Issue → Bool
  has_issues [] = false
  has_issues (_ ∷ _) = true

  -- `normalizeCustomArtifact`; `none` is the throw of `strict`
  pub normalize_custom_artifact : Mapping → Bool → Option Normalized
  unfolding normalize_entities normalize_relationships
  normalize_custom_artifact mapping strict =
      let n =
        normalize_relationships 0 mapping.relationships
          (normalize_entities 0 mapping.entities start) in
      if strict && has_issues n.issues then none else some n
