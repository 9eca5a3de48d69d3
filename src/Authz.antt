-- ===== src/Authz.antt =====
-- packages/authz/src/in-memory.ts and client.ts: relationship tuples and the permission resolver.
-- A `Map`-free store: `tuples` is the private array of `InMemoryAuthzClient`. The mutable set `seen`
-- of `resolve` is threaded through the calls, and every `for … return true` loop is a recursion on
-- the list that stops at the first hit. `resolve` takes fuel; `check` gives twice the number of
-- tuples and two. Names that `RULES` inherits from `Object.prototype` are not treated apart.
mod Tests
pub mod Store
pub mod Client
pub mod Grants
pub mod Search
pub mod Loops
pub mod Rules
pub mod Reachable
pub mod Decides
pub mod Resolved
use ai_de.Common.{
  ℕ, zero, suc, ◌+◌, ◌*◌, String, Bool, true, false, not, ◌&&◌, ◌||◌, Option, none, some, or_else,
  List, [], ◌∷◌, ◌++◌, map, length, any, filter, if◌then◌else◌, str_eq, text_append, contains,
}

pub record Tuple : Type 0 where
  pub resource_type : String
  pub resource_id : String
  pub relation : String
  pub subject_type : String
  pub subject_id : String
  pub subject_relation : Option String

pub data Rule : Type 0 where
  rel : String → Rule
  arrow : String → String → Rule

pub record SubjectRef : Type 0 where
  pub type : String
  pub id : String
  pub relation : Option String

pub record CheckRequest : Type 0 where
  pub subject : SubjectRef
  pub permission : String
  pub resource_type : String
  pub resource_id : String

pub data RelationshipOp : Type 0 where
  create touch delete : RelationshipOp

pub record RelationshipUpdate : Type 0 where
  pub operation : RelationshipOp
  pub tuple : Tuple

pub record SubjectFilter : Type 0 where
  pub type : String
  pub id : Option String
  pub relation : Option String

pub record RelationshipFilter : Type 0 where
  pub resource_type : String
  pub resource_id : Option String
  pub relation : Option String
  pub subject : Option SubjectFilter

tenant_rules : String → Option (List Rule)
tenant_rules name =
    if str_eq name "administer"
    then some (rel "admin" ∷ [])
    else if str_eq name "belong"
    then some (rel "admin" ∷ rel "member" ∷ [])
    else none

engagement_rules : String → Option (List Rule)
engagement_rules name =
    if str_eq name "view"
    then some (rel "viewer" ∷ rel "member" ∷ rel "admin" ∷ arrow "parent_tenant" "administer" ∷ [])
    else if str_eq name "contribute"
    then some (rel "member" ∷ rel "admin" ∷ [])
    else if str_eq name "administer"
    then some (rel "admin" ∷ [])
    else none

-- `RULES[resourceType]?.[name]`
pub rules : String → String → Option (List Rule)
unfolding tenant_rules engagement_rules
rules type name =
    if str_eq type "tenant"
    then tenant_rules name
    else if str_eq type "engagement"
    then engagement_rules name
    else none

-- `${resourceType}:${resourceId}#${name}`
pub node_key : String → String → String → String
node_key type id name = text_append type (text_append ":" (text_append id (text_append "#" name)))

-- The answer of a search with the set `seen` that it leaves, or `none` when the fuel ran out.
abbrev pub Answer : Type 0
Answer = Option (Bool × List String)

-- After `false` a loop goes on, after `true` it returns.
abbrev pub or_next : Answer → (List String → Answer) → Answer
or_next none k = none
or_next (some (true, seen)) k = some (true, seen)
or_next (some (false, seen)) k = k seen

-- `t.subjectRelation` where it is truthy
abbrev pub subject_set : Tuple → Option String
subject_set t = elim t.subject_relation [
  | none ↦ none
  | some r ↦ if str_eq r "" then none else some r
]

-- the tuple states `relation` of the resource
abbrev pub is_on : String → String → String → Tuple → Bool
is_on type id relation t =
    str_eq t.resource_type type && str_eq t.resource_id id && str_eq t.relation relation

-- the tuple names the subject itself
abbrev pub is_subject : SubjectRef → Tuple → Bool
is_subject subject t = str_eq t.subject_type subject.type && str_eq t.subject_id subject.id

-- `go` is `resolve` with what fuel is left.
module _ (subject : SubjectRef) (go : String → String → String → List String → Answer) where
  -- the body of the loop in `relationHolds` for a tuple of the relation
  pub try_tuple : Tuple → List String → (List String → Answer) → Answer
  try_tuple t seen rest = elim (subject_set t) [
    | none ↦ if is_subject subject t then some (true, seen) else rest seen
    | some r ↦ or_next (go t.subject_type t.subject_id r seen) rest
  ]

  pub relation_holds : List Tuple → String → String → String → List String → Answer
  unfolding try_tuple
  relation_holds [] type id relation seen = some (false, seen)
  relation_holds (t ∷ ts) type id relation seen =
      let rest = λ (s : List String). relation_holds ts type id relation s in
      if is_on type id relation t then try_tuple t seen rest else rest seen

  -- the loop of `resolve` over the tuples for a rule with an arrow
  pub follow_arrow : List Tuple → String → String → String → String → List String → Answer
  follow_arrow [] type id relation permission seen = some (false, seen)
  follow_arrow (t ∷ ts) type id relation permission seen =
      let rest = λ (s : List String). follow_arrow ts type id relation permission s in
      if is_on type id relation t
      then or_next (go t.subject_type t.subject_id permission seen) rest
      else rest seen

  -- the loop of `resolve` over the rules
  pub try_rules : List Tuple → List Rule → String → String → List String → Answer
  unfolding relation_holds follow_arrow
  try_rules tuples [] type id seen = some (false, seen)
  try_rules tuples (rel r ∷ rs) type id seen =
      or_next (relation_holds tuples type id r seen) (λ s. try_rules tuples rs type id s)
  try_rules tuples (arrow r permission ∷ rs) type id seen =
      or_next (follow_arrow tuples type id r permission seen) (λ s. try_rules tuples rs type id s)

  -- `resolve` behind its test of `seen`
  pub expand : List Tuple → String → String → String → List String → Answer
  unfolding relation_holds try_rules
  expand tuples type id name seen = elim (rules type name) [
    | none ↦ relation_holds tuples type id name seen
    | some rs ↦ try_rules tuples rs type id seen
  ]

pub resolve : ℕ → List Tuple → SubjectRef → String → String → String → List String → Answer
unfolding expand node_key rules
resolve zero tuples subject type id name seen = none
resolve (suc fuel) tuples subject type id name seen =
    let key = node_key type id name in
    let opened = expand subject (resolve fuel tuples subject) tuples type id name (key ∷ seen) in
    if contains key seen then some (false, seen) else opened

abbrev answer_of : Answer → Option Bool
answer_of none = none
answer_of (some (b, _)) = some b

-- `none` would say that the fuel ran out; `check_decides` says that it never does.
pub check : List Tuple → CheckRequest → Option Bool
unfolding resolve
check tuples req = answer_of (
    resolve (2 * length tuples + 2) tuples req.subject req.resource_type req.resource_id
      req.permission [])
