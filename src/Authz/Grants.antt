-- ===== src/Authz/Grants.antt =====
-- What a permission means, read from the tuples alone, and when the key of a node names it.
use ai_de.Common.{String, ◌≡◌, true, none, some, List, Memᴰ, Lacks, split_join_unique, All}
use ai_de.Authz.{
  Tuple, Rule, rel, arrow, SubjectRef, rules, node_key, subject_set, is_on, is_subject,
}

-- `name` is a relation itself, or a permission with a rule that reads the relation.
pub data Reads (type name relation : String) : Type 0 where
  plain : rules type name ≡ none → relation ≡ name → Reads type name relation
  ruled :
      (rs : List Rule)
      → rules type name ≡ some rs
      → Memᴰ (rel relation) rs
      → Reads type name relation

module _ (tuples : List Tuple) (subject : SubjectRef) where
  -- The subject has the permission or relation `name` on the resource.
  pub data Grants : String → String → String → Type 0 where
    -- a tuple of a relation that counts names the subject itself
    direct :
        {type id name : String} (relation : String) (t : Tuple)
        → Reads type name relation
        → Memᴰ t tuples
        → is_on type id relation t ≡ true
        → subject_set t ≡ none
        → is_subject subject t ≡ true
        → Grants type id name
    -- a tuple of a relation that counts names a subject set that the subject belongs to
    through_set :
        {type id name : String} (relation : String) (t : Tuple) (r : String)
        → Reads type name relation
        → Memᴰ t tuples
        → is_on type id relation t ≡ true
        → subject_set t ≡ some r
        → Grants t.subject_type t.subject_id r
        → Grants type id name
    -- a rule with an arrow leads to an object on which the subject has the permission behind it
    through_arrow :
        {type id name : String} (relation : String) (t : Tuple) (permission : String)
        (rs : List Rule)
        → rules type name ≡ some rs
        → Memᴰ (arrow relation permission) rs
        → Memᴰ t tuples
        → is_on type id relation t ≡ true
        → Grants t.subject_type t.subject_id permission
        → Grants type id name

-- No `:` in a type, no `#` in an id: then the key of a node names it.
abbrev pub IsPlain : String → String → Type 0
IsPlain type id = Lacks b':' type × Lacks b'#' id

abbrev pub IsWellFormed : List Tuple → Type 0
IsWellFormed tuples = All (λ t. IsPlain t.subject_type t.subject_id) tuples

pub node_key-injective :
    (type id name type' id' name' : String)
    → IsPlain type id
    → IsPlain type' id'
    → node_key type id name ≡ node_key type' id' name'
    → (type ≡ type') × (id ≡ id') × (name ≡ name')
unfolding node_key
node_key-injective type id name type' id' name' h h' e =
    let outer = split_join_unique ":" type type' _ _ h.0 h'.0 e in
    let inner = split_join_unique "#" id id' name name' h.1 h'.1 outer.1 in
    (outer.0, inner.0, inner.1)
