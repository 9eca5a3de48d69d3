-- ===== src/Integration/Endpoints.antt =====
-- What the records of a payload are: no relationship without its entities, and nothing lost in silence.
use ai_de.Common.{
  ℕ, suc, ◌+◌, ◌≤◌, String, ◌≡◌, refl, subst, inl, inr, ◌⊎◌, Bool, true, Option, some, List, [],
  ◌∷◌, ◌++◌, arith, length, length-append, Option-cases, Bool-cases, str_eq, Memᴰ, All, All-append,
}
use mathlib.Core.List.Memᴰ
use mathlib.Core.Option.{some-injective}
use ai_de.Integration.{
  Json, Token, EntityMapping, RelationshipMapping, Mapping, Ref, Record, entity, relationship,
  Issue, no_id, no_name, no_endpoint, Normalized, add_issue, add_issues, add_entity, add_record,
  get_ref, at_path, as_id, body_of, attributes_of, normalize_entity, normalize_entities,
  normalize_relationship, normalize_relationships, start, normalize_custom_artifact,
}

-- Some entity among the records has the reference.
pub data HasEntity (r : Ref) (rs : List Record) : Type 0 where
  named :
      (type name : String) (attributes : List (String × Json)) (body : Option String)
      → Memᴰ (entity type name r attributes body) rs
      → HasEntity r rs

-- Every endpoint is the reference of an entity of the list.
abbrev pub HasEndpoints : List Record → Record → Type 0
HasEndpoints rs (entity _ _ _ _ _) = Unit
HasEndpoints rs (relationship from _ to) = HasEntity from rs × HasEntity to rs

abbrev pub IsClosed : Normalized → Type 0
IsClosed n = All (λ e. HasEntity e.1 n.records) n.refs × All (HasEndpoints n.records) n.records

grow_entity : (r : Ref) (rs ss : List Record) → HasEntity r rs → HasEntity r (rs ++ ss)
grow_entity r rs ss (named type name attributes body m) =
    named type name attributes body (Memᴰ.append_left ss m)

grow_endpoints : (rs ss : List Record) (x : Record) → HasEndpoints rs x → HasEndpoints (rs ++ ss) x
grow_endpoints rs ss (entity _ _ _ _ _) h = tt
grow_endpoints rs ss (relationship from _ to) h =
    (grow_entity from rs ss h.0, grow_entity to rs ss h.1)

grow_refs :
    (rs ss : List Record) (refs : List (String × Ref))
    → All (λ e. HasEntity e.1 rs) refs
    → All (λ e. HasEntity e.1 (rs ++ ss)) refs
grow_refs rs ss [] h = tt
grow_refs rs ss (e ∷ es) h = (grow_entity e.1 rs ss h.0, grow_refs rs ss es h.1)

grow_records :
    (rs ss xs : List Record) → All (HasEndpoints rs) xs → All (HasEndpoints (rs ++ ss)) xs
grow_records rs ss [] h = tt
grow_records rs ss (x ∷ xs) h = (grow_endpoints rs ss x h.0, grow_records rs ss xs h.1)

get_ref-HasEntity :
    (rs : List Record) (k : String) (refs : List (String × Ref)) (r : Ref)
    → All (λ e. HasEntity e.1 rs) refs
    → get_ref k refs ≡ some r
    → HasEntity r rs
unfolding get_ref
get_ref-HasEntity rs k [] r h q = absurd (cc q)
get_ref-HasEntity rs k (e ∷ es) r h q = elim (Bool-cases (str_eq e.0 k)) [
  | inl b ↦ subst (λ (x : Ref). HasEntity x rs) (some-injective e.1 r (rw b at q)) h.0
  | inr b ↦ get_ref-HasEntity rs k es r h.1 (rw b at q)
]

add_entity-IsClosed :
    (k type name : String) (ref : Ref) (attributes : List (String × Json)) (body : Option String)
    (n : Normalized)
    → IsClosed n
    → IsClosed (add_entity k ref (entity type name ref attributes body) n)
add_entity-IsClosed k type name ref attributes body n h =
    let new = entity type name ref attributes body ∷ [] in
    (
      (
        named type name attributes body (Memᴰ.append_right n.records (Memᴰ.head refl)),
        grow_refs n.records new n.refs h.0,
      ),
      All-append (HasEndpoints (n.records ++ new)) n.records new
          (grow_records n.records new n.records h.1) (tt, tt),
    )

add_record-IsClosed :
    (from to : Ref) (predicate : String) (n : Normalized)
    → IsClosed n
    → HasEntity from n.records
    → HasEntity to n.records
    → IsClosed (add_record (relationship from predicate to) n)
add_record-IsClosed from to predicate n h f t =
    let new = relationship from predicate to ∷ [] in
    (
      grow_refs n.records new n.refs h.0,
      All-append (HasEndpoints (n.records ++ new)) n.records new
          (grow_records n.records new n.records h.1)
          ((grow_entity from n.records new f, grow_entity to n.records new t), tt),
    )

module _ (tokens : String → List Token) (trim : String → String) (connector : String)
    (payload : Json) where
  -- An entity adds issues only, at least one, or a record, perhaps with issues.
  normalize_entity-cases :
      (i : ℕ) (e : EntityMapping) (n : Normalized)
      → ((first : Issue) × (rest : List Issue) × (normalize_entity tokens trim connector payload i e
              n
            ≡ add_issues (first ∷ rest) n))
        ⊎ ((name : String) × (ref : Ref) × (attributes : List (String × Json)) × (body : Option
              String)
            × (issues : List Issue) × (normalize_entity tokens trim connector payload i e n
                ≡ add_entity e.key ref
                    (entity e.type name ref attributes body)
                    (add_issues issues n)))
  unfolding normalize_entity
  normalize_entity-cases i e n =
      let at : String → Option Json = λ p. at_path tokens trim connector payload p in
      let id_of : Option Json → Option String = λ v. as_id tokens trim connector payload v in
      elim (Option-cases (id_of (at e.external_id_path))) [
        | inl q ↦ elim (Option-cases (id_of (at e.display_name_path))) [
          | inl p ↦ inl (no_id i, no_name i ∷ [], ground (arith, q, p))
          | inr (name, p) ↦ inl (no_id i, [], ground (arith, q, p))
        ]
        | inr (id, q) ↦ elim (Option-cases (id_of (at e.display_name_path))) [
          | inl p ↦ inl (no_name i, [], ground (arith, q, p))
          | inr (name, p) ↦
              let (body, body_issues) = body_of tokens trim connector payload i e.body_path in
              let (attributes, more) = attributes_of tokens trim connector payload i e.attributes in
              inr (
                name,
                record { connector = connector; external_id = id },
                attributes,
                body,
                body_issues ++ more,
                ground (arith, q, p),
              )
        ]
      ]

  normalize_entity-IsClosed :
      (i : ℕ) (e : EntityMapping) (n : Normalized)
      → IsClosed n
      → IsClosed (normalize_entity tokens trim connector payload i e n)
  normalize_entity-IsClosed i e n h = elim (normalize_entity-cases i e n) [
    | inl (first, rest, q) ↦ rw q h
    | inr (name, ref, attributes, body, issues, q) ↦
        rw q (add_entity-IsClosed e.key e.type name ref attributes body (add_issues issues n) h)
  ]

  normalize_relationship-cases :
      (i : ℕ) (r : RelationshipMapping) (n : Normalized)
      → (normalize_relationship tokens trim connector payload i r n ≡ add_issue (no_endpoint i) n)
        ⊎ ((from : Ref) × (to : Ref) × (get_ref r.from n.refs ≡ some from)
            × (get_ref r.to n.refs ≡ some to)
            × (normalize_relationship tokens trim connector payload i r n
                ≡ add_record (relationship from r.predicate to) n))
  unfolding normalize_relationship
  normalize_relationship-cases i r n = elim (Option-cases (get_ref r.from n.refs)) [
    | inl q ↦ inl (ground (arith, q))
    | inr (from, q) ↦ elim (Option-cases (get_ref r.to n.refs)) [
      | inl p ↦ inl (ground (arith, q, p))
      | inr (to, p) ↦ inr (from, to, q, p, ground (arith, q, p))
    ]
  ]

  normalize_relationship-IsClosed :
      (i : ℕ) (r : RelationshipMapping) (n : Normalized)
      → IsClosed n
      → IsClosed (normalize_relationship tokens trim connector payload i r n)
  normalize_relationship-IsClosed i r n h = elim (normalize_relationship-cases i r n) [
    | inl q ↦ rw q h
    | inr (from, to, q, p, e) ↦ rw e (
        add_record-IsClosed from to r.predicate n h
          (get_ref-HasEntity n.records r.from n.refs from h.0 q)
          (get_ref-HasEntity n.records r.to n.refs to h.0 p))
  ]

  normalize_entities-IsClosed :
      (i : ℕ) (es : List EntityMapping) (n : Normalized)
      → IsClosed n
      → IsClosed (normalize_entities tokens trim connector payload i es n)
  unfolding normalize_entities
  normalize_entities-IsClosed i [] n h = h
  normalize_entities-IsClosed i (e ∷ es) n h =
      normalize_entities-IsClosed (suc i) es (normalize_entity tokens trim connector payload i e n)
        (normalize_entity-IsClosed i e n h)

  normalize_relationships-IsClosed :
      (i : ℕ) (rs : List RelationshipMapping) (n : Normalized)
      → IsClosed n
      → IsClosed (normalize_relationships tokens trim connector payload i rs n)
  unfolding normalize_relationships
  normalize_relationships-IsClosed i [] n h = h
  normalize_relationships-IsClosed i (r ∷ rs) n h =
      normalize_relationships-IsClosed (suc i) rs
        (normalize_relationship tokens trim connector payload i r n)
        (normalize_relationship-IsClosed i r n h)

  -- Whatever the mapping and the payload, each endpoint of a relationship among the derived records
  -- is the reference of an entity among them.
  pub normalize_custom_artifact-HasEndpoints :
      (mapping : Mapping) (strict : Bool) (n : Normalized)
      → normalize_custom_artifact tokens trim connector payload mapping strict ≡ some n
      → All (HasEndpoints n.records) n.records
  unfolding normalize_custom_artifact
  normalize_custom_artifact-HasEndpoints mapping strict n h =
      let all_entities =
        normalize_entities tokens trim connector payload 0 mapping.entities start in
      let result =
        normalize_relationships tokens trim connector payload 0 mapping.relationships
          all_entities in
      let same : result ≡ n = ground (arith, h) in
      subst (λ (x : Normalized). All (HasEndpoints x.records) x.records) same
        (normalize_relationships-IsClosed 0 mapping.relationships all_entities
          (normalize_entities-IsClosed 0 mapping.entities start (tt, tt))).1

  abbrev size : Normalized → ℕ
  size n = length n.records + length n.issues

  normalize_entity-size :
      (i : ℕ) (e : EntityMapping) (n : Normalized)
      → size n + 1 ≤ size (normalize_entity tokens trim connector payload i e n)
  normalize_entity-size i e n = elim (normalize_entity-cases i e n) [
    | inl (first, rest, q) ↦ rw q (ground (arith, length-append n.issues (first ∷ rest)))
    | inr (name, ref, attributes, body, issues, q) ↦ rw q (
        ground (
          arith,
          length-append n.issues issues,
          length-append n.records (entity e.type name ref attributes body ∷ []),
        ))
  ]

  normalize_entities-size :
      (i : ℕ) (es : List EntityMapping) (n : Normalized)
      → size n + length es ≤ size (normalize_entities tokens trim connector payload i es n)
  unfolding normalize_entities
  normalize_entities-size i [] n = omega arith
  normalize_entities-size i (e ∷ es) n = omega (
    arith,
    normalize_entity-size i e n,
    normalize_entities-size (suc i) es (normalize_entity tokens trim connector payload i e n),
  )

  normalize_relationship-size :
      (i : ℕ) (r : RelationshipMapping) (n : Normalized)
      → size n + 1 ≤ size (normalize_relationship tokens trim connector payload i r n)
  normalize_relationship-size i r n = elim (normalize_relationship-cases i r n) [
    | inl q ↦ rw q (ground (arith, length-append n.issues (no_endpoint i ∷ [])))
    | inr (from, to, _, _, q) ↦
        rw q (ground (arith, length-append n.records (relationship from r.predicate to ∷ [])))
  ]

  normalize_relationships-size :
      (i : ℕ) (rs : List RelationshipMapping) (n : Normalized)
      → size n + length rs ≤ size (normalize_relationships tokens trim connector payload i rs n)
  unfolding normalize_relationships
  normalize_relationships-size i [] n = omega arith
  normalize_relationships-size i (r ∷ rs) n = omega (
    arith,
    normalize_relationship-size i r n,
    normalize_relationships-size (suc i) rs
        (normalize_relationship tokens trim connector payload i r n),
  )

  -- A strict run that does not throw has no issues, and has derived at least as many records as the
  -- mapping has entities and relationships.
  pub normalize_custom_artifact-strict :
      (mapping : Mapping) (n : Normalized)
      → normalize_custom_artifact tokens trim connector payload mapping true ≡ some n
      → (n.issues ≡ [])
        × (length mapping.entities + length mapping.relationships ≤ length n.records)
  unfolding normalize_custom_artifact
  normalize_custom_artifact-strict mapping n h =
      let all_entities =
        normalize_entities tokens trim connector payload 0 mapping.entities start in
      let result =
        normalize_relationships tokens trim connector payload 0 mapping.relationships
          all_entities in
      let same : result ≡ n = ground (arith, h) in
      let clean : n.issues ≡ [] = ground (arith, h) in
      let counted : length mapping.entities + length mapping.relationships ≤ size n =
        subst (λ (x : Normalized). length mapping.entities + length mapping.relationships ≤ size x)
          same
          (omega (
            arith,
            normalize_entities-size 0 mapping.entities start,
            normalize_relationships-size 0 mapping.relationships all_entities,
          )) in
      (clean, ground (arith, clean, counted))
