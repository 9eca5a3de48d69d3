-- ===== src/Graph/Tallied.antt =====
-- The tally of a run: it counts what the run wrote.
use ai_de.Common.{
  List-cases, ℕ, ◌+◌, ◌≤◌, ◌≡◌, refl, subst, inl, inr, List, [], ◌∷◌, length, if◌then◌else◌, arith,
  Option-cases, Bool-cases,
}
use ai_de.Identity.Refs.{ExternalRef, Normalizers}
use ai_de.Identity.Refs.Keys.{deterministic_keys}
use ai_de.Graph.{
  Cipher, Ids, Scope, upsert_refs, merge_hit, insert_row, matches, normalize_refs, type_name, Graph,
  limit_one, Result, ok, err, CanonicalEntity, UpsertEntityResult, EdgeRow, upsert_entity_by_ref,
}
use ai_de.Graph.Edges.{upsert_relationship, resolve_endpoint_ref}
use ai_de.Graph.Resolve.{tiers, first_hit, resolve_hit, insert_resolved, resolve_entity}
use ai_de.Graph.Persist.{
  CanonicalRecord, entity_record, relationship_record, Setting, Run, has_identity, resolve_record,
  detected, after_upsert, upsert_record, edge_of, connect, relate_record, each,
}
use ai_de.Graph.Persisted.{Result-cases, Holds}

-- The sum of what the records of a list weigh.
abbrev pub total : (CanonicalRecord → ℕ) → List CanonicalRecord → ℕ
total w [] = 0
total w (r ∷ rs) = w r + total w rs

-- A run whose tally is that of its writes since `g`.
abbrev pub IsTallied : Graph → Run → Type 0
IsTallied g run =
    (length run.graph.edges ≡ length g.edges + run.tally.relationships_upserted)
    × (length run.graph.facts ≡ length g.facts + run.tally.facts_synthesized)
    × (length run.graph.evidence ≡ length g.evidence + run.tally.facts_synthesized)

-- A graph that differs in its entities only.
abbrev pub KeepsTo {ℓ} : {A : Type ℓ} → Graph → Result (A × Graph) → Type 0
KeepsTo g (ok p) = (p.1.edges ≡ g.edges) × (p.1.facts ≡ g.facts) × (p.1.evidence ≡ g.evidence)
KeepsTo g (err e) = Unit

module _ (cipher : Cipher) (ids : Ids) (c : Scope) where
  upsert_refs-KeepsTo :
      (refs : List ExternalRef) (e : CanonicalEntity) (g : Graph)
      → KeepsTo g (upsert_refs cipher ids c refs e g)
  unfolding upsert_refs merge_hit insert_row
  upsert_refs-KeepsTo refs e g = elim (Option-cases (limit_one ids (matches c e.type refs) g)) [
    | inl q ↦ rw (q, upsert_refs) (refl, refl, refl)
    | inr (hit, q) ↦ elim (Option-cases (cipher.open_json hit.attributes)) [
      | inl p ↦ rw (q, upsert_refs, p, merge_hit) tt
      | inr (existing, p) ↦ rw (q, upsert_refs, p, merge_hit) (refl, refl, refl)
    ]
  ]

  pub upsert_entity_by_ref-KeepsTo :
      (e : CanonicalEntity) (g : Graph) → KeepsTo g (upsert_entity_by_ref cipher ids c e g)
  unfolding upsert_entity_by_ref
  upsert_entity_by_ref-KeepsTo e g = elim (List-cases (normalize_refs e.external_refs)) [
    | inl q ↦ rw (q, upsert_entity_by_ref) tt
    | inr (r, rs, q) ↦ rw (q, upsert_entity_by_ref) (upsert_refs-KeepsTo (r ∷ rs) e g)
  ]

  pub resolve_entity-KeepsTo :
      (n : Normalizers) (e : CanonicalEntity) (g : Graph)
      → KeepsTo g (resolve_entity n cipher ids c e g)
  unfolding resolve_entity insert_resolved resolve_hit
  resolve_entity-KeepsTo n e g =
      let keys = deterministic_keys n (type_name e.type) e.external_refs in
      elim (Option-cases (first_hit n cipher ids c e keys (tiers [] keys) g)) [
        | inl q ↦ rw (q, resolve_entity) (refl, refl, refl)
        | inr (h, q) ↦ elim (Option-cases (cipher.open_json h.row.attributes)) [
          | inl p ↦ rw (q, resolve_entity, p, resolve_hit) tt
          | inr (existing, p) ↦ rw (q, resolve_entity, p, resolve_hit) (refl, refl, refl)
        ]
      ]

-- A run that has counted so many more resolved and upserted entities, and at most so many more
-- relationships.
abbrev pub Advances : ℕ → ℕ → ℕ → Run → Run → Type 0
Advances a b d run next =
    (next.tally.entities_resolved ≡ run.tally.entities_resolved + a)
    × (next.tally.entities_upserted ≡ run.tally.entities_upserted + b)
    × (next.tally.relationships_upserted + next.tally.relationships_deferred
        ≤ run.tally.relationships_upserted + run.tally.relationships_deferred + d)

pub Holds-map :
    (P Q : Run → Type 0) (r : Result Run) → ((run : Run) → P run → Q run) → Holds P r → Holds Q r
Holds-map P Q (ok run) f h = f run h
Holds-map P Q (err e) f h = tt

pub each-Advances :
    (u v w : CanonicalRecord → ℕ) (step : CanonicalRecord → Run → Result Run)
    → ((r : CanonicalRecord) (run : Run) → Holds (Advances (u r) (v r) (w r) run) (step r run))
    → (rs : List CanonicalRecord) (run : Run)
    → Holds (Advances (total u rs) (total v rs) (total w rs) run) (each step rs run)
unfolding each
each-Advances u v w step h [] run = (omega arith, omega arith, omega arith)
each-Advances u v w step h (r ∷ rs) run = elim (Result-cases (step r run)) [
  | inl (next, q) ↦
      rw (q, each)
        (let (a, b, d) = subst (Holds (Advances (u r) (v r) (w r) run)) q (h r run) in
          Holds-map (Advances (total u rs) (total v rs) (total w rs) next) _ (each step rs next)
            (λ last (a', b', d').
              (omega (arith, a, a'), omega (arith, b, b'), omega (arith, d, d')))
            (each-Advances u v w step h rs next))
  | inr (e, q) ↦ rw (q, each) tt
]

abbrev pub nothing : CanonicalRecord → ℕ
nothing r = 0

pub total-nothing : (rs : List CanonicalRecord) → total nothing rs ≡ 0
total-nothing [] = refl
total-nothing (r ∷ rs) = omega (arith, total-nothing rs)

-- Whether a record is a person or an organisation, another entity, or a relationship.
abbrev pub identities : CanonicalRecord → ℕ
identities (entity_record e) = if has_identity e.type then 1 else 0
identities (relationship_record r) = 0

abbrev pub others : CanonicalRecord → ℕ
others (entity_record e) = if has_identity e.type then 0 else 1
others (relationship_record r) = 0

abbrev pub relationships : CanonicalRecord → ℕ
relationships (entity_record e) = 0
relationships (relationship_record r) = 1

module _ (s : Setting) where
  pub resolve_record-Advances :
      (r : CanonicalRecord) (run : Run)
      → Holds (Advances (identities r) 0 0 run) (resolve_record s r run)
  unfolding resolve_record
  resolve_record-Advances (relationship_record r) run = (omega arith, omega arith, omega arith)
  resolve_record-Advances (entity_record e) run = elim (Bool-cases (has_identity e.type)) [
    | inl t ↦
        rw (t, resolve_record)
          elim (Result-cases (resolve_entity s.normalizers s.cipher s.ids s.scope e run.graph)) [
            | inl ((u, g), q) ↦ rw q (omega arith, omega arith, omega arith)
            | inr (x, q) ↦ rw q tt
          ]
    | inr t ↦ rw (t, resolve_record) (omega arith, omega arith, omega arith)
  ]

  after_upsert-Advances :
      (u : UpsertEntityResult) (e : CanonicalEntity) (g : Graph) (run : Run)
      → Advances 0 1 0 run (after_upsert s u e g run.tally)
  unfolding after_upsert
  after_upsert-Advances u e g run = elim (Option-cases (detected s u e)) [
    | inl q ↦ rw (q, after_upsert) (omega arith, omega arith, omega arith)
    | inr (change, q) ↦ rw (q, after_upsert) (omega arith, omega arith, omega arith)
  ]

  pub upsert_record-Advances :
      (r : CanonicalRecord) (run : Run)
      → Holds (Advances 0 (others r) 0 run) (upsert_record s r run)
  unfolding upsert_record
  upsert_record-Advances (relationship_record r) run = (omega arith, omega arith, omega arith)
  upsert_record-Advances (entity_record e) run = elim (Bool-cases (has_identity e.type)) [
    | inl t ↦ rw (t, upsert_record) (omega arith, omega arith, omega arith)
    | inr t ↦
        rw (t, upsert_record)
          elim (Result-cases (upsert_entity_by_ref s.cipher s.ids s.scope e run.graph)) [
            | inl ((u, g), q) ↦ rw q (after_upsert-Advances u e g run)
            | inr (x, q) ↦ rw q tt
          ]
  ]

  connect-Advances : (e : EdgeRow) (run : Run) → Advances 0 0 1 run (connect s e run)
  unfolding connect upsert_relationship
  connect-Advances e run = ground arith

  pub relate_record-Advances :
      (r : CanonicalRecord) (run : Run)
      → Holds (Advances 0 0 (relationships r) run) (relate_record s r run)
  unfolding relate_record
  relate_record-Advances (entity_record e) run = (omega arith, omega arith, omega arith)
  relate_record-Advances (relationship_record r) run =
      elim (Option-cases (resolve_endpoint_ref s.ids s.scope r.from run.graph)) [
        | inl q ↦ rw (q, relate_record) (omega arith, omega arith, omega arith)
        | inr (from, q) ↦ elim (Option-cases (resolve_endpoint_ref s.ids s.scope r.to run.graph)) [
          | inl p ↦ rw (q, p, relate_record) (omega arith, omega arith, omega arith)
          | inr (to, p) ↦ rw (q, p, relate_record) (connect-Advances (edge_of s r from to) run)
        ]
      ]
