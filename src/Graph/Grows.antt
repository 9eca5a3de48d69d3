-- ===== src/Graph/Grows.antt =====
-- The writes of graph-write.ts and resolve-entity.ts, but that of an edge, keep the edges and every
-- node of the graph.
use ai_de.Common.{
  suc, inl, inr, any-left, List-cases, ℕ, String, Bool, ◌≡◌, refl, ◌∙◌, true, Option, List, [], ◌∷◌,
  ◌++◌, any, arith, Option-cases,
}
use ai_de.Tenancy.{update_where}
use ai_de.Identity.Refs.{ExternalRef, Normalizers, normalize_external_refs}
use ai_de.Identity.Refs.Keys.{deterministic_keys}
use ai_de.Graph.{
  matches, limit_one, normalize_refs, type_name, NodeRow, NodeKind, entity, fact, Graph, Cipher,
  Ids, Scope, Result, ok, err, CanonicalEntity, upsert_entity_by_ref, upsert_refs, merge_hit,
  insert_row, insert_status_change_fact, merged_row, new_row, is_hit,
}
use ai_de.Graph.Resolve.{
  tiers, resolve_entity, resolve_hit, insert_resolved, Hit, first_hit, resolved_row,
  is_resolved_row,
}
use ai_de.Graph.Ends.{is_node_row, is_node_fact, has_node, Grows}

-- An UPDATE that keeps what a test reads.
any-update_where_same {ℓ} :
    {A : Type ℓ} (p q : A → Bool) (f : A → A) (xs : List A)
    → ((x : A) → p (f x) ≡ p x)
    → any p (update_where q f xs) ≡ any p xs
any-update_where_same p q f [] h = refl
any-update_where_same p q f (x ∷ xs) h = ground (arith, h x, any-update_where_same p q f xs h)

-- Entities that keep their rows as far as nodes go.
entities_grow :
    (g : Graph) (es : List NodeRow) (d : ℕ)
    → ((t e id : String)
        → any (is_node_row t e id) g.entities ≡ true
        → any (is_node_row t e id) es ≡ true)
    → Grows g (record g { entities = es; draws = d })
entities_grow g es d c = (refl, λ t e k id m. grown t e id k m)
  where
    grown :
        (t e id : String) (k : NodeKind)
        → has_node g t e k id ≡ true
        → has_node (record g { entities = es; draws = d }) t e k id ≡ true
    grown t e id entity m = c t e id m
    grown t e id fact m = m

module _ (cipher : Cipher) (ids : Ids) (c : Scope) where
  pub insert_status_change_fact-Grows :
      (summary : String) (body : Option String) (at_time source : String) (g : Graph)
      → Grows g (insert_status_change_fact cipher ids c summary body at_time source g)
  unfolding insert_status_change_fact
  insert_status_change_fact-Grows summary body at_time source g =
      (refl, λ t e k id m. grown t e id k m)
    where
      grown :
          (t e id : String) (k : NodeKind)
          → has_node g t e k id ≡ true
          → has_node (insert_status_change_fact cipher ids c summary body at_time source g) t e k id
            ≡ true
      grown t e id entity m = m
      grown t e id fact m = any-left (is_node_fact t e id) g.facts _ m

  -- The graph behind a result, if there is one.
  abbrev pub GrowsTo {ℓ} : {A : Type ℓ} → Graph → Result (A × Graph) → Type 0
  GrowsTo g (ok p) = Grows g p.1
  GrowsTo g (err e) = Unit

  merge_hit-Grows :
      (refs : List ExternalRef) (e : CanonicalEntity) (hit : NodeRow) (g : Graph)
      → GrowsTo g (merge_hit cipher ids c refs e hit g)
  unfolding merge_hit
  merge_hit-Grows refs e hit g = elim (Option-cases (cipher.open_json hit.attributes)) [
    | inl q ↦ rw (q, merge_hit) tt
    | inr (existing, q) ↦
        rw (q, merge_hit)
          (entities_grow g _ (suc g.draws) (λ t en id m.
            any-update_where_same (is_node_row t en id) (is_hit c hit.id)
              (merged_row cipher ids c hit existing refs e g.draws) g.entities (λ x. refl)
            ∙ m))
  ]

  insert_row-Grows :
      (refs : List ExternalRef) (e : CanonicalEntity) (g : Graph)
      → GrowsTo g (insert_row cipher ids c refs e g)
  unfolding insert_row
  insert_row-Grows refs e g =
      entities_grow g (g.entities ++ new_row cipher ids c refs e g.draws ∷ []) (suc g.draws)
        (λ t en id m. any-left (is_node_row t en id) g.entities _ m)

  upsert_refs-Grows :
      (refs : List ExternalRef) (e : CanonicalEntity) (g : Graph)
      → GrowsTo g (upsert_refs cipher ids c refs e g)
  unfolding upsert_refs
  upsert_refs-Grows refs e g = elim (Option-cases (limit_one ids (matches c e.type refs) g)) [
    | inl q ↦ rw (q, upsert_refs) (insert_row-Grows refs e g)
    | inr (hit, q) ↦ rw (q, upsert_refs) (merge_hit-Grows refs e hit g)
  ]

  pub upsert_entity_by_ref-Grows :
      (e : CanonicalEntity) (g : Graph) → GrowsTo g (upsert_entity_by_ref cipher ids c e g)
  unfolding upsert_entity_by_ref
  upsert_entity_by_ref-Grows e g = elim (List-cases (normalize_refs e.external_refs)) [
    | inl q ↦ rw (q, upsert_entity_by_ref) tt
    | inr (r, rs, q) ↦ rw (q, upsert_entity_by_ref) (upsert_refs-Grows (r ∷ rs) e g)
  ]

  module _ (n : Normalizers) where
    resolve_hit-Grows :
        (e : CanonicalEntity) (h : Hit) (g : Graph) → GrowsTo g (resolve_hit n cipher ids c e h g)
    unfolding resolve_hit
    resolve_hit-Grows e h g = elim (Option-cases (cipher.open_json h.row.attributes)) [
      | inl q ↦ rw (q, resolve_hit) tt
      | inr (existing, q) ↦
          rw (q, resolve_hit)
            (entities_grow g _ (suc g.draws) (λ t en id m.
              any-update_where_same (is_node_row t en id) (is_resolved_row n cipher ids c h.row.id)
                (resolved_row n cipher ids c h.row existing e g.draws) g.entities (λ x. refl)
              ∙ m))
    ]

    pub resolve_entity-Grows :
        (e : CanonicalEntity) (g : Graph) → GrowsTo g (resolve_entity n cipher ids c e g)
    unfolding resolve_entity insert_resolved
    resolve_entity-Grows e g =
        let keys = deterministic_keys n (type_name e.type) e.external_refs in
        elim (Option-cases (first_hit n cipher ids c e keys (tiers [] keys) g)) [
          | inl q ↦
              rw (q, resolve_entity)
                (entities_grow g
                  (g.entities
                    ++ new_row cipher ids c (normalize_external_refs n e.external_refs) e g.draws
                      ∷ [])
                  (suc g.draws) (λ t en id m. any-left (is_node_row t en id) g.entities _ m))
          | inr (h, q) ↦ rw (q, resolve_entity) (resolve_hit-Grows e h g)
        ]
