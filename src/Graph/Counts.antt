-- ===== src/Graph/Counts.antt =====
-- The tally of persistGraph against the tables and the records.
use ai_de.Common.{
  ℕ, ◌+◌, ◌≤◌, ◌≡◌, ap, ◌∙◌, subst, inl, inr, List, [], ◌∷◌, length, length-append, if_elim, arith,
  Option-cases,
}
use ai_de.Graph.{
  Graph, Result, ok, err, CanonicalEntity, UpsertEntityResult, EdgeRow, upsert_entity_by_ref,
  insert_status_change_fact,
}
use ai_de.Graph.Edges.{upsert_relationship, resolve_endpoint_ref}
use ai_de.Graph.Resolve.{resolve_entity}
use ai_de.Graph.Persist.{
  CanonicalRecord, entity_record, relationship_record, Setting, Run, Tally, zero_tally,
  has_identity, resolve_record, detected, after_upsert, upsert_record, edge_of, connect,
  relate_record, each, ◌>>=◌, persist_graph,
}
use ai_de.Graph.Persisted.{Result-cases, Holds, Holds-bind, each_keeps}
use ai_de.Graph.Tallied.{
  Holds-map, total, IsTallied, KeepsTo, upsert_entity_by_ref-KeepsTo, resolve_entity-KeepsTo,
  Advances, each-Advances, nothing, total-nothing, identities, others, relationships,
  resolve_record-Advances, upsert_record-Advances, relate_record-Advances,
}

Holds-both :
    (P Q : Run → Type 0) (r : Result Run) → Holds P r → Holds Q r → Holds (λ run. P run × Q run) r
Holds-both P Q (ok run) h k = (h, k)
Holds-both P Q (err e) h k = tt

module _ (s : Setting) (g : Graph) where
  abbrev Tallied : Run → Type 0
  Tallied run = IsTallied g run

  resolve_record-IsTallied :
      (r : CanonicalRecord) (run : Run) → Tallied run → Holds Tallied (resolve_record s r run)
  unfolding resolve_record
  resolve_record-IsTallied (relationship_record r) run h = h
  resolve_record-IsTallied (entity_record e) run (a, b, d) =
      if_elim (Holds Tallied) (has_identity e.type)
        (λ t.
          elim (Result-cases (resolve_entity s.normalizers s.cipher s.ids s.scope e run.graph)) [
            | inl ((u, h), q) ↦
                let (k, l, m) =
                  subst (KeepsTo run.graph) q
                    (resolve_entity-KeepsTo s.cipher s.ids s.scope s.normalizers e run.graph) in
                rw q (ap length k ∙ a, ap length l ∙ b, ap length m ∙ d)
            | inr (x, q) ↦ rw q tt
          ])
        (λ t. (a, b, d))

  after_upsert-IsTallied :
      (u : UpsertEntityResult) (e : CanonicalEntity) (h : Graph) (t : Tally)
      → Tallied (record { graph = h; tally = t })
      → Tallied (after_upsert s u e h t)
  unfolding after_upsert insert_status_change_fact
  after_upsert-IsTallied u e h t (a, b, d) = elim (Option-cases (detected s u e)) [
    | inl q ↦ rw (q, after_upsert) (a, b, d)
    | inr (change, q) ↦
        rw (q, after_upsert)
          (
            a,
            length-append h.facts _ ∙ omega (arith, b),
            length-append h.evidence _ ∙ omega (arith, d),
          )
  ]

  upsert_record-IsTallied :
      (r : CanonicalRecord) (run : Run) → Tallied run → Holds Tallied (upsert_record s r run)
  unfolding upsert_record
  upsert_record-IsTallied (relationship_record r) run h = h
  upsert_record-IsTallied (entity_record e) run (a, b, d) =
      if_elim (Holds Tallied) (has_identity e.type) (λ t. (a, b, d))
        (λ t. elim (Result-cases (upsert_entity_by_ref s.cipher s.ids s.scope e run.graph)) [
          | inl ((u, h), q) ↦
              let (k, l, m) =
                subst (KeepsTo run.graph) q
                  (upsert_entity_by_ref-KeepsTo s.cipher s.ids s.scope e run.graph) in
              rw q (
                after_upsert-IsTallied u e h run.tally
                  (ap length k ∙ a, ap length l ∙ b, ap length m ∙ d))
          | inr (x, q) ↦ rw q tt
        ])

  connect-IsTallied : (e : EdgeRow) (run : Run) → Tallied run → Tallied (connect s e run)
  unfolding connect upsert_relationship
  connect-IsTallied e run (a, b, d) =
      ground (arith, a, b, d, length-append run.graph.edges (e ∷ []))

  relate_record-IsTallied :
      (r : CanonicalRecord) (run : Run) → Tallied run → Holds Tallied (relate_record s r run)
  unfolding relate_record
  relate_record-IsTallied (entity_record e) run h = h
  relate_record-IsTallied (relationship_record r) run h =
      elim (Option-cases (resolve_endpoint_ref s.ids s.scope r.from run.graph)) [
        | inl q ↦ rw (q, relate_record) h
        | inr (from, q) ↦ elim (Option-cases (resolve_endpoint_ref s.ids s.scope r.to run.graph)) [
          | inl p ↦ rw (q, p, relate_record) h
          | inr (to, p) ↦ rw (q, p, relate_record) (connect-IsTallied (edge_of s r from to) run h)
        ]
      ]

  -- Tallied, with so many more counted since the start.
  abbrev Done : ℕ → ℕ → ℕ → Run → Run → Type 0
  Done a b d start run = Tallied run × Advances a b d start run

  stage :
      (step : CanonicalRecord → Run → Result Run)
      → ((r : CanonicalRecord) (run : Run) → Tallied run → Holds Tallied (step r run))
      → (u v w : CanonicalRecord → ℕ)
      → ((r : CanonicalRecord) (run : Run) → Holds (Advances (u r) (v r) (w r) run) (step r run))
      → (rs : List CanonicalRecord) (run : Run) (a b d : ℕ) (start : Run) → Done a b d start run
      → Holds (Done (a + total u rs) (b + total v rs) (d + total w rs) start) (each step rs run)
  stage step keeps u v w adds rs run a b d start (t, (x, y, z)) =
      Holds-both Tallied (Advances (a + total u rs) (b + total v rs) (d + total w rs) start)
        (each step rs run) (each_keeps Tallied step keeps rs run t)
        (Holds-map (Advances (total u rs) (total v rs) (total w rs) run) _ (each step rs run)
          (λ r (x', y', z'). (omega (arith, x, x'), omega (arith, y, y'), omega (arith, z, z')))
          (each-Advances u v w step adds rs run))

  -- After a run that does not throw, the tables of edges, facts and evidence have grown by what the
  -- tally says, the tally counts every person and organisation as resolved and every other entity
  -- as upserted, and the edges inserted and deferred are at most the relationships of the artifact.
  pub persist_graph-IsTallied :
      (records : List CanonicalRecord) (run : Run)
      → persist_graph s records g ≡ ok run
      → IsTallied g run
        × (run.tally.entities_resolved ≡ total identities records)
        × (run.tally.entities_upserted ≡ total others records)
        × (run.tally.relationships_upserted + run.tally.relationships_deferred
            ≤ total relationships records)
  unfolding persist_graph
  persist_graph-IsTallied records run q =
      let start : Run = record { graph = g; tally = zero_tally } in
      let first = each (resolve_record s) records start in
      let second = first >>= (λ r. each (upsert_record s) records r) in
      let a = total identities records in
      let b = total others records in
      let d = total relationships records in
      let n = total nothing records in
      let zero_more = total-nothing records in
      let begun : Done 0 0 0 start start =
        ((omega arith, omega arith, omega arith), (omega arith, omega arith, omega arith)) in
      let (done, (res, ups, rel)) =
        subst (Holds (Done (0 + a + n + n) (0 + n + b + n) (0 + n + n + d) start)) q (
          Holds-bind (Done (0 + a + n) (0 + n + b) (0 + n + n) start) _ second _
            (λ r k.
              stage (relate_record s) relate_record-IsTallied nothing nothing relationships
                (relate_record-Advances s) records r (0 + a + n) (0 + n + b) (0 + n + n) start k)
            (Holds-bind (Done (0 + a) (0 + n) (0 + n) start) _ first _
              (λ r k.
                stage (upsert_record s) upsert_record-IsTallied nothing others nothing
                  (upsert_record-Advances s) records r (0 + a) (0 + n) (0 + n) start k)
              (stage (resolve_record s) resolve_record-IsTallied identities nothing nothing
                (resolve_record-Advances s) records start 0 0 0 start begun))) in
      (
        done,
        omega (arith, res, zero_more),
        omega (arith, ups, zero_more),
        omega (arith, rel, zero_more),
      )
