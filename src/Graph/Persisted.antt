-- ===== src/Graph/Persisted.antt =====
-- What persisting the records of an artifact does to the graph, and what its tally says.
use ai_de.Common.{◌≡◌, refl, subst, ◌⊎◌, inl, inr, List, [], ◌∷◌, if_elim, Option-cases}
use ai_de.Graph.{
  Graph, Result, ok, err, Error, CanonicalEntity, UpsertEntityResult, upsert_entity_by_ref,
  insert_status_change_fact,
}
use ai_de.Graph.Edges.{resolve_endpoint_ref}
use ai_de.Graph.Resolve.{resolve_entity}
use ai_de.Graph.Persist.{
  CanonicalRecord, entity_record, relationship_record, Setting, Run, Tally, zero_tally,
  has_identity, resolve_record, detected, after_upsert, upsert_record, edge_of, connect,
  relate_record, each, ◌>>=◌, persist_graph,
}
use ai_de.Graph.Ends.{
  HasEnds, Grows-HasEnds, IsNode, resolve_endpoint_ref-IsNode, upsert_relationship-HasEnds,
}
use ai_de.Graph.Grows.{
  GrowsTo, insert_status_change_fact-Grows, upsert_entity_by_ref-Grows, resolve_entity-Grows,
}

pub Result-cases {ℓ} :
    {A : Type ℓ} (r : Result A) → ((a : A) × (r ≡ ok a)) ⊎ ((e : Error) × (r ≡ err e))
Result-cases (ok a) = inl (a, refl)
Result-cases (err e) = inr (e, refl)

-- What holds of the run behind a result, if there is one.
abbrev pub Holds : (Run → Type 0) → Result Run → Type 0
Holds P (ok run) = P run
Holds P (err e) = Unit

pub Holds-bind :
    (P Q : Run → Type 0) (r : Result Run) (f : Run → Result Run)
    → ((run : Run) → P run → Holds Q (f run))
    → Holds P r
    → Holds Q (r >>= f)
Holds-bind P Q (ok run) f h k = h run k
Holds-bind P Q (err e) f h k = tt

pub each_keeps :
    (P : Run → Type 0) (step : CanonicalRecord → Run → Result Run)
    → ((r : CanonicalRecord) (run : Run) → P run → Holds P (step r run))
    → (rs : List CanonicalRecord) (run : Run) → P run
    → Holds P (each step rs run)
unfolding each
each_keeps P step h [] run k = k
each_keeps P step h (r ∷ rs) run k = elim (Result-cases (step r run)) [
  | inl (next, q) ↦ rw (q, each) (each_keeps P step h rs next (subst (Holds P) q (h r run k)))
  | inr (e, q) ↦ rw (q, each) tt
]

module _ (s : Setting) where
  abbrev Ended : Run → Type 0
  Ended run = HasEnds run.graph

  resolve_record-HasEnds :
      (r : CanonicalRecord) (run : Run) → Ended run → Holds Ended (resolve_record s r run)
  unfolding resolve_record
  resolve_record-HasEnds (relationship_record r) run h = h
  resolve_record-HasEnds (entity_record e) run h =
      if_elim (Holds Ended) (has_identity e.type)
        (λ t.
          elim (Result-cases (resolve_entity s.normalizers s.cipher s.ids s.scope e run.graph)) [
            | inl ((res, g), q) ↦ rw q (
                Grows-HasEnds run.graph g
                  (subst (GrowsTo s.cipher s.ids s.scope run.graph) q
                    (resolve_entity-Grows s.cipher s.ids s.scope s.normalizers e run.graph))
                  h)
            | inr (x, q) ↦ rw q tt
          ])
        (λ t. h)

  after_upsert-HasEnds :
      (u : UpsertEntityResult) (e : CanonicalEntity) (g : Graph) (t : Tally)
      → HasEnds g
      → Ended (after_upsert s u e g t)
  unfolding after_upsert
  after_upsert-HasEnds u e g t h = elim (Option-cases (detected s u e)) [
    | inl q ↦ rw (q, after_upsert) h
    | inr (change, q) ↦
        rw (q, after_upsert)
          (Grows-HasEnds g
            (insert_status_change_fact s.cipher s.ids s.scope change.summary change.body
              change.occurred_at s.source_id g)
            (insert_status_change_fact-Grows s.cipher s.ids s.scope change.summary change.body
              change.occurred_at s.source_id g)
            h)
  ]

  upsert_record-HasEnds :
      (r : CanonicalRecord) (run : Run) → Ended run → Holds Ended (upsert_record s r run)
  unfolding upsert_record
  upsert_record-HasEnds (relationship_record r) run h = h
  upsert_record-HasEnds (entity_record e) run h =
      if_elim (Holds Ended) (has_identity e.type) (λ t. h)
        (λ t. elim (Result-cases (upsert_entity_by_ref s.cipher s.ids s.scope e run.graph)) [
          | inl ((u, g), q) ↦ rw q (
              after_upsert-HasEnds u e g run.tally (
                Grows-HasEnds run.graph g
                  (subst (GrowsTo s.cipher s.ids s.scope run.graph) q
                    (upsert_entity_by_ref-Grows s.cipher s.ids s.scope e run.graph))
                  h))
          | inr (x, q) ↦ rw q tt
        ])

  relate_record-HasEnds :
      (r : CanonicalRecord) (run : Run) → Ended run → Holds Ended (relate_record s r run)
  unfolding relate_record connect
  relate_record-HasEnds (entity_record e) run h = h
  relate_record-HasEnds (relationship_record r) run h =
      elim (Option-cases (resolve_endpoint_ref s.ids s.scope r.from run.graph)) [
        | inl q ↦ rw (q, relate_record) h
        | inr (from, q) ↦ elim (Option-cases (resolve_endpoint_ref s.ids s.scope r.to run.graph)) [
          | inl p ↦ rw (q, p, relate_record) h
          | inr (to, p) ↦
              rw (q, p, relate_record)
                (upsert_relationship-HasEnds (edge_of s r from to) run.graph
                  (
                    subst (IsNode s.ids s.scope run.graph) q
                        (resolve_endpoint_ref-IsNode s.ids s.scope r.from run.graph),
                    subst (IsNode s.ids s.scope run.graph) p
                        (resolve_endpoint_ref-IsNode s.ids s.scope r.to run.graph),
                  )
                  h)
        ]
      ]

  -- A run of persistGraph that does not throw keeps the edges unique by their key, and keeps both
  -- ends of every edge among the entities and facts of the tenant and the engagement of the edge.
  pub persist_graph-HasEnds :
      (records : List CanonicalRecord) (g : Graph) (run : Run)
      → persist_graph s records g ≡ ok run
      → HasEnds g
      → HasEnds run.graph
  unfolding persist_graph
  persist_graph-HasEnds records g run q h = subst (Holds Ended) q (
      Holds-bind Ended Ended
        (each (resolve_record s) records (record { graph = g; tally = zero_tally })
          >>= (λ r. each (upsert_record s) records r))
        _ (λ r k. each_keeps Ended (relate_record s) relate_record-HasEnds records r k)
        (Holds-bind Ended Ended
          (each (resolve_record s) records (record { graph = g; tally = zero_tally })) _
          (λ r k. each_keeps Ended (upsert_record s) upsert_record-HasEnds records r k)
          (each_keeps Ended (resolve_record s) resolve_record-HasEnds records _ h)))
