-- ===== src/Graph/Ends.antt =====
-- The edges of the graph: unique by their key, with both ends among the rows of their engagement.
use ai_de.Common.{
  inl, inr, String, Bool, ◌≡◌, sym, ap, ◌∙◌, subst, true, ◌&&◌, Option, none, some, List, [], ◌∷◌,
  any, find, find_holds, str_eq, str_eq_iff, if_elim, All, All-map, All-append, IsApart,
  IsApart-snoc, arith, Option-cases, Bool-cases,
}
use mathlib.Core.Option.{some-injective}
use ai_de.Identity.Refs.{ExternalRef}
use ai_de.Graph.{NodeRow, FactRow, NodeKind, entity, fact, EdgeRow, Graph, Ids, Scope, limit_one}
use ai_de.Graph.Picked.{limit_one_lem, mem-any}
use ai_de.Graph.Edges.{
  same_edge, upsert_relationship, Endpoint, resolve_fact, resolve_endpoint_ref, has_ref, is_fact,
}

-- Whether a node of an engagement is there.
abbrev pub is_node_row : String → String → String → NodeRow → Bool
is_node_row tenant engagement id row =
    str_eq row.tenant_id tenant && (str_eq row.engagement_id engagement && str_eq row.id id)

abbrev pub is_node_fact : String → String → String → FactRow → Bool
is_node_fact tenant engagement id row =
    str_eq row.tenant_id tenant && (str_eq row.engagement_id engagement && str_eq row.id id)

abbrev pub has_node : Graph → String → String → NodeKind → String → Bool
has_node g tenant engagement entity id = any (is_node_row tenant engagement id) g.entities
has_node g tenant engagement fact id = any (is_node_fact tenant engagement id) g.facts

abbrev pub IsAnchored : Graph → EdgeRow → Type 0
IsAnchored g e =
    (has_node g e.tenant_id e.engagement_id e.from_kind e.from_id ≡ true)
    × (has_node g e.tenant_id e.engagement_id e.to_kind e.to_id ≡ true)

-- The edges are unique by their key, and anchored.
abbrev pub HasEnds : Graph → Type 0
HasEnds g = IsApart same_edge [] g.edges × All (IsAnchored g) g.edges

-- A graph with the same edges that has every node of the other one.
abbrev pub Grows : Graph → Graph → Type 0
Grows g h =
    (h.edges ≡ g.edges)
    × ((tenant engagement : String) (k : NodeKind) (id : String)
        → has_node g tenant engagement k id ≡ true
        → has_node h tenant engagement k id ≡ true)

pub Grows-HasEnds : (g h : Graph) → Grows g h → HasEnds g → HasEnds h
Grows-HasEnds g h (same, more) (apart, anchored) = (
  subst (IsApart same_edge []) (sym same) apart,
  subst (All (IsAnchored h)) (sym same) (
      All-map (IsAnchored g) (IsAnchored h)
        (λ e r. (
          more e.tenant_id e.engagement_id e.from_kind e.from_id r.0,
          more e.tenant_id e.engagement_id e.to_kind e.to_id r.1,
        ))
        g.edges anchored),
)

find-any {ℓ} :
    {A : Type ℓ} (p q : A → Bool) (xs : List A) {x : A}
    → find p xs ≡ some x
    → q x ≡ true
    → any q xs ≡ true
find-any p q [] h k = cc
find-any p q (y ∷ ys) {x} h k = elim (Bool-cases (p y)) [
  | inl e ↦
      let same : y ≡ x = some-injective y _ (rw e at h) in
      let holds : q y ≡ true = ap q same ∙ k in ground (arith, holds)
  | inr e ↦ let rest = find-any p q ys (rw e at h) k in ground (arith, rest)
]

module _ (ids : Ids) (c : Scope) where
  entity_found :
      (r : ExternalRef) (g : Graph) (row : NodeRow)
      → limit_one ids (has_ref ids c r) g ≡ some row
      → has_node g c.tenant_id c.engagement_id entity row.id ≡ true
  entity_found r g row h =
      let (m, holds) = limit_one_lem ids (has_ref ids c r) g row h in
      mem-any (is_node_row c.tenant_id c.engagement_id row.id) m
        (ground (arith, holds, str_eq_iff row.id row.id))

  fact_found :
      (id : String) (g : Graph) (row : FactRow)
      → find (is_fact ids c id) g.facts ≡ some row
      → has_node g c.tenant_id c.engagement_id fact row.id ≡ true
  fact_found id g row h =
      let holds = find_holds (is_fact ids c id) g.facts h in
      find-any (is_fact ids c id) (is_node_fact c.tenant_id c.engagement_id row.id) g.facts h
        (ground (arith, holds, str_eq_iff row.id row.id))

  -- An endpoint that is resolved is a node of the engagement.
  abbrev pub IsNode : Graph → Option Endpoint → Type 0
  IsNode g none = Unit
  IsNode g (some p) = has_node g c.tenant_id c.engagement_id p.kind p.id ≡ true

  resolve_fact-IsNode : (r : ExternalRef) (g : Graph) → IsNode g (resolve_fact ids c r g)
  unfolding resolve_fact
  resolve_fact-IsNode r g =
      if_elim (IsNode g) (str_eq r.connector "fde" && ids.is_uuid r.external_id)
        (λ q. elim (Option-cases (find (is_fact ids c r.external_id) g.facts)) [
          | inl e ↦ rw e tt
          | inr (row, e) ↦ rw e (fact_found r.external_id g row e)
        ])
        (λ q. tt)

  pub resolve_endpoint_ref-IsNode :
      (r : ExternalRef) (g : Graph) → IsNode g (resolve_endpoint_ref ids c r g)
  unfolding resolve_endpoint_ref
  resolve_endpoint_ref-IsNode r g = elim (Option-cases (limit_one ids (has_ref ids c r) g)) [
    | inl e ↦ rw (e, resolve_endpoint_ref) (resolve_fact-IsNode r g)
    | inr (row, e) ↦ rw (e, resolve_endpoint_ref) (entity_found r g row e)
  ]

-- An edge between nodes.
pub upsert_relationship-HasEnds :
    (e : EdgeRow) (g : Graph) → IsAnchored g e → HasEnds g → HasEnds (upsert_relationship e g).1
unfolding upsert_relationship
upsert_relationship-HasEnds e g a (apart, anchored) =
    if_elim (λ (r : Bool × Graph). HasEnds r.1) (any (same_edge e) g.edges) (λ q. (apart, anchored))
      (λ q. (
        IsApart-snoc same_edge [] g.edges e apart q,
        All-append (IsAnchored g) g.edges (e ∷ []) anchored (a, tt),
      ))
