-- ===== src/Identity/ReviewQueue/Edges.antt =====
-- Moving the edges of one entity onto another.
use ai_de.Common.{
  ℕ, String, ◌≡◌, ◌≢◌, refl, inl, inr, Bool, true, false, not, ◌||◌, ◌&&◌, List, [], ◌∷◌, ◌++◌,
  arith, any, any-append, All, filter, str_eq_iff, Bool-cases,
}
use ai_de.Identity.ReviewQueue.{
  Edge, same_key, is_end, touches, moved_edge, is_self_edge, insert_one, insert_moved, moved_edges,
  repoint_entity_edges,
}

-- A table with an edge of that key.
abbrev pub has_key : Edge → List Edge → Bool
has_key k es = any (same_key k) es

-- The unique index: no two edges have the same key.
abbrev pub IsKeyed : List Edge → Type 0
IsKeyed [] = Unit
IsKeyed (e ∷ es) = (has_key e es ≡ false) × IsKeyed es

same_key_comm : (a b : Edge) → same_key a b ≡ same_key b a
unfolding same_key
same_key_comm a b = ground (
  arith,
  str_eq_iff a.from_kind b.from_kind,
  str_eq_iff a.from_id b.from_id,
  str_eq_iff a.predicate b.predicate,
  str_eq_iff a.to_kind b.to_kind,
  str_eq_iff a.to_id b.to_id,
  str_eq_iff b.from_kind a.from_kind,
  str_eq_iff b.from_id a.from_id,
  str_eq_iff b.predicate a.predicate,
  str_eq_iff b.to_kind a.to_kind,
  str_eq_iff b.to_id a.to_id,
)

has_key-filter :
    (p : Edge → Bool) (k : Edge) (es : List Edge)
    → has_key k es ≡ false
    → has_key k (filter p es) ≡ false
has_key-filter p k [] h = refl
has_key-filter p k (e ∷ es) h = ground (arith, has_key-filter p k es)

same_key_trans : (a b c : Edge) → same_key a b ≡ true → same_key a c ≡ same_key b c
unfolding same_key
same_key_trans a b c h = ground (
  arith,
  str_eq_iff a.from_kind b.from_kind,
  str_eq_iff a.from_id b.from_id,
  str_eq_iff a.predicate b.predicate,
  str_eq_iff a.to_kind b.to_kind,
  str_eq_iff a.to_id b.to_id,
)

has_key-same : (a b : Edge) (es : List Edge) → same_key a b ≡ true → has_key a es ≡ has_key b es
has_key-same a b [] h = refl
has_key-same a b (e ∷ es) h = ground (arith, same_key_trans a b e h, has_key-same a b es h)

-- The keys that may be moved: those of the edges that are no loop.
abbrev pub movable : Edge → List Edge → Bool
movable k es = any (λ e. same_key k e && not (is_self_edge e)) es

append-IsKeyed :
    (es : List Edge) (e : Edge) → IsKeyed es → has_key e es ≡ false → IsKeyed (es ++ e ∷ [])
append-IsKeyed [] e h k = (refl, tt)
append-IsKeyed (x ∷ es) e h k = (
  ground (arith, h.0, any-append (same_key x) es (e ∷ []), same_key_comm x e),
  append-IsKeyed es e h.1 (ground arith),
)

insert_one-IsKeyed : (e : Edge) (acc : List Edge × ℕ) → IsKeyed acc.0 → IsKeyed (insert_one e acc).0
unfolding insert_one
insert_one-IsKeyed e acc h = elim (Bool-cases (is_self_edge e || has_key e acc.0)) [
  | inl q ↦ rw (q, insert_one) h
  | inr q ↦ rw (q, insert_one) (append-IsKeyed acc.0 e h (ground (arith, q)))
]

insert_moved-IsKeyed :
    (es : List Edge) (acc : List Edge × ℕ) → IsKeyed acc.0 → IsKeyed (insert_moved es acc).0
unfolding insert_moved
insert_moved-IsKeyed [] acc h = h
insert_moved-IsKeyed (e ∷ es) acc h =
    insert_moved-IsKeyed es (insert_one e acc) (insert_one-IsKeyed e acc h)

filter-IsKeyed : (p : Edge → Bool) (es : List Edge) → IsKeyed es → IsKeyed (filter p es)
filter-IsKeyed p [] h = tt
filter-IsKeyed p (e ∷ es) h = elim (Bool-cases (p e)) [
  | inl q ↦ rw q (ground (arith, h.0, has_key-filter p e es), filter-IsKeyed p es h.1)
  | inr q ↦ rw q (filter-IsKeyed p es h.1)
]

moved_edge-is_end :
    (tenant from to : String) (e : Edge)
    → from ≢ to
    → is_end from (moved_edge tenant from to e) ≡ false
unfolding is_end moved_edge
moved_edge-is_end tenant from to e n = ground (
  arith,
  str_eq_iff from to,
  str_eq_iff to from,
  str_eq_iff e.from_id from,
  str_eq_iff e.to_id from,
)

same_key-is_end : (from : String) (a b : Edge) → same_key a b ≡ true → is_end from a ≡ is_end from b
unfolding same_key is_end
same_key-is_end from a b h = ground (
  arith,
  str_eq_iff a.from_kind b.from_kind,
  str_eq_iff a.from_id b.from_id,
  str_eq_iff a.to_kind b.to_kind,
  str_eq_iff a.to_id b.to_id,
)

module _ (tenant from : String) where
  -- What the final DELETE leaves.
  abbrev pub left : List Edge → List Edge
  left es = filter (λ e. not (touches tenant from e)) es

  has_key-left :
      (k : Edge) (es : List Edge) → is_end from k ≡ false → has_key k (left es) ≡ has_key k es
  unfolding touches
  has_key-left k [] h = refl
  has_key-left k (e ∷ es) h = ground (arith, same_key-is_end from k e, has_key-left k es h)

  left-append : (es fs : List Edge) → left (es ++ fs) ≡ left es ++ left fs
  left-append [] fs = refl
  left-append (e ∷ es) fs = ground (arith, left-append es fs)

  left-insert_one :
      (k e : Edge) (acc : List Edge × ℕ)
      → is_end from e ≡ false
      → has_key k (left (insert_one e acc).0)
        ≡ (has_key k (left acc.0) || (same_key k e && not (is_self_edge e)))
  unfolding insert_one touches
  left-insert_one k e acc h = ground (
    arith,
    left-append acc.0 (e ∷ []),
    any-append (same_key k) (left acc.0) (left (e ∷ [])),
    has_key-same k e (left acc.0),
    has_key-left e acc.0 h,
  )

  left-insert_moved :
      (k : Edge) (es : List Edge) (acc : List Edge × ℕ)
      → All (λ e. is_end from e ≡ false) es
      → has_key k (left (insert_moved es acc).0) ≡ (has_key k (left acc.0) || movable k es)
  unfolding insert_moved
  left-insert_moved k [] acc a = ground arith
  left-insert_moved k (e ∷ es) acc a =
      ground (arith, left-insert_one k e acc a.0, left-insert_moved k es (insert_one e acc) a.1)

  none_touches : (es : List Edge) → any (touches tenant from) (left es) ≡ false
  none_touches [] = refl
  none_touches (e ∷ es) = ground (arith, none_touches es)

  pub repoint-touches :
      (to : String) (edges : List Edge)
      → any (touches tenant from) (repoint_entity_edges tenant from to edges).0 ≡ false
  unfolding repoint_entity_edges
  repoint-touches to edges =
      none_touches (insert_moved (moved_edges tenant from to edges) (edges, 0)).0

  module _ (to : String) (apart : from ≢ to) where
    moved_edges-ends :
        (es : List Edge) → All (λ e. is_end from e ≡ false) (moved_edges tenant from to es)
    unfolding moved_edges
    moved_edges-ends [] = tt
    moved_edges-ends (e ∷ es) = elim (Bool-cases (touches tenant from e)) [
      | inl q ↦ rw q (moved_edge-is_end tenant from to e apart, moved_edges-ends es)
      | inr q ↦ rw q (moved_edges-ends es)
    ]

    -- Moving the edges of one entity onto another one, in a table with a unique key: no edge of the
    -- tenant ends at the first entity any more, the key stays unique, and the keys in the table are
    -- those of the edges that did not touch the entity and those of the moved edges that are no
    -- loop.
    pub repoint_entity_edges_lem :
        (edges : List Edge)
        → IsKeyed edges
        → let after = (repoint_entity_edges tenant from to edges).0 in
          (any (touches tenant from) after ≡ false)
          × IsKeyed after
          × ((k : Edge)
              → has_key k after
                ≡ (has_key k (left edges) || movable k (moved_edges tenant from to edges)))
    unfolding repoint_entity_edges
    repoint_entity_edges_lem edges h =
        let moved = moved_edges tenant from to edges in
        (
          none_touches (insert_moved moved (edges, 0)).0,
          filter-IsKeyed (λ e. not (touches tenant from e)) (insert_moved moved (edges, 0)).0
              (insert_moved-IsKeyed moved (edges, 0) h),
          λ k. left-insert_moved k moved (edges, 0) (moved_edges-ends edges),
        )
