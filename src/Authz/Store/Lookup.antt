-- ===== src/Authz/Store/Lookup.antt =====
-- `lookupResources` lists the resources on which `check` answers `true`.
use ai_de.Common.{
  String, ◌≡◌, refl, sym, subst, inl, inr, ◌↔◌, Bool, true, false, Option, none, some, List, [],
  ◌∷◌, map, Memᴰ, arith, str_eq, str_eq_iff, contains, filter, mem-filter_iff, Bool-cases,
}
use mathlib.Core.List.Memᴰ
use ai_de.Authz.{Tuple, SubjectRef, CheckRequest, is_on, check}
use ai_de.Authz.Grants.{Grants, direct, through_set, through_arrow, IsPlain, IsWellFormed}
use ai_de.Authz.Decides.{check-true}
use ai_de.Authz.Store.{distinct_from, resource_ids, is_true, lookup_resources}

mem-distinct_from :
    (k : String) (seen xs : List String)
    → Memᴰ k xs
    → contains k seen ≡ false
    → Memᴰ k (distinct_from seen xs)
unfolding distinct_from
mem-distinct_from k seen [] m h = elim m [ ]
mem-distinct_from k seen (x ∷ xs) (Memᴰ.head e) h =
    rw (subst (λ (y : String). contains y seen ≡ false) e h) (Memᴰ.head e)
mem-distinct_from k seen (x ∷ xs) (Memᴰ.tail m) h = elim (Bool-cases (contains x seen)) [
  | inl old ↦ rw old (mem-distinct_from k seen xs m h)
  | inr new ↦ rw new (elim (Bool-cases (str_eq x k)) [
    | inl same ↦ Memᴰ.head (sym ((str_eq_iff x k).0 same))
    | inr other ↦ Memᴰ.tail (mem-distinct_from k (x ∷ seen) xs m (ground arith))
  ])
]

-- A grant on a resource needs a tuple on that resource.
Grants-tuple :
    {tuples : List Tuple} {subject : SubjectRef} {type id name : String}
    → Grants tuples subject type id name
    → (t : Tuple) × Memᴰ t tuples × (relation : String) × (is_on type id relation t ≡ true)
Grants-tuple (direct relation t reads m on e hit) = (t, m, relation, on)
Grants-tuple (through_set relation t r reads m on e g) = (t, m, relation, on)
Grants-tuple (through_arrow relation t q rs e rule m on g) = (t, m, relation, on)

mem-resource_ids :
    (type id relation : String) (t : Tuple) (tuples : List Tuple)
    → Memᴰ t tuples
    → is_on type id relation t ≡ true
    → Memᴰ id (resource_ids type tuples)
unfolding resource_ids
mem-resource_ids type id relation t tuples m on =
    mem-distinct_from id []
      (map (λ x. x.resource_id) (filter (λ x. str_eq x.resource_type type) tuples))
      (Memᴰ.cast same (
        Memᴰ.map (λ (x : Tuple). x.resource_id)
          ((mem-filter_iff (λ x. str_eq x.resource_type type) t tuples).1 (m, same_type))))
      refl
  where
    same : id ≡ t.resource_id
    same = ground (arith, str_eq_iff t.resource_id id)

    same_type : str_eq t.resource_type type ≡ true
    same_type = ground arith

is_true_iff : (o : Option Bool) → (is_true o ≡ true) ↔ (o ≡ some true)
is_true_iff none = ground arith
is_true_iff (some b) = ground arith

abbrev pub asked : SubjectRef → String → String → String → CheckRequest
asked subject permission type id = record {
  subject = subject;
  permission = permission;
  resource_type = type;
  resource_id = id;
}

-- The ids that `lookup_resources` returns are those on which `check` answers `true`, among the ids
-- with no `#` for a type with no `:`, for well-formed relationships.
pub mem-lookup_resources :
    (tuples : List Tuple) (subject : SubjectRef) (permission type id : String)
    → IsWellFormed tuples
    → IsPlain type id
    → Memᴰ id (lookup_resources tuples subject permission type)
      ↔ (check tuples (asked subject permission type id) ≡ some true)
unfolding lookup_resources
mem-lookup_resources tuples subject permission type id formed p =
    let (to, from) =
      mem-filter_iff (λ x. is_true (check tuples (asked subject permission type x))) id
        (resource_ids type tuples) in
    (
      λ m. (is_true_iff (check tuples (asked subject permission type id))).0 (to m).1,
      λ e.
          let (t, m, relation, on) =
            Grants-tuple ((check-true tuples (asked subject permission type id) formed p).0 e) in
          from (
            mem-resource_ids type id relation t tuples m on,
            (is_true_iff (check tuples (asked subject permission type id))).1 e,
          ),
    )
