-- ===== src/Authz/Store/Writes.antt =====
-- The tuples under `writeRelationships` and `deleteRelationships`.
use ai_de.Common.{
  ◌≡◌, refl, sym, ap, ◌∙◌, inl, inr, subst, if_elim, ◌&&◌, Bool-cases, ◌↔◌, Bool, true, false, not,
  some, or_else, List, [], ◌∷◌, ◌++◌, arith, str_eq_iff, filter, if◌then◌else◌,
}
use ai_de.Authz.{
  Tuple, RelationshipOp, create, touch, delete, RelationshipUpdate, RelationshipFilter,
}
use ai_de.Authz.Store.{
  same_tuple, holds_tuple, remove_first, written, already_exists, WriteOutcome, write_one,
  write_relationships, matches_filter, delete_relationships,
}

-- `same_tuple` compares what is left when a missing sub-relation is read as the empty text.
abbrev pub canonical : Tuple → Tuple
canonical t = record t { subject_relation = some (or_else t.subject_relation "") }

pub same_tuple_iff : (a b : Tuple) → (same_tuple a b ≡ true) ↔ (canonical a ≡ canonical b)
unfolding same_tuple
same_tuple_iff a b = ground (
  arith,
  str_eq_iff a.resource_type b.resource_type,
  str_eq_iff a.resource_id b.resource_id,
  str_eq_iff a.relation b.relation,
  str_eq_iff a.subject_type b.subject_type,
  str_eq_iff a.subject_id b.subject_id,
  str_eq_iff (or_else a.subject_relation "") (or_else b.subject_relation ""),
)

same_tuple_comm : (a b : Tuple) → same_tuple a b ≡ same_tuple b a
same_tuple_comm a b = ground (arith, same_tuple_iff a b, same_tuple_iff b a)

same_tuple-canonical : (x a b : Tuple) → canonical a ≡ canonical b → same_tuple x a ≡ same_tuple x b
same_tuple-canonical x a b e = ground (arith, same_tuple_iff x a, same_tuple_iff x b)

holds_tuple-canonical :
    (a b : Tuple) (ts : List Tuple)
    → canonical a ≡ canonical b
    → holds_tuple a ts ≡ holds_tuple b ts
unfolding holds_tuple
holds_tuple-canonical a b [] e = refl
holds_tuple-canonical a b (x ∷ ts) e =
    ground (arith, same_tuple-canonical x a b e, holds_tuple-canonical a b ts e)

-- No relationship is stored twice.
abbrev pub IsDistinct : List Tuple → Type 0
IsDistinct [] = Unit
IsDistinct (t ∷ ts) = (holds_tuple t ts ≡ false) × IsDistinct ts

holds_tuple-remove_first :
    (t u : Tuple) (ts : List Tuple)
    → holds_tuple u ts ≡ false
    → holds_tuple u (remove_first t ts) ≡ false
unfolding holds_tuple remove_first
holds_tuple-remove_first t u [] h = refl
holds_tuple-remove_first t u (x ∷ ts) h = ground (arith, holds_tuple-remove_first t u ts)

remove_first-IsDistinct :
    (t : Tuple) (ts : List Tuple) → IsDistinct ts → IsDistinct (remove_first t ts)
unfolding remove_first
remove_first-IsDistinct t [] h = tt
remove_first-IsDistinct t (x ∷ ts) h =
    ground (arith, remove_first-IsDistinct t ts h.1, holds_tuple-remove_first t x ts h.0)

remove_first_gone :
    (t : Tuple) (ts : List Tuple) → IsDistinct ts → holds_tuple t (remove_first t ts) ≡ false
unfolding holds_tuple remove_first
remove_first_gone t [] h = refl
remove_first_gone t (x ∷ ts) h =
    ground (arith, remove_first_gone t ts h.1, same_tuple_iff x t, holds_tuple-canonical x t ts)

pub holds_tuple-append :
    (t u : Tuple) (ts : List Tuple)
    → holds_tuple u (ts ++ t ∷ []) ≡ (if holds_tuple u ts then true else same_tuple t u)
unfolding holds_tuple
holds_tuple-append t u [] = ground arith
holds_tuple-append t u (x ∷ ts) = ground (arith, holds_tuple-append t u ts)

append-IsDistinct :
    (t : Tuple) (ts : List Tuple)
    → holds_tuple t ts ≡ false
    → IsDistinct ts
    → IsDistinct (ts ++ t ∷ [])
unfolding holds_tuple
append-IsDistinct t [] h d = (refl, tt)
append-IsDistinct t (x ∷ ts) h d =
    ground (arith, append-IsDistinct t ts, holds_tuple-append t x ts, same_tuple_comm x t)

holds_tuple-filter :
    (p : Tuple → Bool) (t : Tuple) (ts : List Tuple)
    → holds_tuple t ts ≡ false
    → holds_tuple t (filter p ts) ≡ false
unfolding holds_tuple
holds_tuple-filter p t [] h = refl
holds_tuple-filter p t (x ∷ ts) h = ground (arith, holds_tuple-filter p t ts)

filter-IsDistinct : (p : Tuple → Bool) (ts : List Tuple) → IsDistinct ts → IsDistinct (filter p ts)
filter-IsDistinct p [] d = tt
filter-IsDistinct p (x ∷ ts) d =
    ground (arith, filter-IsDistinct p ts d.1, holds_tuple-filter p x ts d.0)

write_one-IsDistinct :
    (u : RelationshipUpdate) (ts : List Tuple) → IsDistinct ts → IsDistinct (write_one u ts).0
unfolding write_one
write_one-IsDistinct u ts d =
    ground (arith, remove_first-IsDistinct u.tuple ts d, append-IsDistinct u.tuple ts)

-- Whatever a batch of writes does, a throw included, it stores no relationship twice where none was
-- stored twice before.
pub write_relationships-IsDistinct :
    (us : List RelationshipUpdate) (ts : List Tuple)
    → IsDistinct ts
    → IsDistinct (write_relationships us ts).0
unfolding write_relationships
write_relationships-IsDistinct [] ts d = d
write_relationships-IsDistinct (u ∷ us) ts d =
    let (next, outcome) = write_one u ts in
    ground (arith, write_one-IsDistinct u ts d, write_relationships-IsDistinct us next)

-- Deleting by a filter keeps the relationships distinct.
pub delete_relationships-IsDistinct :
    (f : RelationshipFilter) (ts : List Tuple)
    → IsDistinct ts
    → IsDistinct (delete_relationships f ts)
unfolding delete_relationships
delete_relationships-IsDistinct f ts d = filter-IsDistinct (λ t. not (matches_filter t f)) ts d

abbrev adds : RelationshipOp → Bool
adds delete = false
adds touch = true
adds create = true

holds_tuple-remove_other :
    (t u : Tuple) (ts : List Tuple)
    → same_tuple t u ≡ false
    → holds_tuple u (remove_first t ts) ≡ holds_tuple u ts
unfolding holds_tuple remove_first
holds_tuple-remove_other t u [] h = refl
holds_tuple-remove_other t u (x ∷ ts) h = ground (
  arith,
  holds_tuple-remove_other t u ts h,
  same_tuple_iff x t,
  same_tuple_iff x u,
  same_tuple_iff t u,
)

-- Where no relationship is stored twice: CREATE and TOUCH leave the relationship stored and DELETE
-- leaves it out, every other relationship stays as it was, and the write throws exactly when it is
-- a CREATE of a stored relationship.
pub write_one_lem :
    (u : RelationshipUpdate) (ts : List Tuple) (t : Tuple)
    → IsDistinct ts
    → let (next, outcome) = write_one u ts in
      (holds_tuple t next ≡ (if same_tuple u.tuple t then adds u.operation else holds_tuple t ts))
      × ((outcome ≡ already_exists u.tuple)
          ↔ ((u.operation ≡ create) × (holds_tuple u.tuple ts ≡ true)))
unfolding write_one
write_one_lem u ts t d = ground (
  arith,
  holds_tuple-append u.tuple t ts,
  holds_tuple-canonical u.tuple t ts,
  same_tuple_iff u.tuple t,
  remove_first_gone u.tuple ts d,
  holds_tuple-canonical u.tuple t (remove_first u.tuple ts),
  holds_tuple-remove_other u.tuple t ts,
)

abbrev is_create : RelationshipOp → Bool
is_create create = true
is_create touch = false
is_create delete = false

write_relationships-throws :
    (u : RelationshipUpdate) (us : List RelationshipUpdate) (ts : List Tuple)
    → is_create u.operation && holds_tuple u.tuple ts ≡ true
    → write_relationships (u ∷ us) ts ≡ (ts, already_exists u.tuple)
unfolding write_relationships write_one
write_relationships-throws u us ts h = ground arith

write_relationships-continues :
    (u : RelationshipUpdate) (us : List RelationshipUpdate) (ts : List Tuple)
    → is_create u.operation && holds_tuple u.tuple ts ≡ false
    → write_relationships (u ∷ us) ts ≡ write_relationships us (write_one u ts).0
unfolding write_relationships write_one
write_relationships-continues u us ts h = ground arith

-- A batch on a set of relationships, up to the update that is refused: a CREATE of a relationship in
-- the set. The other updates put their relationship into the set or take it out.
abbrev pub updated_set : List RelationshipUpdate → (Tuple → Bool) → (Tuple → Bool) × WriteOutcome
updated_set [] stored = (stored, written)
updated_set (u ∷ us) stored =
    let rest = updated_set us (λ t. if same_tuple u.tuple t then adds u.operation else stored t) in
    if is_create u.operation && stored u.tuple then (stored, already_exists u.tuple) else rest

-- Tuples that stand for a set, with the outcome of a batch on the set.
abbrev Implements : List Tuple × WriteOutcome → (Tuple → Bool) × WriteOutcome → Type 0
Implements r m = (r.1 ≡ m.1) × ((t : Tuple) → holds_tuple t r.0 ≡ m.0 t) × IsDistinct r.0

write_relationships-Implements :
    (us : List RelationshipUpdate) (ts : List Tuple) (stored : Tuple → Bool)
    → IsDistinct ts
    → ((t : Tuple) → holds_tuple t ts ≡ stored t)
    → Implements (write_relationships us ts) (updated_set us stored)
unfolding write_relationships
write_relationships-Implements [] ts stored d h = (refl, h, d)
write_relationships-Implements (u ∷ us) ts stored d h =
    let refused : Bool = is_create u.operation && holds_tuple u.tuple ts in
    let same : is_create u.operation && stored u.tuple ≡ refused =
      ap (λ b. is_create u.operation && b) (sym (h u.tuple)) in
    let next = λ (t : Tuple). if same_tuple u.tuple t then adds u.operation else stored t in
    elim (Bool-cases refused) [
      | inl e ↦
          subst (λ r. Implements r (updated_set (u ∷ us) stored))
            (sym (write_relationships-throws u us ts e))
            (if_elim (Implements (ts, already_exists u.tuple))
              (is_create u.operation && stored u.tuple) (λ q. (refl, h, d)) (λ q. cc (same, e, q)))
      | inr e ↦
          subst (λ r. Implements r (updated_set (u ∷ us) stored))
            (sym (write_relationships-continues u us ts e))
            (if_elim (Implements (write_relationships us (write_one u ts).0))
              (is_create u.operation && stored u.tuple) (λ q. cc (same, e, q))
              (λ q.
                write_relationships-Implements us (write_one u ts).0 next
                  (write_one-IsDistinct u ts d)
                  (λ t.
                    (write_one_lem u ts t d).0
                    ∙ ap (λ b. if same_tuple u.tuple t then adds u.operation else b) (h t))))
    ]

-- Where no relationship is stored twice, a batch of writes refines one on the set of relationships:
-- TOUCH and CREATE put a relationship in, DELETE takes it out, the first CREATE of a relationship
-- in the set ends the batch with its error, and what was written before that error stays; no
-- relationship is stored twice afterwards.
pub write_relationships_lem :
    (us : List RelationshipUpdate) (ts : List Tuple)
    → IsDistinct ts
    → let (next, outcome) = write_relationships us ts in
      let (set, expected) = updated_set us (λ t. holds_tuple t ts) in
      (outcome ≡ expected) × ((t : Tuple) → holds_tuple t next ≡ set t) × IsDistinct next
write_relationships_lem us ts d =
    write_relationships-Implements us ts (λ t. holds_tuple t ts) d (λ t. refl)
