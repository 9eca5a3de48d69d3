-- ===== src/Authz/Reachable.antt =====
-- The keys of the nodes that a search of `resolve` may reach from the tuples.
use ai_de.Common.{
  ◌*◌, String, ◌≡◌, sym, ap, inl, inr, true, or_else, List, [], ◌∷◌, Memᴰ, arith, length, contains,
  contains-cons,
}
use ai_de.Authz.{Tuple, node_key, subject_set}

-- The keys that a search may reach from a tuple.
abbrev pub set_key : Tuple → String
set_key t = node_key t.subject_type t.subject_id (or_else (subject_set t) "")

abbrev pub arrow_key : Tuple → String
arrow_key t = node_key t.subject_type t.subject_id "administer"

abbrev pub reachable_keys : List Tuple → List String
reachable_keys [] = []
reachable_keys (t ∷ ts) = set_key t ∷ arrow_key t ∷ reachable_keys ts

pub length-reachable_keys : (ts : List Tuple) → length (reachable_keys ts) ≡ 2 * length ts
length-reachable_keys [] = omega arith
length-reachable_keys (t ∷ ts) = omega (arith, length-reachable_keys ts)

later_key :
    (k a b : String) (ks : List String) → contains k ks ≡ true → contains k (a ∷ b ∷ ks) ≡ true
later_key k a b ks h = (contains-cons k a (b ∷ ks)).1 (inr ((contains-cons k b ks).1 (inr h)))

pub reachable-set :
    (t : Tuple) (ts : List Tuple) → Memᴰ t ts → contains (set_key t) (reachable_keys ts) ≡ true
reachable-set t [] m = elim m [ ]
reachable-set t (u ∷ ts) (Memᴰ.head same) =
    (contains-cons (set_key t) (set_key u) (arrow_key u ∷ reachable_keys ts)).1
      (inl (ap (λ (x : Tuple). set_key x) (sym same)))
reachable-set t (u ∷ ts) (Memᴰ.tail m) =
    later_key (set_key t) (set_key u) (arrow_key u) (reachable_keys ts) (reachable-set t ts m)

pub reachable-arrow :
    (t : Tuple) (ts : List Tuple) → Memᴰ t ts → contains (arrow_key t) (reachable_keys ts) ≡ true
reachable-arrow t [] m = elim m [ ]
reachable-arrow t (u ∷ ts) (Memᴰ.head same) =
    (contains-cons (arrow_key t) (set_key u) (arrow_key u ∷ reachable_keys ts)).1 (
      inr (
        (contains-cons (arrow_key t) (arrow_key u) (reachable_keys ts)).1
          (inl (ap (λ (x : Tuple). arrow_key x) (sym same)))))
reachable-arrow t (u ∷ ts) (Memᴰ.tail m) =
    later_key (arrow_key t) (set_key u) (arrow_key u) (reachable_keys ts) (reachable-arrow t ts m)
