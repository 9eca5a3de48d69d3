-- ===== src/Authz/Resolved.antt =====
-- A call of `resolve` with enough fuel answers, and its answer is right for the nodes it has seen.
use ai_de.Common.{
  ℕ, zero, suc, ◌<◌, String, ◌≡◌, refl, sym, subst, inl, inr, true, false, Option, none, some,
  or_else, List, ◌∷◌, arith, contains, contains-cons, IsSubset, unseen, unseen-IsSubset,
  unseen-cons, Bool-cases, All, All-mem,
}
use ai_de.Authz.{Tuple, Rule, rel, arrow, SubjectRef, rules, node_key, Answer, expand, resolve}
use ai_de.Authz.Grants.{Grants, IsPlain, IsWellFormed, node_key-injective}
use ai_de.Authz.Search.{Visited, IsClosed, Grows, Ensures, Ensures-false}
use ai_de.Authz.Loops.{IsTarget}
use ai_de.Authz.Rules.{expand-Ensures}
use ai_de.Authz.Reachable.{reachable_keys, reachable-set, reachable-arrow}

abbrev IsAdminister : Rule → Type 0
IsAdminister (rel r) = Unit
IsAdminister (arrow r permission) = permission ≡ "administer"

rules-IsAdminister :
    (type name : String) (rs : List Rule) → rules type name ≡ some rs → All IsAdminister rs
unfolding rules
rules-IsAdminister type name rs e = ground arith

module _ (tuples : List Tuple) (subject : SubjectRef) (formed : IsWellFormed tuples) where
  module _ (keys : List String) (within : IsSubset (reachable_keys tuples) keys) where
    abbrev Ok : String → String → String → Type 0
    Ok type id name = IsPlain type id × (contains (node_key type id name) keys ≡ true)

    tuple_targets : IsTarget tuples Ok
    tuple_targets t m = (
      λ r e. (
        All-mem (λ (x : Tuple). IsPlain x.subject_type x.subject_id) m formed,
        subst
            (λ (o : Option String).
              contains (node_key t.subject_type t.subject_id (or_else o "")) keys ≡ true)
            e (within _ (reachable-set t tuples m)),
      ),
      λ type name relation permission rs e rule.
          let same = All-mem IsAdminister rule (rules-IsAdminister type name rs e) in
          (
            All-mem (λ (x : Tuple). IsPlain x.subject_type x.subject_id) m formed,
            subst (λ (p : String). contains (node_key t.subject_type t.subject_id p) keys ≡ true)
                (sym same) (within _ (reachable-arrow t tuples m)),
          ),
    )

    -- What the node's own key adds to the set is closed once the node is.
    Grows-node :
        (type id name : String) (seen s : List String)
        → IsPlain type id
        → IsClosed tuples subject s type id name
        → Grows tuples subject (node_key type id name ∷ seen) s
        → Grows tuples subject seen s
    Grows-node type id name seen s p closed grows type' id' name' p' v =
        elim (grows type' id' name' p' v) [
          | inr c ↦ inr c
          | inl w ↦ elim ((contains-cons _ _ _).0 w) [
            | inr old ↦ inl old
            | inl same ↦
                let (a, b, c) = node_key-injective type id name type' id' name' p p' same in
                inr (
                  subst (λ (x : String). IsClosed tuples subject s x id' name') a
                    (subst (λ (x : String). IsClosed tuples subject s type x name') b
                      (subst (λ (x : String). IsClosed tuples subject s type id x) c closed)))
          ]
        ]

    resolve-seen :
        (fuel : ℕ) (type id name : String) (seen : List String)
        → contains (node_key type id name) seen ≡ true
        → resolve (suc fuel) tuples subject type id name seen ≡ some (false, seen)
    unfolding resolve
    resolve-seen fuel type id name seen e = rw e refl

    resolve-new :
        (fuel : ℕ) (type id name : String) (seen : List String)
        → contains (node_key type id name) seen ≡ false
        → resolve (suc fuel) tuples subject type id name seen
          ≡ expand subject
              (resolve fuel tuples subject)
              tuples
              type
              id
              name
              (node_key type id name ∷ seen)
    unfolding resolve
    resolve-new fuel type id name seen e = rw e refl

    opened-Ensures :
        (type id name : String) (seen : List String)
        → IsPlain type id
        → (o : Answer)
        → Ensures tuples subject
            (node_key type id name ∷ seen)
            (Grants tuples subject type id name)
            (λ s. IsClosed tuples subject s type id name)
            o
        → Ensures tuples subject seen
            (Grants tuples subject type id name)
            (λ s. Visited s type id name)
            o
    opened-Ensures type id name seen p none h = h
    opened-Ensures type id name seen p (some (true, s)) h = h
    opened-Ensures type id name seen p (some (false, s)) h =
        let key = node_key type id name in
        (
          λ k m. h.0 k ((contains-cons k key seen).1 (inr m)),
          Grows-node type id name seen s p h.2 h.1,
          h.0 key ((contains-cons key key seen).1 (inl refl)),
        )

    pub resolve-Ensures :
        (fuel : ℕ) (type id name : String) (seen : List String)
        → Ok type id name
        → unseen keys seen < fuel
        → Ensures tuples subject seen
            (Grants tuples subject type id name)
            (λ s. Visited s type id name)
            (resolve fuel tuples subject type id name seen)
    resolve-Ensures zero type id name seen k h = elim h [ ]
    resolve-Ensures (suc fuel) type id name seen k h =
        elim (Bool-cases (contains (node_key type id name) seen)) [
          | inl old ↦ rw (resolve-seen fuel type id name seen old) (
              Ensures-false tuples subject seen (Grants tuples subject type id name)
                (λ s. Visited s type id name) old)
          | inr new ↦ rw (resolve-new fuel type id name seen new) (
              opened-Ensures type id name seen k.0
                (expand subject (resolve fuel tuples subject) tuples type id name
                  (node_key type id name ∷ seen))
                (expand-Ensures tuples subject Ok tuple_targets (resolve fuel tuples subject)
                  (node_key type id name ∷ seen)
                  (λ s type' id' name' sub k'.
                    resolve-Ensures fuel type' id' name' s k'
                      (fuel_left s sub (unseen-cons keys seen (node_key type id name) k.1 new)))
                  type id name))
        ]
      where
        fuel_left :
            (s : List String)
            → IsSubset (node_key type id name ∷ seen) s
            → unseen keys (node_key type id name ∷ seen) < unseen keys seen
            → unseen keys s < fuel
        fuel_left s sub less =
            omega (arith, unseen-IsSubset keys (node_key type id name ∷ seen) s sub)
