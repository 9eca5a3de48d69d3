-- ===== src/Authz/Loops.antt =====
-- The loops of `resolve`, given what the calls of `resolve` inside them ensure.
use ai_de.Common.{
  String, ◌≡◌, refl, sym, ◌∙◌, subst, inl, inr, true, false, none, some, List, [], ◌∷◌, Memᴰ,
  IsSubset, Bool-cases, Option-cases,
}
use mathlib.Core.Option.{some-injective}
use ai_de.Authz.{
  Tuple, Rule, arrow, SubjectRef, rules, Answer, or_next, subject_set, is_on, is_subject, try_tuple,
  relation_holds, follow_arrow,
}
use ai_de.Authz.Grants.{Reads, Grants, direct, through_set, through_arrow}
use ai_de.Authz.Search.{
  Visited, IsTupleDone, IsRelationDone, IsArrowDone, Ensures, Ensures-false, Ensures-weaken,
  Ensures-or_next,
}

-- The nodes that a call of `resolve` inside a loop may ask for.
abbrev pub IsTarget : List Tuple → (String → String → String → Type 0) → Type 0
IsTarget tuples Ok =
    (t : Tuple)
    → Memᴰ t tuples
    → ((r : String) → subject_set t ≡ some r → Ok t.subject_type t.subject_id r)
      × ((type name relation permission : String) (rs : List Rule)
          → rules type name ≡ some rs
          → Memᴰ (arrow relation permission) rs
          → Ok t.subject_type t.subject_id permission)

module _ (tuples : List Tuple) (subject : SubjectRef) (Ok : String → String → String → Type 0)
    (targets : IsTarget tuples Ok) (go : String → String → String → List String → Answer)
    (start : List String)
    (calls : (seen : List String) (type id name : String)
      → IsSubset start seen
      → Ok type id name
      → Ensures tuples subject seen
          (Grants tuples subject type id name)
          (λ s. Visited s type id name)
          (go type id name seen)) where
  abbrev HasGrant : String → String → String → Type 0
  HasGrant = Grants tuples subject

  TupleDone-monotone :
      (t : Tuple) (s s' : List String)
      → IsSubset s s'
      → IsTupleDone subject s t
      → IsTupleDone subject s' t
  TupleDone-monotone t s s' sub d = (d.0, λ r e. sub _ (d.1 r e))

  RelationDone-cons :
      (t : Tuple) (ts : List Tuple) (seen : List String) (type id relation : String)
      → (is_on type id relation t ≡ true → IsTupleDone subject seen t)
      → IsRelationDone tuples subject ts seen type id relation
      → IsRelationDone tuples subject (t ∷ ts) seen type id relation
  RelationDone-cons t ts seen type id relation here later u (Memᴰ.head e) on =
      subst (IsTupleDone subject seen) (sym e)
        (here (subst (λ (x : Tuple). is_on type id relation x ≡ true) e on))
  RelationDone-cons t ts seen type id relation here later u (Memᴰ.tail m) on = later u m on

  ArrowDone-cons :
      (t : Tuple) (ts : List Tuple) (seen : List String) (type id relation permission : String)
      → (is_on type id relation t ≡ true → Visited seen t.subject_type t.subject_id permission)
      → IsArrowDone tuples subject ts seen type id relation permission
      → IsArrowDone tuples subject (t ∷ ts) seen type id relation permission
  ArrowDone-cons t ts seen type id relation permission here later u (Memᴰ.head e) on =
      subst (λ (x : Tuple). Visited seen x.subject_type x.subject_id permission) (sym e)
        (here (subst (λ (x : Tuple). is_on type id relation x ≡ true) e on))
  ArrowDone-cons t ts seen type id relation permission here later u (Memᴰ.tail m) on = later u m on

  try_tuple-hit :
      (t : Tuple) (seen : List String) (rest : List String → Answer)
      → subject_set t ≡ none
      → is_subject subject t ≡ true
      → try_tuple subject go t seen rest ≡ some (true, seen)
  unfolding try_tuple
  try_tuple-hit t seen rest e h = rw (e, try_tuple) (rw h refl)

  try_tuple-miss :
      (t : Tuple) (seen : List String) (rest : List String → Answer)
      → subject_set t ≡ none
      → is_subject subject t ≡ false
      → try_tuple subject go t seen rest ≡ rest seen
  unfolding try_tuple
  try_tuple-miss t seen rest e h = rw (e, try_tuple) (rw h refl)

  try_tuple-set :
      (t : Tuple) (r : String) (seen : List String) (rest : List String → Answer)
      → subject_set t ≡ some r
      → try_tuple subject go t seen rest ≡ or_next (go t.subject_type t.subject_id r seen) rest
  unfolding try_tuple
  try_tuple-set t r seen rest e = rw (e, try_tuple) refl

  -- A tuple of a relation that counts, and the rest of the loop.
  try_tuple-Ensures :
      (type id name relation : String) (t : Tuple) (seen : List String)
      (rest : List String → Answer) (Q : List String → Type 0)
      → Reads type name relation
      → Memᴰ t tuples
      → is_on type id relation t ≡ true
      → IsSubset start seen
      → ((s : List String)
          → IsSubset seen s
          → Ensures tuples subject s (HasGrant type id name) Q (rest s))
      → Ensures tuples subject seen
          (HasGrant type id name)
          (λ s. IsTupleDone subject s t × Q s)
          (try_tuple subject go t seen rest)
  try_tuple-Ensures type id name relation t seen rest Q reads m on sub next =
      elim (Option-cases (subject_set t)) [
        | inl e ↦ elim (Bool-cases (is_subject subject t)) [
          | inl hit ↦ rw (try_tuple-hit t seen rest e hit) (direct relation t reads m on e hit)
          | inr miss ↦ rw (try_tuple-miss t seen rest e miss) (
              Ensures-weaken tuples subject seen (HasGrant type id name) (HasGrant type id name) Q
                (λ s. IsTupleDone subject s t × Q s) (rest seen) (λ p. p)
                (λ s _ q. ((λ _. miss, λ r e'. cc (e, e')), q)) (next seen (λ k h. h)))
        ]
        | inr (r, e) ↦ rw (try_tuple-set t r seen rest e) (
            Ensures-or_next tuples subject seen (HasGrant type id name)
              (HasGrant t.subject_type t.subject_id r) (λ s. IsTupleDone subject s t × Q s)
              (λ s. Visited s t.subject_type t.subject_id r) Q
              (go t.subject_type t.subject_id r seen) rest
              (calls seen t.subject_type t.subject_id r sub ((targets t m).0 r e)) next
              (λ g. through_set relation t r reads m on e g) (λ s s' sub' v. sub' _ v)
              (λ s v q. (set_done r s e v, q)))
      ]
    where
      set_done :
          (r : String) (s : List String)
          → subject_set t ≡ some r
          → Visited s t.subject_type t.subject_id r
          → IsTupleDone subject s t
      set_done r s e v = (
        λ q. cc (q, e),
        λ r' q.
            subst (λ (x : String). Visited s t.subject_type t.subject_id x)
              (some-injective r r' (sym e ∙ q)) v,
      )

  pub relation_holds-Ensures :
      (type id name relation : String) (ts : List Tuple) (seen : List String)
      → Reads type name relation
      → ((t : Tuple) → Memᴰ t ts → Memᴰ t tuples)
      → IsSubset start seen
      → Ensures tuples subject seen
          (HasGrant type id name)
          (λ s. IsRelationDone tuples subject ts s type id relation)
          (relation_holds subject go ts type id relation seen)
  unfolding relation_holds
  relation_holds-Ensures type id name relation [] seen reads inside sub =
      Ensures-false tuples subject seen (HasGrant type id name)
        (λ s. IsRelationDone tuples subject [] s type id relation) (λ t m. elim m [ ])
  relation_holds-Ensures type id name relation (t ∷ ts) seen reads inside sub =
      let next = λ (s : List String) (sub' : IsSubset seen s).
        relation_holds-Ensures type id name relation ts s reads (λ u m. inside u (Memᴰ.tail m))
          (λ k h. sub' k (sub k h)) in
      elim (Bool-cases (is_on type id relation t)) [
        | inl on ↦ rw on (
            Ensures-weaken tuples subject seen (HasGrant type id name) (HasGrant type id name)
              (λ s. IsTupleDone subject s t × IsRelationDone tuples subject ts s type id relation)
              (λ s. IsRelationDone tuples subject (t ∷ ts) s type id relation)
              (try_tuple subject go t seen (λ s. relation_holds subject go ts type id relation s))
              (λ p. p) (λ s _ d. RelationDone-cons t ts s type id relation (λ _. d.0) d.1)
              (try_tuple-Ensures type id name relation t seen
                (λ s. relation_holds subject go ts type id relation s)
                (λ s. IsRelationDone tuples subject ts s type id relation) reads
                (inside t (Memᴰ.head refl)) on sub next))
        | inr off ↦ rw off (
            Ensures-weaken tuples subject seen (HasGrant type id name) (HasGrant type id name)
              (λ s. IsRelationDone tuples subject ts s type id relation)
              (λ s. IsRelationDone tuples subject (t ∷ ts) s type id relation)
              (relation_holds subject go ts type id relation seen) (λ p. p)
              (λ s _ d. RelationDone-cons t ts s type id relation (λ q. cc (q, off)) d)
              (next seen (λ k h. h)))
      ]

  pub follow_arrow-Ensures :
      (type id name relation permission : String) (rs : List Rule) (ts : List Tuple)
      (seen : List String)
      → rules type name ≡ some rs
      → Memᴰ (arrow relation permission) rs
      → ((t : Tuple) → Memᴰ t ts → Memᴰ t tuples)
      → IsSubset start seen
      → Ensures tuples subject seen
          (HasGrant type id name)
          (λ s. IsArrowDone tuples subject ts s type id relation permission)
          (follow_arrow subject go ts type id relation permission seen)
  unfolding follow_arrow
  follow_arrow-Ensures type id name relation permission rs [] seen e rule inside sub =
      Ensures-false tuples subject seen (HasGrant type id name)
        (λ s. IsArrowDone tuples subject [] s type id relation permission) (λ t m. elim m [ ])
  follow_arrow-Ensures type id name relation permission rs (t ∷ ts) seen e rule inside sub =
      let next = λ (s : List String) (sub' : IsSubset seen s).
        follow_arrow-Ensures type id name relation permission rs ts s e rule
          (λ u m. inside u (Memᴰ.tail m)) (λ k h. sub' k (sub k h)) in
      let m = inside t (Memᴰ.head refl) in
      elim (Bool-cases (is_on type id relation t)) [
        | inl on ↦ rw on (
            Ensures-or_next tuples subject seen (HasGrant type id name)
              (HasGrant t.subject_type t.subject_id permission)
              (λ s. IsArrowDone tuples subject (t ∷ ts) s type id relation permission)
              (λ s. Visited s t.subject_type t.subject_id permission)
              (λ s. IsArrowDone tuples subject ts s type id relation permission)
              (go t.subject_type t.subject_id permission seen)
              (λ s. follow_arrow subject go ts type id relation permission s)
              (calls seen t.subject_type t.subject_id permission sub
                ((targets t m).1 type name relation permission rs e rule))
              next (λ g. through_arrow relation t permission rs e rule m on g)
              (λ s s' sub' v. sub' _ v)
              (λ s v d. ArrowDone-cons t ts s type id relation permission (λ _. v) d))
        | inr off ↦ rw off (
            Ensures-weaken tuples subject seen (HasGrant type id name) (HasGrant type id name)
              (λ s. IsArrowDone tuples subject ts s type id relation permission)
              (λ s. IsArrowDone tuples subject (t ∷ ts) s type id relation permission)
              (follow_arrow subject go ts type id relation permission seen) (λ p. p)
              (λ s _ d. ArrowDone-cons t ts s type id relation permission (λ q. cc (q, off)) d)
              (next seen (λ k h. h)))
      ]
