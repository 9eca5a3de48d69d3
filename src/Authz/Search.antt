-- ===== src/Authz/Search.antt =====
-- What each loop of `resolve` guarantees: it finishes with the fuel given, `true` stands on a grant,
-- and after `false` all that the loop reads has been visited.
use ai_de.Common.{
  String, ◌≡◌, ◌⊎◌, inl, inr, true, false, none, some, List, Memᴰ, contains, IsSubset,
}
use ai_de.Authz.{
  Tuple, Rule, arrow, SubjectRef, rules, node_key, Answer, or_next, subject_set, is_on, is_subject,
}
use ai_de.Authz.Grants.{Reads, IsPlain}

abbrev pub Visited : List String → String → String → String → Type 0
Visited seen type id name = contains (node_key type id name) seen ≡ true

-- The tuple does not name the subject, and its subject set has been visited.
abbrev pub IsTupleDone : SubjectRef → List String → Tuple → Type 0
IsTupleDone subject seen t =
    (subject_set t ≡ none → is_subject subject t ≡ false)
    × ((r : String) → subject_set t ≡ some r → Visited seen t.subject_type t.subject_id r)

module _ (tuples : List Tuple) (subject : SubjectRef) where
  abbrev pub IsRelationDone : List Tuple → List String → String → String → String → Type 0
  IsRelationDone ts seen type id relation =
      (t : Tuple) → Memᴰ t ts → is_on type id relation t ≡ true → IsTupleDone subject seen t

  abbrev pub IsArrowDone : List Tuple → List String → String → String → String → String → Type 0
  IsArrowDone ts seen type id relation permission =
      (t : Tuple)
      → Memᴰ t ts
      → is_on type id relation t ≡ true
      → Visited seen t.subject_type t.subject_id permission

  -- All that `resolve` reads at this node has been read without a hit.
  pub record IsClosed (seen : List String) (type id name : String) : Type 0 where
    pub relations :
        (relation : String) → Reads type name relation → IsRelationDone tuples seen type id relation
    pub arrows :
        (relation permission : String) (rs : List Rule)
        → rules type name ≡ some rs
        → Memᴰ (arrow relation permission) rs
        → IsArrowDone tuples seen type id relation permission

  -- Every plain node that was added to the set is closed.
  abbrev pub Grows : List String → List String → Type 0
  Grows seen seen' =
      (type id name : String)
      → IsPlain type id
      → Visited seen' type id name
      → Visited seen type id name ⊎ IsClosed seen' type id name

  -- The search finishes; `true` gives P, and `false` gives Q of the set that it leaves.
  abbrev pub Ensures : List String → Type 0 → (List String → Type 0) → Answer → Type 0
  Ensures seen P Q none = ⊥
  Ensures seen P Q (some (true, seen')) = P
  Ensures seen P Q (some (false, seen')) = IsSubset seen seen' × Grows seen seen' × Q seen'

  abbrev pub IsMonotone : (List String → Type 0) → Type 0
  IsMonotone Q = (s s' : List String) → IsSubset s s' → Q s → Q s'

  pub IsClosed-IsMonotone : (type id name : String) → IsMonotone (λ s. IsClosed s type id name)
  IsClosed-IsMonotone type id name s s' sub c = record {
    relations =
        λ r reads t m on. let d = c.relations r reads t m on in (d.0, λ q e. sub _ (d.1 q e));
    arrows = λ r p rs e m t n on. sub _ (c.arrows r p rs e m t n on);
  }

  pub Grows-trans : (a b c : List String) → IsSubset b c → Grows a b → Grows b c → Grows a c
  Grows-trans a b c sub g h type id name plain_node v = elim (h type id name plain_node v) [
    | inr closed ↦ inr closed
    | inl w ↦ elim (g type id name plain_node w) [
      | inl u ↦ inl u
      | inr closed ↦ inr (IsClosed-IsMonotone type id name b c sub closed)
    ]
  ]

  pub Ensures-false :
      (seen : List String) (P : Type 0) (Q : List String → Type 0)
      → Q seen
      → Ensures seen P Q (some (false, seen))
  Ensures-false seen P Q q = (λ k h. h, λ type id name plain_node v. inl v, q)

  pub Ensures-weaken :
      (seen : List String) (P P' : Type 0) (Q Q' : List String → Type 0) (o : Answer)
      → (P → P')
      → ((s : List String) → IsSubset seen s → Q s → Q' s)
      → Ensures seen P Q o
      → Ensures seen P' Q' o
  Ensures-weaken seen P P' Q Q' none f g h = h
  Ensures-weaken seen P P' Q Q' (some (true, s)) f g h = f h
  Ensures-weaken seen P P' Q Q' (some (false, s)) f g h = (h.0, h.1, g s h.0 h.2)

  Ensures-trans :
      (a b : List String) (P : Type 0) (Q : List String → Type 0) (o : Answer)
      → IsSubset a b
      → Grows a b
      → Ensures b P Q o
      → Ensures a P Q o
  Ensures-trans a b P Q none sub g h = h
  Ensures-trans a b P Q (some (true, s)) sub g h = h
  Ensures-trans a b P Q (some (false, s)) sub g h =
      (λ k m. h.0 k (sub k m), Grows-trans a b s h.0 g h.1, h.2)

  -- A loop step and what comes after it.
  pub Ensures-or_next :
      (seen : List String) (P P₁ : Type 0) (Q Q₁ Q₂ : List String → Type 0) (o : Answer)
      (k : List String → Answer)
      → Ensures seen P₁ Q₁ o
      → ((s : List String) → IsSubset seen s → Ensures s P Q₂ (k s))
      → (P₁ → P)
      → IsMonotone Q₁
      → ((s : List String) → Q₁ s → Q₂ s → Q s)
      → Ensures seen P Q (or_next o k)
  Ensures-or_next seen P P₁ Q Q₁ Q₂ none k h next f mono join = h
  Ensures-or_next seen P P₁ Q Q₁ Q₂ (some (true, s)) k h next f mono join = f h
  Ensures-or_next seen P P₁ Q Q₁ Q₂ (some (false, s)) k h next f mono join =
      Ensures-trans seen s P Q (k s) h.0 h.1 (
        Ensures-weaken s P P Q₂ Q (k s) (λ p. p) (λ s' sub q. join s' (mono s s' sub h.2) q)
          (next s h.0))
