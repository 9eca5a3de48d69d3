-- ===== src/Authz/Rules.antt =====
-- The loop of `resolve` over the rules, and `resolve` behind its test of `seen`.
use ai_de.Common.{
  String, ◌≡◌, refl, sym, ◌∙◌, subst, inl, inr, none, some, List, [], ◌∷◌, Memᴰ, IsSubset,
  Option-cases,
}
use mathlib.Core.Option.{some-injective}
use ai_de.Authz.{
  Tuple, Rule, rel, arrow, SubjectRef, rules, Answer, relation_holds, follow_arrow, try_rules,
  expand,
}
use ai_de.Authz.Grants.{Reads, plain, ruled, Grants}
use ai_de.Authz.Search.{
  Visited, IsRelationDone, IsArrowDone, IsClosed, Ensures, Ensures-false, Ensures-weaken,
  Ensures-or_next,
}
use ai_de.Authz.Loops.{IsTarget, relation_holds-Ensures, follow_arrow-Ensures}

-- What the rules of a list read has been read.
pub record AreRulesDone (tuples : List Tuple) (subject : SubjectRef) (rs : List Rule)
    (seen : List String) (type id : String) : Type 0 where
  pub relations :
      (relation : String)
      → Memᴰ (rel relation) rs
      → IsRelationDone tuples subject tuples seen type id relation
  pub arrows :
      (relation permission : String)
      → Memᴰ (arrow relation permission) rs
      → IsArrowDone tuples subject tuples seen type id relation permission

module _ (tuples : List Tuple) (subject : SubjectRef) (Ok : String → String → String → Type 0)
    (targets : IsTarget tuples Ok) (go : String → String → String → List String → Answer)
    (start : List String)
    (calls : (seen : List String) (type id name : String)
      → IsSubset start seen
      → Ok type id name
      → Ensures tuples subject seen
          (Grants tuples subject type id name)
          (λ s. Visited s type id name)
          (go type id name seen))
    (type id name : String) where
  abbrev Done : List Rule → List String → Type 0
  Done rs s = AreRulesDone tuples subject rs s type id

  Done-rel :
      (r : String) (rest : List Rule) (s : List String)
      → IsRelationDone tuples subject tuples s type id r
      → Done rest s
      → Done (rel r ∷ rest) s
  Done-rel r rest s here later = record {
    relations = λ relation m. in_relations relation m;
    arrows = λ relation permission m. in_arrows relation permission m;
  }
    where
      in_relations :
          (relation : String)
          → Memᴰ (rel relation) (rel r ∷ rest)
          → IsRelationDone tuples subject tuples s type id relation
      in_relations relation (Memᴰ.head e) =
          let same : r ≡ relation = cc e in
          subst (λ (x : String). IsRelationDone tuples subject tuples s type id x) same here
      in_relations relation (Memᴰ.tail m) = later.relations relation m

      in_arrows :
          (relation permission : String)
          → Memᴰ (arrow relation permission) (rel r ∷ rest)
          → IsArrowDone tuples subject tuples s type id relation permission
      in_arrows relation permission (Memᴰ.head e) = cc e
      in_arrows relation permission (Memᴰ.tail m) = later.arrows relation permission m

  Done-arrow :
      (r p : String) (rest : List Rule) (s : List String)
      → IsArrowDone tuples subject tuples s type id r p
      → Done rest s
      → Done (arrow r p ∷ rest) s
  Done-arrow r p rest s here later = record {
    relations = λ relation m. in_relations relation m;
    arrows = λ relation permission m. in_arrows relation permission m;
  }
    where
      in_relations :
          (relation : String)
          → Memᴰ (rel relation) (arrow r p ∷ rest)
          → IsRelationDone tuples subject tuples s type id relation
      in_relations relation (Memᴰ.head e) = cc e
      in_relations relation (Memᴰ.tail m) = later.relations relation m

      in_arrows :
          (relation permission : String)
          → Memᴰ (arrow relation permission) (arrow r p ∷ rest)
          → IsArrowDone tuples subject tuples s type id relation permission
      in_arrows relation permission (Memᴰ.head e) =
          let same_r : r ≡ relation = cc e in
          let same_p : p ≡ permission = cc e in
          subst (λ (x : String). IsArrowDone tuples subject tuples s type id x permission) same_r
            (subst (λ (x : String). IsArrowDone tuples subject tuples s type id r x) same_p here)
      in_arrows relation permission (Memᴰ.tail m) = later.arrows relation permission m

  try_rules-Ensures :
      (all rs : List Rule) (seen : List String)
      → rules type name ≡ some all
      → ((r : Rule) → Memᴰ r rs → Memᴰ r all)
      → IsSubset start seen
      → Ensures tuples subject seen
          (Grants tuples subject type id name)
          (Done rs)
          (try_rules subject go tuples rs type id seen)
  unfolding try_rules
  try_rules-Ensures all [] seen e inside sub =
      Ensures-false tuples subject seen (Grants tuples subject type id name) (Done [])
        (record { relations = λ r m. elim m [ ]; arrows = λ r p m. elim m [ ] })
  try_rules-Ensures all (rel r ∷ rs) seen e inside sub =
      Ensures-or_next tuples subject seen (Grants tuples subject type id name)
        (Grants tuples subject type id name) (Done (rel r ∷ rs))
        (λ s. IsRelationDone tuples subject tuples s type id r) (Done rs)
        (relation_holds subject go tuples type id r seen)
        (λ s. try_rules subject go tuples rs type id s)
        (relation_holds-Ensures tuples subject Ok targets go start calls type id name r tuples seen
          (ruled all e (inside (rel r) (Memᴰ.head refl))) (λ t m. m) sub)
        (λ s sub'.
          try_rules-Ensures all rs s e (λ x m. inside x (Memᴰ.tail m)) (λ k h. sub' k (sub k h)))
        (λ p. p) (λ s s' sub' d t m on. ((d t m on).0, λ x q. sub' _ ((d t m on).1 x q)))
        (λ s here later. Done-rel r rs s here later)
  try_rules-Ensures all (arrow r p ∷ rs) seen e inside sub =
      Ensures-or_next tuples subject seen (Grants tuples subject type id name)
        (Grants tuples subject type id name) (Done (arrow r p ∷ rs))
        (λ s. IsArrowDone tuples subject tuples s type id r p) (Done rs)
        (follow_arrow subject go tuples type id r p seen)
        (λ s. try_rules subject go tuples rs type id s)
        (follow_arrow-Ensures tuples subject Ok targets go start calls type id name r p all tuples
          seen e (inside (arrow r p) (Memᴰ.head refl)) (λ t m. m) sub)
        (λ s sub'.
          try_rules-Ensures all rs s e (λ x m. inside x (Memᴰ.tail m)) (λ k h. sub' k (sub k h)))
        (λ g. g) (λ s s' sub' d t m on. sub' _ (d t m on))
        (λ s here later. Done-arrow r p rs s here later)

  plain-IsClosed :
      (s : List String)
      → rules type name ≡ none
      → IsRelationDone tuples subject tuples s type id name
      → IsClosed tuples subject s type id name
  plain-IsClosed s e d = record {
    relations = λ relation reads. of_reads relation reads;
    arrows = λ relation permission rs e' m. cc (e, e');
  }
    where
      of_reads :
          (relation : String)
          → Reads type name relation
          → IsRelationDone tuples subject tuples s type id relation
      of_reads relation (plain _ same) =
          subst (λ (x : String). IsRelationDone tuples subject tuples s type id x) (sym same) d
      of_reads relation (ruled rs e' m) = cc (e, e')

  ruled-IsClosed :
      (rs : List Rule) (s : List String)
      → rules type name ≡ some rs
      → Done rs s
      → IsClosed tuples subject s type id name
  ruled-IsClosed rs s e d = record {
    relations = λ relation reads. of_reads relation reads;
    arrows = λ relation permission rs' e' m.
        d.arrows relation permission
          (subst (Memᴰ (arrow relation permission)) (some-injective rs' rs (sym e' ∙ e)) m);
  }
    where
      of_reads :
          (relation : String)
          → Reads type name relation
          → IsRelationDone tuples subject tuples s type id relation
      of_reads relation (plain e' _) = cc (e, e')
      of_reads relation (ruled rs' e' m) =
          d.relations relation (subst (Memᴰ (rel relation)) (some-injective rs' rs (sym e' ∙ e)) m)

  expand-plain :
      rules type name ≡ none
      → expand subject go tuples type id name start
        ≡ relation_holds subject go tuples type id name start
  unfolding expand
  expand-plain e = rw (e, expand) refl

  expand-ruled :
      (rs : List Rule)
      → rules type name ≡ some rs
      → expand subject go tuples type id name start ≡ try_rules subject go tuples rs type id start
  unfolding expand
  expand-ruled rs e = rw (e, expand) refl

  pub expand-Ensures :
      Ensures tuples subject start
        (Grants tuples subject type id name)
        (λ s. IsClosed tuples subject s type id name)
        (expand subject go tuples type id name start)
  expand-Ensures = elim (Option-cases (rules type name)) [
    | inl e ↦ rw (expand-plain e) (
        Ensures-weaken tuples subject start (Grants tuples subject type id name)
          (Grants tuples subject type id name)
          (λ s. IsRelationDone tuples subject tuples s type id name)
          (λ s. IsClosed tuples subject s type id name)
          (relation_holds subject go tuples type id name start) (λ g. g)
          (λ s _ d. plain-IsClosed s e d)
          (relation_holds-Ensures tuples subject Ok targets go start calls type id name name tuples
            start (plain e refl) (λ t m. m) (λ k h. h)))
    | inr (rs, e) ↦ rw (expand-ruled rs e) (
        Ensures-weaken tuples subject start (Grants tuples subject type id name)
          (Grants tuples subject type id name) (Done rs)
          (λ s. IsClosed tuples subject s type id name)
          (try_rules subject go tuples rs type id start) (λ g. g) (λ s _ d. ruled-IsClosed rs s e d)
          (try_rules-Ensures rs rs start e (λ r m. m) (λ k h. h)))
  ]
