-- ===== src/Authz/Decides.antt =====
-- `check` always answers, and its answer says whether the tuples grant the permission.
use ai_de.Common.{
  ◌+◌, ◌*◌, ◌≤◌, String, ◌≡◌, refl, ◌∙◌, ap, ◌⊎◌, inl, inr, ◌↔◌, Bool, true, false, none, some,
  List, [], ◌∷◌, arith, length, contains-cons, unseen, Bool-cases, All-mem,
}
use ai_de.Authz.{Tuple, SubjectRef, CheckRequest, node_key, Answer, resolve, check, answer_of}
use ai_de.Authz.Grants.{Grants, direct, through_set, through_arrow, IsPlain, IsWellFormed}
use ai_de.Authz.Search.{Visited, IsClosed, Ensures}
use ai_de.Authz.Reachable.{reachable_keys, length-reachable_keys}
use ai_de.Authz.Resolved.{resolve-Ensures}

module _ (tuples : List Tuple) (subject : SubjectRef) (formed : IsWellFormed tuples) where
  -- A set that is closed and holds a node refutes a grant there.
  closed-ne-Grants :
      (s : List String)
      → ((type id name : String)
          → IsPlain type id
          → Visited s type id name
          → IsClosed tuples subject s type id name)
      → {type id name : String} → IsPlain type id
      → Visited s type id name
      → ¬ Grants tuples subject type id name
  closed-ne-Grants s closed {type} {id} {name} p v (direct relation t reads m on e hit) =
      cc (hit, ((closed type id name p v).relations relation reads t m on).0 e)
  closed-ne-Grants s closed {type} {id} {name} p v (through_set relation t r reads m on e g) =
      closed-ne-Grants s closed
        (All-mem (λ (x : Tuple). IsPlain x.subject_type x.subject_id) m formed)
        (((closed type id name p v).relations relation reads t m on).1 r e) g
  closed-ne-Grants s closed {type} {id} {name} p v (through_arrow relation t q rs e rule m on g) =
      closed-ne-Grants s closed
        (All-mem (λ (x : Tuple). IsPlain x.subject_type x.subject_id) m formed)
        ((closed type id name p v).arrows relation q rs e rule t m on) g

  decided :
      (type id name : String) (o : Answer)
      → IsPlain type id
      → Ensures tuples subject []
          (Grants tuples subject type id name)
          (λ s. Visited s type id name)
          o
      → (b : Bool) × (answer_of o ≡ some b) × ((b ≡ true) ↔ Grants tuples subject type id name)
  decided type id name none p h = absurd h
  decided type id name (some (true, s)) p h = (true, refl, (λ _. h, λ _. refl))
  decided type id name (some (false, s)) p h = (
    false,
    refl,
    (
      λ e. cc e,
      λ g. absurd (
          closed-ne-Grants s
            (λ type' id' name' p' v. from_start s type' id' name' (h.1 type' id' name' p' v)) p h.2
            g),
    ),
  )
    where
      from_start :
          (s : List String) (type' id' name' : String)
          → Visited [] type' id' name' ⊎ IsClosed tuples subject s type' id' name'
          → IsClosed tuples subject s type' id' name'
      from_start s type' id' name' (inl v) = cc v
      from_start s type' id' name' (inr c) = c

unseen-le-length : (us seen : List String) → unseen us seen ≤ length us
unseen-le-length [] seen = omega arith
unseen-le-length (u ∷ us) seen = ground (arith, unseen-le-length us seen)

-- `check` always answers with the fuel that it gives, and it answers `true` exactly when the
-- relationships grant the permission to the subject, for relationships and a resource with no `:`
-- in a type and no `#` in an id.
pub check_decides :
    (tuples : List Tuple) (req : CheckRequest)
    → IsWellFormed tuples
    → IsPlain req.resource_type req.resource_id
    → (b : Bool) × (check tuples req ≡ some b)
      × ((b ≡ true) ↔ Grants tuples req.subject req.resource_type req.resource_id req.permission)
unfolding check
check_decides tuples req formed p =
    let root = node_key req.resource_type req.resource_id req.permission in
    let keys = root ∷ reachable_keys tuples in
    decided tuples req.subject formed req.resource_type req.resource_id req.permission
      (resolve (2 * length tuples + 2) tuples req.subject req.resource_type req.resource_id
        req.permission [])
      p
      (resolve-Ensures tuples req.subject formed keys
        (λ k m. (contains-cons k root (reachable_keys tuples)).1 (inr m)) (2 * length tuples + 2)
        req.resource_type req.resource_id req.permission []
        (p, (contains-cons root root (reachable_keys tuples)).1 (inl refl))
        (omega (arith, unseen-le-length keys [], length-reachable_keys tuples)))

module _ (tuples : List Tuple) (req : CheckRequest) (formed : IsWellFormed tuples)
    (p : IsPlain req.resource_type req.resource_id) where
  abbrev Granted : Type 0
  Granted = Grants tuples req.subject req.resource_type req.resource_id req.permission

  pub check-true : (check tuples req ≡ some true) ↔ Granted
  check-true =
      let (b, e, iff) = check_decides tuples req formed p in
      (λ h. iff.0 (cc (e, h)), λ g. e ∙ ap (λ (x : Bool). some x) (iff.1 g))

  pub check-false : ¬ Granted → check tuples req ≡ some false
  check-false h =
      let (b, e, iff) = check_decides tuples req formed p in
      elim (Bool-cases b) [
        | inl yes_ ↦ absurd (h (iff.0 yes_))
        | inr no_ ↦ e ∙ ap (λ (x : Bool). some x) no_
      ]
