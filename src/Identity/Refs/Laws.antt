-- ===== src/Identity/Refs/Laws.antt =====
-- What the sets of references hold, and that no reference is held twice.
use ai_de.Common.{
  ◌≡◌, ◌↔◌, refl, inl, inr, true, false, ◌||◌, List, [], ◌∷◌, ◌++◌, arith, any, any-append,
  str_eq_iff, Bool-cases,
}
use ai_de.Identity.Refs.{
  ExternalRef, Normalizers, same_ref, has, unseen_refs, normalized, normalize_external_refs,
  union_refs, shares_exact_ref,
}

-- No reference stands twice.
abbrev pub IsDistinct : List ExternalRef → Type 0
IsDistinct [] = Unit
IsDistinct (r ∷ rs) = (has r rs ≡ false) × IsDistinct rs

same_ref_trans : (a b c : ExternalRef) → same_ref a b ≡ true → same_ref a c ≡ same_ref b c
same_ref_trans a b c h =
    ground (arith, str_eq_iff a.connector b.connector, str_eq_iff a.external_id b.external_id)

same_ref_comm : (a b : ExternalRef) → same_ref a b ≡ same_ref b a
same_ref_comm a b = ground (
  arith,
  str_eq_iff a.connector b.connector,
  str_eq_iff a.external_id b.external_id,
  str_eq_iff b.connector a.connector,
  str_eq_iff b.external_id a.external_id,
)

pub same_ref_refl : (r : ExternalRef) → same_ref r r ≡ true
same_ref_refl r =
    ground (arith, str_eq_iff r.connector r.connector, str_eq_iff r.external_id r.external_id)

has-same : (a b : ExternalRef) (rs : List ExternalRef) → same_ref a b ≡ true → has a rs ≡ has b rs
has-same a b [] h = refl
has-same a b (r ∷ rs) h = ground (arith, same_ref_trans a b r h, has-same a b rs h)

-- The loop adds the references that were not seen, and nothing else.
pub has-unseen_refs :
    (x : ExternalRef) (seen rs : List ExternalRef)
    → (has x seen || has x (unseen_refs seen rs)) ≡ (has x seen || has x rs)
unfolding unseen_refs
has-unseen_refs x seen [] = refl
has-unseen_refs x seen (r ∷ rs) =
    ground (arith, has-unseen_refs x seen rs, has-unseen_refs x (r ∷ seen) rs, has-same x r seen)

unseen_refs-unseen :
    (x : ExternalRef) (seen rs : List ExternalRef)
    → has x seen ≡ true
    → has x (unseen_refs seen rs) ≡ false
unfolding unseen_refs
unseen_refs-unseen x seen [] h = refl
unseen_refs-unseen x seen (r ∷ rs) h =
    ground
      (arith, unseen_refs-unseen x seen rs h, unseen_refs-unseen x (r ∷ seen) rs, has-same x r seen)

unseen_refs-IsDistinct : (seen rs : List ExternalRef) → IsDistinct (unseen_refs seen rs)
unfolding unseen_refs
unseen_refs-IsDistinct seen [] = tt
unseen_refs-IsDistinct seen (r ∷ rs) = elim (Bool-cases (has r seen)) [
  | inl e ↦ rw e (unseen_refs-IsDistinct seen rs)
  | inr e ↦ rw e (
    unseen_refs-unseen r (r ∷ seen) rs (ground (arith, same_ref_refl r)),
    unseen_refs-IsDistinct (r ∷ seen) rs,
  )
]

has-append : (x : ExternalRef) (a b : List ExternalRef) → has x (a ++ b) ≡ (has x a || has x b)
has-append x a b = any-append (same_ref x) a b

append-IsDistinct :
    (a b : List ExternalRef)
    → IsDistinct a
    → IsDistinct b
    → ((x : ExternalRef) → has x a ≡ true → has x b ≡ false)
    → IsDistinct (a ++ b)
append-IsDistinct [] b h k d = k
append-IsDistinct (x ∷ a) b h k d = (
  ground (arith, h.0, has-append x a b, d x, same_ref_refl x),
  append-IsDistinct a b h.1 k (λ y e. d y (ground (arith, e))),
)

any-has_iff :
    (a b : List ExternalRef)
    → (any (λ r. has r a) b ≡ true) ↔ ((x : ExternalRef) × (has x a ≡ true) × (has x b ≡ true))
any-has_iff a [] = (λ h. cc h, λ h. cc h.2)
any-has_iff a (r ∷ b) = (
  λ h. elim (Bool-cases (has r a)) [
    | inl e ↦ (r, e, ground (arith, same_ref_refl r))
    | inr e ↦
        let (x, p, q) = (any-has_iff a b).0 (ground (arith, h, e)) in (x, p, ground (arith, q))
  ],
  λ h.
      let (x, p, q) = h in
      elim (Bool-cases (same_ref x r)) [
        | inl e ↦ ground (arith, has-same x r a e, p)
        | inr e ↦ ground (arith, (any-has_iff a b).1 (x, p, ground (arith, q, e)))
      ],
)

module _ (n : Normalizers) where
  normalize-IsDistinct : (a : List ExternalRef) → IsDistinct (normalize_external_refs n a)
  unfolding normalize_external_refs
  normalize-IsDistinct a = unseen_refs-IsDistinct [] (normalized n a)

  has-normalize :
      (x : ExternalRef) (a : List ExternalRef)
      → has x (normalize_external_refs n a) ≡ has x (normalized n a)
  unfolding normalize_external_refs
  has-normalize x a = ground (arith, has-unseen_refs x [] (normalized n a))

  -- The union of two sets of references holds none twice, holds exactly the normalized references
  -- of both, and starts with those of the first.
  pub union_refs_lem :
      (a b : List ExternalRef)
      → IsDistinct (union_refs n a b)
        × ((x : ExternalRef)
            → has x (union_refs n a b) ≡ (has x (normalized n a) || has x (normalized n b)))
        × ((rest : List ExternalRef) × (union_refs n a b ≡ normalize_external_refs n a ++ rest))
  unfolding union_refs
  union_refs_lem a b =
      let merged = normalize_external_refs n a in
      let more = normalize_external_refs n b in
      (
        append-IsDistinct merged (unseen_refs merged more) (normalize-IsDistinct a)
            (unseen_refs-IsDistinct merged more) (λ x h. unseen_refs-unseen x merged more h),
        λ x. ground (
          arith,
          has-append x merged (unseen_refs merged more),
          has-unseen_refs x merged more,
          has-normalize x a,
          has-normalize x b,
        ),
        (unseen_refs merged more, refl),
      )

  -- Two sets of references share an exact one exactly when some reference is a normalized reference
  -- of both.
  pub shares_exact_ref_iff :
      (a b : List ExternalRef)
      → (shares_exact_ref n a b ≡ true)
        ↔ ((x : ExternalRef) × (has x (normalized n a) ≡ true) × (has x (normalized n b) ≡ true))
  unfolding shares_exact_ref
  shares_exact_ref_iff a b =
      let (to, from) = any-has_iff (normalize_external_refs n a) (normalize_external_refs n b) in
      (
        λ h.
            let (x, p, q) = to h in
            (x, ground (arith, p, has-normalize x a), ground (arith, q, has-normalize x b)),
        λ h.
            let (x, p, q) = h in
            from (x, ground (arith, p, has-normalize x a), ground (arith, q, has-normalize x b)),
      )
