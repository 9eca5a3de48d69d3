-- ===== src/Review/Plan/Created.antt =====
-- What the loop of planActions adds to the created findings and the reopened threads.
use ai_de.Common.{
  Entry, map_get, IsApart, IsApart-snoc, if_elim, ℕ, String, ◌≡◌, refl, inl, inr, true, false, none,
  some, List, [], ◌∷◌, Memᴰ, any, All, All-append, arith, Bool-cases, Option-cases,
}
use ai_de.Review.{Finding, ThreadInfo}
use ai_de.Review.Plan.{
  ActionPlan, near_thread, near_finding, place_new, place_known, place_one, place_all,
}

module _ (w : ℕ) (mine : List (Entry ThreadInfo)) (open_ones : List ThreadInfo)
    (key : Finding → String) (R : Finding → Type 0) where
  -- A list of created findings that the loop may have built.
  abbrev pub IsCreated : List Finding → Type 0
  IsCreated fs =
      IsApart (near_finding w) [] fs
      × All (λ f. R f × (map_get (key f) mine ≡ none) × (any (near_thread w f) open_ones ≡ false))
          fs

  place_new-IsCreated :
      (f : Finding) (p : ActionPlan)
      → R f
      → map_get (key f) mine ≡ none
      → IsCreated p.to_create
      → IsCreated (place_new w mine open_ones f p).to_create
  unfolding place_new
  place_new-IsCreated f p r q (a, b) = elim (Bool-cases (any (near_thread w f) open_ones)) [
    | inl e ↦ rw e (a, b)
    | inr e ↦ rw e elim (Bool-cases (any (near_finding w f) p.to_create)) [
      | inl c ↦ rw c (a, b)
      | inr c ↦ rw c (
        IsApart-snoc (near_finding w) [] p.to_create f a c,
        All-append _ p.to_create (f ∷ []) b ((r, q, e), tt),
      )
    ]
  ]

  place_known-to_create :
      (f : Finding) (t : ThreadInfo) (p : ActionPlan)
      → (place_known w mine open_ones f t p).to_create ≡ p.to_create
  unfolding place_known
  place_known-to_create f t p = ground arith

  place_one-IsCreated :
      (e : Entry Finding) (p : ActionPlan)
      → R e.value
      → e.entry_key ≡ key e.value
      → IsCreated p.to_create
      → IsCreated (place_one w mine open_ones e p).to_create
  unfolding place_one
  place_one-IsCreated e p r k h = elim (Option-cases (map_get e.entry_key mine)) [
    | inl q ↦ rw (q, place_one) (place_new-IsCreated e.value p r (rw (← k) q) h)
    | inr (t, q) ↦ rw (q, place_one) (rw (place_known-to_create e.value t p) h)
  ]

  pub place_all-IsCreated :
      (es : List (Entry Finding)) (p : ActionPlan)
      → ((e : Entry Finding) → Memᴰ e es → R e.value × (e.entry_key ≡ key e.value))
      → IsCreated p.to_create
      → IsCreated (place_all w mine open_ones es p).to_create
  unfolding place_all
  place_all-IsCreated [] p r h = h
  place_all-IsCreated (e ∷ es) p r h =
      let k = r e (Memᴰ.head refl) in
      place_all-IsCreated es (place_one w mine open_ones e p) (λ d m. r d (Memᴰ.tail m))
        (place_one-IsCreated e p k.0 k.1 h)

module _ (w : ℕ) (mine : List (Entry ThreadInfo)) (open_ones : List ThreadInfo)
    (R : ThreadInfo → Type 0) where
  -- A list of reopened threads that the loop may have built.
  abbrev pub IsReopened : List ThreadInfo → Type 0
  IsReopened ts = All (λ t. (t.is_resolved ≡ true) × R t) ts

  place_new-to_reopen :
      (f : Finding) (p : ActionPlan) → (place_new w mine open_ones f p).to_reopen ≡ p.to_reopen
  unfolding place_new
  place_new-to_reopen f p = ground arith

  place_known-IsReopened :
      (f : Finding) (t : ThreadInfo) (p : ActionPlan)
      → R t
      → IsReopened p.to_reopen
      → IsReopened (place_known w mine open_ones f t p).to_reopen
  unfolding place_known
  place_known-IsReopened f t p r h =
      if_elim (λ (q : ActionPlan). IsReopened q.to_reopen) t.is_resolved
        (λ e. All-append _ p.to_reopen (t ∷ []) h ((e, r), tt)) (λ e. h)

  place_one-IsReopened :
      (e : Entry Finding) (p : ActionPlan)
      → ((t : ThreadInfo) → map_get e.entry_key mine ≡ some t → R t)
      → IsReopened p.to_reopen
      → IsReopened (place_one w mine open_ones e p).to_reopen
  unfolding place_one
  place_one-IsReopened e p r h = elim (Option-cases (map_get e.entry_key mine)) [
    | inl q ↦ rw (q, place_one) (rw (place_new-to_reopen e.value p) h)
    | inr (t, q) ↦ rw (q, place_one) (place_known-IsReopened e.value t p (r t q) h)
  ]

  pub place_all-IsReopened :
      (es : List (Entry Finding)) (p : ActionPlan)
      → ((e : Entry Finding) (t : ThreadInfo) → Memᴰ e es → map_get e.entry_key mine ≡ some t → R t)
      → IsReopened p.to_reopen
      → IsReopened (place_all w mine open_ones es p).to_reopen
  unfolding place_all
  place_all-IsReopened [] p r h = h
  place_all-IsReopened (e ∷ es) p r h =
      place_all-IsReopened es (place_one w mine open_ones e p) (λ d t m. r d t (Memᴰ.tail m))
        (place_one-IsReopened e p (λ t q. r e t (Memᴰ.head refl) q) h)
