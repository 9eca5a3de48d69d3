-- ===== src/Review/Plan/Placed.antt =====
-- What the plan of a run says of every finding and of every thread.
use ai_de.Common.{
  Entry, map_get, ℕ, Bool, ◌≡◌, refl, ◌⊎◌, inl, inr, true, false, Option, none, some, List, [], ◌∷◌,
  ◌++◌, Memᴰ, any, any-append, if◌then◌else◌, arith, Bool-cases, Option-cases,
}
use mathlib.Core.List.Memᴰ
use ai_de.Review.{Finding, ThreadInfo}
use ai_de.Review.Plan.{
  ActionPlan, StillOpen, near_thread, near_finding, place_new, place_known, place_one, place_all,
}

module _ (window : ℕ) (open_ones : List ThreadInfo) where
  -- What the loop has done about a finding with a thread.
  abbrev pub IsKept : ActionPlan → Finding → ThreadInfo → Bool → Type 0
  IsKept plan f t true = Memᴰ t plan.to_reopen
  IsKept plan f t false = Memᴰ (record { finding = f; thread = t }) plan.still_open

  -- What the loop has done about a finding under its key.
  abbrev pub IsPlaced : ActionPlan → Finding → Option ThreadInfo → Type 0
  IsPlaced plan f none =
      (any (near_thread window f) open_ones ≡ true)
      ⊎ ((any (near_finding window f) plan.to_create ≡ true) ⊎ Memᴰ f plan.to_create)
  IsPlaced plan f (some t) = IsKept plan f t t.is_resolved

  -- A plan that has all that another one has.
  abbrev pub Extends : ActionPlan → ActionPlan → Type 0
  Extends p q =
      ((f : Finding) → Memᴰ f p.to_create → Memᴰ f q.to_create)
      × ((t : ThreadInfo) → Memᴰ t p.to_reopen → Memᴰ t q.to_reopen)
      × ((s : StillOpen) → Memᴰ s p.still_open → Memᴰ s q.still_open)
      × ((f : Finding)
          → any (near_finding window f) p.to_create ≡ true
          → any (near_finding window f) q.to_create ≡ true)

  self-Extends : (p : ActionPlan) → Extends p p
  self-Extends p = (λ f m. m, λ t m. m, λ s m. m, λ f h. h)

  steps-Extends : (p q r : ActionPlan) → Extends p q → Extends q r → Extends p r
  steps-Extends p q r (a, b, c, d) (a', b', c', d') =
      (λ f m. a' f (a f m), λ t m. b' t (b t m), λ s m. c' s (c s m), λ f h. d' f (d f h))

  Extends-IsKept :
      (p q : ActionPlan) (f : Finding) (t : ThreadInfo) (b : Bool)
      → Extends p q
      → IsKept p f t b
      → IsKept q f t b
  Extends-IsKept p q f t true (a, b, c, d) h = b t h
  Extends-IsKept p q f t false (a, b, c, d) h = c _ h

  pub Extends-IsPlaced :
      (p q : ActionPlan) (f : Finding) (o : Option ThreadInfo)
      → Extends p q
      → IsPlaced p f o
      → IsPlaced q f o
  Extends-IsPlaced p q f none (a, b, c, d) (inl h) = inl h
  Extends-IsPlaced p q f none (a, b, c, d) (inr (inl h)) = inr (inl (d f h))
  Extends-IsPlaced p q f none (a, b, c, d) (inr (inr m)) = inr (inr (a f m))
  Extends-IsPlaced p q f (some t) h k = Extends-IsKept p q f t t.is_resolved h k

module _ (window : ℕ) (mine : List (Entry ThreadInfo)) (open_ones : List ThreadInfo) where
  place_new-Extends :
      (f : Finding) (p : ActionPlan)
      → Extends window open_ones p (place_new window mine open_ones f p)
  unfolding place_new
  place_new-Extends f p = elim (Bool-cases (any (near_thread window f) open_ones)) [
    | inl e ↦ rw e (self-Extends window open_ones p)
    | inr e ↦ rw e elim (Bool-cases (any (near_finding window f) p.to_create)) [
      | inl c ↦ rw c (self-Extends window open_ones p)
      | inr c ↦ rw c (
        λ g m. Memᴰ.append_left (f ∷ []) m,
        λ t m. m,
        λ s m. m,
        λ g h. ground (arith, h, any-append (near_finding window g) p.to_create (f ∷ [])),
      )
    ]
  ]

  place_known-Extends :
      (f : Finding) (t : ThreadInfo) (p : ActionPlan)
      → Extends window open_ones p (place_known window mine open_ones f t p)
  unfolding place_known
  place_known-Extends f t p =
      let reopened = record p { to_reopen = p.to_reopen ++ t ∷ [] } in
      let kept = record p {
        still_open = p.still_open ++ record { finding = f; thread = t } ∷ [];
      } in
      elim t.is_resolved as (λ b. Extends window open_ones p (if b then reopened else kept)) [
        | true ↦ (λ g m. m, λ u m. Memᴰ.append_left (t ∷ []) m, λ s m. m, λ g h. h)
        | false ↦ (λ g m. m, λ u m. m, λ s m. Memᴰ.append_left _ m, λ g h. h)
      ]

  place_one-Extends :
      (e : Entry Finding) (p : ActionPlan)
      → Extends window open_ones p (place_one window mine open_ones e p)
  unfolding place_one
  place_one-Extends e p = elim (Option-cases (map_get e.entry_key mine)) [
    | inl q ↦ rw (q, place_one) (place_new-Extends e.value p)
    | inr (t, q) ↦ rw (q, place_one) (place_known-Extends e.value t p)
  ]

  pub place_all-Extends :
      (es : List (Entry Finding)) (p : ActionPlan)
      → Extends window open_ones p (place_all window mine open_ones es p)
  unfolding place_all
  place_all-Extends [] p = self-Extends window open_ones p
  place_all-Extends (e ∷ es) p =
      let next = place_one window mine open_ones e p in
      steps-Extends window open_ones p next (place_all window mine open_ones es next)
        (place_one-Extends e p) (place_all-Extends es next)

  place_new-IsPlaced :
      (f : Finding) (p : ActionPlan)
      → IsPlaced window open_ones (place_new window mine open_ones f p) f none
  unfolding place_new
  place_new-IsPlaced f p = elim (Bool-cases (any (near_thread window f) open_ones)) [
    | inl e ↦ inl e
    | inr e ↦ rw e elim (Bool-cases (any (near_finding window f) p.to_create)) [
      | inl c ↦ rw c (inr (inl c))
      | inr c ↦ rw c (inr (inr (Memᴰ.append_right p.to_create (Memᴰ.head refl))))
    ]
  ]

  place_known-IsPlaced :
      (f : Finding) (t : ThreadInfo) (p : ActionPlan)
      → IsPlaced window open_ones (place_known window mine open_ones f t p) f (some t)
  unfolding place_known
  place_known-IsPlaced f t p =
      let reopened = record p { to_reopen = p.to_reopen ++ t ∷ [] } in
      let kept = record p {
        still_open = p.still_open ++ record { finding = f; thread = t } ∷ [];
      } in
      elim t.is_resolved as (λ b. IsKept window open_ones (if b then reopened else kept) f t b) [
        | true ↦ Memᴰ.append_right p.to_reopen (Memᴰ.head refl)
        | false ↦ Memᴰ.append_right p.still_open (Memᴰ.head refl)
      ]

  place_one-IsPlaced :
      (e : Entry Finding) (p : ActionPlan)
      → IsPlaced window open_ones
          (place_one window mine open_ones e p)
          e.value
          (map_get e.entry_key mine)
  unfolding place_one
  place_one-IsPlaced e p = elim (Option-cases (map_get e.entry_key mine)) [
    | inl q ↦ rw (q, place_one) (place_new-IsPlaced e.value p)
    | inr (t, q) ↦ rw (q, place_one) (place_known-IsPlaced e.value t p)
  ]

  -- The loop places every entry that it comes to.
  pub place_all-IsPlaced :
      (es : List (Entry Finding)) (p : ActionPlan) {e : Entry Finding}
      → Memᴰ e es
      → IsPlaced window open_ones
          (place_all window mine open_ones es p)
          e.value
          (map_get e.entry_key mine)
  unfolding place_all
  place_all-IsPlaced [] p m = elim m [ ]
  place_all-IsPlaced (d ∷ ds) p (Memᴰ.head q) =
      let next = place_one window mine open_ones d p in
      rw q (
        Extends-IsPlaced window open_ones next (place_all window mine open_ones ds next) d.value
          (map_get d.entry_key mine) (place_all-Extends ds next) (place_one-IsPlaced d p))
  place_all-IsPlaced (d ∷ ds) p (Memᴰ.tail m) =
      place_all-IsPlaced ds (place_one window mine open_ones d p) m
