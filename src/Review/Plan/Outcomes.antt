-- ===== src/Review/Plan/Outcomes.antt =====
-- The plan as a whole, and the verdict.
use ai_de.Common.{
  is_some-map_of, last_of, map_get, map_get-map_of, map_get-mem, map_of, map_of-IsKeyed,
  mem-IsKeyed, mem-values_iff, IsApart, All-map, ap, ℕ, String, Bool, ◌≡◌, refl, sym, ◌∙◌, ◌↔◌, inl,
  inr, true, false, not, Option, none, some, is_some, List, [], ◌∷◌, Memᴰ, any, All, filter,
  mem-filter_iff, str_eq, arith, Bool-cases, ◌&&◌, ◌||◌,
}
use ai_de.Review.{Severity, Finding, ThreadInfo, KeyTexts, key_of}
use ai_de.Review.Plan.{
  near_finding, ActionPlan, near_thread, open_threads, place_all, pass_failed, fixed, plan_actions,
  empty_plan, compute_verdict, is_blocking,
}
use ai_de.Review.Plan.Created.{IsCreated, place_all-IsCreated, place_all-IsReopened}
use ai_de.Review.Plan.Placed.{IsPlaced, Extends-IsPlaced, place_all-IsPlaced}

guards_iff :
    (a b c : Bool) → ((not (a || b) && not c) ≡ true) ↔ ((a ≡ false) × (b ≡ false) × (c ≡ false))
guards_iff a b c = ground arith

module _ (texts : KeyTexts) (w : ℕ) (failed : List String) (fs : List Finding)
    (ts : List ThreadInfo) where
  abbrev plan : ActionPlan
  plan = plan_actions texts w failed fs ts

  abbrev thread_of : String → Option ThreadInfo
  thread_of k = last_of (λ (t : ThreadInfo). t.thread_key) k ts none

  -- For the last finding with a key: if the last thread with that key is resolved the plan reopens
  -- it, if it is open the plan keeps it with the finding, and if there is none the finding is
  -- created, or is near an open thread, or is near a finding that is created.
  pub plan_actions-IsPlaced :
      (k : String) (f : Finding)
      → last_of (key_of texts) k fs none ≡ some f
      → IsPlaced w (open_threads ts) plan f (thread_of k)
  unfolding plan_actions
  plan_actions-IsPlaced k f h =
      let current = map_of (key_of texts) fs in
      let mine = map_of (λ (t : ThreadInfo). t.thread_key) ts in
      let open_ones = open_threads ts in
      let (e, m, ke, ve) =
        map_get-mem (key_of texts) k current (map_get-map_of (key_of texts) k fs ∙ h) in
      let loop = place_all w mine open_ones current empty_plan in
      let placed : IsPlaced w open_ones loop f (thread_of k) =
        rw (← ve, ← map_get-map_of (λ (t : ThreadInfo). t.thread_key) k ts, ← ke)
          (place_all-IsPlaced w mine open_ones current empty_plan m) in
      Extends-IsPlaced w open_ones loop plan f (thread_of k)
        (λ g n. n, λ u n. n, λ u n. n, λ g n. n) placed

  -- Every finding that the plan creates is the last one with its key, has a key that no thread
  -- carries, is near no open thread, and is near none that is created before it.
  pub plan_actions-created :
      IsApart (near_finding w) [] plan.to_create
      × All
          (λ f.
            (last_of (key_of texts) (key_of texts f) fs none ≡ some f)
            × (any (λ (t : ThreadInfo). str_eq t.thread_key (key_of texts f)) ts ≡ false)
            × (any (near_thread w f) (open_threads ts) ≡ false))
          plan.to_create
  unfolding plan_actions
  plan_actions-created =
      let mine = map_of (λ (t : ThreadInfo). t.thread_key) ts in
      let current = map_of (key_of texts) fs in
      let R : Finding → Type 0 = λ f. last_of (key_of texts) (key_of texts f) fs none ≡ some f in
      let made : IsCreated w mine (open_threads ts) (key_of texts) R plan.to_create =
        place_all-IsCreated w mine (open_threads ts) (key_of texts) R current empty_plan
          (λ e m.
            let (k, g) =
              mem-IsKeyed (key_of texts) current (map_of-IsKeyed (key_of texts) fs) e m in
            (
              sym (map_get-map_of (key_of texts) (key_of texts e.value) fs)
                  ∙ ap (λ j. map_get j current) (sym k)
                  ∙ g,
              k,
            ))
          (tt, tt) in
      (
        made.0,
        All-map _ _
            (λ f r. (
              r.0,
              sym (is_some-map_of (λ (t : ThreadInfo). t.thread_key) (key_of texts f) ts)
                  ∙ ap is_some r.1,
              r.2,
            ))
            plan.to_create made.1,
      )

  -- The threads that the plan reopens are the last ones with their keys, resolved, and still
  -- reported.
  pub plan_actions-reopened :
      All
        (λ t.
          (t.is_resolved ≡ true)
          × (thread_of t.thread_key ≡ some t)
          × (any (λ f. str_eq (key_of texts f) t.thread_key) fs ≡ true))
        plan.to_reopen
  unfolding plan_actions
  plan_actions-reopened =
      let Q : ThreadInfo → Type 0 = λ t.
        (thread_of t.thread_key ≡ some t)
        × (any (λ f. str_eq (key_of texts f) t.thread_key) fs ≡ true) in
      let thread_key = λ (t : ThreadInfo). t.thread_key in
      let mine = map_of thread_key ts in
      let current = map_of (key_of texts) fs in
      All-map (λ t. (t.is_resolved ≡ true) × Q t) _ (λ t r. (r.0, r.1.0, r.1.1)) plan.to_reopen
        (place_all-IsReopened w mine (open_threads ts) Q current empty_plan
          (λ e t m q.
            let (d, md, kd, vd) = map_get-mem thread_key e.entry_key mine q in
            let k : e.entry_key ≡ t.thread_key =
              sym kd
              ∙ (mem-IsKeyed thread_key mine (map_of-IsKeyed thread_key ts) d md).0
              ∙ ap thread_key vd in
            let g = (mem-IsKeyed (key_of texts) current (map_of-IsKeyed (key_of texts) fs) e m).1 in
            (
              ap (λ j. thread_of j) (sym k) ∙ sym (map_get-map_of thread_key e.entry_key ts) ∙ q,
              sym (is_some-map_of (key_of texts) t.thread_key fs)
                  ∙ ap (λ j. is_some (map_get j current)) (sym k)
                  ∙ ap is_some g,
            ))
          tt)

  -- The plan resolves exactly the threads that are the last ones with their keys, are open, have a
  -- key that no finding of the run has, and whose pass did not fail.
  pub plan_actions-to_resolve_iff :
      (t : ThreadInfo)
      → Memᴰ t plan.to_resolve ↔ (
          (thread_of t.thread_key ≡ some t)
          × (t.is_resolved ≡ false)
          × (any (λ f. str_eq (key_of texts f) t.thread_key) fs ≡ false)
          × (pass_failed failed t ≡ false))
  unfolding plan_actions
  plan_actions-to_resolve_iff t =
      let current = map_of (key_of texts) fs in
      let mine = map_of (λ (u : ThreadInfo). u.thread_key) ts in
      let seen = λ (k : String). sym (is_some-map_of (key_of texts) k fs) in
      let found = λ (k : String). map_get-map_of (λ (u : ThreadInfo). u.thread_key) k ts in
      (
        λ m.
            let (e, me, ve) = (mem-values_iff t _).0 m in
            let (inside, guard) = (mem-filter_iff (fixed failed current) e mine).0 me in
            let (ke, ge) =
              mem-IsKeyed (λ (u : ThreadInfo). u.thread_key) mine (map_of-IsKeyed _ ts) e inside in
            let kt = ke ∙ ap (λ (u : ThreadInfo). u.thread_key) ve in
            let (open_one, gone, quiet) =
              (guards_iff e.value.is_resolved (is_some (map_get e.entry_key current))
                  (pass_failed failed e.value)).0
                guard in
            (
              sym (found t.thread_key) ∙ ap (λ k. map_get k mine) (sym kt) ∙ ge ∙ ap some ve,
              ap (λ (u : ThreadInfo). u.is_resolved) (sym ve) ∙ open_one,
              seen t.thread_key ∙ ap (λ k. is_some (map_get k current)) (sym kt) ∙ gone,
              ap (pass_failed failed) (sym ve) ∙ quiet,
            ),
        λ h.
            let (e, me, ke, ve) =
              map_get-mem (λ (u : ThreadInfo). u.thread_key) t.thread_key mine
                (found t.thread_key ∙ h.0) in
            (mem-values_iff t _).1 (
              e,
              (mem-filter_iff (fixed failed current) e mine).1 (
                me,
                (guards_iff e.value.is_resolved (is_some (map_get e.entry_key current))
                      (pass_failed failed e.value)).1
                    (
                      ap (λ (u : ThreadInfo). u.is_resolved) ve ∙ h.1,
                      ap (λ k. is_some (map_get k current)) ke ∙ sym (seen t.thread_key) ∙ h.2,
                      ap (pass_failed failed) ve ∙ h.3,
                    ),
              ),
              ve,
            ),
      )

none_there {ℓ} :
    {A : Type ℓ} {x : A} {xs : List A} → not (any (λ y. true) xs) ≡ true → Memᴰ x xs → ⊥
none_there {xs = []} h m = elim m [ ]
none_there {xs = y ∷ ys} h m = cc

none_blocking {ℓ} :
    {A : Type ℓ} (p : A → Bool) (xs : List A)
    → ((x : A) → Memᴰ x xs → p x ≡ false)
    → not (any (λ y. true) (filter p xs)) ≡ true
none_blocking p [] h = refl
none_blocking p (x ∷ xs) h =
    rw (h x (Memᴰ.head refl)) (none_blocking p xs (λ y m. h y (Memᴰ.tail m)))

-- A verdict approves exactly when no finding blocks.
pub compute_verdict_lem :
    (s : Severity) (fs : List Finding)
    → ((compute_verdict s fs).approve ≡ true)
      ↔ ((f : Finding) → Memᴰ f fs → is_blocking s f ≡ false)
unfolding compute_verdict
compute_verdict_lem s fs = (
  λ h f m. elim (Bool-cases (is_blocking s f)) [
    | inl e ↦ absurd (none_there h ((mem-filter_iff (is_blocking s) f fs).1 (m, e)))
    | inr e ↦ e
  ],
  λ h. none_blocking (is_blocking s) fs h,
)
