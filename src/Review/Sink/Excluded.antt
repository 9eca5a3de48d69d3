-- ===== src/Review/Sink/Excluded.antt =====
-- The findings and threads that a run of the sink leaves out, and the lookups behind it.
use mathlib.Core.Logic.{⊎_elim}
use ai_de.Common.{
  last_of, last_of-mem, String, Bool, ◌≡◌, refl, inl, inr, true, false, not, ◌&&◌, ◌||◌, none, some,
  List, [], ◌∷◌, Memᴰ, arith, Bool-cases, filter, mem-filter_iff, str_eq, str_eq_iff, any, contains,
}
use ai_de.Review.{Finding, ThreadInfo, Retraction, KeyTexts, key_of}
use ai_de.Review.Plan.{is_dismissed}
use ai_de.Review.Sink.Known.{
  withdrawn_keys, is_reported, prior_retracted, keys, is_withdrawn, dismissed_threads, excluded,
}

pub mem_of_last {ℓ} :
    {A : Type ℓ} (key : A → String) (k : String) (xs : List A) {x : A}
    → last_of key k xs none ≡ some x
    → Memᴰ x xs
mem_of_last key k xs h = ⊎_elim (λ m. m) (λ q. cc (q)) (last_of-mem key k xs none h)

module _ {ℓ} {A : Type ℓ} (q p : A → Bool) where
  pub any-unless :
      (xs : List A)
      → ((x : A) → q x ≡ true → p x ≡ true)
      → any q (filter p xs) ≡ false
      → any q xs ≡ false
  any-unless [] f h = refl
  any-unless (x ∷ xs) f h = ground (arith, f x, any-unless xs f)

  pub any-part : (xs : List A) → any q (filter p xs) ≡ true → any q xs ≡ true
  any-part [] h = h
  any-part (x ∷ xs) h = ground (arith, any-part xs)

contains-keys :
    (t : ThreadInfo) (ts : List ThreadInfo) → Memᴰ t ts → contains t.thread_key (keys ts) ≡ true
contains-keys t [] m = elim m [ ]
contains-keys t (u ∷ us) (Memᴰ.head q) = rw q ground (arith, str_eq_iff u.thread_key u.thread_key)
contains-keys t (u ∷ us) (Memᴰ.tail m) = ground (arith, contains-keys t us m)

true_ne_false : {b : Bool} → b ≡ true → b ≡ false → ⊥
true_ne_false h k = cc (h, k)

not_selected :
    (p : ThreadInfo → Bool) (t : ThreadInfo) (ts : List ThreadInfo)
    → Memᴰ t ts
    → contains t.thread_key (keys (filter p ts)) ≡ false
    → p t ≡ false
not_selected p t ts m h = elim (Bool-cases (p t)) [
  | inl e ↦
      absurd (true_ne_false (contains-keys t (filter p ts) ((mem-filter_iff p t ts).1 (m, e))) h)
  | inr e ↦ e
]

none_of : (a b c : Bool) → not (a || (b || c)) ≡ true → (a ≡ false) × (b ≡ false) × (c ≡ false)
none_of a b c h = ground arith

-- A thread whose key is not excluded, although a finding with that key is reported.
pub admitted_lem :
    (texts : KeyTexts) (findings : List Finding) (retractions : List Retraction)
    (threads : List ThreadInfo) (t : ThreadInfo)
    → Memᴰ t threads
    → not (excluded texts findings retractions threads t.thread_key) ≡ true
    → any (λ f. str_eq (key_of texts f) t.thread_key) findings ≡ true
    → (t.retracted ≡ false) × (is_withdrawn retractions t ≡ false) × (is_dismissed t true ≡ false)
unfolding excluded dismissed_threads
admitted_lem texts findings retractions threads t m h reported =
    let dismissible = λ (u : ThreadInfo).
      not (contains u.thread_key (withdrawn_keys texts findings retractions threads))
      && is_dismissed u (is_reported texts findings retractions threads u) in
    let (d, w, r) =
      none_of (contains t.thread_key (keys (filter dismissible threads)))
        (contains t.thread_key (withdrawn_keys texts findings retractions threads))
        (contains t.thread_key (prior_retracted texts findings retractions threads)) h in
    let undismissed = not_selected dismissible t threads m d in
    (
      not_selected (λ u. u.retracted) t threads m r,
      not_selected (is_withdrawn retractions) t threads m w,
      ground (arith, undismissed, w, reported),
    )
