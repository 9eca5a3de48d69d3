-- ===== src/Tenancy/Engagement/Rows.antt =====
-- Reading a table after an UPDATE.
use ai_de.Common.{
  ◌≡◌, refl, Bool, true, false, Option, none, some, List, [], ◌∷◌, arith, any, find, if◌then◌else◌,
}
use ai_de.Tenancy.{update_where}

abbrev pub updated_row {ℓ} : {A : Type ℓ} → (A → Bool) → (A → A) → Option A → Option A
updated_row p f none = none
updated_row p f (some x) = some (if p x then f x else x)

module _ {ℓ} {A : Type ℓ} (p : A → Bool) (f : A → A) where
  pub find-update_where :
      (q : A → Bool) (xs : List A)
      → ((x : A) → q (f x) ≡ q x)
      → find q (update_where p f xs) ≡ updated_row p f (find q xs)
  find-update_where q [] h = refl
  find-update_where q (x ∷ xs) h = ground (arith, h x, find-update_where q xs h)

  pub update_where-none : (xs : List A) → any p xs ≡ false → update_where p f xs ≡ xs
  update_where-none [] h = refl
  update_where-none (x ∷ xs) h = ground (arith, update_where-none xs)

  pub any-update_where :
      (xs : List A) → ((x : A) → p (f x) ≡ false) → any p (update_where p f xs) ≡ false
  any-update_where [] h = refl
  any-update_where (x ∷ xs) h = ground (arith, h x, any-update_where xs h)

  -- Rows that the UPDATE does not select are found as they were.
  pub find-update_other :
      (q : A → Bool) (xs : List A)
      → ((x : A) → q (f x) ≡ q x)
      → ((x : A) → q x ≡ true → p x ≡ false)
      → find q (update_where p f xs) ≡ find q xs
  find-update_other q [] h k = refl
  find-update_other q (x ∷ xs) h k = ground (arith, h x, k x, find-update_other q xs h k)
