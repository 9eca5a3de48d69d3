-- ===== src/Common/Lists.antt =====
-- Lists measured by native numbers, and loops over lists.
use Prim.Native.Nat.{ℕ, zero, suc, ◌+◌}
use mathlib.Core.Path.{◌≡◌, refl, subst, sym}
use mathlib.Core.Logic.{inl, inr, ◌↔◌, ⊎_elim}
use mathlib.Core.Bool.{Bool, true, false, ◌&&◌, ◌||◌}
use mathlib.Core.Option.{Option, none, some}
use mathlib.Core.List.{List, [], ◌∷◌, ◌++◌, append_assoc, append-nil, Memᴰ}
use mathlib.Core.List.Memᴰ
use native.Mathlib.Omega.{arith}
use mathlib.Core.Option.{some-injective}
use ai_de.Common.Tests.{if◌then◌else◌, Bool-cases}

module _ {ℓ} {A : Type ℓ} where
  abbrev pub length : List A → ℕ
  length [] = 0
  length (x ∷ xs) = suc (length xs)

  abbrev pub get_elem? : List A → ℕ → Option A
  get_elem? [] i = none
  get_elem? (x ∷ xs) zero = some x
  get_elem? (x ∷ xs) (suc i) = get_elem? xs i

  abbrev pub take : ℕ → List A → List A
  take zero xs = []
  take (suc n) [] = []
  take (suc n) (x ∷ xs) = x ∷ take n xs

  abbrev pub drop : ℕ → List A → List A
  drop zero xs = xs
  drop (suc n) [] = []
  drop (suc n) (x ∷ xs) = drop n xs

  pub length-append : (xs ys : List A) → length (xs ++ ys) ≡ length xs + length ys
  length-append [] ys = omega arith
  length-append (x ∷ xs) ys = omega (arith, length-append xs ys)

  -- `xs.filter(p)`
  abbrev pub filter : (A → Bool) → List A → List A
  filter p [] = []
  filter p (x ∷ xs) = if p x then x ∷ filter p xs else filter p xs

  pub filter-append :
      (p : A → Bool) (xs ys : List A) → filter p (xs ++ ys) ≡ filter p xs ++ filter p ys
  filter-append p [] ys = refl
  filter-append p (x ∷ xs) ys = ground (arith, filter-append p xs ys)

  -- `xs.some(p)`
  abbrev pub any : (A → Bool) → List A → Bool
  any p [] = false
  any p (x ∷ xs) = p x || any p xs

  pub any-append : (p : A → Bool) (xs ys : List A) → any p (xs ++ ys) ≡ (any p xs || any p ys)
  any-append p [] ys = refl
  any-append p (x ∷ xs) ys = ground (arith, any-append p xs ys)

  pub any-left : (p : A → Bool) (xs ys : List A) → any p xs ≡ true → any p (xs ++ ys) ≡ true
  any-left p [] ys h = cc
  any-left p (x ∷ xs) ys h = ground (arith, any-left p xs ys)

  pub any-right : (p : A → Bool) (xs ys : List A) → any p ys ≡ true → any p (xs ++ ys) ≡ true
  any-right p [] ys h = h
  any-right p (x ∷ xs) ys h = ground (arith, any-right p xs ys)

  abbrev pub all : (A → Bool) → List A → Bool
  all p [] = true
  all p (x ∷ xs) = p x && all p xs

  -- `xs.find(p)`
  abbrev pub find : (A → Bool) → List A → Option A
  find p [] = none
  find p (x ∷ xs) = if p x then some x else find p xs

module _ {ℓ κ} {A : Type ℓ} (P : A → Type κ) where
  abbrev pub All : List A → Type κ
  All [] = Unit
  All (x ∷ xs) = P x × All xs

  pub All-append : (xs ys : List A) → All xs → All ys → All (xs ++ ys)
  All-append [] ys h k = k
  All-append (x ∷ xs) ys h k = (h.0, All-append xs ys h.1 k)

  pub All-mem : {x : A} {xs : List A} → Memᴰ x xs → All xs → P x
  All-mem (Memᴰ.head e) h = subst P (sym e) h.0
  All-mem (Memᴰ.tail m) h = All-mem m h.1

  pub All-intro : (xs : List A) → ((x : A) → Memᴰ x xs → P x) → All xs
  All-intro [] f = tt
  All-intro (x ∷ xs) f = (f x (Memᴰ.head refl), All-intro xs (λ y m. f y (Memᴰ.tail m)))

pub All-map {ℓ κ ι} :
    {A : Type ℓ} (P : A → Type κ) (Q : A → Type ι)
    → ((x : A) → P x → Q x)
    → (xs : List A) → All P xs
    → All Q xs
All-map P Q f [] h = tt
All-map P Q f (x ∷ xs) (h, hs) = (f x h, All-map P Q f xs hs)

module _ {ℓ} {A : Type ℓ} where
  pub mem-filter_iff :
      (p : A → Bool) (x : A) (xs : List A) → Memᴰ x (filter p xs) ↔ (Memᴰ x xs × (p x ≡ true))
  mem-filter_iff p x [] = (λ m. elim m [ ], λ m. elim m.0 [ ])
  mem-filter_iff p x (y ∷ ys) = elim (Bool-cases (p y)) [
    | inl e ↦ rw e (
      λ m.
          ⊎_elim (λ q. (Memᴰ.head q, rw q e))
            (λ n. let r = (mem-filter_iff p x ys).0 n in (Memᴰ.tail r.0, r.1)) (Memᴰ.cases_cons m),
      λ m.
          ⊎_elim (λ q. Memᴰ.head q) (λ n. Memᴰ.tail ((mem-filter_iff p x ys).1 (n, m.1)))
            (Memᴰ.cases_cons m.0),
    )
    | inr e ↦ rw e (
      λ m. let r = (mem-filter_iff p x ys).0 m in (Memᴰ.tail r.0, r.1),
      λ m.
          ⊎_elim (λ q. cc (q, e, m.1)) (λ n. (mem-filter_iff p x ys).1 (n, m.1))
            (Memᴰ.cases_cons m.0),
    )
  ]

  pub find_holds : (p : A → Bool) (xs : List A) {x : A} → find p xs ≡ some x → p x ≡ true
  find_holds p [] h = cc
  find_holds p (y ∷ ys) h = elim (Bool-cases (p y)) [
    | inl e ↦ subst (λ (z : A). p z ≡ true) (some-injective y _ (rw e at h)) e
    | inr e ↦ find_holds p ys (rw e at h)
  ]

-- No element is near one that stands before it.
module _ {ℓ} {A : Type ℓ} (near : A → A → Bool) where
  abbrev pub IsApart : List A → List A → Type 0
  IsApart before [] = Unit
  IsApart before (x ∷ xs) = (any (near x) before ≡ false) × IsApart (before ++ x ∷ []) xs

  pub IsApart-snoc :
      (before xs : List A) (x : A)
      → IsApart before xs
      → any (near x) (before ++ xs) ≡ false
      → IsApart before (xs ++ x ∷ [])
  IsApart-snoc before [] x h k = (subst (λ l. any (near x) l ≡ false) (append-nil before) k, tt)
  IsApart-snoc before (y ∷ ys) x (h, hs) k =
      (h, IsApart-snoc (before ++ y ∷ []) ys x hs (rw (append_assoc before (y ∷ []) ys) k))

pub any-mem {ℓ} :
    {A : Type ℓ} (p : A → Bool) (xs : List A) → any p xs ≡ true → (x : A) × Memᴰ x xs × (p x ≡ true)
any-mem p [] h = cc
any-mem p (x ∷ xs) h = elim (Bool-cases (p x)) [
  | inl e ↦ (x, Memᴰ.head refl, e)
  | inr e ↦ let (y, m, q) = any-mem p xs (rw e at h) in (y, Memᴰ.tail m, q)
]
