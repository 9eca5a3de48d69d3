-- ===== src/Common/Maps.antt =====
-- The insertion-ordered Map of the language, as the list of its entries: what a lookup finds, and
-- which entries there are.
use Prim.Native.String.{String}
use mathlib.Core.Path.{◌≡◌, refl, sym, ap, ◌∙◌}
use mathlib.Core.Logic.{⊎_elim, ◌⊎◌, ◌↔◌, inl, inr}
use mathlib.Core.Bool.{true, false}
use mathlib.Core.Option.{Option, none, some, some-injective}
use mathlib.Core.List.{List, [], ◌∷◌, Memᴰ}
use mathlib.Core.List.Memᴰ
use native.Mathlib.Omega.{arith}
use ai_de.Common.Tests.{if◌then◌else◌, is_some, Bool-cases}
use ai_de.Common.Lists.{any}
use ai_de.Common.Texts.{str_eq, str_eq_iff}

pub record Entry {ℓ} (A : Type ℓ) : Type ℓ where
  pub entry_key : String
  pub value : A

module _ {ℓ} {A : Type ℓ} where
  -- `map.set(k, v)`: a key that is there keeps its position.
  unfoldable pub map_set : String → A → List (Entry A) → List (Entry A)
  map_set k v [] = record { entry_key = k; value = v } ∷ []
  map_set k v (e ∷ es) =
      if str_eq e.entry_key k
      then record { entry_key = e.entry_key; value = v } ∷ es
      else e ∷ map_set k v es

  -- `map.get(k)`
  unfoldable pub map_get : String → List (Entry A) → Option A
  map_get k [] = none
  map_get k (e ∷ es) = if str_eq e.entry_key k then some e.value else map_get k es

  -- `for (const x of xs) map.set(key(x), x)`
  unfoldable pub set_all : (A → String) → List A → List (Entry A) → List (Entry A)
  set_all key [] m = m
  set_all key (x ∷ xs) m = set_all key xs (map_set (key x) x m)

  -- `new Map(xs.map((x) => [key(x), x]))`
  abbrev pub map_of : (A → String) → List A → List (Entry A)
  map_of key xs = set_all key xs []

-- `map.values()`
unfoldable pub values {ℓ} : {A : Type ℓ} → List (Entry A) → List A
values [] = []
values (e ∷ es) = e.value ∷ values es

-- The last element that has the key, and the one given if there is none.
abbrev pub last_of {ℓ} : {A : Type ℓ} → (A → String) → String → List A → Option A → Option A
last_of key k [] found = found
last_of key k (x ∷ xs) found = last_of key k xs (if str_eq (key x) k then some x else found)

module _ {ℓ} {A : Type ℓ} where
  pub map_get-map_set :
      (k j : String) (v : A) (m : List (Entry A))
      → map_get k (map_set j v m) ≡ (if str_eq j k then some v else map_get k m)
  unfolding map_get map_set
  map_get-map_set k j v [] = refl
  map_get-map_set k j v (e ∷ es) = ground (
    arith,
    str_eq_iff e.entry_key j,
    str_eq_iff e.entry_key k,
    str_eq_iff j k,
    map_get-map_set k j v es,
  )

module _ {ℓ} {A : Type ℓ} (key : A → String) where
  map_get-set_all :
      (k : String) (xs : List A) (m : List (Entry A))
      → map_get k (set_all key xs m) ≡ last_of key k xs (map_get k m)
  unfolding set_all
  map_get-set_all k [] m = refl
  map_get-set_all k (x ∷ xs) m =
      rw (map_get-set_all k xs (map_set (key x) x m), map_get-map_set k (key x) x m) refl

  -- A lookup finds the last element that has the key.
  pub map_get-map_of :
      (k : String) (xs : List A) → map_get k (map_of key xs) ≡ last_of key k xs none
  unfolding map_get
  map_get-map_of k xs = map_get-set_all k xs []

  pub last_of-mem :
      (k : String) (xs : List A) (found : Option A) {x : A}
      → last_of key k xs found ≡ some x
      → Memᴰ x xs ⊎ (found ≡ some x)
  last_of-mem k [] found h = inr h
  last_of-mem k (y ∷ ys) found h =
      ⊎_elim (λ m. inl (Memᴰ.tail m))
        (λ q. elim (Bool-cases (str_eq (key y) k)) [
          | inl e ↦ inl (Memᴰ.head (sym (some-injective y _ (rw e at q))))
          | inr e ↦ inr (rw e at q)
        ])
        (last_of-mem k ys (if str_eq (key y) k then some y else found) h)

  last_of-is_some :
      (k : String) (xs : List A) (found : Option A)
      → is_some (last_of key k xs found)
        ≡ (if any (λ x. str_eq (key x) k) xs then true else is_some found)
  last_of-is_some k [] found = refl
  last_of-is_some k (x ∷ xs) found =
      ground (arith, last_of-is_some k xs (if str_eq (key x) k then some x else found))

  pub is_some-map_of :
      (k : String) (xs : List A)
      → is_some (map_get k (map_of key xs)) ≡ any (λ x. str_eq (key x) k) xs
  is_some-map_of k xs = rw (map_get-map_of k xs) ground (arith, last_of-is_some k xs none)

  -- Each entry stands under the key of its value.
  abbrev pub IsKeyed : List (Entry A) → Type ℓ
  IsKeyed [] = Unit
  IsKeyed (e ∷ es) = (e.entry_key ≡ key e.value) × (map_get e.entry_key es ≡ none) × IsKeyed es

  map_set-IsKeyed : (v : A) (m : List (Entry A)) → IsKeyed m → IsKeyed (map_set (key v) v m)
  unfolding map_set map_get
  map_set-IsKeyed v [] h = (refl, refl, tt)
  map_set-IsKeyed v (e ∷ es) (he, hn, hs) = elim (Bool-cases (str_eq e.entry_key (key v))) [
    | inl q ↦ rw q ((str_eq_iff e.entry_key (key v)).0 q, hn, hs)
    | inr q ↦ rw q (
      he,
      ground (
        arith,
        map_get-map_set e.entry_key (key v) v es,
        str_eq_iff e.entry_key (key v),
        str_eq_iff (key v) e.entry_key,
      ),
      map_set-IsKeyed v es hs,
    )
  ]

  set_all-IsKeyed : (xs : List A) (m : List (Entry A)) → IsKeyed m → IsKeyed (set_all key xs m)
  unfolding set_all
  set_all-IsKeyed [] m h = h
  set_all-IsKeyed (x ∷ xs) m h = set_all-IsKeyed xs (map_set (key x) x m) (map_set-IsKeyed x m h)

  pub map_of-IsKeyed : (xs : List A) → IsKeyed (map_of key xs)
  map_of-IsKeyed xs = set_all-IsKeyed xs [] tt

  -- The entries of such a map are what the lookups find.
  pub mem-IsKeyed :
      (m : List (Entry A))
      → IsKeyed m
      → (e : Entry A) → Memᴰ e m
      → (e.entry_key ≡ key e.value) × (map_get e.entry_key m ≡ some e.value)
  unfolding map_get
  mem-IsKeyed [] h e p = elim p [ ]
  mem-IsKeyed (d ∷ ds) (hd, hn, hs) e (Memᴰ.head q) =
      rw q (hd, ground (arith, str_eq_iff d.entry_key d.entry_key))
  mem-IsKeyed (d ∷ ds) (hd, hn, hs) e (Memᴰ.tail p) =
      let r = mem-IsKeyed ds hs e p in
      let apart : str_eq d.entry_key e.entry_key ≡ false =
        ground (arith, hn, r.1, str_eq_iff d.entry_key e.entry_key) in
      (r.0, rw apart r.1)

  pub map_get-mem :
      (k : String) (m : List (Entry A)) {v : A}
      → map_get k m ≡ some v
      → (e : Entry A) × Memᴰ e m × (e.entry_key ≡ k) × (e.value ≡ v)
  unfolding map_get
  map_get-mem k [] h = cc
  map_get-mem k (e ∷ es) h = elim (Bool-cases (str_eq e.entry_key k)) [
    | inl q ↦
        (e, Memᴰ.head refl, (str_eq_iff e.entry_key k).0 q, some-injective e.value _ (rw q at h))
    | inr q ↦ let r = map_get-mem k es (rw q at h) in (r.0, Memᴰ.tail r.1, r.2, r.3)
  ]

pub mem-values_iff {ℓ} :
    {A : Type ℓ} (x : A) (es : List (Entry A))
    → Memᴰ x (values es) ↔ ((e : Entry A) × Memᴰ e es × (e.value ≡ x))
unfolding values
mem-values_iff {A = A} x [] = (λ m. elim m [ ], λ r. elim r.1 [ ])
mem-values_iff {A = A} x (e ∷ es) = (
  λ m.
      ⊎_elim (λ q. (e, Memᴰ.head refl, sym q))
        (λ n. let r = (mem-values_iff x es).0 n in (r.0, Memᴰ.tail r.1, r.2)) (Memᴰ.cases_cons m),
  λ r.
      ⊎_elim (λ q. Memᴰ.head (sym r.2 ∙ ap (λ (d : Entry A). d.value) q))
        (λ n. Memᴰ.tail ((mem-values_iff x es).1 (r.0, n, r.2))) (Memᴰ.cases_cons r.1),
)
