-- ===== src/Keys/Fake.antt =====
-- packages/crypto/src/fake-key-provider.ts: the wrap is a marker before the key.
use ai_de.Common.{
  subst, zero, suc, ◌-◌, refl, ap, inl, inr, arith, length-append, Option-cases, ℕ, ◌+◌, ◌≡◌, Bool,
  true, false, ◌&&◌, Option, none, some, List, [], ◌∷◌, ◌++◌, length, take, drop, ◌==◌,
  if◌then◌else◌,
}
use mathlib.Core.Option.{some-injective}
use ai_de.Keys.{EngagementKeyRef, GeneratedDek, KeyProvider, KeyProviderLaws}

-- `FAKE-UNWRAPPED:`
abbrev pub marker : List ℕ
marker = 70 ∷ 65 ∷ 75 ∷ 69 ∷ 45 ∷ 85 ∷ 78 ∷ 87 ∷ 82 ∷ 65 ∷ 80 ∷ 80 ∷ 69 ∷ 68 ∷ 58 ∷ []

-- `Buffer.equals`
unfoldable pub bytes_equal : List ℕ → List ℕ → Bool
bytes_equal [] [] = true
bytes_equal (a ∷ xs) (b ∷ ys) = a == b && bytes_equal xs ys
bytes_equal _ _ = false

-- `entropy` stands for `randomBytes(32)`.
pub generate_dek : List ℕ → EngagementKeyRef → Option GeneratedDek
generate_dek entropy ref = some (record { dek = entropy; wrapped_dek = marker ++ entropy })

unfoldable pub unwrap_dek : EngagementKeyRef → List ℕ → Option (List ℕ)
unfolding bytes_equal
unwrap_dek ref wrapped =
    if length wrapped == length marker + 32 && bytes_equal (take (length marker) wrapped) marker
    then some (drop (length marker) wrapped)
    else none

unfoldable pub rewrap_dek : EngagementKeyRef → List ℕ → EngagementKeyRef → Option (List ℕ)
unfolding unwrap_dek
rewrap_dek old wrapped new = elim (unwrap_dek old wrapped) [
  | none ↦ none
  | some dek ↦ some (marker ++ dek)
]

abbrev pub fake_key_provider : KeyProvider
fake_key_provider = record {
  generate_dek = generate_dek;
  unwrap_dek = unwrap_dek;
  rewrap_dek = rewrap_dek;
}

bytes_equal_refl : (a : List ℕ) → bytes_equal a a ≡ true
unfolding bytes_equal
bytes_equal_refl [] = refl
bytes_equal_refl (x ∷ xs) = ground (arith, bytes_equal_refl xs)

take-append : (a b : List ℕ) → take (length a) (a ++ b) ≡ a
take-append [] b = refl
take-append (x ∷ a) b = ap (λ (r : List ℕ). x ∷ r) (take-append a b)

drop-append : (a b : List ℕ) → drop (length a) (a ++ b) ≡ b
drop-append [] b = refl
drop-append (x ∷ a) b = drop-append a b

length-drop : (n : ℕ) (a : List ℕ) → length (drop n a) ≡ length a - n
length-drop zero a = omega arith
length-drop (suc n) [] = omega arith
length-drop (suc n) (x ∷ a) = omega (arith, length-drop n a)

-- A wrapped key of 32 bytes unwraps to itself.
unwrap_wrapped :
    (ref : EngagementKeyRef) (dek : List ℕ)
    → length dek ≡ 32
    → unwrap_dek ref (marker ++ dek) ≡ some dek
unfolding unwrap_dek
unwrap_wrapped ref dek h = ground (
  arith,
  length-append marker dek,
  take-append marker dek,
  drop-append marker dek,
  bytes_equal_refl marker,
)

unwrap_length :
    (ref : EngagementKeyRef) (wrapped dek : List ℕ)
    → unwrap_dek ref wrapped ≡ some dek
    → length dek ≡ 32
unfolding unwrap_dek
unwrap_length ref wrapped dek h = ground (arith, length-drop (length marker) wrapped)

rewrap_dek_keeps :
    (old : EngagementKeyRef) (wrapped : List ℕ) (new : EngagementKeyRef) (w : List ℕ)
    → rewrap_dek old wrapped new ≡ some w
    → (dek : List ℕ) × (unwrap_dek old wrapped ≡ some dek) × (unwrap_dek new w ≡ some dek)
unfolding rewrap_dek
rewrap_dek_keeps old wrapped new w h = elim (Option-cases (unwrap_dek old wrapped)) [
  | inl e ↦ cc (rw (e, rewrap_dek) at h)
  | inr (dek, e) ↦
      let same = some-injective (marker ++ dek) w (rw (e, rewrap_dek) at h) in
      (
        dek,
        e,
        subst (λ (x : List ℕ). unwrap_dek new x ≡ some dek) same
            (unwrap_wrapped new dek (unwrap_length old wrapped dek e)),
      )
]

-- The provider for tests fulfils the same interface.
pub fake_key_provider-KeyProviderLaws : KeyProviderLaws fake_key_provider
unfolding unwrap_dek generate_dek
fake_key_provider-KeyProviderLaws = record {
  rewrap_keeps = rewrap_dek_keeps;
  generate_keeps = λ entropy ref g size h.
      subst (λ (x : GeneratedDek). unwrap_dek ref x.wrapped_dek ≡ some x.dek) (some-injective _ g h)
        (unwrap_wrapped ref entropy size);
  unwrap_nonempty = λ ref. refl;
}
