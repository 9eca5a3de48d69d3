-- ===== src/Keys/Kms.antt =====
-- packages/crypto/src/kms-key-provider.ts over a key management service, which is not code of the
-- repository: its three commands are parameters, `none` is a failed call.
use ai_de.Common.{ℕ, String, ◌≡◌, subst, inl, inr, Option, none, some, List, [], Option-cases}
use mathlib.Core.Option.{some-injective}
use ai_de.Keys.{
  EngagementKeyRef, GeneratedDek, KeyProvider, KeyProviderLaws, dek_wrap_context, wrapping_key,
}

pub record Kms : Type 0 where
  -- key id, encryption context, plaintext
  pub encrypt : String → List (String × String) → List ℕ → Option (List ℕ)
  -- key id, encryption context, ciphertext
  pub decrypt : String → List (String × String) → List ℕ → Option (List ℕ)
  -- entropy, key id, encryption context; plaintext and ciphertext of the new key
  pub generate_data_key : List ℕ → String → List (String × String) → Option (List ℕ × List ℕ)

-- What the service documents: a ciphertext opens under the key and the context that made it, and an
-- empty blob is refused.
pub record KmsLaws (kms : Kms) : Type 0 where
  pub decrypt-encrypt :
      (key : String) (context : List (String × String)) (plain cipher : List ℕ)
      → kms.encrypt key context plain ≡ some cipher
      → kms.decrypt key context cipher ≡ some plain
  pub decrypt-generate :
      (entropy : List ℕ) (key : String) (context : List (String × String)) (plain cipher : List ℕ)
      → kms.generate_data_key entropy key context ≡ some (plain, cipher)
      → kms.decrypt key context cipher ≡ some plain
  pub decrypt-nil :
      (key : String) (context : List (String × String)) → kms.decrypt key context [] ≡ none

infixl 5 ◌>>=◌
abbrev ◌>>=◌ : {A B : Type 0} → Option A → (A → Option B) → Option B
none >>= k = none
some a >>= k = k a

module _ (kms : Kms) where
  pub generate_dek : List ℕ → EngagementKeyRef → Option GeneratedDek
  generate_dek entropy ref = do
    made ← kms.generate_data_key entropy (wrapping_key ref) (dek_wrap_context ref)
    some (record { dek = made.0; wrapped_dek = made.1 })

  pub unwrap_dek : EngagementKeyRef → List ℕ → Option (List ℕ)
  unwrap_dek ref wrapped = kms.decrypt (wrapping_key ref) (dek_wrap_context ref) wrapped

  -- Decrypt under the old key, then encrypt the same plaintext under the new one.
  pub rewrap_dek : EngagementKeyRef → List ℕ → EngagementKeyRef → Option (List ℕ)
  rewrap_dek old wrapped new = do
    dek ← unwrap_dek old wrapped
    kms.encrypt (wrapping_key new) (dek_wrap_context new) dek

  abbrev pub kms_key_provider : KeyProvider
  kms_key_provider = record {
    generate_dek = generate_dek;
    unwrap_dek = unwrap_dek;
    rewrap_dek = rewrap_dek;
  }

rewrap_dek_keeps :
    (kms : Kms)
    → KmsLaws kms
    → (old : EngagementKeyRef) (wrapped : List ℕ) (new : EngagementKeyRef) (w : List ℕ)
    → rewrap_dek kms old wrapped new ≡ some w
    → (dek : List ℕ) × (unwrap_dek kms old wrapped ≡ some dek) × (unwrap_dek kms new w ≡ some dek)
unfolding rewrap_dek unwrap_dek
rewrap_dek_keeps kms laws old wrapped new w h =
    elim (Option-cases (kms.decrypt (wrapping_key old) (dek_wrap_context old) wrapped)) [
      | inl e ↦ cc (rw (e, ◌>>=◌) at h)
      | inr (dek, e) ↦ (
        dek,
        e,
        laws.decrypt-encrypt (wrapping_key new) (dek_wrap_context new) dek w (rw (e, ◌>>=◌) at h),
      )
    ]

generate_dek_keeps :
    (kms : Kms)
    → KmsLaws kms
    → (entropy : List ℕ) (ref : EngagementKeyRef) (g : GeneratedDek)
    → generate_dek kms entropy ref ≡ some g
    → unwrap_dek kms ref g.wrapped_dek ≡ some g.dek
unfolding generate_dek unwrap_dek
generate_dek_keeps kms laws entropy ref g h =
    elim (Option-cases (kms.generate_data_key entropy (wrapping_key ref) (dek_wrap_context ref))) [
      | inl e ↦ cc (rw (e, ◌>>=◌) at h)
      | inr (made, e) ↦
          let same = some-injective _ g (rw (e, ◌>>=◌) at h) in
          subst
            (λ (x : GeneratedDek).
              kms.decrypt (wrapping_key ref) (dek_wrap_context ref) x.wrapped_dek ≡ some x.dek)
            same
            (laws.decrypt-generate entropy (wrapping_key ref) (dek_wrap_context ref) made.0 made.1
              e)
    ]

-- Over a key service that keeps its documented promises the provider fulfils the interface:
-- re-wrapping keeps the data key, a generated key unwraps to itself, and nothing unwraps from no
-- bytes.
pub kms_key_provider-KeyProviderLaws :
    (kms : Kms) → KmsLaws kms → KeyProviderLaws (kms_key_provider kms)
unfolding unwrap_dek
kms_key_provider-KeyProviderLaws kms laws = record {
  rewrap_keeps = rewrap_dek_keeps kms laws;
  generate_keeps = λ entropy ref g size h. generate_dek_keeps kms laws entropy ref g h;
  unwrap_nonempty = λ ref. laws.decrypt-nil (wrapping_key ref) (dek_wrap_context ref);
}
