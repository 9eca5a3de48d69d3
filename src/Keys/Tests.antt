-- ===== src/Keys/Tests.antt =====
-- A key service that marks a ciphertext by one byte, and the provider for tests on a short key.
use ai_de.Common.{ℕ, String, ◌≡◌, refl, Option, none, some, List, [], ◌∷◌, arith}
use ai_de.Keys.{KeyProviderLaws}
use ai_de.Keys.Kms.{Kms, KmsLaws, kms_key_provider, kms_key_provider-KeyProviderLaws}
use ai_de.Keys.Fake.{unwrap_dek}

encrypt : String → List (String × String) → List ℕ → Option (List ℕ)
encrypt key context plain = some (1 ∷ plain)

decrypt : String → List (String × String) → List ℕ → Option (List ℕ)
decrypt key context [] = none
decrypt key context (x ∷ plain) = some plain

generate : List ℕ → String → List (String × String) → Option (List ℕ × List ℕ)
generate entropy key context = some (entropy, 1 ∷ entropy)

abbrev marking : Kms
marking = record { encrypt = encrypt; decrypt = decrypt; generate_data_key = generate }

marking-KmsLaws : KmsLaws marking
unfolding encrypt decrypt generate
marking-KmsLaws = record {
  decrypt-encrypt = λ key context plain cipher h. ground arith;
  decrypt-generate = λ entropy key context plain cipher h. ground arith;
  decrypt-nil = λ key context. refl;
}

kms_key_provider-KeyProviderLaws_example : KeyProviderLaws (kms_key_provider marking)
kms_key_provider-KeyProviderLaws_example = kms_key_provider-KeyProviderLaws marking marking-KmsLaws

-- A wrap of the wrong length is refused.
unwrap_short :
    unwrap_dek
      (record { tenant_id = "t"; engagement_id = "e"; tenant_cmk_arn = "k"; byok_key_arn = none })
      (70 ∷ 65 ∷ [])
    ≡ none
unfolding unwrap_dek
unwrap_short = refl
