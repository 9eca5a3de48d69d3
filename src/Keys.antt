-- ===== src/Keys.antt =====
-- packages/crypto/src/key-provider.ts: the interface to the key service that wraps the data key (DEK)
-- of an engagement. A `Uint8Array` is the list of its bytes, and `none` stands for a throw.
mod Tests
pub mod Kms
pub mod Fake
use ai_de.Common.{ℕ, String, ◌≡◌, ◌≢◌, Option, none, some, List, [], ◌∷◌, length, or_else}

pub record EngagementKeyRef : Type 0 where
  pub tenant_id : String
  pub engagement_id : String
  pub tenant_cmk_arn : String
  pub byok_key_arn : Option String

pub record GeneratedDek : Type 0 where
  pub dek : List ℕ
  pub wrapped_dek : List ℕ

-- `dekWrapContext`
pub dek_wrap_context : EngagementKeyRef → List (String × String)
dek_wrap_context ref =
    ("tenantId", ref.tenant_id)
    ∷ ("engagementId", ref.engagement_id)
    ∷ ("purpose", "engagement-dek")
    ∷ []

-- The key that wraps: the customer's where there is one.
pub wrapping_key : EngagementKeyRef → String
wrapping_key ref = or_else ref.byok_key_arn ref.tenant_cmk_arn

-- `generateDek` takes the randomness that it draws as an argument.
pub record KeyProvider : Type 0 where
  pub generate_dek : List ℕ → EngagementKeyRef → Option GeneratedDek
  pub unwrap_dek : EngagementKeyRef → List ℕ → Option (List ℕ)
  pub rewrap_dek : EngagementKeyRef → List ℕ → EngagementKeyRef → Option (List ℕ)

-- What the callers rely on: re-wrapping keeps the key, a fresh key made from 32 bytes unwraps to
-- itself, and nothing unwraps from no bytes.
pub record KeyProviderLaws (p : KeyProvider) : Type 0 where
  pub rewrap_keeps :
      (old : EngagementKeyRef) (wrapped : List ℕ) (new : EngagementKeyRef) (w : List ℕ)
      → p.rewrap_dek old wrapped new ≡ some w
      → (dek : List ℕ) × (p.unwrap_dek old wrapped ≡ some dek) × (p.unwrap_dek new w ≡ some dek)
  pub generate_keeps :
      (entropy : List ℕ) (ref : EngagementKeyRef) (g : GeneratedDek)
      → length entropy ≡ 32
      → p.generate_dek entropy ref ≡ some g
      → p.unwrap_dek ref g.wrapped_dek ≡ some g.dek
  pub unwrap_nonempty : (ref : EngagementKeyRef) → p.unwrap_dek ref [] ≡ none
