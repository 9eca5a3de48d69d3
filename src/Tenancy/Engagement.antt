-- ===== src/Tenancy/Engagement.antt =====
-- packages/db/src/engagement.ts, and packages/crypto/src/factory.ts that it calls. Base 64 and the
-- key provider are parameters.
pub mod Rows
pub mod Shred
pub mod Rotate
pub mod Isolation
use ai_de.Common.{
  ℕ, String, Bool, true, false, not, ◌&&◌, ◌||◌, Option, none, some, List, [], ◌∷◌, ◌++◌, any, find,
  str_eq, text_append, if◌then◌else◌,
}
use ai_de.Keys.{EngagementKeyRef, KeyProvider}
use ai_de.Tenancy.{
  EngagementStatus, active, closed, shredded, EngagementRow, TenantRow, Action, crypto_shred,
  byok_key_rotated, AccessEntry, Db, Error, engagement_not_found, engagement_shredded,
  key_provider_failed, Result, ok, err, Tx, ◌>>=◌, ◌>>◌, pure, throw, gets, with_tenant, modify,
  log_access, sees, update_where,
}

-- `Buffer.toString('base64')` and `Buffer.from(…, 'base64')`
pub record Base64 : Type 0 where
  pub encode : List ℕ → String
  pub decode : String → List ℕ

-- The request-scoped cipher: whose data it opens, and with which key.
pub record EngagementCipher : Type 0 where
  pub tenant_id : String
  pub engagement_id : String
  pub dek : List ℕ

abbrev pub is_shredded : EngagementStatus → Bool
is_shredded shredded = true
is_shredded active = false
is_shredded closed = false

-- the WHERE of the queries, with row-level security
abbrev pub is_engagement : String → String → EngagementRow → Bool
is_engagement tenant id row = sees tenant row.tenant_id && str_eq row.id id

-- The joined row: the engagement with the key reference of its tenant, where the tenant has a row.
unfoldable pub select_engagement : String → String → Db → Option (EngagementRow × String)
select_engagement tenant id db = elim (find (is_engagement tenant id) db.engagements) [
  | none ↦ none
  | some row ↦ elim (find (λ t. str_eq t.id tenant) db.tenants) [
    | none ↦ none
    | some t ↦ some (row, t.cmk_key_ref)
  ]
]

-- `row.status === 'shredded' || !row.wrappedDek` negated, with the wrapped key
unfoldable pub live_dek : EngagementRow → Option String
live_dek row = elim row.wrapped_dek [
  | none ↦ none
  | some w ↦ if is_shredded row.status || str_eq w "" then none else some w
]

abbrev pub key_ref : String → String → String → Option String → EngagementKeyRef
key_ref tenant engagement cmk byok = record {
  tenant_id = tenant;
  engagement_id = engagement;
  tenant_cmk_arn = cmk;
  byok_key_arn = byok;
}

-- The row with its key, or the throw that `withEngagement` and `rotateEngagementKey` share.
unfoldable pub open_row : String → String → Tx (EngagementRow × String × String)
unfolding select_engagement live_dek
open_row tenant engagement db = elim (select_engagement tenant engagement db) [
  | none ↦ (err (engagement_not_found engagement), db)
  | some (row, cmk) ↦ elim (live_dek row) [
    | none ↦ (err (engagement_shredded engagement), db)
    | some w ↦ (ok (row, cmk, w), db)
  ]
]

abbrev or_fail : {A : Type 0} → Option A → Tx A
or_fail none = throw key_provider_failed
or_fail (some a) = pure a

unfoldable pub rotation_reason : Option String → String
rotation_reason none = "rotated back to the platform-managed tenant key"
rotation_reason (some key) =
    if str_eq key ""
    then "rotated back to the platform-managed tenant key"
    else text_append "rotated to customer-supplied key " key

module _ (provider : KeyProvider) (base64 : Base64) where
  -- `createEngagementCipher`
  pub create_engagement_cipher :
      String → String → String → Option String → List ℕ → Option EngagementCipher
  create_engagement_cipher tenant engagement cmk byok wrapped =
      elim (provider.unwrap_dek (key_ref tenant engagement cmk byok) wrapped) [
        | none ↦ none
        | some dek ↦ some (record { tenant_id = tenant; engagement_id = engagement; dek = dek })
      ]

  -- `withEngagement`; `fn` gets the cipher and the open transaction.
  pub with_engagement : {A : Type 0} → String → String → (EngagementCipher → Tx A) → Tx A
  unfolding open_row create_engagement_cipher
  with_engagement tenant engagement fn = with_tenant do
    opened ← open_row tenant engagement
    cipher ← or_fail (
        create_engagement_cipher tenant engagement opened.1 opened.0.byok_key_arn
          (base64.decode opened.2))
    fn cipher

  -- `rotateEngagementKey`: the new wrap is made before anything is written.
  unfoldable pub rotate_engagement_key :
      ℕ → String → String → String → Option String → Tx (Unit {0})
  unfolding open_row rotation_reason
  rotate_engagement_key now tenant engagement actor byok = with_tenant do
    opened ← open_row tenant engagement
    rewrapped ← or_fail (
        provider.rewrap_dek (key_ref tenant engagement opened.1 opened.0.byok_key_arn)
          (base64.decode opened.2) (key_ref tenant engagement opened.1 byok))
    modify (λ db. record db {
      engagements =
          update_where (is_engagement tenant engagement)
            (λ row. record row {
              wrapped_dek = some (base64.encode rewrapped);
              byok_key_arn = byok;
              updated_at = now;
            })
            db.engagements;
    })
    log_access (record {
      tenant_id = tenant;
      engagement_id = engagement;
      actor_id = some actor;
      action = byok_key_rotated;
      resource_id = engagement;
      reason = some (rotation_reason byok);
      purged = none;
    })

-- `ne(engagements.status, 'shredded')` and the id, with row-level security
abbrev pub to_shred : String → String → EngagementRow → Bool
to_shred tenant id row = is_engagement tenant id row && not (is_shredded row.status)

-- Only a real state change is an audit event.
abbrev audit_shred : Bool → AccessEntry → Tx Bool
audit_shred false entry = pure false
audit_shred true entry = log_access entry >> pure true

-- `shredEngagement`: drops the wrapped key and the BYOK reference. The result says whether this call
-- did it; a repeated call writes nothing.
pub shred_engagement : ℕ → String → String → String → String → Tx Bool
shred_engagement now tenant engagement actor reason = with_tenant do
  updated ← gets (λ db. any (to_shred tenant engagement) db.engagements)
  modify (λ db. record db {
    engagements =
        update_where (to_shred tenant engagement)
          (λ row. record row {
            status = shredded;
            wrapped_dek = none;
            byok_key_arn = none;
            updated_at = now;
          })
          db.engagements;
  })
  audit_shred updated (record {
    tenant_id = tenant;
    engagement_id = engagement;
    actor_id = some actor;
    action = crypto_shred;
    resource_id = engagement;
    reason = some reason;
    purged = none;
  })
