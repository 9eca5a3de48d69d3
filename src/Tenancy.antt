-- ===== src/Tenancy.antt =====
-- packages/db/src/rls.ts and the tables of packages/db/src/schema/ that engagement.ts and
-- break-glass.ts read and write. A query sees the rows of the tenant of the transaction
-- (`tenantIsolation` in columns/_helpers.ts); an UPDATE touches every visible row that its WHERE
-- selects; a throw rolls the transaction back. Times are milliseconds, and each transaction is given
-- the clock of the database and of the process as arguments. Concurrent transactions are serialised
-- by the row locks, and are not modelled.
mod Tests
pub mod Engagement
pub mod BreakGlass
use ai_de.Common.{
  ℕ, String, Bool, true, false, ◌&&◌, Option, none, some, List, [], ◌∷◌, ◌++◌, if◌then◌else◌,
  str_eq,
}

pub data EngagementStatus : Type 0 where
  active closed shredded : EngagementStatus

pub record EngagementRow : Type 0 where
  pub tenant_id : String
  pub id : String
  pub status : EngagementStatus
  pub wrapped_dek : Option String
  pub byok_key_arn : Option String
  pub updated_at : ℕ

pub record TenantRow : Type 0 where
  pub id : String
  pub cmk_key_ref : String

pub record GrantRow : Type 0 where
  pub id : String
  pub tenant_id : String
  pub engagement_id : String
  pub requested_by : String
  pub approved_by : Option String
  pub reason : String
  pub ttl_minutes : ℕ
  pub requested_at : ℕ
  pub approved_at : Option ℕ
  pub expires_at : Option ℕ
  pub revoked_at : Option ℕ

pub data Action : Type 0 where
  crypto_shred byok_key_rotated break_glass_requested break_glass_approved : Action
  break_glass_revoked crypto_shred_purge_completed : Action

-- What the entry of a purge says of it.
pub record PurgeCounts : Type 0 where
  pub total_rows_purged : ℕ
  pub per_table : List (String × ℕ)

pub record AccessEntry : Type 0 where
  pub tenant_id : String
  pub engagement_id : String
  pub actor_id : Option String
  pub action : Action
  pub resource_id : String
  pub reason : Option String
  pub purged : Option PurgeCounts

pub record Db : Type 0 where
  pub tenants : List TenantRow
  pub engagements : List EngagementRow
  pub grants : List GrantRow
  pub access_log : List AccessEntry

pub data Error : Type 0 where
  engagement_not_found engagement_shredded : String → Error
  key_provider_failed : Error
  grant_not_found break_glass_required self_approval : String → Error

pub data Result {ℓ} (A : Type ℓ) : Type ℓ where
  ok : A → Result A
  err : Error → Result A

-- What runs in an open transaction. A throw keeps its writes until `with_tenant` rolls back.
abbrev pub Tx : Type 0 → Type 0
Tx A = Db → Result A × Db

infixl 5 ◌>>=◌ ◌>>◌
abbrev pub ◌>>=◌ : {A B : Type 0} → Tx A → (A → Tx B) → Tx B
◌>>=◌ m f db = let (r, db') = m db in elim r [ ok a ↦ f a db' | err e ↦ (err e, db') ]

abbrev pub ◌>>◌ : {A B : Type 0} → Tx A → Tx B → Tx B
m >> k = m >>= λ _. k

module _ {A : Type 0} where
  abbrev pub pure : A → Tx A
  pure a db = (ok a, db)

  abbrev pub throw : Error → Tx A
  throw e db = (err e, db)

  abbrev pub gets : (Db → A) → Tx A
  gets f db = (ok (f db), db)

  -- `withTenant`: one transaction, undone by a throw.
  abbrev pub with_tenant : Tx A → Tx A
  with_tenant body db =
      let (r, db') = body db in elim r [ ok a ↦ (ok a, db') | err e ↦ (err e, db) ]

abbrev pub modify : (Db → Db) → Tx (Unit {0})
modify f db = (ok tt, f db)

-- `logAccess` of packages/audit/src/log-access.ts: an append.
abbrev pub log_access : AccessEntry → Tx (Unit {0})
log_access entry = modify (λ db. record db { access_log = db.access_log ++ entry ∷ [] })

-- The rows that a tenant's transaction sees under row-level security.
abbrev pub sees : String → String → Bool
sees tenant row_tenant = str_eq row_tenant tenant

-- `UPDATE … WHERE`: the rows with the selected ones changed
abbrev pub update_where {ℓ} : {A : Type ℓ} → (A → Bool) → (A → A) → List A → List A
update_where p f [] = []
update_where p f (x ∷ xs) = (if p x then f x else x) ∷ update_where p f xs
