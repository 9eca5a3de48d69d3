-- ===== src/Tenancy/BreakGlass.antt =====
-- packages/audit/src/break-glass.ts: time-boxed grants under a second-person rule. `now` is the clock
-- of the database in an UPDATE, and `clock` that of the process, which sets the expiry. The id of a
-- new grant is drawn by the database, and is an argument.
pub mod Outcomes
pub mod PrimaryKey
pub mod SecondPerson
pub mod Window
use ai_de.Common.{
  ℕ, ◌+◌, ◌*◌, String, Bool, true, false, not, ◌&&◌, Option, none, some, List, [], ◌∷◌, ◌++◌, any,
  find, or_else, is_some, ltb, str_eq, if◌then◌else◌,
}
use ai_de.Tenancy.{
  GrantRow, Action, break_glass_requested, break_glass_approved, break_glass_revoked, AccessEntry,
  Db, Error, grant_not_found, break_glass_required, self_approval, Result, ok, err, Tx, ◌>>=◌, ◌>>◌,
  pure, throw, gets, with_tenant, modify, log_access, sees, update_where,
}

abbrev pub default_ttl_minutes : ℕ
default_ttl_minutes = 60

-- `assertSecondPerson`
unfoldable pub assert_second_person : String → String → Tx (Unit {0})
assert_second_person requested_by approved_by =
    if str_eq requested_by approved_by then throw (self_approval approved_by) else pure tt

-- `computeExpiresAt`
unfoldable pub compute_expires_at : ℕ → ℕ → ℕ
compute_expires_at ttl_minutes now = now + ttl_minutes * 60000

-- the WHERE of the queries by grant, with row-level security
abbrev pub is_grant : String → String → GrantRow → Bool
is_grant tenant id row = str_eq row.id id && sees tenant row.tenant_id

abbrev pub entry : String → String → String → Action → String → Option String → AccessEntry
entry tenant engagement actor action grant reason = record {
  tenant_id = tenant;
  engagement_id = engagement;
  actor_id = some actor;
  action = action;
  resource_id = grant;
  reason = reason;
  purged = none;
}

abbrev pub new_grant : String → String → String → String → String → Option ℕ → ℕ → GrantRow
new_grant fresh tenant engagement requested_by reason ttl now = record {
  id = fresh;
  tenant_id = tenant;
  engagement_id = engagement;
  requested_by = requested_by;
  approved_by = none;
  reason = reason;
  ttl_minutes = or_else ttl default_ttl_minutes;
  requested_at = now;
  approved_at = none;
  expires_at = none;
  revoked_at = none;
}

-- `requestBreakGlass`
pub request_break_glass : String → ℕ → String → String → String → String → Option ℕ → Tx String
request_break_glass fresh now tenant engagement requested_by reason ttl = with_tenant do
  modify (λ db. record db {
    grants = db.grants ++ new_grant fresh tenant engagement requested_by reason ttl now ∷ [];
  })
  log_access (entry tenant engagement requested_by break_glass_requested fresh (some reason))
  pure fresh

abbrev pub select_grant : String → String → Db → Option GrantRow
select_grant tenant id db = find (is_grant tenant id) db.grants

-- the WHERE of the approval's UPDATE
abbrev pub to_approve : String → String → GrantRow → Bool
to_approve tenant id row = is_grant tenant id row && not (is_some row.approved_at)

abbrev pub approved_row : String → ℕ → ℕ → GrantRow → GrantRow
approved_row approved_by now expires row = record row {
  approved_by = some approved_by;
  approved_at = some now;
  expires_at = some expires;
}

-- An UPDATE that touched no row is not audited.
abbrev pub audit_if : Bool → AccessEntry → Tx (Unit {0})
audit_if false e = pure tt
audit_if true e = log_access e

-- The part of `approveBreakGlass` after the check of the second person: an approved or revoked grant
-- is left as it is.
unfoldable pub approve_pending : ℕ → ℕ → String → String → String → GrantRow → Tx (Unit {0})
unfolding compute_expires_at
approve_pending now clock tenant id approved_by grant = elim grant.approved_at [
  | some t ↦ pure tt
  | none ↦ elim grant.revoked_at [
    | some t ↦ pure tt
    | none ↦ gets (λ db. any (to_approve tenant id) db.grants) >>= λ updated.
        modify (λ db. record db {
          grants =
              update_where (to_approve tenant id)
                (approved_row approved_by now (compute_expires_at grant.ttl_minutes clock))
                db.grants;
        })
        >> audit_if updated
            (entry tenant grant.engagement_id approved_by break_glass_approved id none)
  ]
]

abbrev pub or_missing : String → Option GrantRow → Tx GrantRow
or_missing id none = throw (grant_not_found id)
or_missing id (some g) = pure g

-- `approveBreakGlass`
unfoldable pub approve_break_glass : ℕ → ℕ → String → String → String → Tx (Unit {0})
unfolding assert_second_person approve_pending
approve_break_glass now clock tenant id approved_by = with_tenant do
  selected ← gets (select_grant tenant id)
  grant ← or_missing id selected
  assert_second_person grant.requested_by approved_by
  approve_pending now clock tenant id approved_by grant

-- `gt(expiresAt, now())`, where a NULL is no match
abbrev pub expires_after : ℕ → Option ℕ → Bool
expires_after now none = false
expires_after now (some t) = ltb now t

-- the WHERE of `assertBreakGlass`
abbrev pub is_active : ℕ → String → String → GrantRow → Bool
is_active now tenant engagement row =
    sees tenant row.tenant_id
    && (str_eq row.engagement_id engagement
        && (is_some row.approved_at
            && (not (is_some row.revoked_at) && expires_after now row.expires_at)))

-- `assertBreakGlass`
unfoldable pub assert_break_glass : ℕ → String → String → Tx (Unit {0})
assert_break_glass now tenant engagement db =
    elim (find (is_active now tenant engagement) db.grants) [
      | none ↦ (err (break_glass_required engagement), db)
      | some g ↦ (ok tt, db)
    ]

-- the WHERE of the revocation's UPDATE
abbrev pub to_revoke : String → String → GrantRow → Bool
to_revoke tenant id row = is_grant tenant id row && not (is_some row.revoked_at)

abbrev pub revoked_row : ℕ → GrantRow → GrantRow
revoked_row now row = record row { revoked_at = some now }

abbrev pub audit_revoked : String → String → String → Option GrantRow → Tx (Unit {0})
audit_revoked tenant id revoked_by none = pure tt
audit_revoked tenant id revoked_by (some g) =
    log_access (entry tenant g.engagement_id revoked_by break_glass_revoked id none)

-- `revokeBreakGlass`; the first row that the UPDATE returns names the engagement to log.
pub revoke_break_glass : ℕ → String → String → String → Tx (Unit {0})
revoke_break_glass now tenant id revoked_by = with_tenant do
  revoked ← gets (λ db. find (to_revoke tenant id) db.grants)
  modify
      (λ db. record db { grants = update_where (to_revoke tenant id) (revoked_row now) db.grants })
  audit_revoked tenant id revoked_by revoked
