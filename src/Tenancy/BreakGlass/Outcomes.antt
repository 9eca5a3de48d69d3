-- ===== src/Tenancy/BreakGlass/Outcomes.antt =====
-- What each operation on a break-glass grant returns and writes, on every branch.
use ai_de.Common.{
  ℕ, String, ◌≡◌, refl, inl, inr, Bool, true, false, none, some, List, [], ◌∷◌, ◌++◌, ◌+◌, ◌*◌,
  ◌&&◌, not, arith, any, find, find_holds, Option-cases, if◌then◌else◌, str_eq, is_some,
}
use ai_de.Tenancy.{
  GrantRow, break_glass_approved, break_glass_revoked, Db, grant_not_found, self_approval, ok, err,
  update_where,
}
use ai_de.Tenancy.Engagement.Rows.{update_where-none, any-update_where}
use ai_de.Tenancy.BreakGlass.{
  assert_second_person, compute_expires_at, is_grant, entry, select_grant, to_approve,
  approve_pending, approve_break_glass, to_revoke, revoked_row, revoke_break_glass,
}

module _ {ℓ} {A : Type ℓ} (p q : A → Bool) where
  pub any-find : (x : A) (xs : List A) → find p xs ≡ some x → q x ≡ true → any q xs ≡ true
  any-find x [] h k = cc
  any-find x (y ∷ ys) h k = ground (arith, any-find x ys)

module _ {ℓ} {A : Type ℓ} (p : A → Bool) where
  pub find-any : (xs : List A) → any p xs ≡ false → find p xs ≡ none
  find-any [] h = refl
  find-any (y ∷ ys) h = ground (arith, find-any ys)

  pub find-none : (xs : List A) → find p xs ≡ none → any p xs ≡ false
  find-none [] h = refl
  find-none (y ∷ ys) h = ground (arith, find-none ys)

-- The grants and the log after an approval: the rows of the grant that have no approval get one, with
-- an expiry that many minutes after the clock, in milliseconds.
abbrev pub approved_db : ℕ → ℕ → String → String → String → GrantRow → Db → Db
approved_db now clock tenant id approved_by g db = record db {
  grants =
      update_where
        (λ row. (str_eq row.id id && str_eq row.tenant_id tenant) && not (is_some row.approved_at))
        (λ row. record row {
          approved_by = some approved_by;
          approved_at = some now;
          expires_at = some (clock + g.ttl_minutes * 60000);
        })
        db.grants;
  access_log =
      db.access_log
      ++ record {
        tenant_id = tenant;
        engagement_id = g.engagement_id;
        actor_id = some approved_by;
        action = break_glass_approved;
        resource_id = id;
        reason = none;
        purged = none;
      }
        ∷ [];
}

module _ (now clock : ℕ) (tenant id approved_by : String) (db : Db) where
  approve_pending_lem :
      (g : GrantRow)
      → select_grant tenant id db ≡ some g
      → g.approved_at ≡ none
      → g.revoked_at ≡ none
      → approve_pending now clock tenant id approved_by g db
        ≡ (ok tt, approved_db now clock tenant id approved_by g db)
  unfolding approve_pending compute_expires_at
  approve_pending_lem g s a r = ground (
    arith,
    any-find (is_grant tenant id) (to_approve tenant id) g db.grants s,
    find_holds (is_grant tenant id) db.grants s,
  )

  -- An approval fails when the tenant has no such grant, or when the approver asked for it, and
  -- then writes nothing. A grant that is approved or revoked already is left as it is, and nothing
  -- is logged. A pending grant gets the approver, the time, and an expiry that many minutes after
  -- the clock as were asked for, in milliseconds; no other row changes, and the approval is logged.
  pub approve_break_glass_lem :
      approve_break_glass now clock tenant id approved_by db
      ≡ elim (find (λ row. str_eq row.id id && str_eq row.tenant_id tenant) db.grants) [
        | none ↦ (err (grant_not_found id), db)
        | some g ↦
            if str_eq g.requested_by approved_by
            then (err (self_approval approved_by), db)
            else if is_some g.approved_at
            then (ok tt, db)
            else if is_some g.revoked_at
            then (ok tt, db)
            else (ok tt, approved_db now clock tenant id approved_by g db)
      ]
  unfolding approve_break_glass assert_second_person approve_pending
  approve_break_glass_lem = elim (Option-cases (select_grant tenant id db)) [
    | inl s ↦ ground (arith, s)
    | inr (g, s) ↦ ground (arith, s, approve_pending_lem g s)
  ]

abbrev pub revoked_db : ℕ → String → String → String → GrantRow → Db → Db
revoked_db now tenant id revoked_by g db = record db {
  grants = update_where (to_revoke tenant id) (revoked_row now) db.grants;
  access_log =
      db.access_log ++ entry tenant g.engagement_id revoked_by break_glass_revoked id none ∷ [];
}

module _ (now : ℕ) (tenant id revoked_by : String) (db : Db) where
  -- A revocation never fails. It marks the grant and logs that once; where the tenant has no such
  -- grant, or it is revoked already, it writes nothing.
  pub revoke_break_glass_lem :
      revoke_break_glass now tenant id revoked_by db ≡ elim (find (to_revoke tenant id) db.grants) [
        | none ↦ (ok tt, db)
        | some g ↦ (ok tt, revoked_db now tenant id revoked_by g db)
      ]
  unfolding revoke_break_glass
  revoke_break_glass_lem = ground (
    arith,
    update_where-none (to_revoke tenant id) (revoked_row now) db.grants,
    find-none (to_revoke tenant id) db.grants,
  )

  none-to_revoke :
      find (to_revoke tenant id) (revoke_break_glass now tenant id revoked_by db).1.grants ≡ none
  none-to_revoke =
      rw revoke_break_glass_lem (elim (Option-cases (find (to_revoke tenant id) db.grants)) [
        | inl e ↦ rw e e
        | inr (g, e) ↦ rw e (
            find-any (to_revoke tenant id) _ (
              any-update_where (to_revoke tenant id) (revoked_row now) db.grants
                (λ x. ground arith)))
      ])

abbrev pub after_revoke : ℕ → String → String → String → Db → Db
after_revoke now tenant id revoked_by db = (revoke_break_glass now tenant id revoked_by db).1

-- Revoking a grant a second time, at any moment and by anyone, writes nothing.
pub revoke_break_glass_again :
    (now later : ℕ) (tenant id revoked_by other : String) (db : Db)
    → revoke_break_glass later tenant id other (after_revoke now tenant id revoked_by db)
      ≡ (ok tt, after_revoke now tenant id revoked_by db)
revoke_break_glass_again now later tenant id revoked_by other db = ground (
  arith,
  revoke_break_glass_lem later tenant id other (after_revoke now tenant id revoked_by db),
  none-to_revoke now tenant id revoked_by db,
)
