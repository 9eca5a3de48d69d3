-- ===== src/Tenancy/BreakGlass/Window.antt =====
-- The time window in which an approved grant lets through, and its early end.
use ai_de.Common.{
  ℕ, ◌<◌, ◌+◌, ◌*◌, String, ◌≡◌, ◌≢◌, refl, inl, inr, true, false, ◌&&◌, none, some, List, [], ◌∷◌,
  arith, any, find, find_holds, Bool-cases, Option-cases, if◌then◌else◌, str_eq_iff,
}
use mathlib.Core.Option.{some-injective}
use ai_de.Tenancy.{GrantRow, Db, ok, err, break_glass_required, update_where}
use ai_de.Tenancy.BreakGlass.{
  compute_expires_at, is_grant, select_grant, to_approve, approved_row, approve_break_glass,
  is_active, assert_break_glass, to_revoke, revoked_row, revoke_break_glass,
}
use ai_de.Tenancy.BreakGlass.Outcomes.{any-find, find-none, approved_db, approve_break_glass_lem}

-- The check lets through exactly when some row is active.
assert_break_glass_lem :
    (now : ℕ) (tenant engagement : String) (db : Db)
    → assert_break_glass now tenant engagement db ≡ (
      if any (is_active now tenant engagement) db.grants
          then ok tt
          else err (break_glass_required engagement),
      db,
    )
unfolding assert_break_glass
assert_break_glass_lem now tenant engagement db =
    elim (Option-cases (find (is_active now tenant engagement) db.grants)) [
      | inl e ↦ ground (arith, e, find-none (is_active now tenant engagement) db.grants e)
      | inr (g, e) ↦ ground (
        arith,
        e,
        any-find (is_active now tenant engagement) (is_active now tenant engagement) g db.grants e,
        find_holds (is_active now tenant engagement) db.grants e,
      )
    ]

approved_row-is_active :
    (t now expires : ℕ) (tenant id engagement approved_by : String) (g : GrantRow)
    → is_grant tenant id g ≡ true
    → g.engagement_id ≡ engagement
    → g.approved_at ≡ none
    → g.revoked_at ≡ none
    → t < expires
    → is_active t tenant engagement
        (if to_approve tenant id g then approved_row approved_by now expires g else g)
      ≡ true
approved_row-is_active t now expires tenant id engagement approved_by g q e a r w =
    ground (arith, str_eq_iff g.engagement_id engagement)

any-approved :
    (t now expires : ℕ) (tenant id engagement approved_by : String) (g : GrantRow)
    (xs : List GrantRow)
    → find (is_grant tenant id) xs ≡ some g
    → g.engagement_id ≡ engagement
    → g.approved_at ≡ none
    → g.revoked_at ≡ none
    → t < expires
    → any
        (is_active t tenant engagement)
        (update_where (to_approve tenant id) (approved_row approved_by now expires) xs)
      ≡ true
any-approved t now expires tenant id engagement approved_by g [] s e a r w = cc
any-approved t now expires tenant id engagement approved_by g (x ∷ xs) s e a r w =
    elim (Bool-cases (is_grant tenant id x)) [
      | inl q ↦
          let same = some-injective x g (rw q at s) in
          rw same (
            ground (
              arith,
              approved_row-is_active t now expires tenant id engagement approved_by g (rw same at q)
                  e a r w,
            ))
      | inr q ↦ ground (
        arith,
        q,
        any-approved t now expires tenant id engagement approved_by g xs (rw q at s) e a r w,
      )
    ]

-- Once a second person approves a pending grant, its engagement is open until the minutes that were
-- asked for have passed on the clock of the approval.
pub approve_break_glass-assert_break_glass :
    (now clock t : ℕ) (tenant id approved_by : String) (g : GrantRow) (db : Db)
    → select_grant tenant id db ≡ some g
    → g.requested_by ≢ approved_by
    → g.approved_at ≡ none
    → g.revoked_at ≡ none
    → t < clock + g.ttl_minutes * 60000
    → assert_break_glass t tenant g.engagement_id
        (approve_break_glass now clock tenant id approved_by db).1
      ≡ (ok tt, approved_db now clock tenant id approved_by g db)
unfolding compute_expires_at
approve_break_glass-assert_break_glass now clock t tenant id approved_by g db s n a r w = ground (
  arith,
  approve_break_glass_lem now clock tenant id approved_by db,
  str_eq_iff g.requested_by approved_by,
  assert_break_glass_lem t tenant g.engagement_id
      (approved_db now clock tenant id approved_by g db),
  any-approved t now (clock + g.ttl_minutes * 60000) tenant id g.engagement_id approved_by g
      db.grants s refl a r w,
)

not_active-revoked :
    (t now : ℕ) (tenant id engagement : String) (xs : List GrantRow)
    → any
        (λ g. is_grant tenant id g && is_active t tenant engagement g)
        (update_where (to_revoke tenant id) (revoked_row now) xs)
      ≡ false
not_active-revoked t now tenant id engagement [] = refl
not_active-revoked t now tenant id engagement (x ∷ xs) =
    ground (arith, not_active-revoked t now tenant id engagement xs)

revoke_rows :
    (now : ℕ) (tenant id revoked_by : String) (db : Db)
    → (revoke_break_glass now tenant id revoked_by db).1.grants
      ≡ update_where (to_revoke tenant id) (revoked_row now) db.grants
unfolding revoke_break_glass
revoke_rows now tenant id revoked_by db = ground arith

-- After a revocation no row of that grant opens any engagement at any time.
pub revoke_break_glass-is_active :
    (now t : ℕ) (tenant id revoked_by engagement : String) (db : Db)
    → any
        (λ g. is_grant tenant id g && is_active t tenant engagement g)
        (revoke_break_glass now tenant id revoked_by db).1.grants
      ≡ false
revoke_break_glass-is_active now t tenant id revoked_by engagement db =
    rw (revoke_rows now tenant id revoked_by db)
      (not_active-revoked t now tenant id engagement db.grants)
