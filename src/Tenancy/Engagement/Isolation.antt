-- ===== src/Tenancy/Engagement/Isolation.antt =====
-- Key operations on one engagement leave every other engagement as it was.
use ai_de.Common.{
  ℕ, String, ◌≡◌, ◌≢◌, refl, inl, inr, ◌⊎◌, true, false, Option, arith, Option-cases, str_eq_iff,
}
use ai_de.Keys.{KeyProvider}
use ai_de.Tenancy.{EngagementRow, Db}
use ai_de.Tenancy.Engagement.{
  Base64, is_engagement, select_engagement, live_dek, key_ref, to_shred, shred_engagement,
  rotate_engagement_key,
}
use ai_de.Tenancy.Engagement.Rows.{find-update_other}
use ai_de.Tenancy.Engagement.Shred.{shredded_row, shred_rows, shred_engagement_writes}
use ai_de.Tenancy.Engagement.Rotate.{rotated_row, rotated_db, rotate_engagement_key_lem}

-- The two name different engagements, by the tenant or by the id.
abbrev pub AreApart : String → String → String → String → Type 0
AreApart tenant engagement tenant' engagement' = (tenant ≢ tenant') ⊎ (engagement ≢ engagement')

module _ (tenant engagement tenant' engagement' : String)
    (apart : AreApart tenant engagement tenant' engagement') where
  not_selected :
      (x : EngagementRow)
      → is_engagement tenant' engagement' x ≡ true
      → is_engagement tenant engagement x ≡ false
  not_selected x h = ground (
    arith,
    str_eq_iff x.tenant_id tenant,
    str_eq_iff x.tenant_id tenant',
    str_eq_iff x.id engagement,
    str_eq_iff x.id engagement',
  )

  not_shredded :
      (x : EngagementRow)
      → is_engagement tenant' engagement' x ≡ true
      → to_shred tenant engagement x ≡ false
  not_shredded x h = ground (arith, not_selected x h)

  rotated_others :
      (now : ℕ) (actor wrapped : String) (byok : Option String) (db : Db)
      → select_engagement tenant' engagement'
          (rotated_db now tenant engagement actor byok wrapped db)
        ≡ select_engagement tenant' engagement' db
  unfolding select_engagement
  rotated_others now actor wrapped byok db = ground (
    arith,
    find-update_other (is_engagement tenant engagement) (rotated_row now wrapped byok)
        (is_engagement tenant' engagement') db.engagements (λ x. refl) not_selected,
  )

  rotate_others :
      (now : ℕ) (actor : String) (byok : Option String) (provider : KeyProvider) (base64 : Base64)
      (db : Db)
      → select_engagement tenant' engagement'
          (rotate_engagement_key provider base64 now tenant engagement actor byok db).1
        ≡ select_engagement tenant' engagement' db
  rotate_others now actor byok provider base64 db =
      rw (rotate_engagement_key_lem provider base64 now tenant engagement actor byok db)
        (elim (Option-cases (select_engagement tenant engagement db)) [
          | inl s ↦ rw s refl
          | inr ((row, cmk), s) ↦ rw s (elim (Option-cases (live_dek row)) [
            | inl l ↦ rw l refl
            | inr (w, l) ↦
                rw l
                  (elim (Option-cases (
                    provider.rewrap_dek (key_ref tenant engagement cmk row.byok_key_arn)
                      (base64.decode w) (key_ref tenant engagement cmk byok))) [
                        | inl r ↦ rw r refl
                        | inr (fresh, r) ↦
                            rw r (rotated_others now actor (base64.encode fresh) byok db)
                      ])
          ])
        ])

  -- Shredding an engagement, or rotating its key, changes neither the row nor the tenant key that
  -- any other engagement, of the same tenant or of another, is opened with.
  pub select_engagement_others :
      (now : ℕ) (actor reason : String) (byok : Option String) (provider : KeyProvider)
      (base64 : Base64) (db : Db)
      → (select_engagement tenant' engagement'
            (shred_engagement now tenant engagement actor reason db).1
          ≡ select_engagement tenant' engagement' db)
        × (select_engagement tenant' engagement'
              (rotate_engagement_key provider base64 now tenant engagement actor byok db).1
            ≡ select_engagement tenant' engagement' db)
  unfolding select_engagement
  select_engagement_others now actor reason byok provider base64 db = (
    ground (
      arith,
      shred_rows now tenant engagement actor reason db,
      (shred_engagement_writes now tenant engagement actor reason db).2,
      find-update_other (to_shred tenant engagement) (shredded_row now)
          (is_engagement tenant' engagement') db.engagements (λ x. refl) not_shredded,
    ),
    rotate_others now actor byok provider base64 db,
  )
