-- ===== src/Tenancy/Engagement/Rotate.antt =====
-- Rotating the key that wraps the data key of an engagement.
use ai_de.Common.{
  ℕ, String, ◌≡◌, ◌≢◌, refl, sym, ◌∙◌, ap, subst, inl, inr, Option, none, some, List, [], ◌∷◌, ◌++◌,
  arith, find, find_holds, Option-cases, str_eq_iff,
}
use ai_de.Keys.{EngagementKeyRef, KeyProvider, KeyProviderLaws}
use ai_de.Tenancy.{
  EngagementRow, byok_key_rotated, Db, engagement_not_found, engagement_shredded,
  key_provider_failed, ok, err, pure, update_where,
}
use ai_de.Tenancy.Engagement.{
  Base64, EngagementCipher, is_engagement, select_engagement, live_dek, key_ref, open_row,
  create_engagement_cipher, with_engagement, rotation_reason, rotate_engagement_key,
}
use ai_de.Tenancy.Engagement.Rows.{find-update_where}

-- What the code relies on of base 64.
pub record Base64Laws (base64 : Base64) : Type 0 where
  pub decode-encode : (bytes : List ℕ) → base64.decode (base64.encode bytes) ≡ bytes
  pub decode-nil : base64.decode "" ≡ []

abbrev pub rotated_row : ℕ → String → Option String → EngagementRow → EngagementRow
rotated_row now wrapped byok row = record row {
  wrapped_dek = some wrapped;
  byok_key_arn = byok;
  updated_at = now;
}

abbrev pub rotated_db : ℕ → String → String → String → Option String → String → Db → Db
rotated_db now tenant engagement actor byok wrapped db = record db {
  engagements =
      update_where (is_engagement tenant engagement) (rotated_row now wrapped byok) db.engagements;
  access_log =
      db.access_log
      ++ record {
        tenant_id = tenant;
        engagement_id = engagement;
        actor_id = some actor;
        action = byok_key_rotated;
        resource_id = engagement;
        reason = some (rotation_reason byok);
        purged = none;
      }
        ∷ [];
}

module _ (provider : KeyProvider) (base64 : Base64) where
  -- The three ways in which a rotation ends.
  pub rotate_engagement_key_lem :
      (now : ℕ) (tenant engagement actor : String) (byok : Option String) (db : Db)
      → rotate_engagement_key provider base64 now tenant engagement actor byok db
        ≡ elim (select_engagement tenant engagement db) [
          | none ↦ (err (engagement_not_found engagement), db)
          | some (row, cmk) ↦ elim (live_dek row) [
            | none ↦ (err (engagement_shredded engagement), db)
            | some w ↦
                elim (provider.rewrap_dek
                  (key_ref tenant engagement cmk row.byok_key_arn)
                  (base64.decode w)
                  (key_ref tenant engagement cmk byok)) [
                    | none ↦ (err key_provider_failed, db)
                    | some fresh ↦ (
                      ok tt,
                      rotated_db now tenant engagement actor byok (base64.encode fresh) db,
                    )
                  ]
          ]
        ]
  unfolding rotate_engagement_key open_row
  rotate_engagement_key_lem now tenant engagement actor byok db = ground arith

  with_engagement_lem :
      (tenant engagement : String) (db : Db) (row : EngagementRow) (cmk w : String) (dek : List ℕ)
      → select_engagement tenant engagement db ≡ some (row, cmk)
      → live_dek row ≡ some w
      → provider.unwrap_dek (key_ref tenant engagement cmk row.byok_key_arn) (base64.decode w)
        ≡ some dek
      → with_engagement provider base64 tenant engagement pure db
        ≡ (ok (record { tenant_id = tenant; engagement_id = engagement; dek = dek }), db)
  unfolding with_engagement open_row create_engagement_cipher
  with_engagement_lem tenant engagement db row cmk w dek s l u = ground arith

select-rotated :
    (now : ℕ) (tenant engagement actor : String) (byok : Option String) (wrapped : String) (db : Db)
    (row : EngagementRow) (cmk : String)
    → select_engagement tenant engagement db ≡ some (row, cmk)
    → select_engagement tenant engagement (rotated_db now tenant engagement actor byok wrapped db)
      ≡ some (rotated_row now wrapped byok row, cmk)
unfolding select_engagement
select-rotated now tenant engagement actor byok wrapped db row cmk s =
    elim (Option-cases (find (is_engagement tenant engagement) db.engagements)) [
      | inl e ↦ cc (rw (e, select_engagement) at s)
      | inr (found, e) ↦ ground (
        arith,
        find_holds (is_engagement tenant engagement) db.engagements e,
        find-update_where (is_engagement tenant engagement) (rotated_row now wrapped byok)
            (is_engagement tenant engagement) db.engagements (λ x. refl),
      )
    ]

live_dek-rotated :
    (now : ℕ) (byok : Option String) (wrapped w : String) (row : EngagementRow)
    → live_dek row ≡ some w
    → wrapped ≢ ""
    → live_dek (rotated_row now wrapped byok row) ≡ some wrapped
unfolding live_dek
live_dek-rotated now byok wrapped w row h n = ground (arith, str_eq_iff wrapped "")

module _ (provider : KeyProvider) (laws : KeyProviderLaws provider) (base64 : Base64)
    (base64_laws : Base64Laws base64) where
  encode-ne-nil :
      (fresh dek : List ℕ) (ref : EngagementKeyRef)
      → provider.unwrap_dek ref fresh ≡ some dek
      → base64.encode fresh ≢ ""
  encode-ne-nil fresh dek ref u e =
      let empty : fresh ≡ [] =
        sym (base64_laws.decode-encode fresh) ∙ ap base64.decode e ∙ base64_laws.decode-nil in
      cc (
        laws.unwrap_nonempty ref,
        subst (λ (x : List ℕ). provider.unwrap_dek ref x ≡ some dek) empty u,
      )

  opened_by :
      (now : ℕ) (tenant engagement actor : String) (byok : Option String) (db db' : Db)
      → rotate_engagement_key provider base64 now tenant engagement actor byok db ≡ (ok tt, db')
      → (row : EngagementRow) × (cmk : String) × (w : String) × (fresh : List ℕ)
        × (select_engagement tenant engagement db ≡ some (row, cmk))
        × (live_dek row ≡ some w)
        × (provider.rewrap_dek
              (key_ref tenant engagement cmk row.byok_key_arn)
              (base64.decode w)
              (key_ref tenant engagement cmk byok)
            ≡ some fresh)
        × (db' ≡ rotated_db now tenant engagement actor byok (base64.encode fresh) db)
  opened_by now tenant engagement actor byok db db' h =
      let path =
        sym (rotate_engagement_key_lem provider base64 now tenant engagement actor byok db) ∙ h in
      elim (Option-cases (select_engagement tenant engagement db)) [
        | inl s ↦ cc (rw s at path)
        | inr ((row, cmk), s) ↦ elim (Option-cases (live_dek row)) [
          | inl l ↦ ground (arith, path, s, l)
          | inr (w, l) ↦
              elim (Option-cases (
                provider.rewrap_dek (key_ref tenant engagement cmk row.byok_key_arn)
                  (base64.decode w) (key_ref tenant engagement cmk byok))) [
                    | inl r ↦ ground (arith, path, s, l, r)
                    | inr (fresh, r) ↦ (row, cmk, w, fresh, s, l, r, ground (arith, path, s, l, r))
                  ]
        ]
      ]

  -- Over a lawful key provider and base 64, a rotation that succeeds keeps the data key: the
  -- engagement opens to the same cipher before and after it.
  pub rotate_engagement_key_keeps :
      (now : ℕ) (tenant engagement actor : String) (byok : Option String) (db db' : Db)
      → rotate_engagement_key provider base64 now tenant engagement actor byok db ≡ (ok tt, db')
      → (cipher : EngagementCipher) × (with_engagement provider base64 tenant engagement pure db
          ≡ (ok cipher, db))
        × (with_engagement provider base64 tenant engagement pure db' ≡ (ok cipher, db'))
  rotate_engagement_key_keeps now tenant engagement actor byok db db' h =
      let (row, cmk, w, fresh, s, l, r, e) = opened_by now tenant engagement actor byok db db' h in
      let (dek, before, after) =
        laws.rewrap_keeps (key_ref tenant engagement cmk row.byok_key_arn) (base64.decode w)
          (key_ref tenant engagement cmk byok) fresh r in
      (
        record { tenant_id = tenant; engagement_id = engagement; dek = dek },
        with_engagement_lem provider base64 tenant engagement db row cmk w dek s l before,
        rw e (
            with_engagement_lem provider base64 tenant engagement
              (rotated_db now tenant engagement actor byok (base64.encode fresh) db)
              (rotated_row now (base64.encode fresh) byok row) cmk (base64.encode fresh) dek
              (select-rotated now tenant engagement actor byok (base64.encode fresh) db row cmk s)
              (live_dek-rotated now byok (base64.encode fresh) w row l
                (encode-ne-nil fresh dek (key_ref tenant engagement cmk byok) after))
              (rw (base64_laws.decode-encode fresh) after)),
      )
