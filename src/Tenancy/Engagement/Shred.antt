-- ===== src/Tenancy/Engagement/Shred.antt =====
-- Shredding an engagement: it cannot be opened again, and only the first call is audited.
use ai_de.Common.{
  ℕ, String, Bool, List, str_eq, ◌&&◌, ap, ◌∙◌, ◌≡◌, refl, inl, inr, true, false, none, some,
  is_some, [], ◌∷◌, ◌++◌, arith, any, find, find_holds, Option-cases, if◌then◌else◌,
}
use ai_de.Keys.{KeyProvider}
use ai_de.Tenancy.{
  EngagementRow, active, closed, shredded, crypto_shred, AccessEntry, Db, Error,
  engagement_not_found, engagement_shredded, ok, err, Tx, update_where,
}
use ai_de.Tenancy.Engagement.{
  Base64, EngagementCipher, is_engagement, select_engagement, live_dek, open_row, with_engagement,
  to_shred, shred_engagement,
}
use ai_de.Tenancy.Engagement.Rows.{
  updated_row, find-update_where, update_where-none, any-update_where,
}

abbrev pub shredded_row : ℕ → EngagementRow → EngagementRow
shredded_row now row = record row {
  status = shredded;
  wrapped_dek = none;
  byok_key_arn = none;
  updated_at = now;
}

abbrev pub shred_entry : String → String → String → String → AccessEntry
shred_entry tenant engagement actor reason = record {
  tenant_id = tenant;
  engagement_id = engagement;
  actor_id = some actor;
  action = crypto_shred;
  resource_id = engagement;
  reason = some reason;
  purged = none;
}

-- With no row to shred the call changes nothing.
shred_engagement-idle :
    (now : ℕ) (tenant engagement actor reason : String) (db : Db)
    → any (to_shred tenant engagement) db.engagements ≡ false
    → shred_engagement now tenant engagement actor reason db ≡ (ok false, db)
unfolding shred_engagement
shred_engagement-idle now tenant engagement actor reason db h =
    ground
      (arith, update_where-none (to_shred tenant engagement) (shredded_row now) db.engagements h)

module _ (now : ℕ) (tenant engagement actor reason : String) (db : Db) where
  abbrev pub after : Db
  after = (shred_engagement now tenant engagement actor reason db).1

  pub shred_rows :
      (shred_engagement now tenant engagement actor reason db).1.engagements
      ≡ update_where (to_shred tenant engagement) (shredded_row now) db.engagements
  unfolding shred_engagement
  shred_rows = ground arith

  pub shred_engagement_writes :
      let updated = any (to_shred tenant engagement) db.engagements in
      ((shred_engagement now tenant engagement actor reason db).0 ≡ ok updated)
      × ((shred_engagement now tenant engagement actor reason db).1.access_log ≡ (
          if updated
          then db.access_log ++ shred_entry tenant engagement actor reason ∷ []
          else db.access_log))
      × ((shred_engagement now tenant engagement actor reason db).1.tenants ≡ db.tenants)
      × ((shred_engagement now tenant engagement actor reason db).1.grants ≡ db.grants)
  unfolding shred_engagement
  shred_engagement_writes = ground arith

  pub find-after :
      find
        (is_engagement tenant engagement)
        (shred_engagement now tenant engagement actor reason db).1.engagements
      ≡ updated_row
          (to_shred tenant engagement)
          (shredded_row now)
          (find (is_engagement tenant engagement) db.engagements)
  find-after = rw shred_rows (
      find-update_where (to_shred tenant engagement) (shredded_row now)
        (is_engagement tenant engagement) db.engagements (λ x. refl))

  -- A row that this call changes, and one that was shredded before, has no live key.
  live_dek-after :
      (row : EngagementRow)
      → is_engagement tenant engagement row ≡ true
      → live_dek (if to_shred tenant engagement row then shredded_row now row else row) ≡ none
  unfolding live_dek
  live_dek-after row h = ground arith

  abbrev refusal : Error
  refusal =
      if is_some (select_engagement tenant engagement db)
      then engagement_shredded engagement
      else engagement_not_found engagement

  open_row-after : open_row tenant engagement after ≡ (err refusal, after)
  unfolding open_row select_engagement
  open_row-after = elim (Option-cases (find (is_engagement tenant engagement) db.engagements)) [
    | inl e ↦ ground (arith, find-after, shred_engagement_writes.2)
    | inr (row, e) ↦ ground (
      arith,
      find-after,
      live_dek-after row (find_holds (is_engagement tenant engagement) db.engagements e),
      shred_engagement_writes.2,
    )
  ]

-- Once an engagement is shredded no key provider opens it again: the body is not run, nothing is
-- written, and the error says that the data key is gone, or that there is no such engagement where
-- there was none.
pub with_engagement-shred_engagement :
    (now : ℕ) (tenant engagement actor reason : String) (db : Db) (provider : KeyProvider)
    (base64 : Base64) {A : Type 0} (fn : EngagementCipher → Tx A)
    → let after = (shred_engagement now tenant engagement actor reason db).1 in
      with_engagement provider base64 tenant engagement fn after ≡ (
        err (
            if is_some (select_engagement tenant engagement db)
            then engagement_shredded engagement
            else engagement_not_found engagement),
        after,
      )
unfolding with_engagement
with_engagement-shred_engagement now tenant engagement actor reason db provider base64 fn =
    ground (arith, open_row-after now tenant engagement actor reason db)

-- Shredding again, at any time and by anyone, reports `false` and changes nothing, the audit log
-- included.
pub shred_engagement_again :
    (now later : ℕ) (tenant engagement actor actor' reason reason' : String) (db : Db)
    → let after = (shred_engagement now tenant engagement actor reason db).1 in
      shred_engagement later tenant engagement actor' reason' after ≡ (ok false, after)
shred_engagement_again now later tenant engagement actor actor' reason reason' db =
    shred_engagement-idle later tenant engagement actor' reason'
      (shred_engagement now tenant engagement actor reason db).1
      (rw (shred_rows now tenant engagement actor reason db) (
        any-update_where (to_shred tenant engagement) (shredded_row now) db.engagements
          (λ x. not_again x)))
  where
    not_again : (x : EngagementRow) → to_shred tenant engagement (shredded_row now x) ≡ false
    not_again x = ground arith

-- Whether the tenant has the engagement, not yet shredded.
abbrev pub is_unshredded : String → String → EngagementRow → Bool
is_unshredded tenant engagement row =
    (str_eq row.tenant_id tenant && str_eq row.id engagement)
    && elim row.status [ active ↦ true | closed ↦ true | shredded ↦ false ]

to_shred-is_unshredded :
    (tenant engagement : String) (row : EngagementRow)
    → to_shred tenant engagement row ≡ is_unshredded tenant engagement row
to_shred-is_unshredded tenant engagement row = ground arith

any-ext {ℓ} :
    {A : Type ℓ} (p q : A → Bool) (xs : List A) → ((x : A) → p x ≡ q x) → any p xs ≡ any q xs
any-ext p q [] h = refl
any-ext p q (x ∷ xs) h = ground (arith, h x, any-ext p q xs h)

update_where_ext {ℓ} :
    {A : Type ℓ} (p q : A → Bool) (f : A → A) (xs : List A)
    → ((x : A) → p x ≡ q x)
    → update_where p f xs ≡ update_where q f xs
update_where_ext p q f [] h = refl
update_where_ext p q f (x ∷ xs) h = ground (arith, h x, update_where_ext p q f xs h)

-- Exactly the row of that engagement of that tenant, if it is not shredded yet, loses its keys and
-- becomes shredded; the result says whether there was one, and exactly then one entry is appended
-- to the access log; tenants and grants stay as they were; and shredding again, at any time and by
-- anyone, reports `false` and writes nothing.
pub shred_engagement_lem :
    (now later : ℕ) (tenant engagement actor other reason reason' : String) (db : Db)
    → let live = any (is_unshredded tenant engagement) db.engagements in
      let (result, after) = shred_engagement now tenant engagement actor reason db in
      (result ≡ ok live)
      × (after.engagements
          ≡ update_where (is_unshredded tenant engagement) (shredded_row now) db.engagements)
      × (after.access_log ≡ (
          if live
          then db.access_log ++ shred_entry tenant engagement actor reason ∷ []
          else db.access_log))
      × ((after.tenants ≡ db.tenants) × (after.grants ≡ db.grants))
      × (shred_engagement later tenant engagement other reason' after ≡ (ok false, after))
shred_engagement_lem now later tenant engagement actor other reason reason' db =
    let same : any (to_shred tenant engagement) db.engagements
        ≡ any (is_unshredded tenant engagement) db.engagements =
      any-ext (to_shred tenant engagement) (is_unshredded tenant engagement) db.engagements
        (to_shred-is_unshredded tenant engagement) in
    let (result, log, tenants, grants) =
      shred_engagement_writes now tenant engagement actor reason db in
    (
      result ∙ ap (λ (b : Bool). ok b) same,
      shred_rows now tenant engagement actor reason db
          ∙ update_where_ext (to_shred tenant engagement) (is_unshredded tenant engagement)
              (shredded_row now) db.engagements (to_shred-is_unshredded tenant engagement),
      log
          ∙ ap
              (λ (b : Bool).
                if b
                then db.access_log ++ shred_entry tenant engagement actor reason ∷ []
                else db.access_log)
              same,
      (tenants, grants),
      shred_engagement_again now later tenant engagement actor other reason reason' db,
    )
