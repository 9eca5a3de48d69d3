-- ===== src/Purge/Workflow.antt =====
-- apps/workers/src/activities/crypto-shred.ts and workflows/crypto-shred.ts: the key of an engagement
-- is destroyed, and then its ciphertext is purged. The tables of Tenancy and those of the purge are one
-- database. An activity that a crash interrupts is run again by the workflow engine, which is not
-- modelled.
use ai_de.Common.{
  ℕ, String, Bool, true, false, ◌≡◌, refl, sym, ap, ◌∙◌, subst, inl, inr, Option, none, some,
  is_some, [], ◌∷◌, ◌++◌, any, find, find_holds, if◌then◌else◌, arith, Option-cases, Bool-cases,
}
use ai_de.Tenancy.{
  EngagementStatus, EngagementRow, AccessEntry, crypto_shred_purge_completed, Db, Error, ok, err,
  with_tenant, log_access,
}
use ai_de.Tenancy.Engagement.{is_shredded, is_engagement, to_shred, shred_engagement}
use ai_de.Tenancy.Engagement.Shred.{shred_engagement_lem, is_unshredded, find-after, shredded_row}
use ai_de.Purge.{
  EngagementRef, Tables, PurgeResult, default_batch_size, purge_engagement_ciphertext,
}
use ai_de.Purge.Rounds.{AreClean, purge_engagement_ciphertext-AreClean}

pub record Store : Type 0 where
  pub db : Db
  pub tables : Tables

pub data Outcome {ℓ} (A : Type ℓ) : Type ℓ where
  completed : A → Outcome A
  shred_failed : Error → Outcome A
  engagement_not_shredded : String → Outcome A

abbrev pub ref_of : String → String → EngagementRef
ref_of tenant engagement = record { tenant_id = tenant; engagement_id = engagement }

-- `row?.status` of the engagement, among the rows that the tenant sees.
unfoldable pub status_of : String → String → Db → Option EngagementStatus
status_of tenant engagement db = elim (find (is_engagement tenant engagement) db.engagements) [
  | none ↦ none
  | some row ↦ some row.status
]

-- `shredEngagementDekActivity`
unfoldable pub shred_engagement_dek_activity :
    ℕ → String → String → String → String → Store → Outcome Bool × Store
shred_engagement_dek_activity now tenant engagement actor reason s =
    let (r, db) = shred_engagement now tenant engagement actor reason s.db in
    (elim r [ ok did ↦ completed did | err e ↦ shred_failed e ], record s { db = db })

-- The status check of the activity.
abbrev pub may_purge : Option EngagementStatus → Bool
may_purge none = false
may_purge (some st) = is_shredded st

-- The entry that a purge logs, by the system.
abbrev pub purge_entry : String → String → PurgeResult → AccessEntry
purge_entry tenant engagement r = record {
  tenant_id = tenant;
  engagement_id = engagement;
  actor_id = none;
  action = crypto_shred_purge_completed;
  resource_id = engagement;
  reason = none;
  purged = some (record { total_rows_purged = r.total_rows_purged; per_table = r.per_table });
}

-- The store after a purge, with its entry in the access log.
abbrev pub purged_store : String → String → PurgeResult → Store → Store
purged_store tenant engagement r s = record {
  db = (with_tenant (log_access (purge_entry tenant engagement r)) s.db).1;
  tables = r.tables;
}

-- `purgeShreddedCiphertextActivity`
unfoldable pub purge_shredded_ciphertext_activity :
    String → String → Store → Outcome PurgeResult × Store
purge_shredded_ciphertext_activity tenant engagement s =
    let r = purge_engagement_ciphertext default_batch_size (ref_of tenant engagement) s.tables in
    if may_purge (status_of tenant engagement s.db)
    then (completed r, purged_store tenant engagement r s)
    else (engagement_not_shredded engagement, s)

pub record WorkflowResult : Type 0 where
  pub did_shred : Bool
  pub purge : PurgeResult

-- What the workflow returns once the purge has ended.
unfoldable pub purge_step : Bool → Outcome PurgeResult × Store → Outcome WorkflowResult × Store
purge_step did (completed r, s) = (completed (record { did_shred = did; purge = r }), s)
purge_step did (shred_failed e, s) = (shred_failed e, s)
purge_step did (engagement_not_shredded x, s) = (engagement_not_shredded x, s)

-- What the workflow does once the key is destroyed.
unfoldable pub shred_step : String → String → Outcome Bool × Store → Outcome WorkflowResult × Store
shred_step tenant engagement (shred_failed e, s) = (shred_failed e, s)
shred_step tenant engagement (engagement_not_shredded x, s) = (engagement_not_shredded x, s)
shred_step tenant engagement (completed did, s) =
    purge_step did (purge_shredded_ciphertext_activity tenant engagement s)

-- `cryptoShredWorkflow`
unfoldable pub crypto_shred_workflow :
    ℕ → String → String → String → String → Store → Outcome WorkflowResult × Store
crypto_shred_workflow now tenant engagement actor reason s =
    shred_step tenant engagement
      (shred_engagement_dek_activity now tenant engagement actor reason s)

purge_activity_runs :
    (tenant engagement : String) (s : Store)
    → may_purge (status_of tenant engagement s.db) ≡ true
    → let r = purge_engagement_ciphertext default_batch_size (ref_of tenant engagement) s.tables in
      purge_shredded_ciphertext_activity tenant engagement s
      ≡ (completed r, purged_store tenant engagement r s)
unfolding purge_shredded_ciphertext_activity
purge_activity_runs tenant engagement s h = rw h refl

purge_activity_refuses :
    (tenant engagement : String) (s : Store)
    → may_purge (status_of tenant engagement s.db) ≡ false
    → purge_shredded_ciphertext_activity tenant engagement s
      ≡ (engagement_not_shredded engagement, s)
unfolding purge_shredded_ciphertext_activity
purge_activity_refuses tenant engagement s h = rw h refl

module _ (now : ℕ) (tenant engagement actor reason : String) (s : Store) where
  abbrev pub exists : Bool
  exists = is_some (find (is_engagement tenant engagement) s.db.engagements)

  abbrev shred_store : Store
  shred_store = record s { db = (shred_engagement now tenant engagement actor reason s.db).1 }

  shredded_after :
      (row : EngagementRow)
      → is_engagement tenant engagement row ≡ true
      → is_shredded (if to_shred tenant engagement row then shredded_row now row else row).status
        ≡ true
  shredded_after row h = ground (arith, h)

  may_purge-after : may_purge (status_of tenant engagement shred_store.db) ≡ exists
  unfolding status_of
  may_purge-after = elim (Option-cases (find (is_engagement tenant engagement) s.db.engagements)) [
    | inl e ↦ ground (arith, find-after now tenant engagement actor reason s.db)
    | inr (row, e) ↦ ground (
      arith,
      find-after now tenant engagement actor reason s.db,
      shredded_after row (find_holds (is_engagement tenant engagement) s.db.engagements e),
    )
  ]

  abbrev pub run : Outcome WorkflowResult × Store
  run = crypto_shred_workflow now tenant engagement actor reason s

  abbrev purge_result : PurgeResult
  purge_result = purge_engagement_ciphertext default_batch_size (ref_of tenant engagement) s.tables

  abbrev did_shred : Bool
  did_shred = any (is_unshredded tenant engagement) s.db.engagements

  dek_activity_lem :
      shred_engagement_dek_activity now tenant engagement actor reason s
      ≡ (completed did_shred, shred_store)
  unfolding shred_engagement_dek_activity
  dek_activity_lem =
      rw (shred_engagement_lem now now tenant engagement actor actor reason reason s.db).0 refl

  workflow_lem :
      run ≡ purge_step did_shred (purge_shredded_ciphertext_activity tenant engagement shred_store)
  unfolding crypto_shred_workflow shred_step
  workflow_lem = ap (shred_step tenant engagement) dek_activity_lem

  abbrev workflow_result : WorkflowResult
  workflow_result = record { did_shred = did_shred; purge = purge_result }

  -- The tables of Tenancy once the engagement is shredded and the purge is logged.
  abbrev logged_db : Db
  logged_db = record shred_store.db {
    access_log =
        shred_store.db.access_log
        ++ record {
          tenant_id = tenant;
          engagement_id = engagement;
          actor_id = none;
          action = crypto_shred_purge_completed;
          resource_id = engagement;
          reason = none;
          purged = some (record {
            total_rows_purged = purge_result.total_rows_purged;
            per_table = purge_result.per_table;
          });
        }
          ∷ [];
  }

  -- What the workflow promises, by whether the tenant has the engagement.
  abbrev pub IsCompliant : Bool → Outcome WorkflowResult × Store → Type 0
  IsCompliant true r =
      (r.0 ≡ completed workflow_result)
      × AreClean (ref_of tenant engagement) s.tables r.1.tables
      × (r.1.db ≡ logged_db)
  IsCompliant false r =
      (r.0 ≡ engagement_not_shredded engagement)
      × (r.1.tables ≡ s.tables)
      × (r.1.db ≡ shred_store.db)

  -- Where the tenant has the engagement, the workflow completes with whether this run shredded it
  -- and with the counts of the purge, no table carries ciphertext of the engagement any more, the
  -- rows of others stay, and the other tables are as shredEngagement left them but for one more
  -- entry in the access log, which gives the counts of the purge; otherwise it fails as not
  -- shredded, the sealed tables stay, and the other tables are as shredEngagement left them.
  pub crypto_shred_workflow-IsCompliant : IsCompliant exists run
  unfolding purge_step
  crypto_shred_workflow-IsCompliant = elim (Bool-cases exists) [
    | inl q ↦
        let r = purge_result in
        let last = purged_store tenant engagement r shred_store in
        let ran : run ≡ (completed workflow_result, last) =
          workflow_lem
          ∙ ap (purge_step did_shred)
              (purge_activity_runs tenant engagement shred_store (may_purge-after ∙ q)) in
        subst (λ b. IsCompliant b run) (sym q)
          (subst (IsCompliant true) (sym ran) (
            refl,
            (purge_engagement_ciphertext-AreClean default_batch_size (omega arith)
                (ref_of tenant engagement) s.tables).1,
            refl,
          ))
    | inr q ↦
        let refused : run ≡ (engagement_not_shredded engagement, shred_store) =
          workflow_lem
          ∙ ap (purge_step did_shred)
              (purge_activity_refuses tenant engagement shred_store (may_purge-after ∙ q)) in
        subst (λ b. IsCompliant b run) (sym q)
          (subst (IsCompliant false) (sym refused) (refl, refl, refl))
  ]
