-- ===== src/Purge/Tests.antt =====
-- Examples: three facts of the engagement, one of which is blank, a fact of another engagement, and
-- an entity with a body only, purged in batches of one.
use ai_de.Common.{ℕ, String, ◌≡◌, refl, true, none, some, [], ◌∷◌, Option, arith}
use ai_de.Purge.{
  Bytes, Row, EngagementRef, Tables, purge_engagement_ciphertext, purge_table, purge_rounds,
  purge_batch, selected_ids, sort_ids, insert_id,
}
use ai_de.Tenancy.{active}
use ai_de.Purge.Workflow.{Store, IsCompliant, run, crypto_shred_workflow-IsCompliant}
use ai_de.Purge.Rounds.{AreClean, purge_engagement_ciphertext-AreClean}

abbrev ref : EngagementRef
ref = record { tenant_id = "t"; engagement_id = "e" }

abbrev fact : ℕ → String → Option Bytes → Row (Option Bytes)
fact id engagement body = record {
  id = id;
  tenant_id = "t";
  engagement_id = engagement;
  columns = body;
}

abbrev tables : Tables
tables = record {
  facts =
      fact 9 "e" (some (1 ∷ []))
      ∷ fact 4 "e" none
      ∷ fact 2 "e" (some (7 ∷ []))
      ∷ fact 5 "other" (some (8 ∷ []))
      ∷ [];
  evidence = [];
  sources = [];
  acl_snapshots = [];
  entities =
      record {
        id = 1;
        tenant_id = "t";
        engagement_id = "e";
        columns = record { attributes = []; body = some (3 ∷ []) };
      }
      ∷ [];
  connector_config = [];
}

purging :
    (purge_engagement_ciphertext 1 ref tables).tables.facts
    ≡ fact 9 "e" none ∷ fact 4 "e" none ∷ fact 2 "e" none ∷ fact 5 "other" (some (8 ∷ [])) ∷ []
unfolding purge_engagement_ciphertext purge_table purge_rounds purge_batch selected_ids sort_ids
    insert_id
purging = refl

counting : (purge_engagement_ciphertext 1 ref tables).total_rows_purged ≡ 3
unfolding purge_engagement_ciphertext purge_table purge_rounds purge_batch selected_ids sort_ids
    insert_id
counting = refl

purge_engagement_ciphertext-AreClean_example :
    ((purge_engagement_ciphertext 1 ref tables).finished ≡ true)
    × AreClean ref tables (purge_engagement_ciphertext 1 ref tables).tables
purge_engagement_ciphertext-AreClean_example =
    purge_engagement_ciphertext-AreClean 1 (omega arith) ref tables

-- The engagement of a tenant, with its key.
abbrev store : Store
store = record {
  db = record {
    tenants = [];
    engagements =
        record {
          tenant_id = "t";
          id = "e";
          status = active;
          wrapped_dek = some "key";
          byok_key_arn = none;
          updated_at = 0;
        }
        ∷ [];
    grants = [];
    access_log = [];
  };
  tables = tables;
}

crypto_shred_workflow-IsCompliant_example :
    IsCompliant 5 "t" "e" "jane" "asked" store true (run 5 "t" "e" "jane" "asked" store)
crypto_shred_workflow-IsCompliant_example =
    crypto_shred_workflow-IsCompliant 5 "t" "e" "jane" "asked" store
