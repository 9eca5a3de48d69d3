-- ===== src/Purge.antt =====
-- packages/db/src/crypto-shred-purge.ts: the sealed columns of a shredded engagement are blanked, a
-- batch of rows in each transaction. A row holds its key, its tenant, its engagement and its sealed
-- columns; a text of bytes is a list of them. Keys are numbers, which order as UUIDs do. The fuel of a
-- table is one more than its rows, as each round but the last blanks one of them.
mod Tests
pub mod Batch
pub mod Rounds
pub mod Workflow
use ai_de.Common.{
  ℕ, zero, suc, ◌+◌, String, Bool, true, false, ◌&&◌, ◌||◌, Option, none, some, List, [], ◌∷◌,
  length, take, any, filter, map, leb, ltb, ◌==◌, str_eq, if◌then◌else◌,
}
use ai_de.Tenancy.{update_where}

abbrev pub Bytes : Type 0
Bytes = List ℕ

pub record Row (C : Type 0) : Type 0 where
  pub id : ℕ
  pub tenant_id : String
  pub engagement_id : String
  pub columns : C

pub record EngagementRef : Type 0 where
  pub tenant_id : String
  pub engagement_id : String

-- What a purger says of a table: whether its columns still carry ciphertext, and the SET.
pub record TablePurger (C : Type 0) : Type 0 where
  pub name : String
  pub carries : C → Bool
  pub blank : C → C

-- `length(column) > 0`, unknown for NULL
abbrev pub is_filled : Bytes → Bool
is_filled [] = false
is_filled (b ∷ bs) = true

abbrev pub is_present : Option Bytes → Bool
is_present none = false
is_present (some bs) = is_filled bs

-- A table with one column that can be NULL.
abbrev pub nullable : String → TablePurger (Option Bytes)
nullable name = record { name = name; carries = is_present; blank = λ c. none }

abbrev pub acl_purger : TablePurger Bytes
acl_purger = record { name = "acl_snapshots"; carries = is_filled; blank = λ c. [] }

pub record EntityColumns : Type 0 where
  pub attributes : Bytes
  pub body : Option Bytes

abbrev pub entity_purger : TablePurger EntityColumns
entity_purger = record {
  name = "entities";
  carries = λ c. is_filled c.attributes || is_present c.body;
  blank = λ c. record { attributes = []; body = none };
}

unfoldable pub insert_id : ℕ → List ℕ → List ℕ
insert_id i [] = i ∷ []
insert_id i (j ∷ js) = let rest = insert_id i js in if leb i j then i ∷ j ∷ js else j ∷ rest

-- `orderBy(asc(id))`
unfoldable pub sort_ids : List ℕ → List ℕ
sort_ids [] = []
sort_ids (i ∷ is) = insert_id i (sort_ids is)

abbrev pub is_among : List ℕ → ℕ → Bool
is_among ids i = any (λ j. j == i) ids

pub record Batched (C : Type 0) : Type 0 where
  pub purged : ℕ
  pub rows : List (Row C)

-- What the rounds over a table come to.
pub record Purged (C : Type 0) : Type 0 where
  pub count : ℕ
  pub batches : List ℕ
  pub rows : List (Row C)
  pub finished : Bool

module _ {C : Type 0} (p : TablePurger C) (ref : EngagementRef) where
  abbrev pub in_engagement : Row C → Bool
  in_engagement r = str_eq r.tenant_id ref.tenant_id && str_eq r.engagement_id ref.engagement_id

  abbrev pub carries_ciphertext : Row C → Bool
  carries_ciphertext r = in_engagement r && p.carries r.columns

  -- The ids that a batch selects.
  unfoldable pub selected_ids : ℕ → List (Row C) → List ℕ
  selected_ids limit rows =
      take limit (sort_ids (map (λ (r : Row C). r.id) (filter carries_ciphertext rows)))

  abbrev pub is_selected : List ℕ → Row C → Bool
  is_selected ids r = in_engagement r && is_among ids r.id

  abbrev pub blanked : Row C → Row C
  blanked r = record r { columns = p.blank r.columns }

  -- `purgeBatch`
  unfoldable pub purge_batch : ℕ → List (Row C) → Batched C
  purge_batch limit rows = elim (selected_ids limit rows) [
    | [] ↦ record { purged = 0; rows = rows }
    | i ∷ is ↦ record {
      purged = length (i ∷ is);
      rows = update_where (is_selected (i ∷ is)) blanked rows;
    }
  ]

  -- The rounds over one table.
  unfoldable pub purge_rounds : ℕ → ℕ → List (Row C) → Purged C
  purge_rounds zero limit rows = record { count = 0; batches = []; rows = rows; finished = false }
  purge_rounds (suc fuel) limit rows =
      let batch = purge_batch limit rows in
      let rest = purge_rounds fuel limit batch.rows in
      if batch.purged == 0
      then record { count = 0; batches = []; rows = batch.rows; finished = true }
      else if ltb batch.purged limit
      then record {
        count = batch.purged;
        batches = batch.purged ∷ [];
        rows = batch.rows;
        finished = true;
      }
      else record rest { count = batch.purged + rest.count; batches = batch.purged ∷ rest.batches }

  unfoldable pub purge_table : ℕ → List (Row C) → Purged C
  purge_table limit rows = purge_rounds (suc (length rows)) limit rows

-- The tables of the registry that have an engagement.
pub record Tables : Type 0 where
  pub facts : List (Row (Option Bytes))
  pub evidence : List (Row (Option Bytes))
  pub sources : List (Row (Option Bytes))
  pub acl_snapshots : List (Row Bytes)
  pub entities : List (Row EntityColumns)
  pub connector_config : List (Row (Option Bytes))

pub record PurgeResult : Type 0 where
  pub total_rows_purged : ℕ
  pub per_table : List (String × ℕ)
  pub tables : Tables
  pub finished : Bool

abbrev pub default_batch_size : ℕ
default_batch_size = 500

-- `purgeEngagementCiphertext`
unfoldable pub purge_engagement_ciphertext : ℕ → EngagementRef → Tables → PurgeResult
purge_engagement_ciphertext limit ref t =
    let facts = purge_table (nullable "facts") ref limit t.facts in
    let evidence = purge_table (nullable "evidence") ref limit t.evidence in
    let sources = purge_table (nullable "sources") ref limit t.sources in
    let acls = purge_table acl_purger ref limit t.acl_snapshots in
    let entities = purge_table entity_purger ref limit t.entities in
    let configs = purge_table (nullable "connector_config") ref limit t.connector_config in
    record {
      total_rows_purged =
          facts.count + evidence.count + sources.count + acls.count + entities.count
          + configs.count;
      per_table =
          ("facts", facts.count)
          ∷ ("evidence", evidence.count)
          ∷ ("sources", sources.count)
          ∷ ("acl_snapshots", acls.count)
          ∷ ("entities", entities.count)
          ∷ ("connector_config", configs.count)
          ∷ [];
      tables = record {
        facts = facts.rows;
        evidence = evidence.rows;
        sources = sources.rows;
        acl_snapshots = acls.rows;
        entities = entities.rows;
        connector_config = configs.rows;
      };
      finished =
          facts.finished
          && (evidence.finished
              && (sources.finished && (acls.finished && (entities.finished && configs.finished))));
    }
