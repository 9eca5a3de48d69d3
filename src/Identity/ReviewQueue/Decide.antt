-- ===== src/Identity/ReviewQueue/Decide.antt =====
-- packages/identity/src/review-queue.ts, `applyMatchDecision`: the guards and the writes of a
-- reviewer's decision.
use ai_de.Common.{
  ℕ, String, Bool, true, false, not, ◌&&◌, ◌||◌, Option, none, some, or_else, [], ◌∷◌, ◌++◌, filter,
  find, str_eq, if◌then◌else◌,
}
use ai_de.Tenancy.{update_where}
use ai_de.Identity.Refs.{Normalizers, union_refs}
use ai_de.Identity.ReviewQueue.{
  ReviewStatus, EntityRow, QueueRow, Decision, Db, Result, repoint_entity_edges, pending, merged,
  rejected, merge, reject, ok, err, row_not_found, row_decided, not_of_pair, side_missing,
  cross_engagement,
}

abbrev pub is_row : String → String → QueueRow → Bool
is_row tenant id row = str_eq row.tenant_id tenant && str_eq row.id id

abbrev pub is_entity : String → String → EntityRow → Bool
is_entity tenant id row = str_eq row.tenant_id tenant && str_eq row.id id

abbrev pub is_pending : ReviewStatus → Bool
is_pending pending = true
is_pending merged = false
is_pending rejected = false

abbrev pub stamped : ReviewStatus → String → ℕ → QueueRow → QueueRow
stamped status decided_by now row = record row {
  status = status;
  decided_by = some decided_by;
  decided_at = some now;
}

-- the branch of `applyMatchDecision` for `reject`
unfoldable pub reject_match : ℕ → String → String → QueueRow → Db → Result × Db
reject_match now tenant decided_by row db = (
  ok (record { decision = reject; status = rejected; kept = none; merged = none; moved = 0 }),
  record db {
    queue = update_where (is_row tenant row.id) (stamped rejected decided_by now) db.queue;
    log =
        db.log
        ++ record {
          tenant_id = tenant;
          engagement_id = none;
          actor_id = decided_by;
          resource_id = row.id;
          decision = reject;
          moved = 0;
        }
          ∷ [];
  },
)

-- the cascade of the deleted entity on the queue
abbrev pub names : String → QueueRow → Bool
names id row = str_eq row.entity_a_id id || str_eq row.entity_b_id id

-- the writes of a merge: references, edges, the stamp, the log, and the deletion with its cascade
unfoldable pub merge_match :
    Normalizers → ℕ → String → String → QueueRow → EntityRow → EntityRow → Db → Result × Db
merge_match n now tenant decided_by row keep drop db =
    let (edges, moved) = repoint_entity_edges tenant drop.id keep.id db.edges in
    (
      ok (record {
        decision = merge;
        status = merged;
        kept = some keep.id;
        merged = some drop.id;
        moved = moved;
      }),
      record {
        entities =
            filter (λ e. not (is_entity tenant drop.id e))
              (update_where (is_entity tenant keep.id)
                (λ e. record e {
                  external_refs = union_refs n keep.external_refs drop.external_refs;
                  updated_at = now;
                })
                db.entities);
        queue =
            filter (λ q. not (names drop.id q))
              (update_where (is_row tenant row.id) (stamped merged decided_by now) db.queue);
        edges = edges;
        log =
            db.log
            ++ record {
              tenant_id = tenant;
              engagement_id = some keep.engagement_id;
              actor_id = decided_by;
              resource_id = keep.id;
              decision = merge;
              moved = moved;
            }
              ∷ [];
      },
    )

-- `keep === entityAId ? entityBId : entityAId`
abbrev pub other_side : QueueRow → String → String
other_side row keep = if str_eq keep row.entity_a_id then row.entity_b_id else row.entity_a_id

-- the guards of a merge, in their order
unfoldable pub merge_checked :
    Normalizers → ℕ → String → String → Option String → QueueRow → Db → Result × Db
merge_checked n now tenant decided_by keep_entity_id row db =
    let keep_id = or_else keep_entity_id row.entity_a_id in
    let drop_id = other_side row keep_id in
    let of_pair = str_eq keep_id row.entity_a_id || str_eq keep_id row.entity_b_id in
    if not of_pair
    then (err not_of_pair, db)
    else elim (find (is_entity tenant keep_id) db.entities) [
      | none ↦ (err side_missing, db)
      | some keep ↦ elim (find (is_entity tenant drop_id) db.entities) [
        | none ↦ (err side_missing, db)
        | some drop ↦
            if str_eq keep.engagement_id drop.engagement_id
            then merge_match n now tenant decided_by row keep drop db
            else (err cross_engagement, db)
      ]
    ]

-- `applyMatchDecision`
unfoldable pub apply_match_decision :
    Normalizers → ℕ → String → String → Decision → String → Option String → Db → Result × Db
apply_match_decision n now tenant queue_id decision decided_by keep_entity_id db =
    elim (find (is_row tenant queue_id) db.queue) [
      | none ↦ (err row_not_found, db)
      | some row ↦
          if is_pending row.status
          then elim decision [
            | reject ↦ reject_match now tenant decided_by row db
            | merge ↦ merge_checked n now tenant decided_by keep_entity_id row db
          ]
          else (err row_decided, db)
    ]
