-- ===== src/Identity/ReviewQueue/Outcomes.antt =====
-- What a decision leaves behind on its branches.
use ai_de.Common.{
  ℕ, String, ◌≡◌, refl, inl, inr, ◌⊎◌, Bool, true, false, not, ◌||◌, Option, none, some, or_else,
  List, [], ◌∷◌, arith, any, filter, find, find_holds, str_eq, str_eq_iff, Bool-cases, Option-cases,
}
use ai_de.Tenancy.Engagement.Rows.{find-update_where}
use ai_de.Identity.Refs.{Normalizers}
use ai_de.Identity.ReviewQueue.{
  rejected, EntityRow, QueueRow, Decision, merge, reject, Db, Error, row_decided, row_not_found,
  not_of_pair, side_missing, cross_engagement, Decided, ok, err, touches,
}
use ai_de.Identity.ReviewQueue.Decide.{
  is_row, is_entity, names, is_pending, stamped, other_side, reject_match, merge_match,
  merge_checked, apply_match_decision,
}
use ai_de.Identity.ReviewQueue.Edges.{repoint-touches}

filter_none {ℓ} :
    {A : Type ℓ} (p : A → Bool) (xs : List A) → any p (filter (λ x. not (p x)) xs) ≡ false
filter_none p [] = refl
filter_none p (x ∷ xs) = ground (arith, filter_none p xs)

checked-cases :
    (n : Normalizers) (now : ℕ) (tenant decided_by : String) (keep_entity_id : Option String)
    (row : QueueRow) (db : Db)
    → let run = merge_checked n now tenant decided_by keep_entity_id row db in
      ((e : Error) × (run ≡ (err e, db)))
      ⊎ ((row' : QueueRow) × (keep : EntityRow) × (drop : EntityRow) × (run
            ≡ merge_match n now tenant decided_by row' keep drop db))
unfolding merge_checked
checked-cases n now tenant decided_by keep_entity_id row db =
    let keep_id = or_else keep_entity_id row.entity_a_id in
    elim (Bool-cases (str_eq keep_id row.entity_a_id || str_eq keep_id row.entity_b_id)) [
      | inr p ↦ inl (not_of_pair, ground (arith, p))
      | inl p ↦ elim (Option-cases (find (is_entity tenant keep_id) db.entities)) [
        | inl k ↦ inl (side_missing, ground (arith, p, k))
        | inr (keep, k) ↦
            elim (Option-cases (find (is_entity tenant (other_side row keep_id)) db.entities)) [
              | inl o ↦ inl (side_missing, ground (arith, p, k, o))
              | inr (drop, o) ↦ elim (Bool-cases (str_eq keep.engagement_id drop.engagement_id)) [
                | inl s ↦ inr (row, keep, drop, ground (arith, p, k, o, s))
                | inr s ↦ inl (cross_engagement, ground (arith, p, k, o, s))
              ]
            ]
      ]
    ]

module _ (n : Normalizers) (now : ℕ) (tenant queue_id decided_by : String)
    (keep_entity_id : Option String) where
  -- A decision that fails has written nothing.
  pub apply_match_decision-err :
      (decision : Decision) (db : Db) (e : Error)
      → (apply_match_decision n now tenant queue_id decision decided_by keep_entity_id db).0 ≡ err e
      → (apply_match_decision n now tenant queue_id decision decided_by keep_entity_id db).1 ≡ db
  unfolding apply_match_decision reject_match merge_checked merge_match
  apply_match_decision-err decision db e h = ground arith

  apply-missing :
      (decision : Decision) (db : Db)
      → find (is_row tenant queue_id) db.queue ≡ none
      → apply_match_decision n now tenant queue_id decision decided_by keep_entity_id db
        ≡ (err row_not_found, db)
  unfolding apply_match_decision
  apply-missing decision db q = ground (arith, q)

  apply-decided :
      (decision : Decision) (db : Db) (row : QueueRow)
      → find (is_row tenant queue_id) db.queue ≡ some row
      → is_pending row.status ≡ false
      → apply_match_decision n now tenant queue_id decision decided_by keep_entity_id db
        ≡ (err row_decided, db)
  unfolding apply_match_decision
  apply-decided decision db row q p = ground (arith, q, p)

  apply-merge :
      (db : Db) (row : QueueRow)
      → find (is_row tenant queue_id) db.queue ≡ some row
      → is_pending row.status ≡ true
      → apply_match_decision n now tenant queue_id merge decided_by keep_entity_id db
        ≡ merge_checked n now tenant decided_by keep_entity_id row db
  unfolding apply_match_decision
  apply-merge db row q p = ground (arith, q, p)

  apply-reject :
      (db : Db) (row : QueueRow)
      → find (is_row tenant queue_id) db.queue ≡ some row
      → is_pending row.status ≡ true
      → apply_match_decision n now tenant queue_id reject decided_by keep_entity_id db
        ≡ reject_match now tenant decided_by row db
  unfolding apply_match_decision
  apply-reject db row q p = ground (arith, q, p)

  find-rejected :
      (db : Db) (row : QueueRow)
      → find (is_row tenant queue_id) db.queue ≡ some row
      → find (is_row tenant queue_id) (reject_match now tenant decided_by row db).1.queue
        ≡ some (stamped rejected decided_by now row)
  unfolding reject_match
  find-rejected db row q = ground (
    arith,
    find-update_where (is_row tenant row.id) (stamped rejected decided_by now)
        (is_row tenant queue_id) db.queue (λ x. refl),
    find_holds (is_row tenant queue_id) db.queue q,
    str_eq_iff row.id row.id,
    q,
  )

  -- A merge that is asked for either fails or runs for a row of the queue and two entities.
  merge-cases :
      (db : Db)
      → let run = apply_match_decision n now tenant queue_id merge decided_by keep_entity_id db in
        ((e : Error) × (run ≡ (err e, db)))
        ⊎ ((row : QueueRow) × (keep : EntityRow) × (drop : EntityRow) × (run
              ≡ merge_match n now tenant decided_by row keep drop db))
  merge-cases db = elim (Option-cases (find (is_row tenant queue_id) db.queue)) [
    | inl q ↦ inl (row_not_found, apply-missing merge db q)
    | inr (row, q) ↦ elim (Bool-cases (is_pending row.status)) [
      | inr p ↦ inl (row_decided, apply-decided merge db row q p)
      | inl p ↦
          rw (apply-merge db row q p) (checked-cases n now tenant decided_by keep_entity_id row db)
    ]
  ]

-- What is gone after a merge.
abbrev pub IsGone : String → String → Db → Type 0
IsGone tenant drop db =
    (any (is_entity tenant drop) db.entities ≡ false)
    × (any (names drop) db.queue ≡ false)
    × (any (touches tenant drop) db.edges ≡ false)

merge_match-IsGone :
    (n : Normalizers) (now : ℕ) (tenant decided_by : String) (row : QueueRow)
    (keep drop : EntityRow) (db : Db)
    → IsGone tenant drop.id (merge_match n now tenant decided_by row keep drop db).1
unfolding merge_match
merge_match-IsGone n now tenant decided_by row keep drop db = (
  filter_none (is_entity tenant drop.id) _,
  filter_none (names drop.id) _,
  repoint-touches tenant drop.id keep.id db.edges,
)

merge_match-merged :
    (n : Normalizers) (now : ℕ) (tenant decided_by : String) (row : QueueRow)
    (keep drop : EntityRow) (db : Db) (d : Decided)
    → (merge_match n now tenant decided_by row keep drop db).0 ≡ ok d
    → d.merged ≡ some drop.id
unfolding merge_match
merge_match-merged n now tenant decided_by row keep drop db d h = ground arith

module _ (n : Normalizers) (now : ℕ) (tenant queue_id decided_by : String)
    (keep_entity_id : Option String) where
  -- A rejection that succeeds leaves the entities and the edges as they are, and every later
  -- decision on the pair fails as already decided and writes nothing.
  pub apply_match_decision-reject :
      (later : ℕ) (decision : Decision) (decided_by' : String) (keep' : Option String) (db : Db)
      (d : Decided)
      → let run = apply_match_decision n now tenant queue_id reject decided_by keep_entity_id db in
        run.0 ≡ ok d
        → (run.1.entities ≡ db.entities)
          × (run.1.edges ≡ db.edges)
          × (apply_match_decision n later tenant queue_id decision decided_by' keep' run.1
              ≡ (err row_decided, run.1))
  unfolding reject_match
  apply_match_decision-reject later decision decided_by' keep' db d h =
      elim (Option-cases (find (is_row tenant queue_id) db.queue)) [
        | inl q ↦
            ground
              (arith, apply-missing n now tenant queue_id decided_by keep_entity_id reject db q, h)
        | inr (row, q) ↦ elim (Bool-cases (is_pending row.status)) [
          | inl p ↦ rw (apply-reject n now tenant queue_id decided_by keep_entity_id db row q p) (
            refl,
            refl,
            apply-decided n later tenant queue_id decided_by' keep' decision
                (reject_match now tenant decided_by row db).1 (stamped rejected decided_by now row)
                (find-rejected n now tenant queue_id decided_by keep_entity_id db row q) refl,
          )
          | inr p ↦ ground (
            arith,
            apply-decided n now tenant queue_id decided_by keep_entity_id reject db row q p,
            h,
          )
        ]
      ]

  -- A merge that succeeds names the entity that it dropped, and leaves no row of that entity, no
  -- row of the review queue that names it, and no edge of the tenant that ends at it.
  pub apply_match_decision-merge :
      (db : Db) (d : Decided)
      → let run = apply_match_decision n now tenant queue_id merge decided_by keep_entity_id db in
        run.0 ≡ ok d → (drop : String) × (d.merged ≡ some drop) × IsGone tenant drop run.1
  apply_match_decision-merge db d h =
      elim (merge-cases n now tenant queue_id decided_by keep_entity_id db) [
        | inl (e, q) ↦ ground (arith, q, h)
        | inr (row, keep, drop, q) ↦ rw q (
          drop.id,
          merge_match-merged n now tenant decided_by row keep drop db d (rw q at h),
          merge_match-IsGone n now tenant decided_by row keep drop db,
        )
      ]
