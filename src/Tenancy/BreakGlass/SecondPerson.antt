-- ===== src/Tenancy/BreakGlass/SecondPerson.antt =====
-- The second-person rule over every history of requests, approvals and revocations.
use ai_de.Common.{
  ℕ, ◌<◌, String, ◌≡◌, ◌≢◌, refl, sym, subst, inl, inr, Bool, true, false, Option, none, some, List,
  [], ◌∷◌, arith, any, find, find_holds, Bool-cases, Option-cases, str_eq, str_eq_iff, is_some, All,
  All-append, All-mem, Memᴰ,
}
use mathlib.Core.Option.{some-injective}
use ai_de.Tenancy.{GrantRow, Db, ok, update_where}
use ai_de.Tenancy.BreakGlass.{
  compute_expires_at, new_grant, request_break_glass, select_grant, to_approve, approved_row,
  approve_break_glass, is_active, assert_break_glass, to_revoke, revoked_row, revoke_break_glass,
}
use ai_de.Tenancy.BreakGlass.PrimaryKey.{IsKeyed, update_where-IsKeyed, append-IsKeyed, find_unique}
use ai_de.Tenancy.BreakGlass.Outcomes.{approved_db, approve_break_glass_lem, revoke_break_glass_lem}

-- Whoever approved the grant did not ask for it.
abbrev pub IsTwoPerson : GrantRow → Type 0
IsTwoPerson row =
    is_some row.approved_at ≡ true
    → (p : String) × (row.approved_by ≡ some p) × (row.requested_by ≢ p)

abbrev pub IsValid : Db → Type 0
IsValid db = IsKeyed db.grants × All IsTwoPerson db.grants

-- One call of an operation. The database draws an id that no grant has.
pub data Step (db : Db) : Db → Type 0 where
  request :
      {db' : Db} (fresh : String) (now : ℕ) (tenant engagement requested_by reason : String)
      (ttl : Option ℕ)
      → any (λ g. str_eq g.id fresh) db.grants ≡ false
      → (request_break_glass fresh now tenant engagement requested_by reason ttl db).1 ≡ db'
      → Step db db'
  approve :
      {db' : Db} (now clock : ℕ) (tenant id approved_by : String)
      → (approve_break_glass now clock tenant id approved_by db).1 ≡ db'
      → Step db db'
  revoke :
      {db' : Db} (now : ℕ) (tenant id revoked_by : String)
      → (revoke_break_glass now tenant id revoked_by db).1 ≡ db'
      → Step db db'

pub data Steps (db : Db) : Db → Type 0 where
  done : Steps db db
  next : {mid last : Db} → Steps db mid → Step mid last → Steps db last

update_where-All :
    (p : GrantRow → Bool) (f : GrantRow → GrantRow) (xs : List GrantRow)
    → ((x : GrantRow) → Memᴰ x xs → p x ≡ true → IsTwoPerson x → IsTwoPerson (f x))
    → All IsTwoPerson xs
    → All IsTwoPerson (update_where p f xs)
update_where-All p f [] k h = tt
update_where-All p f (x ∷ xs) k h = (
  elim (Bool-cases (p x)) [ inl e ↦ rw e (k x (Memᴰ.head refl) e h.0) | inr e ↦ rw e h.0 ],
  update_where-All p f xs (λ y m. k y (Memᴰ.tail m)) h.1,
)

approved-IsValid :
    (now clock : ℕ) (tenant id approved_by : String) (g : GrantRow) (db : Db)
    → IsValid db
    → select_grant tenant id db ≡ some g
    → str_eq g.requested_by approved_by ≡ false
    → IsValid (approved_db now clock tenant id approved_by g db)
unfolding compute_expires_at
approved-IsValid now clock tenant id approved_by g db valid s e =
    let f = approved_row approved_by now (compute_expires_at g.ttl_minutes clock) in
    (
      update_where-IsKeyed (to_approve tenant id) f (λ x. refl) db.grants valid.0,
      update_where-All (to_approve tenant id) f db.grants
          (λ x m t h a.
            let same = find_unique tenant id g x db.grants valid.0 s m (ground (arith, t)) in
            (
              approved_by,
              refl,
              λ q. cc (e, (str_eq_iff g.requested_by approved_by).1 (rw same at q)),
            ))
          valid.1,
    )

approve-IsValid :
    (now clock : ℕ) (tenant id approved_by : String) (db : Db)
    → IsValid db
    → IsValid (approve_break_glass now clock tenant id approved_by db).1
approve-IsValid now clock tenant id approved_by db valid =
    rw (approve_break_glass_lem now clock tenant id approved_by db)
      (elim (Option-cases (select_grant tenant id db)) [
        | inl s ↦ rw s valid
        | inr (g, s) ↦ rw s (elim (Bool-cases (str_eq g.requested_by approved_by)) [
          | inl e ↦ rw e valid
          | inr e ↦ rw e (elim (Bool-cases (is_some g.approved_at)) [
            | inl a ↦ rw a valid
            | inr a ↦ rw a (elim (Bool-cases (is_some g.revoked_at)) [
              | inl r ↦ rw r valid
              | inr r ↦ rw r (approved-IsValid now clock tenant id approved_by g db valid s e)
            ])
          ])
        ])
      ])

request-IsValid :
    (fresh : String) (now : ℕ) (tenant engagement requested_by reason : String) (ttl : Option ℕ)
    (db : Db)
    → any (λ g. str_eq g.id fresh) db.grants ≡ false
    → IsValid db
    → IsValid (request_break_glass fresh now tenant engagement requested_by reason ttl db).1
unfolding request_break_glass
request-IsValid fresh now tenant engagement requested_by reason ttl db f valid =
    let g = new_grant fresh tenant engagement requested_by reason ttl now in
    (
      append-IsKeyed db.grants g valid.0 f,
      All-append IsTwoPerson db.grants (g ∷ []) valid.1 (λ a. cc a, tt),
    )

revoke-IsValid :
    (now : ℕ) (tenant id revoked_by : String) (db : Db)
    → IsValid db
    → IsValid (revoke_break_glass now tenant id revoked_by db).1
revoke-IsValid now tenant id revoked_by db valid =
    rw (revoke_break_glass_lem now tenant id revoked_by db)
      (elim (Option-cases (find (to_revoke tenant id) db.grants)) [
        | inl e ↦ rw e valid
        | inr (g, e) ↦ rw e (
          update_where-IsKeyed (to_revoke tenant id) (revoked_row now) (λ x. refl) db.grants
              valid.0,
          update_where-All (to_revoke tenant id) (revoked_row now) db.grants (λ x m t h. h) valid.1,
        )
      ])

Step-IsValid : {db db' : Db} → Step db db' → IsValid db → IsValid db'
Step-IsValid {db} (Step.request fresh now tenant engagement requested_by reason ttl f e) valid =
    subst IsValid e (request-IsValid fresh now tenant engagement requested_by reason ttl db f valid)
Step-IsValid {db} (Step.approve now clock tenant id approved_by e) valid =
    subst IsValid e (approve-IsValid now clock tenant id approved_by db valid)
Step-IsValid {db} (Step.revoke now tenant id revoked_by e) valid =
    subst IsValid e (revoke-IsValid now tenant id revoked_by db valid)

-- Every sequence of requests with fresh ids, approvals and revocations keeps the ids of the grants
-- distinct, and keeps that each approved grant names an approver who is not the one who asked for
-- it.
pub Steps-IsValid : {db db' : Db} → Steps db db' → IsValid db → IsValid db'
Steps-IsValid Steps.done valid = valid
Steps-IsValid (Steps.next past step) valid = Step-IsValid step (Steps-IsValid past valid)

-- The grant that opens an engagement at a moment: it is for that engagement of that tenant, it was
-- approved by a second person, it is not revoked, and it expires later.
abbrev pub Opens : ℕ → String → String → GrantRow → Type 0
Opens now tenant engagement g =
    (g.tenant_id ≡ tenant)
    × (g.engagement_id ≡ engagement)
    × (g.revoked_at ≡ none)
    × ((t : ℕ) × (g.expires_at ≡ some t) × (now < t))
    × ((p : String) × (g.approved_by ≡ some p) × (g.requested_by ≢ p))

find_mem :
    (p : GrantRow → Bool) (g : GrantRow) (xs : List GrantRow) → find p xs ≡ some g → Memᴰ g xs
find_mem p g [] h = cc
find_mem p g (x ∷ xs) h = elim (Bool-cases (p x)) [
  | inl e ↦ Memᴰ.head (sym (some-injective x g (rw e at h)))
  | inr e ↦ Memᴰ.tail (find_mem p g xs (rw e at h))
]

active-Opens :
    (now : ℕ) (tenant engagement : String) (g : GrantRow)
    → is_active now tenant engagement g ≡ true
    → IsTwoPerson g
    → Opens now tenant engagement g
active-Opens now tenant engagement g a two = (
  ground (arith, str_eq_iff g.tenant_id tenant),
  ground (arith, str_eq_iff g.engagement_id engagement),
  ground arith,
  elim (Option-cases g.expires_at) [
    | inl e ↦ ground (arith, e)
    | inr (t, e) ↦ (t, e, ground (arith, e))
  ],
  two (ground arith),
)

-- From a table with distinct ids in which every approval is by a second person, and after any
-- sequence of requests with fresh ids, approvals and revocations, emergency access is let through
-- only when a grant of the table is for that engagement of that tenant, is neither revoked nor
-- expired, and was approved by somebody other than the one who asked for it.
pub assert_break_glass-Opens :
    {start db : Db} (now : ℕ) (tenant engagement : String)
    → IsValid start
    → Steps start db
    → assert_break_glass now tenant engagement db ≡ (ok tt, db)
    → (g : GrantRow) × Memᴰ g db.grants × Opens now tenant engagement g
unfolding assert_break_glass
assert_break_glass-Opens {start} {db} now tenant engagement valid steps h =
    elim (Option-cases (find (is_active now tenant engagement) db.grants)) [
      | inl e ↦ ground (arith, h, e)
      | inr (g, e) ↦
          let m = find_mem (is_active now tenant engagement) g db.grants e in
          (
            g,
            m,
            active-Opens now tenant engagement g
                (find_holds (is_active now tenant engagement) db.grants e)
                (All-mem IsTwoPerson m (Steps-IsValid steps valid).1),
          )
    ]
