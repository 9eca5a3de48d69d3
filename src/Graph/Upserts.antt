-- ===== src/Graph/Upserts.antt =====
-- An upsert by reference settles: the next one for the same record comes to the same row.
use ai_de.Common.{
  String, if◌then◌else◌, filter, mem-filter_iff, is_some, ℕ, suc, Bool, ◌≡◌, refl, sym, ap, subst,
  true, false, inl, inr, Option, none, some, List, [], ◌∷◌, ◌++◌, any-right, length, arith,
  Option-cases, Bool-cases, List-cases, str_eq_iff, Memᴰ,
}
use mathlib.Core.Logic.{⊎_elim}
use mathlib.Core.List.Memᴰ
use ai_de.Tenancy.{update_where}
use ai_de.Identity.Refs.{same_ref, ExternalRef, has}
use ai_de.Identity.Refs.Laws.{has-unseen_refs, same_ref_refl}
use ai_de.Graph.{
  Graph, NodeRow, Attributes, Result, ok, err, CanonicalEntity, Cipher, Ids, Scope,
  UpsertEntityResult, upsert_entity_by_ref, upsert_refs, merge_hit, insert_row, matches,
  normalize_refs, join_refs, merged_row, new_row, is_hit, type_name, merge_attributes, limit_one,
}
use ai_de.Graph.Picked.{limit_one_lem, limit_one-none}

-- The id is a primary key.
abbrev pub IsPrimary : List NodeRow → Type 0
IsPrimary rows = (x y : NodeRow) → Memᴰ x rows → Memᴰ y rows → x.id ≡ y.id → x ≡ y

-- At most one entity has a reference of the record, as far as ids go.
abbrev pub IsSole : Scope → CanonicalEntity → List NodeRow → Type 0
IsSole c e rows =
    let found_by = matches c e.type (normalize_refs e.external_refs) in
    (x y : NodeRow)
    → Memᴰ x rows
    → Memᴰ y rows
    → found_by x ≡ true
    → found_by y ≡ true
    → x.id ≡ y.id

-- A row of the graph with that id and all the references.
abbrev pub IsKept : List ExternalRef → Graph → String → NodeRow → Type 0
IsKept refs g id row =
    Memᴰ row g.entities
    × (row.id ≡ id)
    × ((x : ExternalRef) → has x refs ≡ true → has x row.external_refs ≡ true)

-- A row after an UPDATE is a row before it, changed if it was selected.
mem-update_where {ℓ} :
    {A : Type ℓ} (q : A → Bool) (f : A → A) (xs : List A) {x : A}
    → Memᴰ x (update_where q f xs)
    → (y : A) × Memᴰ y xs × (x ≡ (if q y then f y else y))
mem-update_where q f [] m = elim m [ ]
mem-update_where q f (y ∷ ys) m =
    ⊎_elim (λ e. (y, Memᴰ.head refl, e))
      (λ n. let (z, k, e) = mem-update_where q f ys n in (z, Memᴰ.tail k, e)) (Memᴰ.cases_cons m)

update_where-mem {ℓ} :
    {A : Type ℓ} (q : A → Bool) (f : A → A) (xs : List A) {y : A}
    → Memᴰ y xs
    → Memᴰ (if q y then f y else y) (update_where q f xs)
update_where-mem q f [] m = elim m [ ]
update_where-mem q f (z ∷ zs) m =
    ⊎_elim (λ e. Memᴰ.head (ap (λ x. if q x then f x else x) e))
      (λ n. Memᴰ.tail (update_where-mem q f zs n)) (Memᴰ.cases_cons m)

length-update_where {ℓ} :
    {A : Type ℓ} (q : A → Bool) (f : A → A) (xs : List A) → length (update_where q f xs) ≡ length xs
length-update_where q f [] = refl
length-update_where q f (x ∷ xs) = ap suc (length-update_where q f xs)

opened : {o : Option Attributes} → is_some o ≡ true → (a : Attributes) × (o ≡ some a)
opened {o = none} h = cc
opened {o = some a} h = (a, refl)

module _ (cipher : Cipher) (ids : Ids) (c : Scope)
    (opens : (n : ℕ) (a : Attributes)
      → is_some (cipher.open_json (cipher.seal_json n a)) ≡ true) where
  -- The rows of a result that the references find: there is one with all of them, and each has the
  -- id of the result and can be opened.
  abbrev IsSettled :
      List ExternalRef → CanonicalEntity → Result (UpsertEntityResult × Graph) → Type 0
  IsSettled refs e (err x) = Unit
  IsSettled refs e (ok p) =
      let found_by = matches c e.type refs in
      ((row : NodeRow) × (found_by row ≡ true) × IsKept refs p.1 p.0.entity_id row)
      × ((row : NodeRow)
          → Memᴰ row p.1.entities
          → found_by row ≡ true
          → (row.id ≡ p.0.entity_id)
            × ((a : Attributes) × (cipher.open_json row.attributes ≡ some a)))

  has-join_refs :
      (x : ExternalRef) (refs old : List ExternalRef)
      → has x refs ≡ true
      → has x (join_refs old refs) ≡ true
  has-join_refs x refs old h =
      let there : has x (old ++ refs) ≡ true = any-right (same_ref x) old refs h in
      ground (arith, there, has-unseen_refs x [] (old ++ refs))

  merged-IsSettled :
      (r : ExternalRef) (rs : List ExternalRef) (e : CanonicalEntity) (hit : NodeRow) (g : Graph)
      (existing : Attributes)
      → IsPrimary g.entities
      → ((x : NodeRow) → Memᴰ x g.entities → matches c e.type (r ∷ rs) x ≡ true → x.id ≡ hit.id)
      → Memᴰ hit g.entities
      → matches c e.type (r ∷ rs) hit ≡ true
      → IsSettled (r ∷ rs) e (
          ok (
            record { entity_id = hit.id; created = false; previous_attributes = some existing },
            record g {
              entities =
                  update_where
                    (is_hit c hit.id)
                    (merged_row cipher ids c hit existing (r ∷ rs) e g.draws)
                    g.entities;
              draws = suc g.draws;
            },
          ))
  merged-IsSettled r rs e hit g existing primary sole m holds =
      let merged = merged_row cipher ids c hit existing (r ∷ rs) e g.draws in
      let selected : is_hit c hit.id hit ≡ true = ground (arith, holds, str_eq_iff hit.id hit.id) in
      (
        (
          merged hit,
          ground (
            arith,
            holds,
            has-join_refs r (r ∷ rs) hit.external_refs (ground (arith, same_ref_refl r)),
          ),
          (
            subst (λ x. Memᴰ x (update_where (is_hit c hit.id) merged g.entities))
                (rw selected refl) (update_where-mem (is_hit c hit.id) merged g.entities m),
            (str_eq_iff hit.id hit.id).0 (ground (arith, selected)),
            λ x h. has-join_refs x (r ∷ rs) hit.external_refs h,
          ),
        ),
        λ row n found. changed row (mem-update_where (is_hit c hit.id) merged g.entities n) found,
      )
    where
      changed :
          (row : NodeRow)
          → ((y : NodeRow) × Memᴰ y g.entities
              × (row ≡ (
                  if is_hit c hit.id y
                  then merged_row cipher ids c hit existing (r ∷ rs) e g.draws y
                  else y)))
          → matches c e.type (r ∷ rs) row ≡ true
          → (row.id ≡ hit.id) × ((a : Attributes) × (cipher.open_json row.attributes ≡ some a))
      changed row (y, k, q) found = elim (Bool-cases (is_hit c hit.id y)) [
        | inl s ↦
            let same : row ≡ merged_row cipher ids c hit existing (r ∷ rs) e g.draws y =
              rw s at q in
            subst
              (λ x. (x.id ≡ hit.id) × ((a : Attributes) × (cipher.open_json x.attributes ≡ some a)))
              (sym same)
              (
                (str_eq_iff y.id hit.id).0 (ground (arith, s)),
                opened (opens g.draws (merge_attributes existing e.attributes)),
              )
        | inr s ↦
            let same : row ≡ y = rw s at q in
            let one : y ≡ hit =
              primary y hit k m
                (sole y k (subst (λ x. matches c e.type (r ∷ rs) x ≡ true) same found)) in
            absurd (
              cc (
                s,
                subst (λ x. is_hit c hit.id x ≡ true) (sym one)
                    (ground (arith, holds, str_eq_iff hit.id hit.id)),
              ))
      ]

  merge_hit-IsSettled :
      (r : ExternalRef) (rs : List ExternalRef) (e : CanonicalEntity) (hit : NodeRow) (g : Graph)
      → IsPrimary g.entities
      → ((x : NodeRow) → Memᴰ x g.entities → matches c e.type (r ∷ rs) x ≡ true → x.id ≡ hit.id)
      → Memᴰ hit g.entities
      → matches c e.type (r ∷ rs) hit ≡ true
      → IsSettled (r ∷ rs) e (merge_hit cipher ids c (r ∷ rs) e hit g)
  unfolding merge_hit
  merge_hit-IsSettled r rs e hit g primary sole m holds =
      elim (Option-cases (cipher.open_json hit.attributes)) [
        | inl q ↦ rw (q, merge_hit) tt
        | inr (existing, q) ↦
            rw (q, merge_hit) (merged-IsSettled r rs e hit g existing primary sole m holds)
      ]

  insert_row-IsSettled :
      (r : ExternalRef) (rs : List ExternalRef) (e : CanonicalEntity) (g : Graph)
      → filter (matches c e.type (r ∷ rs)) g.entities ≡ []
      → IsSettled (r ∷ rs) e (insert_row cipher ids c (r ∷ rs) e g)
  unfolding insert_row
  insert_row-IsSettled r rs e g h =
      let row = new_row cipher ids c (r ∷ rs) e g.draws in
      let found_by = matches c e.type (r ∷ rs) in
      (
        (
          row,
          ground (
            arith,
            same_ref_refl r,
            str_eq_iff c.tenant_id c.tenant_id,
            str_eq_iff c.engagement_id c.engagement_id,
            str_eq_iff (type_name e.type) (type_name e.type),
          ),
          (Memᴰ.append_right g.entities (Memᴰ.head refl), refl, λ x k. k),
        ),
        λ x m found.
            ⊎_elim
              (λ old.
                let none_ : Memᴰ x [] =
                  subst (λ xs. Memᴰ x xs) h
                    ((mem-filter_iff found_by x g.entities).1 (old, found)) in
                elim none_ [ ])
              (λ n.
                ⊎_elim
                  (λ q.
                    subst
                      (λ y.
                        (y.id ≡ row.id)
                        × ((a : Attributes) × (cipher.open_json y.attributes ≡ some a)))
                      (sym q) (refl, opened (opens g.draws e.attributes)))
                  (λ k. elim k [ ]) (Memᴰ.cases_cons n))
              (Memᴰ.append_cases g.entities m),
      )

  upsert_refs-IsSettled :
      (r : ExternalRef) (rs : List ExternalRef) (e : CanonicalEntity) (g : Graph)
      → IsPrimary g.entities
      → ((x y : NodeRow)
          → Memᴰ x g.entities
          → Memᴰ y g.entities
          → matches c e.type (r ∷ rs) x ≡ true
          → matches c e.type (r ∷ rs) y ≡ true
          → x.id ≡ y.id)
      → IsSettled (r ∷ rs) e (upsert_refs cipher ids c (r ∷ rs) e g)
  unfolding upsert_refs
  upsert_refs-IsSettled r rs e g primary sole =
      let found_by = matches c e.type (r ∷ rs) in
      elim (Option-cases (limit_one ids found_by g)) [
        | inl q ↦
            rw (q, upsert_refs) (insert_row-IsSettled r rs e g (limit_one-none ids found_by g q))
        | inr (hit, q) ↦
            let (m, holds) = limit_one_lem ids found_by g hit q in
            rw (q, upsert_refs)
              (merge_hit-IsSettled r rs e hit g primary (λ x k f. sole x hit k m f holds) m holds)
      ]

  -- What a second upsert of the record comes to.
  abbrev IsRepeated : CanonicalEntity → Result (UpsertEntityResult × Graph) → Type 0
  IsRepeated e (err x) = Unit
  IsRepeated e (ok p) =
      (v : UpsertEntityResult) × (h : Graph) × (upsert_entity_by_ref cipher ids c e p.1 ≡ ok (v, h))
      × (v.entity_id ≡ p.0.entity_id)
      × (v.created ≡ false)
      × (length h.entities ≡ length p.1.entities)
      × ((row : NodeRow) × IsKept (normalize_refs e.external_refs) p.1 p.0.entity_id row)

  -- The graph after a second upsert that comes to a row.
  merged_again-IsRepeated :
      (r : ExternalRef) (rs : List ExternalRef) (e : CanonicalEntity) (u : UpsertEntityResult)
      (g : Graph) (row : NodeRow) (a : Attributes)
      → normalize_refs e.external_refs ≡ r ∷ rs
      → limit_one ids (matches c e.type (r ∷ rs)) g ≡ some row
      → row.id ≡ u.entity_id
      → cipher.open_json row.attributes ≡ some a
      → (kept : NodeRow) → IsKept (normalize_refs e.external_refs) g u.entity_id kept
      → IsRepeated e (ok (u, g))
  unfolding upsert_entity_by_ref upsert_refs merge_hit
  merged_again-IsRepeated r rs e u g row a k found same opens_to kept all_refs =
      let merged = merged_row cipher ids c row a (r ∷ rs) e g.draws in
      (
        record { entity_id = row.id; created = false; previous_attributes = some a },
        record g {
          entities = update_where (is_hit c row.id) merged g.entities;
          draws = suc g.draws;
        },
        rw (k, upsert_entity_by_ref, found, upsert_refs, opens_to, merge_hit) refl,
        same,
        refl,
        length-update_where (is_hit c row.id) merged g.entities,
        (kept, all_refs),
      )

  settled-IsRepeated :
      (r : ExternalRef) (rs : List ExternalRef) (e : CanonicalEntity)
      (res : Result (UpsertEntityResult × Graph))
      → normalize_refs e.external_refs ≡ r ∷ rs
      → IsSettled (r ∷ rs) e res
      → IsRepeated e res
  settled-IsRepeated r rs e (err x) k h = tt
  settled-IsRepeated r rs e (ok (u, g)) k ((there, holds, kept), all_rows) =
      let found_by = matches c e.type (r ∷ rs) in
      elim (Option-cases (limit_one ids found_by g)) [
        | inl q ↦
            let none_ : Memᴰ there [] =
              subst (λ xs. Memᴰ there xs) (limit_one-none ids found_by g q)
                ((mem-filter_iff found_by there g.entities).1 (kept.0, holds)) in
            elim none_ [ ]
        | inr (row, q) ↦
            let (n, found) = limit_one_lem ids found_by g row q in
            let (same, (a, opens_to)) = all_rows row n found in
            merged_again-IsRepeated r rs e u g row a k q same opens_to there
              (subst (λ refs. IsKept refs g u.entity_id there) (sym k) kept)
      ]

  upsert_entity_by_ref-IsRepeated :
      (e : CanonicalEntity) (g : Graph)
      → IsPrimary g.entities
      → IsSole c e g.entities
      → IsRepeated e (upsert_entity_by_ref cipher ids c e g)
  unfolding upsert_entity_by_ref
  upsert_entity_by_ref-IsRepeated e g primary sole =
      elim (List-cases (normalize_refs e.external_refs)) [
        | inl q ↦ rw (q, upsert_entity_by_ref) tt
        | inr (r, rs, q) ↦
            let step : upsert_entity_by_ref cipher ids c e g
                ≡ upsert_refs cipher ids c (r ∷ rs) e g =
              rw (q, upsert_entity_by_ref) refl in
            subst (IsRepeated e) (sym step) (
              settled-IsRepeated r rs e (upsert_refs cipher ids c (r ∷ rs) e g) q (
                upsert_refs-IsSettled r rs e g primary (λ x y m n f h.
                  sole x y m n (subst (λ refs. matches c e.type refs x ≡ true) (sym q) f)
                    (subst (λ refs. matches c e.type refs y ≡ true) (sym q) h))))
      ]

  -- When ids are a primary key, sealed attributes can be opened, and at most one entity of the type
  -- and the scope has a reference of the record, an upsert that succeeds leaves all references of
  -- the record on the row of its entity and can be repeated, whichever rows the queries return: the
  -- second one succeeds too, comes to the same entity, does not create, and adds no row.
  pub upsert_entity_by_ref_again :
      (e : CanonicalEntity) (g : Graph) (u : UpsertEntityResult) (after : Graph)
      → IsPrimary g.entities
      → IsSole c e g.entities
      → upsert_entity_by_ref cipher ids c e g ≡ ok (u, after)
      → (v : UpsertEntityResult) × (h : Graph) × (upsert_entity_by_ref cipher ids c e after
          ≡ ok (v, h))
        × (v.entity_id ≡ u.entity_id)
        × (v.created ≡ false)
        × (length h.entities ≡ length after.entities)
        × ((row : NodeRow) × IsKept (normalize_refs e.external_refs) after u.entity_id row)
  upsert_entity_by_ref_again e g u after primary sole q =
      subst (IsRepeated e) q (upsert_entity_by_ref-IsRepeated e g primary sole)
