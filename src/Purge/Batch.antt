-- ===== src/Purge/Batch.antt =====
-- One batch: the rows it selects, and what is left.
use ai_de.Common.{
  ℕ, zero, suc, ◌≤◌, ◌<◌, Bool, ◌≡◌, refl, sym, ap, ◌∙◌, true, false, not, ◌&&◌, ◌||◌, inl, inr,
  List, [], ◌∷◌, length, take, any, filter, map, ◌==◌, ==_iff, if◌then◌else◌, arith, List-cases,
  Memᴰ,
}
use ai_de.Tenancy.{update_where}
use ai_de.Tenancy.Engagement.Rows.{update_where-none}
use ai_de.Purge.{
  Row, EngagementRef, TablePurger, insert_id, sort_ids, is_among, in_engagement, carries_ciphertext,
  selected_ids, is_selected, blanked, purge_batch,
}

-- How many elements pass a test.
abbrev pub count {ℓ} : {A : Type ℓ} → (A → Bool) → List A → ℕ
count q [] = 0
count q (x ∷ xs) = if q x then suc (count q xs) else count q xs

pub count-none {ℓ} : {A : Type ℓ} (q : A → Bool) (xs : List A) → any q xs ≡ false → count q xs ≡ 0
count-none q [] h = refl
count-none q (x ∷ xs) h = ground (arith, count-none q xs)

pub count-length {ℓ} : {A : Type ℓ} (q : A → Bool) (xs : List A) → count q xs ≤ length xs
count-length q [] = omega arith
count-length q (x ∷ xs) = ground (arith, count-length q xs)

is_among-insert_id :
    (k i : ℕ) (js : List ℕ) → is_among (insert_id i js) k ≡ ((i == k) || is_among js k)
unfolding insert_id
is_among-insert_id k i [] = refl
is_among-insert_id k i (j ∷ js) = ground (arith, is_among-insert_id k i js)

is_among-sort_ids : (k : ℕ) (is : List ℕ) → is_among (sort_ids is) k ≡ is_among is k
unfolding sort_ids
is_among-sort_ids k [] = refl
is_among-sort_ids k (i ∷ is) =
    ground (arith, is_among-insert_id k i (sort_ids is), is_among-sort_ids k is)

-- A list that is cut short of the limit is whole.
pub take_short {ℓ} : {A : Type ℓ} (n : ℕ) (xs : List A) → length (take n xs) < n → take n xs ≡ xs
take_short zero xs h = absurd (omega (arith, h))
take_short (suc n) [] h = refl
take_short (suc n) (x ∷ xs) h = ap (λ l. x ∷ l) (take_short n xs (omega (arith, h)))

pub length-take {ℓ} : {A : Type ℓ} (n : ℕ) (xs : List A) → length (take n xs) ≤ n
length-take zero xs = omega arith
length-take (suc n) [] = omega arith
length-take (suc n) (x ∷ xs) = omega (arith, length-take n xs)

-- An UPDATE that clears what a test reads.
module _ {ℓ} {A : Type ℓ} (q sel : A → Bool) (f : A → A) (clears : (x : A) → q (f x) ≡ false) where
  count-update_where_le : (xs : List A) → count q (update_where sel f xs) ≤ count q xs
  count-update_where_le [] = omega arith
  count-update_where_le (x ∷ xs) = ground (arith, clears x, count-update_where_le xs)

  pub count-update_where_lt :
      (xs : List A)
      → any (λ x. q x && sel x) xs ≡ true
      → count q (update_where sel f xs) < count q xs
  count-update_where_lt [] h = cc
  count-update_where_lt (x ∷ xs) h =
      ground (arith, clears x, count-update_where_le xs, count-update_where_lt xs)

  pub any-update_where_all :
      (xs : List A)
      → ((x : A) → Memᴰ x xs → q x ≡ true → sel x ≡ true)
      → any q (update_where sel f xs) ≡ false
  any-update_where_all [] h = refl
  any-update_where_all (x ∷ xs) h =
      ground
        (arith, clears x, h x (Memᴰ.head refl), any-update_where_all xs (λ y m. h y (Memᴰ.tail m)))

is_among-take : (n k : ℕ) (is : List ℕ) → is_among (take n is) k ≡ true → is_among is k ≡ true
is_among-take zero k is h = cc
is_among-take (suc n) k [] h = h
is_among-take (suc n) k (i ∷ is) h = ground (arith, is_among-take n k is)

module _ {C : Type 0} (q : Row C → Bool) where
  abbrev ids_of : List (Row C) → List ℕ
  ids_of rows = map (λ (r : Row C). r.id) (filter q rows)

  among-any :
      (i : ℕ) (rows : List (Row C))
      → is_among (ids_of rows) i ≡ true
      → any (λ r. q r && (r.id == i)) rows ≡ true
  among-any i [] h = h
  among-any i (r ∷ rs) h = ground (arith, among-any i rs)

  among-mem :
      (r : Row C) (rows : List (Row C))
      → Memᴰ r rows
      → q r ≡ true
      → is_among (ids_of rows) r.id ≡ true
  among-mem r [] m h = elim m [ ]
  among-mem r (x ∷ xs) (Memᴰ.head e) h =
      let here : q x ≡ true = ap q (sym e) ∙ h in rw e ground (arith, here, ==_iff x.id x.id)
  among-mem r (x ∷ xs) (Memᴰ.tail m) h = ground (arith, among-mem r xs m h)

any-weaken {ℓ} :
    {A : Type ℓ} (p q : A → Bool) (xs : List A)
    → ((x : A) → p x ≡ true → q x ≡ true)
    → any p xs ≡ true
    → any q xs ≡ true
any-weaken p q [] f h = h
any-weaken p q (x ∷ xs) f h = ground (arith, f x, any-weaken p q xs f)

module _ {C : Type 0} (p : TablePurger C) (ref : EngagementRef)
    (clears : (c : C) → p.carries (p.blank c) ≡ false) where
  none_selected : (rows : List (Row C)) → any (is_selected p ref []) rows ≡ false
  none_selected [] = refl
  none_selected (r ∷ rs) = ground (arith, none_selected rs)

  -- A batch is one UPDATE of the ids selected.
  purge_batch_lem :
      (limit : ℕ) (rows : List (Row C))
      → purge_batch p ref limit rows ≡ record {
        purged = length (selected_ids p ref limit rows);
        rows =
            update_where (is_selected p ref (selected_ids p ref limit rows)) (blanked p ref) rows;
      }
  unfolding purge_batch
  purge_batch_lem limit rows = elim (List-cases (selected_ids p ref limit rows)) [
    | inl e ↦
        rw (e, purge_batch)
          (ap (λ (l : List (Row C)). record { purged = 0; rows = l })
            (sym
              (update_where-none (is_selected p ref []) (blanked p ref) rows (none_selected rows))))
    | inr (i, is, e) ↦ rw (e, purge_batch) refl
  ]

  blanked_clears : (r : Row C) → carries_ciphertext p ref (blanked p ref r) ≡ false
  blanked_clears r = ground (arith, clears r.columns)

  none_purged :
      (limit : ℕ) (rows : List (Row C))
      → selected_ids p ref limit rows ≡ []
      → ((purge_batch p ref limit rows).purged == 0) ≡ false
      → ⊥
  unfolding purge_batch
  none_purged limit rows e h = cc (rw (e, purge_batch) at h)

  -- A batch that purges something leaves fewer rows to purge.
  pub purge_batch-lt :
      (limit : ℕ) (rows : List (Row C))
      → ((purge_batch p ref limit rows).purged == 0) ≡ false
      → count (carries_ciphertext p ref) (purge_batch p ref limit rows).rows
        < count (carries_ciphertext p ref) rows
  unfolding selected_ids
  purge_batch-lt limit rows h =
      let q = carries_ciphertext p ref in
      let all_ids = sort_ids (map (λ (r : Row C). r.id) (filter q rows)) in
      let ids = take limit all_ids in
      let some_selected : any (λ r. q r && is_selected p ref ids r) rows ≡ true =
        elim (List-cases ids) [
          | inl e ↦ absurd (none_purged limit rows e h)
          | inr (i, is, e) ↦
              let first : is_among ids i ≡ true = rw e ground (arith, ==_iff i i) in
              let among =
                sym (is_among-sort_ids i (map (λ (r : Row C). r.id) (filter q rows)))
                ∙ is_among-take limit i all_ids first in
              any-weaken (λ r. q r && (r.id == i)) (λ r. q r && is_selected p ref ids r) rows
                (λ r k.
                  let same : r.id ≡ i = (==_iff r.id i).0 (ground (arith, k)) in
                  let there : is_among ids r.id ≡ true = ap (is_among ids) same ∙ first in
                  ground (arith, k, there))
                (among-any q i rows among)
        ] in
      rw (purge_batch_lem limit rows) (
        count-update_where_lt q (is_selected p ref ids) (blanked p ref) blanked_clears rows
          some_selected)

  -- A batch below the limit leaves nothing to purge.
  pub purge_batch-short :
      (limit : ℕ) (rows : List (Row C))
      → (purge_batch p ref limit rows).purged < limit
      → any (carries_ciphertext p ref) (purge_batch p ref limit rows).rows ≡ false
  unfolding selected_ids
  purge_batch-short limit rows h =
      let q = carries_ciphertext p ref in
      let ids_in = map (λ (r : Row C). r.id) (filter q rows) in
      let ids = take limit (sort_ids ids_in) in
      let short : length ids < limit = (rw (purge_batch_lem limit rows) at h) in
      let whole = take_short limit (sort_ids ids_in) short in
      rw (purge_batch_lem limit rows) (
        any-update_where_all q (is_selected p ref ids) (blanked p ref) blanked_clears rows (λ r m k.
          let there : is_among ids r.id ≡ true =
            ap (λ l. is_among l r.id) whole
            ∙ is_among-sort_ids r.id ids_in
            ∙ among-mem q r rows m k in
          ground (arith, k, there)))

  pub purge_batch-le :
      (limit : ℕ) (rows : List (Row C)) → (purge_batch p ref limit rows).purged ≤ limit
  unfolding selected_ids
  purge_batch-le limit rows = rw (purge_batch_lem limit rows) (length-take limit _)

  others_stay :
      (sel : Row C → Bool)
      → ((r : Row C) → sel r ≡ true → in_engagement p ref r ≡ true)
      → (rows : List (Row C))
      → filter (λ r. not (in_engagement p ref r)) (update_where sel (blanked p ref) rows)
        ≡ filter (λ r. not (in_engagement p ref r)) rows
  others_stay sel f [] = refl
  others_stay sel f (r ∷ rs) = ground (arith, f r, others_stay sel f rs)

  -- The rows of other engagements stay.
  pub purge_batch-others :
      (limit : ℕ) (rows : List (Row C))
      → filter (λ r. not (in_engagement p ref r)) (purge_batch p ref limit rows).rows
        ≡ filter (λ r. not (in_engagement p ref r)) rows
  purge_batch-others limit rows = rw (purge_batch_lem limit rows) (
      others_stay (is_selected p ref (selected_ids p ref limit rows)) (λ r k. ground (arith, k))
        rows)

filter-none {ℓ} : {A : Type ℓ} (q : A → Bool) (xs : List A) → any q xs ≡ false → filter q xs ≡ []
filter-none q [] h = refl
filter-none q (x ∷ xs) h = ground (arith, filter-none q xs)

take-none : (n : ℕ) → take {A = ℕ} n [] ≡ []
take-none zero = refl
take-none (suc n) = refl

-- With nothing to purge a batch does nothing.
pub purge_batch-none :
    {C : Type 0} (p : TablePurger C) (ref : EngagementRef) (limit : ℕ) (rows : List (Row C))
    → any (carries_ciphertext p ref) rows ≡ false
    → purge_batch p ref limit rows ≡ record { purged = 0; rows = rows }
unfolding purge_batch selected_ids sort_ids
purge_batch-none p ref limit rows h =
    let none_left : selected_ids p ref limit rows ≡ [] =
      rw (filter-none (carries_ciphertext p ref) rows h) (take-none limit) in
    rw (none_left, purge_batch) refl
