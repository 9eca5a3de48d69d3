-- ===== src/Graph/Picked.antt =====
-- The row that a query with LIMIT 1 and no order returns, whichever it is.
use ai_de.Common.{
  any, ap, ◌∙◌, arith, ℕ, zero, suc, Bool, ◌≡◌, refl, sym, true, none, some, List, [], ◌∷◌, Memᴰ,
  mem-filter_iff, filter,
}
use mathlib.Core.Logic.{⊎_elim}
use mathlib.Core.List.Memᴰ
use mathlib.Core.Option.{some-injective}
use ai_de.Graph.{NodeRow, Graph, Ids, row_at, limit_one}

row_at-mem {ℓ} : {A : Type ℓ} (n : ℕ) (xs : List A) (x : A) → row_at n xs ≡ some x → Memᴰ x xs
row_at-mem n [] x h = cc
row_at-mem n (y ∷ []) x h = Memᴰ.head (sym (some-injective y _ h))
row_at-mem zero (y ∷ z ∷ zs) x h = Memᴰ.head (sym (some-injective y _ h))
row_at-mem (suc n) (y ∷ z ∷ zs) x h = Memᴰ.tail (row_at-mem n (z ∷ zs) x h)

row_at-none {ℓ} : {A : Type ℓ} (n : ℕ) (xs : List A) → row_at n xs ≡ none → xs ≡ []
row_at-none n [] h = refl
row_at-none n (y ∷ []) h = cc
row_at-none zero (y ∷ z ∷ zs) h = cc
row_at-none (suc n) (y ∷ z ∷ zs) h = cc (row_at-none n (z ∷ zs) h)

-- It is a row of the table that matches.
pub limit_one_lem :
    (ids : Ids) (p : NodeRow → Bool) (g : Graph) (row : NodeRow)
    → limit_one ids p g ≡ some row
    → Memᴰ row g.entities × (p row ≡ true)
unfolding limit_one
limit_one_lem ids p g row h =
    (mem-filter_iff p row g.entities).0
      (row_at-mem (ids.pick g (filter p g.entities)) (filter p g.entities) row h)

-- No row is returned only where none matches.
pub limit_one-none :
    (ids : Ids) (p : NodeRow → Bool) (g : Graph)
    → limit_one ids p g ≡ none
    → filter p g.entities ≡ []
unfolding limit_one
limit_one-none ids p g h = row_at-none (ids.pick g (filter p g.entities)) (filter p g.entities) h

pub mem-any {ℓ} :
    {A : Type ℓ} (p : A → Bool) {xs : List A} {x : A} → Memᴰ x xs → p x ≡ true → any p xs ≡ true
mem-any p {xs = []} m h = elim m [ ]
mem-any p {xs = y ∷ ys} m h =
    ⊎_elim (λ q. let same : p y ≡ true = ap p (sym q) ∙ h in ground (arith, same))
      (λ n. let rest : any p ys ≡ true = mem-any p n h in ground (arith, rest)) (Memᴰ.cases_cons m)
