-- ===== src/Tenancy/BreakGlass/PrimaryKey.antt =====
-- The ids of the grants stay distinct, so that an UPDATE by id touches the row that was read.
use ai_de.Common.{
  String, ◌≡◌, refl, ◌∙◌, ap, subst, inl, inr, Bool, true, false, some, List, [], ◌∷◌, ◌++◌, arith,
  any, find, Bool-cases, str_eq, str_eq_iff, any-append, Memᴰ,
}
use mathlib.Core.List.Memᴰ
use mathlib.Core.Option.{some-injective}
use ai_de.Tenancy.{GrantRow, update_where}
use ai_de.Tenancy.BreakGlass.{is_grant}

-- The primary key of the table: no two grants have the same id.
abbrev pub IsKeyed : List GrantRow → Type 0
IsKeyed [] = Unit
IsKeyed (g ∷ gs) = (any (λ h. str_eq h.id g.id) gs ≡ false) × IsKeyed gs

module _ (p : GrantRow → Bool) (f : GrantRow → GrantRow)
    (keeps : (x : GrantRow) → (f x).id ≡ x.id) where
  any-id-update_where :
      (id : String) (xs : List GrantRow)
      → any (λ h. str_eq h.id id) (update_where p f xs) ≡ any (λ h. str_eq h.id id) xs
  any-id-update_where id [] = refl
  any-id-update_where id (x ∷ xs) = ground (arith, keeps x, any-id-update_where id xs)

  pub update_where-IsKeyed : (xs : List GrantRow) → IsKeyed xs → IsKeyed (update_where p f xs)
  update_where-IsKeyed [] h = tt
  update_where-IsKeyed (x ∷ xs) h =
      (ground (arith, keeps x, any-id-update_where x.id xs), update_where-IsKeyed xs h.1)

pub append-IsKeyed :
    (xs : List GrantRow) (g : GrantRow)
    → IsKeyed xs
    → any (λ h. str_eq h.id g.id) xs ≡ false
    → IsKeyed (xs ++ g ∷ [])
append-IsKeyed [] g h k = (refl, tt)
append-IsKeyed (x ∷ xs) g h k = (
  ground (
    arith,
    h.0,
    any-append (λ e. str_eq e.id x.id) xs (g ∷ []),
    str_eq_iff x.id g.id,
    str_eq_iff g.id x.id,
  ),
  append-IsKeyed xs g h.1 (ground (arith, str_eq_iff x.id g.id)),
)

mem-any :
    (id : String) (g : GrantRow) (xs : List GrantRow)
    → Memᴰ g xs
    → g.id ≡ id
    → any (λ h. str_eq h.id id) xs ≡ true
mem-any id g [] m e = elim m [ ]
mem-any id g (x ∷ xs) (Memᴰ.head q) e =
    ground (arith, str_eq_iff x.id id, ap (λ (y : GrantRow). y.id) q)
mem-any id g (x ∷ xs) (Memᴰ.tail m) e = ground (arith, mem-any id g xs m e)

-- The primary key makes the row that the SELECT locks the only one that the UPDATE can touch.
pub find_unique :
    (tenant id : String) (g x : GrantRow) (xs : List GrantRow)
    → IsKeyed xs
    → find (is_grant tenant id) xs ≡ some g
    → Memᴰ x xs
    → is_grant tenant id x ≡ true
    → x ≡ g
find_unique tenant id g x [] h s m e = elim m [ ]
find_unique tenant id g x (y ∷ ys) h s m e = elim (Memᴰ.cases_cons m) [
  | inl q ↦
      q ∙ some-injective y g (rw (subst (λ (z : GrantRow). is_grant tenant id z ≡ true) q e) at s)
  | inr n ↦ elim (Bool-cases (is_grant tenant id y)) [
    | inl t ↦ ground (arith, h.0, mem-any y.id x ys n, str_eq_iff y.id id, str_eq_iff x.id id)
    | inr f ↦ find_unique tenant id g x ys h.1 (rw f at s) n e
  ]
]
