-- ===== src/Common/Texts.antt =====
-- Texts: joining, sets of texts kept as lists, and splitting a text at a separator.
use Prim.Native.Nat.{ℕ, suc, ◌≤◌, ◌<◌}
use Prim.Native.Char.{Char, code}
use Prim.Native.String
use Prim.Native.String.{String, [], ◌∷◌}
use mathlib.Core.Path.{◌≡◌, refl, sym, ◌∙◌, ap, ap₂}
use mathlib.Core.Logic.{◌≢◌, ◌↔◌, ◌⊎◌, inr}
use mathlib.Core.Bool.{Bool, true, false, ◌||◌}
use mathlib.Core.List.{List}
use ai_de.Common.Tests.{if◌then◌else◌}
use native.Mathlib.Omega.{arith}
use text.Mathlib.Text.{◌==◌}
use text.Mathlib.TextEquality.{eq_iff}
use text.Mathlib.TextLemmas.{nil-append, cons-append, head-eq_of_cons-eq, tail-eq_of_cons-eq}

-- `a === b` on texts
abbrev pub str_eq : String → String → Bool
str_eq a b = a == b

pub str_eq_iff : (a b : String) → (str_eq a b ≡ true) ↔ (a ≡ b)
str_eq_iff a b = eq_iff a b

-- `a + b` on texts
abbrev pub text_append : String → String → String
text_append a b = String.◌++◌ a b

-- `set.has(k)`, on a set kept as the list of its members
abbrev pub contains : String → List String → Bool
contains k List.[] = false
contains k (List.◌∷◌ x xs) = str_eq x k || contains k xs

-- No character of the text has the code `c`.
abbrev pub Lacks : ℕ → String → Type 0
Lacks c [] = Unit
Lacks c (d ∷ s) = (code d ≢ c) × Lacks c s

-- A text is cut in one way at the first character that has the code of the separator.
pub split_unique :
    (sep : Char) (a b x y : String)
    → Lacks (code sep) a
    → Lacks (code sep) b
    → String.◌++◌ a (sep ∷ x) ≡ String.◌++◌ b (sep ∷ y)
    → (a ≡ b) × (x ≡ y)
split_unique sep [] [] x y ha hb e =
    (refl, tail-eq_of_cons-eq (sym (nil-append (sep ∷ x)) ∙ e ∙ nil-append (sep ∷ y)))
split_unique sep [] (d ∷ b) x y ha hb e = absurd (
    hb.0 (
      ap code
        (sym (head-eq_of_cons-eq (sym (nil-append (sep ∷ x)) ∙ e ∙ cons-append d b (sep ∷ y))))))
split_unique sep (d ∷ a) [] x y ha hb e = absurd (
    ha.0
      (ap code (head-eq_of_cons-eq (sym (cons-append d a (sep ∷ x)) ∙ e ∙ nil-append (sep ∷ y)))))
split_unique sep (c ∷ a) (d ∷ b) x y ha hb e =
    let joined = sym (cons-append c a (sep ∷ x)) ∙ e ∙ cons-append d b (sep ∷ y) in
    let rest = split_unique sep a b x y ha.1 hb.1 (tail-eq_of_cons-eq joined) in
    (ap₂ (λ (h : Char) (t : String). h ∷ t) (head-eq_of_cons-eq joined) rest.0, rest.1)

join_one : (c : Char) (s : String) → text_append (c ∷ []) s ≡ c ∷ s
join_one c s = cons-append c [] s ∙ ap (λ (r : String). c ∷ r) (nil-append s)

-- The same for texts joined by a separator of one character.
pub split_join_unique :
    (sep : Char) (a b x y : String)
    → Lacks (code sep) a
    → Lacks (code sep) b
    → text_append a (text_append (sep ∷ []) x) ≡ text_append b (text_append (sep ∷ []) y)
    → (a ≡ b) × (x ≡ y)
split_join_unique sep a b x y ha hb e =
    split_unique sep a b x y ha hb
      (sym (ap (text_append a) (join_one sep x)) ∙ e ∙ ap (text_append b) (join_one sep y))

pub contains-cons :
    (k x : String) (xs : List String)
    → (contains k (List.◌∷◌ x xs) ≡ true) ↔ ((x ≡ k) ⊎ (contains k xs ≡ true))
contains-cons k x xs = ground (arith, eq_iff x k)

-- Every member of the first set is in the second.
abbrev pub IsSubset : List String → List String → Type 0
IsSubset xs ys = (k : String) → contains k xs ≡ true → contains k ys ≡ true

-- how many of the first list are not in the second
abbrev pub unseen : List String → List String → ℕ
unseen List.[] seen = 0
unseen (List.◌∷◌ u us) seen = if contains u seen then unseen us seen else suc (unseen us seen)

pub unseen-IsSubset : (us xs ys : List String) → IsSubset xs ys → unseen us ys ≤ unseen us xs
unseen-IsSubset List.[] xs ys h = omega arith
unseen-IsSubset (List.◌∷◌ u us) xs ys h = ground (arith, h u, unseen-IsSubset us xs ys h)

pub unseen-cons :
    (us seen : List String) (k : String)
    → contains k us ≡ true
    → contains k seen ≡ false
    → unseen us (List.◌∷◌ k seen) < unseen us seen
unseen-cons List.[] seen k h n = cc
unseen-cons (List.◌∷◌ u us) seen k h n = ground (
  arith,
  eq_iff u k,
  eq_iff k u,
  unseen-cons us seen k,
  unseen-IsSubset us seen (List.◌∷◌ k seen) (λ j m. (contains-cons j k seen).1 (inr m)),
)
