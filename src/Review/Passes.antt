-- ===== src/Review/Passes.antt =====
-- tools/review/src/passes.ts: the duplicates among the findings of a run, and the retractions that a
-- pass returns. The stable `sort` of the language is an insertion sort; a number that the model's
-- answer gives is an argument once it is read as a natural number, and is absent otherwise.
pub mod Laws
use ai_de.Common.{
  ℕ, zero, suc, String, ◌≡◌, refl, ◌⊎◌, inl, inr, Bool, true, false, not, ◌&&◌, ◌||◌, ◌≤◌, Option,
  none, some, List, [], ◌∷◌, ◌++◌, Memᴰ, leb, ◌==◌, ltb, get_elem?, any, any-append, if◌then◌else◌,
  if_elim, str_eq, str_eq_iff, arith, Bool-cases, ==_iff, All, All-append, All-mem,
}
use mathlib.Core.List.Memᴰ
use mathlib.Core.Logic.{⊎_elim}
use ai_de.Review.{Finding, Severity, rank, Retraction, PriorFinding}

-- `f.line != null && k.line === f.line`
abbrev pub same_line : Option ℕ → Option ℕ → Bool
same_line (some a) (some b) = a == b
same_line _ _ = false

-- Whether `f` duplicates the kept finding `k`.
abbrev pub duplicates : (String → String) → Finding → Finding → Bool
duplicates slug f k =
    str_eq k.file f.file && (same_line k.line f.line || str_eq (slug k.title) (slug f.title))

unfoldable pub insert_finding : Finding → List Finding → List Finding
insert_finding f [] = f ∷ []
insert_finding f (g ∷ gs) =
    let rest = insert_finding f gs in
    if leb (rank f.severity) (rank g.severity) then f ∷ g ∷ gs else g ∷ rest

-- `sort((a, b) => rank(a.severity) - rank(b.severity))`
unfoldable pub sort_findings : List Finding → List Finding
sort_findings [] = []
sort_findings (f ∷ fs) = insert_finding f (sort_findings fs)

module _ (slug : String → String) where
  unfoldable pub keep_one : Finding → List Finding → List Finding
  keep_one f kept = if any (duplicates slug f) kept then kept else kept ++ f ∷ []

  unfoldable pub keep_all : List Finding → List Finding → List Finding
  keep_all [] kept = kept
  keep_all (f ∷ fs) kept = keep_all fs (keep_one f kept)

  -- `dedupeFindings`
  unfoldable pub dedupe_findings : List Finding → List Finding
  dedupe_findings findings = keep_all (sort_findings findings) []

-- One retraction of a model's answer: the number of a prior finding and the reason, trimmed.
pub record RawRetraction : Type 0 where
  pub number : Option ℕ
  pub reason : String

-- `prior[n - 1]`
abbrev pub target_of : List PriorFinding → Option ℕ → Option PriorFinding
target_of prior none = none
target_of prior (some zero) = none
target_of prior (some (suc n)) = get_elem? prior n

-- The loop over the retractions in `runPass`.
unfoldable pub retractions_of : List PriorFinding → List RawRetraction → List Retraction
retractions_of prior [] = []
retractions_of prior (r ∷ rs) =
    let rest = retractions_of prior rs in
    elim (target_of prior r.number) [
      | none ↦ rest
      | some t ↦
          if str_eq r.reason ""
          then rest
          else record { finding_key = t.finding_key; reason = r.reason } ∷ rest
    ]

-- Whether a finding of a list is at least as severe as `f` and the same as it or its duplicate.
abbrev pub Covers : (String → String) → Finding → Finding → Type 0
Covers slug f k = (rank k.severity ≤ rank f.severity) × ((k ≡ f) ⊎ (duplicates slug f k ≡ true))
