-- ===== src/Review/Passes/Laws.antt =====
-- What is left of the findings of a run, and which findings a pass can retract.
use mathlib.Core.Option.{some-injective}
use ai_de.Common.{
  zero, suc, sym, All-intro, All-map, IsApart, IsApart-snoc, any-mem, ℕ, String, ◌≡◌, refl, ◌↔◌,
  inl, inr, true, false, ◌≤◌, Option, none, some, List, [], ◌∷◌, Memᴰ, leb, get_elem?, any, if_elim,
  str_eq, arith, Option-cases, All, All-append, All-mem,
}
use mathlib.Core.List.Memᴰ
use mathlib.Core.Logic.{⊎_elim}
use ai_de.Review.{Finding, rank, Retraction, PriorFinding}
use ai_de.Review.Passes.{
  duplicates, insert_finding, sort_findings, keep_one, keep_all, dedupe_findings, RawRetraction,
  target_of, retractions_of, Covers,
}

All-zip :
    (P Q R : Finding → Type 0)
    → ((f : Finding) → P f → Q f → R f)
    → (fs : List Finding) → All P fs
    → All Q fs
    → All R fs
All-zip P Q R g [] h k = tt
All-zip P Q R g (f ∷ fs) (h, hs) (k, ks) = (g f h k, All-zip P Q R g fs hs ks)

-- In the order of severity.
abbrev IsSorted : List Finding → Type 0
IsSorted [] = Unit
IsSorted (f ∷ fs) = All (λ g. rank f.severity ≤ rank g.severity) fs × IsSorted fs

mem-insert_finding_iff :
    (f g : Finding) (gs : List Finding) → Memᴰ g (insert_finding f gs) ↔ Memᴰ g (f ∷ gs)
unfolding insert_finding
mem-insert_finding_iff f g [] = (λ m. m, λ m. m)
mem-insert_finding_iff f g (h ∷ hs) =
    if_elim (λ l. Memᴰ g l ↔ Memᴰ g (f ∷ h ∷ hs)) (leb (rank f.severity) (rank h.severity))
      {x = f ∷ h ∷ hs} {y = h ∷ insert_finding f hs} (λ q. (λ m. m, λ m. m))
      (λ q. (
        λ m.
            ⊎_elim (λ e. Memᴰ.tail (Memᴰ.head e))
              (λ n.
                ⊎_elim (λ e. Memᴰ.head e) (λ k. Memᴰ.tail (Memᴰ.tail k))
                  (Memᴰ.cases_cons ((mem-insert_finding_iff f g hs).0 n)))
              (Memᴰ.cases_cons m),
        λ m.
            ⊎_elim (λ e. Memᴰ.tail ((mem-insert_finding_iff f g hs).1 (Memᴰ.head e)))
              (λ n.
                ⊎_elim (λ e. Memᴰ.head e)
                  (λ k. Memᴰ.tail ((mem-insert_finding_iff f g hs).1 (Memᴰ.tail k)))
                  (Memᴰ.cases_cons n))
              (Memᴰ.cases_cons m),
      ))

mem-sort_findings_iff : (g : Finding) (fs : List Finding) → Memᴰ g (sort_findings fs) ↔ Memᴰ g fs
unfolding sort_findings
mem-sort_findings_iff g [] = (λ m. m, λ m. m)
mem-sort_findings_iff g (f ∷ fs) =
    let (there, back) = mem-sort_findings_iff g fs in
    let (out, into) = mem-insert_finding_iff f g (sort_findings fs) in
    (
      λ m. ⊎_elim (λ e. Memᴰ.head e) (λ n. Memᴰ.tail (there n)) (Memᴰ.cases_cons (out m)),
      λ m. ⊎_elim (λ e. into (Memᴰ.head e)) (λ n. into (Memᴰ.tail (back n))) (Memᴰ.cases_cons m),
    )

insert_finding-All :
    (P : Finding → Type 0) (f : Finding) (gs : List Finding)
    → P f
    → All P gs
    → All P (insert_finding f gs)
unfolding insert_finding
insert_finding-All P f [] h k = (h, tt)
insert_finding-All P f (g ∷ gs) h (k, ks) =
    if_elim (All P) (leb (rank f.severity) (rank g.severity)) {x = f ∷ g ∷ gs}
      {y = g ∷ insert_finding f gs} (λ q. (h, (k, ks))) (λ q. (k, insert_finding-All P f gs h ks))

insert_finding-IsSorted :
    (f : Finding) (gs : List Finding) → IsSorted gs → IsSorted (insert_finding f gs)
unfolding insert_finding
insert_finding-IsSorted f [] h = (tt, tt)
insert_finding-IsSorted f (g ∷ gs) (h, hs) =
    if_elim IsSorted (leb (rank f.severity) (rank g.severity)) {x = f ∷ g ∷ gs}
      {y = g ∷ insert_finding f gs}
      (λ q. ((rank_le q, All-map _ _ (λ k r. omega (arith, r, rank_le q)) gs h), (h, hs)))
      (λ q. (insert_finding-All _ f gs (rank_gt q) h, insert_finding-IsSorted f gs hs))
  where
    rank_le : {a b : ℕ} → leb a b ≡ true → a ≤ b
    rank_le q = ground arith

    rank_gt : {a b : ℕ} → leb a b ≡ false → b ≤ a
    rank_gt q = ground arith

sort_findings-IsSorted : (fs : List Finding) → IsSorted (sort_findings fs)
unfolding sort_findings
sort_findings-IsSorted [] = tt
sort_findings-IsSorted (f ∷ fs) =
    insert_finding-IsSorted f (sort_findings fs) (sort_findings-IsSorted fs)

module _ (slug : String → String) where
  keep_one-IsApart :
      (f : Finding) (kept : List Finding)
      → IsApart (duplicates slug) [] kept
      → IsApart (duplicates slug) [] (keep_one slug f kept)
  unfolding keep_one
  keep_one-IsApart f kept h =
      if_elim (IsApart (duplicates slug) []) (any (duplicates slug f) kept) (λ q. h)
        (λ q. IsApart-snoc (duplicates slug) [] kept f h q)

  keep_all-IsApart :
      (fs kept : List Finding)
      → IsApart (duplicates slug) [] kept
      → IsApart (duplicates slug) [] (keep_all slug fs kept)
  unfolding keep_all
  keep_all-IsApart [] kept h = h
  keep_all-IsApart (f ∷ fs) kept h =
      keep_all-IsApart fs (keep_one slug f kept) (keep_one-IsApart f kept h)

  -- What is kept stays, and comes from the findings.
  mem-keep_one : (f k : Finding) (kept : List Finding) → Memᴰ k kept → Memᴰ k (keep_one slug f kept)
  unfolding keep_one
  mem-keep_one f k kept m =
      if_elim (λ l. Memᴰ k l) (any (duplicates slug f) kept) (λ q. m)
        (λ q. Memᴰ.append_left (f ∷ []) m)

  mem-keep_all :
      (fs : List Finding) (k : Finding) (kept : List Finding)
      → Memᴰ k kept
      → Memᴰ k (keep_all slug fs kept)
  unfolding keep_all
  mem-keep_all [] k kept m = m
  mem-keep_all (f ∷ fs) k kept m =
      mem-keep_all fs k (keep_one slug f kept) (mem-keep_one f k kept m)

  keep_one-All :
      (P : Finding → Type 0) (f : Finding) (kept : List Finding)
      → P f
      → All P kept
      → All P (keep_one slug f kept)
  unfolding keep_one
  keep_one-All P f kept h hs =
      if_elim (All P) (any (duplicates slug f) kept) (λ q. hs)
        (λ q. All-append P kept (f ∷ []) hs (h, tt))

  keep_all-All :
      (P : Finding → Type 0) (fs kept : List Finding)
      → All P fs
      → All P kept
      → All P (keep_all slug fs kept)
  unfolding keep_all
  keep_all-All P [] kept h hs = hs
  keep_all-All P (f ∷ fs) kept (h, hs) ks =
      keep_all-All P fs (keep_one slug f kept) hs (keep_one-All P f kept h ks)

  keep_one-Covers :
      (f : Finding) (kept : List Finding)
      → All (λ k. rank k.severity ≤ rank f.severity) kept
      → (k : Finding) × Memᴰ k (keep_one slug f kept) × Covers slug f k
  unfolding keep_one
  keep_one-Covers f kept h =
      if_elim (λ l. (k : Finding) × Memᴰ k l × Covers slug f k) (any (duplicates slug f) kept)
        (λ q. let (k, m, d) = any-mem (duplicates slug f) kept q in (k, m, (All-mem _ m h, inr d)))
        (λ q. (f, Memᴰ.append_right kept (Memᴰ.head refl), (omega arith, inl refl)))

  keep_all-Covers :
      (fs kept : List Finding) (f : Finding)
      → IsSorted fs
      → All (λ g. All (λ k. rank k.severity ≤ rank g.severity) kept) fs
      → Memᴰ f fs
      → (k : Finding) × Memᴰ k (keep_all slug fs kept) × Covers slug f k
  unfolding keep_all
  keep_all-Covers [] kept f s h m = elim m [ ]
  keep_all-Covers (g ∷ gs) kept f (s, ss) (h, hs) m =
      let next = keep_one slug g kept in
      ⊎_elim
        (λ q. let (k, n, c) = keep_one-Covers g kept h in (k, mem-keep_all gs k next n, rw q c))
        (λ n.
          keep_all-Covers gs next f ss
            (All-zip _ _ _
              (λ d a b. keep_one-All (λ k. rank k.severity ≤ rank d.severity) g kept a b) gs s hs)
            n)
        (Memᴰ.cases_cons m)

  -- What deduplication keeps are findings of the list, none of them is a duplicate of one kept
  -- before it, and for every finding one is kept that is at least as severe and is the same or a
  -- duplicate.
  pub dedupe_findings_lem :
      (fs : List Finding)
      → IsApart (duplicates slug) [] (dedupe_findings slug fs)
        × ((k : Finding) → Memᴰ k (dedupe_findings slug fs) → Memᴰ k fs)
        × ((f : Finding)
            → Memᴰ f fs
            → (k : Finding) × Memᴰ k (dedupe_findings slug fs) × Covers slug f k)
  unfolding dedupe_findings
  dedupe_findings_lem fs = (
    keep_all-IsApart (sort_findings fs) [] tt,
    λ k m.
        All-mem (λ g. Memᴰ g fs) m
          (keep_all-All (λ g. Memᴰ g fs) (sort_findings fs) []
            (All-intro _ (sort_findings fs) (λ g n. (mem-sort_findings_iff g fs).0 n)) tt),
    λ f m.
        keep_all-Covers (sort_findings fs) [] f (sort_findings-IsSorted fs)
          (All-intro _ (sort_findings fs) (λ g n. tt)) ((mem-sort_findings_iff f fs).1 m),
  )

get_elem?-mem {ℓ} : {A : Type ℓ} (xs : List A) (i : ℕ) {x : A} → get_elem? xs i ≡ some x → Memᴰ x xs
get_elem?-mem [] i h = cc
get_elem?-mem (x ∷ xs) zero h = Memᴰ.head (sym (some-injective x _ h))
get_elem?-mem (x ∷ xs) (suc i) h = Memᴰ.tail (get_elem?-mem xs i h)

target_of-mem :
    (prior : List PriorFinding) (n : Option ℕ) {t : PriorFinding}
    → target_of prior n ≡ some t
    → Memᴰ t prior
target_of-mem prior none h = cc
target_of-mem prior (some zero) h = cc
target_of-mem prior (some (suc n)) h = get_elem?-mem prior n h

-- A retraction names a finding that the pass was given, and has a reason.
pub retractions_of-IsPrior :
    (prior : List PriorFinding) (raws : List RawRetraction)
    → All
        (λ r.
          ((p : PriorFinding) × Memᴰ p prior × (p.finding_key ≡ r.finding_key))
          × (str_eq r.reason "" ≡ false))
        (retractions_of prior raws)
unfolding retractions_of
retractions_of-IsPrior prior [] = tt
retractions_of-IsPrior prior (r ∷ rs) =
    let known =
      λ (x : Retraction). (p : PriorFinding) × Memᴰ p prior × (p.finding_key ≡ x.finding_key) in
    let rest = retractions_of-IsPrior prior rs in
    elim (Option-cases (target_of prior r.number)) [
      | inl q ↦ rw (q, retractions_of) rest
      | inr (t, q) ↦
          rw (q, retractions_of)
            (if_elim (All (λ x. known x × (str_eq x.reason "" ≡ false))) (str_eq r.reason "")
              {x = retractions_of prior rs}
              {y = record { finding_key = t.finding_key; reason = r.reason }
                ∷ retractions_of prior rs}
              (λ e. rest) (λ e. (((t, target_of-mem prior r.number q, refl), e), rest)))
    ]
