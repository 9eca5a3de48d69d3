-- ===== src/Review/Plan.antt =====
-- tools/review/src/github.ts: which review threads a run creates, resolves and reopens, and its
-- verdict.
pub mod Placed
pub mod Created
pub mod Outcomes
use ai_de.Common.{
  values, Entry, map_get, map_of, ℕ, String, Bool, true, false, not, ◌&&◌, ◌||◌, ◌+◌, Option, none,
  some, is_some, List, [], ◌∷◌, ◌++◌, leb, if◌then◌else◌, str_eq, contains, any, filter,
}
use ai_de.Review.{Severity, rank, Finding, ThreadInfo, KeyTexts, key_of}

-- `isDismissed`
abbrev pub is_dismissed : ThreadInfo → Bool → Bool
is_dismissed thread still_reported =
    thread.dismiss_reply || (thread.human_resolved && still_reported)

pub record StillOpen : Type 0 where
  pub finding : Finding
  pub thread : ThreadInfo

pub record ActionPlan : Type 0 where
  pub to_create : List Finding
  pub to_resolve : List ThreadInfo
  pub to_reopen : List ThreadInfo
  pub still_open : List StillOpen

-- `Math.abs(other - line) <= window`
abbrev pub within : ℕ → ℕ → ℕ → Bool
within window a b = leb a (b + window) && leb b (a + window)

-- `nearby(path, other)` for one finding
abbrev pub nearby : ℕ → Finding → Option String → Option ℕ → Bool
nearby window f (some path) (some other) = elim f.line [
  | some line ↦ str_eq path f.file && within window other line
  | none ↦ false
]
nearby window f _ _ = false

abbrev pub near_thread : ℕ → Finding → ThreadInfo → Bool
near_thread window f t = nearby window f t.path t.line

abbrev pub near_finding : ℕ → Finding → Finding → Bool
near_finding window f c = nearby window f (some c.file) c.line

abbrev pub open_threads : List ThreadInfo → List ThreadInfo
open_threads threads = filter (λ t. not t.is_resolved) threads

module _ (window : ℕ) (mine : List (Entry ThreadInfo)) (open_ones : List ThreadInfo) where
  -- A finding that no thread carries.
  unfoldable pub place_new : Finding → ActionPlan → ActionPlan
  place_new f plan =
      if any (near_thread window f) open_ones
      then plan
      else if any (near_finding window f) plan.to_create
      then plan
      else record plan { to_create = plan.to_create ++ f ∷ [] }

  -- A finding that a thread carries.
  unfoldable pub place_known : Finding → ThreadInfo → ActionPlan → ActionPlan
  place_known f t plan =
      if t.is_resolved
      then record plan { to_reopen = plan.to_reopen ++ t ∷ [] }
      else record plan { still_open = plan.still_open ++ record { finding = f; thread = t } ∷ [] }

  -- One round of the loop over the current findings.
  unfoldable pub place_one : Entry Finding → ActionPlan → ActionPlan
  place_one e plan = elim (map_get e.entry_key mine) [
    | some t ↦ place_known e.value t plan
    | none ↦ place_new e.value plan
  ]

  unfoldable pub place_all : List (Entry Finding) → ActionPlan → ActionPlan
  place_all [] plan = plan
  place_all (e ∷ es) plan = place_all es (place_one e plan)

-- Whether the silence about a thread is no evidence: its pass failed, or some pass did when the
-- thread names none.
abbrev pub pass_failed : List String → ThreadInfo → Bool
pass_failed failed t = elim t.pass [
  | some p ↦ if str_eq p "" then any (λ q. true) failed else contains p failed
  | none ↦ any (λ q. true) failed
]

-- Whether the second loop resolves a thread.
abbrev pub fixed : List String → List (Entry Finding) → Entry ThreadInfo → Bool
fixed failed current e =
    not (e.value.is_resolved || is_some (map_get e.entry_key current))
    && not (pass_failed failed e.value)

abbrev pub empty_plan : ActionPlan
empty_plan = record { to_create = []; to_resolve = []; to_reopen = []; still_open = [] }

-- `planActions`
unfoldable pub plan_actions :
    KeyTexts → ℕ → List String → List Finding → List ThreadInfo → ActionPlan
plan_actions texts window failed findings threads =
    let current = map_of (key_of texts) findings in
    let mine = map_of (λ (t : ThreadInfo). t.thread_key) threads in
    record (place_all window mine (open_threads threads) current empty_plan) {
      to_resolve = values (filter (fixed failed current) mine);
    }

pub record Verdict : Type 0 where
  pub blocking : List Finding
  pub approve : Bool

abbrev pub is_blocking : Severity → Finding → Bool
is_blocking s f = leb (rank f.severity) (rank s)

-- `computeVerdict`
unfoldable pub compute_verdict : Severity → List Finding → Verdict
compute_verdict s findings =
    let blocking = filter (is_blocking s) findings in
    record { blocking = blocking; approve = not (any (λ (f : Finding). true) blocking) }
