-- ===== src/Review/Sink/Known.antt =====
-- tools/review/src/github.ts: what `GitHubSink.emit` derives from the findings, the retractions and
-- the threads, before it makes a call.
use ai_de.Common.{
  map_get, map_of, String, Bool, not, ◌&&◌, ◌||◌, Option, none, some, is_some, or_else, List, [],
  ◌∷◌, any, filter, map, contains, if◌then◌else◌, str_eq,
}
use ai_de.Review.{low, Finding, ThreadInfo, Retraction, KeyTexts, key_of}
use ai_de.Review.Plan.{ActionPlan, is_dismissed, plan_actions}

-- The reason for which a thread is withdrawn in this run, if it is.
abbrev pub withdrawal : List Retraction → ThreadInfo → Option String
withdrawal retractions t =
    elim (map_get t.thread_key (map_of (λ (r : Retraction). r.finding_key) retractions)) [
      | some r ↦ if str_eq r.reason "" || t.retracted then none else some r.reason
      | none ↦ none
    ]

abbrev pub is_withdrawn : List Retraction → ThreadInfo → Bool
is_withdrawn retractions t = is_some (withdrawal retractions t)

-- The finding that the summary lists for a withdrawn thread.
abbrev pub withdrawn_finding : ThreadInfo → String → Finding
withdrawn_finding t reason = record {
  severity = low;
  file = or_else t.path "(unknown)";
  line = t.line;
  title = t.title;
  detail = reason;
  suggestion = "";
  pass = or_else t.pass "review";
}

unfoldable pub withdrawn_findings : List Retraction → List ThreadInfo → List Finding
withdrawn_findings retractions [] = []
withdrawn_findings retractions (t ∷ ts) = elim (withdrawal retractions t) [
  | some reason ↦ withdrawn_finding t reason ∷ withdrawn_findings retractions ts
  | none ↦ withdrawn_findings retractions ts
]

abbrev pub keys : List ThreadInfo → List String
keys ts = map (λ (t : ThreadInfo). t.thread_key) ts

-- What a run knows of the threads it was given.
module _ (texts : KeyTexts) (findings : List Finding) (retractions : List Retraction)
    (threads : List ThreadInfo) where
  abbrev pub withdrawn_keys : List String
  withdrawn_keys = keys (filter (is_withdrawn retractions) threads)

  abbrev pub is_reported : ThreadInfo → Bool
  is_reported t = any (λ f. str_eq (key_of texts f) t.thread_key) findings

  unfoldable pub dismissed_threads : List ThreadInfo
  dismissed_threads =
      filter (λ t. not (contains t.thread_key withdrawn_keys) && is_dismissed t (is_reported t))
        threads

  abbrev pub dismissed_keys : List String
  dismissed_keys = keys dismissed_threads

  abbrev pub prior_retracted : List String
  prior_retracted = keys (filter (λ t. t.retracted) threads)

  unfoldable pub excluded : String → Bool
  excluded k =
      contains k dismissed_keys || (contains k withdrawn_keys || contains k prior_retracted)

  abbrev pub live_findings : List Finding
  live_findings = filter (λ f. not (excluded (key_of texts f))) findings

  abbrev pub dismissed_findings : List Finding
  dismissed_findings = filter (λ f. contains (key_of texts f) dismissed_keys) findings

  abbrev pub live_threads : List ThreadInfo
  live_threads = filter (λ t. not (excluded t.thread_key)) threads

  -- The plan of the run, with the default window of three lines.
  abbrev pub plan_of : List String → ActionPlan
  plan_of failed_passes = plan_actions texts 3 failed_passes live_findings live_threads
