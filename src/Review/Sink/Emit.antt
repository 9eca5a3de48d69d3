-- ===== src/Review/Sink/Emit.antt =====
-- tools/review/src/github.ts: `GitHubSink.emit` and `priorFindings`, stage by stage.
use ai_de.Common.{
  ℕ, String, Bool, true, false, not, ◌&&◌, ◌||◌, ◌+◌, Option, none, some, is_some, or_else, List,
  [], ◌∷◌, any, filter, map, if◌then◌else◌,
}
use ai_de.Review.{Severity, Finding, ThreadInfo, Retraction, PriorFinding, KeyTexts, key_of}
use ai_de.Review.Plan.{ActionPlan, Verdict, compute_verdict}
use ai_de.Review.Sink.Known.{
  withdrawal, withdrawn_findings, dismissed_threads, live_findings, dismissed_findings, plan_of,
}
use ai_de.Review.Sink.{
  withdrawn, acknowledged, fixed, no_longer_flagged, reopened, Summary, Gh, Session, send_reply,
  set_resolved, post_comment, submit_verdict, upsert_summary, parse_prev_state, PrevState,
  PrevSummary,
}

pub record SinkOptions : Type 0 where
  pub blocking_severity : Severity
  pub request_changes : Bool
  pub failed_passes : List String

-- `this.setResolved(…)` where the result is not used
abbrev pub try_resolve : Gh → ThreadInfo → Session → Session
try_resolve gh t s = if t.is_resolved then s else (set_resolved gh t.thread_id true s).1

module _ (gh : Gh) (retractions : List Retraction) where
  unfoldable pub withdraw_one : ThreadInfo → Session → Session
  withdraw_one t s = elim (withdrawal retractions t) [
    | some reason ↦ try_resolve gh t (send_reply gh t.root_comment_id (withdrawn reason) s)
    | none ↦ s
  ]

  unfoldable pub withdraw_all : List ThreadInfo → Session → Session
  withdraw_all [] s = s
  withdraw_all (t ∷ ts) s = withdraw_all ts (withdraw_one t s)

module _ (gh : Gh) where
  unfoldable pub acknowledge_one : ThreadInfo → Session → Session
  acknowledge_one t s =
      if not t.acked && (not t.is_resolved || t.dismiss_reply)
      then try_resolve gh t (send_reply gh t.root_comment_id acknowledged s)
      else s

  unfoldable pub acknowledge_all : List ThreadInfo → Session → Session
  acknowledge_all [] s = s
  acknowledge_all (t ∷ ts) s = acknowledge_all ts (acknowledge_one t s)

  -- One new finding: whether it got a comment of its own, and the session.
  unfoldable pub create_one : KeyTexts → Finding → Session → Bool × Session
  create_one texts f s = if is_some f.line then post_comment gh f (key_of texts f) s else (false, s)

  -- The findings that got none, in their order.
  unfoldable pub create_all : KeyTexts → List Finding → Session → List Finding × Session
  create_all texts [] s = ([], s)
  create_all texts (f ∷ fs) s =
      let (posted, s') = create_one texts f s in
      let (unpositioned, s'') = create_all texts fs s' in
      (if posted then unpositioned else f ∷ unpositioned, s'')

  unfoldable pub resolve_one : ThreadInfo → Session → Bool × Session
  resolve_one t s =
      let (took, s') = set_resolved gh t.thread_id true s in
      if took
      then (true, send_reply gh t.root_comment_id fixed s')
      else if t.noted
      then (false, s')
      else (false, send_reply gh t.root_comment_id no_longer_flagged s')

  unfoldable pub reopen_one : ThreadInfo → Session → Bool × Session
  reopen_one t s =
      let (took, s') = set_resolved gh t.thread_id false s in
      if took then (true, send_reply gh t.root_comment_id reopened s') else (false, s')

-- A loop that counts the rounds that succeed.
unfoldable pub count_all :
    (ThreadInfo → Session → Bool × Session) → List ThreadInfo → Session → ℕ × Session
count_all step [] s = (0, s)
count_all step (t ∷ ts) s =
    let (took, s') = step t s in
    let (n, s'') = count_all step ts s' in (if took then n + 1 else n, s'')

-- `verdict`, which an incomplete review may not approve
abbrev pub verdict_of : SinkOptions → List Finding → Verdict
verdict_of opts live =
    let v = compute_verdict opts.blocking_severity live in
    if any (λ (p : String). true) opts.failed_passes then record v { approve = false } else v

-- `prevState.verdict !== nextVerdict`
abbrev pub verdict_changed : PrevState → Verdict → Bool
verdict_changed prev v = elim prev.verdict [
  | none ↦ true
  | some approved ↦ if approved then not v.approve else v.approve
]

module _ (gh : Gh) (texts : KeyTexts) (opts : SinkOptions) (threads : List ThreadInfo)
    (read_ok : Bool) (prev : Option PrevSummary) (findings : List Finding)
    (retractions : List Retraction) where
  abbrev pub the_plan : ActionPlan
  the_plan = plan_of texts findings retractions threads opts.failed_passes

  abbrev pub live : List Finding
  live = live_findings texts findings retractions threads

  abbrev pub the_verdict : Verdict
  the_verdict = verdict_of opts live

  abbrev pub prev_state : PrevState
  prev_state = elim prev [ none ↦ parse_prev_state none | some p ↦ parse_prev_state p.state ]

  -- Up to the acknowledgements.
  unfoldable pub greeted : Session → Session
  greeted s =
      acknowledge_all gh (dismissed_threads texts findings retractions threads)
        (withdraw_all gh retractions threads s)

  -- The new comments: none are made when the threads could not be read.
  unfoldable pub creation : Session → List Finding × Session
  creation s = if read_ok then create_all gh texts the_plan.to_create s else (the_plan.to_create, s)

  -- `if (verdictChanged || !prevState.submitted) …`
  unfoldable pub submission : Session → Bool × Session
  submission s =
      if verdict_changed prev_state the_verdict || not prev_state.submitted
      then submit_verdict gh opts.request_changes the_verdict opts.failed_passes
          (verdict_changed prev_state the_verdict) s
      else (prev_state.submitted, s)

  -- The session after the new comments.
  abbrev pub s1 : Session → Session
  s1 s = (creation (greeted s)).1

  -- The count of the threads resolved, and the session after it.
  abbrev pub resolved : Session → ℕ × Session
  resolved s = count_all (resolve_one gh) the_plan.to_resolve (s1 s)

  abbrev pub reopened_ones : Session → ℕ × Session
  reopened_ones s = count_all (reopen_one gh) the_plan.to_reopen (resolved s).1

  -- `emit` up to the verdict.
  unfoldable pub before_verdict : Session → Session
  before_verdict s = (reopened_ones s).1

  -- What the summary of a run says.
  abbrev pub summary_of : Session → Summary
  summary_of s = record {
    run = prev_state.run + 1;
    findings = live;
    dismissed = dismissed_findings texts findings retractions threads;
    withdrawn = withdrawn_findings retractions threads;
    plan = the_plan;
    resolved_this_run = (resolved s).0;
    reopened_this_run = (reopened_ones s).0;
    verdict = the_verdict;
    unpositioned = (creation (greeted s)).0;
    failed_passes = opts.failed_passes;
    submitted = (submission (before_verdict s)).0;
  }

  -- `emit`
  unfoldable pub emit : Session → Session
  emit s =
      upsert_summary gh (elim prev [ none ↦ none | some p ↦ some p.comment_id ]) (summary_of s)
        (submission (before_verdict s)).1

-- `priorFindings`: the threads that a pass is to reconsider, once they could be read
unfoldable pub prior_findings : Bool → List ThreadInfo → List PriorFinding
prior_findings read_ok threads =
    if read_ok
    then map
        (λ (t : ThreadInfo). record {
          finding_key = t.thread_key;
          pass = or_else t.pass "review";
          file = or_else t.path "(unknown)";
          line = t.line;
          title = t.title;
          detail = t.detail;
        })
        (filter
          (λ t.
            not t.is_resolved && (not t.human_resolved && (not t.dismiss_reply && not t.retracted)))
          threads)
    else []
