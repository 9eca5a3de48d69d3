-- ===== src/Review/Sink.antt =====
-- tools/review/src/github.ts: `GitHubSink`, which brings the threads of a pull request up to date
-- with a run's findings. The answers of the `gh` command line are an argument: a function of the
-- calls made so far and of the call. The texts of comments are left out, a call names what its text
-- is about; so is what is printed. The state that an earlier summary comment carries is given as the
-- parts of a match of `STATE_RE`.
pub mod Known
pub mod Emit
pub mod Trace
pub mod Safety
pub mod Reviews
pub mod Log
pub mod Excluded
use ai_de.Common.{
  Entry, ℕ, String, Bool, true, false, not, ◌&&◌, ◌||◌, ◌+◌, Option, none, some, is_some, or_else,
  List, [], ◌∷◌, ◌++◌, ◌==◌, any, if◌then◌else◌, str_eq,
}
use ai_de.Review.{Severity, Finding, ThreadInfo, Retraction, PriorFinding}
use ai_de.Review.Plan.{ActionPlan, Verdict}

-- The texts of the replies on a thread.
pub data Note : Type 0 where
  withdrawn : String → Note
  acknowledged fixed no_longer_flagged reopened : Note

pub data ReviewEvent : Type 0 where
  approve request_changes comment : ReviewEvent

-- What `renderSummary` is given.
pub record Summary : Type 0 where
  pub run : ℕ
  pub findings : List Finding
  pub dismissed : List Finding
  pub withdrawn : List Finding
  pub plan : ActionPlan
  pub resolved_this_run : ℕ
  pub reopened_this_run : ℕ
  pub verdict : Verdict
  pub unpositioned : List Finding
  pub failed_passes : List String
  pub submitted : Bool

pub data Call : Type 0 where
  reply : ℕ → Note → Call
  set_thread : String → Bool → Call
  post_inline : Finding → String → Call
  review : ReviewEvent → Call
  verdict_comment : Call
  patch_summary : ℕ → Summary → Call
  post_summary : Summary → Call

-- How a call ended: as asked, without the effect asked for, or by an error, which either names a
-- missing permission or does not.
pub data Outcome : Type 0 where
  done not_taken forbidden failed : Outcome

abbrev pub Gh : Type 0
Gh = List Call → Call → Outcome

pub record Session : Type 0 where
  pub log : List Call
  pub resolve_disabled : Bool

abbrev pub fresh : Session
fresh = record { log = []; resolve_disabled = false }

abbrev pub logged : Call → Session → Session
logged c s = record s { log = s.log ++ c ∷ [] }

-- Whether a call did not throw.
abbrev pub went_through : Outcome → Bool
went_through done = true
went_through not_taken = true
went_through forbidden = false
went_through failed = false

-- The event of a verdict: an incomplete review never requests changes.
abbrev pub event_of : Bool → Verdict → List String → ReviewEvent
event_of request v failed_passes =
    if v.approve
    then approve
    else if request && not (any (λ (p : String). true) failed_passes)
    then request_changes
    else comment

module _ (gh : Gh) where
  -- `reply`: an error is only noted.
  abbrev pub send_reply : ℕ → Note → Session → Session
  send_reply comment_id text s = logged (reply comment_id text) s

  -- `setResolved`: whether the thread ended up as asked, and the session.
  unfoldable pub set_resolved : String → Bool → Session → Bool × Session
  set_resolved thread_id resolved s =
      if s.resolve_disabled
      then (false, s)
      else (let after = logged (set_thread thread_id resolved) s in
          elim (gh s.log (set_thread thread_id resolved)) [
            | done ↦ (true, after)
            | not_taken ↦ (false, after)
            | forbidden ↦ (false, record after { resolve_disabled = true })
            | failed ↦ (false, after)
          ])

  -- `postInline`
  abbrev pub post_comment : Finding → String → Session → Bool × Session
  post_comment f k s = (went_through (gh s.log (post_inline f k)), logged (post_inline f k) s)

  -- `tryReview`
  abbrev pub try_review : ReviewEvent → Session → Bool × Session
  try_review e s = (went_through (gh s.log (review e)), logged (review e) s)

  -- `if (opts.comment) this.comment(pr, body)`
  abbrev pub comment_if : Bool → Session → Session
  comment_if b s = if b then logged verdict_comment s else s

  -- `submitVerdict`: whether a formal review went through.
  unfoldable pub submit_verdict : Bool → Verdict → List String → Bool → Session → Bool × Session
  submit_verdict request v failed_passes with_comment s =
      let (sent, after) = try_review (event_of request v failed_passes) s in
      if sent then (true, after) else (false, comment_if with_comment after)

  -- `upsertSummary`
  abbrev pub upsert_summary : Option ℕ → Summary → Session → Session
  upsert_summary none summary s = logged (post_summary summary) s
  upsert_summary (some id) summary s =
      if id == 0 then logged (post_summary summary) s else logged (patch_summary id summary) s

-- `STATE_RE` matched on a summary: the run, the verdict, and the flag if there is one.
pub record StateMatch : Type 0 where
  pub run : ℕ
  pub approved : Bool
  pub submitted : Option Bool

pub record PrevState : Type 0 where
  pub run : ℕ
  pub verdict : Option Bool
  pub submitted : Bool

-- `parsePrevState`, with the verdict as whether it approves
abbrev pub parse_prev_state : Option StateMatch → PrevState
parse_prev_state none = record { run = 0; verdict = none; submitted = false }
parse_prev_state (some m) = record {
  run = m.run;
  verdict = some m.approved;
  submitted = or_else m.submitted false;
}

-- An earlier summary comment.
pub record PrevSummary : Type 0 where
  pub comment_id : ℕ
  pub state : Option StateMatch
