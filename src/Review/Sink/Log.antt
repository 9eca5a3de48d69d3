-- ===== src/Review/Sink/Log.antt =====
-- The calls of a run of the sink, in their order.
use ai_de.Common.{
  String, Bool, ◌≡◌, refl, not, ◌||◌, Option, none, some, List, [], ◌∷◌, ◌++◌, arith, if◌then◌else◌,
  append_assoc, append-nil, ◌==◌,
}
use ai_de.Review.{Finding, ThreadInfo, Retraction, KeyTexts}
use ai_de.Review.Plan.{Verdict}
use ai_de.Review.Sink.{
  Call, set_thread, review, verdict_comment, patch_summary, post_summary, Gh, Session, fresh,
  set_resolved, submit_verdict, went_through, event_of, ReviewEvent, PrevSummary, PrevState,
  Summary, upsert_summary,
}
use ai_de.Review.Sink.Emit.{
  SinkOptions, the_verdict, prev_state, verdict_changed, submission, before_verdict, summary_of,
  emit,
}

-- The calls of setResolved.
pub set_resolved-log :
    (gh : Gh) (id : String) (b : Bool) (s : Session)
    → (set_resolved gh id b s).1.log
      ≡ (if s.resolve_disabled then s.log else s.log ++ set_thread id b ∷ [])
unfolding set_resolved
set_resolved-log gh id b s = ground arith

abbrev pub verdict_calls : Gh → ReviewEvent → Bool → Session → List Call
verdict_calls gh e with_comment s =
    review e
    ∷ (if went_through (gh s.log (review e))
        then []
        else if with_comment
        then verdict_comment ∷ []
        else [])

submit_verdict-log :
    (gh : Gh) (request : Bool) (v : Verdict) (ps : List String) (with_comment : Bool) (s : Session)
    → (submit_verdict gh request v ps with_comment s).1.log
      ≡ s.log ++ verdict_calls gh (event_of request v ps) with_comment s
unfolding submit_verdict
submit_verdict-log gh request v ps with_comment s =
    ground (arith, append_assoc s.log (review (event_of request v ps) ∷ []) (verdict_comment ∷ []))

module _ (gh : Gh) (texts : KeyTexts) (opts : SinkOptions) (threads : List ThreadInfo)
    (read_ok : Bool) (prev : Option PrevSummary) (findings : List Finding)
    (retractions : List Retraction) where
  abbrev pub run_verdict : Verdict
  run_verdict = the_verdict gh texts opts threads read_ok prev findings retractions

  abbrev pub earlier : PrevState
  earlier = prev_state gh texts opts threads read_ok prev findings retractions

  abbrev pub run_summary : Summary
  run_summary = summary_of gh texts opts threads read_ok prev findings retractions fresh

  abbrev pub the_event : ReviewEvent
  the_event = event_of opts.request_changes run_verdict opts.failed_passes

  -- Whether the verdict is to be submitted.
  abbrev pub is_due : Bool
  is_due = verdict_changed earlier run_verdict || not earlier.submitted

  -- The call that writes the summary.
  abbrev pub summary_call : Summary → Call
  summary_call m = elim prev [
    | none ↦ post_summary m
    | some p ↦ if p.comment_id == 0 then post_summary m else patch_summary p.comment_id m
  ]

  abbrev pub ended : Session → List Call
  ended s =
      if is_due then verdict_calls gh the_event (verdict_changed earlier run_verdict) s else []

  submission-log :
      (s : Session)
      → (submission gh texts opts threads read_ok prev findings retractions s).1.log
        ≡ s.log ++ ended s
  unfolding submission
  submission-log s = ground (
    arith,
    append-nil s.log,
    submit_verdict-log gh opts.request_changes run_verdict opts.failed_passes
        (verdict_changed earlier run_verdict) s,
  )

  upsert_summary-log :
      (m : Summary) (s : Session)
      → (upsert_summary gh (elim prev [ none ↦ none | some p ↦ some p.comment_id ]) m s).log
        ≡ s.log ++ summary_call m ∷ []
  upsert_summary-log m s = ground arith

  abbrev pub ready : Session
  ready = before_verdict gh texts opts threads read_ok prev findings retractions fresh

  abbrev pub run_log : List Call
  run_log = (emit gh texts opts threads read_ok prev findings retractions fresh).log

  -- The calls of a run: those before the verdict, those of the verdict, and the summary.
  pub run_log_lem : run_log ≡ (ready.log ++ ended ready) ++ summary_call run_summary ∷ []
  unfolding emit
  run_log_lem =
      rw
        (
          upsert_summary-log run_summary
              (submission gh texts opts threads read_ok prev findings retractions ready).1,
          submission-log ready,
        )
        refl
