-- ===== src/Review/Sink/Reviews.antt =====
-- The reviews that a run of the sink submits.
use ai_de.Common.{
  any, none, some, not, ◌&&◌, filter-append, Bool, ◌≡◌, refl, true, false, Option, List, [], ◌∷◌,
  ◌++◌, subst, sym, ap, ◌∙◌, arith, filter, if◌then◌else◌, if_elim, append-nil,
}
use ai_de.Review.{Finding, ThreadInfo, Retraction, KeyTexts}
use ai_de.Review.Plan.{is_blocking, compute_verdict}
use ai_de.Review.Sink.Known.{live_findings}
use ai_de.Review.Sink.{
  ReviewEvent, approve, request_changes, comment, Call, reply, set_thread, post_inline, review, Gh,
  Session, fresh, PrevSummary, Summary,
}
use ai_de.Review.Sink.Emit.{SinkOptions}
use ai_de.Review.Sink.Trace.{before_verdict_keeps}
use ai_de.Review.Sink.Log.{
  set_resolved-log, run_summary, the_event, is_due, summary_call, ended, ready, run_log,
  run_log_lem,
}

abbrev pub is_review : Call → Bool
is_review (review e) = true
is_review _ = false

any-filter {ℓ} :
    {A : Type ℓ} (p : A → Bool) (xs : List A) → any (λ (x : A). true) (filter p xs) ≡ any p xs
any-filter p [] = refl
any-filter p (x ∷ xs) = ground (arith, any-filter p xs)

module _ (gh : Gh) (texts : KeyTexts) (opts : SinkOptions) (threads : List ThreadInfo)
    (read_ok : Bool) (prev : Option PrevSummary) (findings : List Finding)
    (retractions : List Retraction) where
  abbrev log_ : List Call
  log_ = run_log gh texts opts threads read_ok prev findings retractions

  abbrev reviews : List Call → List Call
  reviews cs = filter is_review cs

  ready-reviews : reviews (ready gh texts opts threads read_ok prev findings retractions).log ≡ []
  ready-reviews =
      before_verdict_keeps gh texts opts threads read_ok findings retractions
        (λ s. reviews s.log ≡ [])
        (λ i n s h. filter-append is_review s.log (reply i n ∷ []) ∙ ap (λ l. l ++ []) h)
        (λ f k s j h. filter-append is_review s.log (post_inline f k ∷ []) ∙ ap (λ l. l ++ []) h)
        (λ id b s j h.
          subst (λ l. reviews l ≡ []) (sym (set_resolved-log gh id b s))
            (if_elim (λ l. reviews l ≡ []) s.resolve_disabled (λ q. h)
              (λ q. filter-append is_review s.log (set_thread id b ∷ []) ∙ ap (λ l. l ++ []) h)))
        prev fresh refl

  ended-reviews :
      (s : Session)
      → reviews (ended gh texts opts threads read_ok prev findings retractions s) ≡ (
          if is_due gh texts opts threads read_ok prev findings retractions
          then review (the_event gh texts opts threads read_ok prev findings retractions) ∷ []
          else [])
  ended-reviews s = ground arith

  summary_call-reviews :
      (m : Summary)
      → reviews (summary_call gh texts opts threads read_ok prev findings retractions m ∷ []) ≡ []
  summary_call-reviews m = ground arith

  -- Some finding that is not excluded blocks.
  abbrev pub has_blocking : Bool
  has_blocking =
      any (is_blocking opts.blocking_severity) (live_findings texts findings retractions threads)

  -- An incomplete run only comments; a complete one approves unless a finding blocks.
  abbrev pub due_event : ReviewEvent
  due_event = elim opts.failed_passes [
    | p ∷ ps ↦ comment
    | [] ↦
        if has_blocking
        then (if opts.request_changes then request_changes else comment)
        else approve
  ]

  -- The verdict of the earlier summary stands: it is the same, and its review went through.
  abbrev pub stands : Bool → Bool
  stands approved = elim opts.failed_passes [
    | p ∷ ps ↦ not approved
    | [] ↦ if has_blocking then not approved else approved
  ]

  abbrev pub is_settled : Bool
  is_settled = elim prev [
    | none ↦ false
    | some p ↦ elim p.state [
      | none ↦ false
      | some m ↦ elim m.submitted [ none ↦ false | some sent ↦ sent && stands m.approved ]
    ]
  ]

  the_event-due_event :
      the_event gh texts opts threads read_ok prev findings retractions ≡ due_event
  unfolding compute_verdict
  the_event-due_event = ground (
    arith,
    any-filter (is_blocking opts.blocking_severity)
        (live_findings texts findings retractions threads),
  )

  is_due-is_settled :
      is_due gh texts opts threads read_ok prev findings retractions ≡ not is_settled
  unfolding compute_verdict
  is_due-is_settled = ground (
    arith,
    any-filter (is_blocking opts.blocking_severity)
        (live_findings texts findings retractions threads),
  )

  -- A run submits no review if the earlier summary has the same verdict and says that its review
  -- went through, and otherwise one: a comment where a pass failed, an approval where no pass
  -- failed and no finding that counts blocks, and else, as the options ask, a request for changes
  -- or a comment.
  pub emit-review : filter is_review log_ ≡ (if is_settled then [] else review due_event ∷ [])
  emit-review =
      let settled : (if is_due gh texts opts threads read_ok prev findings retractions
            then review (the_event gh texts opts threads read_ok prev findings retractions) ∷ []
            else [])
          ≡ (if is_settled then [] else review due_event ∷ []) =
        ground (arith, is_due-is_settled, the_event-due_event) in
      let before = (ready gh texts opts threads read_ok prev findings retractions).log in
      let last_ones =
        ended gh texts opts threads read_ok prev findings retractions
          (ready gh texts opts threads read_ok prev findings retractions) in
      let end_ =
        summary_call gh texts opts threads read_ok prev findings retractions
          (run_summary gh texts opts threads read_ok prev findings retractions)
        ∷ [] in
      ap reviews (run_log_lem gh texts opts threads read_ok prev findings retractions)
      ∙ filter-append is_review (before ++ last_ones) end_
      ∙ ap (λ l. l ++ reviews end_) (filter-append is_review before last_ones)
      ∙ rw
          (
            ready-reviews,
            ended-reviews (ready gh texts opts threads read_ok prev findings retractions),
            summary_call-reviews
                (run_summary gh texts opts threads read_ok prev findings retractions),
          )
          (append-nil _ ∙ settled)
