-- ===== src/Review/Sink/Safety.antt =====
-- What a run of the sink never does, and how it ends.
use ai_de.Common.{
  String, Bool, ◌≡◌, refl, true, false, not, Option, none, some, is_some, List, [], ◌∷◌, ◌++◌, Memᴰ,
  subst, sym, ap, ◌∙◌, arith, mem-filter_iff, if◌then◌else◌, if_elim, All, All-append, All-mem,
  str_eq, str_eq_iff, any, ◌==◌,
}
use ai_de.Review.{Finding, ThreadInfo, Retraction, KeyTexts, key_of}
use ai_de.Review.Plan.{is_blocking, compute_verdict, is_dismissed, Verdict}
use ai_de.Review.Plan.Outcomes.{plan_actions-created, plan_actions-reopened, compute_verdict_lem}
use ai_de.Review.Sink.{
  Call, set_thread, post_inline, review, verdict_comment, Gh, Session, fresh, event_of, approve,
  PrevSummary, Summary, went_through,
}
use ai_de.Review.Sink.Known.{is_withdrawn, excluded, live_findings, live_threads}
use ai_de.Review.Sink.Emit.{SinkOptions, verdict_of}
use ai_de.Review.Sink.Trace.{IsJustified, before_verdict_keeps}
use ai_de.Review.Sink.Excluded.{mem_of_last, any-unless, any-part, admitted_lem}
use ai_de.Review.Sink.Log.{
  set_resolved-log, verdict_calls, the_event, is_due, summary_call, ready, run_log, run_log_lem,
}

approve_event :
    (request : Bool) (v : Verdict) (ps : List String)
    → approve ≡ event_of request v ps
    → v.approve ≡ true
approve_event request v ps h = ground arith

approved_lem :
    (opts : SinkOptions) (fs : List Finding)
    → (verdict_of opts fs).approve ≡ true
    → (any (λ (p : String). true) opts.failed_passes ≡ false)
      × ((compute_verdict opts.blocking_severity fs).approve ≡ true)
approved_lem opts fs h = ground arith

no_failed : (ps : List String) → any (λ p. true) ps ≡ false → ps ≡ []
no_failed [] h = refl
no_failed (p ∷ ps) h = cc

-- A predicate on calls holds of all of a list that grows.
All-snoc : (P : Call → Type 0) (cs : List Call) (c : Call) → All P cs → P c → All P (cs ++ c ∷ [])
All-snoc P cs c h k = All-append P cs (c ∷ []) h (k, tt)

module _ (gh : Gh) (texts : KeyTexts) (opts : SinkOptions) (threads : List ThreadInfo)
    (read_ok : Bool) (prev : Option PrevSummary) (findings : List Finding)
    (retractions : List Retraction) where
  abbrev Justified : Call → Type 0
  Justified c = IsJustified gh texts opts threads read_ok findings retractions c

  abbrev log_ : List Call
  log_ = run_log gh texts opts threads read_ok prev findings retractions

  ready-Justified :
      All Justified (ready gh texts opts threads read_ok prev findings retractions).log
  ready-Justified =
      before_verdict_keeps gh texts opts threads read_ok findings retractions
        (λ s. All Justified s.log) (λ i n s h. All-snoc Justified s.log _ h tt)
        (λ f k s j h. All-snoc Justified s.log _ h j)
        (λ id b s j h. subst (All Justified) (sym (set_resolved-log gh id b s)) (
          if_elim (All Justified) s.resolve_disabled (λ q. h)
            (λ q. All-snoc Justified s.log _ h j)))
        prev fresh tt

  verdict_calls-Justified :
      (b : Bool) (s : Session)
      → All Justified
          (verdict_calls gh (the_event gh texts opts threads read_ok prev findings retractions) b s)
  verdict_calls-Justified b s = (
    refl,
    if_elim (All Justified)
        (went_through
          (gh s.log (review (the_event gh texts opts threads read_ok prev findings retractions))))
        {x = []} {y = if b then verdict_comment ∷ [] else []} (λ q. tt)
        (λ q.
          if_elim (All Justified) b {x = verdict_comment ∷ []} {y = []} (λ r. (tt, tt)) (λ r. tt)),
  )

  summary_call-Justified :
      (m : Summary)
      → Justified (summary_call gh texts opts threads read_ok prev findings retractions m)
  summary_call-Justified m =
      elim prev
        as (λ o. Justified (summary_call gh texts opts threads read_ok o findings retractions m)) [
          | none ↦ tt
          | some p ↦ if_elim Justified (p.comment_id == 0) (λ q. tt) (λ q. tt)
        ]

  run_log-Justified : All Justified log_
  run_log-Justified =
      subst (All Justified)
        (sym (run_log_lem gh texts opts threads read_ok prev findings retractions))
        (All-snoc Justified _ _
          (All-append Justified (ready gh texts opts threads read_ok prev findings retractions).log
            _ ready-Justified
            (if_elim (All Justified)
              (is_due gh texts opts threads read_ok prev findings retractions)
              (λ q.
                verdict_calls-Justified _
                  (ready gh texts opts threads read_ok prev findings retractions))
              (λ q. tt)))
          (summary_call-Justified _))

  justified : {c : Call} → Memᴰ c log_ → Justified c
  justified m = All-mem Justified m run_log-Justified

  -- A run that submits an approving review had no failed pass, and none of its findings whose key
  -- is not excluded is at or above the blocking severity, whatever the command line answers.
  pub emit-approve :
      Memᴰ (review approve) log_
      → (opts.failed_passes ≡ [])
        × ((f : Finding)
            → Memᴰ f findings
            → excluded texts findings retractions threads (key_of texts f) ≡ false
            → is_blocking opts.blocking_severity f ≡ false)
  emit-approve m =
      let live = live_findings texts findings retractions threads in
      let v = verdict_of opts live in
      let approved : v.approve ≡ true =
        approve_event opts.request_changes v opts.failed_passes (justified m) in
      let (complete, passed) = approved_lem opts live approved in
      (
        no_failed opts.failed_passes complete,
        λ f n e. (compute_verdict_lem opts.blocking_severity live).0 passed f (
            (mem-filter_iff
                (λ g. not (excluded texts findings retractions threads (key_of texts g))) f
                findings).1
              (n, ground (arith, e))),
      )

  -- A run posts a comment only when the threads could be read, for a finding of the run that has a
  -- line, under the key of that finding, and only if no thread carries the key.
  pub emit-post_inline :
      (f : Finding) (k : String)
      → Memᴰ (post_inline f k) log_
      → (read_ok ≡ true)
        × Memᴰ f findings
        × (k ≡ key_of texts f)
        × (is_some f.line ≡ true)
        × (any (λ (t : ThreadInfo). str_eq t.thread_key k) threads ≡ false)
  emit-post_inline f k m =
      let live = live_findings texts findings retractions threads in
      let live_ts = live_threads texts findings retractions threads in
      let ex = excluded texts findings retractions threads in
      let (ok_, made, kq, lq) = justified m in
      let (found, free, far) =
        All-mem _ made (plan_actions-created texts 3 opts.failed_passes live live_ts).1 in
      let (given, kept) =
        (mem-filter_iff (λ g. not (ex (key_of texts g))) f findings).0
          (mem_of_last (key_of texts) (key_of texts f) live found) in
      (
        ok_,
        given,
        kq,
        lq,
        ap (λ j. any (λ (t : ThreadInfo). str_eq t.thread_key j) threads) kq
            ∙ any-unless (λ (t : ThreadInfo). str_eq t.thread_key (key_of texts f))
                (λ t. not (ex t.thread_key)) threads
                (λ t q.
                  ap (λ j. not (ex j)) ((str_eq_iff t.thread_key (key_of texts f)).0 q) ∙ kept)
                free,
      )

  -- A thread that a run asks to reopen is one of the threads with that id, is resolved, still
  -- reported, and neither retracted earlier, nor withdrawn in this run, nor dismissed by a person.
  pub emit-reopened :
      (id : String)
      → Memᴰ (set_thread id false) log_
      → (t : ThreadInfo) × Memᴰ t threads
        × (id ≡ t.thread_id)
        × (t.is_resolved ≡ true)
        × (t.retracted ≡ false)
        × (is_withdrawn retractions t ≡ false)
        × (is_dismissed t true ≡ false)
        × (any (λ f. str_eq (key_of texts f) t.thread_key) findings ≡ true)
  emit-reopened id m =
      let live = live_findings texts findings retractions threads in
      let live_ts = live_threads texts findings retractions threads in
      let ex = excluded texts findings retractions threads in
      let (t, again, iq) = justified m in
      let (shut, mine, current) =
        All-mem _ again (plan_actions-reopened texts 3 opts.failed_passes live live_ts) in
      let (given, kept) =
        (mem-filter_iff (λ (u : ThreadInfo). not (ex u.thread_key)) t threads).0
          (mem_of_last (λ (u : ThreadInfo). u.thread_key) t.thread_key live_ts mine) in
      let reported =
        any-part (λ f. str_eq (key_of texts f) t.thread_key) (λ f. not (ex (key_of texts f)))
          findings current in
      let (r, w, d) = admitted_lem texts findings retractions threads t given kept reported in
      (t, given, iq, shut, r, w, d, reported)
