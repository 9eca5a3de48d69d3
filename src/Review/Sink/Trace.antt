-- ===== src/Review/Sink/Trace.antt =====
-- An invariant that every justified call keeps is kept by a whole run.
use ai_de.Common.{
  if_elim, ℕ, String, Bool, ◌≡◌, refl, ◌⊎◌, inl, inr, true, false, not, ◌&&◌, ◌||◌, Option, is_some,
  List, [], ◌∷◌, Memᴰ, arith, Option-cases,
}
use ai_de.Review.{Finding, ThreadInfo, Retraction, KeyTexts, key_of}
use ai_de.Review.Plan.{ActionPlan}
use ai_de.Review.Sink.{
  Note, acknowledged, Call, reply, set_thread, post_inline, review, verdict_comment, patch_summary,
  post_summary, Gh, Session, logged, set_resolved, event_of, PrevSummary,
}
use ai_de.Review.Sink.Known.{is_withdrawn, withdrawal, dismissed_threads, plan_of, live_findings}
use ai_de.Review.Sink.Emit.{
  SinkOptions, try_resolve, withdraw_one, withdraw_all, acknowledge_one, acknowledge_all,
  create_one, create_all, resolve_one, reopen_one, count_all, verdict_of, greeted, creation,
  before_verdict,
}

module _ (gh : Gh) (texts : KeyTexts) (opts : SinkOptions) (threads : List ThreadInfo)
    (read_ok : Bool) (findings : List Finding) (retractions : List Retraction) where
  abbrev pub run_plan : ActionPlan
  run_plan = plan_of texts findings retractions threads opts.failed_passes

  -- A thread that the run has a reason to resolve.
  abbrev pub IsClosing : ThreadInfo → Type 0
  IsClosing t =
      (Memᴰ t threads × (is_withdrawn retractions t ≡ true))
      ⊎ (Memᴰ t (dismissed_threads texts findings retractions threads) ⊎ Memᴰ t run_plan.to_resolve)

  -- Why a run makes a call.
  abbrev pub IsJustified : Call → Type 0
  IsJustified (reply i n) = Unit
  IsJustified (set_thread id true) = (t : ThreadInfo) × IsClosing t × (id ≡ t.thread_id)
  IsJustified (set_thread id false) =
      (t : ThreadInfo) × Memᴰ t run_plan.to_reopen × (id ≡ t.thread_id)
  IsJustified (post_inline f k) =
      (read_ok ≡ true) × Memᴰ f run_plan.to_create × (k ≡ key_of texts f) × (is_some f.line ≡ true)
  IsJustified (review e) =
      e
      ≡ event_of opts.request_changes
          (verdict_of opts (live_findings texts findings retractions threads)) opts.failed_passes
  IsJustified verdict_comment = Unit
  IsJustified (patch_summary i m) = Unit
  IsJustified (post_summary m) = Unit

  module _ (Inv : Session → Type 0)
      (keep_reply : (i : ℕ) (n : Note) (s : Session) → Inv s → Inv (logged (reply i n) s))
      (keep_post : (f : Finding) (k : String) (s : Session)
        → IsJustified (post_inline f k)
        → Inv s
        → Inv (logged (post_inline f k) s))
      (keep_set : (id : String) (b : Bool) (s : Session)
        → IsJustified (set_thread id b)
        → Inv s
        → Inv (set_resolved gh id b s).1) where
    try_resolve_keeps :
        (t : ThreadInfo) (s : Session) → IsClosing t → Inv s → Inv (try_resolve gh t s)
    try_resolve_keeps t s j h =
        if_elim Inv t.is_resolved (λ q. h) (λ q. keep_set t.thread_id true s (t, j, refl) h)

    withdraw_one_keeps :
        (t : ThreadInfo) (s : Session)
        → Memᴰ t threads
        → Inv s
        → Inv (withdraw_one gh retractions t s)
    unfolding withdraw_one
    withdraw_one_keeps t s m h = elim (Option-cases (withdrawal retractions t)) [
      | inl q ↦ rw (q, withdraw_one) h
      | inr (r, q) ↦
          rw (q, withdraw_one)
            (try_resolve_keeps t _ (inl (m, ground (arith, q))) (keep_reply _ _ s h))
    ]

    withdraw_all_keeps :
        (ts : List ThreadInfo) (s : Session)
        → ((t : ThreadInfo) → Memᴰ t ts → Memᴰ t threads)
        → Inv s
        → Inv (withdraw_all gh retractions ts s)
    unfolding withdraw_all
    withdraw_all_keeps [] s f h = h
    withdraw_all_keeps (t ∷ ts) s f h =
        withdraw_all_keeps ts (withdraw_one gh retractions t s) (λ u m. f u (Memᴰ.tail m))
          (withdraw_one_keeps t s (f t (Memᴰ.head refl)) h)

    acknowledge_one_keeps :
        (t : ThreadInfo) (s : Session)
        → Memᴰ t (dismissed_threads texts findings retractions threads)
        → Inv s
        → Inv (acknowledge_one gh t s)
    unfolding acknowledge_one
    acknowledge_one_keeps t s m h =
        let said = logged (reply t.root_comment_id acknowledged) s in
        if_elim Inv (not t.acked && (not t.is_resolved || t.dismiss_reply))
          (λ q. try_resolve_keeps t said (inr (inl m)) (keep_reply _ _ s h)) (λ q. h)

    acknowledge_all_keeps :
        (ts : List ThreadInfo) (s : Session)
        → ((t : ThreadInfo)
            → Memᴰ t ts
            → Memᴰ t (dismissed_threads texts findings retractions threads))
        → Inv s
        → Inv (acknowledge_all gh ts s)
    unfolding acknowledge_all
    acknowledge_all_keeps [] s f h = h
    acknowledge_all_keeps (t ∷ ts) s f h =
        acknowledge_all_keeps ts (acknowledge_one gh t s) (λ u m. f u (Memᴰ.tail m))
          (acknowledge_one_keeps t s (f t (Memᴰ.head refl)) h)

    create_one_keeps :
        (f : Finding) (s : Session)
        → read_ok ≡ true
        → Memᴰ f run_plan.to_create
        → Inv s
        → Inv (create_one gh texts f s).1
    unfolding create_one
    create_one_keeps f s ok_ m h =
        if_elim (λ (p : Bool × Session). Inv p.1) (is_some f.line)
          (λ q. keep_post f (key_of texts f) s (ok_, m, refl, q) h) (λ q. h)

    create_all_keeps :
        (fs : List Finding) (s : Session)
        → read_ok ≡ true
        → ((f : Finding) → Memᴰ f fs → Memᴰ f run_plan.to_create)
        → Inv s
        → Inv (create_all gh texts fs s).1
    unfolding create_all
    create_all_keeps [] s ok_ g h = h
    create_all_keeps (f ∷ fs) s ok_ g h =
        create_all_keeps fs (create_one gh texts f s).1 ok_ (λ u m. g u (Memᴰ.tail m))
          (create_one_keeps f s ok_ (g f (Memᴰ.head refl)) h)

    resolve_one_keeps :
        (t : ThreadInfo) (s : Session)
        → Memᴰ t run_plan.to_resolve
        → Inv s
        → Inv (resolve_one gh t s).1
    unfolding resolve_one
    resolve_one_keeps t s m h =
        let r = set_resolved gh t.thread_id true s in
        let k = keep_set t.thread_id true s (t, inr (inr m), refl) h in
        if_elim (λ (p : Bool × Session). Inv p.1) r.0 (λ q. keep_reply _ _ r.1 k)
          (λ q.
            if_elim (λ (p : Bool × Session). Inv p.1) t.noted (λ e. k) (λ e. keep_reply _ _ r.1 k))

    reopen_one_keeps :
        (t : ThreadInfo) (s : Session)
        → Memᴰ t run_plan.to_reopen
        → Inv s
        → Inv (reopen_one gh t s).1
    unfolding reopen_one
    reopen_one_keeps t s m h =
        let r = set_resolved gh t.thread_id false s in
        let k = keep_set t.thread_id false s (t, m, refl) h in
        if_elim (λ (p : Bool × Session). Inv p.1) r.0 (λ q. keep_reply _ _ r.1 k) (λ q. k)

    count_all_keeps :
        (step : ThreadInfo → Session → Bool × Session) (ts : List ThreadInfo) (s : Session)
        → ((t : ThreadInfo) (u : Session) → Memᴰ t ts → Inv u → Inv (step t u).1)
        → Inv s
        → Inv (count_all step ts s).1
    unfolding count_all
    count_all_keeps step [] s g h = h
    count_all_keeps step (t ∷ ts) s g h =
        count_all_keeps step ts (step t s).1 (λ u v m. g u v (Memᴰ.tail m))
          (g t s (Memᴰ.head refl) h)

    -- The invariant holds when the verdict is about to be submitted.
    pub before_verdict_keeps :
        (prev : Option PrevSummary) (s : Session)
        → Inv s
        → Inv (before_verdict gh texts opts threads read_ok prev findings retractions s)
    unfolding before_verdict greeted creation
    before_verdict_keeps prev s h =
        let withdrawn_s = withdraw_all gh retractions threads s in
        let greeted_s = greeted gh texts opts threads read_ok prev findings retractions s in
        let hg : Inv greeted_s =
          acknowledge_all_keeps (dismissed_threads texts findings retractions threads) withdrawn_s
            (λ t m. m) (withdraw_all_keeps threads s (λ t m. m) h) in
        let hc =
          if_elim (λ (p : List Finding × Session). Inv p.1) read_ok
            (λ q. create_all_keeps run_plan.to_create greeted_s q (λ f m. m) hg) (λ q. hg) in
        count_all_keeps (reopen_one gh) run_plan.to_reopen _ (λ t u m. reopen_one_keeps t u m)
          (count_all_keeps (resolve_one gh) run_plan.to_resolve _ (λ t u m. resolve_one_keeps t u m)
            hc)
