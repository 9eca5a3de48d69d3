-- ===== src/Review/Tests.antt =====
-- Examples: a pull request with an open thread of an earlier run, and a run that finds something
-- else. Texts stand for themselves, and every call of the command line goes through.
use text.Mathlib.TextLemmas.{nil-append, cons-append}
use ai_de.Common.{
  last_of, map_get, map_set, set_all, values, ap, suc, text_append, ◌∙◌, arith, ℕ, ◌+◌, ◌≤◌, ◌<◌,
  String, ◌≡◌, refl, ◌⊎◌, ◌↔◌, true, false, Bool, none, some, List, [], ◌∷◌, Memᴰ, All, any,
  IsApart, is_some, if◌then◌else◌, filter, str_eq,
}
use ai_de.Review.{high, low, Finding, ThreadInfo, KeyTexts, key_of}
use ai_de.Review.Plan.{
  ActionPlan, near_finding, near_thread, open_threads, pass_failed, plan_actions, is_blocking,
  place_all, place_one, place_new, place_known, compute_verdict, is_dismissed,
}
use ai_de.Review.Plan.Placed.{IsPlaced}
use ai_de.Review.Plan.Outcomes.{
  plan_actions-IsPlaced, plan_actions-created, plan_actions-to_resolve_iff,
}
use ai_de.Review.Sink.{
  Call, Gh, done, post_inline, review, approve, set_thread, set_resolved, submit_verdict,
}
use ai_de.Review.Sink.Known.{dismissed_threads, excluded, is_withdrawn}
use ai_de.Review.Sink.Emit.{
  SinkOptions, emit, before_verdict, greeted, creation, submission, withdraw_all, withdraw_one,
  acknowledge_all, create_all, create_one, count_all, resolve_one, reopen_one,
}
use ai_de.Review.Sink.Log.{run_log}
use ai_de.Review.Sink.Safety.{emit-approve, emit-post_inline, emit-reopened}
use ai_de.Review.Sink.Reviews.{is_review, is_settled, due_event, emit-review}
use ai_de.Review.Passes.{duplicates, dedupe_findings, Covers}
use ai_de.Review.Passes.Laws.{dedupe_findings_lem}
use ai_de.Review.Diff.{Chunk, truncate_diff, pack, truncate_diff_lem}

abbrev texts : KeyTexts
texts = record { digest = λ s. s; slug = λ s. s }

abbrev found : String → ℕ → Finding
found title n = record {
  severity = low;
  file = "a.ts";
  line = some n;
  title = title;
  detail = "why";
  suggestion = "";
  pass = "review";
}

abbrev thread : String → ℕ → Bool → ThreadInfo
thread title n resolved = record {
  thread_key = key_of texts (found title n);
  pass = some "review";
  path = some "a.ts";
  line = some n;
  title = title;
  detail = "why";
  thread_id = title;
  is_resolved = resolved;
  root_comment_id = n;
  noted = false;
  dismiss_reply = false;
  human_resolved = false;
  acked = false;
  retracted = false;
}

abbrev gh : Gh
gh log c = done

abbrev options : SinkOptions
options = record { blocking_severity = high; request_changes = true; failed_passes = [] }

-- One thread is fixed, another one is found again, and one finding is new.
abbrev threads : List ThreadInfo
threads = thread "old" 40 false ∷ thread "back" 80 true ∷ []

abbrev findings : List Finding
findings = found "new" 10 ∷ found "back" 80 ∷ []

abbrev the_plan : ActionPlan
the_plan = record {
  to_create = found "new" 10 ∷ [];
  to_resolve = thread "old" 40 false ∷ [];
  to_reopen = thread "back" 80 true ∷ [];
  still_open = [];
}

planning : plan_actions texts 3 [] findings threads ≡ the_plan
unfolding plan_actions place_all place_one place_new place_known map_set map_get set_all values
planning = refl

plan_actions-IsPlaced_example :
    IsPlaced 3
      (open_threads threads)
      (plan_actions texts 3 [] findings threads)
      (found "back" 80)
      (last_of (λ (t : ThreadInfo). t.thread_key) (key_of texts (found "back" 80)) threads none)
plan_actions-IsPlaced_example =
    plan_actions-IsPlaced texts 3 [] findings threads (key_of texts (found "back" 80))
      (found "back" 80) refl

plan_actions-created_example :
    IsApart (near_finding 3) [] (plan_actions texts 3 [] findings threads).to_create
    × All
        (λ f.
          (last_of (key_of texts) (key_of texts f) findings none ≡ some f)
          × (any (λ (t : ThreadInfo). str_eq t.thread_key (key_of texts f)) threads ≡ false)
          × (any (near_thread 3 f) (open_threads threads) ≡ false))
        (plan_actions texts 3 [] findings threads).to_create
plan_actions-created_example = plan_actions-created texts 3 [] findings threads

plan_actions-to_resolve_iff_example :
    let t = thread "old" 40 false in
    Memᴰ t (plan_actions texts 3 [] findings threads).to_resolve ↔ (
      (last_of (λ (u : ThreadInfo). u.thread_key) t.thread_key threads none ≡ some t)
      × (t.is_resolved ≡ false)
      × (any (λ f. str_eq (key_of texts f) t.thread_key) findings ≡ false)
      × (pass_failed [] t ≡ false))
plan_actions-to_resolve_iff_example =
    plan_actions-to_resolve_iff texts 3 [] findings threads (thread "old" 40 false)

abbrev log : List Call
log = run_log gh texts options threads true none findings []

-- The run approves.
approving : Memᴰ (review approve) log
unfolding emit before_verdict greeted creation submission withdraw_all withdraw_one acknowledge_all
    create_all create_one count_all resolve_one reopen_one set_resolved submit_verdict plan_actions
    place_all place_one place_new place_known map_set map_get set_all values excluded
    dismissed_threads compute_verdict
approving = Memᴰ.tail (Memᴰ.tail (Memᴰ.tail (Memᴰ.tail (Memᴰ.tail (Memᴰ.head refl)))))

posting : Memᴰ (post_inline (found "new" 10) (key_of texts (found "new" 10))) log
unfolding emit before_verdict greeted creation submission withdraw_all withdraw_one acknowledge_all
    create_all create_one count_all resolve_one reopen_one set_resolved submit_verdict plan_actions
    place_all place_one place_new place_known map_set map_get set_all values excluded
    dismissed_threads compute_verdict
posting = Memᴰ.head refl

reopening : Memᴰ (set_thread "back" false) log
unfolding emit before_verdict greeted creation submission withdraw_all withdraw_one acknowledge_all
    create_all create_one count_all resolve_one reopen_one set_resolved submit_verdict plan_actions
    place_all place_one place_new place_known map_set map_get set_all values excluded
    dismissed_threads compute_verdict
reopening = Memᴰ.tail (Memᴰ.tail (Memᴰ.tail (Memᴰ.head refl)))

emit-approve_example :
    (options.failed_passes ≡ [])
    × ((f : Finding)
        → Memᴰ f findings
        → excluded texts findings [] threads (key_of texts f) ≡ false
        → is_blocking options.blocking_severity f ≡ false)
emit-approve_example = emit-approve gh texts options threads true none findings [] approving

emit-post_inline_example :
    (true ≡ true)
    × Memᴰ (found "new" 10) findings
    × (key_of texts (found "new" 10) ≡ key_of texts (found "new" 10))
    × (is_some (found "new" 10).line ≡ true)
    × (any (λ (t : ThreadInfo). str_eq t.thread_key (key_of texts (found "new" 10))) threads
        ≡ false)
emit-post_inline_example =
    emit-post_inline gh texts options threads true none findings [] (found "new" 10)
      (key_of texts (found "new" 10)) posting

emit-reopened_example :
    (t : ThreadInfo) × Memᴰ t threads
    × ("back" ≡ t.thread_id)
    × (t.is_resolved ≡ true)
    × (t.retracted ≡ false)
    × (is_withdrawn [] t ≡ false)
    × (is_dismissed t true ≡ false)
    × (any (λ f. str_eq (key_of texts f) t.thread_key) findings ≡ true)
emit-reopened_example =
    emit-reopened gh texts options threads true none findings [] "back" reopening

emit-review_example : filter is_review log ≡ (
    if is_settled gh texts options threads true none findings []
    then []
    else review (due_event gh texts options threads true none findings []) ∷ [])
emit-review_example = emit-review gh texts options threads true none findings []

dedupe_findings_lem_example :
    IsApart (duplicates texts.slug) [] (dedupe_findings texts.slug findings)
    × ((k : Finding) → Memᴰ k (dedupe_findings texts.slug findings) → Memᴰ k findings)
    × ((f : Finding)
        → Memᴰ f findings
        → (k : Finding) × Memᴰ k (dedupe_findings texts.slug findings) × Covers texts.slug f k)
dedupe_findings_lem_example = dedupe_findings_lem texts.slug findings

-- A text of one byte for each character.
text_bytes : String → ℕ
text_bytes String.[] = 0
text_bytes (String.◌∷◌ c s) = suc (text_bytes s)

text_bytes-append : (a b : String) → text_bytes (text_append a b) ≡ text_bytes a + text_bytes b
unfolding text_bytes
text_bytes-append String.[] b = ap text_bytes (nil-append b) ∙ omega arith
text_bytes-append (String.◌∷◌ c s) b =
    ap text_bytes (cons-append c s b) ∙ omega (arith, text_bytes-append s b)

text_bytes-empty : text_bytes "" ≡ 0
unfolding text_bytes
text_bytes-empty = refl

-- A diff of two files of four bytes each, none of which fits a budget of three.
abbrev two_files : String → List Chunk
two_files s = record { file = "a.ts"; content = s } ∷ record { file = "b.ts"; content = s } ∷ []

truncate_diff_lem_example :
    (text_bytes (truncate_diff text_bytes 3 two_files "diff").diff ≤ 3)
    × ((c : Chunk)
        → Memᴰ c (two_files "diff")
        → 3 < text_bytes "diff"
        → Memᴰ c (pack text_bytes 3 0 (two_files "diff")).kept
          ⊎ (Memᴰ c.file (truncate_diff text_bytes 3 two_files "diff").truncated_files
              × (3
                  < text_bytes (truncate_diff text_bytes 3 two_files "diff").diff
                    + text_bytes c.content)))
truncate_diff_lem_example =
    truncate_diff_lem text_bytes 3 text_bytes-empty text_bytes-append two_files "diff"
