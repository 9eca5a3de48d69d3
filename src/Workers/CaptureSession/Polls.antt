-- ===== src/Workers/CaptureSession/Polls.antt =====
-- When the recording is taken as done, and what a capture that completes has done.
use ai_de.Common.{
  ℕ, zero, suc, ◌+◌, ◌≤◌, ◌<◌, String, ◌≡◌, ◌↔◌, refl, inl, inr, Option, none, some, or_else, arith,
  Option-cases, Bool-cases, ==_iff, ◌==◌, ◌⊎◌, Bool, true, false, text_append, sym, subst,
}
use ai_de.Workers.CaptureSession.{
  BotState, waiting, done, failed, CaptureSessionInput, Stored, CaptureSessionResult, completed,
  Failure, ChildStart, started, already_started, start_failed, Activities, Polled, ready, stopped,
  poll_loop, child_id, result_of, hand_over, capture_session_workflow,
}

-- Poll `k` is the first one that does not report a bot that waits, and it reports one that is done.
abbrev pub IsDoneAt : (ℕ → Option BotState) → ℕ → ℕ → Type 0
IsDoneAt poll i k =
    (i ≤ k) × (poll k ≡ some done) × ((j : ℕ) → i ≤ j → j < k → poll j ≡ some waiting)

poll-cases :
    (o : Option BotState)
    → (o ≡ none)
      ⊎ (o ≡ some done)
      ⊎ (o ≡ some waiting)
      ⊎ ((reason : Option String) × (o ≡ some (failed reason)))
poll-cases none = inl refl
poll-cases (some done) = inr (inl refl)
poll-cases (some waiting) = inr (inr (inl refl))
poll-cases (some (failed reason)) = inr (inr (inr (reason, refl)))

poll_loop-ready :
    (poll : ℕ → Option BotState) (left i : ℕ)
    → (poll_loop poll left i).0 ≡ ready
    → (k : ℕ) × (k < i + left) × IsDoneAt poll i k
unfolding poll_loop
poll_loop-ready poll zero i h = absurd (cc h)
poll_loop-ready poll (suc left) i h = elim (poll-cases (poll i)) [
  | inl q ↦ absurd (ground (arith, q, h))
  | inr (inl q) ↦ (i, omega arith, (omega arith, q, λ j a b. absurd (omega (arith, a, b))))
  | inr (inr (inl q)) ↦
      let (k, l, (a, b, c)) = poll_loop-ready poll left (suc i) (ground (arith, q, h)) in
      (
        k,
        omega (arith, l),
        (
          omega (arith, a),
          b,
          λ j x y. elim (Bool-cases (j == i)) [
            | inl e ↦ rw ((==_iff j i).0 e) q
            | inr e ↦ c j (ground (arith, e, x)) y
          ],
        ),
      )
  | inr (inr (inr (reason, q))) ↦ absurd (ground (arith, q, h))
]

ready-poll_loop :
    (poll : ℕ → Option BotState) (left i k : ℕ)
    → k < i + left
    → IsDoneAt poll i k
    → (poll_loop poll left i).0 ≡ ready
unfolding poll_loop
ready-poll_loop poll zero i k l d = absurd (omega (arith, l, d.0))
ready-poll_loop poll (suc left) i k l d = elim (Bool-cases (k == i)) [
  | inl e ↦ ground (arith, subst (λ (x : ℕ). poll x ≡ some done) ((==_iff k i).0 e) d.1)
  | inr e ↦
      let rest =
        ready-poll_loop poll left (suc i) k (omega (arith, l))
          (ground (arith, e, d.0), d.1, λ j a b. d.2 j (omega (arith, a)) b) in
      ground (arith, d.2 i, d.0, e, rest)
]

polls_le : (poll : ℕ → Option BotState) (left i : ℕ) → (poll_loop poll left i).1 ≤ left
unfolding poll_loop
polls_le poll zero i = omega arith
polls_le poll (suc left) i = ground (arith, polls_le poll left (suc i))

Polled-cases : (p : Polled) → (p ≡ ready) ⊎ ((f : Failure) × (p ≡ stopped f))
Polled-cases ready = inl refl
Polled-cases (stopped f) = inr (f, refl)

-- The poll loop takes the recording as done exactly when some poll within the attempts left reports
-- a bot that is done and every poll before it one that waits, and it never makes more polls than
-- the attempts left.
pub poll_loop_lem :
    (poll : ℕ → Option BotState) (left i : ℕ)
    → (((poll_loop poll left i).0 ≡ ready) ↔ ((k : ℕ) × (k < i + left) × IsDoneAt poll i k))
      × ((poll_loop poll left i).1 ≤ left)
poll_loop_lem poll left i = (
  (poll_loop-ready poll left i, λ h. let (k, l, d) = h in ready-poll_loop poll left i k l d),
  polls_le poll left i,
)

ChildStart-cases : (c : ChildStart) → (c ≡ started) ⊎ (c ≡ already_started) ⊎ (c ≡ start_failed)
ChildStart-cases started = inl refl
ChildStart-cases already_started = inr (inl refl)
ChildStart-cases start_failed = inr (inr refl)

-- With a body, the extraction under the id of the source runs by now, and the result names it;
-- without one the result names none.
abbrev pub IsHandedOver :
    Activities → CaptureSessionInput → String → CaptureSessionResult → Bool → Type 0
IsHandedOver a input source r false = r.extraction_workflow_id ≡ none
IsHandedOver a input source r true =
    let child = text_append "extraction-" source in
    ((a.start_extraction child input source ≡ started)
      ⊎ (a.start_extraction child input source ≡ already_started))
    × (r.extraction_workflow_id ≡ some child)

-- What a result says of the source that was stored.
abbrev pub IsStored :
    Activities → String → CaptureSessionInput → Stored → CaptureSessionResult → Type 0
IsStored a session input stored r =
    (r.capture_session_id ≡ session)
    × (r.source_id ≡ stored.source_id)
    × (r.body_retained ≡ stored.body_retained)
    × IsHandedOver a input stored.source_id r stored.body_retained

hand_over-IsStored :
    (a : Activities) (session : String) (input : CaptureSessionInput) (stored : Stored)
    (r : CaptureSessionResult)
    → hand_over a session input stored ≡ completed r
    → IsStored a session input stored r
unfolding hand_over
hand_over-IsStored a session input stored r h = elim (Bool-cases stored.body_retained) [
  | inr b ↦
      let out : result_of session stored none ≡ r = ground (arith, b, h) in
      subst (IsStored a session input stored) out (
        refl,
        refl,
        refl,
        subst (IsHandedOver a input stored.source_id (result_of session stored none)) (sym b) refl,
      )
  | inl b ↦
      let child = child_id stored.source_id in
      let named = result_of session stored (some child) in
      let finish =
        λ (o : (a.start_extraction child input stored.source_id ≡ started)
              ⊎ (a.start_extraction child input stored.source_id ≡ already_started))
            (out : named ≡ r).
          subst (IsStored a session input stored) out (
            refl,
            refl,
            refl,
            subst (IsHandedOver a input stored.source_id named) (sym b) (o, refl),
          ) in
      elim (ChildStart-cases (a.start_extraction child input stored.source_id)) [
        | inl c ↦ finish (inl c) (ground (arith, b, c, h))
        | inr (inl c) ↦ finish (inr c) (ground (arith, b, c, h))
        | inr (inr c) ↦ absurd (ground (arith, b, c, h))
      ]
]

-- A capture that completes has scheduled a bot, has polled that bot as done within the attempts,
-- waiting before that, and has stored the transcript of that bot; the result gives the stored
-- source, and where a body was retained the extraction under the id of the source was started, now
-- or before, and is named, while without a body none is named.
pub capture_session_workflow-completed :
    (a : Activities) (session : String) (input : CaptureSessionInput) (r : CaptureSessionResult)
    → capture_session_workflow a session input ≡ completed r
    → (bot : String) × (stored : Stored) × (k : ℕ) × (a.schedule session input ≡ some bot)
      × (k < or_else input.max_poll_attempts 240)
      × IsDoneAt (a.poll bot) 0 k
      × (a.store session bot input ≡ some stored)
      × IsStored a session input stored r
unfolding capture_session_workflow
capture_session_workflow-completed a session input r h =
    elim (Option-cases (a.schedule session input)) [
      | inl q ↦ absurd (ground (arith, q, h))
      | inr (bot, q) ↦
          let attempts = or_else input.max_poll_attempts 240 in
          elim (Polled-cases (poll_loop (a.poll bot) attempts 0).0) [
            | inr (f, p) ↦ absurd (ground (arith, q, p, h))
            | inl p ↦
                let (k, l, d) = poll_loop-ready (a.poll bot) attempts 0 p in
                elim (Option-cases (a.store session bot input)) [
                  | inl s ↦ absurd (ground (arith, q, p, s, h))
                  | inr (stored, s) ↦ (
                    bot,
                    stored,
                    k,
                    q,
                    omega (arith, l),
                    d,
                    s,
                    hand_over-IsStored a session input stored r (ground (arith, q, p, s, h)),
                  )
                ]
          ]
    ]
