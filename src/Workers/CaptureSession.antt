-- ===== src/Workers/CaptureSession.antt =====
-- apps/workers/src/workflows/capture-session.ts: a bot is scheduled for a meeting, polled until the
-- recording is done, and the transcript is stored and handed to the extraction. The activities and
-- the start of a child workflow are calls of the workflow service, and are parameters: `none` is an
-- activity that failed after its retries. The waits between the polls, which a signal may cut short,
-- change no result and are left out.
pub mod Polls
use ai_de.Common.{
  ℕ, zero, suc, String, Bool, true, false, Option, none, some, or_else, text_append, if◌then◌else◌,
}

pub data BotState : Type 0 where
  waiting done : BotState
  failed : Option String → BotState

pub record CaptureSessionInput : Type 0 where
  pub tenant_id : String
  pub engagement_id : String
  pub meeting_url : String
  pub join_at : String
  pub retention_policy : String
  pub max_poll_attempts : Option ℕ

pub record Stored : Type 0 where
  pub source_id : String
  pub body_retained : Bool

pub data ChildStart : Type 0 where
  started already_started start_failed : ChildStart

pub record CaptureSessionResult : Type 0 where
  pub capture_session_id : String
  pub source_id : String
  pub body_retained : Bool
  pub extraction_workflow_id : Option String

pub data Failure : Type 0 where
  activity_failed child_failed recall_capture_timeout : Failure
  recall_bot_failed : String → Failure

pub data Outcome : Type 0 where
  completed : CaptureSessionResult → Outcome
  failure : Failure → Outcome

-- `poll` gets the bot and the number of the poll.
pub record Activities : Type 0 where
  pub schedule : String → CaptureSessionInput → Option String
  pub poll : String → ℕ → Option BotState
  pub store : String → String → CaptureSessionInput → Option Stored
  pub start_extraction : String → CaptureSessionInput → String → ChildStart

pub data Polled : Type 0 where
  ready : Polled
  stopped : Failure → Polled

-- the loop over the polls, from poll `i` on with `left` attempts left; with the number of polls made
unfoldable pub poll_loop : (ℕ → Option BotState) → ℕ → ℕ → Polled × ℕ
poll_loop poll zero i = (stopped recall_capture_timeout, 0)
poll_loop poll (suc left) i =
    let (polled, more) = poll_loop poll left (suc i) in
    elim (poll i) [
      | none ↦ (stopped activity_failed, 1)
      | some s ↦ elim s [
        | done ↦ (ready, 1)
        | failed reason ↦ (stopped (recall_bot_failed (or_else reason "unknown")), 1)
        | waiting ↦ (polled, suc more)
      ]
    ]

abbrev pub child_id : String → String
child_id source = text_append "extraction-" source

abbrev pub result_of : String → Stored → Option String → CaptureSessionResult
result_of session stored child = record {
  capture_session_id = session;
  source_id = stored.source_id;
  body_retained = stored.body_retained;
  extraction_workflow_id = child;
}

-- what follows the store: the child is started where there is a body, and a child of that id that was
-- started before counts as started
unfoldable pub hand_over : Activities → String → CaptureSessionInput → Stored → Outcome
hand_over a session input stored =
    if stored.body_retained
    then elim (a.start_extraction (child_id stored.source_id) input stored.source_id) [
      | started ↦ completed (result_of session stored (some (child_id stored.source_id)))
      | already_started ↦ completed (result_of session stored (some (child_id stored.source_id)))
      | start_failed ↦ failure child_failed
    ]
    else completed (result_of session stored none)

-- `captureSessionWorkflow`, with the id that it draws
unfoldable pub capture_session_workflow : Activities → String → CaptureSessionInput → Outcome
capture_session_workflow a session input = elim (a.schedule session input) [
  | none ↦ failure activity_failed
  | some bot ↦ elim (poll_loop (a.poll bot) (or_else input.max_poll_attempts 240) 0).0 [
    | stopped f ↦ failure f
    | ready ↦ elim (a.store session bot input) [
      | none ↦ failure activity_failed
      | some stored ↦ hand_over a session input stored
    ]
  ]
]
