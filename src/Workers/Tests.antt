-- ===== src/Workers/Tests.antt =====
-- Examples: a text of three lines in windows of four code units.
use ai_de.Common.{
  ◌≤◌, ◌<◌, Option, some, String, ◌+◌, ◌↔◌, zero, suc, true, ℕ, ◌≡◌, refl, some, List, [], ◌∷◌,
  arith,
}
use ai_de.Workers.Chunk.{
  ChunkOptions, TranscriptChunk, chunks, chunk_transcript, chunk_loop, window_end, last_newline,
}
use ai_de.Workers.Chunk.Cover.{IsChunking, chunk_transcript-IsChunking}
use ai_de.Workers.CaptureSession.{
  BotState, waiting, done, CaptureSessionInput, Stored, started, CaptureSessionResult, completed,
  Activities, ready, poll_loop, hand_over, capture_session_workflow,
}
use ai_de.Workers.CaptureSession.Polls.{
  IsDoneAt, IsStored, poll_loop_lem, capture_session_workflow-completed,
}

abbrev text : List ℕ
text = 97 ∷ 98 ∷ 99 ∷ 100 ∷ 10 ∷ 101 ∷ 102 ∷ 10 ∷ 103 ∷ []

abbrev opts : ChunkOptions
opts = record { max_chars = some 4; overlap_chars = some 1 }

chunk_transcript-IsChunking_example :
    (cs : List TranscriptChunk) × (chunk_transcript "d" text opts ≡ chunks cs)
    × IsChunking 4 text 0 cs
chunk_transcript-IsChunking_example =
    chunk_transcript-IsChunking "d" text opts (omega arith) (omega arith)

-- The first chunk has five code units: the line break at the end of the window is taken in.
chunk_transcript_example :
    chunk_transcript "d" text opts
    ≡ chunks (
        record { ref = ("d", 0); text = 97 ∷ 98 ∷ 99 ∷ 100 ∷ 10 ∷ []; offset = 0 }
        ∷ record { ref = ("d", 1); text = 10 ∷ 101 ∷ 102 ∷ 10 ∷ []; offset = 4 }
        ∷ record { ref = ("d", 2); text = 10 ∷ 103 ∷ []; offset = 7 }
        ∷ [])
unfolding chunk_transcript chunk_loop window_end last_newline
chunk_transcript_example = refl

-- A bot that waits twice and is done at the third poll.
third : ℕ → Option BotState
third zero = some waiting
third (suc zero) = some waiting
third (suc (suc k)) = some done

poll_loop_lem_example :
    (((poll_loop third 5 0).0 ≡ ready) ↔ ((k : ℕ) × (k < 0 + 5) × IsDoneAt third 0 k))
    × ((poll_loop third 5 0).1 ≤ 5)
poll_loop_lem_example = poll_loop_lem third 5 0

abbrev input : CaptureSessionInput
input = record {
  tenant_id = "t1";
  engagement_id = "e1";
  meeting_url = "https://meet";
  join_at = "2026-01-01T00:00:00Z";
  retention_policy = "full-retention";
  max_poll_attempts = some 5;
}

abbrev activities : Activities
activities = record {
  schedule = λ session i. some "bot";
  poll = λ bot k. third k;
  store = λ session bot i. some (record { source_id = "s1"; body_retained = true });
  start_extraction = λ child i source. started;
}

abbrev result : CaptureSessionResult
result = record {
  capture_session_id = "c1";
  source_id = "s1";
  body_retained = true;
  extraction_workflow_id = some "extraction-s1";
}

captured : capture_session_workflow activities "c1" input ≡ completed result
unfolding capture_session_workflow poll_loop hand_over third
captured = refl

capture_session_workflow-completed_example :
    (bot : String) × (stored : Stored) × (k : ℕ) × (activities.schedule "c1" input ≡ some bot)
    × (k < 5)
    × IsDoneAt third 0 k
    × (activities.store "c1" bot input ≡ some stored)
    × IsStored activities "c1" input stored result
capture_session_workflow-completed_example =
    capture_session_workflow-completed activities "c1" input result captured
