-- ===== src/Llm/Agent/Turns.antt =====
-- How long the agent loop runs, what it meters, and that its tool calls are answered.
use ai_de.Common.{
  ℕ, zero, suc, ◌+◌, ◌≤◌, String, ◌≡◌, refl, inl, inr, Bool, true, false, Option, none, some, List,
  [], ◌∷◌, ◌++◌, arith, length, if◌then◌else◌,
}
use ai_de.Llm.{Router, Request, UsageRecord, Result, Sent, sent, resolve, record_usage}
use ai_de.Llm.Metering.{Result-cases}
use ai_de.Llm.Agent.{
  stopped, is_nil, ToolCall, Called, ToolResult, Turn, Event, tool_call, tool_result, text, usage,
  Run, call_tools, text_events, after_turn, run_turns, run_agent_loop,
}

-- The usage records among the events.
pub usages : List Event → List UsageRecord
usages [] = []
usages (usage u ∷ es) = u ∷ usages es
usages (tool_call _ _ ∷ es) = usages es
usages (tool_result _ _ _ ∷ es) = usages es
usages (text _ ∷ es) = usages es

usages-append : (es fs : List Event) → usages (es ++ fs) ≡ usages es ++ usages fs
unfolding usages
usages-append [] fs = refl
usages-append (usage u ∷ es) fs = ground (arith, usages-append es fs)
usages-append (tool_call _ _ ∷ es) fs = usages-append es fs
usages-append (tool_result _ _ _ ∷ es) fs = usages-append es fs
usages-append (text _ ∷ es) fs = usages-append es fs

module _ (call_tool : String → String → Result Called) where
  usages-call_tools : (calls : List ToolCall) → usages (call_tools call_tool calls).events ≡ []
  unfolding usages call_tools
  usages-call_tools [] = refl
  usages-call_tools (c ∷ cs) = ground (arith, usages-call_tools cs)

usages-text_events : (t : String) → usages (text_events t) ≡ []
unfolding usages
usages-text_events t = ground arith

-- What holds of a run that had `left` turns to use.
abbrev pub IsMetered : ℕ → Run → Type 0
IsMetered left run =
    (run.turns ≤ left)
    × (usages run.events ≡ run.metered)
    × (run.turns ≤ 1 + length run.metered)
    × (run.failure ≡ none → run.turns ≡ length run.metered)

if-IsMetered :
    (left : ℕ) (b : Bool) (rest : Run)
    → IsMetered left rest
    → IsMetered left (if b then stopped else rest)
unfolding usages
if-IsMetered left true rest h = ground arith
if-IsMetered left false rest h = h

module _ {H : Type 0} (router : Router) (call_tool : String → String → Result Called)
    (complete_turn : Sent → Option H → List ToolResult → Result (Turn H)) where
  after_turn-IsMetered :
      (left : ℕ) (u : UsageRecord) (t : String) (calls : List ToolCall) (rest : Run)
      → IsMetered left rest
      → IsMetered (suc left) (after_turn u (text_events t) (call_tools call_tool calls) rest)
  unfolding usages
  after_turn-IsMetered left u t calls rest h = ground (
    arith,
    usages-append (text_events t) (call_tools call_tool calls).events,
    usages-append (call_tools call_tool calls).events (usage u ∷ rest.events),
    usages-append (text_events t) ((call_tools call_tool calls).events ++ (usage u ∷ rest.events)),
    usages-call_tools call_tool calls,
    usages-text_events t,
  )

  run_turns-IsMetered :
      (left : ℕ) (s : Sent) (history : Option H) (results : List ToolResult)
      → IsMetered left (run_turns router call_tool complete_turn left s history results)
  unfolding run_turns usages
  run_turns-IsMetered zero s history results = ground arith
  run_turns-IsMetered (suc left) s history results =
      elim (Result-cases (complete_turn s history results)) [
        | inl (e, q) ↦ ground (arith, q)
        | inr (turn, q) ↦
            let calls = call_tools call_tool turn.tool_calls in
            let rest =
              run_turns router call_tool complete_turn left s (some turn.history) calls.results in
            rw (q, run_turns)
              (after_turn-IsMetered left (record_usage router s.resolved turn.usage turn.latency)
                turn.text turn.tool_calls (if is_nil turn.tool_calls then stopped else rest)
                (if-IsMetered left (is_nil turn.tool_calls) rest
                  (run_turns-IsMetered left s (some turn.history) calls.results)))
      ]

-- The agent loop sends at most `max_iterations` turns; the usage records among its events are those
-- of the sink, in order; at most one turn that was sent is not metered, and none is unless the loop
-- fails.
pub run_agent_loop-IsMetered :
    {H : Type 0} (router : Router) (call_tool : String → String → Result Called)
    (complete_turn : Option (Sent → Option H → List ToolResult → Result (Turn H)))
    (max_iterations : ℕ) (request : Request)
    → IsMetered max_iterations
        (run_agent_loop router call_tool complete_turn max_iterations request)
unfolding run_agent_loop usages
run_agent_loop-IsMetered router call_tool none max_iterations request = ground arith
run_agent_loop-IsMetered router call_tool (some complete_turn) max_iterations request =
    elim (Result-cases (resolve router request)) [
      | inl (e, q) ↦ ground (arith, q)
      | inr (r, q) ↦
          rw (q, run_agent_loop)
            (run_turns-IsMetered router call_tool complete_turn max_iterations
              (sent router request r) none [])
    ]
