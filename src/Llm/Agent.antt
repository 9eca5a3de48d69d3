-- ===== src/Llm/Agent.antt =====
-- `runAgentLoop` of packages/llm/src/router.ts: turns with a model and calls of the tools that it asks
-- for. The generator's events, the records of the sink and the number of turns sent are the result.
-- The conversation state of the provider is a type `H` that the loop only passes on.
pub mod Turns
use ai_de.Common.{
  ℕ, zero, suc, ◌+◌, String, Bool, true, false, Option, none, some, or_else, List, [], ◌∷◌, ◌++◌,
  str_eq, if◌then◌else◌,
}
use ai_de.Llm.{
  Router, Request, Resolved, TokenUsage, UsageRecord, Error, agent_loop_unsupported, Result, ok,
  err, resolve, record_usage, Sent, sent,
}

pub record ToolCall : Type 0 where
  pub id : String
  pub name : String
  pub input : String

-- `CallToolResult`
pub record Called : Type 0 where
  pub is_error : Option Bool
  pub content : String

pub record ToolResult : Type 0 where
  pub id : String
  pub name : String
  pub is_error : Bool
  pub content : String

-- One reply of the model. `latency` is what the clock measures for the turn, its tools included.
pub record Turn (H : Type 0) : Type 0 where
  pub history : H
  pub tool_calls : List ToolCall
  pub text : String
  pub usage : TokenUsage
  pub latency : ℕ

pub data Event : Type 0 where
  tool_call : String → String → Event
  tool_result : String → Bool → String → Event
  text : String → Event
  usage : UsageRecord → Event

pub record Run : Type 0 where
  pub events : List Event
  pub metered : List UsageRecord
  pub turns : ℕ
  pub failure : Option Error

-- The calls of one turn: the events up to a throw, and the results.
pub record Calls : Type 0 where
  pub events : List Event
  pub results : List ToolResult
  pub failure : Option Error

module _ (call_tool : String → String → Result Called) where
  -- one round of the loop over `result.toolCalls`, before the calls that follow
  abbrev pub call_one : ToolCall → Calls → Calls
  call_one call rest = elim (call_tool call.name call.input) [
    | err e ↦ record {
      events = tool_call call.name call.input ∷ [];
      results = [];
      failure = some e;
    }
    | ok called ↦
        let is_error = or_else called.is_error false in
        record {
          events =
              tool_call call.name call.input
              ∷ tool_result call.name is_error called.content
              ∷ rest.events;
          results =
              record {
                id = call.id;
                name = call.name;
                is_error = is_error;
                content = called.content;
              }
              ∷ rest.results;
          failure = rest.failure;
        }
  ]

  unfoldable pub call_tools : List ToolCall → Calls
  call_tools [] = record { events = []; results = []; failure = none }
  call_tools (call ∷ calls) = call_one call (call_tools calls)

abbrev pub text_events : String → List Event
text_events t = if str_eq t "" then [] else text t ∷ []

abbrev pub is_nil {ℓ} : {A : Type ℓ} → List A → Bool
is_nil [] = true
is_nil (_ ∷ _) = false

abbrev pub stopped : Run
stopped = record { events = []; metered = []; turns = 0; failure = none }

-- What follows a turn: its events and its record, then the rest of the run. A tool that throws ends
-- the run before the turn is metered.
abbrev pub after_turn : UsageRecord → List Event → Calls → Run → Run
after_turn u texts calls rest = elim calls.failure [
  | some e ↦ record { events = texts ++ calls.events; metered = []; turns = 1; failure = some e }
  | none ↦ record {
    events = texts ++ (calls.events ++ (usage u ∷ rest.events));
    metered = u ∷ rest.metered;
    turns = 1 + rest.turns;
    failure = rest.failure;
  }
]

module _ {H : Type 0} (router : Router) (call_tool : String → String → Result Called)
    (complete_turn : Sent → Option H → List ToolResult → Result (Turn H)) where
  -- The loop, with what is left of `maxIterations`. A turn without tool calls is the last one.
  unfoldable pub run_turns : ℕ → Sent → Option H → List ToolResult → Run
  run_turns zero s history results = stopped
  run_turns (suc left) s history results = elim (complete_turn s history results) [
    | err e ↦ record { events = []; metered = []; turns = 1; failure = some e }
    | ok turn ↦
        let calls = call_tools call_tool turn.tool_calls in
        let rest = run_turns left s (some turn.history) calls.results in
        after_turn (record_usage router s.resolved turn.usage turn.latency) (text_events turn.text)
          calls (if is_nil turn.tool_calls then stopped else rest)
  ]

-- `runAgentLoop`; a provider without `completeTurn` is refused.
unfoldable pub run_agent_loop :
    {H : Type 0}
    → Router
    → (String → String → Result Called)
    → Option (Sent → Option H → List ToolResult → Result (Turn H))
    → ℕ
    → Request
    → Run
run_agent_loop router call_tool none max_iterations request = record {
  events = [];
  metered = [];
  turns = 0;
  failure = some (agent_loop_unsupported router.name);
}
run_agent_loop router call_tool (some complete_turn) max_iterations request =
    elim (resolve router request) [
      | err e ↦ record { events = []; metered = []; turns = 0; failure = some e }
      | ok r ↦
          run_turns router call_tool complete_turn max_iterations (sent router request r) none []
    ]
