-- ===== src/Llm/Tests.antt =====
-- Examples: a provider that asks for one tool and then answers.
use ai_de.Common.{ℕ, String, ◌≡◌, refl, true, Option, none, some, List, [], ◌∷◌, length}
use ai_de.Llm.{
  single, TokenUsage, Request, Router, Result, ok, err, failed, Sent, UsageRecord, extract, resolve,
  compute_chat_cost, model_rates,
}
use ai_de.Llm.Metering.{extract_lem}
use ai_de.Llm.Agent.{Called, ToolResult, Turn, run_agent_loop, run_turns, call_tools}
use ai_de.Llm.Agent.Turns.{IsMetered, run_agent_loop-IsMetered}

abbrev tokens : TokenUsage
tokens = record {
  input_tokens = 100;
  output_tokens = 10;
  cache_read_input_tokens = 0;
  cache_creation_input_tokens = 0;
}

abbrev router : Router
router = record {
  name = "anthropic";
  zero_data_retention = true;
  model_for_tier = λ t. "claude-opus-5";
  complete = λ s. ok (record { value = "hello"; usage = tokens; latency = 3 });
  extract = λ s. (3, ok (record { value = "{}"; usage = tokens; latency = 3 }));
  get_prompt = λ p. none;
  default_tier = none;
  default_max_tokens = none;
}

abbrev request : Request
request = record {
  tier = none;
  model = none;
  prompt = none;
  system = none;
  messages = single "hi";
  max_tokens = none;
}

abbrev refuse : String → Option String
refuse s = none

abbrev accept : String → Option String
accept s = some s

extract_lem_example :
    ((extract router accept request).1 ≡ (extract router refuse request).1)
    × ((a : String) (u : UsageRecord)
        → (extract router accept request).0 ≡ ok (a, u)
        → (extract router accept request).1 ≡ u ∷ [])
extract_lem_example = extract_lem router request accept refuse

-- A hundred tokens in and ten out of the large model.
cost : (compute_chat_cost "claude-opus-5" tokens).cost ≡ 750000
unfolding compute_chat_cost model_rates
cost = refl

turn : Sent → Option ℕ → List ToolResult → Result (Turn ℕ)
turn s none results = ok (record {
  history = 1;
  tool_calls = record { id = "c1"; name = "search"; input = "{}" } ∷ [];
  text = "";
  usage = tokens;
  latency = 5;
})
turn s (some h) results =
    ok (record { history = 2; tool_calls = []; text = "done"; usage = tokens; latency = 5 })

abbrev found : String → String → Result Called
found name input = ok (record { is_error = none; content = "found" })

abbrev broken : String → String → Result Called
broken name input = err (failed "down")

run_agent_loop-IsMetered_example : IsMetered 4 (run_agent_loop router found (some turn) 4 request)
run_agent_loop-IsMetered_example = run_agent_loop-IsMetered router found (some turn) 4 request

-- Two turns are sent and metered; a tool that throws ends the first turn, which is not metered.
two_turns : length (run_agent_loop router found (some turn) 4 request).metered ≡ 2
unfolding run_agent_loop resolve run_turns call_tools turn
two_turns = refl

not_metered : (run_agent_loop router broken (some turn) 4 request).metered ≡ []
unfolding run_agent_loop resolve run_turns call_tools turn
not_metered = refl
