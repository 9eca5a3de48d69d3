-- ===== src/Llm.antt =====
-- packages/llm/src/router.ts with pricing.ts, types.ts and provider.ts: one model call, metered. The
-- provider, the prompt registry and the caller's schema are parameters. A JSON value is its text. The
-- clock of a call is the time that the reply says it took, and prices are exact: a rate is in
-- thousandths of a dollar for a million tokens, so a cost is in units of a billionth of a dollar. A
-- usage sink that throws is not modelled, and neither are abort signals and streaming.
mod Tests
pub mod Metering
pub mod Agent
use ai_de.Common.{
  ℕ, ◌+◌, ◌*◌, String, Bool, true, false, Option, none, some, or_else, List, [], ◌∷◌, ◌++◌, str_eq,
  if◌then◌else◌,
}

pub data Tier : Type 0 where
  default bulk : Tier

pub data Role : Type 0 where
  user assistant : Role

pub record ChatMessage : Type 0 where
  pub role : Role
  pub content : String

pub data Messages : Type 0 where
  single : String → Messages
  transcript : List ChatMessage → Messages

-- `getPrompt`: the registered prompt, where there is one
pub record Prompt : Type 0 where
  pub version : String
  pub system : String

pub record PromptRef : Type 0 where
  pub name : String
  pub version : Option String

pub record TokenUsage : Type 0 where
  pub input_tokens : ℕ
  pub output_tokens : ℕ
  pub cache_read_input_tokens : ℕ
  pub cache_creation_input_tokens : ℕ

pub record ModelRate : Type 0 where
  pub input_per_mtok : ℕ
  pub output_per_mtok : ℕ
  pub cache_write_per_mtok : ℕ
  pub cache_read_per_mtok : ℕ

abbrev rate : ℕ → ℕ → ℕ → ℕ → ModelRate
rate input output write read = record {
  input_per_mtok = input;
  output_per_mtok = output;
  cache_write_per_mtok = write;
  cache_read_per_mtok = read;
}

-- `MODEL_RATES`
pub model_rates : String → Option ModelRate
model_rates model =
    if str_eq model "claude-opus-5"
    then some (rate 5000 25000 6250 500)
    else if str_eq model "claude-sonnet-5"
    then some (rate 2000 10000 2500 200)
    else if str_eq model "deepseek-v4-flash"
    then some (rate 280 420 280 28)
    else if str_eq model "deepseek-v4"
    then some (rate 550 2190 550 55)
    else none

pub record Cost : Type 0 where
  pub cost : ℕ
  pub priced_from : Option String

-- `computeChatCostUsd`
pub compute_chat_cost : String → TokenUsage → Cost
compute_chat_cost model tokens = elim (model_rates model) [
  | none ↦ record { cost = 0; priced_from = none }
  | some r ↦ record {
    cost =
        tokens.input_tokens * r.input_per_mtok
        + tokens.output_tokens * r.output_per_mtok
        + tokens.cache_read_input_tokens * r.cache_read_per_mtok
        + tokens.cache_creation_input_tokens * r.cache_write_per_mtok;
    priced_from = some model;
  }
]

pub record UsageRecord : Type 0 where
  pub provider : String
  pub model : String
  pub tier : Tier
  pub prompt_version : Option String
  pub usage : TokenUsage
  pub cost : Cost
  pub latency : ℕ

-- What `complete`, `extract` and `runAgentLoop` have in common in their requests.
pub record Request : Type 0 where
  pub tier : Option Tier
  pub model : Option String
  pub prompt : Option PromptRef
  pub system : Option String
  pub messages : Messages
  pub max_tokens : Option ℕ

pub record Resolved : Type 0 where
  pub tier : Tier
  pub model : String
  pub system : Option String
  pub prompt_version : Option String
  pub messages : List ChatMessage

pub data Error : Type 0 where
  -- what a provider or a tool throws otherwise
  failed : String → Error
  prompt_not_found : PromptRef → Error
  structured_output : Option TokenUsage → Error
  agent_loop_unsupported : String → Error

pub data Result {ℓ} (A : Type ℓ) : Type ℓ where
  ok : A → Result A
  err : Error → Result A

-- A reply with its tokens and the time that it took; a throw also has its time.
pub record Reply (A : Type 0) : Type 0 where
  pub value : A
  pub usage : TokenUsage
  pub latency : ℕ

pub record Sent : Type 0 where
  pub resolved : Resolved
  pub max_tokens : ℕ

pub record Router : Type 0 where
  pub name : String
  pub zero_data_retention : Bool
  pub model_for_tier : Tier → String
  pub complete : Sent → Result (Reply String)
  -- with the time of a throw
  pub extract : Sent → ℕ × Result (Reply String)
  pub get_prompt : PromptRef → Option Prompt
  pub default_tier : Option Tier
  pub default_max_tokens : Option ℕ

abbrev messages_of : Messages → List ChatMessage
messages_of (single text) = record { role = user; content = text } ∷ []
messages_of (transcript messages) = messages

-- The result of a call with the usage records that went to the sink, in their order.
abbrev pub Metered : Type 0 → Type 0
Metered A = Result A × List UsageRecord

module _ (router : Router) where
  -- `config.defaultTier ?? 'default'`, `config.defaultMaxTokens ?? 16_000`
  abbrev pub tier_of : Request → Tier
  tier_of request = or_else request.tier (or_else router.default_tier default)

  abbrev pub max_tokens_of : Request → ℕ
  max_tokens_of request = or_else request.max_tokens (or_else router.default_max_tokens 16000)

  abbrev pub resolved_with : Request → Option Prompt → Resolved
  resolved_with request prompt = record {
    tier = tier_of request;
    model = or_else request.model (router.model_for_tier (tier_of request));
    system = elim prompt [ none ↦ request.system | some p ↦ some p.system ];
    prompt_version = elim prompt [ none ↦ none | some p ↦ some p.version ];
    messages = messages_of request.messages;
  }

  -- `resolve`; `getPrompt` throws where the registry has no such prompt
  unfoldable pub resolve : Request → Result Resolved
  resolve request = elim request.prompt [
    | none ↦ ok (resolved_with request none)
    | some ref ↦ elim (router.get_prompt ref) [
      | none ↦ err (prompt_not_found ref)
      | some p ↦ ok (resolved_with request (some p))
    ]
  ]

  -- `record`
  pub record_usage : Resolved → TokenUsage → ℕ → UsageRecord
  record_usage r usage latency = record {
    provider = router.name;
    model = r.model;
    tier = r.tier;
    prompt_version = r.prompt_version;
    usage = usage;
    cost = compute_chat_cost r.model usage;
    latency = latency;
  }

  abbrev pub sent : Request → Resolved → Sent
  sent request r = record { resolved = r; max_tokens = max_tokens_of request }

  -- `complete`
  pub complete : Request → Metered (String × UsageRecord)
  complete request = elim (resolve request) [
    | err e ↦ (err e, [])
    | ok r ↦ elim (router.complete (sent request r)) [
      | err e ↦ (err e, [])
      | ok reply ↦
          let usage = record_usage r reply.usage reply.latency in
          (ok (reply.value, usage), usage ∷ [])
    ]
  ]

  -- The usage that a failed extraction is metered with.
  abbrev pub billed : Error → Option TokenUsage
  billed (structured_output usage) = usage
  billed (failed _) = none
  billed (prompt_not_found _) = none
  billed (agent_loop_unsupported _) = none

  abbrev metered_failure : Resolved → ℕ → Option TokenUsage → List UsageRecord
  metered_failure r latency none = []
  metered_failure r latency (some usage) = record_usage r usage latency ∷ []

  -- `extract`: the usage is emitted before the value is parsed.
  pub extract : {A : Type 0} → (String → Option A) → Request → Metered (A × UsageRecord)
  extract parse request = elim (resolve request) [
    | err e ↦ (err e, [])
    | ok r ↦
        let (latency, reply) = router.extract (sent request r) in
        elim reply [
          | err e ↦ (err e, metered_failure r latency (billed e))
          | ok reply ↦
              let usage = record_usage r reply.usage reply.latency in
              elim (parse reply.value) [
                | none ↦ (err (structured_output (some reply.usage)), usage ∷ [])
                | some a ↦ (ok (a, usage), usage ∷ [])
              ]
        ]
  ]

-- `assertZeroDataRetention`, as whether it returns
abbrev pub assert_zero_data_retention : Router → Bool
assert_zero_data_retention router = router.zero_data_retention
