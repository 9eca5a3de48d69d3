-- ===== src/Llm/Metering.antt =====
-- What one call writes to the usage sink, and what it costs.
use ai_de.Common.{◌+◌, String, ◌≡◌, ◌⊎◌, refl, inl, inr, Option, [], ◌∷◌, arith, Option-cases}
use ai_de.Llm.{
  TokenUsage, model_rates, compute_chat_cost, Router, Request, Result, ok, err, UsageRecord,
  extract, Error,
}

pub Result-cases :
    {A : Type 0} (r : Result A) → ((e : Error) × (r ≡ err e)) ⊎ ((a : A) × (r ≡ ok a))
Result-cases (err e) = inl (e, refl)
Result-cases (ok a) = inr (a, refl)

module _ {A B : Type 0} (router : Router) (request : Request) where
  -- What an extraction writes to the usage sink does not depend on whether the value passes the
  -- caller's schema, and an extraction that succeeds writes exactly the record that it returns.
  pub extract_lem :
      (parse : String → Option A) (parse' : String → Option B)
      → ((extract router parse request).1 ≡ (extract router parse' request).1)
        × ((a : A) (u : UsageRecord)
            → (extract router parse request).0 ≡ ok (a, u)
            → (extract router parse request).1 ≡ u ∷ [])
  unfolding extract
  extract_lem parse parse' = ground arith

abbrev pub add : TokenUsage → TokenUsage → TokenUsage
add a b = record {
  input_tokens = a.input_tokens + b.input_tokens;
  output_tokens = a.output_tokens + b.output_tokens;
  cache_read_input_tokens = a.cache_read_input_tokens + b.cache_read_input_tokens;
  cache_creation_input_tokens = a.cache_creation_input_tokens + b.cache_creation_input_tokens;
}

-- The cost of a call is additive in its tokens: two usages together cost the sum of what they cost
-- apart, for every model.
pub compute_chat_cost-add :
    (model : String) (a b : TokenUsage)
    → (compute_chat_cost model (add a b)).cost
      ≡ (compute_chat_cost model a).cost + (compute_chat_cost model b).cost
unfolding compute_chat_cost
compute_chat_cost-add model a b = elim (Option-cases (model_rates model)) [
  | inl e ↦ ground (arith, e)
  | inr (r, e) ↦ grind (arith, e)
]
