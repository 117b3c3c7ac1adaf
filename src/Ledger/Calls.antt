-- ===== src/Ledger/Calls.antt =====
-- `complete` and `stream` (apps/api/src/api/llm.py) behind the reservation: what each does with the
-- ledger once the provider answered, or failed to.
use interview_helper.Prelude.{ℕ, true, false, Option, none, some, List}
use interview_helper.Ledger.{Usage, no_usage, LlmCall, Rate, cost_of, settle}

-- How a call ends: the last snapshot is what a stream had delivered before it dropped.
pub data Ending : Type 0 where
  answered : Usage → Ending
  rate_limited : Ending
  raised : Option Usage → Ending

pub data Reply : Type 0 where
  completion : Usage → ℕ → Reply
  provider_rate_limited unavailable : Reply

-- The cost of a stream that dropped, which is priced without its web searches.
abbrev pub dropped_cost : Option Rate → Usage → ℕ
dropped_cost rate u = cost_of rate (record u { web_search_requests = 0 })

unfoldable pub snapshot : Option Usage → Usage
snapshot none = no_usage
snapshot (some u) = u

-- `_record_and_wrap`
unfoldable pub record_and_wrap : Option Rate → ℕ → ℕ → Usage → List LlmCall → List LlmCall × Reply
record_and_wrap rate id now usage calls =
    (settle id usage (cost_of rate usage) false now calls, completion usage (cost_of rate usage))

unfoldable pub finish_complete : Option Rate → ℕ → ℕ → Ending → List LlmCall → List LlmCall × Reply
finish_complete rate id now (answered usage) calls = record_and_wrap rate id now usage calls
finish_complete rate id now rate_limited calls =
    (settle id no_usage 0 true now calls, provider_rate_limited)
finish_complete rate id now (raised _) calls = (settle id no_usage 0 true now calls, unavailable)

unfoldable pub finish_stream : Option Rate → ℕ → ℕ → Ending → List LlmCall → List LlmCall × Reply
finish_stream rate id now (answered usage) calls = record_and_wrap rate id now usage calls
finish_stream rate id now rate_limited calls =
    (settle id no_usage 0 true now calls, provider_rate_limited)
finish_stream rate id now (raised partial) calls =
    let usage = snapshot partial in
    (settle id usage (dropped_cost rate usage) true now calls, unavailable)
