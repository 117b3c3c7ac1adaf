-- ===== src/Ledger/Endings.antt =====
-- The row of a call once `complete` or `stream` (apps/api/src/api/llm.py) is done with it.
use interview_helper.Prelude.{
  ℕ, ◌+◌, ◌*◌, ◌<◌, ◌≡◌, ◌≢◌, refl, ◌∙◌, sym, ap, inl, inr, Bool, true, false, Option, none, some,
  List, [], ◌∷◌, arith, ◌==◌, ==_iff, if◌then◌else◌, Bool-cases, none≢some, some-injective,
}
use native.Mathlib.Nat.{mul-lt-mul_of_pos_left}
use interview_helper.Ledger.{
  Usage, total, no_usage, LlmCall, Rate, web_search_usd, cost_of, settled, failed, reserved_row,
  settled_row, settle, call_of,
}
use interview_helper.Ledger.Calls.{
  Ending, answered, rate_limited, raised, unavailable, dropped_cost, snapshot, record_and_wrap,
  finish_complete, finish_stream,
}

-- What a ledger is after a call was settled in it: the row holds what was used and no reservation, and
-- every other row is as it was.
pub record IsSettled (id : ℕ) (usage : Usage) (cost : ℕ) (is_failed : Bool) (now : ℕ)
    (before after : List LlmCall) : Type 0 where
  pub own :
      (c : LlmCall)
      → call_of id before ≡ some c
      → (d : LlmCall) × (call_of id after ≡ some d)
        × (d.status ≡ (if is_failed then failed else settled))
        × (d.reserved_tokens ≡ 0)
        × (d.reserved_usd ≡ 0)
        × (d.usage ≡ usage)
        × (d.cost_usd ≡ cost)
        × (d.created_at ≡ c.created_at)
  pub others : (j : ℕ) → j ≢ id → call_of j after ≡ call_of j before

settle-own :
    (id : ℕ) (usage : Usage) (cost : ℕ) (is_failed : Bool) (now : ℕ) (calls : List LlmCall)
    (c : LlmCall)
    → call_of id calls ≡ some c
    → call_of id (settle id usage cost is_failed now calls)
      ≡ some (settled_row usage cost is_failed now c)
unfolding call_of settle settled_row
settle-own id usage cost is_failed now [] c h = absurd (none≢some h)
settle-own id usage cost is_failed now (x ∷ calls) c h = elim (Bool-cases (x.id == id)) [
  | inl here ↦
      rw (here, settle)
        (rw (here, call_of)
          (ap (λ y. some (settled_row usage cost is_failed now y))
            (some-injective (rw (here, call_of) at h))))
  | inr other ↦
      rw (other, settle)
        (rw (other, call_of)
          (settle-own id usage cost is_failed now calls c (rw (other, call_of) at h)))
]

settle-others :
    (id : ℕ) (usage : Usage) (cost : ℕ) (is_failed : Bool) (now : ℕ) (calls : List LlmCall) (j : ℕ)
    → j ≢ id
    → call_of j (settle id usage cost is_failed now calls) ≡ call_of j calls
unfolding call_of settle settled_row
settle-others id usage cost is_failed now [] j h = refl
settle-others id usage cost is_failed now (x ∷ calls) j h = elim (Bool-cases (x.id == id)) [
  | inl here ↦
      let e : x.id ≡ id = (==_iff x.id id).0 here in
      let off : (x.id == j) ≡ false = elim (Bool-cases (x.id == j)) [
        | inl same ↦ absurd (h (sym ((==_iff x.id j).0 same) ∙ e))
        | inr differs ↦ differs
      ] in
      rw (here, settle) (rw (off, call_of) refl)
  | inr other ↦
      let rest = settle-others id usage cost is_failed now calls j h in
      rw (other, settle) (ap (λ o. if x.id == j then some x else o) rest)
]

settle-IsSettled :
    (id : ℕ) (usage : Usage) (cost : ℕ) (is_failed : Bool) (now : ℕ) (calls : List LlmCall)
    → IsSettled id usage cost is_failed now calls (settle id usage cost is_failed now calls)
unfolding settled_row
settle-IsSettled id usage cost is_failed now calls = record {
  own = λ c h. (
    settled_row usage cost is_failed now c,
    settle-own id usage cost is_failed now calls c h,
    refl,
    refl,
    refl,
    refl,
    refl,
    refl,
  );
  others = settle-others id usage cost is_failed now calls;
}

-- What the provider delivered, as far as a stream can tell.
abbrev pub delivered : Ending → Usage
delivered (answered u) = u
delivered rate_limited = no_usage
delivered (raised none) = no_usage
delivered (raised (some u)) = u

abbrev pub is_failure : Ending → Bool
is_failure (answered _) = false
is_failure _ = true

-- The searches of a stream that dropped.
abbrev pub lost_searches : Ending → ℕ
lost_searches (raised (some u)) = u.web_search_requests
lost_searches _ = 0

cost_of-nothing : (rate : Option Rate) → cost_of rate no_usage ≡ 0
unfolding cost_of
cost_of-nothing none = omega arith
cost_of-nothing (some rate) = omega arith

cost_of-searches :
    (rate : Option Rate) (u : Usage)
    → dropped_cost rate u + u.web_search_requests * web_search_usd ≡ cost_of rate u
unfolding cost_of
cost_of-searches none u = omega arith
cost_of-searches (some rate) u = omega arith

-- However a streamed call ends, its row is settled (as failed, unless the provider answered) with all
-- that was delivered, holds no reservation any more, and the other rows are as they were. The row costs
-- what was delivered, less the web searches of a stream that dropped.
pub finish_stream-IsSettled :
    (rate : Option Rate) (id now : ℕ) (ending : Ending) (calls : List LlmCall)
    → (cost : ℕ) × IsSettled id
        (delivered ending)
        cost
        (is_failure ending)
        now
        calls
        (finish_stream rate id now ending calls).0
      × (cost + lost_searches ending * web_search_usd ≡ cost_of rate (delivered ending))
unfolding finish_stream record_and_wrap snapshot
finish_stream-IsSettled rate id now (answered u) calls =
    (cost_of rate u, settle-IsSettled id u (cost_of rate u) false now calls, omega arith)
finish_stream-IsSettled rate id now rate_limited calls =
    (0, settle-IsSettled id no_usage 0 true now calls, omega (arith, cost_of-nothing rate))
finish_stream-IsSettled rate id now (raised none) calls = (
  dropped_cost rate no_usage,
  settle-IsSettled id no_usage (dropped_cost rate no_usage) true now calls,
  omega (arith, cost_of-nothing rate),
)
finish_stream-IsSettled rate id now (raised (some u)) calls = (
  dropped_cost rate u,
  settle-IsSettled id u (dropped_cost rate u) true now calls,
  cost_of-searches rate u,
)

-- The ending that a call which is not streamed knows of.
abbrev pub without_snapshot : Ending → Ending
without_snapshot (raised _) = raised none
without_snapshot ending = ending

-- A call that is not streamed leaves the ledger and answers as a streamed one whose provider failed, if it
-- fails, before anything was delivered.
pub finish_complete-stream :
    (rate : Option Rate) (id now : ℕ) (ending : Ending) (calls : List LlmCall)
    → finish_complete rate id now ending calls
      ≡ finish_stream rate id now (without_snapshot ending) calls
unfolding finish_complete finish_stream snapshot
finish_complete-stream rate id now (answered u) calls = refl
finish_complete-stream rate id now rate_limited calls = refl
finish_complete-stream rate id now (raised partial) calls =
    ap (λ cost. (settle id no_usage cost true now calls, unavailable)) (sym (cost_of-nothing rate))

-- A call whose whole prompt is written to the cache, and which generates all the tokens it may.
abbrev pub cache_write : ℕ → ℕ → Usage
cache_write max_tokens estimate = record no_usage {
  output_tokens = max_tokens;
  cache_write_tokens = estimate;
}

-- A call that writes its whole prompt to the cache, as long as it was estimated, and generates `max_tokens`
-- uses exactly the tokens that it reserved, makes no web search, and costs more than it reserved, if its
-- prompt and the price of input are not nothing.
pub cache_write_exceeds_reservation :
    (now id : ℕ) (s : Option ℕ) (rate : Rate) (max_tokens estimate : ℕ)
    → 0 < estimate
    → 0 < rate.input_usd
    → let row = reserved_row now id s (some rate) max_tokens estimate in
      (total (cache_write max_tokens estimate) ≡ row.reserved_tokens)
      × (row.reserved_usd < cost_of (some rate) (cache_write max_tokens estimate))
unfolding cost_of
cache_write_exceeds_reservation now id s rate max_tokens estimate h p = (
  omega arith,
  omega (
    arith,
    mul-lt-mul_of_pos_left {m = 100 * rate.input_usd} {n = 125 * rate.input_usd} {k = estimate}
        (omega (arith, p)) h,
  ),
)
