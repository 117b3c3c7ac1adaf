-- ===== src/Ledger/Tests.antt =====
-- Concrete runs: a ledger on which two calls of one session overlap.
use interview_helper.Prelude.{
  ℕ, ◌+◌, ◌*◌, ◌<◌, ◌≡◌, refl, false, Option, some, List, [], ◌∷◌, arith, if◌then◌else◌, ltb,
}
use interview_helper.Ledger.{
  Usage, total, no_usage, LlmCall, Rate, cost_of, contribution, sum, Moment, Settings, granted,
  refused, day_tokens, budget_status, enforce_budget, reserve, reserved_row, settle, call_of,
  web_search_usd,
}
use interview_helper.Ledger.Calls.{raised, finish_stream}
use interview_helper.Ledger.Totals.{Answers, reserve-Answers}
use interview_helper.Ledger.Ceilings.{
  Reach, empty, later, reserves, settles, IsBounded, Reach-IsBounded,
}
use interview_helper.Ledger.Endings.{
  IsSettled, delivered, is_failure, lost_searches, finish_stream-IsSettled, cache_write,
  cache_write_exceeds_reservation,
}

abbrev limits : Settings
limits = record {
  max_tokens_per_session = 3000;
  max_tokens_per_day = 3000;
  max_usd_per_session = 100000000;
  max_usd_per_day = 1000000000;
  max_usd_per_month = 10000000000;
}

-- To the millionth: our unit is a hundredth of that.
abbrev to_millionths : ℕ → ℕ
to_millionths n = if ltb n 50 then 0 else n

abbrev at : ℕ → Moment
at now = record { now = now; day = 1000; month = 1000 }

abbrev sonnet : Option Rate
sonnet = some (record { input_usd = 3; output_usd = 15 })

abbrev first : List LlmCall
first = reserved_row 2000 1 (some 7) sonnet 1500 500 ∷ []

abbrev both : List LlmCall
both = reserved_row 2100 2 (some 7) sonnet 1500 500 ∷ first

abbrev used : Usage
used = record no_usage { input_tokens = 400; output_tokens = 900 }

first_is_granted :
    reserve to_millionths limits (at 2000) 1 (some 7) sonnet 1500 500 [] ≡ granted first
unfolding reserve enforce_budget budget_status contribution sum cost_of
first_is_granted = refl

second_is_granted :
    reserve to_millionths limits (at 2100) 2 (some 7) sonnet 1500 500 first ≡ granted both
unfolding reserve enforce_budget budget_status contribution sum cost_of
second_is_granted = refl

third_is_refused :
    reserve to_millionths limits (at 2200) 3 (some 7) sonnet 1500 500 both ≡ refused day_tokens
unfolding reserve enforce_budget budget_status contribution sum cost_of
third_is_refused = refl

first_found : call_of 1 both ≡ some (reserved_row 2000 1 (some 7) sonnet 1500 500)
unfolding call_of
first_found = refl

overlap :
    Reach to_millionths limits 1000 1000 2000 4000000 2300
      (settle 1 used (cost_of sonnet used) false 2300 both)
unfolding cost_of
overlap =
    settles 1 used (cost_of sonnet used) false (reserved_row 2000 1 (some 7) sonnet 1500 500)
      first_found refl (omega arith) (omega arith)
      (later 2300 (omega arith) (
        reserves 2 7 sonnet 1500 500 (omega arith) (omega arith) (omega arith) (omega arith)
          second_is_granted
          (later 2100 (omega arith) (
            reserves 1 7 sonnet 1500 500 (omega arith) (omega arith) (omega arith) (omega arith)
              first_is_granted (empty 2000)))))

Reach-IsBounded_example :
    IsBounded to_millionths limits 1000 1000 2000 4000000 2300
      (settle 1 used (cost_of sonnet used) false 2300 both)
Reach-IsBounded_example =
    Reach-IsBounded to_millionths limits 1000 1000 2000 4000000 refl (omega arith) (omega arith)
      overlap

reserve-Answers_example :
    Answers to_millionths limits
      (at 2200)
      7
      both
      (reserved_row 2200 3 (some 7) sonnet 1500 500)
      (reserve to_millionths limits (at 2200) 3 (some 7) sonnet 1500 500 both)
reserve-Answers_example =
    reserve-Answers to_millionths limits (at 2200) 7 both refl 3 sonnet 1500 500

finish_stream-IsSettled_example :
    (cost : ℕ) × IsSettled 1
      (delivered (raised (some used)))
      cost
      (is_failure (raised (some used)))
      2300
      both
      (finish_stream sonnet 1 2300 (raised (some used)) both).0
    × (cost + lost_searches (raised (some used)) * web_search_usd
        ≡ cost_of sonnet (delivered (raised (some used))))
finish_stream-IsSettled_example = finish_stream-IsSettled sonnet 1 2300 (raised (some used)) both

cache_write_exceeds_reservation_example :
    let row = reserved_row 2000 1 (some 7) sonnet 1500 500 in
    (total (cache_write 1500 500) ≡ row.reserved_tokens)
    × (row.reserved_usd < cost_of sonnet (cache_write 1500 500))
cache_write_exceeds_reservation_example =
    cache_write_exceeds_reservation 2000 1 (some 7) (record { input_usd = 3; output_usd = 15 }) 1500
      500 (omega arith) (omega arith)
