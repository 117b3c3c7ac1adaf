-- ===== src/Ledger/Ceilings.antt =====
-- What is spent while calls overlap (apps/api/src/api/llm.py): ledgers within one day and month, with
-- reservations and settlements in any order.
use interview_helper.Prelude.{
  ℕ, ◌+◌, ◌≤◌, ◌<◌, ◌≡◌, refl, sym, inl, inr, Bool, true, Option, some, List, [], ◌∷◌, arith, ◌==◌,
  Bool-cases, All, All-map,
}
use mathlib.Core.Path.{subst}
use interview_helper.Ledger.{
  Usage, total, no_usage, LlmCall, Rate, cost_of, is_in_flight, Moment, is_since, Settings, granted,
  spent, reserve, reserved_row, settled_row, settle, call_of,
}
use interview_helper.Ledger.Tally.{
  IsUnbilled, tally, tally-nil, tally-cons, in_flight-contribution, tally-later, tally-settle,
}
use interview_helper.Ledger.Totals.{Answers, reserve-Answers}

module _ (round : ℕ → ℕ) (settings : Settings) (day month max_tokens max_usd : ℕ) where
  -- Ledgers of one day and month on which calls overlap: time passes, a call reserves under the ceilings
  -- no more than the two bounds, and a call settles within its reservation and before that expires.
  pub data Reach : ℕ → List LlmCall → Type 0 where
    empty : (now : ℕ) → Reach now []
    later :
        {now : ℕ} {calls : List LlmCall} (now' : ℕ)
        → now ≤ now'
        → Reach now calls
        → Reach now' calls
    reserves :
        {now : ℕ} {calls : List LlmCall} (id s : ℕ) (rate : Option Rate) (tokens estimate : ℕ)
        {calls' : List LlmCall}
        → day ≤ now
        → month ≤ now
        → tokens + estimate ≤ max_tokens
        → cost_of rate (record no_usage { input_tokens = estimate; output_tokens = tokens })
          ≤ max_usd
        → reserve round settings
            (record { now = now; day = day; month = month })
            id
            (some s)
            rate
            tokens
            estimate
            calls
          ≡ granted calls'
        → Reach now calls
        → Reach now calls'
    settles :
        {now : ℕ} {calls : List LlmCall} (id : ℕ) (usage : Usage) (cost : ℕ) (is_failed : Bool)
        (c : LlmCall)
        → call_of id calls ≡ some c
        → is_in_flight now c ≡ true
        → total usage ≤ c.reserved_tokens
        → cost ≤ c.reserved_usd
        → Reach now calls
        → Reach now (settle id usage cost is_failed now calls)

  abbrev pub day_tally : ℕ → List LlmCall → ℕ
  day_tally = tally (λ c. c.reserved_tokens) (λ c. total c.usage) (is_since day)

  abbrev pub month_tally : ℕ → List LlmCall → ℕ
  month_tally = tally (λ c. c.reserved_usd) (λ c. c.cost_usd) (is_since month)

  pub record IsBounded (now : ℕ) (calls : List LlmCall) : Type 0 where
    pub unbilled : All IsUnbilled calls
    pub tokens_bound : day_tally now calls < settings.max_tokens_per_day + max_tokens
    pub usd_bound : month_tally now calls < settings.max_usd_per_month + max_usd

  settle-IsUnbilled :
      (id : ℕ) (usage : Usage) (cost : ℕ) (is_failed : Bool) (now : ℕ) (calls : List LlmCall)
      → All IsUnbilled calls
      → All IsUnbilled (settle id usage cost is_failed now calls)
  unfolding settle settled_row
  settle-IsUnbilled id usage cost is_failed now [] h = tt
  settle-IsUnbilled id usage cost is_failed now (c ∷ calls) h = elim (Bool-cases (c.id == id)) [
    | inl here ↦
        rw (here, settle)
          (
            λ e. elim (Bool-cases is_failed) [
              | inl on ↦ absurd (ground (arith, rw on at e))
              | inr off ↦ absurd (ground (arith, rw off at e))
            ],
            h.1,
          )
    | inr other ↦ rw (other, settle) (h.0, settle-IsUnbilled id usage cost is_failed now calls h.1)
  ]

  IsBounded-later :
      (now now' : ℕ) (calls : List LlmCall)
      → now ≤ now'
      → IsBounded now calls
      → IsBounded now' calls
  IsBounded-later now now' calls h b =
      let tokens =
        tally-later (λ c. c.reserved_tokens) (λ c. total c.usage) (is_since day) now now' calls h
          (All-map calls (λ c u e. (u e).0) b.unbilled) in
      let usd =
        tally-later (λ c. c.reserved_usd) (λ c. c.cost_usd) (is_since month) now now' calls h
          (All-map calls (λ c u e. (u e).1) b.unbilled) in
      record {
        unbilled = b.unbilled;
        tokens_bound = omega (arith, tokens, b.tokens_bound);
        usd_bound = omega (arith, usd, b.usd_bound);
      }

  IsBounded-settle :
      (now id : ℕ) (usage : Usage) (cost : ℕ) (is_failed : Bool) (calls : List LlmCall)
      (c : LlmCall)
      → call_of id calls ≡ some c
      → is_in_flight now c ≡ true
      → total usage ≤ c.reserved_tokens
      → cost ≤ c.reserved_usd
      → IsBounded now calls
      → IsBounded now (settle id usage cost is_failed now calls)
  unfolding settled_row
  IsBounded-settle now id usage cost is_failed calls c found flying ht hu b =
      let tokens =
        tally-settle (λ c. c.reserved_tokens) (λ c. total c.usage) (is_since day) now id usage cost
          is_failed calls c found flying ht (λ d. refl) in
      let usd =
        tally-settle (λ c. c.reserved_usd) (λ c. c.cost_usd) (is_since month) now id usage cost
          is_failed calls c found flying hu (λ d. refl) in
      record {
        unbilled = settle-IsUnbilled id usage cost is_failed now calls b.unbilled;
        tokens_bound = omega (arith, tokens, b.tokens_bound);
        usd_bound = omega (arith, usd, b.usd_bound);
      }

  IsBounded-row :
      (now id : ℕ) (s : Option ℕ) (rate : Option Rate) (tokens estimate : ℕ) (calls : List LlmCall)
      → tokens + estimate ≤ max_tokens
      → cost_of rate (record no_usage { input_tokens = estimate; output_tokens = tokens }) ≤ max_usd
      → day_tally now calls < settings.max_tokens_per_day
      → month_tally now calls < settings.max_usd_per_month
      → All IsUnbilled calls
      → IsBounded now (reserved_row now id s rate tokens estimate ∷ calls)
  IsBounded-row now id s rate tokens estimate calls ht hu td um unbilled =
      let row = reserved_row now id s rate tokens estimate in
      let flying : is_in_flight now row ≡ true = ground arith in
      let t =
        tally-cons (λ c. c.reserved_tokens) (λ c. total c.usage) (is_since day) now row calls in
      let u = tally-cons (λ c. c.reserved_usd) (λ c. c.cost_usd) (is_since month) now row calls in
      let tc =
        in_flight-contribution (λ c. c.reserved_tokens) (λ c. total c.usage) (is_since day) now row
          flying in
      let uc =
        in_flight-contribution (λ c. c.reserved_usd) (λ c. c.cost_usd) (is_since month) now row
          flying in
      record {
        unbilled = (λ _. (refl, refl), unbilled);
        tokens_bound = ground (arith, t, tc, ht, td);
        usd_bound = ground (arith, u, uc, hu, um);
      }

  moment : ℕ → Moment
  moment now = record { now = now; day = day; month = month }

  IsBounded-grant :
      (now id s : ℕ) (rate : Option Rate) (tokens estimate : ℕ) (calls calls' : List LlmCall)
      → tokens + estimate ≤ max_tokens
      → cost_of rate (record no_usage { input_tokens = estimate; output_tokens = tokens }) ≤ max_usd
      → Answers round settings
          (moment now)
          s
          calls
          (reserved_row now id (some s) rate tokens estimate)
          (granted calls')
      → IsBounded now calls
      → IsBounded now calls'
  unfolding moment tally spent
  IsBounded-grant now id s rate tokens estimate calls calls' ht hu answer b =
      subst (IsBounded now) (sym answer.1) (
        IsBounded-row now id (some s) rate tokens estimate calls ht hu answer.0.day_room
          answer.0.month_usd_room b.unbilled)

  -- What the ceilings of the day and of the month come to while calls overlap: tokens stay below the
  -- day's limit by less than one reservation over it, and dollars so for the month. The calls reserve for
  -- sessions, each within the bounds `max_tokens` and `max_usd`, and settle in time for no more than they
  -- reserved; the limits are positive and `round` keeps zero.
  pub Reach-IsBounded :
      round 0 ≡ 0
      → 0 < settings.max_tokens_per_day
      → 0 < settings.max_usd_per_month
      → {now : ℕ} {calls : List LlmCall} → Reach now calls
      → IsBounded now calls
  unfolding moment
  Reach-IsBounded zero_kept tokens_limit usd_limit (empty now) = record {
    unbilled = tt;
    tokens_bound = omega (
      arith,
      tokens_limit,
      tally-nil (λ c. c.reserved_tokens) (λ c. total c.usage) (is_since day) now,
    );
    usd_bound =
        omega (
          arith,
          usd_limit,
          tally-nil (λ c. c.reserved_usd) (λ c. c.cost_usd) (is_since month) now,
        );
  }
  Reach-IsBounded zero_kept tokens_limit usd_limit (later {now} {calls} now' h r) =
      IsBounded-later now now' calls h (Reach-IsBounded zero_kept tokens_limit usd_limit r)
  Reach-IsBounded zero_kept tokens_limit usd_limit
        (reserves {now} {calls} id s rate tokens estimate {calls'} d m ht hu e r) =
      let row = reserved_row now id (some s) rate tokens estimate in
      IsBounded-grant now id s rate tokens estimate calls calls' ht hu
        (subst (Answers round settings (moment now) s calls row) e
          (reserve-Answers round settings (moment now) s calls zero_kept id rate tokens estimate))
        (Reach-IsBounded zero_kept tokens_limit usd_limit r)
  Reach-IsBounded zero_kept tokens_limit usd_limit
        (settles {now} {calls} id usage cost is_failed c found flying ht hu r) =
      IsBounded-settle now id usage cost is_failed calls c found flying ht hu
        (Reach-IsBounded zero_kept tokens_limit usd_limit r)
