-- ===== src/Ledger.antt =====
-- apps/api/src/api/llm.py and pricing.py: the ledger of model calls. A row is reserved under the ceilings
-- before the call and settled after it. Tokens and seconds are counted, money in hundred-millionths of a
-- dollar. Arguments are `round(amount, 6)` of Python and the rate of a model, whose id is parsed with
-- regular expressions.
pub mod Calls
pub mod Totals
pub mod Tally
pub mod Ceilings
pub mod Endings
mod Tests
use interview_helper.Prelude.{
  ℕ, zero, suc, ◌+◌, ◌-◌, ◌*◌, ◌≡◌, Bool, true, false, not, ◌&&◌, ◌||◌, Option, none, some, List,
  [], ◌∷◌, ◌++◌, ltb, leb, ◌==◌, if◌then◌else◌, select, min,
}

pub data Status : Type 0 where
  reserved settled failed : Status

abbrev pub is_reserved : Status → Bool
is_reserved reserved = true
is_reserved _ = false

pub record Usage : Type 0 where
  pub input_tokens : ℕ
  pub output_tokens : ℕ
  pub cache_read_tokens : ℕ
  pub cache_write_tokens : ℕ
  pub web_search_requests : ℕ

abbrev pub total : Usage → ℕ
total u = u.input_tokens + u.output_tokens + u.cache_read_tokens + u.cache_write_tokens

abbrev pub no_usage : Usage
no_usage = record {
  input_tokens = 0;
  output_tokens = 0;
  cache_read_tokens = 0;
  cache_write_tokens = 0;
  web_search_requests = 0;
}

-- A row of the ledger.
pub record LlmCall : Type 0 where
  pub id : ℕ
  pub status : Status
  pub reserved_tokens : ℕ
  pub reserved_usd : ℕ
  pub settled_at : Option ℕ
  pub session_id : Option ℕ
  pub usage : Usage
  pub cost_usd : ℕ
  pub created_at : ℕ

-- Dollars per million tokens.
pub record Rate : Type 0 where
  pub input_usd : ℕ
  pub output_usd : ℕ

abbrev pub web_search_usd : ℕ
web_search_usd = 1000000

-- A million tokens at a dollar are a hundred of our units each, so a cache read is ten of them and a
-- cache write a hundred and twenty-five.
unfoldable pub cost_of : Option Rate → Usage → ℕ
cost_of none u = u.web_search_requests * web_search_usd
cost_of (some rate) u =
    u.input_tokens * (100 * rate.input_usd)
    + u.output_tokens * (100 * rate.output_usd)
    + u.cache_read_tokens * (10 * rate.input_usd)
    + u.cache_write_tokens * (125 * rate.input_usd)
    + u.web_search_requests * web_search_usd

-- `RESERVATION_TTL`, in seconds
abbrev pub reservation_ttl : ℕ
reservation_ttl = 900

-- A reservation that still counts.
abbrev pub is_in_flight : ℕ → LlmCall → Bool
is_in_flight now c = is_reserved c.status && leb now (c.created_at + reservation_ttl)

unfoldable pub contribution : (LlmCall → ℕ) → (LlmCall → ℕ) → ℕ → LlmCall → ℕ
contribution held actual now c = if is_in_flight now c then held c else actual c

abbrev pub token_contribution : ℕ → LlmCall → ℕ
token_contribution now = contribution (λ c. c.reserved_tokens) (λ c. total c.usage) now

abbrev pub usd_contribution : ℕ → LlmCall → ℕ
usd_contribution now = contribution (λ c. c.reserved_usd) (λ c. c.cost_usd) now

unfoldable pub sum : (LlmCall → ℕ) → List LlmCall → ℕ
sum f [] = 0
sum f (c ∷ cs) = f c + sum f cs

-- The clock: now, and the starts of the day and of the month.
pub record Moment : Type 0 where
  pub now : ℕ
  pub day : ℕ
  pub month : ℕ

abbrev pub is_since : ℕ → LlmCall → Bool
is_since moment c = leb moment c.created_at

abbrev pub same_session : Option ℕ → Option ℕ → Bool
same_session (some a) (some b) = a == b
same_session _ _ = false

abbrev pub in_session : Option ℕ → LlmCall → Bool
in_session s c = same_session s c.session_id

-- The `WHERE` of the two queries.
abbrev pub is_relevant : Moment → Option ℕ → LlmCall → Bool
is_relevant m s c = is_since (min m.day m.month) c || in_session s c

pub record Settings : Type 0 where
  pub max_tokens_per_session : ℕ
  pub max_tokens_per_day : ℕ
  pub max_usd_per_session : ℕ
  pub max_usd_per_day : ℕ
  pub max_usd_per_month : ℕ

-- The amounts that `budget_status` computes.
pub record BudgetStatus : Type 0 where
  pub session_spent : ℕ
  pub session_remaining : ℕ
  pub day_spent : ℕ
  pub day_remaining : ℕ
  pub session_remaining_usd : ℕ
  pub day_remaining_usd : ℕ
  pub month_remaining_usd : ℕ

-- Which ceiling a refusal names.
pub data Ceiling : Type 0 where
  month_usd day_usd session_usd day_tokens session_tokens : Ceiling

pub data Reservation : Type 0 where
  refused : Ceiling → Reservation
  granted : List LlmCall → Reservation

abbrev pub is_spent : ℕ → Bool
is_spent remaining = leb remaining 0

abbrev pub is_some : Option ℕ → Bool
is_some none = false
is_some (some _) = true

-- `tokens_spent` and `usd_spent`, for one session or since a moment, or both.
unfoldable pub spent : (LlmCall → ℕ) → Option ℕ → Option ℕ → List LlmCall → ℕ
spent f none none calls = sum f calls
spent f (some s) none calls = sum f (select (in_session (some s)) calls)
spent f none (some since) calls = sum f (select (is_since since) calls)
spent f (some s) (some since) calls =
    sum f (select (is_since since) (select (in_session (some s)) calls))

-- The row of a call that is about to be made, at the worst that it may cost.
abbrev pub reserved_row : ℕ → ℕ → Option ℕ → Option Rate → ℕ → ℕ → LlmCall
reserved_row now id s rate max_tokens estimate = record {
  id = id;
  status = reserved;
  reserved_tokens = max_tokens + estimate;
  reserved_usd =
      cost_of rate (record no_usage { input_tokens = estimate; output_tokens = max_tokens });
  settled_at = none;
  session_id = s;
  usage = no_usage;
  cost_usd = 0;
  created_at = now;
}

module _ (round : ℕ → ℕ) where
  unfoldable pub budget_status : Settings → Moment → Option ℕ → List LlmCall → BudgetStatus
  budget_status settings m s calls =
      let rows = select (is_relevant m s) calls in
      let tokens = token_contribution m.now in
      let usd = usd_contribution m.now in
      record {
        session_spent = sum tokens (select (in_session s) rows);
        session_remaining =
            settings.max_tokens_per_session - sum tokens (select (in_session s) rows);
        day_spent = sum tokens (select (is_since m.day) rows);
        day_remaining = settings.max_tokens_per_day - sum tokens (select (is_since m.day) rows);
        session_remaining_usd =
            round (settings.max_usd_per_session - sum usd (select (in_session s) rows));
        day_remaining_usd =
            round (settings.max_usd_per_day - sum usd (select (is_since m.day) rows));
        month_remaining_usd =
            round (settings.max_usd_per_month - sum usd (select (is_since m.month) rows));
      }

  -- The first ceiling that is reached, if one is.
  unfoldable pub enforce_budget : Settings → Moment → Option ℕ → List LlmCall → Option Ceiling
  enforce_budget settings m s calls =
      let b = budget_status settings m s calls in
      if is_spent b.month_remaining_usd
      then some month_usd
      else if is_spent b.day_remaining_usd
      then some day_usd
      else if is_some s && is_spent b.session_remaining_usd
      then some session_usd
      else if is_spent b.day_remaining
      then some day_tokens
      else if is_some s && is_spent b.session_remaining
      then some session_tokens
      else none

  -- The check and the row are one transaction under the advisory lock.
  unfoldable pub reserve :
      Settings → Moment → ℕ → Option ℕ → Option Rate → ℕ → ℕ → List LlmCall → Reservation
  reserve settings m id s rate max_tokens estimate calls =
      elim (enforce_budget settings m s calls) [
        | some ceiling ↦ refused ceiling
        | none ↦ granted (reserved_row m.now id s rate max_tokens estimate ∷ calls)
      ]

unfoldable pub settled_row : Usage → ℕ → Bool → ℕ → LlmCall → LlmCall
settled_row usage cost is_failed now row = record row {
  status = if is_failed then failed else settled;
  reserved_tokens = 0;
  usage = usage;
  reserved_usd = 0;
  cost_usd = cost;
  settled_at = some now;
}

-- A missing row is left missing.
unfoldable pub settle : ℕ → Usage → ℕ → Bool → ℕ → List LlmCall → List LlmCall
settle id usage cost is_failed now [] = []
settle id usage cost is_failed now (c ∷ cs) =
    let behind = settle id usage cost is_failed now cs in
    if c.id == id then settled_row usage cost is_failed now c ∷ cs else c ∷ behind

-- `db.get(LlmCall, id)`
unfoldable pub call_of : ℕ → List LlmCall → Option LlmCall
call_of id [] = none
call_of id (c ∷ cs) = let behind = call_of id cs in if c.id == id then some c else behind
