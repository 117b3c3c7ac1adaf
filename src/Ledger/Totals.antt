-- ===== src/Ledger/Totals.antt =====
-- The totals of `budget_status` and the check of `enforce_budget` (apps/api/src/api/llm.py).
use interview_helper.Prelude.{
  ℕ, ◌-◌, ◌≤◌, ◌<◌, ◌≡◌, refl, ◌∙◌, sym, ap, ◌⊎◌, inl, inr, Bool, true, false, Option, none, some,
  List, [], ◌∷◌, arith, ltb, select, Bool-cases,
}
use interview_helper.Ledger.{
  LlmCall, Moment, Settings, Ceiling, month_usd, day_usd, session_usd, day_tokens, session_tokens,
  BudgetStatus, Reservation, refused, granted, Rate, is_since, in_session, is_relevant, is_spent,
  sum, spent, token_contribution, usd_contribution, budget_status, enforce_budget, reserve,
  reserved_row,
}

select-select :
    (p q : LlmCall → Bool) (calls : List LlmCall)
    → ((c : LlmCall) → p c ≡ true → q c ≡ true)
    → select p (select q calls) ≡ select p calls
select-select p q [] h = refl
select-select p q (c ∷ calls) h =
    let rest = select-select p q calls h in
    elim (Bool-cases (p c)) [
      | inl on ↦ let q_on : q c ≡ true = h c on in rw (q_on, on) (ap (λ cs. c ∷ cs) rest)
      | inr off ↦ elim (Bool-cases (q c)) [
        | inl q_on ↦ rw (q_on, off) rest
        | inr q_off ↦ rw (q_off, off) rest
      ]
    ]

-- What is left of an amount, as `max(0, limit - spent)`, against what is spent in a scope.
abbrev pub usd_in : Moment → Option ℕ → Option ℕ → List LlmCall → ℕ
usd_in m s since calls = spent (usd_contribution m.now) s since calls

abbrev pub tokens_in : Moment → Option ℕ → Option ℕ → List LlmCall → ℕ
tokens_in m s since calls = spent (token_contribution m.now) s since calls

module _ (settings : Settings) (m : Moment) (s : Option ℕ) (calls : List LlmCall) where
  day_rows :
      select (is_since m.day) (select (is_relevant m s) calls) ≡ select (is_since m.day) calls
  day_rows = select-select (is_since m.day) (is_relevant m s) calls (λ c h. ground (arith, h))

  month_rows :
      select (is_since m.month) (select (is_relevant m s) calls) ≡ select (is_since m.month) calls
  month_rows = select-select (is_since m.month) (is_relevant m s) calls (λ c h. ground (arith, h))

  session_rows :
      select (in_session s) (select (is_relevant m s) calls) ≡ select (in_session s) calls
  session_rows = select-select (in_session s) (is_relevant m s) calls (λ c h. ground (arith, h))

module _ (round : ℕ → ℕ) (settings : Settings) (m : Moment) (s : ℕ) (calls : List LlmCall) where
  -- A ceiling that is reached: in dollars, what is left of it rounds to nothing.
  abbrev pub IsReached : Ceiling → Type 0
  IsReached month_usd = round (settings.max_usd_per_month - usd_in m none (some m.month) calls) ≡ 0
  IsReached day_usd = round (settings.max_usd_per_day - usd_in m none (some m.day) calls) ≡ 0
  IsReached session_usd = round (settings.max_usd_per_session - usd_in m (some s) none calls) ≡ 0
  IsReached day_tokens = settings.max_tokens_per_day ≤ tokens_in m none (some m.day) calls
  IsReached session_tokens = settings.max_tokens_per_session ≤ tokens_in m (some s) none calls

  -- Room under every ceiling.
  pub record HasRoom : Type 0 where
    pub month_usd_room : usd_in m none (some m.month) calls < settings.max_usd_per_month
    pub day_usd_room : usd_in m none (some m.day) calls < settings.max_usd_per_day
    pub session_usd_room : usd_in m (some s) none calls < settings.max_usd_per_session
    pub day_room : tokens_in m none (some m.day) calls < settings.max_tokens_per_day
    pub session_room : tokens_in m (some s) none calls < settings.max_tokens_per_session

  -- What a reservation may say.
  abbrev pub Answers : LlmCall → Reservation → Type 0
  Answers row (refused ceiling) = IsReached ceiling
  Answers row (granted calls') = HasRoom × (calls' ≡ row ∷ calls)

  left : BudgetStatus
  left = budget_status round settings m (some s) calls

  month_left :
      left.month_remaining_usd
      ≡ round (settings.max_usd_per_month - usd_in m none (some m.month) calls)
  unfolding left budget_status spent
  month_left =
      ap (λ rows. round (settings.max_usd_per_month - sum (usd_contribution m.now) rows))
        (month_rows settings m (some s) calls)

  day_usd_left :
      left.day_remaining_usd ≡ round (settings.max_usd_per_day - usd_in m none (some m.day) calls)
  unfolding left budget_status spent
  day_usd_left =
      ap (λ rows. round (settings.max_usd_per_day - sum (usd_contribution m.now) rows))
        (day_rows settings m (some s) calls)

  session_usd_left :
      left.session_remaining_usd
      ≡ round (settings.max_usd_per_session - usd_in m (some s) none calls)
  unfolding left budget_status spent
  session_usd_left =
      ap (λ rows. round (settings.max_usd_per_session - sum (usd_contribution m.now) rows))
        (session_rows settings m (some s) calls)

  day_left : left.day_remaining ≡ settings.max_tokens_per_day - tokens_in m none (some m.day) calls
  unfolding left budget_status spent
  day_left =
      ap (λ rows. settings.max_tokens_per_day - sum (token_contribution m.now) rows)
        (day_rows settings m (some s) calls)

  session_left :
      left.session_remaining ≡ settings.max_tokens_per_session - tokens_in m (some s) none calls
  unfolding left budget_status spent
  session_left =
      ap (λ rows. settings.max_tokens_per_session - sum (token_contribution m.now) rows)
        (session_rows settings m (some s) calls)

  none_left : (x : ℕ) → is_spent x ≡ true → x ≡ 0
  none_left x h = ground (arith, h)

  room_left :
      round 0 ≡ 0
      → (x limit used : ℕ) → x ≡ round (limit - used)
      → is_spent x ≡ false
      → used < limit
  room_left zero_kept x limit used e h = elim (Bool-cases (ltb used limit)) [
    | inl on ↦ ground (arith, on)
    | inr off ↦
        let nothing : limit - used ≡ 0 = ground (arith, off) in
        absurd (ground (arith, h, e ∙ ap round nothing ∙ zero_kept))
  ]

  enforced :
      round 0 ≡ 0
      → ((c : Ceiling) × (enforce_budget round settings m (some s) calls ≡ some c) × IsReached c)
        ⊎ ((enforce_budget round settings m (some s) calls ≡ none) × HasRoom)
  unfolding enforce_budget left
  enforced zero_kept = elim (Bool-cases (is_spent left.month_remaining_usd)) [
    | inl r ↦ inl (month_usd, rw (r, enforce_budget, left) refl, sym month_left ∙ none_left _ r)
    | inr a ↦ elim (Bool-cases (is_spent left.day_remaining_usd)) [
      | inl r ↦
          inl (day_usd, rw (a, r, enforce_budget, left) refl, sym day_usd_left ∙ none_left _ r)
      | inr b ↦ elim (Bool-cases (is_spent left.session_remaining_usd)) [
        | inl r ↦ inl (
          session_usd,
          rw (a, b, r, enforce_budget, left) refl,
          sym session_usd_left ∙ none_left _ r,
        )
        | inr c ↦ elim (Bool-cases (is_spent left.day_remaining)) [
          | inl r ↦ inl (
            day_tokens,
            rw (a, b, c, r, enforce_budget, left) refl,
            ground (arith, day_left, none_left _ r),
          )
          | inr d ↦ elim (Bool-cases (is_spent left.session_remaining)) [
            | inl r ↦ inl (
              session_tokens,
              rw (a, b, c, d, r, enforce_budget, left) refl,
              ground (arith, session_left, none_left _ r),
            )
            | inr e ↦ inr (
              rw (a, b, c, d, e, enforce_budget, left) refl,
              record {
                month_usd_room = room_left zero_kept _ _ _ month_left a;
                day_usd_room = room_left zero_kept _ _ _ day_usd_left b;
                session_usd_room = room_left zero_kept _ _ _ session_usd_left c;
                day_room = ground (arith, day_left, d);
                session_room = ground (arith, session_left, e);
              },
            )
          ]
        ]
      ]
    ]
  ]

  -- A reservation for a session is refused only by a ceiling that is reached (in dollars: what is left of
  -- it rounds to zero). It is granted only with room under all five, and then adds one row, with the most
  -- that the call may use. What is spent
  -- against a ceiling is what `tokens_spent` and `usd_spent` count, over the whole ledger. `round` is any
  -- function that keeps zero.
  pub reserve-Answers :
      round 0 ≡ 0
      → (id : ℕ) (rate : Option Rate) (max_tokens estimate : ℕ)
      → Answers
          (reserved_row m.now id (some s) rate max_tokens estimate)
          (reserve round settings m id (some s) rate max_tokens estimate calls)
  unfolding reserve
  reserve-Answers zero_kept id rate max_tokens estimate = elim (enforced zero_kept) [
    | inl spent_up ↦ rw (spent_up.1, reserve) spent_up.2
    | inr room ↦ rw (room.0, reserve) (room.1, refl)
  ]
