-- ===== src/Ledger/Tally.antt =====
-- What the rows of the ledger (apps/api/src/api/llm.py) add up to, as time passes and as one is settled.
use interview_helper.Prelude.{
  ℕ, ◌+◌, ◌≤◌, ◌≡◌, refl, sym, inl, inr, Bool, true, false, some, List, [], ◌∷◌, arith, ◌==◌,
  if◌then◌else◌, select, Bool-cases, All, none≢some, some-injective,
}
use mathlib.Core.Path.{subst}
use interview_helper.Ledger.{
  Usage, total, LlmCall, is_reserved, is_in_flight, contribution, sum, settled_row, settle, call_of,
}

-- A row that is still reserved was not billed for anything.
abbrev pub IsUnbilled : LlmCall → Type 0
IsUnbilled c = is_reserved c.status ≡ true → (total c.usage ≡ 0) × (c.cost_usd ≡ 0)

module _ (held actual : LlmCall → ℕ) (counts : LlmCall → Bool) where
  unfoldable pub tally : ℕ → List LlmCall → ℕ
  tally now calls = sum (contribution held actual now) (select counts calls)

  pub tally-cons :
      (now : ℕ) (c : LlmCall) (calls : List LlmCall)
      → tally now (c ∷ calls)
        ≡ (if counts c then contribution held actual now c else 0) + tally now calls
  unfolding tally sum
  tally-cons now c calls = elim (Bool-cases (counts c)) [
    | inl on ↦ rw (on, tally) refl
    | inr off ↦ rw (off, tally) (omega arith)
  ]

  pub tally-nil : (now : ℕ) → tally now [] ≡ 0
  unfolding tally sum
  tally-nil now = refl

  settled-contribution :
      (now : ℕ) (usage : Usage) (cost : ℕ) (is_failed : Bool) (c : LlmCall)
      → contribution held actual now (settled_row usage cost is_failed now c)
        ≡ actual (settled_row usage cost is_failed now c)
  unfolding contribution settled_row
  settled-contribution now usage cost true c = refl
  settled-contribution now usage cost false c = refl

  pub in_flight-contribution :
      (now : ℕ) (c : LlmCall) → is_in_flight now c ≡ true → contribution held actual now c ≡ held c
  unfolding contribution
  in_flight-contribution now c h = rw (h, contribution) refl

  pub tally-later :
      (now later : ℕ) (calls : List LlmCall)
      → now ≤ later
      → All (λ c. is_reserved c.status ≡ true → actual c ≡ 0) calls
      → tally later calls ≤ tally now calls
  unfolding contribution
  tally-later now later [] h zero_billed = ground (arith, tally-nil now, tally-nil later)
  tally-later now later (c ∷ calls) h zero_billed =
      let rest = tally-later now later calls h zero_billed.1 in
      let here : contribution held actual later c ≤ contribution held actual now c =
        elim (Bool-cases (is_reserved c.status)) [
          | inl on ↦ ground (arith, h, on, zero_billed.0 on)
          | inr off ↦ ground (arith, off)
        ] in
      ground (arith, here, rest, tally-cons now c calls, tally-cons later c calls)

  pub tally-settle :
      (now id : ℕ) (usage : Usage) (cost : ℕ) (is_failed : Bool) (calls : List LlmCall)
      (c : LlmCall)
      → call_of id calls ≡ some c
      → is_in_flight now c ≡ true
      → actual (settled_row usage cost is_failed now c) ≤ held c
      → ((d : LlmCall) → counts (settled_row usage cost is_failed now d) ≡ counts d)
      → tally now (settle id usage cost is_failed now calls) ≤ tally now calls
  unfolding call_of settle
  tally-settle now id usage cost is_failed [] c found flying covered same = absurd (none≢some found)
  tally-settle now id usage cost is_failed (x ∷ calls) c found flying covered same =
      elim (Bool-cases (x.id == id)) [
        | inl here ↦
            let e : x ≡ c = some-injective (rw (here, call_of) at found) in
            rw (here, settle)
              (subst
                (λ y.
                  tally now (settled_row usage cost is_failed now y ∷ calls)
                  ≤ tally now (y ∷ calls))
                (sym e)
                (ground (
                  arith,
                  tally-cons now c calls,
                  tally-cons now (settled_row usage cost is_failed now c) calls,
                  settled-contribution now usage cost is_failed c,
                  in_flight-contribution now c flying,
                  covered,
                  same c,
                )))
        | inr other ↦
            let rest =
              tally-settle now id usage cost is_failed calls c (rw (other, call_of) at found) flying
                covered same in
            rw (other, settle)
              (ground (
                arith,
                rest,
                tally-cons now x calls,
                tally-cons now x (settle id usage cost is_failed now calls),
              ))
      ]
