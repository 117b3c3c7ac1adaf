-- ===== src/Events/Gapless.antt =====
-- The sequence numbers of one channel's buffer (apps/api/src/api/events.py): `push`, and what `since` reads of them.
use interview_helper.Prelude.{
  ℕ, zero, suc, ◌+◌, ◌-◌, ◌≤◌, ◌<◌, ◌≡◌, refl, min, List, [], ◌∷◌, ◌++◌, arith, ltb, length, drop,
  select, length-append, length-drop, Bool-cases, inl, inr,
}
use interview_helper.Events.{Event, Channel, push, buffer_size}

module _ {ℓ} {D : Type ℓ} where
  -- The numbers run from `n` upwards without a gap.
  abbrev pub RunsFrom : ℕ → List (Event D) → Type 0
  RunsFrom n [] = Unit
  RunsFrom n (e ∷ es) = (e.seq ≡ n) × RunsFrom (n + 1) es

  -- A channel holds the last `buffer_size` of its numbered events, or all of them.
  pub record IsGapless (c : Channel D) : Type 0 where
    pub filled : length c.events ≡ min c.seq buffer_size
    pub runs : RunsFrom (c.seq + 1 - length c.events) c.events

  RunsFrom-snoc :
      (n : ℕ) (es : List (Event D)) (e : Event D)
      → RunsFrom n es
      → e.seq ≡ n + length es
      → RunsFrom n (es ++ (e ∷ []))
  RunsFrom-snoc n [] e h q = (omega arith, tt)
  RunsFrom-snoc n (x ∷ es) e h q = (h.0, RunsFrom-snoc (n + 1) es e h.1 (omega arith))

  RunsFrom-drop :
      (n k m : ℕ) (es : List (Event D)) → RunsFrom n es → m ≡ n + k → RunsFrom m (drop k es)
  RunsFrom-drop n zero m es h q = let e : m ≡ n = omega arith in rw e h
  RunsFrom-drop n (suc k) m [] h q = tt
  RunsFrom-drop n (suc k) m (x ∷ es) h q = RunsFrom-drop (n + 1) k m es h.1 (omega arith)

  length-push :
      (es : List (Event D)) (e : Event D) → length (push es e) ≡ min (length es + 1) buffer_size
  unfolding push
  length-push es e = omega (
    arith,
    length-drop (length (es ++ (e ∷ [])) - buffer_size) (es ++ (e ∷ [])),
    length-append es (e ∷ []),
  )

  -- Appending the next number keeps a channel gapless, also when the oldest event falls out.
  pub push-IsGapless :
      (c : Channel D) (e : Event D)
      → IsGapless c
      → e.seq ≡ c.seq + 1
      → IsGapless (record { seq = c.seq + 1; events = push c.events e })
  unfolding push
  push-IsGapless c e h q = record {
    filled = omega (arith, length-push c.events e, h.filled);
    runs =
        RunsFrom-drop (c.seq + 1 - length c.events) (length (c.events ++ (e ∷ [])) - buffer_size) _
          (c.events ++ (e ∷ []))
          (RunsFrom-snoc (c.seq + 1 - length c.events) c.events e h.runs (omega (arith, h.filled)))
          (omega (arith, length-push c.events e, h.filled, length-append c.events (e ∷ [])));
  }

  select-late :
      (n after : ℕ) (es : List (Event D))
      → RunsFrom n es
      → after < n
      → select (λ e. ltb after e.seq) es ≡ es
  select-late n after [] h q = refl
  select-late n after (x ∷ es) h q = ground (arith, select-late (n + 1) after es h.1 (omega arith))

  -- What is read after a number at or past the buffer's start is the run that follows it.
  pub select-after :
      (n after : ℕ) (es : List (Event D))
      → RunsFrom n es
      → n ≤ after + 1
      → after < n + length es
      → RunsFrom (after + 1) (select (λ e. ltb after e.seq) es)
        × (length (select (λ e. ltb after e.seq) es) + after + 1 ≡ n + length es)
  select-after n after [] h q r = (tt, omega arith)
  select-after n after (x ∷ es) h q r = elim (Bool-cases (ltb after x.seq)) [
    | inl late ↦
        let same = select-late (n + 1) after es h.1 (ground arith) in
        let first : n ≡ after + 1 = ground arith in rw (late, same, ← first) (h, omega arith)
    | inr seen ↦
        let (runs, counted) = select-after (n + 1) after es h.1 (ground arith) (omega arith) in
        rw seen (runs, omega arith)
  ]
