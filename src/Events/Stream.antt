-- ===== src/Events/Stream.antt =====
-- What a subscriber is given: `since` on a valid bus, and the opening and the polls of
-- `session_events` (apps/api/src/api/routes/events.py).
use interview_helper.Prelude.{
  ℕ, ◌+◌, ◌-◌, ◌≤◌, ◌<◌, ◌≡◌, refl, ◌∙◌, ◌⊎◌, ◌&&◌, not, Option, none, some, List, [], ◌∷◌, arith,
  ltb, ◌==◌, if◌then◌else◌, length, inl, inr, Option-cases, Bool-cases, select,
}
use interview_helper.Events.{
  Event, Channel, EventBus, lookup, since, latest_seq, oldest_seq, first_seq,
}
use interview_helper.Events.Gapless.{IsGapless, RunsFrom, select-after}
use interview_helper.Events.Channels.{lookup-IsGapless}
use interview_helper.Events.Bus.{IsValid, reads_of_none, reads_of_some}

module _ {ℓ} {D : Type ℓ} where
  -- The cursor that a stream opens at, and the oldest number still held if it has to report a gap.
  pub stream_open : EventBus D → ℕ → ℕ → Option ℕ × ℕ
  stream_open bus k resume =
      let oldest = oldest_seq bus k in
      if not (resume == 0) && not (oldest == 0) && ltb resume (oldest - 1)
      then (some oldest, oldest - 1)
      else (none, resume)

  -- One round of the stream: what is sent, and the cursor after it.
  abbrev cursor_after : ℕ → List (Event D) → ℕ
  cursor_after cursor [] = cursor
  cursor_after cursor (e ∷ es) = cursor_after e.seq es

  pub poll : EventBus D → ℕ → ℕ → List (Event D) × ℕ
  poll bus k cursor = let sent = since bus k cursor in (sent, cursor_after cursor sent)

  first_seq_lem :
      (n : ℕ) (es : List (Event D))
      → RunsFrom n es
      → ((first_seq es ≡ 0) × (length es ≡ 0)) ⊎ ((first_seq es ≡ n) × (0 < length es))
  first_seq_lem n [] h = inl (refl, refl)
  first_seq_lem n (e ∷ es) h = inr (h.0, omega arith)

  select_passed :
      (n after : ℕ) (es : List (Event D))
      → RunsFrom n es
      → n + length es ≤ after + 1
      → select (λ e. ltb after e.seq) es ≡ []
  select_passed n after [] h q = refl
  select_passed n after (x ∷ es) h q =
      ground (arith, select_passed (n + 1) after es h.1 (omega arith))

  cursor_after_lem :
      (cursor : ℕ) (es : List (Event D))
      → RunsFrom (cursor + 1) es
      → cursor_after cursor es ≡ length es + cursor
  cursor_after_lem cursor [] h = omega arith
  cursor_after_lem cursor (e ∷ es) h = omega (arith, cursor_after_lem e.seq es (rw h.0 h.1))

  runs_after :
      (cursor : ℕ) (c : Channel D)
      → IsGapless c
      → first_seq c.events ≤ cursor + 1
      → cursor ≤ c.seq
      → let sent = select (λ e. ltb cursor e.seq) c.events in
        RunsFrom (cursor + 1) sent × (length sent + cursor ≡ c.seq)
  runs_after cursor c g first h =
      let start = first_seq_lem (c.seq + 1 - length c.events) c.events g.runs in
      let reached : c.seq + 1 - length c.events ≤ cursor + 1 = omega (arith, g.filled) in
      let (runs, counted) =
        select-after (c.seq + 1 - length c.events) cursor c.events g.runs reached
          (omega (arith, g.filled)) in
      (runs, omega (arith, g.filled))

  since_runs :
      (bus : EventBus D) (k cursor : ℕ)
      → IsValid bus
      → oldest_seq bus k ≤ cursor + 1
      → cursor ≤ latest_seq bus k
      → RunsFrom (cursor + 1) (since bus k cursor)
        × (length (since bus k cursor) + cursor ≡ latest_seq bus k)
  since_runs bus k cursor v first h = elim (Option-cases (lookup k bus.channels)) [
    | inl absent ↦
        let (none_sent, none_seen) = reads_of_none bus k cursor absent in
        rw none_sent (tt, omega arith)
    | inr (c, found) ↦
        let (sent, latest, oldest) = reads_of_some bus k cursor c found in
        let (runs, counted) =
          runs_after cursor c (lookup-IsGapless k c bus.channels v.ready.gapless found)
            (omega arith) (omega arith) in
        rw sent (runs, omega arith)
  ]

  -- On a valid bus, a subscriber whose cursor is not before the buffer's start is sent exactly
  -- the numbers after its cursor up to the latest, in order and without a gap.
  pub poll_complete :
      (bus : EventBus D) (k cursor : ℕ)
      → IsValid bus
      → oldest_seq bus k ≤ cursor + 1
      → cursor ≤ latest_seq bus k
      → let (sent, next) = poll bus k cursor in
        RunsFrom (cursor + 1) sent
        × (length sent + cursor ≡ latest_seq bus k)
        × (next ≡ latest_seq bus k)
  unfolding poll
  poll_complete bus k cursor v first h =
      let (runs, counted) = since_runs bus k cursor v first h in
      (runs, counted, cursor_after_lem cursor (since bus k cursor) runs ∙ counted)

  oldest_seq_le : (bus : EventBus D) (k : ℕ) → IsValid bus → oldest_seq bus k ≤ latest_seq bus k
  unfolding oldest_seq
  oldest_seq_le bus k v = elim (Option-cases (lookup k bus.channels)) [
    | inl absent ↦ let none_oldest : oldest_seq bus k ≡ 0 = rw (absent, oldest_seq) in omega arith
    | inr (c, found) ↦
        let (sent, latest, oldest) = reads_of_some bus k 0 c found in
        let g = lookup-IsGapless k c bus.channels v.ready.gapless found in
        let start = first_seq_lem (c.seq + 1 - length c.events) c.events g.runs in
        omega (arith, g.filled)
  ]

  stream_open-cases :
      (bus : EventBus D) (k resume : ℕ)
      → 0 < resume
      → ((stream_open bus k resume ≡ (some (oldest_seq bus k), oldest_seq bus k - 1))
          × (resume < oldest_seq bus k - 1))
        ⊎ ((stream_open bus k resume ≡ (none, resume)) × (oldest_seq bus k ≤ resume + 1))
  unfolding stream_open
  stream_open-cases bus k resume p = elim (Bool-cases (ltb resume (oldest_seq bus k - 1))) [
    | inl gap ↦ inl (ground arith, ground arith)
    | inr kept ↦ inr (ground arith, ground arith)
  ]

  -- A client that resumes after a number that was sent, on a valid bus: either no gap is reported,
  -- the cursor is that number, and the first poll sends all that follows it; or the gap is reported
  -- with the oldest number still held, and the first poll sends everything from that number on.
  pub resume_complete :
      (bus : EventBus D) (k resume : ℕ)
      → IsValid bus
      → 0 < resume
      → resume ≤ latest_seq bus k
      → let (gap, cursor) = stream_open bus k resume in
        let (sent, next) = poll bus k cursor in
        RunsFrom (cursor + 1) sent
        × (next ≡ latest_seq bus k)
        × (((gap ≡ none) × (cursor ≡ resume))
            ⊎ ((gap ≡ some (cursor + 1)) × (cursor + 1 ≡ oldest_seq bus k) × (resume < cursor)))
  resume_complete bus k resume v p h = elim (stream_open-cases bus k resume p) [
    | inl (opened, lost) ↦
        let bound = oldest_seq_le bus k v in
        let (runs, counted, next) =
          poll_complete bus k (oldest_seq bus k - 1) v (omega arith) (omega arith) in
        let back : oldest_seq bus k - 1 + 1 ≡ oldest_seq bus k = omega arith in
        rw opened (runs, next, inr (rw back, back, lost))
    | inr (opened, kept) ↦
        let (runs, counted, next) = poll_complete bus k resume v kept h in
        rw opened (runs, next, inl (refl, refl))
  ]

  -- A client ahead of the session's numbers, as after an eviction that restarted them, is told of
  -- no gap and is sent nothing.
  pub resume_ahead :
      (bus : EventBus D) (k resume : ℕ)
      → IsValid bus
      → latest_seq bus k < resume
      → (stream_open bus k resume ≡ (none, resume)) × (since bus k resume ≡ [])
  resume_ahead bus k resume v h = (opened, passed)
    where
      opened : stream_open bus k resume ≡ (none, resume)
      opened = elim (stream_open-cases bus k resume (omega arith)) [
        | inl (_, lost) ↦ absurd (omega (arith, oldest_seq_le bus k v))
        | inr (same, _) ↦ same
      ]

      passed : since bus k resume ≡ []
      passed = elim (Option-cases (lookup k bus.channels)) [
        | inl absent ↦ (reads_of_none bus k resume absent).0
        | inr (c, found) ↦
            let (sent, latest, oldest) = reads_of_some bus k resume c found in
            let g = lookup-IsGapless k c bus.channels v.ready.gapless found in
            sent
            ∙ select_passed (c.seq + 1 - length c.events) resume c.events g.runs
                (omega (arith, g.filled))
      ]
