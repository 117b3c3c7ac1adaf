-- ===== src/Agent/Bounds.antt =====
-- What one turn of the interviewer can write and publish (`run_turn`, apps/api/src/api/agent/loop.py).
use interview_helper.Prelude.{
  ℕ, zero, suc, ◌+◌, ◌*◌, ◌≤◌, ◌≡◌, refl, ap, ◌∙◌, Bool, true, false, Option, List, [], ◌∷◌, ◌++◌,
  arith, leb, ◌==◌, if◌then◌else◌, length, length-append, Bool-cases, Option-cases, inl, inr,
}
use interview_helper.Agent.{
  Answer, warnings, is_empty, Tool, reveal_hint, record_observation, another, message_done,
  interviewer, tool, TurnRow, Turn, Ending, replied, capped, failed, write, publish, say, observed,
  run_tool, run_tools, rounds, run_turn,
}
use interview_helper.Agent.Announcements.{
  done_of, warnings_are_few, warnings_are_silent, done-append, heard, heard_is_short,
  heard_is_silent, opening_is_short, opening_is_silent,
}

-- The rows are numbered one by one from `n`.
unfoldable pub Numbered : ℕ → List TurnRow → Type 0
Numbered n [] = Unit
Numbered n (row ∷ rows) = (row.seq ≡ n) × Numbered (suc n) rows

-- At an end, with the messages that are published: the numbers are consecutive, every row is counted, and
-- the calls, the rows and the events are bounded.
pub record IsBounded {C : Type 0} (start : ℕ) (t : Turn C) : Type 0 where
  pub numbered : Numbered start t.rows
  pub next : t.seq ≡ start + length t.rows
  pub counted : t.written ≡ length t.rows
  pub few_calls : length t.calls ≤ 12
  pub few_rows : length t.rows ≤ 19
  pub few_events : length t.events ≤ 48
  pub few_observations : t.evidence ≤ length t.calls

-- One message is published, and it is the last row's; none, when the model raised.
unfoldable pub Ends : {C : Type 0} → ℕ → Ending C → Type 0
Ends start (replied t) =
    IsBounded start t × ((n : ℕ) × (done_of t.events ≡ n ∷ []) × (suc n ≡ t.seq))
Ends start (capped t) =
    IsBounded start t × ((n : ℕ) × (done_of t.events ≡ n ∷ []) × (suc n ≡ t.seq))
Ends start (failed t) = IsBounded start t × (done_of t.events ≡ [])

Numbered-snoc :
    (n : ℕ) (rows : List TurnRow) (row : TurnRow)
    → Numbered n rows
    → row.seq ≡ n + length rows
    → Numbered n (rows ++ (row ∷ []))
unfolding Numbered
Numbered-snoc n [] row h e = (omega (arith, e), tt)
Numbered-snoc n (r ∷ rows) row h e = (h.0, Numbered-snoc (suc n) rows row h.1 (omega (arith, e)))

-- During a turn with `spent` rounds behind it.
record Kept {C : Type 0} (start spent : ℕ) (t : Turn C) : Type 0 where
  numbered : Numbered start t.rows
  next : t.seq ≡ start + length t.rows
  counted : t.written ≡ length t.rows
  few_calls : length t.calls ≤ 12
  few_rows : length t.rows ≤ 1 + spent + length t.calls
  few_events : length t.events ≤ 1 + 3 * length t.calls + 2 * spent
  few_observations : t.evidence ≤ length t.calls
  silent : done_of t.events ≡ []

module _ {C : Type 0} (start : ℕ) where
  warned-Kept :
      (spent : ℕ) (answer : Answer) (t : Turn C)
      → Kept start spent t
      → Kept start (suc spent) (publish (warnings answer) t)
  unfolding publish
  warned-Kept spent answer t h = record {
    numbered = h.numbered;
    next = h.next;
    counted = h.counted;
    few_calls = h.few_calls;
    few_rows = omega (arith, h.few_rows);
    few_events =
        omega
          (arith, h.few_events, warnings_are_few answer, length-append t.events (warnings answer));
    few_observations = h.few_observations;
    silent =
        done-append t.events (warnings answer)
        ∙ ap (λ ns. ns ++ done_of (warnings answer)) h.silent
        ∙ warnings_are_silent answer;
  }

  -- An answer with its row.
  answered-Kept :
      (spent : ℕ) (answer : Answer) (t : Turn C)
      → Kept start spent t
      → Kept start (suc spent) (write interviewer (publish (warnings answer) t))
  unfolding write publish
  answered-Kept spent answer t h =
      let warned = warned-Kept spent answer t h in
      let row : TurnRow = record { seq = t.seq; role = interviewer } in
      let longer = length-append t.rows (row ∷ []) in
      record {
        numbered = Numbered-snoc start t.rows row h.numbered h.next;
        next = omega (arith, h.next, longer);
        counted = omega (arith, h.counted, longer);
        few_calls = h.few_calls;
        few_rows = omega (arith, h.few_rows, longer);
        few_events = warned.few_events;
        few_observations = h.few_observations;
        silent = warned.silent;
      }

  Kept-IsBounded : (spent : ℕ) (t : Turn C) → spent ≤ 5 → Kept start spent t → IsBounded start t
  Kept-IsBounded spent t few h = record {
    numbered = h.numbered;
    next = h.next;
    counted = h.counted;
    few_calls = h.few_calls;
    few_rows = omega (arith, few, h.few_rows, h.few_calls);
    few_events = omega (arith, few, h.few_events, h.few_calls);
    few_observations = h.few_observations;
  }

  say-Ends :
      (spent : ℕ) (t : Turn C)
      → spent ≤ 5
      → Kept start spent t
      → IsBounded start (say t)
        × ((n : ℕ) × (done_of (say t).events ≡ n ∷ []) × (suc n ≡ (say t).seq))
  unfolding say publish write done_of
  say-Ends spent t few h =
      let row : TurnRow = record { seq = t.seq; role = interviewer } in
      let longer = length-append t.rows (row ∷ []) in
      let louder = length-append t.events (message_done t.seq ∷ []) in
      (
        record {
          numbered = Numbered-snoc start t.rows row h.numbered h.next;
          next = omega (arith, h.next, longer);
          counted = omega (arith, h.counted, longer);
          few_calls = h.few_calls;
          few_rows = omega (arith, few, h.few_rows, h.few_calls, longer);
          few_events = omega (arith, few, h.few_events, h.few_calls, louder);
          few_observations = h.few_observations;
        },
        (
          t.seq,
          done-append t.events (message_done t.seq ∷ []) ∙ ap (λ ns. ns ++ (t.seq ∷ [])) h.silent,
          refl,
        ),
      )

observed_is_one :
    (asked : Tool) (is_error : Bool) (n : ℕ) → (if is_error then n else n + observed asked) ≤ suc n
unfolding observed
observed_is_one asked true n = omega arith
observed_is_one reveal_hint false n = omega arith
observed_is_one record_observation false n = omega arith
observed_is_one (another i) false n = omega arith

module _ {C : Type 0} (dispatch : Tool → C → C × Bool) (start spent : ℕ) where
  run_tool-Kept :
      (asked : Tool) (t : Turn C)
      → suc (length t.calls) ≤ 12
      → Kept start spent t
      → Kept start spent (run_tool dispatch asked t)
  unfolding run_tool write
  run_tool-Kept asked t room h =
      let is_error = (dispatch asked t.context).1 in
      let row : TurnRow = record { seq = t.seq; role = tool } in
      let longer = length-append t.rows (row ∷ []) in
      let louder = length-append t.events (heard asked is_error) in
      let one_more = length-append t.calls (asked ∷ []) in
      record {
        numbered = Numbered-snoc start t.rows row h.numbered h.next;
        next = omega (arith, h.next, longer);
        counted = omega (arith, h.counted, longer);
        few_calls = omega (arith, room, one_more);
        few_rows = omega (arith, h.few_rows, longer, one_more);
        few_events = omega (arith, h.few_events, louder, one_more, heard_is_short asked is_error);
        few_observations =
            omega (arith, h.few_observations, one_more, observed_is_one asked is_error t.evidence);
        silent =
            done-append t.events (heard asked is_error)
            ∙ ap (λ ns. ns ++ done_of (heard asked is_error)) h.silent
            ∙ heard_is_silent asked is_error;
      }

  run_tools-Kept :
      (uses : List Tool) (t : Turn C)
      → Kept start spent t
      → Kept start spent (run_tools dispatch uses t).0
  unfolding run_tools
  run_tools-Kept [] t h = h
  run_tools-Kept (asked ∷ uses) t h = elim (Bool-cases (leb 12 (length t.calls))) [
    | inl full ↦ rw (full, run_tools) h
    | inr room ↦
        rw (room, run_tools)
          (run_tools-Kept uses (run_tool dispatch asked t)
            (run_tool-Kept asked t (ground (arith, room)) h))
  ]

module _ {C : Type 0} (ask : List TurnRow → C → Option Answer) (dispatch : Tool → C → C × Bool)
    (start : ℕ) where
  rounds-Ends :
      (left spent : ℕ) (t : Turn C)
      → spent + left ≡ 5
      → Kept start spent t
      → Ends start (rounds ask dispatch left t)
  unfolding rounds Ends
  rounds-Ends zero spent t whole h = say-Ends start spent t (omega (arith, whole)) h
  rounds-Ends (suc left) spent t whole h = elim (Option-cases (ask t.rows t.context)) [
    | inl raised ↦
        rw (raised, rounds) (Kept-IsBounded start spent t (omega (arith, whole)) h, h.silent)
    | inr (answer, asked) ↦
        let warned = publish (warnings answer) t in
        let used = run_tools dispatch answer.uses (write interviewer warned) in
        let kept : Kept start (suc spent) used.0 =
          run_tools-Kept dispatch start (suc spent) answer.uses (write interviewer warned)
            (answered-Kept start spent answer t h) in
        let onward = rounds-Ends left (suc spent) used.0 (omega (arith, whole)) kept in
        elim (Bool-cases (is_empty answer.uses)) [
          | inl text ↦
              rw (asked, text, rounds)
                (say-Ends start (suc spent) warned (omega (arith, whole))
                  (warned-Kept start spent answer t h))
          | inr wants ↦ elim (Bool-cases used.1) [
            | inl cut ↦
                rw (asked, wants, cut, rounds)
                  (say-Ends start (suc spent) used.0 (omega (arith, whole)) kept)
            | inr through ↦ rw (asked, wants, through, rounds) onward
          ]
        ]
  ]

  -- However the model answers, whatever ceilings come in sight and whatever the tools do, at the end of a turn (a reply, the reply of the
  -- cap, or an exception of the model) its rows are numbered one by one from `next_seq`,
  -- `turns_written` counts them, there are at most 12 tool calls, 19 rows and 48 events (budget
  -- warnings counted, deltas not),
  -- and no more evidence than calls. A turn that ends with a reply has published exactly one
  -- `agent.message.done`, with the number of its last row; one that raised has published none.
  pub run_turn-Ends : (context : C) → Ends start (run_turn ask dispatch start context)
  unfolding run_turn write Numbered done_of
  run_turn-Ends context = rounds-Ends 5 0 _ refl (record {
    numbered = (refl, tt);
    next = omega arith;
    counted = refl;
    few_calls = omega arith;
    few_rows = omega arith;
    few_events = omega (arith, opening_is_short (suc start == 2));
    few_observations = omega arith;
    silent = opening_is_silent (suc start == 2);
  })
