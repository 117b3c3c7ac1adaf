-- ===== src/Events/Tests.antt =====
-- A bus with room for two sessions: one has published three events, the other none.
use interview_helper.Prelude.{
  ℕ, ◌+◌, ◌≤◌, ◌<◌, ◌≡◌, ◌≢◌, refl, ◌⊎◌, none, some, [], ◌∷◌, arith, length,
}
use interview_helper.Events.{
  Event, Channel, EventBus, lookup, remove, admit, present, next_event, append_event, push, publish,
  since, latest_seq, oldest_seq,
}
use interview_helper.Events.Gapless.{RunsFrom}
use interview_helper.Events.Bus.{IsValid}
use interview_helper.Events.Stream.{stream_open, poll, poll_complete, resume_complete, resume_ahead}

abbrev numbered : ℕ → Event ℕ
numbered n = record { seq = n; event_type = "turn.delta"; fields = 0; at = n }

abbrev spoken : Channel ℕ
spoken = record { seq = 3; events = numbered 1 ∷ numbered 2 ∷ numbered 3 ∷ [] }

abbrev quiet : Channel ℕ
quiet = record { seq = 1; events = numbered 1 ∷ [] }

abbrev roomy_bus : EventBus ℕ
roomy_bus = record { channels = (7, spoken) ∷ []; max_channels = 2 }

abbrev full_bus : EventBus ℕ
full_bus = record { channels = (7, spoken) ∷ (8, quiet) ∷ []; max_channels = 2 }

roomy_bus-IsValid : IsValid roomy_bus
unfolding lookup
roomy_bus-IsValid = record {
  roomy = omega arith;
  ready = record {
    bounded = omega arith;
    distinct = (refl, tt);
    gapless = (record { filled = omega arith; runs = (refl, (refl, (refl, tt))) }, tt);
  };
}

full_bus-IsValid : IsValid full_bus
unfolding lookup
full_bus-IsValid = record {
  roomy = omega arith;
  ready = record {
    bounded = omega arith;
    distinct = (refl, (refl, tt));
    gapless = (
      record { filled = omega arith; runs = (refl, (refl, (refl, tt))) },
      (record { filled = omega arith; runs = (refl, tt) }, tt),
    );
  };
}

-- The bus after a fourth event of the first session.
abbrev bus_of_four : EventBus ℕ
bus_of_four = record {
  channels =
      (8, quiet)
      ∷ (7, record { seq = 4; events = numbered 1 ∷ numbered 2 ∷ numbered 3 ∷ numbered 4 ∷ [] })
      ∷ [];
  max_channels = 2;
}

published_four : publish full_bus 7 "turn.delta" 0 4 ≡ some (bus_of_four, numbered 4)
unfolding publish append_event present next_event push lookup remove
published_four = refl

known : lookup 7 full_bus.channels ≢ none
unfolding lookup
known e = ground arith

-- The bus after the first event of a third session.
abbrev bus_of_nine : EventBus ℕ
bus_of_nine = record {
  channels = (8, quiet) ∷ (9, record { seq = 1; events = numbered 1 ∷ [] }) ∷ [];
  max_channels = 2;
}

published_nine : publish full_bus 9 "turn.delta" 0 1 ≡ some (bus_of_nine, numbered 1)
unfolding publish append_event present admit next_event push lookup remove
published_nine = refl

absent_nine : lookup 9 full_bus.channels ≡ none
unfolding lookup
absent_nine = refl

within : (oldest_seq roomy_bus 7 ≤ 2) × (1 ≤ latest_seq roomy_bus 7) × (latest_seq roomy_bus 7 < 9)
unfolding oldest_seq latest_seq lookup
within = (omega arith, omega arith, omega arith)

poll_complete_example :
    let (sent, next) = poll roomy_bus 7 1 in
    RunsFrom 2 sent × (length sent + 1 ≡ latest_seq roomy_bus 7) × (next ≡ latest_seq roomy_bus 7)
poll_complete_example = poll_complete roomy_bus 7 1 roomy_bus-IsValid within.0 within.1

resume_complete_example :
    let (gap, cursor) = stream_open roomy_bus 7 1 in
    let (sent, next) = poll roomy_bus 7 cursor in
    RunsFrom (cursor + 1) sent
    × (next ≡ latest_seq roomy_bus 7)
    × (((gap ≡ none) × (cursor ≡ 1))
        ⊎ ((gap ≡ some (cursor + 1)) × (cursor + 1 ≡ oldest_seq roomy_bus 7) × (1 < cursor)))
resume_complete_example = resume_complete roomy_bus 7 1 roomy_bus-IsValid (omega arith) within.1

resume_ahead_example : (stream_open roomy_bus 7 9 ≡ (none, 9)) × (since roomy_bus 7 9 ≡ [])
resume_ahead_example = resume_ahead roomy_bus 7 9 roomy_bus-IsValid within.2
