-- ===== src/Idempotency/Tests.antt =====
-- A handler that counts its runs, behind one key: the state is the number of runs.
use interview_helper.Prelude.{ℕ, ◌+◌, ◌≡◌, refl, true, Option, none, some, List, [], ◌∷◌, arith}
use interview_helper.Idempotency.{KeyId, Row, answered, find, expire, run_keyed}
use interview_helper.Idempotency.Retries.{Attempt, run_all, handler_runs_once, retry_replays}

abbrev counting : ℕ → Option ℕ × ℕ
counting runs = (some (100 + runs), runs + 1)

abbrev failing : ℕ → Option ℕ × ℕ
failing runs = (none, runs + 1)

abbrev key : KeyId
key = record { user_id = 1; endpoint = "POST /sessions"; key = "k1" }

abbrev empty : List (Row ℕ)
empty = []

unused : find key (expire true 10 empty) ≡ none
unfolding find expire
unused = refl

abbrev retries : List Attempt
retries =
    record { digest = 7; swept = true; at = 20 } ∷ record { digest = 8; swept = true; at = 30 } ∷ []

handler_runs_once_example :
    run_all counting key (record { digest = 7; swept = true; at = 10 } ∷ retries) empty 0 ≡ 1
handler_runs_once_example =
    handler_runs_once counting key 7 true 10 empty 0 1 100 retries unused refl
      (omega arith, (omega arith, tt))

retry_replays_example :
    let retried = run_keyed counting key 7 true 20 (run_keyed counting key 7 true 10 empty 0).1 1 in
    (retried.0 ≡ answered 100) × (retried.2 ≡ 1)
retry_replays_example =
    retry_replays counting key 7 true 10 empty 0 1 true 20 1 100 unused refl (omega arith)
