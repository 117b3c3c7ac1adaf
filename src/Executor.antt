-- ===== src/Executor.antt =====
-- apps/executor/src/executor: what `run_sandboxed` (sandbox.py) answers once the container is gone, and
-- `parse_result` (harness.py), which reads the driver's result out of what the program printed.
-- `str.splitlines` and the reading of one line (json and pydantic) are arguments.
pub mod Drain
pub mod Forgery
pub mod Probe
mod Tests
use interview_helper.Prelude.{
  ℕ, zero, Bool, true, false, ◌&&◌, ◌||◌, Option, none, some, List, [], ◌∷◌, ◌==◌, if◌then◌else◌,
  min,
}
use mathlib.Core.List.{reverse}
use Prim.Native.String.{String}

pub data Outcome : Type 0 where
  ok timeout out_of_memory pid_limit compile_error harness_error : Outcome

pub data Kind : Type 0 where
  example edge stress adversarial other : Kind

-- A Python integer, as a line can carry it.
pub data ℤ : Type 0 where
  pos negsuc : ℕ → ℤ

-- A line of the output: one that is skipped, the driver's report of an error, or its result.
pub data Line : Type 0 where
  skipped : Line
  reported : String → Line
  marker : ℤ → List Kind → Line

-- Of a failure of a test only the kind of the test is kept.
pub record ExecuteResponse : Type 0 where
  pub outcome : Outcome
  pub passed : ℕ
  pub total : ℕ
  pub failures : List Kind
  pub detail : String

abbrev pub is_gradeable : Outcome → Bool
is_gradeable ok = true
is_gradeable _ = false

-- How the container ended, as `_inspect` tells it: no exit code when the inspection failed.
unfoldable pub run_outcome : Bool → Bool → Option ℕ → Outcome
run_outcome true oom_killed exit_code = timeout
run_outcome false true exit_code = out_of_memory
run_outcome false false none = harness_error
run_outcome false false (some code) =
    if code == 137 then out_of_memory else if code == 0 then ok else harness_error

-- The response of `run_sandboxed`, which counts no tests.
unfoldable pub run_sandboxed : Bool → Bool → Option ℕ → String → ExecuteResponse
run_sandboxed timed_out oom_killed exit_code detail = record {
  outcome = run_outcome timed_out oom_killed exit_code;
  passed = 0;
  total = 0;
  failures = [];
  detail = detail;
}

-- `max(0, min(passed, total))`
unfoldable pub clamp : ℤ → ℕ → ℕ
clamp (pos n) total = min n total
clamp (negsuc n) total = 0

-- What a line makes of the response, if it is one that the parser stops at.
unfoldable pub read_line : Line → ExecuteResponse → ℕ → Option ExecuteResponse
unfolding clamp
read_line skipped raw total = none
read_line (reported error) raw total =
    some (record raw { outcome = harness_error; total = total; detail = error })
read_line (marker passed failures) raw total =
    some (record raw { passed = clamp passed total; total = total; failures = failures })

module _ (read : String → Line) where
  -- The first line that is not skipped, of the lines in the order given.
  unfoldable pub scan : List String → ExecuteResponse → ℕ → Option ExecuteResponse
  scan [] raw total = none
  scan (line ∷ lines) raw total =
      let rest = scan lines raw total in
      elim (read_line (read line) raw total) [ none ↦ rest | some response ↦ some response ]

module _ (splitlines : String → List String) (read : String → Line) where
  -- Without a result the response keeps the output itself, where the source quotes the end of it.
  unfoldable pub parse_result : ExecuteResponse → ℕ → ExecuteResponse
  parse_result raw total =
      if is_gradeable raw.outcome
      then elim (scan read (reverse (splitlines raw.detail)) raw total) [
        | none ↦ record raw { outcome = harness_error; total = total }
        | some response ↦ response
      ]
      else record raw { total = total }
