-- ===== src/Executor/Tests.antt =====
-- Concrete runs: a program that prints a forged result before the driver prints its own.
use interview_helper.Prelude.{
  ℕ, ◌≤◌, ◌≡◌, refl, true, false, Option, some, List, [], ◌∷◌, arith, length, max, if◌then◌else◌,
}
use Prim.Native.String.{String}
use text.Mathlib.Text.{◌==◌ as str_eq}
use interview_helper.Executor.{
  ok, edge, ℤ, pos, Line, skipped, marker, ExecuteResponse, run_sandboxed, parse_result,
}
use interview_helper.Executor.Forgery.{Trusted, parse_result-Trusted}
use interview_helper.Executor.Drain.{tail_of, join, drain, drain-tail_of}
use interview_helper.Executor.Probe.{
  linear, Point, penalises, first_is_absurd, largest_time, at_least, band_ceiling, judge,
  judge_band, judge_slope, at_most,
}

-- The output of one program, cut into lines, and how its lines are read.
abbrev lines_of : String → List String
lines_of text = "forged" ∷ "result" ∷ "bye" ∷ []

abbrev read_text : String → Line
read_text line =
    if str_eq line "forged"
    then marker (pos 10000) []
    else if str_eq line "result"
    then marker (pos 2) (edge ∷ [])
    else skipped

abbrev finished : ExecuteResponse
finished = record { outcome = ok; passed = 0; total = 0; failures = []; detail = "…" }

parse_result-Trusted_example :
    Trusted lines_of read_text false false
      (some 0)
      "…"
      3
      (parse_result lines_of read_text (run_sandboxed false false (some 0) "…") 3)
parse_result-Trusted_example = parse_result-Trusted lines_of read_text false false (some 0) "…" 3

abbrev reads : List (List ℕ)
reads = (1 ∷ 2 ∷ []) ∷ (3 ∷ 4 ∷ []) ∷ (5 ∷ 6 ∷ []) ∷ (7 ∷ []) ∷ []

drain-tail_of_example :
    let kept = join (drain 4 reads).chunks in
    (tail_of 3 kept ≡ tail_of 3 (join reads)) × (length kept ≤ max 4 2)
drain-tail_of_example =
    drain-tail_of 4 3 2 (omega arith) reads
      (omega arith, (omega arith, (omega arith, (omega arith, tt))))

abbrev points : List Point
points =
    record { size = 1000; time = 1000000 }
    ∷ record { size = 2000; time = 4000000 }
    ∷ record { size = 4000; time = 16000000 }
    ∷ []

abbrev fit : List Point → Option ℤ
fit _ = some (pos 200)

judged_slower : penalises (judge fit (some linear) points false).verdict ≡ true
unfolding judge judge_band judge_slope first_is_absurd largest_time at_most at_least band_ceiling
judged_slower = refl
