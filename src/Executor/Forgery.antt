-- ===== src/Executor/Forgery.antt =====
-- What a program can make of its own result by what it prints: `parse_result`
-- (apps/executor/src/executor/harness.py) behind `run_sandboxed`.
use interview_helper.Prelude.{
  ℕ, ◌≤◌, ◌≡◌, refl, ◌∙◌, ap, sym, none≢some, ◌⊎◌, inl, inr, Bool, true, false, Option, none, some,
  List, [], ◌∷◌, ◌++◌, arith, ◌==◌, ==_iff, some-injective, All, All-append, Bool-cases,
  Option-cases,
}
use mathlib.Core.List.{reverse, reverse-reverse, reverse-cons, reverse-append, append_assoc}
use Prim.Native.String.{String}
use interview_helper.Executor.{
  Kind, ℤ, pos, negsuc, Line, skipped, reported, marker, ExecuteResponse, is_gradeable, run_outcome,
  run_sandboxed, clamp, read_line, scan, parse_result,
}

clamp-bounded : (passed : ℤ) (total : ℕ) → clamp passed total ≤ total
unfolding clamp
clamp-bounded (pos n) total = omega arith
clamp-bounded (negsuc n) total = omega arith

All-reverse : {A : Type 0} (P : A → Type 0) (xs : List A) → All P xs → All P (reverse xs)
All-reverse P [] all_ = all_
All-reverse P (x ∷ xs) all_ =
    rw (reverse-cons x xs)
      (All-append P (reverse xs) (x ∷ []) (All-reverse P xs all_.1) (all_.0, tt))

exit-gradeable : (code : ℕ) → is_gradeable (run_outcome false false (some code)) ≡ true → code ≡ 0
unfolding run_outcome
exit-gradeable code clean = elim (Bool-cases (code == 137)) [
  | inl killed ↦ ground (arith, rw killed at clean)
  | inr other ↦ elim (Bool-cases (code == 0)) [
    | inl zero_ ↦ (==_iff code 0).0 zero_
    | inr nonzero ↦ ground (arith, rw nonzero at (rw other at clean))
  ]
]

-- Only a container that was not stopped and exited with 0 has an outcome that counts.
run_outcome-gradeable :
    (timed_out oom_killed : Bool) (exit_code : Option ℕ)
    → is_gradeable (run_outcome timed_out oom_killed exit_code) ≡ true
    → (timed_out ≡ false) × (oom_killed ≡ false) × (exit_code ≡ some 0)
unfolding run_outcome
run_outcome-gradeable true oom_killed exit_code clean = ground (arith, clean)
run_outcome-gradeable false true exit_code clean = ground (arith, clean)
run_outcome-gradeable false false none clean = ground (arith, clean)
run_outcome-gradeable false false (some code) clean =
    (refl, refl, ap some (exit-gradeable code clean))

backwards :
    (earlier later : List String) (line : String)
    → reverse (earlier ++ (line ∷ later)) ≡ reverse later ++ (line ∷ reverse earlier)
backwards earlier later line =
    reverse-append earlier (line ∷ later)
    ∙ ap (λ lines. lines ++ reverse earlier) (reverse-cons line later)
    ∙ append_assoc (reverse later) (line ∷ []) (reverse earlier)

module _ (read : String → Line) where
  scan_here :
      (line : String) (rest : List String) (raw : ExecuteResponse) (total : ℕ) (passed : ℤ)
      (failures : List Kind)
      → read line ≡ marker passed failures
      → scan read (line ∷ rest) raw total
        ≡ some (record raw { passed = clamp passed total; total = total; failures = failures })
  unfolding scan read_line
  scan_here line rest raw total passed failures result = rw (result, scan) refl

  scan-skipped :
      (lines rest : List String) (raw : ExecuteResponse) (total : ℕ)
      → All (λ line. read line ≡ skipped) lines
      → scan read (lines ++ rest) raw total ≡ scan read rest raw total
  unfolding scan read_line
  scan-skipped [] rest raw total noise = refl
  scan-skipped (line ∷ lines) rest raw total noise =
      rw (noise.0, scan) (scan-skipped lines rest raw total noise.1)

  read_line-skipped :
      (l : Line) (raw : ExecuteResponse) (total : ℕ) → read_line l raw total ≡ none → l ≡ skipped
  unfolding read_line
  read_line-skipped skipped raw total h = refl
  read_line-skipped (reported error) raw total h = absurd (none≢some (sym h))
  read_line-skipped (marker passed failures) raw total h = absurd (none≢some (sym h))

  -- What the scan answers was read from the first of the lines that is not skipped.
  record Found (lines : List String) (raw response : ExecuteResponse) (total : ℕ) : Type 0 where
    before : List String
    line : String
    after : List String
    split_ : lines ≡ before ++ (line ∷ after)
    noise : All (λ l. read l ≡ skipped) before
    here : read_line (read line) raw total ≡ some response

  scan-Found :
      (lines : List String) (raw response : ExecuteResponse) (total : ℕ)
      → scan read lines raw total ≡ some response
      → Found lines raw response total
  unfolding scan
  scan-Found [] raw response total found = ground (arith, found)
  scan-Found (line ∷ lines) raw response total found =
      elim (Option-cases (read_line (read line) raw total)) [
        | inl no_result ↦
            let f = scan-Found lines raw response total (rw (no_result, scan) at found) in
            record {
              before = line ∷ f.before;
              line = f.line;
              after = f.after;
              split_ = ap (λ ls. line ∷ ls) f.split_;
              noise = (read_line-skipped (read line) raw total no_result, f.noise);
              here = f.here;
            }
        | inr result ↦ record {
          before = [];
          line = line;
          after = lines;
          split_ = refl;
          noise = tt;
          here = result.1 ∙ rw (result.1, scan) at found;
        }
      ]

module _ (splitlines : String → List String) (read : String → Line) where
  -- Of the lines that a program printed, the last that is a result decides: whatever was printed before
  -- it, also a forged result, changes nothing.
  pub parse_result-last :
      (earlier later : List String) (line : String) (passed : ℤ) (failures : List Kind)
      (raw : ExecuteResponse) (total : ℕ)
      → is_gradeable raw.outcome ≡ true
      → splitlines raw.detail ≡ earlier ++ (line ∷ later)
      → read line ≡ marker passed failures
      → All (λ after. read after ≡ skipped) later
      → parse_result splitlines read raw total
        ≡ record raw { passed = clamp passed total; total = total; failures = failures }
  unfolding parse_result
  parse_result-last earlier later line passed failures raw total clean printed result noise =
      let behind =
        scan-skipped read (reverse later) (line ∷ reverse earlier) raw total
          (All-reverse (λ after. read after ≡ skipped) later noise) in
      rw (clean, printed, backwards earlier later line, behind)
        (rw (scan_here read line (reverse earlier) raw total passed failures result) refl)

  -- The count of passed tests is from a result line among the printed ones, and every line printed after
  -- it is one that the parser skips.
  abbrev pub IsLastResult : String → ℕ → ExecuteResponse → Type 0
  IsLastResult detail total response =
      (earlier later : List String) × (line : String) × (passed : ℤ) × (failures : List Kind)
      × (splitlines detail ≡ earlier ++ (line ∷ later))
      × (read line ≡ marker passed failures)
      × All (λ after. read after ≡ skipped) later
      × (response.passed ≡ clamp passed total)
      × (response.failures ≡ failures)

  -- What is known of a response to a run.
  abbrev pub Trusted : Bool → Bool → Option ℕ → String → ℕ → ExecuteResponse → Type 0
  Trusted timed_out oom_killed exit_code detail total response =
      (response.total ≡ total)
      × (response.passed ≤ total)
      × ((is_gradeable response.outcome ≡ false)
          ⊎ ((timed_out ≡ false)
              × (oom_killed ≡ false)
              × (exit_code ≡ some 0)
              × IsLastResult detail total response))

  read_line-Trusted :
      (timed_out oom_killed : Bool) (exit_code : Option ℕ) (detail : String) (total : ℕ)
      (raw : ExecuteResponse) (earlier later : List String) (line : String) (l : Line)
      (response : ExecuteResponse)
      → (timed_out ≡ false) × (oom_killed ≡ false) × (exit_code ≡ some 0)
      → raw.passed ≡ 0
      → splitlines detail ≡ earlier ++ (line ∷ later)
      → All (λ after. read after ≡ skipped) later
      → read line ≡ l
      → read_line l raw total ≡ some response
      → Trusted timed_out oom_killed exit_code detail total response
  unfolding read_line
  read_line-Trusted t o c detail total raw earlier later line skipped response exit uncounted
        printed noise same found =
      ground (arith, found)
  read_line-Trusted t o c detail total raw earlier later line (reported error) response exit
        uncounted printed noise same found =
      rw (← some-injective found) (refl, omega (arith, uncounted), inl refl)
  read_line-Trusted t o c detail total raw earlier later line (marker passed failures) response exit
        uncounted printed noise same found =
      rw (← some-injective found) (
        refl,
        clamp-bounded passed total,
        inr (
          exit.0,
          exit.1,
          exit.2,
          (earlier, later, line, passed, failures, printed, same, noise, refl, refl),
        ),
      )

  -- The response to a run holds the caller's own count of the tests, and of passed tests no more than
  -- that, whatever was printed. It counts as a run only if the container was neither stopped nor killed,
  -- exited with 0, and printed a result: its count of passed tests and its failures are those of the
  -- last result line that was printed, with nothing behind it but lines that the parser skips.
  pub parse_result-Trusted :
      (timed_out oom_killed : Bool) (exit_code : Option ℕ) (detail : String) (total : ℕ)
      → let response =
          parse_result splitlines read
            (run_sandboxed timed_out oom_killed exit_code detail)
            total in
        Trusted timed_out oom_killed exit_code detail total response
  unfolding parse_result run_sandboxed
  parse_result-Trusted timed_out oom_killed exit_code detail total =
      elim (Bool-cases (is_gradeable (run_outcome timed_out oom_killed exit_code))) [
        | inr unclean ↦ rw unclean (refl, omega arith, inl unclean)
        | inl clean ↦
            let raw = run_sandboxed timed_out oom_killed exit_code detail in
            elim (Option-cases (scan read (reverse (splitlines detail)) raw total)) [
              | inl nothing ↦ rw (clean, nothing) (refl, omega arith, inl refl)
              | inr found ↦
                  let f = scan-Found read (reverse (splitlines detail)) raw found.0 total found.1 in
                  let printed : splitlines detail ≡ reverse f.after ++ (f.line ∷ reverse f.before) =
                    sym (reverse-reverse (splitlines detail))
                    ∙ ap reverse f.split_
                    ∙ backwards f.before f.after f.line in
                  rw (clean, found.1)
                    (read_line-Trusted timed_out oom_killed exit_code detail total raw
                      (reverse f.after) (reverse f.before) f.line (read f.line) found.0
                      (run_outcome-gradeable timed_out oom_killed exit_code clean) refl printed
                      (All-reverse (λ after. read after ≡ skipped) f.before f.noise) refl f.here)
            ]
      ]
