-- ===== src/Idempotency/Retries.antt =====
-- `run_once` (apps/api/src/api/idempotency.py), request after request: what a second request with the key of a first one meets.
use interview_helper.Prelude.{
  ℕ, ◌+◌, ◌≤◌, ◌≡◌, ◌≢◌, refl, ◌∙◌, Bool, true, false, not, ltb, select, ◌⊎◌, inl, inr, Option,
  none, some, List, [], ◌∷◌, arith, ◌==◌, All, Bool-cases, Option-cases,
}
use interview_helper.Idempotency.{
  KeyId, same_id, Row, Problem, Answer, answered, refused, reserved, replay, reject, key_reused,
  key_in_flight, ttl, find, expire, claim_row, reserve, settle, act, run_keyed,
}
use interview_helper.Idempotency.Laws.{
  same_id_refl, store-front, reservation, run_keyed-new, run_keyed-used,
}

-- A request under a key: its fingerprint, whether the sweep worked, and when it came.
pub record Attempt : Type 0 where
  pub digest : ℕ
  pub swept : Bool
  pub at : ℕ

module _ {R S : Type 0} (handler : S → Option R × S) (i : KeyId) where
  unfoldable pub run_all : List Attempt → List (Row R) → S → S
  run_all [] rows s = s
  run_all (a ∷ attempts) rows s =
      let run = run_keyed handler i a.digest a.swept a.at rows s in run_all attempts run.1 run.2

module _ {R : Type 0} where
  claim_row-used :
      (r : Row R) (digest : ℕ)
      → ((x : R) × (claim_row (some r) digest ≡ replay x))
        ⊎ ((p : Problem) × (claim_row (some r) digest ≡ reject p))
  unfolding claim_row
  claim_row-used r digest = elim (Bool-cases (r.request_fingerprint == digest)) [
    | inl same ↦ elim (Option-cases r.response) [
      | inl pending ↦ inr (key_in_flight, rw (same, pending) refl)
      | inr done ↦ inl (done.0, rw (same, done.1) refl)
    ]
    | inr other ↦ inr (key_reused, rw other refl)
  ]

  expire-front :
      (swept : Bool) (now : ℕ) (r : Row R) (rows : List (Row R))
      → now ≤ r.created_at + ttl
      → (rest : List (Row R)) × (expire swept now (r ∷ rows) ≡ r ∷ rest)
  unfolding expire
  expire-front true now r rows young =
      (select (λ a. not (ltb (a.created_at + ttl) now)) rows, ground arith)
  expire-front false now r rows young = (rows, refl)

module _ {R S : Type 0} (handler : S → Option R × S) (i : KeyId) where
  -- A request to a key in use leaves the handler's state alone, and the key in use.
  used_again :
      (digest : ℕ) (swept : Bool) (now : ℕ) (r : Row R) (rows : List (Row R)) (s : S)
      → same_id i r.id ≡ true
      → now ≤ r.created_at + ttl
      → (rest : List (Row R)) × (answer : Answer R) × (run_keyed handler i digest swept now
            (r ∷ rows)
            s
          ≡ (answer, r ∷ rest, s))
  unfolding reserve act
  used_again digest swept now r rows s same young =
      let used = run_keyed-used handler i digest digest swept now r rows s same young in
      let kept = expire-front swept now r rows young in
      elim (claim_row-used r digest) [
        | inl c ↦ (kept.0, answered c.0, used ∙ rw (c.1, kept.1) refl)
        | inr c ↦ (kept.0, refused c.0, used ∙ rw (c.1, kept.1) refl)
      ]

  -- However many requests follow, the handler runs for none of them.
  run_all-used :
      (attempts : List Attempt) (r : Row R) (rows : List (Row R)) (s : S)
      → same_id i r.id ≡ true
      → All (λ a. a.at ≤ r.created_at + ttl) attempts
      → run_all handler i attempts (r ∷ rows) s ≡ s
  unfolding run_all
  run_all-used [] r rows s same young = refl
  run_all-used (a ∷ attempts) r rows s same young =
      let again = used_again a.digest a.swept a.at r rows s same young.0 in
      rw again.2 (run_all-used attempts r again.0 s same young.1)

module _ {R S : Type 0} (handler : S → Option R × S) (i : KeyId) (digest : ℕ) (swept : Bool)
    (now : ℕ) (rows : List (Row R)) (s s' : S) where
  abbrev completed : R → Row R
  completed x = record { id = i; request_fingerprint = digest; response = some x; created_at = now }

  first_run :
      (x : R)
      → find i (expire swept now rows) ≡ none
      → handler s ≡ (some x, s')
      → run_keyed handler i digest swept now rows s
        ≡ (answered x, completed x ∷ expire swept now rows, s')
  unfolding settle
  first_run x fresh ran =
      run_keyed-new handler i digest swept now rows s fresh
      ∙ rw
          (ran, store-front i x (reservation i digest now) (expire swept now rows) (same_id_refl i))
          refl

  stored_replays : (x : R) → claim_row (some (completed x)) digest ≡ replay x
  unfolding claim_row
  stored_replays x = ground arith

  reuse_rejected :
      (x : R) (digest' : ℕ)
      → digest ≢ digest'
      → claim_row (some (completed x)) digest' ≡ reject key_reused
  unfolding claim_row
  reuse_rejected x digest' other = ground arith

  pending_rejected :
      claim_row (some (reservation {R = R} i digest now)) digest ≡ reject key_in_flight
  unfolding claim_row
  pending_rejected = ground arith

  -- Once a request with an unused key has succeeded, however many requests with that key follow within
  -- the time to live, with the same body or another, the handler's state stays what that one run made
  -- it.
  pub handler_runs_once :
      (x : R) (attempts : List Attempt)
      → find i (expire swept now rows) ≡ none
      → handler s ≡ (some x, s')
      → All (λ a. a.at ≤ now + ttl) attempts
      → run_all handler i (record { digest = digest; swept = swept; at = now } ∷ attempts) rows s
        ≡ s'
  unfolding run_all
  handler_runs_once x attempts fresh ran young = rw (first_run x fresh ran) (
      run_all-used handler i attempts (completed x) (expire swept now rows) s' (same_id_refl i)
        young)

  module _ (swept' : Bool) (now' : ℕ) (t : S) where
    -- A retry of a request that succeeded, with the same key and body and within the time to live, is
    -- given the stored response, and the handler does not run: its state stays what it was.
    pub retry_replays :
        (x : R)
        → find i (expire swept now rows) ≡ none
        → handler s ≡ (some x, s')
        → now' ≤ now + ttl
        → let retried =
            run_keyed handler i digest swept' now'
              (run_keyed handler i digest swept now rows s).1
              t in
          (retried.0 ≡ answered x) × (retried.2 ≡ t)
    unfolding act
    retry_replays x fresh ran young =
        let kept = expire swept now rows in
        let used =
          run_keyed-used handler i digest digest swept' now' (completed x) kept t (same_id_refl i)
            young in
        rw (first_run x fresh ran, used, stored_replays x) (refl, refl)

    -- A request with the key of one that succeeded and with another body, within the time to live, is
    -- refused as a reuse of the key, and the handler does not run.
    pub reuse_refused :
        (x : R) (digest' : ℕ)
        → find i (expire swept now rows) ≡ none
        → handler s ≡ (some x, s')
        → now' ≤ now + ttl
        → digest ≢ digest'
        → let reused =
            run_keyed handler i digest' swept' now'
              (run_keyed handler i digest swept now rows s).1
              t in
          (reused.0 ≡ refused key_reused) × (reused.2 ≡ t)
    unfolding act
    reuse_refused x digest' fresh ran young other =
        let kept = expire swept now rows in
        let used =
          run_keyed-used handler i digest digest' swept' now' (completed x) kept t (same_id_refl i)
            young in
        rw (first_run x fresh ran, used, reuse_rejected x digest' other) (refl, refl)

    -- While a request holds its reservation and has no response yet, a second one with the same key and
    -- body is refused as in flight, and the handler does not run for it.
    pub second_waits :
        now' ≤ now + ttl
        → let second =
            run_keyed handler i digest swept' now'
              (reserve reserved i digest now (expire swept now rows))
              t in
          (second.0 ≡ refused key_in_flight) × (second.2 ≡ t)
    unfolding reserve act
    second_waits young =
        let kept = expire swept now rows in
        let used =
          run_keyed-used handler i digest digest swept' now' (reservation i digest now) kept t
            (same_id_refl i) young in
        rw (used, pending_rejected) (refl, refl)
