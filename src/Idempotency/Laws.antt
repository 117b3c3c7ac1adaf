-- ===== src/Idempotency/Laws.antt =====
-- `run_once` (apps/api/src/api/idempotency.py) on a key that is unused, and on one that is in use.
use interview_helper.Prelude.{
  ℕ, ◌+◌, ◌≤◌, ◌≡◌, Bool, true, false, Option, none, some, List, ◌∷◌, arith,
}
use text.Mathlib.TextPositions.{eq_refl}
use interview_helper.Idempotency.{
  KeyId, same_id, Row, ttl, find, expire, claim_row, reserve, store, release, settle, act,
  run_keyed,
}

pub same_id_refl : (i : KeyId) → same_id i i ≡ true
same_id_refl i = ground (arith, eq_refl i.endpoint, eq_refl i.key)

module _ {R : Type 0} where
  -- A row that a sweep keeps is found after it, if it was found before.
  pub find-expire :
      (i : KeyId) (swept : Bool) (now : ℕ) (r : Row R) (rows : List (Row R))
      → same_id i r.id ≡ true
      → now ≤ r.created_at + ttl
      → find i (expire swept now (r ∷ rows)) ≡ some r
  unfolding find expire
  find-expire i true now r rows same young = ground arith
  find-expire i false now r rows same young = ground arith

  pub release-front :
      (i : KeyId) (r : Row R) (rows : List (Row R))
      → same_id i r.id ≡ true
      → release i (r ∷ rows) ≡ rows
  unfolding release
  release-front i r rows same = rw same

  pub store-front :
      (i : KeyId) (x : R) (r : Row R) (rows : List (Row R))
      → same_id i r.id ≡ true
      → store i x (r ∷ rows) ≡ record r { response = some x } ∷ rows
  unfolding store
  store-front i x r rows same = rw same

abbrev pub reservation : {R : Type 0} → KeyId → ℕ → ℕ → Row R
reservation i digest now = record {
  id = i;
  request_fingerprint = digest;
  response = none;
  created_at = now;
}

module _ {R S : Type 0} (handler : S → Option R × S) (i : KeyId) (digest : ℕ) where
  -- A keyed request to an unused key runs the handler behind its reservation.
  pub run_keyed-new :
      (swept : Bool) (now : ℕ) (rows : List (Row R)) (s : S)
      → find i (expire swept now rows) ≡ none
      → run_keyed handler i digest swept now rows s
        ≡ settle i (reservation i digest now ∷ expire swept now rows) (handler s)
  unfolding run_keyed claim_row reserve
  run_keyed-new swept now rows s fresh = rw (fresh, claim_row)

  -- A request to a key that is in use does what its row says, and does not run the handler.
  pub run_keyed-used :
      (digest' : ℕ) (swept : Bool) (now : ℕ) (r : Row R) (rows : List (Row R)) (s : S)
      → same_id i r.id ≡ true
      → now ≤ r.created_at + ttl
      → run_keyed handler i digest' swept now (r ∷ rows) s
        ≡ act handler
            (claim_row (some r) digest')
            i
            (reserve (claim_row (some r) digest') i digest' now (expire swept now (r ∷ rows)))
            s
  unfolding run_keyed
  run_keyed-used digest' swept now r rows s same young =
      rw (find-expire i swept now r rows same young)
