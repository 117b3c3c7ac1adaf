-- ===== src/Idempotency.antt =====
-- apps/api/src/api/idempotency.py: `run_once`, with the table of keys and the state that the handler
-- works on. A fingerprint is a number (the hash of the body), and a handler's answer is stored as it
-- is. The insert that reserves a key is one atomic step, as the primary key makes it.
pub mod Laws
pub mod Retries
mod Tests
use interview_helper.Prelude.{
  ℕ, ◌+◌, ◌*◌, Bool, true, false, ◌&&◌, ◌||◌, not, Option, none, some, List, [], ◌∷◌, ltb, ◌==◌,
  if◌then◌else◌, select,
}
use Prim.Native.String.{String}
use Prim.Native.String
use text.Mathlib.Text.{◌==◌ as str_eq}

abbrev pub max_key_length : ℕ
max_key_length = 255

-- `timedelta(hours=TTL_HOURS)`, in microseconds
abbrev pub ttl : ℕ
ttl = 24 * 3600 * 1000000

-- The primary key of the table.
pub record KeyId : Type 0 where
  pub user_id : ℕ
  pub endpoint : String
  pub key : String

abbrev pub same_id : KeyId → KeyId → Bool
same_id a b = a.user_id == b.user_id && str_eq a.endpoint b.endpoint && str_eq a.key b.key

pub record Row (R : Type 0) : Type 0 where
  pub id : KeyId
  pub request_fingerprint : ℕ
  pub response : Option R
  pub created_at : ℕ

pub data Problem : Type 0 where
  key_invalid key_reused key_in_flight handler_failed : Problem

pub data Answer (R : Type 0) : Type 0 where
  answered : R → Answer R
  refused : Problem → Answer R

-- What a request may do once its key has been looked at.
pub data Claim (R : Type 0) : Type 0 where
  reserved : Claim R
  replay : R → Claim R
  reject : Problem → Claim R

-- `not key or len(key) > MAX_KEY_LENGTH`, of the stripped key
abbrev pub is_malformed : String → Bool
is_malformed key = str_eq key "" || ltb max_key_length (String.count key)

module _ {R : Type 0} where
  unfoldable pub find : KeyId → List (Row R) → Option (Row R)
  find i [] = none
  find i (r ∷ rows) = if same_id i r.id then some r else find i rows

  -- `_expire`: the rows created before the cut-off go; a failed sweep leaves the table as it is.
  unfoldable pub expire : Bool → ℕ → List (Row R) → List (Row R)
  expire swept now rows =
      if swept then select (λ r. not (ltb (r.created_at + ttl) now)) rows else rows

  -- The reserving insert, or what the row that refused it says.
  unfoldable pub claim_row : Option (Row R) → ℕ → Claim R
  claim_row none digest = reserved
  claim_row (some r) digest =
      if r.request_fingerprint == digest
      then elim r.response [ none ↦ reject key_in_flight | some x ↦ replay x ]
      else reject key_reused

  unfoldable pub reserve : Claim R → KeyId → ℕ → ℕ → List (Row R) → List (Row R)
  reserve reserved i digest now rows =
      record { id = i; request_fingerprint = digest; response = none; created_at = now } ∷ rows
  reserve _ i digest now rows = rows

  -- `stored.response_json = …`, if the row is still there.
  unfoldable pub store : KeyId → R → List (Row R) → List (Row R)
  store i x [] = []
  store i x (r ∷ rows) =
      if same_id i r.id then record r { response = some x } ∷ rows else r ∷ store i x rows

  unfoldable pub release : KeyId → List (Row R) → List (Row R)
  release i [] = []
  release i (r ∷ rows) = if same_id i r.id then rows else r ∷ release i rows

module _ {R S : Type 0} where
  -- What is done with the handler's result, where `none` is an exception.
  unfoldable pub settle : KeyId → List (Row R) → Option R × S → Answer R × List (Row R) × S
  settle i rows (some x, s) = (answered x, store i x rows, s)
  settle i rows (none, s) = (refused handler_failed, release i rows, s)

  unfoldable pub plain : List (Row R) → Option R × S → Answer R × List (Row R) × S
  plain rows (some x, s) = (answered x, rows, s)
  plain rows (none, s) = (refused handler_failed, rows, s)

  module _ (handler : S → Option R × S) where
    unfoldable pub act : Claim R → KeyId → List (Row R) → S → Answer R × List (Row R) × S
    unfolding settle
    act reserved i rows s = settle i rows (handler s)
    act (replay x) i rows s = (answered x, rows, s)
    act (reject p) i rows s = (refused p, rows, s)

    unfoldable pub run_keyed : KeyId → ℕ → Bool → ℕ → List (Row R) → S → Answer R × List (Row R) × S
    unfolding act
    run_keyed i digest swept now rows s =
        let kept = expire swept now rows in
        let claim = claim_row (find i kept) digest in
        act claim i (reserve claim i digest now kept) s

    unfoldable pub run_once :
        (String → String)
        → ℕ
        → String
        → Option String
        → ℕ
        → Bool
        → ℕ
        → List (Row R)
        → S
        → Answer R × List (Row R) × S
    unfolding run_keyed plain
    run_once strip user endpoint none digest swept now rows s = plain rows (handler s)
    run_once strip user endpoint (some raw) digest swept now rows s =
        if is_malformed (strip raw)
        then (refused key_invalid, rows, s)
        else run_keyed (record { user_id = user; endpoint = endpoint; key = strip raw }) digest
            swept now rows s
