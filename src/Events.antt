-- ===== src/Events.antt =====
-- apps/api/src/api/events.py: the in-process event bus, one bounded channel for each session.
-- Session ids are only compared, so they are numbers; the payload of an event is any type `D`.
pub mod Gapless
pub mod Channels
pub mod Bus
pub mod Stream
mod Tests
use interview_helper.Prelude.{
  ℕ, suc, ◌+◌, ◌-◌, Bool, Option, none, some, List, [], ◌∷◌, ◌++◌, ltb, ◌==◌, if◌then◌else◌, length,
  drop, select,
}
use Prim.Native.String.{String}

abbrev pub buffer_size : ℕ
buffer_size = 256

abbrev pub max_channels_default : ℕ
max_channels_default = 128

pub record Event {ℓ} (D : Type ℓ) : Type ℓ where
  pub seq : ℕ
  pub event_type : String
  pub fields : D
  pub at : ℕ

pub record Channel {ℓ} (D : Type ℓ) : Type ℓ where
  pub seq : ℕ
  pub events : List (Event D)

-- `OrderedDict`: the entries in order, the least recently moved first.
abbrev pub Channels {ℓ} : Type ℓ → Type ℓ
Channels D = List (ℕ × Channel D)

pub record EventBus {ℓ} (D : Type ℓ) : Type ℓ where
  pub channels : Channels D
  pub max_channels : ℕ

module _ {ℓ} {D : Type ℓ} where
  -- `deque(maxlen=BUFFER_SIZE).append`
  unfoldable pub push : List (Event D) → Event D → List (Event D)
  push events event = let grown = events ++ (event ∷ []) in drop (length grown - buffer_size) grown

  unfoldable pub lookup : ℕ → Channels D → Option (Channel D)
  lookup k [] = none
  lookup k ((j, c) ∷ m) = if k == j then some c else lookup k m

  unfoldable pub remove : ℕ → Channels D → Channels D
  remove k [] = []
  remove k ((j, c) ∷ m) = if k == j then m else (j, c) ∷ remove k m

  -- `self._channels[session_id] = _Channel()` for an absent key, then
  -- `while len > max: popitem(last=False)`, which drops from the front.
  unfoldable pub admit : ℕ → Channels D → ℕ → Channels D
  admit limit m k =
      let grown = m ++ ((k, record { seq = 0; events = [] }) ∷ []) in
      drop (length grown - limit) grown

  unfoldable pub init : ℕ → EventBus D
  init limit = record { channels = []; max_channels = limit }

  unfoldable pub present : Option (Channel D) → Channels D → ℕ → ℕ → Channels D
  present none m limit k = admit limit m k
  present (some _) m limit k = m

  unfoldable pub next_event : ℕ → String → D → ℕ → Event D
  next_event n kind payload now = record { seq = n; event_type = kind; fields = payload; at = now }

  -- `move_to_end`, the counter and the append; `none` is the `KeyError` of a key that the bound
  -- itself evicted.
  unfoldable pub append_event :
      Option (Channel D) → Channels D → ℕ → String → D → ℕ → Option (Channels D × Event D)
  append_event none m k kind payload now = none
  append_event (some c) m k kind payload now =
      let event = next_event (c.seq + 1) kind payload now in
      some
        (remove k m ++ ((k, record { seq = c.seq + 1; events = push c.events event }) ∷ []), event)

  unfoldable pub publish : EventBus D → ℕ → String → D → ℕ → Option (EventBus D × Event D)
  publish bus k kind payload now =
      let m = present (lookup k bus.channels) bus.channels bus.max_channels k in
      elim (append_event (lookup k m) m k kind payload now) [
        | none ↦ none
        | some (m', event) ↦ some (record bus { channels = m' }, event)
      ]

  unfoldable pub since : EventBus D → ℕ → ℕ → List (Event D)
  since bus k after = elim (lookup k bus.channels) [
    | none ↦ []
    | some c ↦ select (λ e. ltb after e.seq) c.events
  ]

  unfoldable pub latest_seq : EventBus D → ℕ → ℕ
  latest_seq bus k = elim (lookup k bus.channels) [ none ↦ 0 | some c ↦ c.seq ]

  abbrev pub first_seq : List (Event D) → ℕ
  first_seq [] = 0
  first_seq (e ∷ es) = e.seq

  unfoldable pub oldest_seq : EventBus D → ℕ → ℕ
  oldest_seq bus k = elim (lookup k bus.channels) [ none ↦ 0 | some c ↦ first_seq c.events ]

  unfoldable pub forget : EventBus D → ℕ → EventBus D
  forget bus k = record bus { channels = remove k bus.channels }
