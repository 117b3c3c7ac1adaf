-- ===== src/Events/Bus.antt =====
-- `EventBus` (apps/api/src/api/events.py): the invariant under each method, and what `publish` does to each session.
pub mod Publish
use interview_helper.Prelude.{
  ℕ, ◌+◌, ◌-◌, ◌≤◌, ◌<◌, ◌≡◌, ◌≢◌, refl, Option, none, some, List, [], ◌∷◌, ◌++◌, arith, length,
  length-append, All-append, inl, inr, Option-cases, ap, select, ltb,
}
use Prim.Native.String.{String}
use interview_helper.Events.{
  Event, Channel, Channels, EventBus, push, lookup, remove, admit, present, next_event,
  append_event, init, publish, since, latest_seq, oldest_seq, first_seq, forget,
}
use interview_helper.Events.Gapless.{IsGapless, push-IsGapless}
use interview_helper.Events.Channels.{
  IsDistinct, IsReady, lookup-append, lookup-remove_ne, lookup-remove_self, remove-IsDistinct,
  remove-AllGapless, lookup-IsGapless, length-remove, snoc-IsDistinct, admit_lem, admit-IsReady,
}

module _ {ℓ} {D : Type ℓ} where
  -- A bus can hold a channel, and its dictionary is bounded, distinct and gapless.
  pub record IsValid (bus : EventBus D) : Type ℓ where
    pub roomy : 0 < bus.max_channels
    pub ready : IsReady bus.max_channels bus.channels

  pub init-IsValid : (limit : ℕ) → 0 < limit → IsValid (init {D = D} limit)
  unfolding init
  init-IsValid limit h = record {
    roomy = h;
    ready = record { bounded = omega arith; distinct = tt; gapless = tt };
  }

  -- The channel that `publish` appends to.
  pub current : EventBus D → ℕ → Channel D
  current bus k = elim (lookup k bus.channels) [
    | none ↦ record { seq = 0; events = [] }
    | some c ↦ c
  ]

  present-IsReady :
      (bus : EventBus D) (k : ℕ)
      → IsValid bus
      → let m = present (lookup k bus.channels) bus.channels bus.max_channels k in
        IsReady bus.max_channels m × (lookup k m ≡ some (current bus k))
  unfolding present current
  present-IsReady bus k v = elim (Option-cases (lookup k bus.channels)) [
    | inl absent ↦
        rw (absent, present, current)
          (admit-IsReady bus.max_channels k bus.channels v.roomy absent v.ready)
    | inr (c, found) ↦ rw (found, present, current) (v.ready, found)
  ]

  -- The event that `publish` returns, and the bus that it leaves.
  pub published : EventBus D → ℕ → String → D → ℕ → Event D
  published bus k kind payload now = next_event ((current bus k).seq + 1) kind payload now

  pub after_publish : EventBus D → ℕ → String → D → ℕ → EventBus D
  unfolding published
  after_publish bus k kind payload now =
      let m = present (lookup k bus.channels) bus.channels bus.max_channels k in
      let c = current bus k in
      record bus {
        channels =
            remove k m
            ++ ((
              k,
              record { seq = c.seq + 1; events = push c.events (published bus k kind payload now) },
            )
                ∷ []);
      }

  publish-after_publish :
      (bus : EventBus D) (k : ℕ) (kind : String) (payload : D) (now : ℕ)
      → IsValid bus
      → publish bus k kind payload now
        ≡ some (after_publish bus k kind payload now, published bus k kind payload now)
  unfolding publish append_event after_publish
  publish-after_publish bus k kind payload now v =
      let (r, found) = present-IsReady bus k v in rw (found, publish, append_event)

  after_publish-IsValid :
      (bus : EventBus D) (k : ℕ) (kind : String) (payload : D) (now : ℕ)
      → IsValid bus
      → IsValid (after_publish bus k kind payload now)
  unfolding after_publish next_event
  after_publish-IsValid bus k kind payload now v =
      let m = present (lookup k bus.channels) bus.channels bus.max_channels k in
      let (r, found) = present-IsReady bus k v in
      let c : Channel D = record {
        seq = (current bus k).seq + 1;
        events = push (current bus k).events (published bus k kind payload now);
      } in
      record {
        roomy = v.roomy;
        ready = record {
          bounded = omega (
            arith,
            length-append (remove k m) ((k, c) ∷ []),
            length-remove k (current bus k) m found,
            r.bounded,
          );
          distinct =
              snoc-IsDistinct k c (remove k m) (remove-IsDistinct k m r.distinct)
                (lookup-remove_self k m r.distinct);
          gapless =
              All-append (λ e. IsGapless e.1) (remove k m) ((k, c) ∷ [])
                (remove-AllGapless k m r.gapless)
                (
                  push-IsGapless (current bus k) (published bus k kind payload now)
                      (lookup-IsGapless k (current bus k) m r.gapless found) refl,
                  tt,
                );
        };
      }

  latest_seq-after_publish :
      (bus : EventBus D) (k : ℕ) (kind : String) (payload : D) (now : ℕ)
      → IsValid bus
      → latest_seq (after_publish bus k kind payload now) k ≡ latest_seq bus k + 1
  unfolding after_publish latest_seq current lookup
  latest_seq-after_publish bus k kind payload now v =
      let m = present (lookup k bus.channels) bus.channels bus.max_channels k in
      let (r, found) = present-IsReady bus k v in
      let c : Channel D = record {
        seq = (current bus k).seq + 1;
        events = push (current bus k).events (published bus k kind payload now);
      } in
      ground (arith, lookup-append k (remove k m) ((k, c) ∷ []), lookup-remove_self k m r.distinct)

  latest_seq-current : (bus : EventBus D) (k : ℕ) → latest_seq bus k ≡ (current bus k).seq
  unfolding latest_seq current
  latest_seq-current bus k = elim (Option-cases (lookup k bus.channels)) [
    | inl absent ↦ rw (absent, latest_seq, current)
    | inr (c, found) ↦ rw (found, latest_seq, current)
  ]

  -- What a subscriber reads of a session is a function of its channel.
  pub reads_of_lookup :
      (b b' : EventBus D) (j j' after : ℕ)
      → lookup j b.channels ≡ lookup j' b'.channels
      → (since b j after ≡ since b' j' after) × (latest_seq b j ≡ latest_seq b' j')
  unfolding since latest_seq
  reads_of_lookup b b' j j' after h = (
    ap (λ o. elim o [ none ↦ [] | some c ↦ select (λ e. ltb after e.seq) c.events ]) h,
    ap (λ o. elim o [ none ↦ 0 | some c ↦ c.seq ]) h,
  )

  pub reads_of_none :
      (b : EventBus D) (j after : ℕ)
      → lookup j b.channels ≡ none
      → (since b j after ≡ []) × (latest_seq b j ≡ 0)
  unfolding since latest_seq
  reads_of_none b j after h = (rw (h, since), rw (h, latest_seq))

  pub reads_of_some :
      (b : EventBus D) (j after : ℕ) (c : Channel D)
      → lookup j b.channels ≡ some c
      → (since b j after ≡ select (λ e. ltb after e.seq) c.events)
        × (latest_seq b j ≡ c.seq)
        × (oldest_seq b j ≡ first_seq c.events)
  unfolding since latest_seq oldest_seq
  reads_of_some b j after c h = (rw (h, since), rw (h, latest_seq), rw (h, oldest_seq))
