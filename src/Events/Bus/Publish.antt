-- ===== src/Events/Bus/Publish.antt =====
-- One `publish` (apps/api/src/api/events.py): its number, the other sessions, and the one it evicts.
use interview_helper.Prelude.{
  ℕ, ◌+◌, ◌-◌, ◌<◌, ◌≡◌, ◌≢◌, sym, ◌∙◌, none, some, [], ◌∷◌, ◌++◌, arith, length, ◌⊎◌, inl, inr,
  Option-cases,
}
use Prim.Native.String.{String}
use interview_helper.Events.{
  Event, Channel, Channels, EventBus, lookup, remove, admit, push, present, next_event, publish,
  since, latest_seq,
}
use interview_helper.Events.Channels.{IsDistinct, lookup-append, lookup-remove_ne, admit_lem}
use interview_helper.Events.Bus.{
  IsValid, current, published, after_publish, publish-after_publish, after_publish-IsValid,
  latest_seq-after_publish, latest_seq-current, reads_of_lookup, reads_of_none,
}

module _ {ℓ} {D : Type ℓ} (bus : EventBus D) (k : ℕ) (kind : String) (payload : D) (now : ℕ) where
  -- On a valid bus `publish` never fails, the bus stays valid, and the event takes the number
  -- after the session's latest, which becomes the latest.
  pub publish_total :
      IsValid bus
      → (bus' : EventBus D) × (e : Event D) × (publish bus k kind payload now ≡ some (bus', e))
        × IsValid bus'
        × (e.seq ≡ latest_seq bus k + 1)
        × (latest_seq bus' k ≡ e.seq)
  unfolding published next_event
  publish_total v = (
    after_publish bus k kind payload now,
    published bus k kind payload now,
    publish-after_publish bus k kind payload now v,
    after_publish-IsValid bus k kind payload now v,
    omega (arith, latest_seq-current bus k),
    omega (arith, latest_seq-current bus k, latest_seq-after_publish bus k kind payload now v),
  )

  lookup-snoc_ne :
      (j : ℕ) (c : Channel D) (m : Channels D) → j ≢ k → lookup j (m ++ ((k, c) ∷ [])) ≡ lookup j m
  unfolding lookup
  lookup-snoc_ne j c m h = ground (arith, lookup-append j m ((k, c) ∷ []))

  lookup-after_publish :
      (j : ℕ)
      → j ≢ k
      → lookup j (after_publish bus k kind payload now).channels
        ≡ lookup j (present (lookup k bus.channels) bus.channels bus.max_channels k)
  unfolding after_publish
  lookup-after_publish j h =
      let m = present (lookup k bus.channels) bus.channels bus.max_channels k in
      let c : Channel D = record {
        seq = (current bus k).seq + 1;
        events = push (current bus k).events (published bus k kind payload now);
      } in
      lookup-snoc_ne j c (remove k m) h ∙ lookup-remove_ne k j m h

  lookup-present_room :
      (j : ℕ)
      → IsValid bus
      → j ≢ k
      → (lookup k bus.channels ≢ none) ⊎ (length bus.channels < bus.max_channels)
      → lookup j (present (lookup k bus.channels) bus.channels bus.max_channels k)
        ≡ lookup j bus.channels
  unfolding present
  lookup-present_room j v h room = elim (Option-cases (lookup k bus.channels)) [
    | inr (c, found) ↦ rw (found, present)
    | inl absent ↦
        let fits : length bus.channels + 1 - bus.max_channels ≡ 0 = ground arith in
        let same : admit bus.max_channels bus.channels k
            ≡ bus.channels ++ ((k, record { seq = 0; events = [] }) ∷ []) =
          rw (admit_lem bus.max_channels k bus.channels v.roomy, fits) in
        rw (absent, present, same) (lookup-snoc_ne j _ bus.channels h)
  ]

  lookup-present_full :
      (j oldest : ℕ) (c : Channel D) (rest : Channels D)
      → IsValid bus
      → bus.channels ≡ (oldest, c) ∷ rest
      → length bus.channels ≡ bus.max_channels
      → lookup k bus.channels ≡ none
      → j ≢ k
      → lookup j (present (lookup k bus.channels) bus.channels bus.max_channels k) ≡ lookup j rest
  unfolding present
  lookup-present_full j oldest c rest v shape full absent h =
      let over : length bus.channels + 1 - bus.max_channels ≡ 1 = omega arith in
      let same : admit bus.max_channels bus.channels k
          ≡ rest ++ ((k, record { seq = 0; events = [] }) ∷ []) =
        rw (admit_lem bus.max_channels k bus.channels v.roomy, over, shape) in
      rw (absent, present, same) (lookup-snoc_ne j _ rest h)

  only_result :
      {bus' : EventBus D} {e : Event D}
      → IsValid bus
      → publish bus k kind payload now ≡ some (bus', e)
      → bus' ≡ after_publish bus k kind payload now
  only_result v q = cc (publish-after_publish bus k kind payload now v)

  -- A publish to a session that is on the bus, or to a bus with room, changes nothing that can be
  -- read of any other session.
  pub publish_others :
      (j after : ℕ) {bus' : EventBus D} {e : Event D}
      → IsValid bus
      → j ≢ k
      → (lookup k bus.channels ≢ none) ⊎ (length bus.channels < bus.max_channels)
      → publish bus k kind payload now ≡ some (bus', e)
      → (since bus' j after ≡ since bus j after) × (latest_seq bus' j ≡ latest_seq bus j)
  publish_others j after v h room q = rw (only_result v q) (
      reads_of_lookup (after_publish bus k kind payload now) bus j j after
        (lookup-after_publish j h ∙ lookup-present_room j v h room))

  lookup-cons_ne :
      (j i : ℕ) (c : Channel D) (m : Channels D) → j ≢ i → lookup j ((i, c) ∷ m) ≡ lookup j m
  unfolding lookup
  lookup-cons_ne j i c m h = ground arith

  front_facts :
      (oldest : ℕ) (c : Channel D) (rest : Channels D)
      → IsValid bus
      → bus.channels ≡ (oldest, c) ∷ rest
      → lookup k bus.channels ≡ none
      → (oldest ≢ k) × (lookup oldest rest ≡ none)
  unfolding lookup
  front_facts oldest c rest v shape absent =
      let distinct : IsDistinct ((oldest, c) ∷ rest) = rw shape at v.ready.distinct in
      let away : lookup k ((oldest, c) ∷ rest) ≡ none = rw shape at absent in
      (λ same. ground arith, distinct.0)

  -- A publish to an absent session of a full bus drops exactly the session at the front, the one
  -- least recently published to; it starts again from number 0, and all others read as before.
  pub publish_evicts :
      (j after oldest : ℕ) (c : Channel D) (rest : Channels D) {bus' : EventBus D} {e : Event D}
      → IsValid bus
      → bus.channels ≡ (oldest, c) ∷ rest
      → length bus.channels ≡ bus.max_channels
      → lookup k bus.channels ≡ none
      → j ≢ k
      → j ≢ oldest
      → publish bus k kind payload now ≡ some (bus', e)
      → (latest_seq bus' oldest ≡ 0)
        × (since bus' oldest after ≡ [])
        × (since bus' j after ≡ since bus j after)
  publish_evicts j after oldest c rest v shape full absent ne neo q =
      let next = after_publish bus k kind payload now in
      let reads = λ (i : ℕ) (away : i ≢ k).
        lookup-after_publish i away
        ∙ lookup-present_full i oldest c rest v shape full absent away in
      let (other, dropped) = front_facts oldest c rest v shape absent in
      let gone = reads_of_none next oldest after (reads oldest other ∙ dropped) in
      rw (only_result v q) (
        gone.1,
        gone.0,
        (reads_of_lookup next bus j j after
            (reads j ne ∙ sym (rw shape (lookup-cons_ne j oldest c rest neo)))).0,
      )
