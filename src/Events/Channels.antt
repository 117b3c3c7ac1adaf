-- ===== src/Events/Channels.antt =====
-- The ordered dictionary of channels (apps/api/src/api/events.py): look-up, removal, and the eviction of `admit`.
use interview_helper.Prelude.{
  ℕ, zero, suc, ◌+◌, ◌-◌, ◌≤◌, ◌<◌, ◌≡◌, ◌≢◌, refl, ◌∙◌, none, some, [], ◌∷◌, ◌++◌, arith, length,
  drop, length-append, length-drop, All, All-append, All-drop,
}
use interview_helper.Events.{Channel, Channels, lookup, remove, admit}
use interview_helper.Events.Gapless.{IsGapless}

module _ {ℓ} {D : Type ℓ} where
  -- No session is listed twice.
  abbrev pub IsDistinct : Channels D → Type ℓ
  IsDistinct [] = Unit
  IsDistinct ((k, c) ∷ m) = (lookup k m ≡ none) × IsDistinct m

  abbrev pub AllGapless : Channels D → Type 0
  AllGapless = All (λ e. IsGapless e.1)

  pub lookup-append :
      (k : ℕ) (m m' : Channels D)
      → lookup k (m ++ m') ≡ elim (lookup k m) [ none ↦ lookup k m' | some c ↦ some c ]
  unfolding lookup
  lookup-append k [] m' = refl
  lookup-append k ((j, c) ∷ m) m' = ground (arith, lookup-append k m m')

  pub lookup-remove_ne : (k j : ℕ) (m : Channels D) → j ≢ k → lookup j (remove k m) ≡ lookup j m
  unfolding lookup remove
  lookup-remove_ne k j [] h = refl
  lookup-remove_ne k j ((i, c) ∷ m) h = ground (arith, lookup-remove_ne k j m h)

  pub lookup-remove_self : (k : ℕ) (m : Channels D) → IsDistinct m → lookup k (remove k m) ≡ none
  unfolding lookup remove
  lookup-remove_self k [] h = refl
  lookup-remove_self k ((i, c) ∷ m) h = ground (arith, lookup-remove_self k m h.1)

  lookup-remove-none : (k j : ℕ) (m : Channels D) → lookup j m ≡ none → lookup j (remove k m) ≡ none
  unfolding lookup remove
  lookup-remove-none k j [] h = refl
  lookup-remove-none k j ((i, c) ∷ m) h = ground (arith, lookup-remove-none k j m)

  pub remove-IsDistinct : (k : ℕ) (m : Channels D) → IsDistinct m → IsDistinct (remove k m)
  unfolding remove
  remove-IsDistinct k [] h = tt
  remove-IsDistinct k ((i, c) ∷ m) h =
      ground (arith, remove-IsDistinct k m h.1, lookup-remove-none k i m h.0)

  pub remove-AllGapless : (k : ℕ) (m : Channels D) → AllGapless m → AllGapless (remove k m)
  unfolding remove
  remove-AllGapless k [] h = tt
  remove-AllGapless k ((i, c) ∷ m) h = ground (arith, remove-AllGapless k m h.1)

  pub lookup-IsGapless :
      (k : ℕ) (c : Channel D) (m : Channels D) → AllGapless m → lookup k m ≡ some c → IsGapless c
  unfolding lookup
  lookup-IsGapless k c [] h q = cc
  lookup-IsGapless k c ((i, d) ∷ m) h q = ground (arith, lookup-IsGapless k c m h.1)

  pub length-remove :
      (k : ℕ) (c : Channel D) (m : Channels D)
      → lookup k m ≡ some c
      → length (remove k m) + 1 ≡ length m
  unfolding lookup remove
  length-remove k c [] q = cc
  length-remove k c ((i, d) ∷ m) q = ground (arith, length-remove k c m)

  pub snoc-IsDistinct :
      (k : ℕ) (c : Channel D) (m : Channels D)
      → IsDistinct m
      → lookup k m ≡ none
      → IsDistinct (m ++ ((k, c) ∷ []))
  unfolding lookup
  snoc-IsDistinct k c [] h q = (refl, tt)
  snoc-IsDistinct k c ((i, d) ∷ m) h q =
      ground (arith, snoc-IsDistinct k c m h.1, lookup-append i m ((k, c) ∷ []))

  drop-IsDistinct : (n : ℕ) (m : Channels D) → IsDistinct m → IsDistinct (drop n m)
  drop-IsDistinct zero m h = h
  drop-IsDistinct (suc n) [] h = h
  drop-IsDistinct (suc n) (x ∷ m) h = drop-IsDistinct n m h.1

  drop-append : (n : ℕ) (m t : Channels D) → n ≤ length m → drop n (m ++ t) ≡ drop n m ++ t
  drop-append zero m t h = refl
  drop-append (suc n) [] t h = absurd (omega arith)
  drop-append (suc n) (x ∷ m) t h = drop-append n m t (omega arith)

  lookup-drop-none : (k n : ℕ) (m : Channels D) → lookup k m ≡ none → lookup k (drop n m) ≡ none
  unfolding lookup
  lookup-drop-none k zero m h = h
  lookup-drop-none k (suc n) [] h = h
  lookup-drop-none k (suc n) ((j, c) ∷ m) h = lookup-drop-none k n m (ground arith)

  -- A bus of capacity one or more admits an absent session with an empty channel at the back, and
  -- drops at most as many of the least recent entries as do not fit.
  pub admit_lem :
      (limit k : ℕ) (m : Channels D)
      → 0 < limit
      → admit limit m k
        ≡ drop (length m + 1 - limit) m ++ ((k, record { seq = 0; events = [] }) ∷ [])
  unfolding admit
  admit_lem limit k m h =
      let e : length (m ++ ((k, record { seq = 0; events = [] }) ∷ [])) ≡ length m + 1 =
        length-append m ((k, record { seq = 0; events = [] }) ∷ []) ∙ omega arith in
      rw e (
        drop-append (length m + 1 - limit) m ((k, record { seq = 0; events = [] }) ∷ [])
          (omega arith))

  -- The invariant of the dictionary: bounded, no session twice, every buffer without a gap.
  pub record IsReady (limit : ℕ) (m : Channels D) : Type ℓ where
    pub bounded : length m ≤ limit
    pub distinct : IsDistinct m
    pub gapless : AllGapless m

  empty-IsGapless : IsGapless {D = D} (record { seq = 0; events = [] })
  empty-IsGapless = record { filled = omega arith; runs = tt }

  pub admit-IsReady :
      (limit k : ℕ) (m : Channels D)
      → 0 < limit
      → lookup k m ≡ none
      → IsReady limit m
      → IsReady limit (admit limit m k)
        × (lookup k (admit limit m k) ≡ some (record { seq = 0; events = [] }))
  unfolding lookup
  admit-IsReady limit k m p absent r =
      let kept = drop (length m + 1 - limit) m in
      let gone = lookup-drop-none k (length m + 1 - limit) m absent in
      rw (admit_lem limit k m p) (
        record {
          bounded = omega (
            arith,
            length-append kept ((k, record { seq = 0; events = [] }) ∷ []),
            length-drop (length m + 1 - limit) m,
            r.bounded,
          );
          distinct =
              snoc-IsDistinct k _ kept (drop-IsDistinct (length m + 1 - limit) m r.distinct) gone;
          gapless =
              All-append (λ e. IsGapless e.1) kept ((k, record { seq = 0; events = [] }) ∷ [])
                (All-drop (λ e. IsGapless e.1) (length m + 1 - limit) m r.gapless)
                (empty-IsGapless, tt);
        },
        ground (arith, gone, lookup-append k kept ((k, record { seq = 0; events = [] }) ∷ [])),
      )
