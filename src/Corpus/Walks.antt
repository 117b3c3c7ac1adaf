-- ===== src/Corpus/Walks.antt =====
-- What holds of the stack, the colours and the path between two rounds of a walk of
-- `check_concept_graph` (packages/corpus/src/corpus/validate.py).
use interview_helper.Prelude.{
  ℕ, ◌≡◌, refl, ◌⊎◌, inl, inr, Bool, true, false, List, [], ◌∷◌, arith, Bool-cases, contains,
  select, All, Memᴰ-select,
}
use mathlib.Core.List.{Memᴰ}
use mathlib.Core.List.Memᴰ
use mathlib.Core.WellFounded.{Acc}
use interview_helper.Corpus.{
  Index, is_known, Colour, white, grey, black, is_white, is_black, Walk, Stack, is_pushed,
  push_prereqs,
}
use interview_helper.Corpus.Cycles.{Edge, Trail, Below, IsPath}

-- The nodes that are still to be left, the newest first.
unfoldable pub leavers : Stack → List ℕ
leavers [] = []
leavers ((n, true) ∷ stack) = n ∷ leavers stack
leavers ((n, false) ∷ stack) = leavers stack

black_of : (c : Colour) → is_black c ≡ true → c ≡ black
black_of white h = absurd (ground (arith, h))
black_of grey h = absurd (ground (arith, h))
black_of black h = refl

module _ (by_id : Index) where
  -- Each entry is a concept, and a prerequisite of the node below it that is still to be left.
  unfoldable pub IsLinked : Stack → Type 0
  IsLinked [] = Unit
  IsLinked ((n, leaving) ∷ stack) =
      (is_known by_id n ≡ true) × Below by_id n (leavers stack) × IsLinked stack

  abbrev pub Seen : (ℕ → Colour) → List ℕ → ℕ → Type 0
  Seen colour above n = (colour n ≡ black) ⊎ Memᴰ n above

  -- The prerequisites of a node that is still to be left are done, or above it on the stack.
  unfoldable pub Covers : (ℕ → Colour) → List ℕ → Stack → Type 0
  Covers colour above [] = Unit
  Covers colour above ((n, leaving) ∷ stack) =
      (leaving ≡ true → (p : ℕ) → Edge by_id n p → Seen colour above p)
      × Covers colour (n ∷ above) stack

  abbrev pub Before : ℕ → ℕ → Type 0
  Before p n = Edge by_id n p

  pub record IsSound (done : List ℕ) (stack : Stack) (w : Walk) : Type 0 where
    pub opened : w.path ≡ leavers stack
    pub linked : IsLinked stack
    pub greys : (n : ℕ) → w.colour n ≡ grey → contains n w.path ≡ true
    pub trails : All (λ c. (n : ℕ) × Trail by_id n c n) w.cycles
    pub covered : w.cycles ≡ [] → Covers w.colour [] stack
    pub grounded : w.cycles ≡ [] → (n : ℕ) → w.colour n ≡ black → Acc Before n
    pub started : (n : ℕ) → Memᴰ n done → (is_white (w.colour n) ≡ false) ⊎ Memᴰ (n, false) stack

  pub IsLinked-IsPath : (stack : Stack) → IsLinked stack → IsPath by_id (leavers stack)
  unfolding IsLinked leavers IsPath
  IsLinked-IsPath [] h = tt
  IsLinked-IsPath ((n, true) ∷ stack) h = (h.1, IsLinked-IsPath stack h.2)
  IsLinked-IsPath ((n, false) ∷ stack) h = IsLinked-IsPath stack h.2

  pub Covers-mono :
      (colour colour' : ℕ → Colour) (above above' : List ℕ) (stack : Stack)
      → ((p : ℕ) → Seen colour above p → Seen colour' above' p)
      → Covers colour above stack
      → Covers colour' above' stack
  unfolding Covers
  Covers-mono colour colour' above above' [] f h = tt
  Covers-mono colour colour' above above' ((n, leaving) ∷ stack) f h = (
    λ on p edge. f p (h.0 on p edge),
    Covers-mono colour colour' (n ∷ above) (n ∷ above') stack
        (λ p seen. elim seen [
          | inl done ↦ elim (f p (inl done)) [ inl d ↦ inl d | inr m ↦ inr (Memᴰ.tail m) ]
          | inr m ↦ elim (Memᴰ.cases_cons m) [
            | inl e ↦ inr (Memᴰ.head e)
            | inr m' ↦ elim (f p (inr m')) [ inl d ↦ inl d | inr m'' ↦ inr (Memᴰ.tail m'') ]
          ]
        ])
        h.1,
  )

  pub leavers-push :
      (colour : ℕ → Colour) (ps : List ℕ) (stack : Stack)
      → leavers (push_prereqs by_id colour ps stack) ≡ leavers stack
  unfolding push_prereqs leavers
  leavers-push colour [] stack = refl
  leavers-push colour (p ∷ ps) stack = elim (Bool-cases (is_pushed by_id colour p)) [
    | inl on ↦ rw on (leavers-push colour ps ((p, false) ∷ stack))
    | inr off ↦ rw off (leavers-push colour ps stack)
  ]

  pub push-IsLinked :
      (colour : ℕ → Colour) (ps : List ℕ) (stack : Stack)
      → ((p : ℕ) → Memᴰ p ps → is_known by_id p ≡ true → Below by_id p (leavers stack))
      → IsLinked stack
      → IsLinked (push_prereqs by_id colour ps stack)
  unfolding push_prereqs leavers IsLinked
  push-IsLinked colour [] stack below h = h
  push-IsLinked colour (p ∷ ps) stack below h = elim (Bool-cases (is_pushed by_id colour p)) [
    | inl on ↦
        let known : is_known by_id p ≡ true = ground (arith, on) in
        rw on (
          push-IsLinked colour ps ((p, false) ∷ stack) (λ q m. below q (Memᴰ.tail m))
            (known, below p (Memᴰ.head refl) known, h))
    | inr off ↦ rw off (push-IsLinked colour ps stack (λ q m. below q (Memᴰ.tail m)) h)
  ]

  pub push-Covers :
      (colour : ℕ → Colour) (ps : List ℕ) (stack : Stack)
      → Covers colour (select (is_pushed by_id colour) ps) stack
      → Covers colour [] (push_prereqs by_id colour ps stack)
  unfolding push_prereqs Covers
  push-Covers colour [] stack h = h
  push-Covers colour (p ∷ ps) stack h = elim (Bool-cases (is_pushed by_id colour p)) [
    | inl on ↦
        rw on
          (push-Covers colour ps ((p, false) ∷ stack) (λ e. absurd (ground (arith, e)), rw on at h))
    | inr off ↦ rw off (push-Covers colour ps stack (rw off at h))
  ]

  pub push_keeps :
      (colour : ℕ → Colour) (ps : List ℕ) (stack : Stack) (e : ℕ × Bool)
      → Memᴰ e stack
      → Memᴰ e (push_prereqs by_id colour ps stack)
  unfolding push_prereqs
  push_keeps colour [] stack e m = m
  push_keeps colour (p ∷ ps) stack e m = elim (Bool-cases (is_pushed by_id colour p)) [
    | inl on ↦ rw on (push_keeps colour ps ((p, false) ∷ stack) e (Memᴰ.tail m))
    | inr off ↦ rw off (push_keeps colour ps stack e m)
  ]

  pub select-pushed :
      (colour : ℕ → Colour) (ps : List ℕ) (p : ℕ)
      → Memᴰ p ps
      → is_known by_id p ≡ true
      → Seen colour (select (is_pushed by_id colour) ps) p
  select-pushed colour ps p m known = elim (Bool-cases (is_black (colour p))) [
    | inl done ↦ inl (black_of (colour p) done)
    | inr open_still ↦
        inr (Memᴰ-select (is_pushed by_id colour) p ps (ground (arith, known, open_still)) m)
  ]
