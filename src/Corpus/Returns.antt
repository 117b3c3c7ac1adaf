-- ===== src/Corpus/Returns.antt =====
-- The walks of `check_concept_graph` (packages/corpus/src/corpus/validate.py) to their end: what a
-- round uses up, and what holds of the colours when every concept was offered as a start.
use interview_helper.Prelude.{
  ℕ, zero, suc, ◌+◌, ◌<◌, ◌≡◌, refl, sym, ap, ◌⊎◌, inl, inr, Bool, true, false, some, List, [], ◌∷◌,
  arith, ◌==◌, Bool-cases, Option-cases, length,
}
use mathlib.Core.Path.{subst}
use mathlib.Core.List.{Memᴰ}
use mathlib.Core.List.Memᴰ
use interview_helper.Corpus.{
  Index, Concept, lookup, is_known, Colour, white, grey, black, is_white, paint, Walk, Stack, round,
  walk_from, walk, walk_all, size, keys,
}
use interview_helper.Corpus.Walks.{leavers, IsLinked, Covers, IsSound}
use interview_helper.Corpus.Paint.{unseen, unseen-le-size, unseen-paint, unseen-enter, length-push}
use interview_helper.Corpus.Rounds.{skip-IsSound, report-IsSound, leave-IsSound, enter-IsSound}

Colour-cases : (c : Colour) → (c ≡ white) ⊎ ((c ≡ grey) ⊎ (c ≡ black))
Colour-cases white = inl refl
Colour-cases grey = inr (inl refl)
Colour-cases black = inr (inr refl)

pub keys-known : (by_id : Index) (n : ℕ) → Memᴰ n (keys by_id) → is_known by_id n ≡ true
unfolding is_known lookup
keys-known [] n m = absurd (Memᴰ.not-nil m)
keys-known ((i, c) ∷ rest) n m = elim (Bool-cases (i == n)) [
  | inl same ↦ rw (same, is_known) refl
  | inr other ↦ elim (Memᴰ.cases_cons m) [
    | inl e ↦ absurd (ground (arith, other, e))
    | inr m' ↦ rw (other, is_known, lookup) (keys-known rest n m')
  ]
]

found-known :
    (by_id : Index) (n : ℕ) → is_known by_id n ≡ true → (c : Concept) × (lookup n by_id ≡ some c)
unfolding is_known
found-known by_id n h = elim (Option-cases (lookup n by_id)) [
  | inl none_there ↦ absurd (ground (arith, (rw (none_there, is_known) at h)))
  | inr there ↦ there
]

module _ (by_id : Index) where
  potential : Stack → Walk → ℕ
  potential stack w = length stack + unseen w.colour by_id

  round-IsSound :
      (done : List ℕ) (node : ℕ) (leaving : Bool) (stack : Stack) (w : Walk)
      → IsSound by_id done ((node, leaving) ∷ stack) w
      → (next : Stack × Walk) × (round by_id node leaving stack w ≡ some next)
        × (potential next.0 next.1 < potential ((node, leaving) ∷ stack) w)
        × IsSound by_id done next.0 next.1
  unfolding round potential IsLinked
  round-IsSound done node true stack w s =
      let r = leave-IsSound by_id done node stack w s in
      let less = unseen-paint node black w.colour by_id refl in
      (r.0, r.1, rw (r.2, r.3) (omega (arith, less)), r.4)
  round-IsSound done node false stack w s = elim (Colour-cases (w.colour node)) [
    | inl fresh ↦
        let found = found-known by_id node s.linked.0 in
        let r = enter-IsSound by_id done node stack w found.0 fresh found.1 s in
        let less = unseen-enter node found.0 w.colour by_id fresh found.1 in
        let more =
          length-push by_id (paint node grey w.colour) found.0.prereqs ((node, true) ∷ stack) in
        (r.0, rw (fresh, round) r.1, rw (r.2, r.3) (omega (arith, less, more)), r.4)
    | inr coloured ↦ elim coloured [
      | inl is_open ↦
          let r = report-IsSound by_id done node stack w is_open s in
          (r.0, rw (is_open, round) r.1, rw (r.2, r.3) (omega arith), r.4)
      | inr is_done ↦ (
        (stack, w),
        rw (is_done, round) refl,
        omega arith,
        skip-IsSound by_id done node stack w is_done s,
      )
    ]
  ]

  walk_from-IsSound :
      (done : List ℕ) (fuel : ℕ) (stack : Stack) (w : Walk)
      → potential stack w < fuel
      → IsSound by_id done stack w
      → (w' : Walk) × (walk_from by_id fuel stack w ≡ some w') × IsSound by_id done [] w'
  unfolding walk_from
  walk_from-IsSound done zero stack w h s = absurd (omega (arith, h))
  walk_from-IsSound done (suc fuel) [] w h s = (w, refl, s)
  walk_from-IsSound done (suc fuel) ((node, leaving) ∷ stack) w h s =
      let r = round-IsSound done node leaving stack w s in
      rw (r.1, walk_from) (walk_from-IsSound done fuel r.0.0 r.0.1 (omega (arith, h, r.2)) r.3)

  walk-IsSound :
      (done : List ℕ) (fuel i : ℕ) (w : Walk)
      → is_known by_id i ≡ true
      → 1 + size by_id < fuel
      → IsSound by_id done [] w
      → (w' : Walk) × (walk by_id fuel i w ≡ some w') × IsSound by_id (i ∷ done) [] w'
  unfolding walk potential leavers IsLinked Covers
  walk-IsSound done fuel i w known enough s =
      walk_from-IsSound (i ∷ done) fuel ((i, false) ∷ []) (record w { path = [] })
        (omega (arith, enough, unseen-le-size w.colour by_id))
        (record {
          opened = refl;
          linked = (known, tt, tt);
          greys = λ n e. rw s.opened at (s.greys n e);
          trails = s.trails;
          covered = λ clear. (λ e. absurd (ground (arith, e)), tt);
          grounded = s.grounded;
          started = λ n m. elim (Memᴰ.cases_cons m) [
            | inl e ↦ inr (Memᴰ.head (ap (λ k. (k, false)) e))
            | inr m' ↦ elim (s.started n m') [
              | inl coloured ↦ inl coloured
              | inr none_left ↦ absurd (Memᴰ.not-nil none_left)
            ]
          ];
        })

  -- Every start is coloured by the end, and the others stay so.
  pub walk_all-IsSound :
      (done : List ℕ) (fuel : ℕ) (starts : List ℕ) (w : Walk)
      → ((n : ℕ) → Memᴰ n starts → is_known by_id n ≡ true)
      → 1 + size by_id < fuel
      → IsSound by_id done [] w
      → (w' : Walk) × (walk_all by_id fuel starts w ≡ some w')
        × (left : List ℕ) × IsSound by_id left [] w'
        × ((n : ℕ) → Memᴰ n starts ⊎ Memᴰ n done → Memᴰ n left)
  unfolding walk_all
  walk_all-IsSound done fuel [] w known enough s = (
    w,
    refl,
    done,
    s,
    λ n m. elim m [ inl none_left ↦ absurd (Memᴰ.not-nil none_left) | inr m' ↦ m' ],
  )
  walk_all-IsSound done fuel (i ∷ starts) w known enough s =
      let onward : (n : ℕ) → Memᴰ n (i ∷ starts) ⊎ Memᴰ n done → Memᴰ n starts ⊎ Memᴰ n (i ∷ done) =
        λ n m. elim m [
          | inl m' ↦ elim (Memᴰ.cases_cons m') [ inl e ↦ inr (Memᴰ.head e) | inr m'' ↦ inl m'' ]
          | inr m' ↦ inr (Memᴰ.tail m')
        ] in
      elim (Bool-cases (is_white (w.colour i))) [
        | inl fresh ↦
            let r = walk-IsSound done fuel i w (known i (Memᴰ.head refl)) enough s in
            let rest =
              walk_all-IsSound (i ∷ done) fuel starts r.0 (λ n m. known n (Memᴰ.tail m)) enough
                r.2 in
            rw (fresh, r.1) (rest.0, rest.1, rest.2, rest.3, λ n m. rest.4 n (onward n m))
        | inr coloured ↦
            let s' : IsSound by_id (i ∷ done) [] w = record {
              opened = s.opened;
              linked = s.linked;
              greys = s.greys;
              trails = s.trails;
              covered = s.covered;
              grounded = s.grounded;
              started = λ n m. elim (Memᴰ.cases_cons m) [
                | inl e ↦ inl (subst (λ k. is_white (w.colour k) ≡ false) (sym e) coloured)
                | inr m' ↦ s.started n m'
              ];
            } in
            let rest =
              walk_all-IsSound (i ∷ done) fuel starts w (λ n m. known n (Memᴰ.tail m)) enough s' in
            rw coloured (rest.0, rest.1, rest.2, rest.3, λ n m. rest.4 n (onward n m))
      ]
