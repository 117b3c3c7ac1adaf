-- ===== src/Corpus/Rounds.antt =====
-- One round of a walk of `check_concept_graph` (packages/corpus/src/corpus/validate.py) on each
-- colour of the node that it pops.
use interview_helper.Prelude.{
  ℕ, ◌≡◌, refl, ◌∙◌, sym, ap, ◌⊎◌, inl, inr, ◌≢◌, Bool, true, false, some, List, [], ◌∷◌, ◌++◌,
  arith, contains, All-append, select,
}
use mathlib.Core.Path.{subst}
use mathlib.Core.List.{Memᴰ}
use mathlib.Core.List.Memᴰ
use mathlib.Core.WellFounded.{Acc}
use interview_helper.Corpus.{
  Index, Concept, lookup, Colour, white, grey, black, is_white, paint, Walk, Stack, push_prereqs,
  is_pushed, leave, report, enter,
}
use interview_helper.Corpus.Cycles.{
  prereqs_of, Trail, Below, IsPath, cycle_back-Trail, cycle_back-some, last,
}
use interview_helper.Corpus.Paint.{paint-cases, paint-coloured}
use interview_helper.Corpus.Walks.{
  leavers, IsLinked, Covers, Before, IsSound, IsLinked-IsPath, Covers-mono, leavers-push,
  push-IsLinked, push-Covers, push_keeps, select-pushed,
}

snoc-nonempty : {A : Type 0} (xs : List A) (x : A) → (xs ++ (x ∷ [])) ≢ []
snoc-nonempty [] x e = absurd (ground (arith, e))
snoc-nonempty (y ∷ xs) x e = absurd (ground (arith, e))

module _ (by_id : Index) (done : List ℕ) where
  -- The entry that was popped needs no place on the stack once its node is coloured.
  popped :
      (n node : ℕ) (leaving : Bool) (stack : Stack) (colour : ℕ → Colour)
      → (leaving ≡ false → is_white (colour node) ≡ false)
      → (is_white (colour n) ≡ false) ⊎ Memᴰ (n, false) ((node, leaving) ∷ stack)
      → (is_white (colour n) ≡ false) ⊎ Memᴰ (n, false) stack
  popped n node leaving stack colour coloured (inl h) = inl h
  popped n node leaving stack colour coloured (inr m) = elim (Memᴰ.cases_cons m) [
    | inl e ↦ inl (
        subst (λ k. is_white (colour k) ≡ false) (sym (ap (λ x. x.0) e))
          (coloured (sym (ap (λ x. x.1) e))))
    | inr m' ↦ inr m'
  ]

  pub skip-IsSound :
      (node : ℕ) (stack : Stack) (w : Walk)
      → w.colour node ≡ black
      → IsSound by_id done ((node, false) ∷ stack) w
      → IsSound by_id done stack w
  unfolding leavers IsLinked Covers
  skip-IsSound node stack w is_done s = record {
    opened = s.opened;
    linked = s.linked.2;
    greys = s.greys;
    trails = s.trails;
    covered = λ clear.
        Covers-mono by_id w.colour w.colour (node ∷ []) [] stack
          (λ p seen. elim seen [
            | inl d ↦ inl d
            | inr m ↦ inl (ap w.colour (Memᴰ.eq_of_singleton m) ∙ is_done)
          ])
          (s.covered clear).1;
    grounded = s.grounded;
    started = λ n m. popped n node false stack w.colour (λ _. ap is_white is_done) (s.started n m);
  }

  pub report-IsSound :
      (node : ℕ) (stack : Stack) (w : Walk)
      → w.colour node ≡ grey
      → IsSound by_id done ((node, false) ∷ stack) w
      → (next : Stack × Walk) × (report node stack w ≡ some next)
        × (next.0 ≡ stack)
        × (next.1.colour ≡ w.colour)
        × IsSound by_id done next.0 next.1
  unfolding report leavers IsLinked
  report-IsSound node stack w is_open s =
      let on_path : contains node w.path ≡ true = s.greys node is_open in
      let found = cycle_back-some node (node ∷ []) w.path on_path in
      let trail : Trail by_id node found.0 node =
        cycle_back-Trail by_id node node (node ∷ []) w.path found.0 (λ x edge. last edge)
          (subst (Below by_id node) (sym s.opened) s.linked.1)
          (subst (IsPath by_id) (sym s.opened) (IsLinked-IsPath by_id stack s.linked.2)) found.1 in
      (
        (stack, record w { cycles = w.cycles ++ (found.0 ∷ []) }),
        rw (found.1, report) refl,
        refl,
        refl,
        record {
          opened = s.opened;
          linked = s.linked.2;
          greys = s.greys;
          trails =
              All-append (λ c. (n : ℕ) × Trail by_id n c n) w.cycles (found.0 ∷ []) s.trails
                ((node, trail), tt);
          covered = λ clear. absurd (snoc-nonempty w.cycles found.0 clear);
          grounded = λ clear. absurd (snoc-nonempty w.cycles found.0 clear);
          started =
              λ n m. popped n node false stack w.colour (λ _. ap is_white is_open) (s.started n m);
        },
      )

  pub leave-IsSound :
      (node : ℕ) (stack : Stack) (w : Walk)
      → IsSound by_id done ((node, true) ∷ stack) w
      → (next : Stack × Walk) × (leave node stack w ≡ some next)
        × (next.0 ≡ stack)
        × (next.1.colour ≡ paint node black w.colour)
        × IsSound by_id done next.0 next.1
  unfolding leave leavers IsLinked Covers
  leave-IsSound node stack w s =
      let colour : ℕ → Colour = paint node black w.colour in
      (
        (stack, record w { colour = colour; path = leavers stack }),
        rw s.opened refl,
        refl,
        refl,
        record {
          opened = refl;
          linked = s.linked.2;
          greys = λ n e. elim (paint-cases node n black w.colour) [
            | inl same ↦ absurd (ground (arith, sym same.1 ∙ e))
            | inr other ↦
                let on_path : contains n (node ∷ leavers stack) ≡ true =
                  rw s.opened at (s.greys n (sym other.1 ∙ e)) in
                ground (arith, on_path, other.0)
          ];
          trails = s.trails;
          covered = λ clear.
              Covers-mono by_id w.colour colour (node ∷ []) [] stack
                (λ p seen. inl (elim (paint-cases node p black w.colour) [
                  | inl same ↦ same.1
                  | inr other ↦ elim seen [
                    | inl d ↦ other.1 ∙ d
                    | inr m ↦
                        let e : p ≡ node = Memᴰ.eq_of_singleton m in
                        absurd (ground (arith, other.0, e))
                  ]
                ]))
                (s.covered clear).1;
          grounded = λ clear n e. elim (paint-cases node n black w.colour) [
            | inl same ↦ subst (Acc (Before by_id)) same.0 (
                Acc.intro node (λ p edge. elim ((s.covered clear).0 refl p edge) [
                  | inl d ↦ s.grounded clear p d
                  | inr m ↦ absurd (Memᴰ.not-nil m)
                ]))
            | inr other ↦ s.grounded clear n (sym other.1 ∙ e)
          ];
          started = λ n m.
              elim (popped n node true stack w.colour (λ e. absurd (ground (arith, e)))
                (s.started n m)) [
                  | inl coloured ↦ inl (paint-coloured node n black w.colour refl (inr coloured))
                  | inr m' ↦ inr m'
                ];
        },
      )

  pub enter-IsSound :
      (node : ℕ) (stack : Stack) (w : Walk) (c : Concept)
      → w.colour node ≡ white
      → lookup node by_id ≡ some c
      → IsSound by_id done ((node, false) ∷ stack) w
      → (next : Stack × Walk) × (enter by_id node stack w ≡ some next)
        × (next.0 ≡ push_prereqs by_id (paint node grey w.colour) c.prereqs ((node, true) ∷ stack))
        × (next.1.colour ≡ paint node grey w.colour)
        × IsSound by_id done next.0 next.1
  unfolding enter leavers IsLinked Covers prereqs_of
  enter-IsSound node stack w c fresh found s =
      let colour : ℕ → Colour = paint node grey w.colour in
      let pushed = push_prereqs by_id colour c.prereqs ((node, true) ∷ stack) in
      let still : (p : ℕ) → w.colour p ≡ black → colour p ≡ black = λ p d.
        elim (paint-cases node p grey w.colour) [
          | inl same ↦ absurd (ground (arith, sym fresh ∙ ap w.colour same.0 ∙ d))
          | inr other ↦ other.1 ∙ d
        ] in
      (
        (pushed, record w { colour = colour; path = node ∷ w.path }),
        rw (found, enter) refl,
        refl,
        refl,
        record {
          opened = rw s.opened (sym (leavers-push by_id colour c.prereqs ((node, true) ∷ stack)));
          linked =
              push-IsLinked by_id colour c.prereqs ((node, true) ∷ stack)
                (λ p m known. (rw (found, prereqs_of) m, known)) s.linked;
          greys = λ n e. elim (paint-cases node n grey w.colour) [
            | inl same ↦ ground (arith, sym same.0)
            | inr other ↦
                let on_path : contains n w.path ≡ true = s.greys n (sym other.1 ∙ e) in
                ground (arith, on_path)
          ];
          trails = s.trails;
          covered = λ clear. push-Covers by_id colour c.prereqs ((node, true) ∷ stack) (
            λ _ p edge.
                select-pushed by_id colour c.prereqs p (rw (found, prereqs_of) at edge.0) edge.1,
            Covers-mono by_id w.colour colour (node ∷ [])
                (node ∷ select (is_pushed by_id colour) c.prereqs) stack
                (λ p seen. elim seen [
                  | inl d ↦ inl (still p d)
                  | inr m ↦ inr (Memᴰ.head (Memᴰ.eq_of_singleton m))
                ])
                (s.covered clear).1,
          );
          grounded = λ clear n e. elim (paint-cases node n grey w.colour) [
            | inl same ↦ absurd (ground (arith, sym same.1 ∙ e))
            | inr other ↦ s.grounded clear n (sym other.1 ∙ e)
          ];
          started = λ n m. elim (s.started n m) [
            | inl coloured ↦ inl (paint-coloured node n grey w.colour refl (inr coloured))
            | inr m' ↦ elim (Memᴰ.cases_cons m') [
              | inl e ↦ inl (paint-coloured node n grey w.colour refl (inl (sym (ap (λ x. x.0) e))))
              | inr m'' ↦ inr (
                  push_keeps by_id colour c.prereqs ((node, true) ∷ stack) (n, false)
                    (Memᴰ.tail m''))
            ]
          ];
        },
      )
