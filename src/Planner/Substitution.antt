-- ===== src/Planner/Substitution.antt =====
-- `_prerequisite_substitution` (apps/api/src/api/planner.py): which concept is served for another.
use interview_helper.Prelude.{
  ℕ, ◌≤◌, ◌<◌, ◌≡◌, refl, ◌∙◌, sym, ap, inl, inr, true, false, some, List, [], ◌∷◌, arith, ltb,
  Bool-cases, Option-cases, All, All-Memᴰ, List-cases,
}
use mathlib.Core.Path.{subst}
use mathlib.Core.List.{Memᴰ}
use mathlib.Core.List.Memᴰ
use interview_helper.Planner.{
  Item, Entry, Edge, Note, no_note, not_measured, substituted, for_review, is_serveable, entry_of,
  prereqs_of, weaker_of, weakest_from, prerequisite_substitution,
}

-- The entry of one of the prerequisites.
abbrev pub Gate : List Entry → List ℕ → Entry → Type 0
Gate ranked ps e = (p : ℕ) × Memᴰ p ps × (entry_of ranked p ≡ some e)

-- The first prerequisite in the ranking that is weaker than an ability, and that none is weaker than.
pub record IsWeakest (ranked : List Entry) (ps : List ℕ) (ability : ℕ) (e : Entry) : Type 0 where
  pub gate : Gate ranked ps e
  pub weaker : e.ability < ability
  pub least : (e' : Entry) → Gate ranked ps e' → e.ability ≤ e'.ability

-- What each note says about the concept that is served.
unfoldable pub Verdict : List Entry → List Item → List ℕ → Entry → ℕ × Note → Type 0
Verdict ranked candidates ps entry (c, no_note) =
    (c ≡ entry.concept_id) × ((e : Entry) → Gate ranked ps e → entry.ability ≤ e.ability)
Verdict ranked candidates ps entry (c, not_measured) =
    (c ≡ entry.concept_id)
    × (e : Entry) × IsWeakest ranked ps entry.ability e
    × (is_serveable candidates e.concept_id ≡ false)
Verdict ranked candidates ps entry (c, substituted d) =
    (d ≡ entry.concept_id)
    × (e : Entry) × IsWeakest ranked ps entry.ability e
    × (e.concept_id ≡ c)
    × (is_serveable candidates c ≡ true)
Verdict ranked candidates ps entry (c, for_review) = ⊥

weaker_of_sound :
    (ranked : List Entry) (ability : ℕ) (ps : List ℕ) (e : Entry)
    → Memᴰ e (weaker_of ranked ability ps)
    → Gate ranked ps e × (e.ability < ability)
unfolding weaker_of
weaker_of_sound ranked ability [] e m = absurd (Memᴰ.not-nil m)
weaker_of_sound ranked ability (p ∷ ps) e m =
    let behind : Memᴰ e (weaker_of ranked ability ps)
        → Gate ranked (p ∷ ps) e × (e.ability < ability) =
      λ m'.
        let r = weaker_of_sound ranked ability ps e m' in ((r.0.0, Memᴰ.tail r.0.1, r.0.2), r.1) in
    elim (Option-cases (entry_of ranked p)) [
      | inl missing ↦ behind (rw (missing, weaker_of) at m)
      | inr found ↦ elim (Bool-cases (ltb found.0.ability ability)) [
        | inl on ↦ elim (Memᴰ.cases_cons (rw (found.1, on, weaker_of) at m)) [
          | inl same ↦
              let less : found.0.ability < ability = ground (arith, on) in
              (
                (p, Memᴰ.head refl, found.1 ∙ ap some (sym same)),
                omega (arith, less, ap (λ x. x.ability) same),
              )
          | inr m' ↦ behind m'
        ]
        | inr off ↦ behind (rw (found.1, off, weaker_of) at m)
      ]
    ]

weaker_of_complete :
    (ranked : List Entry) (ability : ℕ) (ps : List ℕ) (e : Entry)
    → Gate ranked ps e
    → e.ability < ability
    → Memᴰ e (weaker_of ranked ability ps)
unfolding weaker_of
weaker_of_complete ranked ability [] e g h = absurd (Memᴰ.not-nil g.1)
weaker_of_complete ranked ability (p ∷ ps) e g h = elim (Memᴰ.cases_cons g.1) [
  | inl here ↦
      let found : entry_of ranked p ≡ some e = ap (entry_of ranked) (sym here) ∙ g.2 in
      let less : ltb e.ability ability ≡ true = ground (arith, h) in
      rw (found, weaker_of) (rw less (Memᴰ.head refl))
  | inr m ↦
      let rest = weaker_of_complete ranked ability ps e (g.0, m, g.2) h in
      elim (Option-cases (entry_of ranked p)) [
        | inl missing ↦ rw (missing, weaker_of) rest
        | inr found ↦ elim (Bool-cases (ltb found.0.ability ability)) [
          | inl on ↦ rw (found.1, weaker_of) (rw on (Memᴰ.tail rest))
          | inr off ↦ rw (found.1, weaker_of) (rw off rest)
        ]
      ]
]

abbrev IsLeast : Entry → List Entry → Type 0
IsLeast w es = Memᴰ w es × All (λ e. w.ability ≤ e.ability) es

weakest_from-IsLeast :
    (least : Entry) (es : List Entry) → IsLeast (weakest_from least es) (least ∷ es)
unfolding weakest_from
weakest_from-IsLeast least [] = (Memᴰ.head refl, (omega arith, tt))
weakest_from-IsLeast least (e ∷ es) = elim (Bool-cases (ltb e.ability least.ability)) [
  | inl less ↦
      let r = weakest_from-IsLeast e es in
      let step : weakest_from e es ≡ weakest_from least (e ∷ es) = rw (less, weakest_from) refl in
      subst (λ w. IsLeast w (least ∷ e ∷ es)) step
        (Memᴰ.tail r.0, (ground (arith, less, r.1.0), r.1))
  | inr more ↦
      let r = weakest_from-IsLeast least es in
      let step : weakest_from least es ≡ weakest_from least (e ∷ es) =
        rw (more, weakest_from) refl in
      let kept : Memᴰ (weakest_from least es) (least ∷ e ∷ es) = elim (Memᴰ.cases_cons r.0) [
        | inl here ↦ Memᴰ.head here
        | inr m ↦ Memᴰ.tail (Memᴰ.tail m)
      ] in
      subst (λ w. IsLeast w (least ∷ e ∷ es)) step
        (kept, (r.1.0, (ground (arith, more, r.1.0), r.1.1)))
]

weakest_from-IsWeakest :
    (ranked : List Entry) (ps : List ℕ) (ability : ℕ) (e : Entry) (es : List Entry)
    → weaker_of ranked ability ps ≡ e ∷ es
    → IsWeakest ranked ps ability (weakest_from e es)
weakest_from-IsWeakest ranked ps ability e es h =
    let least = weakest_from-IsLeast e es in
    let w = weakest_from e es in
    let sound = weaker_of_sound ranked ability ps w (rw h least.0) in
    record {
      gate = sound.0;
      weaker = sound.1;
      least = λ e' g. elim (Bool-cases (ltb e'.ability ability)) [
        | inl on ↦
            All-Memᴰ (λ x. w.ability ≤ x.ability) e' (e ∷ es) least.1
              (rw h at (weaker_of_complete ranked ability ps e' g (ground (arith, on))))
        | inr off ↦ ground (arith, off, sound.1)
      ];
    }

-- A concept is kept without a note only if no prerequisite of it in the ranking is weaker. Else the
-- weakest of them is served in its place if some candidate measures it, and if none does the concept is
-- kept with the note that says so.
pub prerequisite_substitution-Verdict :
    (ranked : List Entry) (candidates : List Item) (edges : List Edge) (entry : Entry)
    → Verdict ranked candidates
        (prereqs_of edges entry.concept_id)
        entry
        (prerequisite_substitution ranked candidates edges entry)
unfolding Verdict prerequisite_substitution
prerequisite_substitution-Verdict ranked candidates edges entry =
    let ps = prereqs_of edges entry.concept_id in
    elim (List-cases (weaker_of ranked entry.ability ps)) [
      | inl none_weaker ↦
          rw (none_weaker, prerequisite_substitution)
            (
              refl,
              λ e g. elim (Bool-cases (ltb e.ability entry.ability)) [
                | inl on ↦ absurd (
                    Memᴰ.not-nil (
                      rw none_weaker at
                        (weaker_of_complete ranked entry.ability ps e g (ground (arith, on)))))
                | inr off ↦ ground (arith, off)
              ],
            )
      | inr some_weaker ↦
          let w = weakest_from some_weaker.0 some_weaker.1 in
          let weakest =
            weakest_from-IsWeakest ranked ps entry.ability some_weaker.0 some_weaker.1
              some_weaker.2 in
          elim (Bool-cases (is_serveable candidates w.concept_id)) [
            | inl on ↦
                rw (some_weaker.2, prerequisite_substitution) (rw on (refl, w, weakest, refl, on))
            | inr off ↦
                rw (some_weaker.2, prerequisite_substitution) (rw off (refl, w, weakest, off))
          ]
    ]
