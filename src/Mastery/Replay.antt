-- ===== src/Mastery/Replay.antt =====
-- The projection that gradings leave, and the one that `recompute` (apps/api/src/api/mastery.py) builds.
use interview_helper.Prelude.{
  ℕ, ◌≡◌, refl, ◌∙◌, sym, ap, inl, inr, true, false, some, List, [], ◌∷◌, ◌++◌, map, foldl, arith,
  ◌==◌, ==_iff, Bool-cases, Option-cases, All, Memᴰ-All, some-injective, none≢some,
}
use mathlib.Core.Path.{subst}
use mathlib.Core.List.{Memᴰ}
use interview_helper.Mastery.{
  Evidence, Arithmetic, Item, Projection, Store, moves_item, item_of, put_item, row_for, move_item,
  apply_evidence, record_evidence, reset_item, sort, recompute,
}
use interview_helper.Mastery.Order.{IsOrdered, moves_item-append, sort-IsOrdered}

foldl-append :
    {A B : Type 0} (f : B → A → B) (b : B) (xs ys : List A)
    → foldl f b (xs ++ ys) ≡ foldl f (foldl f b xs) ys
foldl-append f b [] ys = refl
foldl-append f b (x ∷ xs) ys = foldl-append f (f b x) xs ys

module _ {Real : Type 0} where
  item_of-id :
      (items : List (Item Real)) (k : ℕ) (i : Item Real)
      → item_of items (some k) ≡ some i
      → i.id ≡ k
  unfolding item_of
  item_of-id [] k i h = absurd (none≢some h)
  item_of-id (x ∷ xs) k i h = elim (Bool-cases (x.id == k)) [
    | inl here ↦
        let e : x ≡ i = some-injective (rw (here, item_of) at h) in
        sym (ap (λ y. y.id) e) ∙ (==_iff x.id k).0 here
    | inr other ↦ item_of-id xs k i (rw (other, item_of) at h)
  ]

  put_item-reset :
      (items : List (Item Real)) (k : ℕ) (i j : Item Real)
      → item_of items (some k) ≡ some i
      → j.id ≡ i.id
      → reset_item j ≡ reset_item i
      → map reset_item (put_item j items) ≡ map reset_item items
  unfolding item_of put_item
  put_item-reset [] k i j h same r = refl
  put_item-reset (x ∷ xs) k i j h same r =
      let own = item_of-id (x ∷ xs) k i h in
      elim (Bool-cases (x.id == k)) [
        | inl here ↦
            let e : x ≡ i = some-injective (rw (here, item_of) at h) in
            let hit : (x.id == j.id) ≡ true = ground (arith, here, own, same) in
            rw (hit, put_item) (ap (λ y. y ∷ map reset_item xs) (r ∙ sym (ap reset_item e)))
        | inr other ↦
            let miss : (x.id == j.id) ≡ false = ground (arith, other, own, same) in
            rw (miss, put_item)
              (ap (λ ys. reset_item x ∷ ys)
                (put_item-reset xs k i j (rw (other, item_of) at h) same r))
      ]

  reset_twice :
      (items : List (Item Real)) → map reset_item (map reset_item items) ≡ map reset_item items
  reset_twice [] = refl
  reset_twice (x ∷ xs) = ap (λ ys. reset_item x ∷ ys) (reset_twice xs)

module _ {Real Card : Type 0} (a : Arithmetic Real Card) where
  apply_evidence-append :
      (table later : List (Evidence Real)) (p : Projection Real Card) (e : Evidence Real)
      → Memᴰ e table
      → IsOrdered (table ++ later)
      → apply_evidence a (table ++ later) p e ≡ apply_evidence a table p e
  unfolding apply_evidence
  apply_evidence-append table later p e m h = elim (Option-cases (item_of p.items e.item_id)) [
    | inl missing ↦ rw (missing, apply_evidence) refl
    | inr found ↦
        let moves = moves_item-append table later e found.0 m h in
        rw (found.1, apply_evidence) (rw (moves, apply_evidence) refl)
  ]

  foldl-table :
      (table later : List (Evidence Real)) (p : Projection Real Card) (es : List (Evidence Real))
      → All (λ e. Memᴰ e table) es
      → IsOrdered (table ++ later)
      → foldl (apply_evidence a (table ++ later)) p es ≡ foldl (apply_evidence a table) p es
  foldl-table table later p [] ms h = refl
  foldl-table table later p (e ∷ es) ms h =
      ap (λ q. foldl (apply_evidence a (table ++ later)) q es)
        (apply_evidence-append table later p e ms.0 h)
      ∙ foldl-table table later (apply_evidence a table p e) es ms.1 h

  apply_evidence-reset :
      (table : List (Evidence Real)) (p : Projection Real Card) (e : Evidence Real)
      → map reset_item (apply_evidence a table p e).items ≡ map reset_item p.items
  unfolding apply_evidence move_item item_of
  apply_evidence-reset table p e = elim (Option-cases (item_of p.items e.item_id)) [
    | inl missing ↦ rw (missing, apply_evidence) refl
    | inr found ↦ elim (Option-cases e.item_id) [
      | inl unnamed ↦ absurd (none≢some (rw (unnamed, item_of) at found.1))
      | inr named ↦
          let i : Item Real = found.0 in
          let row = row_for a p.mastery e.concept_id in
          let delta = a.sub e.score (a.expected_score row.ability i.elo) in
          elim (Bool-cases (moves_item table e i)) [
            | inl moves ↦
                rw (found.1, apply_evidence)
                  (rw (moves, apply_evidence)
                    (put_item-reset p.items named.0 i (move_item a e delta i)
                      (rw named.1 at found.1) refl refl))
            | inr stays ↦ rw (found.1, apply_evidence) (rw (stays, apply_evidence) refl)
          ]
    ]
  ]

  foldl-reset :
      (table : List (Evidence Real)) (p : Projection Real Card) (es : List (Evidence Real))
      → map reset_item (foldl (apply_evidence a table) p es).items ≡ map reset_item p.items
  foldl-reset table p [] = refl
  foldl-reset table p (e ∷ es) =
      foldl-reset table (apply_evidence a table p e) es ∙ apply_evidence-reset table p e

  -- The projection that a rebuild starts from.
  blank : List (Item Real) → Projection Real Card
  blank items = record { mastery = []; items = map reset_item items }

  record IsReplayed (s : Store Real Card) : Type 0 where
    ordered : IsOrdered s.evidence
    replayed :
        s.projection ≡ foldl (apply_evidence a s.evidence) (blank s.projection.items) s.evidence

  replayed_same : (s : Store Real Card) → IsReplayed s → recompute a s ≡ s
  unfolding recompute blank
  replayed_same s h =
      ap (λ p. record s { projection = p })
        (rw (sort-IsOrdered s.evidence h.ordered) (sym h.replayed))

  record_evidence-IsReplayed :
      (s : Store Real Card) (rows : List (Evidence Real))
      → IsOrdered (s.evidence ++ rows)
      → IsReplayed s
      → IsReplayed (record_evidence a s rows)
  unfolding record_evidence blank
  record_evidence-IsReplayed s rows ordered h =
      let table = s.evidence ++ rows in
      let base = blank s.projection.items in
      let members : All (λ e. Memᴰ e s.evidence) s.evidence =
        Memᴰ-All (λ e. Memᴰ e s.evidence) s.evidence (λ e m. m) in
      let before : s.projection ≡ foldl (apply_evidence a table) base s.evidence =
        h.replayed ∙ sym (foldl-table s.evidence rows base s.evidence members ordered) in
      let items = foldl-reset table s.projection rows in
      record {
        ordered = ordered;
        replayed =
            ap (λ p. foldl (apply_evidence a table) p rows) before
            ∙ sym (foldl-append (apply_evidence a table) base s.evidence rows)
            ∙ ap (λ is. foldl (apply_evidence a table) (record { mastery = []; items = is }) table)
                (sym items);
      }

  -- Stores that evidence and rebuilds lead to, when each batch of evidence comes behind what is there.
  pub data Reach : Store Real Card → Type 0 where
    fresh :
        (items : List (Item Real))
        → Reach (record {
          evidence = [];
          projection = record { mastery = []; items = map reset_item items };
        })
    records :
        {s : Store Real Card} (rows : List (Evidence Real))
        → IsOrdered (s.evidence ++ rows)
        → Reach s
        → Reach (record_evidence a s rows)
    rebuilt : {s : Store Real Card} → Reach s → Reach (recompute a s)

  Reach-IsReplayed : {s : Store Real Card} → Reach s → IsReplayed s
  unfolding blank
  Reach-IsReplayed (fresh items) = record {
    ordered = tt;
    replayed = ap (λ is. record { mastery = []; items = is }) (sym (reset_twice items));
  }
  Reach-IsReplayed (records {s} rows ordered r) =
      record_evidence-IsReplayed s rows ordered (Reach-IsReplayed r)
  Reach-IsReplayed (rebuilt {s} r) =
      let h = Reach-IsReplayed r in subst IsReplayed (sym (replayed_same s h)) h

  -- As long as each batch of evidence comes behind what is there, in time and id, a rebuild of the
  -- projection gives exactly what the gradings left: every row of mastery and every rating.
  pub recompute-Reach : {s : Store Real Card} → Reach s → recompute a s ≡ s
  recompute-Reach {s} r = replayed_same s (Reach-IsReplayed r)

  -- On any store a second rebuild changes nothing.
  pub recompute_twice : (s : Store Real Card) → recompute a (recompute a s) ≡ recompute a s
  unfolding recompute
  recompute_twice s =
      ap
        (λ is. record s {
          projection =
              foldl (apply_evidence a s.evidence) (record { mastery = []; items = is })
                (sort s.evidence);
        })
        (foldl-reset s.evidence (record { mastery = []; items = map reset_item s.projection.items })
            (sort s.evidence)
          ∙ reset_twice s.projection.items)
