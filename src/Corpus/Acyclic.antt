-- ===== src/Corpus/Acyclic.antt =====
-- Where the search for cycles of `check_concept_graph` (packages/corpus/src/corpus/validate.py) ends.
use interview_helper.Prelude.{
  ℕ, ◌+◌, ◌≡◌, refl, sym, inl, inr, true, false, some, List, [], ◌∷◌, arith, ◌==◌, ==_iff,
  Bool-cases, All,
}
use mathlib.Core.List.{Memᴰ}
use mathlib.Core.List.Memᴰ
use mathlib.Core.WellFounded.{Acc}
use interview_helper.Corpus.{
  Index, lookup, is_known, Colour, white, grey, black, is_white, Walk, keys, size, start,
  search_cycles,
}
use interview_helper.Corpus.Cycles.{Edge, Trail, last, next}
use interview_helper.Corpus.Walks.{leavers, IsLinked, Covers, Before, IsSound}
use interview_helper.Corpus.Returns.{walk_all-IsSound, keys-known}

start-IsSound : (by_id : Index) → IsSound by_id [] [] start
unfolding leavers IsLinked Covers
start-IsSound by_id = record {
  opened = refl;
  linked = tt;
  greys = λ n e. absurd (ground (arith, e));
  trails = tt;
  covered = λ _. tt;
  grounded = λ _ n e. absurd (ground (arith, e));
  started = λ n m. absurd (Memᴰ.not-nil m);
}

known-keys : (by_id : Index) (n : ℕ) → is_known by_id n ≡ true → Memᴰ n (keys by_id)
unfolding is_known lookup
known-keys [] n h = absurd (ground (arith, h))
known-keys ((i, c) ∷ rest) n h = elim (Bool-cases (i == n)) [
  | inl same ↦ Memᴰ.head (sym ((==_iff i n).0 same))
  | inr other ↦ Memᴰ.tail (known-keys rest n (rw (other, is_known, lookup) at h))
]

finished : (c : Colour) → is_white c ≡ false → (c ≡ grey → ⊥) → c ≡ black
finished white h g = absurd (ground (arith, h))
finished grey h g = absurd (g refl)
finished black h g = refl

pub search_cycles_sound :
    (by_id : Index)
    → (w : Walk) × (search_cycles by_id ≡ some w)
      × All (λ c. (n : ℕ) × Trail by_id n c n) w.cycles
      × (w.cycles ≡ [] → (n : ℕ) → is_known by_id n ≡ true → Acc (Before by_id) n)
unfolding search_cycles leavers
search_cycles_sound by_id =
    let r =
      walk_all-IsSound by_id [] (2 + size by_id) (keys by_id) start (keys-known by_id) (omega arith)
        (start-IsSound by_id) in
    let s = r.3 in
    (
      r.0,
      r.1,
      s.trails,
      λ clear n known.
          let coloured : is_white (r.0.colour n) ≡ false =
            elim (s.started n (r.4 n (inl (known-keys by_id n known)))) [
              | inl h ↦ h
              | inr m ↦ absurd (Memᴰ.not-nil m)
            ] in
          s.grounded clear n (
            finished (r.0.colour n) coloured (λ g. ground (arith, (rw s.opened at (s.greys n g))))),
    )

module _ (by_id : Index) where
  extend :
      {m n k : ℕ} {xs : List ℕ}
      → Trail by_id m xs n
      → Edge by_id n k
      → (ys : List ℕ) × Trail by_id m ys k
  extend (last e) f = (_, next e (last f))
  extend (next e t) f = (_, next e (extend t f).1)

  -- Along a trail from a concept that is reached by no infinite descent there is no way back.
  pub no_return : {n : ℕ} {c : List ℕ} → Acc (Before by_id) n → Trail by_id n c n → ⊥
  no_return (Acc.intro n smaller) (last e) = no_return (smaller n e) (last e)
  no_return (Acc.intro n smaller) (next {k = k} e t) = no_return (smaller k e) (extend t e).1

  pub Trail-is_known : {m n : ℕ} {c : List ℕ} → Trail by_id m c n → is_known by_id n ≡ true
  Trail-is_known (last e) = e.1
  Trail-is_known (next e t) = Trail-is_known t
