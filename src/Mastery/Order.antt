-- ===== src/Mastery/Order.antt =====
-- The order of evidence, by time and id, and the queries of apps/api/src/api/mastery.py under it.
use interview_helper.Prelude.{
  ℕ, ◌≡◌, refl, ◌∙◌, sym, ap, inl, inr, Bool, true, false, ◌&&◌, Option, none, some, List, [], ◌∷◌,
  ◌++◌, arith, ◌==◌, select, select-append, Bool-cases, Option-cases, All, All-Memᴰ, Memᴰ-select,
  some-injective, none≢some,
}
use mathlib.Core.Path.{subst}
use mathlib.Core.List.{Memᴰ}
use mathlib.Core.List.Memᴰ
use interview_helper.Mastery.{
  Evidence, Item, is_grading, same_id, is_before, earliest, same_attempt, is_own, is_first,
  moves_item, insert, sort,
}

same_id_self : (o : Option ℕ) → same_id o o ≡ true
same_id_self none = refl
same_id_self (some i) = ground arith

module _ {Real : Type 0} where
  -- Every row comes before those behind it.
  abbrev pub IsOrdered : List (Evidence Real) → Type 0
  IsOrdered [] = Unit
  IsOrdered (x ∷ xs) = All (λ y. is_before x y ≡ true) xs × IsOrdered xs

  before_once : (x y : Evidence Real) → is_before x y ≡ true → is_before y x ≡ false
  before_once x y h = ground (arith, h)

  earliest-member :
      (xs : List (Evidence Real)) (y : Evidence Real) → earliest xs ≡ some y → Memᴰ y xs
  unfolding earliest
  earliest-member [] y h = absurd (none≢some h)
  earliest-member (x ∷ xs) y h = elim (Option-cases (earliest xs)) [
    | inl empty ↦ Memᴰ.head (sym (some-injective (rw (empty, earliest) at h)))
    | inr found ↦ elim (Bool-cases (is_before found.0 x)) [
      | inl sooner ↦
          let e : found.0 ≡ y = some-injective (rw (found.1, sooner, earliest) at h) in
          Memᴰ.tail (earliest-member xs y (found.1 ∙ ap some e))
      | inr later ↦ Memᴰ.head (sym (some-injective (rw (found.1, later, earliest) at h)))
    ]
  ]

  earliest-head :
      (x : Evidence Real) (xs : List (Evidence Real))
      → All (λ y. is_before x y ≡ true) xs
      → earliest (x ∷ xs) ≡ some x
  unfolding earliest
  earliest-head x xs h = elim (Option-cases (earliest xs)) [
    | inl empty ↦ rw (empty, earliest) refl
    | inr found ↦
        let after : is_before found.0 x ≡ false = before_once x found.0 (
          All-Memᴰ (λ y. is_before x y ≡ true) found.0 xs h (earliest-member xs found.0 found.1)) in
        rw (found.1, earliest) (rw after refl)
  ]

  All-select :
      (P : Evidence Real → Type 0) (f : Evidence Real → Bool) (xs : List (Evidence Real))
      → All P xs
      → All P (select f xs)
  All-select P f [] h = tt
  All-select P f (x ∷ xs) h = elim (Bool-cases (f x)) [
    | inl on ↦ rw on (h.0, All-select P f xs h.1)
    | inr off ↦ rw off (All-select P f xs h.1)
  ]

  select-IsOrdered :
      (f : Evidence Real → Bool) (xs : List (Evidence Real))
      → IsOrdered xs
      → IsOrdered (select f xs)
  select-IsOrdered f [] h = tt
  select-IsOrdered f (x ∷ xs) h = elim (Bool-cases (f x)) [
    | inl on ↦ rw on (All-select (λ y. is_before x y ≡ true) f xs h.0, select-IsOrdered f xs h.1)
    | inr off ↦ rw off (select-IsOrdered f xs h.1)
  ]

  All-prefix :
      (P : Evidence Real → Type 0) (xs ys : List (Evidence Real)) → All P (xs ++ ys) → All P xs
  All-prefix P [] ys h = tt
  All-prefix P (x ∷ xs) ys h = (h.0, All-prefix P xs ys h.1)

  pub IsOrdered-prefix : (xs ys : List (Evidence Real)) → IsOrdered (xs ++ ys) → IsOrdered xs
  IsOrdered-prefix [] ys h = tt
  IsOrdered-prefix (x ∷ xs) ys h =
      (All-prefix (λ y. is_before x y ≡ true) xs ys h.0, IsOrdered-prefix xs ys h.1)

  -- Under the order the first row of a table stays the first when rows are added behind it.
  earliest-append :
      (xs ys : List (Evidence Real)) (e : Evidence Real)
      → Memᴰ e xs
      → IsOrdered (xs ++ ys)
      → earliest (xs ++ ys) ≡ earliest xs
  earliest-append [] ys e m h = absurd (Memᴰ.not-nil m)
  earliest-append (x ∷ xs) ys e m h =
      earliest-head x (xs ++ ys) h.0 ∙ sym (earliest-head x xs (IsOrdered-prefix (x ∷ xs) ys h).0)

  same_attempt_self : (e : Evidence Real) → is_grading e.source ≡ true → same_attempt e e ≡ true
  same_attempt_self e h =
      let session = same_id_self e.session_id in
      let item = same_id_self e.item_id in ground (arith, session, item, h)

  pub moves_item-append :
      (table later : List (Evidence Real)) (e : Evidence Real) (i : Item Real)
      → Memᴰ e table
      → IsOrdered (table ++ later)
      → moves_item (table ++ later) e i ≡ moves_item table e i
  unfolding moves_item is_first
  moves_item-append table later e i m h = elim (Bool-cases (is_grading e.source)) [
    | inr off ↦ ground (arith, off)
    | inl on ↦
        let f = same_attempt e in
        let first : earliest (select f (table ++ later)) ≡ earliest (select f table) =
          ap earliest (select-append f table later)
          ∙ earliest-append (select f table) (select f later) e
              (Memᴰ-select f e table (same_attempt_self e on) m)
              (subst IsOrdered (select-append f table later)
                (select-IsOrdered f (table ++ later) h)) in
        ap (λ o. is_grading e.source && e.concept_id == i.primary_concept_id && is_own e o) first
  ]

  insert-first :
      (x : Evidence Real) (xs : List (Evidence Real))
      → All (λ y. is_before x y ≡ true) xs
      → insert x xs ≡ x ∷ xs
  unfolding insert
  insert-first x [] h = refl
  insert-first x (y ∷ ys) h = rw (before_once x y h.0, insert) refl

  -- A table that is in order is sorted already.
  pub sort-IsOrdered : (xs : List (Evidence Real)) → IsOrdered xs → sort xs ≡ xs
  unfolding sort insert
  sort-IsOrdered [] h = refl
  sort-IsOrdered (x ∷ xs) h = ap (insert x) (sort-IsOrdered xs h.1) ∙ insert-first x xs h.0
