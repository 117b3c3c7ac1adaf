-- ===== src/Prelude/Members.antt =====
-- Membership in lists, and lists without repeats.
use Prim.Native.Nat.{ℕ}
use mathlib.Core.Path.{◌≡◌, refl, sym, ap, ◌∙◌, subst}
use mathlib.Core.Logic.{inl, inr}
use mathlib.Core.Bool.{Bool, true, false}
use mathlib.Core.List.{List, [], ◌∷◌, ◌++◌, map, Memᴰ}
use mathlib.Core.List.Memᴰ
use native.Mathlib.Omega.{arith}
use interview_helper.Prelude.Tests.{◌==◌, Bool-cases}
use interview_helper.Prelude.Lists.{select, any-append, All, contains}

module _ {ℓ} {A : Type ℓ} where
  pub All-Memᴰ {κ} : (P : A → Type κ) (a : A) (xs : List A) → All P xs → Memᴰ a xs → P a
  All-Memᴰ P a [] h m = absurd (Memᴰ.not-nil m)
  All-Memᴰ P a (x ∷ xs) h (Memᴰ.head e) = subst P (sym e) h.0
  All-Memᴰ P a (x ∷ xs) h (Memᴰ.tail m) = All-Memᴰ P a xs h.1 m

  pub Memᴰ-All {κ} : (P : A → Type κ) (xs : List A) → ((a : A) → Memᴰ a xs → P a) → All P xs
  Memᴰ-All P [] h = tt
  Memᴰ-All P (x ∷ xs) h = (h x (Memᴰ.head refl), Memᴰ-All P xs (λ a m. h a (Memᴰ.tail m)))

  pub Memᴰ-select :
      (f : A → Bool) (a : A) (xs : List A) → f a ≡ true → Memᴰ a xs → Memᴰ a (select f xs)
  Memᴰ-select f a [] h m = m
  Memᴰ-select f a (x ∷ xs) h m = elim (Memᴰ.cases_cons m) [
    | inl e ↦ let same : f x ≡ true = sym (ap f e) ∙ h in rw same (Memᴰ.head e)
    | inr m' ↦
        let rest = Memᴰ-select f a xs h m' in
        elim (Bool-cases (f x)) [ inl on ↦ rw on (Memᴰ.tail rest) | inr off ↦ rw off rest ]
  ]

  pub select-Memᴰ :
      (f : A → Bool) (a : A) (xs : List A) → Memᴰ a (select f xs) → Memᴰ a xs × (f a ≡ true)
  select-Memᴰ f a [] m = absurd (Memᴰ.not-nil m)
  select-Memᴰ f a (x ∷ xs) m = elim (Bool-cases (f x)) [
    | inl on ↦ elim (Memᴰ.cases_cons (rw on at m)) [
      | inl e ↦ (Memᴰ.head e, ap f e ∙ on)
      | inr m' ↦ let r = select-Memᴰ f a xs m' in (Memᴰ.tail r.0, r.1)
    ]
    | inr off ↦ let r = select-Memᴰ f a xs (rw off at m) in (Memᴰ.tail r.0, r.1)
  ]

abbrev pub Distinct : List ℕ → Type 0
Distinct [] = Unit
Distinct (i ∷ is) = (contains i is ≡ false) × Distinct is

pub Distinct-snoc :
    (xs : List ℕ) (a : ℕ) → Distinct xs → contains a xs ≡ false → Distinct (xs ++ (a ∷ []))
Distinct-snoc [] a h n = (refl, tt)
Distinct-snoc (x ∷ xs) a h n = (
  ground (arith, h.0, n, any-append (λ b. x == b) xs (a ∷ [])),
  Distinct-snoc xs a h.1 (ground (arith, n)),
)

pub Distinct-prefix : (xs ys : List ℕ) → Distinct (xs ++ ys) → Distinct xs
Distinct-prefix [] ys h = tt
Distinct-prefix (x ∷ xs) ys h =
    (ground (arith, h.0, any-append (λ b. x == b) xs ys), Distinct-prefix xs ys h.1)

pub Distinct-without :
    (xs : List ℕ) (a : ℕ) (ys : List ℕ) → Distinct (xs ++ (a ∷ ys)) → Distinct (xs ++ ys)
Distinct-without [] a ys h = h.1
Distinct-without (x ∷ xs) a ys h = (
  ground (arith, h.0, any-append (λ b. x == b) xs (a ∷ ys), any-append (λ b. x == b) xs ys),
  Distinct-without xs a ys h.1,
)

pub map-append {ℓ κ} :
    {A : Type ℓ} {B : Type κ} (f : A → B) (xs ys : List A) → map f (xs ++ ys) ≡ map f xs ++ map f ys
map-append f [] ys = refl
map-append f (x ∷ xs) ys = ap (λ rest. f x ∷ rest) (map-append f xs ys)
