-- ===== src/Grading/Fraction.antt =====
-- Non-negative fractions, compared across the denominators.
use native.Mathlib.Nat.{
  mul-le-mul, mul-pos, mul-le-mul_left, mul-le-mul_right, mul_assoc, mul_left_comm, mul_right_comm,
  le_of_mul-le-mul_right,
}
use interview_helper.Prelude.{ℕ, ◌*◌, ◌≤◌, ◌<◌, ◌≡◌, ◌∙◌, sym, ap, arith}

pub record Fraction : Type 0 where
  pub num : ℕ
  pub den : ℕ

-- `p` hundredths
abbrev pub percent : ℕ → Fraction
percent p = record { num = p; den = 100 }

abbrev pub ratio : ℕ → ℕ → Fraction
ratio a b = record { num = a; den = b }

unfoldable pub times : Fraction → Fraction → Fraction
times x y = record { num = x.num * y.num; den = x.den * y.den }

-- A fraction between 0 and 1.
pub record IsUnit (x : Fraction) : Type 0 where
  pub bounded : x.num ≤ x.den
  pub proper : 0 < x.den

abbrev pub IsAtMost : Fraction → Fraction → Type 0
IsAtMost x y = x.num * y.den ≤ y.num * x.den

pub times-IsUnit : (x y : Fraction) → IsUnit x → IsUnit y → IsUnit (times x y)
unfolding times
times-IsUnit x y ux uy = record {
  bounded = mul-le-mul ux.bounded uy.bounded;
  proper = mul-pos ux.proper uy.proper;
}

interchange : (a b c d : ℕ) → a * b * (c * d) ≡ a * c * (b * d)
interchange a b c d =
    mul_assoc a b (c * d) ∙ ap (λ n. a * n) (mul_left_comm b c d) ∙ sym (mul_assoc a c (b * d))

-- A factor of at most 1 does not make a fraction larger.
pub times-IsAtMost : (x y : Fraction) → IsUnit y → IsAtMost (times x y) x
unfolding times
times-IsAtMost x y uy =
    rw (mul_right_comm x.num y.num x.den, ← mul_assoc x.num x.den y.den)
      (mul-le-mul_left (x.num * x.den) uy.bounded)

pub times-monotone : (c x y : Fraction) → IsAtMost x y → IsAtMost (times c x) (times c y)
unfolding times
times-monotone c x y le =
    rw (interchange c.num x.num c.den y.den, interchange c.num y.num c.den x.den)
      (mul-le-mul_left (c.num * c.den) le)

pub times-monotone_left : (x y c : Fraction) → IsAtMost x y → IsAtMost (times x c) (times y c)
unfolding times
times-monotone_left x y c le =
    rw (interchange x.num c.num y.den c.den, interchange y.num c.num x.den c.den)
      (mul-le-mul_right (c.num * c.den) le)

pub IsAtMost-trans : (x y z : Fraction) → 0 < y.den → IsAtMost x y → IsAtMost y z → IsAtMost x z
IsAtMost-trans x y z proper xy yz =
    let below : x.num * y.den * z.den ≤ y.num * x.den * z.den = mul-le-mul_right z.den xy in
    let above : y.num * z.den * x.den ≤ z.num * y.den * x.den = mul-le-mul_right x.den yz in
    le_of_mul-le-mul_right
      (omega (
        arith,
        below,
        above,
        mul_right_comm x.num z.den y.den,
        mul_right_comm y.num x.den z.den,
        mul_right_comm z.num y.den x.den,
      ))
      proper
