-- ===== src/Prelude/Float.antt =====
-- Python's float, of which the source uses arithmetic, comparison, `abs`, `max`, `min` and `sum`.
-- The number type is a parameter: no law of arithmetic is assumed, so what is proved holds of
-- float64 with all its rounding. `sum` is an operation of its own, since Python's built-in
-- compensates its rounding errors from one version on.
use octopush.Prelude.{ℕ, ◌-◌, ◌*◌, ◌^◌, Bool, List, foldl, if◌then◌else◌}
use octopush.Prelude.Int.{ℤ, pos, ◌+ℤ◌, ◌-ℤ◌, ◌*ℤ◌, ltb_ℤ, leb_ℤ, negate, abs, quotient}

pub record Float (F : Type 0) : Type 0 where
  pub plus : F → F → F
  pub minus : F → F → F
  pub times : F → F → F
  pub divide : F → F → F
  pub opposite : F → F
  pub absolute : F → F
  pub less : F → F → Bool
  pub at_most : F → F → Bool
  pub same : F → F → Bool
  pub sum : List F → F
  pub of_int : ℤ → F
  -- `decimal m k` is the literal m · 10^(-k).
  pub decimal : ℕ → ℕ → F

module _ {F : Type 0} ⦃fl : Float F⦄ where
  infixl 65 ◌⊕◌ ◌⊖◌
  infixl 70 ◌⊗◌ ◌⊘◌
  infix 50 ◌⋖◌ ◌⩽◌
  abbrev pub ◌⊕◌ : F → F → F
  ◌⊕◌ = fl.plus

  abbrev pub ◌⊖◌ : F → F → F
  ◌⊖◌ = fl.minus

  abbrev pub ◌⊗◌ : F → F → F
  ◌⊗◌ = fl.times

  abbrev pub ◌⊘◌ : F → F → F
  ◌⊘◌ = fl.divide

  -- `x < y`
  abbrev pub ◌⋖◌ : F → F → Bool
  ◌⋖◌ = fl.less

  -- `x <= y`
  abbrev pub ◌⩽◌ : F → F → Bool
  ◌⩽◌ = fl.at_most

  abbrev pub zero_float : F
  zero_float = fl.of_int (pos 0)

  -- Python keeps the first of two that compare equal.
  abbrev pub max_float : F → F → F
  max_float x y = if x ⋖ y then y else x

  abbrev pub min_float : F → F → F
  min_float x y = if y ⋖ x then y else x

-- Numbers with twelve decimals, at which the tests and examples run.
abbrev pub unit_scale : ℕ
unit_scale = 10 ^ 12

instance abbrev pub fixed_point : Float ℤ
fixed_point = record {
  plus = ◌+ℤ◌;
  minus = ◌-ℤ◌;
  times = λ a b. quotient (a *ℤ b) (pos unit_scale);
  divide = λ a b. quotient (a *ℤ pos unit_scale) b;
  opposite = negate;
  absolute = abs;
  less = ltb_ℤ;
  at_most = leb_ℤ;
  same = λ a b. if leb_ℤ a b then leb_ℤ b a else ltb_ℤ a b;
  sum = foldl ◌+ℤ◌ (pos 0);
  of_int = λ z. z *ℤ pos unit_scale;
  decimal = λ m k. pos (m * 10 ^ (12 - k));
}
