-- ===== src/Base/Floats.antt =====
-- The floating-point operations that the sources use, as an interface: the arithmetic of the machine is
-- not modelled.
use Prim.Native.Nat.{ℕ}
use mathlib.Core.Path.{◌≡◌}
use mathlib.Core.Logic.{inl, inr}
use mathlib.Core.Bool.{Bool, true, false}
use native.Mathlib.Omega.{arith}
use supercombo_k.Base.Tests.{if◌then◌else◌, Bool-cases}
use supercombo_k.Base.Int.{ℤ, pos}

-- `lit m k` is the literal m / 10 ^ k.
pub record Floats (F : Type 0) : Type 0 where
  pub lit : ℤ → ℕ → F
  pub of_int : ℤ → F
  pub add : F → F → F
  pub sub : F → F → F
  pub mul : F → F → F
  pub div : F → F → F
  pub abs : F → F
  pub lt : F → F → Bool
  pub le : F → F → Bool
  pub is_finite : F → Bool
  pub neg : F → F
  pub round : F → F
  pub lround : F → ℤ
  pub nan : F

-- std::max, std::min and `clamp_float` of src/utils_math.h.
module _ {F : Type 0} (f : Floats F) where
  abbrev pub max_float : F → F → F
  max_float a b = if f.lt a b then b else a

  abbrev pub min_float : F → F → F
  min_float a b = if f.lt b a then b else a

  unfoldable pub clamp_float : F → F → F → F
  clamp_float value lo hi = if f.is_finite value then min_float (max_float value lo) hi else lo

-- The casts between `float` and `double`.
pub record Casts (F D : Type 0) : Type 0 where
  pub widen : F → D
  pub narrow : D → F

-- What the proofs use of the order of IEEE numbers. Only a NaN is not `<=` itself.
pub record IsOrdered {F : Type 0} (f : Floats F) : Type 0 where
  pub lit_refl : (m : ℤ) (k : ℕ) → f.le (f.lit m k) (f.lit m k) ≡ true
  pub finite_refl : (x : F) → f.is_finite x ≡ true → f.le x x ≡ true
  pub refl_of_le : (x y : F) → f.le x y ≡ true → (f.le x x ≡ true) × (f.le y y ≡ true)
  pub le_trans : (x y z : F) → f.le x y ≡ true → f.le y z ≡ true → f.le x z ≡ true
  pub le_of_lt : (x y : F) → f.lt x y ≡ true → f.le x y ≡ true
  pub le_of_not_lt :
      (x y : F) → f.le x x ≡ true → f.le y y ≡ true → f.lt x y ≡ false → f.le y x ≡ true
  pub add_le :
      (x y : F)
      → f.le x x ≡ true
      → f.is_finite y ≡ true
      → f.le (f.lit (pos 0) 0) y ≡ true
      → f.le x (f.add x y) ≡ true
  pub sub_le :
      (x y : F)
      → f.le x x ≡ true
      → f.is_finite y ≡ true
      → f.le (f.lit (pos 0) 0) y ≡ true
      → f.le (f.sub x y) x ≡ true

module _ {F : Type 0} (f : Floats F) (o : IsOrdered f) where
  pub max_float_refl :
      (a b : F)
      → f.le a a ≡ true
      → f.le b b ≡ true
      → f.le (max_float f a b) (max_float f a b) ≡ true
  max_float_refl a b p q = ground arith

  pub min_float_le : (a b : F) → f.le a a ≡ true → f.le (min_float f a b) a ≡ true
  min_float_le a b p = ground (arith, o.le_of_lt b a)

  pub max_float_le :
      (a b m : F) → f.le a m ≡ true → f.le b m ≡ true → f.le (max_float f a b) m ≡ true
  max_float_le a b m p q = ground arith

  -- A value that is finite is cut to the upper bound.
  pub clamp_float_le :
      (value lo hi : F)
      → f.is_finite value ≡ true
      → f.le lo lo ≡ true
      → f.le hi hi ≡ true
      → f.le (clamp_float f value lo hi) hi ≡ true
  unfolding clamp_float
  clamp_float_le value lo hi n p q =
      let m : F = max_float f value lo in
      let number = max_float_refl value lo (o.finite_refl value n) p in
      elim (Bool-cases (f.lt hi m)) [
        | inl e ↦ rw (n, e) q
        | inr e ↦ rw (n, e) (o.le_of_not_lt hi m q number e)
      ]
