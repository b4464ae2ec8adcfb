-- ===== src/Double/Order.antt =====
-- The operations of `float64` that the program calls, and the laws of its comparisons.
use polymarket_signal_autopi.Base.{
  ℕ, ◌+◌, ◌*◌, ◌≤◌, ◌<◌, ◌≡◌, ◌⊎◌, Bool, true, false, not, ◌&&◌, ℤ, arith,
}

pub record Double {ℓ} (F : Type ℓ) : Type ℓ where
  pub le : F → F → Bool
  pub is_nan : F → Bool
  pub is_inf : F → Bool
  pub add : F → F → F
  pub sub : F → F → F
  pub mul : F → F → F
  pub div : F → F → F
  pub neg : F → F
  pub abs : F → F
  -- the number nearest to a fraction of integers, which a literal or a conversion gives
  pub lit : ℕ → ℕ → F
  -- `int(math.Floor(x))`
  pub floor : F → ℤ

-- `x < y`: false when one of the two is NaN, since then both orders are.
abbrev pub lt {ℓ} : {F : Type ℓ} ⦃d : Double F⦄ → F → F → Bool
lt ⦃d⦄ x y = d.le x y && not (d.le y x)

-- `x == y`
abbrev pub eq {ℓ} : {F : Type ℓ} ⦃d : Double F⦄ → F → F → Bool
eq ⦃d⦄ x y = d.le x y && d.le y x

-- The constants 0 and 1, and a conversion from an integer that is not negative.
abbrev pub nought {ℓ} : {F : Type ℓ} ⦃d : Double F⦄ → F
nought ⦃d⦄ = d.lit 0 1

abbrev pub one {ℓ} : {F : Type ℓ} ⦃d : Double F⦄ → F
one ⦃d⦄ = d.lit 1 1

-- The order of IEEE 754: no NaN is ordered, and away from NaN the order is total. Fractions of small
-- integers over one denominator keep their order when they are rounded, and a fraction that is a whole
-- number is that number.
pub record IsOrdered {ℓ} (F : Type ℓ) ⦃d : Double F⦄ : Type ℓ where
  pub le_not_nan : (x y : F) → d.le x y ≡ true → (d.is_nan x ≡ false) × (d.is_nan y ≡ false)
  pub le_trans : (x y z : F) → d.le x y ≡ true → d.le y z ≡ true → d.le x z ≡ true
  pub le_total :
      (x y : F) → d.is_nan x ≡ false → d.is_nan y ≡ false → (d.le x y ≡ true) ⊎ (d.le y x ≡ true)
  pub lit_finite :
      (m k : ℕ)
      → m ≤ 1_000_000
      → (d.is_nan (d.lit m (k + 1)) ≡ false) × (d.is_inf (d.lit m (k + 1)) ≡ false)
  pub lit_whole : (m k : ℕ) → d.lit (m * (k + 1)) (k + 1) ≡ d.lit m 1
  pub lit_mono : (m n k : ℕ) → m ≤ n → d.le (d.lit m (k + 1)) (d.lit n (k + 1)) ≡ true
  pub lit_strict :
      (m n k : ℕ)
      → m < n
      → n ≤ 1_000_000
      → k < 1_000_000
      → d.le (d.lit n (k + 1)) (d.lit m (k + 1)) ≡ false

-- A sum with a NaN is NaN.
pub record SpreadsNan {ℓ} (F : Type ℓ) ⦃d : Double F⦄ : Type ℓ where
  pub add_left : (x y : F) → d.is_nan x ≡ true → d.is_nan (d.add x y) ≡ true
  pub add_right : (x y : F) → d.is_nan y ≡ true → d.is_nan (d.add x y) ≡ true

module _ {ℓ} {F : Type ℓ} ⦃d : Double F⦄ (laws : IsOrdered F) where
  open laws use {le_not_nan, le_trans, le_total}

  pub lt_irrefl : (x : F) → lt x x ≡ false
  lt_irrefl x = ground arith

  pub lt_trans : (x y z : F) → lt x y ≡ true → lt y z ≡ true → lt x z ≡ true
  lt_trans x y z p q = ground (arith, le_trans x y z, le_trans z x y)

  pub le-lt_trans : (x y z : F) → d.le x y ≡ true → lt y z ≡ true → lt x z ≡ true
  le-lt_trans x y z p q = ground (arith, le_trans x y z, le_trans z x y)

  pub lt-le_trans : (x y z : F) → lt x y ≡ true → d.le y z ≡ true → lt x z ≡ true
  lt-le_trans x y z p q = ground (arith, le_trans x y z, le_trans y z x)

  pub le_refl : (x : F) → d.is_nan x ≡ false → d.le x x ≡ true
  le_refl x n = ground (arith, le_total x x)

  -- Away from NaN, what is not less is greater or equal.
  pub le_of_not_lt :
      (x y : F) → d.is_nan x ≡ false → d.is_nan y ≡ false → lt x y ≡ false → d.le y x ≡ true
  le_of_not_lt x y n m h = ground (arith, le_total x y)

  pub le_of_not_le :
      (x y : F) → d.is_nan x ≡ false → d.is_nan y ≡ false → d.le x y ≡ false → d.le y x ≡ true
  le_of_not_le x y n m h = ground (arith, le_total x y)

  -- NaN compares with nothing.
  pub le_nan : (x y : F) → d.is_nan x ≡ true → (d.le x y ≡ false) × (d.le y x ≡ false)
  le_nan x y n = ground (arith, le_not_nan x y, le_not_nan y x)
