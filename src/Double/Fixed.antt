-- ===== src/Double/Fixed.antt =====
-- A type with the operations of `float64` that meets the laws: NaN, two infinities, and millionths.
-- The tests and the examples run on it.
use polymarket_signal_autopi.Base.{
  ℕ, zero, suc, ◌+◌, ◌*◌, ◌/◌, ◌≤◌, ◌<◌, ◌≡◌, refl, ap, Bool, true, false, ℤ, pos, negsuc, sub_ℕ,
  leb_ℤ, ◌+ℤ◌, ◌-ℤ◌, ◌*ℤ◌, arith, if◌then◌else◌,
}
use native.Mathlib.Nat.{mul-div_cancel}
use polymarket_signal_autopi.Double.Order.{Double, IsOrdered, SpreadsNan}

pub data Fixed : Type 0 where
  nan neg_inf pos_inf : Fixed
  num : ℤ → Fixed

abbrev le : Fixed → Fixed → Bool
le nan y = false
le neg_inf nan = false
le neg_inf y = true
le pos_inf pos_inf = true
le pos_inf y = false
le (num a) nan = false
le (num a) neg_inf = false
le (num a) pos_inf = true
le (num a) (num b) = leb_ℤ a b

abbrev is_nan : Fixed → Bool
is_nan nan = true
is_nan x = false

abbrev is_inf : Fixed → Bool
is_inf neg_inf = true
is_inf pos_inf = true
is_inf x = false

abbrev neg : Fixed → Fixed
neg nan = nan
neg neg_inf = pos_inf
neg pos_inf = neg_inf
neg (num a) = num (pos 0 -ℤ a)

abbrev add : Fixed → Fixed → Fixed
add nan y = nan
add x nan = nan
add neg_inf pos_inf = nan
add neg_inf y = neg_inf
add pos_inf neg_inf = nan
add pos_inf y = pos_inf
add (num a) neg_inf = neg_inf
add (num a) pos_inf = pos_inf
add (num a) (num b) = num (a +ℤ b)

abbrev sub : Fixed → Fixed → Fixed
sub x y = add x (neg y)

abbrev abs : Fixed → Fixed
abs x = if le (num (pos 0)) x then x else neg x

-- a / b towards zero, for b not 0
abbrev quot : ℤ → ℤ → ℤ
quot (pos a) (pos b) = pos (a / b)
quot (pos a) (negsuc b) = sub_ℕ 0 (a / suc b)
quot (negsuc a) (pos b) = sub_ℕ 0 (suc a / b)
quot (negsuc a) (negsuc b) = pos (suc a / suc b)

-- the infinity with the sign of a product
abbrev signed_inf : ℤ → ℤ → Fixed
signed_inf (pos _) (pos _) = pos_inf
signed_inf (pos _) (negsuc _) = neg_inf
signed_inf (negsuc _) (pos _) = neg_inf
signed_inf (negsuc _) (negsuc _) = pos_inf

abbrev times_inf : ℤ → ℤ → Fixed
times_inf s (pos zero) = nan
times_inf s (pos (suc n)) = signed_inf s (pos 1)
times_inf s (negsuc n) = signed_inf s (negsuc 0)

abbrev mul : Fixed → Fixed → Fixed
mul nan y = nan
mul x nan = nan
mul (num a) (num b) = num (quot (a *ℤ b) (pos 1_000_000))
mul (num a) pos_inf = times_inf (pos 1) a
mul (num a) neg_inf = times_inf (negsuc 0) a
mul pos_inf (num b) = times_inf (pos 1) b
mul neg_inf (num b) = times_inf (negsuc 0) b
mul pos_inf y = y
mul neg_inf y = neg y

abbrev quot_num : ℤ → ℤ → Fixed
quot_num (pos zero) (pos zero) = nan
quot_num (pos (suc a)) (pos zero) = pos_inf
quot_num (negsuc a) (pos zero) = neg_inf
quot_num a b = num (quot (a *ℤ pos 1_000_000) b)

abbrev div : Fixed → Fixed → Fixed
div nan y = nan
div x nan = nan
div (num a) (num b) = quot_num a b
div (num a) y = num (pos 0)
div pos_inf (num b) = signed_inf (pos 1) b
div neg_inf (num b) = signed_inf (negsuc 0) b
div x y = nan

abbrev lit : ℕ → ℕ → Fixed
lit m n = num (pos (m * 1_000_000 / n))

abbrev floor : Fixed → ℤ
floor (num (pos a)) = pos (a / 1_000_000)
floor (num (negsuc a)) = negsuc (a / 1_000_000)
floor x = negsuc 9_223_372_036_854_775_807

instance abbrev pub fixed_double : Double Fixed
fixed_double = record {
  le = le;
  is_nan = is_nan;
  is_inf = is_inf;
  add = add;
  sub = sub;
  mul = mul;
  div = div;
  neg = neg;
  abs = abs;
  lit = lit;
  floor = floor;
}

div_mono : (m n k : ℕ) → m ≤ n → m * 1_000_000 / (k + 1) ≤ n * 1_000_000 / (k + 1)
div_mono m n k h = grind arith

div_strict : (m n k : ℕ) → m < n → k < 1_000_000 → m * 1_000_000 / (k + 1) < n * 1_000_000 / (k + 1)
div_strict m n k h b = grind arith

div_whole : (m k : ℕ) → m * (k + 1) * 1_000_000 / (k + 1) ≡ m * 1_000_000 / 1
div_whole m k = grind (arith, mul-div_cancel (m * 1_000_000) {n = k + 1} (ground arith))

le_trans : (x y z : Fixed) → le x y ≡ true → le y z ≡ true → le x z ≡ true
le_trans x y z p q = ground arith

pub Fixed-IsOrdered : IsOrdered Fixed
Fixed-IsOrdered = record {
  le_not_nan = λ x y h. ground arith;
  le_trans = le_trans;
  le_total = λ x y n m. ground arith;
  lit_finite = λ m k h. (refl, refl);
  lit_whole = λ m k. ap (λ n. num (pos n)) (div_whole m k);
  lit_mono = λ m n k h. ground (arith, div_mono m n k);
  lit_strict = λ m n k h b c. ground (arith, div_strict m n k);
}

pub Fixed-SpreadsNan : SpreadsNan Fixed
Fixed-SpreadsNan = record { add_left = λ x y n. ground arith; add_right = λ x y n. ground arith }
