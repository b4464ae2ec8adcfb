-- ===== src/Text/Decimal.antt =====
-- `strconv.FormatInt` in base 10 and the verb `%d`, for numbers that fit 64 bits.
use Prim.Native.String
use polymarket_signal_autopi.Base.{
  ℕ, zero, suc, ◌/◌, ◌%◌, ◌≡◌, refl, true, false, String, List, [], ◌∷◌, ℤ, pos, negsuc, ltb,
}

-- The texts of a list one after another.
abbrev pub concat : List String → String
concat [] = ""
concat (s ∷ ss) = String.◌++◌ s (concat ss)

abbrev digit : ℕ → String
digit zero = "0"
digit (suc zero) = "1"
digit (suc (suc zero)) = "2"
digit (suc (suc (suc zero))) = "3"
digit (suc (suc (suc (suc zero)))) = "4"
digit (suc (suc (suc (suc (suc zero))))) = "5"
digit (suc (suc (suc (suc (suc (suc zero)))))) = "6"
digit (suc (suc (suc (suc (suc (suc (suc zero))))))) = "7"
digit (suc (suc (suc (suc (suc (suc (suc (suc zero)))))))) = "8"
digit (suc (suc (suc (suc (suc (suc (suc (suc (suc n))))))))) = "9"

-- The last digits of a number, as many as the fuel at most.
unfoldable pub show_digits : ℕ → ℕ → String
show_digits zero n = ""
show_digits (suc fuel) n = elim (ltb n 10) [
  | true ↦ digit n
  | false ↦ String.◌++◌ (show_digits fuel (n / 10)) (digit (n % 10))
]

-- A number below 2 ^ 64 has at most 20 digits.
unfoldable pub show_int : ℤ → String
unfolding show_digits
show_int (pos n) = show_digits 20 n
show_int (negsuc n) = String.◌++◌ "-" (show_digits 20 (suc n))

shown : (show_int (pos 1807) ≡ "1807") × (show_int (negsuc 41) ≡ "-42") × (show_int (pos 0) ≡ "0")
unfolding show_int
shown = (refl, refl, refl)
