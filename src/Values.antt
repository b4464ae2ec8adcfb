-- ===== src/Values.antt =====
-- Values of dynamic type (`any`): what the program distinguishes in the metadata of a signal and in a
-- decoded JSON object. Numbers of the integer kinds are one case, since all are converted alike.
use polymarket_signal_autopi.Base.{
  Bool, not, ◌||◌, String, Option, List, ℕ, suc, ℤ, pos, negsuc, GoMap,
}
use polymarket_signal_autopi.Double.{Double}

pub data Value (F : Type 0) : Type 0 where
  float : F → Value F
  int : ℤ → Value F
  text : String → Value F
  other : Value F

-- What the program takes from `strconv` and `encoding/json`: the number that a text denotes, if it is
-- one, and the members of the object that some bytes encode, if they do.
pub record Decoder (F : Type 0) : Type 0 where
  pub parse_float : String → Option F
  pub unmarshal : List ℕ → Option (GoMap String (Value F))

module _ {F : Type 0} ⦃d : Double F⦄ where
  -- `float64(n)` of an integer.
  unfoldable pub of_int : ℤ → F
  of_int (pos n) = d.lit n 1
  of_int (negsuc n) = d.neg (d.lit (suc n) 1)

  unfoldable pub is_finite : F → Bool
  is_finite x = not (d.is_nan x || d.is_inf x)
