-- ===== src/Text/Ascii.antt =====
-- Tables that meet the interface: those of ASCII. The tests run on them.
use polymarket_signal_autopi.Base.{
  ℕ, ◌<◌, ◌≡◌, refl, ap, sym, ◌∙◌, ◌⊎◌, inl, inr, false, Char, code, List, [], ◌∷◌, All, ◌==◌,
  number_eq, arith, if◌then◌else◌, Bool-cases,
}
use polymarket_signal_autopi.Text.Trim.{is_space}
use polymarket_signal_autopi.Text.Case.{Runes}

abbrev Table : Type 0
Table = List (ℕ × Char)

abbrev pick : ℕ → Table → Char → Char
pick n [] c = c
pick n ((k, e) ∷ t) c = if k == n then e else pick n t c

abbrev lower_table : Table
lower_table =
    (b'A', "a")
    ∷ (b'B', "b")
    ∷ (b'C', "c")
    ∷ (b'D', "d")
    ∷ (b'E', "e")
    ∷ (b'F', "f")
    ∷ (b'G', "g")
    ∷ (b'H', "h")
    ∷ (b'I', "i")
    ∷ (b'J', "j")
    ∷ (b'K', "k")
    ∷ (b'L', "l")
    ∷ (b'M', "m")
    ∷ (b'N', "n")
    ∷ (b'O', "o")
    ∷ (b'P', "p")
    ∷ (b'Q', "q")
    ∷ (b'R', "r")
    ∷ (b'S', "s")
    ∷ (b'T', "t")
    ∷ (b'U', "u")
    ∷ (b'V', "v")
    ∷ (b'W', "w")
    ∷ (b'X', "x")
    ∷ (b'Y', "y")
    ∷ (b'Z', "z")
    ∷ []

abbrev upper_table : Table
upper_table =
    (b'a', "A")
    ∷ (b'b', "B")
    ∷ (b'c', "C")
    ∷ (b'd', "D")
    ∷ (b'e', "E")
    ∷ (b'f', "F")
    ∷ (b'g', "G")
    ∷ (b'h', "H")
    ∷ (b'i', "I")
    ∷ (b'j', "J")
    ∷ (b'k', "K")
    ∷ (b'l', "L")
    ∷ (b'm', "M")
    ∷ (b'n', "N")
    ∷ (b'o', "O")
    ∷ (b'p', "P")
    ∷ (b'q', "Q")
    ∷ (b'r', "R")
    ∷ (b's', "S")
    ∷ (b't', "T")
    ∷ (b'u', "U")
    ∷ (b'v', "V")
    ∷ (b'w', "W")
    ∷ (b'x', "X")
    ∷ (b'y', "Y")
    ∷ (b'z', "Z")
    ∷ []

-- What every entry of a table satisfies, its answer does, unless it has no entry and leaves `c` alone.
pick_cases :
    (P : ℕ → Char → Type 0) (n : ℕ) (t : Table) (c : Char)
    → All (λ e. P e.0 e.1) t
    → P n (pick n t c) ⊎ (pick n t c ≡ c)
pick_cases P n [] c h = inr refl
pick_cases P n ((k, e) ∷ t) c (h, hs) = elim (Bool-cases (k == n)) [
  | inl eq ↦ inl (rw (eq) (rw (← (number_eq.same_iff k n).0 eq) h))
  | inr ne ↦ rw (ne) (pick_cases P n t c hs)
]

abbrev lower : Char → Char
lower c = pick (code c) lower_table c

-- An entry's answer is a fixed point, and neither it nor the character is a space.
abbrev IsEntry : ℕ → Char → Type 0
IsEntry n e = (lower e ≡ e) × (is_space n ≡ false) × (is_space (code e) ≡ false)

pub entries : All (λ e. IsEntry e.0 e.1) lower_table
unfolding is_space
entries = assumption (refl, tt)

pub lower_idem : (c : Char) → lower (lower c) ≡ lower c
lower_idem c = elim (pick_cases IsEntry (code c) lower_table c entries) [
  | inl e ↦ e.0
  | inr same ↦ ap lower same
]

pub lower_space : (c : Char) → is_space (code (lower c)) ≡ is_space (code c)
lower_space c = elim (pick_cases IsEntry (code c) lower_table c entries) [
  | inl e ↦ e.2 ∙ sym e.1
  | inr same ↦ ap (λ x. is_space (code x)) same
]

pick_miss :
    (n : ℕ) (t : Table) (c : Char)
    → All (λ e. (64 < e.0) × (e.0 < 91)) t
    → (n < 65) ⊎ (90 < n)
    → pick n t c ≡ c
pick_miss n [] c h o = refl
pick_miss n ((k, e) ∷ t) c (h, hs) o = ground (arith, pick_miss n t c hs o)

pub lower_fixed : (c : Char) → code c < 128 → (code c < 65) ⊎ (90 < code c) → lower c ≡ c
lower_fixed c b o = pick_miss (code c) lower_table c (omega arith) o

instance abbrev pub ascii_runes : Runes
ascii_runes = record {
  lower = lower;
  upper = λ c. pick (code c) upper_table c;
  fold = λ c. pick (code c) upper_table c;
  lower_idem = lower_idem;
  lower_space = lower_space;
  lower_fixed = lower_fixed;
}
