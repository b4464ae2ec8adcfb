-- ===== src/Text/Trim.antt =====
-- `strings.TrimSpace`.
use polymarket_signal_autopi.Base.{
  ℕ, ◌≡◌, refl, ap, ◌∙◌, inl, inr, Bool, false, ◌||◌, ◌&&◌, List, [], ◌∷◌, String, Char, code, leb,
  ◌==◌, number_eq, if◌then◌else◌, Bool-cases,
}

-- `unicode.IsSpace`: the characters with the property White_Space.
unfoldable pub is_space : ℕ → Bool
is_space c =
    (leb 9 c && leb c 13)
    || c == 32
    || c == 0x85
    || c == 0xa0
    || c == 0x1680
    || (leb 0x2000 c && leb c 0x200a)
    || c == 0x2028
    || c == 0x2029
    || c == 0x202f
    || c == 0x205f
    || c == 0x3000

unfoldable pub trim_left : String → String
trim_left String.[] = String.[]
trim_left (String.◌∷◌ c s) = if is_space (code c) then trim_left s else String.◌∷◌ c s

-- A character in front of a text whose right end is trimmed.
unfoldable pub keep : Char → String → String
keep c String.[] = if is_space (code c) then String.[] else String.◌∷◌ c String.[]
keep c (String.◌∷◌ e s) = String.◌∷◌ c (String.◌∷◌ e s)

unfoldable pub trim_right : String → String
unfolding keep
trim_right String.[] = String.[]
trim_right (String.◌∷◌ c s) = keep c (trim_right s)

unfoldable pub trim_space : String → String
unfolding trim_left trim_right is_space
trim_space s = trim_right (trim_left s)

-- A text that is empty or begins with a character that is no space.
abbrev pub BeginsInk : String → Type 0
BeginsInk String.[] = Unit
BeginsInk (String.◌∷◌ c s) = is_space (code c) ≡ false

pub trim_left-BeginsInk : (s : String) → BeginsInk (trim_left s)
unfolding trim_left
trim_left-BeginsInk String.[] = tt
trim_left-BeginsInk (String.◌∷◌ c s) = elim (Bool-cases (is_space (code c))) [
  | inl e ↦ rw (e, trim_left) (trim_left-BeginsInk s)
  | inr e ↦ rw (e, trim_left) e
]

pub BeginsInk-trim_left : (s : String) → BeginsInk s → trim_left s ≡ s
unfolding trim_left
BeginsInk-trim_left String.[] h = refl
BeginsInk-trim_left (String.◌∷◌ c s) h = rw h

keep-BeginsInk : (c : Char) (s : String) → is_space (code c) ≡ false → BeginsInk (keep c s)
unfolding keep
keep-BeginsInk c String.[] h = rw h h
keep-BeginsInk c (String.◌∷◌ e s) h = h

pub trim_right-BeginsInk : (s : String) → BeginsInk s → BeginsInk (trim_right s)
unfolding trim_right
trim_right-BeginsInk String.[] h = tt
trim_right-BeginsInk (String.◌∷◌ c s) h = keep-BeginsInk c (trim_right s) h

trim_right-keep : (c : Char) (s : String) → trim_right (keep c s) ≡ keep c (trim_right s)
unfolding trim_right keep
trim_right-keep c String.[] = elim (Bool-cases (is_space (code c))) [
  | inl e ↦ rw e
  | inr e ↦ rw e (rw e)
]
trim_right-keep c (String.◌∷◌ e s) = refl

trim_right_idem : (s : String) → trim_right (trim_right s) ≡ trim_right s
unfolding trim_right
trim_right_idem String.[] = refl
trim_right_idem (String.◌∷◌ c s) =
    trim_right-keep c (trim_right s) ∙ ap (keep c) (trim_right_idem s)

pub trim_space_idem : (s : String) → trim_space (trim_space s) ≡ trim_space s
unfolding trim_space
trim_space_idem s =
    ap trim_right (BeginsInk-trim_left _ (trim_right-BeginsInk _ (trim_left-BeginsInk s)))
    ∙ trim_right_idem (trim_left s)

-- `strings.Map` for a function that never drops a character.
unfoldable pub map_runes : (Char → Char) → String → String
map_runes f String.[] = String.[]
map_runes f (String.◌∷◌ c s) = String.◌∷◌ (f c) (map_runes f s)

module _ (f : Char → Char) (keeps : (c : Char) → is_space (code (f c)) ≡ is_space (code c)) where
  trim_left-map_runes : (s : String) → trim_left (map_runes f s) ≡ map_runes f (trim_left s)
  unfolding trim_left map_runes
  trim_left-map_runes String.[] = refl
  trim_left-map_runes (String.◌∷◌ c s) = elim (Bool-cases (is_space (code c))) [
    | inl e ↦ rw (keeps c, e) (trim_left-map_runes s)
    | inr e ↦ rw (keeps c, e)
  ]

  keep-map_runes : (c : Char) (s : String) → keep (f c) (map_runes f s) ≡ map_runes f (keep c s)
  unfolding keep map_runes
  keep-map_runes c String.[] = elim (Bool-cases (is_space (code c))) [
    | inl e ↦ rw (keeps c, e)
    | inr e ↦ rw (keeps c, e)
  ]
  keep-map_runes c (String.◌∷◌ e s) = refl

  trim_right-map_runes : (s : String) → trim_right (map_runes f s) ≡ map_runes f (trim_right s)
  unfolding trim_right map_runes
  trim_right-map_runes String.[] = refl
  trim_right-map_runes (String.◌∷◌ c s) =
      ap (keep (f c)) (trim_right-map_runes s) ∙ keep-map_runes c (trim_right s)

  -- A change of characters that keeps the spaces can be made before or after trimming.
  pub trim_space-map_runes : (s : String) → trim_space (map_runes f s) ≡ map_runes f (trim_space s)
  unfolding trim_space
  trim_space-map_runes s =
      ap trim_right (trim_left-map_runes s) ∙ trim_right-map_runes (trim_left s)

pub map_runes_idem :
    (f : Char → Char)
    → ((c : Char) → f (f c) ≡ f c)
    → (s : String) → map_runes f (map_runes f s) ≡ map_runes f s
unfolding map_runes
map_runes_idem f h String.[] = refl
map_runes_idem f h (String.◌∷◌ c s) = cc (h c, map_runes_idem f h s)

-- The conversion to bytes of a text whose characters are ASCII.
abbrev pub bytes : String → List ℕ
bytes String.[] = []
bytes (String.◌∷◌ ch rest) = code ch ∷ bytes rest
