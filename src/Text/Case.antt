-- ===== src/Text/Case.antt =====
-- `strings.ToLower`, `strings.ToUpper` and `strings.EqualFold`. The tables of `unicode` enter as an interface: what they give
-- for a character, and three facts of them that the program relies on.
use polymarket_signal_autopi.Base.{
  ◌<◌, ◌⊎◌, ◌||◌, ltb, arith, ◌≡◌, refl, ap, ◌∙◌, Bool, true, ◌&&◌, String, Char, code, ◌==◌,
  text_eq,
}
use polymarket_signal_autopi.Text.Trim.{
  is_space, trim_space, trim_space_idem, trim_space-map_runes, map_runes, map_runes_idem,
}

pub record Runes : Type 0 where
  pub lower : Char → Char
  pub upper : Char → Char
  -- the representative of the characters that `strings.EqualFold` takes for one
  pub fold : Char → Char
  pub lower_idem : (c : Char) → lower (lower c) ≡ lower c
  pub lower_space : (c : Char) → is_space (code (lower c)) ≡ is_space (code c)
  pub lower_fixed : (c : Char) → code c < 128 → (code c < 65) ⊎ (90 < code c) → lower c ≡ c

-- Texts of ASCII characters that are no capital letters.
unfoldable pub is_lower_text : String → Bool
is_lower_text String.[] = true
is_lower_text (String.◌∷◌ c s) =
    (ltb (code c) 128 && (ltb (code c) 65 || ltb 90 (code c))) && is_lower_text s

module _ ⦃u : Runes⦄ where
  unfoldable pub to_lower : String → String
  unfolding map_runes
  to_lower s = map_runes u.lower s

  unfoldable pub to_upper : String → String
  unfolding map_runes
  to_upper s = map_runes u.upper s

  -- `strings.EqualFold`
  unfoldable pub equal_fold : String → String → Bool
  unfolding map_runes
  equal_fold s t = map_runes u.fold s == map_runes u.fold t

  -- `strings.ToLower(strings.TrimSpace(s))`, which the program calls in many places.
  unfoldable pub lower_trimmed : String → String
  lower_trimmed s = to_lower (trim_space s)

  pub lower_trimmed_idem : (s : String) → lower_trimmed (lower_trimmed s) ≡ lower_trimmed s
  unfolding lower_trimmed to_lower
  lower_trimmed_idem s =
      ap (map_runes u.lower) (
        trim_space-map_runes u.lower u.lower_space (trim_space s)
        ∙ ap (map_runes u.lower) (trim_space_idem s))
      ∙ map_runes_idem u.lower u.lower_idem (trim_space s)

  pub trim_space-lower_trimmed : (s : String) → trim_space (lower_trimmed s) ≡ lower_trimmed s
  unfolding lower_trimmed to_lower
  trim_space-lower_trimmed s =
      trim_space-map_runes u.lower u.lower_space (trim_space s)
      ∙ ap (map_runes u.lower) (trim_space_idem s)

  map_runes-lower : (s : String) → is_lower_text s ≡ true → map_runes u.lower s ≡ s
  unfolding map_runes is_lower_text
  map_runes-lower String.[] h = refl
  map_runes-lower (String.◌∷◌ c s) h =
      cc (u.lower_fixed c (ground arith) (ground arith), map_runes-lower s (ground arith))

  -- A text that is in lower case and trimmed stays as it is.
  pub lower_trimmed_fixed :
      (s : String) → is_lower_text s ≡ true → trim_space s ≡ s → lower_trimmed s ≡ s
  unfolding lower_trimmed to_lower
  lower_trimmed_fixed s h t = rw t (map_runes-lower s h)
