-- ===== src/Text/Search.antt =====
-- `strings.HasPrefix`, `strings.Contains`, `strings.Join` and `strings.Split`.
use Prim.Native.String
use Prim.Native.String.append
use polymarket_signal_autopi.Base.{
  ℕ, ◌≡◌, refl, inl, inr, Bool, true, false, not, ◌&&◌, ◌||◌, String, Char, List, [], ◌∷◌, nat_beq,
  code, if◌then◌else◌, Bool-cases, arith, All,
}

unfoldable pub has_prefix : String → String → Bool
has_prefix s String.[] = true
has_prefix String.[] (String.◌∷◌ e p) = false
has_prefix (String.◌∷◌ c s) (String.◌∷◌ e p) = nat_beq (code c) (code e) && has_prefix s p

unfoldable pub contains : String → String → Bool
unfolding has_prefix
contains String.[] part = has_prefix "" part
contains (String.◌∷◌ c s) part = has_prefix (String.◌∷◌ c s) part || contains s part

abbrev pub join : String → List String → String
join sep [] = ""
join sep (s ∷ []) = s
join sep (s ∷ t ∷ ss) = String.◌++◌ s (String.◌++◌ sep (join sep (t ∷ ss)))

-- A character in front of the first part.
abbrev pub prepend : Char → List String → List String
prepend c [] = String.◌∷◌ c String.[] ∷ []
prepend c (part ∷ parts) = String.◌∷◌ c part ∷ parts

-- `strings.Split` at a separator of one character.
unfoldable pub split_on : ℕ → String → List String
split_on sep String.[] = "" ∷ []
split_on sep (String.◌∷◌ c s) =
    let rest = split_on sep s in if nat_beq (code c) sep then "" ∷ rest else prepend c rest

-- No character of a text is the separator.
unfoldable pub lacks : ℕ → String → Bool
lacks sep String.[] = true
lacks sep (String.◌∷◌ c s) = not (nat_beq (code c) sep) && lacks sep s

pub split_on_single : (sep : ℕ) (s : String) → lacks sep s ≡ true → split_on sep s ≡ s ∷ []
unfolding split_on lacks
split_on_single sep String.[] h = refl
split_on_single sep (String.◌∷◌ c s) h = elim (Bool-cases (nat_beq (code c) sep)) [
  | inl e ↦ absurd (ground (arith, h, e))
  | inr e ↦ rw (e, split_on_single sep s (ground (arith, h))) refl
]

pub split_on-append :
    (sep : ℕ) (d : Char) (s t : String)
    → nat_beq (code d) sep ≡ true
    → lacks sep s ≡ true
    → split_on sep (String.◌++◌ s (String.◌∷◌ d t)) ≡ s ∷ split_on sep t
unfolding split_on lacks
split_on-append sep d String.[] t q h = rw (append.nil (String.◌∷◌ d t), q) refl
split_on-append sep d (String.◌∷◌ c s) t q h = elim (Bool-cases (nat_beq (code c) sep)) [
  | inl e ↦ absurd (ground (arith, h, e))
  | inr e ↦
      rw (append.cons c s (String.◌∷◌ d t), e, split_on-append sep d s t q (ground (arith, h))) refl
]

pub split_on-join :
    (sep : ℕ) (d : Char) (s : String) (ss : List String)
    → nat_beq (code d) sep ≡ true
    → All (λ t. lacks sep t ≡ true) (s ∷ ss)
    → split_on sep (join (String.◌∷◌ d String.[]) (s ∷ ss)) ≡ s ∷ ss
split_on-join sep d s [] q (h, _) = split_on_single sep s h
split_on-join sep d s (t ∷ ts) q (h, hs) =
    rw
      (
        append.cons d String.[] (join (String.◌∷◌ d String.[]) (t ∷ ts)),
        append.nil (join (String.◌∷◌ d String.[]) (t ∷ ts)),
        split_on-append sep d s (join (String.◌∷◌ d String.[]) (t ∷ ts)) q h,
        split_on-join sep d t ts q hs,
      )
      refl
