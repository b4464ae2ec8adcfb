-- ===== src/Text/Pad.antt =====
-- Trimming and the spaces around a text.
use Prim.Native.String
use Prim.Native.String.append
use polymarket_signal_autopi.Base.{
  ◌≡◌, refl, sym, ap, ◌∙◌, subst, Bool, true, false, ◌&&◌, String, code, ◌==◌, text_eq, arith,
}
use polymarket_signal_autopi.Text.Trim.{
  is_space, trim_left, keep, trim_right, trim_space, BeginsInk, trim_left-BeginsInk,
  BeginsInk-trim_left, trim_right-BeginsInk,
}

-- A text of spaces.
unfoldable pub is_blank : String → Bool
is_blank String.[] = true
is_blank (String.◌∷◌ c s) = is_space (code c) && is_blank s

trim_left_blank : (b s : String) → is_blank b ≡ true → trim_left (String.◌++◌ b s) ≡ trim_left s
unfolding trim_left is_blank
trim_left_blank String.[] s h = rw (append.nil s) refl
trim_left_blank (String.◌∷◌ c b) s h =
    let y : is_space (code c) ≡ true = ground (arith, h) in
    rw (append.cons c b s, y) (trim_left_blank b s (ground (arith, h)))

trim_right_blank : (a : String) → is_blank a ≡ true → trim_right a ≡ ""
unfolding trim_right keep is_blank
trim_right_blank String.[] h = refl
trim_right_blank (String.◌∷◌ c a) h =
    let y : is_space (code c) ≡ true = ground (arith, h) in
    rw (trim_right_blank a (ground (arith, h))) (rw y refl)

trim_right-append : (s a : String) → is_blank a ≡ true → trim_right (String.◌++◌ s a) ≡ trim_right s
unfolding trim_right
trim_right-append String.[] a h = rw (append.nil a) (trim_right_blank a h)
trim_right-append (String.◌∷◌ c s) a h =
    rw (append.cons c s a) (ap (keep c) (trim_right-append s a h))

pub trim_space_blank : (b : String) → is_blank b ≡ true → trim_space b ≡ ""
unfolding trim_space trim_left trim_right is_blank
trim_space_blank String.[] h = refl
trim_space_blank (String.◌∷◌ c b) h =
    let y : is_space (code c) ≡ true = ground (arith, h) in
    rw y (trim_space_blank b (ground (arith, h)))

BeginsInk-append : (s a : String) → s == "" ≡ false → BeginsInk s → BeginsInk (String.◌++◌ s a)
BeginsInk-append String.[] a n h = absurd (ground (arith, n))
BeginsInk-append (String.◌∷◌ c s) a n h = rw (append.cons c s a) h

-- Spaces on both sides of a text that is trimmed and not empty are what trimming takes off.
pub trim_space_pad :
    (b s a : String)
    → is_blank b ≡ true
    → is_blank a ≡ true
    → trim_space s ≡ s
    → s == "" ≡ false
    → trim_space (String.◌++◌ b (String.◌++◌ s a)) ≡ s
unfolding trim_space
trim_space_pad b s a hb ha trimmed n =
    let ink : BeginsInk s =
      subst BeginsInk trimmed (trim_right-BeginsInk (trim_left s) (trim_left-BeginsInk s)) in
    let left =
      trim_left_blank b (String.◌++◌ s a) hb
      ∙ BeginsInk-trim_left (String.◌++◌ s a) (BeginsInk-append s a n ink) in
    ap trim_right left
    ∙ trim_right-append s a ha
    ∙ ap trim_right (sym (BeginsInk-trim_left s ink))
    ∙ trimmed
