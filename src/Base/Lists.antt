-- ===== src/Base/Lists.antt =====
-- Lists measured by native numbers, and predicates over lists by recursion.
use Prim.Native.Nat.{ℕ, zero, suc, ◌+◌, ◌-◌, min}
use mathlib.Core.Path.{◌≡◌, refl, ap, sym, ◌∙◌}
use mathlib.Core.Bool.{Bool, false, ◌||◌}
use mathlib.Core.List.{List, [], ◌∷◌, ◌++◌, append_assoc, append-eq-nil_iff}
use mathlib.Core.Option.{Option, none, some}
use mathlib.Core.Logic.{◌⊎◌}
use native.Mathlib.Omega.{arith}
use polymarket_signal_autopi.Base.Booleans.{Eq, ◌==◌}

module _ {ℓ} {A : Type ℓ} where
  abbrev pub length : List A → ℕ
  length [] = 0
  length (x ∷ xs) = suc (length xs)

  abbrev pub get_elem? : List A → ℕ → Option A
  get_elem? [] i = none
  get_elem? (x ∷ xs) zero = some x
  get_elem? (x ∷ xs) (suc i) = get_elem? xs i

  abbrev pub take : ℕ → List A → List A
  take zero xs = []
  take (suc n) [] = []
  take (suc n) (x ∷ xs) = x ∷ take n xs

  abbrev pub drop : ℕ → List A → List A
  drop zero xs = xs
  drop (suc n) [] = []
  drop (suc n) (x ∷ xs) = drop n xs

  pub length-append : (xs ys : List A) → length (xs ++ ys) ≡ length xs + length ys
  length-append [] ys = omega arith
  length-append (x ∷ xs) ys = omega (arith, length-append xs ys)

  pub length-take : (n : ℕ) (xs : List A) → length (take n xs) ≡ min n (length xs)
  length-take zero xs = omega arith
  length-take (suc n) [] = omega arith
  length-take (suc n) (x ∷ xs) = omega (arith, length-take n xs)

  pub length-drop : (n : ℕ) (xs : List A) → length (drop n xs) ≡ length xs - n
  length-drop zero xs = omega arith
  length-drop (suc n) [] = omega arith
  length-drop (suc n) (x ∷ xs) = omega (arith, length-drop n xs)

  abbrev pub All {κ} : (A → Type κ) → List A → Type κ
  All P [] = Unit
  All P (x ∷ xs) = P x × All P xs

  abbrev pub Any : (A → Type 0) → List A → Type 0
  Any P [] = ⊥
  Any P (x ∷ xs) = P x ⊎ Any P xs

  pub All-append {κ} : (P : A → Type κ) (xs ys : List A) → All P xs → All P ys → All P (xs ++ ys)
  All-append P [] ys _ q = q
  All-append P (x ∷ xs) ys (p, ps) q = (p, All-append P xs ys ps q)

-- Membership as a test, for lists that stand for a Go set.
module _ {ℓ} {A : Type ℓ} ⦃e : Eq A⦄ where
  abbrev pub elem : A → List A → Bool
  elem a [] = false
  elem a (x ∷ xs) = x == a || elem a xs

  -- No element occurs twice.
  abbrev pub IsDistinct : List A → Type 0
  IsDistinct [] = Unit {0}
  IsDistinct (x ∷ xs) = (elem x xs ≡ false) × IsDistinct xs

  pub elem-append : (a : A) (xs ys : List A) → elem a (xs ++ ys) ≡ (elem a xs || elem a ys)
  elem-append a [] ys = refl
  elem-append a (x ∷ xs) ys = ground (arith, elem-append a xs ys)

-- What each element contributes, one after another.
unfoldable pub collect {ℓ κ} : {A : Type ℓ} {B : Type κ} → (A → List B) → List A → List B
collect f [] = []
collect f (x ∷ xs) = f x ++ collect f xs

pub collect-append {ℓ κ} :
    {A : Type ℓ} {B : Type κ} (f : A → List B) (xs ys : List A)
    → collect f (xs ++ ys) ≡ collect f xs ++ collect f ys
unfolding collect
collect-append f [] ys = refl
collect-append f (x ∷ xs) ys =
    ap (λ zs. f x ++ zs) (collect-append f xs ys)
    ∙ sym (append_assoc (f x) (collect f xs) (collect f ys))

pub collect-nil {ℓ κ μ} :
    {A : Type ℓ} {B : Type κ} {C : Type μ} (f : A → List B) (g : A → List C) (xs : List A)
    → ((x : A) → f x ≡ [] → g x ≡ [])
    → collect f xs ≡ []
    → collect g xs ≡ []
unfolding collect
collect-nil f g [] h e = refl
collect-nil f g (x ∷ xs) h e =
    let (e0, e1) = append-eq-nil_iff.0 e in rw (h x e0) (collect-nil f g xs h e1)

pub collect-All {ℓ κ μ} :
    {A : Type ℓ} {B : Type κ} (P : B → Type μ) (f : A → List B) (xs : List A)
    → ((x : A) → All P (f x))
    → All P (collect f xs)
unfolding collect
collect-All P f [] h = tt
collect-All P f (x ∷ xs) h = All-append P (f x) (collect f xs) (h x) (collect-All P f xs h)
