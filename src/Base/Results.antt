-- ===== src/Base/Results.antt =====
-- The pair of a value and a Go error, of which one is there: the error by its text.
use mathlib.Core.Path.{◌≡◌, refl, ap}
use mathlib.Core.Bool.{Bool, true, false}
use mathlib.Core.Logic.{◌⊎◌, inl, inr}
use Prim.Native.String.{String}
use native.Mathlib.Omega.{arith}

pub data Result {ℓ} (A : Type ℓ) : Type ℓ where
  ok : A → Result A
  err : String → Result A

infixl 5 ◌>>=◌ ◌>>◌
unfoldable pub ◌>>=◌ {ℓ κ} : {A : Type ℓ} {B : Type κ} → Result A → (A → Result B) → Result B
ok a >>= f = f a
err why >>= f = err why

unfoldable pub ◌>>◌ {ℓ} : {B : Type ℓ} → Result (Unit {0}) → Result B → Result B
m >> k = m >>= λ _. k

-- `if !condition { return err }`
unfoldable pub guard : Bool → String → Result (Unit {0})
guard true why = ok tt
guard false why = err why

pub Result-cases {ℓ} :
    {A : Type ℓ} (r : Result A) → ((why : String) × (r ≡ err why)) ⊎ ((a : A) × (r ≡ ok a))
Result-cases (err why) = inl (why, refl)
Result-cases (ok a) = inr (a, refl)

pub bind-ok {ℓ κ} :
    {A : Type ℓ} {B : Type κ} (r : Result A) (f : A → Result B) (b : B)
    → (r >>= f) ≡ ok b
    → (a : A) × (r ≡ ok a) × (f a ≡ ok b)
unfolding ◌>>=◌
bind-ok (ok a) f b h = (a, refl, h)
bind-ok (err why) f b h = absurd (ground (arith, h))

pub guard-ok {ℓ} :
    {B : Type ℓ} (c : Bool) (why : String) (k : Result B) (b : B)
    → (guard c why >> k) ≡ ok b
    → (c ≡ true) × (k ≡ ok b)
unfolding ◌>>◌ ◌>>=◌ guard
guard-ok true why k b h = (refl, h)
guard-ok false why k b h = absurd (ground (arith, h))

abbrev or_value {ℓ} : {A : Type ℓ} → A → Result A → A
or_value fallback (ok a) = a
or_value fallback (err why) = fallback

pub ok_inj {ℓ} : {A : Type ℓ} {a b : A} → ok a ≡ ok b → a ≡ b
ok_inj {a = a} h = ap (or_value a) h
