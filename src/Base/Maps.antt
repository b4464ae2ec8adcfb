-- ===== src/Base/Maps.antt =====
-- Go maps as association lists: a read, an assignment, and what one says about the other.
use mathlib.Core.Path.{◌≡◌, refl, ap}
use mathlib.Core.Logic.{inl, inr}
use mathlib.Core.Bool.{Bool, true, false, ◌||◌}
use mathlib.Core.List.{List, [], ◌∷◌}
use mathlib.Core.Option.{Option, none, some}
use native.Mathlib.Omega.{arith}
use polymarket_signal_autopi.Base.Booleans.{Bool-cases, Eq, ◌==◌, if◌then◌else◌}

abbrev pub GoMap {ℓ κ} : Type ℓ → Type κ → Type (ℓ ⊔ κ)
GoMap K V = List (K × V)

module _ {ℓ κ} {K : Type ℓ} {V : Type κ} ⦃q : Eq K⦄ where
  unfoldable pub lookup : K → GoMap K V → Option V
  lookup key [] = none
  lookup key (entry ∷ rest) = if entry.0 == key then some entry.1 else lookup key rest

  -- `m[key] = v`
  unfoldable pub insert : K → V → GoMap K V → GoMap K V
  insert key v [] = (key, v) ∷ []
  insert key v (entry ∷ rest) =
      if entry.0 == key then (key, v) ∷ rest else entry ∷ insert key v rest

  -- After an assignment to `x`, what `y` finds.
  pub lookup-insert :
      (x y : K) (v : V) (m : GoMap K V)
      → lookup y (insert x v m) ≡ (if x == y then some v else lookup y m)
  unfolding lookup insert
  lookup-insert x y v [] = refl
  lookup-insert x y v (entry ∷ rest) =
      ground (
        arith,
        q.same_iff x y,
        q.same_iff entry.0 x,
        q.same_iff entry.0 y,
        lookup-insert x y v rest,
      )

  -- `_, ok := m[k]`
  unfoldable pub has : K → GoMap K V → Bool
  has k m = elim (lookup k m) [ none ↦ false | some _ ↦ true ]

  -- `m[k]`, where a missing key reads as the zero value.
  unfoldable pub read : V → K → GoMap K V → V
  read zero_value k m = elim (lookup k m) [ none ↦ zero_value | some v ↦ v ]

  pub read-insert :
      (z : V) (k j : K) (v : V) (m : GoMap K V)
      → read z j (insert k v m) ≡ (if k == j then v else read z j m)
  unfolding read
  read-insert z k j v m = ground (arith, lookup-insert k j v m)

  pub has-insert : (k j : K) (v : V) (m : GoMap K V) → has j (insert k v m) ≡ (k == j || has j m)
  unfolding has
  has-insert k j v m = ground (arith, lookup-insert k j v m)

  -- `m[k] = f(m[k])`, as in `m[k]++` and `m[k] += x`.
  pub read-insert_update :
      (z : V) (f : V → V) (k j : K) (m : GoMap K V)
      → read z j (insert k (f (read z k m)) m) ≡ (if k == j then f (read z j m) else read z j m)
  read-insert_update z f k j m = elim (Bool-cases (k == j)) [
    | inl e ↦
        let same : k ≡ j = (q.same_iff k j).0 e in
        rw (read-insert, e) (ap (λ i. f (read z i m)) same)
    | inr ne ↦ rw (read-insert, ne)
  ]
