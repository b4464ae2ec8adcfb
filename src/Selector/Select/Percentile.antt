-- ===== src/Selector/Select/Percentile.antt =====
-- The floors that a percentile gives: values of the markets that are compared.
use polymarket_signal_autopi.Base.{
  ℕ, zero, suc, ◌<◌, ◌≡◌, refl, sym, subst, inl, inr, ◌⊎◌, not, ◌&&◌, ◌||◌, List, [], ◌∷◌, some,
  length, get_elem?, Any, arith, Bool-cases,
}
use polymarket_signal_autopi.Double.{Double, lt}
use polymarket_signal_autopi.Selector.Select.{
  insert_float, sort_floats, percentile_index, percentile_floor,
}

module _ {F : Type 0} ⦃d : Double F⦄ where
  module _ (P : F → Type 0) where
    Any-insert : (x : F) (ys : List F) → Any P (insert_float x ys) → P x ⊎ Any P ys
    unfolding insert_float
    Any-insert x [] h = h
    Any-insert x (y ∷ ys) h = elim (Bool-cases (lt y x || (d.is_nan y && not (d.is_nan x)))) [
      | inl b ↦ elim (rw b at h) [
        | inl p ↦ inr (inl p)
        | inr q ↦ elim (Any-insert x ys q) [ inl p ↦ inl p | inr r ↦ inr (inr r) ]
      ]
      | inr b ↦ rw b at h
    ]

    Any-sort : (xs : List F) → Any P (sort_floats xs) → Any P xs
    unfolding sort_floats
    Any-sort [] h = h
    Any-sort (x ∷ xs) h = elim (Any-insert x (sort_floats xs) h) [
      | inl p ↦ inl p
      | inr q ↦ inr (Any-sort xs q)
    ]

  length-insert : (x : F) (ys : List F) → length (insert_float x ys) ≡ suc (length ys)
  unfolding insert_float
  length-insert x [] = refl
  length-insert x (y ∷ ys) = ground (arith, length-insert x ys)

  length-sort : (xs : List F) → length (sort_floats xs) ≡ length xs
  unfolding sort_floats
  length-sort [] = refl
  length-sort (x ∷ xs) = ground (arith, length-insert x (sort_floats xs), length-sort xs)

  get_elem-Any :
      (xs : List F) (i : ℕ)
      → i < length xs
      → (v : F) × (get_elem? xs i ≡ some v) × Any (λ x. x ≡ v) xs
  get_elem-Any [] i h = absurd (ground (arith, h))
  get_elem-Any (x ∷ xs) zero h = (x, refl, inl refl)
  get_elem-Any (x ∷ xs) (suc i) h =
      let (v, e, m) = get_elem-Any xs i (ground (arith, h)) in (v, e, inr m)

  percentile_index_bound : (n : ℕ) (q : F) → percentile_index (suc n) q < suc n
  unfolding percentile_index
  percentile_index_bound n q = ground arith

  -- The percentile of values, of which there is one at least, is one of them.
  pub percentile_floor-Any :
      (x : F) (xs : List F) (q : F) → Any (λ y. y ≡ percentile_floor (x ∷ xs) q) (x ∷ xs)
  unfolding percentile_floor
  percentile_floor-Any x xs q =
      let values = x ∷ xs in
      let (v, e, m) =
        get_elem-Any (sort_floats values) (percentile_index (length values) q)
          (ground (arith, length-sort values, percentile_index_bound (length xs) q)) in
      let same : percentile_floor (x ∷ xs) q ≡ v = rw (e, percentile_floor) refl in
      subst (λ w. Any (λ y. y ≡ w) values) (sym same) (Any-sort (λ y. y ≡ v) values m)
