-- ===== src/Selector/Select/Sorting.antt =====
-- The sorting of the candidates, and what is kept of the sorted list.
use polymarket_signal_autopi.Base.{
  ℕ, zero, suc, ◌≤◌, ◌≡◌, refl, inl, inr, true, false, String, List, [], ◌∷◌, ℤ, pos, negsuc,
  length, length-take, take, All, text_eq, arith, Bool-cases,
}
use polymarket_signal_autopi.Double.{Double, lt, eq}
use polymarket_signal_autopi.Selector.Defs.{Candidate}
use polymarket_signal_autopi.Selector.Select.{less, text_less, insert_candidate, sort_candidates}

text_less_asym : (s t : String) → text_less s t ≡ true → text_less t s ≡ false
unfolding text_less
text_less_asym String.[] String.[] h = ground arith
text_less_asym String.[] (String.◌∷◌ e t) h = refl
text_less_asym (String.◌∷◌ c s) String.[] h = ground arith
text_less_asym (String.◌∷◌ c s) (String.◌∷◌ e t) h = ground (arith, text_less_asym s t)

module _ {F : Type 0} ⦃d : Double F⦄ where
  less_asym : (a b : Candidate F) → less a b ≡ true → less b a ≡ false
  unfolding less
  less_asym a b h = ground (arith, text_less_asym a.id b.id)

  -- No candidate belongs in front of the one before it, by the order of the sorting.
  abbrev IsSorted : List (Candidate F) → Type 0
  IsSorted [] = Unit
  IsSorted (x ∷ []) = Unit
  IsSorted (x ∷ y ∷ ys) = (less y x ≡ false) × IsSorted (y ∷ ys)

  insert-IsSorted :
      (x : Candidate F) (ys : List (Candidate F)) → IsSorted ys → IsSorted (insert_candidate x ys)
  unfolding insert_candidate
  insert-IsSorted x [] h = tt
  insert-IsSorted x (y ∷ []) h = elim (Bool-cases (less y x)) [
    | inl p ↦ rw p (less_asym y x p, tt)
    | inr n ↦ rw n (n, tt)
  ]
  insert-IsSorted x (y ∷ z ∷ zs) (h, hs) =
      let ih = insert-IsSorted x (z ∷ zs) hs in
      elim (Bool-cases (less y x)) [
        | inl p ↦ elim (Bool-cases (less z x)) [
          | inl q ↦ rw (p, q) (h, rw q at ih)
          | inr n ↦ rw (p, n) (less_asym y x p, (n, hs))
        ]
        | inr n ↦ rw n (n, (h, hs))
      ]

  module _ (P : Candidate F → Type 0) where
    All-insert :
        (x : Candidate F) (ys : List (Candidate F)) → P x → All P ys → All P (insert_candidate x ys)
    unfolding insert_candidate
    All-insert x [] p ps = (p, tt)
    All-insert x (y ∷ ys) p (q, qs) = elim (Bool-cases (less y x)) [
      | inl l ↦ rw l (q, All-insert x ys p qs)
      | inr n ↦ rw n (p, (q, qs))
    ]

    All-sort : (xs : List (Candidate F)) → All P xs → All P (sort_candidates xs)
    unfolding sort_candidates
    All-sort [] h = tt
    All-sort (x ∷ xs) (p, ps) = All-insert x (sort_candidates xs) p (All-sort xs ps)

    All-take : (n : ℕ) (xs : List (Candidate F)) → All P xs → All P (take n xs)
    All-take zero xs h = tt
    All-take (suc n) [] h = tt
    All-take (suc n) (x ∷ xs) (p, ps) = (p, All-take n xs ps)

  take-IsSorted : (n : ℕ) (xs : List (Candidate F)) → IsSorted xs → IsSorted (take n xs)
  take-IsSorted zero xs h = tt
  take-IsSorted (suc n) [] h = tt
  take-IsSorted (suc zero) (x ∷ xs) h = tt
  take-IsSorted (suc (suc n)) (x ∷ []) h = tt
  take-IsSorted (suc (suc n)) (x ∷ y ∷ ys) (h, hs) = (h, take-IsSorted (suc n) (y ∷ ys) hs)

  sort-IsSorted : (xs : List (Candidate F)) → IsSorted (sort_candidates xs)
  unfolding sort_candidates
  sort-IsSorted [] = tt
  sort-IsSorted (x ∷ xs) = insert-IsSorted x (sort_candidates xs) (sort-IsSorted xs)

  -- What comes after another candidate has no greater score; at the same score, no greater volume; at
  -- the same volume too, no greater liquidity; and else no identifier that is less.
  pub record IsBehind (x y : Candidate F) : Type 0 where
    pub score : lt x.score y.score ≡ false
    pub volume : eq x.score y.score ≡ true → lt x.volume y.volume ≡ false
    pub liquidity :
        eq x.score y.score ≡ true → eq x.volume y.volume ≡ true → lt x.liquidity y.liquidity ≡ false
    pub id :
        eq x.score y.score ≡ true
        → eq x.volume y.volume ≡ true
        → eq x.liquidity y.liquidity ≡ true
        → text_less y.id x.id ≡ false

  abbrev pub IsInOrder : List (Candidate F) → Type 0
  IsInOrder [] = Unit
  IsInOrder (x ∷ []) = Unit
  IsInOrder (x ∷ y ∷ ys) = IsBehind x y × IsInOrder (y ∷ ys)

  less-IsBehind : (x y : Candidate F) → less y x ≡ false → IsBehind x y
  unfolding less
  less-IsBehind x y h = record {
    score = ground (arith, h);
    volume = λ p. ground (arith, h, p);
    liquidity = λ p q. ground (arith, h, p, q);
    id = λ p q r. ground (arith, h, p, q, r);
  }

  sorted-IsInOrder : (xs : List (Candidate F)) → IsSorted xs → IsInOrder xs
  sorted-IsInOrder [] h = tt
  sorted-IsInOrder (x ∷ []) h = tt
  sorted-IsInOrder (x ∷ y ∷ ys) (h, hs) = (less-IsBehind x y h, sorted-IsInOrder (y ∷ ys) hs)

  -- The last step of the selection.
  pub bound_candidates :
      (P : Candidate F → Type 0) (max_markets : ℤ) (found : List (Candidate F))
      → All P found
      → let r : List (Candidate F) = elim max_markets [
        | negsuc _ ↦ sort_candidates found
        | pos zero ↦ sort_candidates found
        | pos (suc n) ↦ take (suc n) (sort_candidates found)
      ] in
        All P r × IsInOrder r × ((n : ℕ) → max_markets ≡ pos (suc n) → length r ≤ suc n)
  bound_candidates P (negsuc m) found h =
      (All-sort P found h, sorted-IsInOrder _ (sort-IsSorted found), λ n e. ground arith)
  bound_candidates P (pos zero) found h =
      (All-sort P found h, sorted-IsInOrder _ (sort-IsSorted found), λ n e. ground arith)
  bound_candidates P (pos (suc m)) found h = (
    All-take P (suc m) (sort_candidates found) (All-sort P found h),
    sorted-IsInOrder _ (take-IsSorted (suc m) (sort_candidates found) (sort-IsSorted found)),
    λ n e. ground (arith, length-take (suc m) (sort_candidates found)),
  )
