-- ===== src/Features/Lookahead.antt =====
-- The times of the points that features are computed from.
use polymarket_signal_autopi.Base.{
  ◌≤◌, ◌≡◌, ◌↔◌, refl, false, ◌||◌, List, [], ◌∷◌, Time, is_zero, length, ltb, ok, arith, All,
}
use polymarket_signal_autopi.Double.{Double}
use polymarket_signal_autopi.Linking.{LeadLagDelta}
use polymarket_signal_autopi.Features.{
  MarketPoint, Feature, insert_point, sort_points, looks_ahead, features_of, features_of_sorted,
  build_features,
}

module _ {F : Type 0} ⦃d : Double F⦄ where
  looks_ahead-insert :
      (as_of : Time) (x : MarketPoint F) (ys : List (MarketPoint F))
      → looks_ahead as_of (insert_point x ys) ≡ (ltb as_of x.at || looks_ahead as_of ys)
  unfolding looks_ahead insert_point
  looks_ahead-insert as_of x [] = refl
  looks_ahead-insert as_of x (y ∷ ys) = ground (arith, looks_ahead-insert as_of x ys)

  looks_ahead-sort :
      (as_of : Time) (xs : List (MarketPoint F))
      → looks_ahead as_of (sort_points xs) ≡ looks_ahead as_of xs
  unfolding looks_ahead sort_points
  looks_ahead-sort as_of [] = refl
  looks_ahead-sort as_of (x ∷ xs) =
      ground (arith, looks_ahead-insert as_of x (sort_points xs), looks_ahead-sort as_of xs)

  looks_ahead_iff :
      (as_of : Time) (xs : List (MarketPoint F))
      → (looks_ahead as_of xs ≡ false) ↔ All (λ p. p.at ≤ as_of) xs
  unfolding looks_ahead
  looks_ahead_iff as_of [] = (λ _. tt, λ _. refl)
  looks_ahead_iff as_of (x ∷ xs) =
      let ih = looks_ahead_iff as_of xs in
      (λ h. (ground arith, ih.0 (ground arith)), λ h. ground (arith, h.0, ih.1 h.1))

  features_of_sorted-marked :
      (deltas : List LeadLagDelta) (points : List (MarketPoint F)) (as_of : Time)
      → All (λ (f : Feature F). f.computed_at ≡ as_of) (features_of_sorted deltas points as_of)
  unfolding features_of_sorted features_of
  features_of_sorted-marked deltas [] as_of = tt
  features_of_sorted-marked deltas (first ∷ points) as_of =
      (refl, (refl, (refl, (refl, (refl, tt)))))

  -- Features are given, each marked with the time of the computation, exactly if there is such a time, there
  -- are two points at least, and no point lies after that time.
  pub build_features-ok_iff :
      (deltas : List LeadLagDelta) (series : List (MarketPoint F)) (as_of : Time)
      → ((fs : List (Feature F)) × (build_features deltas series as_of ≡ ok fs)
          × All (λ f. f.computed_at ≡ as_of) fs)
        ↔ ((is_zero as_of ≡ false) × (2 ≤ length series) × All (λ p. p.at ≤ as_of) series)
  unfolding build_features
  build_features-ok_iff deltas series as_of =
      let sorted = looks_ahead-sort as_of series in
      let ahead = looks_ahead_iff as_of series in
      (
        λ (fs, e, _). (ground arith, ground arith, ahead.0 (ground (arith, sorted))),
        λ (t, n, all). (
          features_of_sorted deltas (sort_points series) as_of,
          ground (arith, sorted, ahead.1 all),
          features_of_sorted-marked deltas (sort_points series) as_of,
        ),
      )
