-- ===== src/Features.antt =====
-- internal/features: the features of a series of market points and of lead-lag deltas.
pub mod Lookahead
use polymarket_signal_autopi.Base.{
  ℕ, zero, suc, ◌+◌, ◌/◌, ◌%◌, Bool, true, false, not, ◌&&◌, ◌||◌, String, List, [], ◌∷◌, ℤ, pos,
  negsuc, sub_ℕ, Time, Duration, since, is_zero, second, length, ltb, if◌then◌else◌, Result, ok,
  err,
}
use polymarket_signal_autopi.Double.{Double, lt, nought, one}
use polymarket_signal_autopi.Values.{of_int}
use polymarket_signal_autopi.Linking.{LeadLagDelta, direction_consistent}

pub record MarketPoint (F : Type 0) : Type 0 where
  pub at : Time
  pub price : F
  pub spread : F
  pub volume : F

pub record Feature (F : Type 0) : Type 0 where
  pub name : String
  pub value : F
  pub computed_at : Time

-- How many deltas are contradictions.
unfoldable pub contradictions : List LeadLagDelta → ℕ
contradictions [] = 0
contradictions (delta ∷ deltas) =
    let rest = contradictions deltas in if not (direction_consistent delta) then suc rest else rest

module _ {F : Type 0} ⦃d : Double F⦄ where
  -- `time.Duration.Seconds`: whole seconds and the rest, both with the sign of the duration.
  unfoldable pub seconds : Duration → F
  unfolding of_int
  seconds (pos n) =
      d.add (of_int (pos (n / second))) (d.div (of_int (pos (n % second))) (d.lit second 1))
  seconds (negsuc n) =
      d.add (of_int (sub_ℕ 0 (suc n / second)))
        (d.div (of_int (sub_ℕ 0 (suc n % second))) (d.lit second 1))

  -- `ComputeContradictionIndex`
  unfoldable pub compute_contradiction_index : List LeadLagDelta → F
  unfolding contradictions
  compute_contradiction_index [] = nought
  compute_contradiction_index (delta ∷ deltas) =
      let all = delta ∷ deltas in d.div (d.lit (contradictions all) 1) (d.lit (length all) 1)

  -- The loop of `ClusterConfirmationScore`: how often the price goes up and down.
  unfoldable pub moves : F → List (MarketPoint F) → ℕ × ℕ
  moves previous [] = (0, 0)
  moves previous (point ∷ points) =
      let rest = moves point.price points in
      if lt previous point.price
      then (suc rest.0, rest.1)
      else if lt point.price previous
      then (rest.0, suc rest.1)
      else rest

  -- The score of a number of moves up and a number of moves down.
  unfoldable pub score_of : ℕ × ℕ → F
  score_of (ups, downs) = elim (ups + downs) [
    | zero ↦ nought
    | suc n ↦ d.div (d.lit (if ltb downs ups then ups else downs) 1) (d.lit (suc n) 1)
  ]

  -- `ClusterConfirmationScore`
  unfoldable pub cluster_confirmation_score : List (MarketPoint F) → F
  unfolding moves score_of
  cluster_confirmation_score [] = nought
  cluster_confirmation_score (point ∷ points) = score_of (moves point.price points)

  -- The sorting by time. `sort.Slice` leaves the order of points of the same time open; here they keep it.
  unfoldable pub insert_point : MarketPoint F → List (MarketPoint F) → List (MarketPoint F)
  insert_point x [] = x ∷ []
  insert_point x (y ∷ ys) = if ltb y.at x.at then y ∷ insert_point x ys else x ∷ y ∷ ys

  unfoldable pub sort_points : List (MarketPoint F) → List (MarketPoint F)
  unfolding insert_point
  sort_points [] = []
  sort_points (x ∷ xs) = insert_point x (sort_points xs)

  -- Whether a point lies after the time of the computation.
  unfoldable pub looks_ahead : Time → List (MarketPoint F) → Bool
  looks_ahead as_of [] = false
  looks_ahead as_of (point ∷ points) = ltb as_of point.at || looks_ahead as_of points

  unfoldable pub last_of : MarketPoint F → List (MarketPoint F) → MarketPoint F
  last_of point [] = point
  last_of point (next ∷ points) = last_of next points

  unfoldable pub sum_abs : F → List LeadLagDelta → F
  unfolding seconds
  sum_abs sum [] = sum
  sum_abs sum (delta ∷ deltas) = sum_abs (d.add sum (d.abs (seconds delta.delta_source))) deltas

  unfoldable pub lead_lag_magnitude : List LeadLagDelta → F
  unfolding sum_abs
  lead_lag_magnitude [] = nought
  lead_lag_magnitude (delta ∷ deltas) =
      let all = delta ∷ deltas in d.div (sum_abs nought all) (d.lit (length all) 1)

  -- The five features of a sorted series that has a first point.
  unfoldable pub features_of :
      List LeadLagDelta → MarketPoint F → List (MarketPoint F) → Time → List (Feature F)
  unfolding seconds last_of lead_lag_magnitude compute_contradiction_index
      cluster_confirmation_score
  features_of deltas first points as_of =
      let last = last_of first points in
      let elapsed = seconds (since last.at first.at) in
      let dt = if d.le elapsed nought then one else elapsed in
      let novelty =
        d.add (d.abs (d.sub last.spread first.spread))
          (d.div (d.abs (d.sub last.volume first.volume)) (d.lit 10_000 1)) in
      record {
        name = "price_velocity";
        value = d.div (d.sub last.price first.price) dt;
        computed_at = as_of;
      }
      ∷ record {
        name = "lead_lag_magnitude";
        value = lead_lag_magnitude deltas;
        computed_at = as_of;
      }
      ∷ record {
        name = "contradiction_index";
        value = compute_contradiction_index deltas;
        computed_at = as_of;
      }
      ∷ record { name = "novelty_score"; value = novelty; computed_at = as_of }
      ∷ record {
        name = "cluster_confirmation";
        value = cluster_confirmation_score (first ∷ points);
        computed_at = as_of;
      }
      ∷ []

  unfoldable pub features_of_sorted :
      List LeadLagDelta → List (MarketPoint F) → Time → List (Feature F)
  unfolding features_of
  features_of_sorted deltas [] as_of = []
  features_of_sorted deltas (first ∷ points) as_of = features_of deltas first points as_of

  -- `BuildFeatures`; the error of a look ahead is its text without the times.
  unfoldable pub build_features :
      List LeadLagDelta → List (MarketPoint F) → Time → Result (List (Feature F))
  unfolding sort_points looks_ahead features_of_sorted
  build_features deltas series as_of =
      if is_zero as_of
      then err "asOf is required"
      else if ltb (length series) 2
      then err "at least two market points are required"
      else let sorted = sort_points series in
        if looks_ahead as_of sorted
        then err "no-lookahead violation"
        else ok (features_of_sorted deltas sorted as_of)
