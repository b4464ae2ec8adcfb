-- ===== src/Selector/Select/Floors.antt =====
-- The candidates that are selected: their floors, their order and their number.
use polymarket_signal_autopi.Base.{
  ℕ, suc, ◌≤◌, ◌≡◌, refl, sym, subst, ◌⊎◌, inl, inr, true, false, ◌||◌, String, List, [], ◌∷◌, map,
  pos, length, All, Any, elem, text_eq, if◌then◌else◌, arith, Bool, Bool-cases,
}
use polymarket_signal_autopi.Double.{Double, IsOrdered, lt, nought, one, le_of_not_lt, le_of_not_le}
use polymarket_signal_autopi.Text.{Runes}
use polymarket_signal_autopi.Selector.Defs.{
  MarketSnapshot, SelectionConfig, Candidate, normalize_token_ids, normalize_category,
}
use polymarket_signal_autopi.Selector.Select.{
  Bar, percentile_floor, bar_of, candidate_of, candidates_of, valid_markets, select_candidates,
  with_selection_defaults, core_set,
}
use polymarket_signal_autopi.Selector.Select.Percentile.{percentile_floor-Any}
use polymarket_signal_autopi.Selector.Select.Sorting.{IsInOrder, bound_candidates}

module _ {F : Type 0} ⦃d : Double F⦄ where
  -- Traded, and at or above two floors that are the volume and the liquidity of markets.
  pub record MeetsFloors (markets : List (MarketSnapshot F)) (c : Candidate F) : Type 0 where
    pub traded : (lt nought c.volume ≡ true) × (lt nought c.liquidity ≡ true)
    pub volume_ok : d.le c.volume_floor c.volume ≡ true
    pub liquidity_ok : d.le c.liquidity_floor c.liquidity ≡ true
    pub volume_floor_of : Any (λ m. m.volume ≡ c.volume_floor) markets
    pub liquidity_floor_of : Any (λ m. m.liquidity ≡ c.liquidity_floor) markets

  -- The volume and the liquidity of a market are no NaN.
  abbrev pub IsNumbered : MarketSnapshot F → Type 0
  IsNumbered m = (d.is_nan m.volume ≡ false) × (d.is_nan m.liquidity ≡ false)

  abbrev IsTraded : MarketSnapshot F → Type 0
  IsTraded m = (d.le m.volume nought ≡ false) × (d.le m.liquidity nought ≡ false)

  -- What holds of a market whatever its tokens are holds of a valid one as of the one that it comes from.
  module _ (P : MarketSnapshot F → Type 0) where
    valid-All :
        ((m : MarketSnapshot F) (ts : List String) → P m → P (record m { token_ids = ts }))
        → (markets : List (MarketSnapshot F)) → All P markets
        → All (λ m. P m × IsTraded m) (valid_markets markets)
    unfolding valid_markets
    valid-All keeps [] h = tt
    valid-All keeps (m ∷ ms) (h, hs) =
        let rest = valid-All keeps ms hs in
        elim (Bool-cases (d.le m.volume nought || d.le m.liquidity nought)) [
          | inl bad ↦ rw bad rest
          | inr good ↦
              rw good
                (elim (normalize_token_ids m.token_ids)
                  as (λ tokens.
                    All (λ k. P k × IsTraded k)
                      (elim tokens [
                        | [] ↦ valid_markets ms
                        | t ∷ ts ↦ record m { token_ids = t ∷ ts } ∷ valid_markets ms
                      ])) [
                        | [] ↦ rest
                        | t ∷ ts ↦ ((keeps m (t ∷ ts) h, (ground arith, ground arith)), rest)
                      ])
        ]

    valid-Any :
        ((m : MarketSnapshot F) (ts : List String) → P (record m { token_ids = ts }) → P m)
        → (markets : List (MarketSnapshot F)) → Any P (valid_markets markets)
        → Any P markets
    unfolding valid_markets
    valid-Any keeps [] h = h
    valid-Any keeps (m ∷ ms) h =
        elim (Bool-cases (d.le m.volume nought || d.le m.liquidity nought)) [
          | inl bad ↦ inr (valid-Any keeps ms (rw bad at h))
          | inr good ↦
              elim (normalize_token_ids m.token_ids)
                  as (λ tokens.
                    Any P (elim tokens [
                      | [] ↦ valid_markets ms
                      | t ∷ ts ↦ record m { token_ids = t ∷ ts } ∷ valid_markets ms
                    ])
                    → P m ⊎ Any P ms) [
                      | [] ↦ λ q. inr (valid-Any keeps ms q)
                      | t ∷ ts ↦ λ q. elim q [
                        | inl p ↦ inl (keeps m (t ∷ ts) p)
                        | inr r ↦ inr (valid-Any keeps ms r)
                      ]
                    ]
                (rw good at h)
        ]

  Any-map :
      (f : MarketSnapshot F → F) (x : F) (ms : List (MarketSnapshot F))
      → Any (λ y. y ≡ x) (map f ms)
      → Any (λ m. f m ≡ x) ms
  Any-map f x [] h = h
  Any-map f x (m ∷ ms) (inl p) = inl p
  Any-map f x (m ∷ ms) (inr q) = inr (Any-map f x ms q)

  All-imp :
      (P Q : MarketSnapshot F → Type 0)
      → ((m : MarketSnapshot F) → P m → Q m)
      → (ms : List (MarketSnapshot F)) → All P ms
      → All Q ms
  All-imp P Q f [] h = tt
  All-imp P Q f (m ∷ ms) (h, hs) = (f m h, All-imp P Q f ms hs)

  number_of :
      (f : MarketSnapshot F → F) (x : F) (ms : List (MarketSnapshot F))
      → All (λ m. d.is_nan (f m) ≡ false) ms
      → Any (λ m. f m ≡ x) ms
      → d.is_nan x ≡ false
  number_of f x [] h m = absurd m
  number_of f x (m ∷ ms) (h, hs) (inl p) = subst (λ y. d.is_nan y ≡ false) p h
  number_of f x (m ∷ ms) (h, hs) (inr q) = number_of f x ms hs q

  module _ (laws : IsOrdered F) (all : List (MarketSnapshot F))
      (numbered : All IsNumbered all) where
    open laws use {lit_finite}

    -- The floors of a bar are numbers that markets have.
    record IsBar (bar : Bar F) : Type 0 where
      volume_of : Any (λ m. m.volume ≡ bar.volume_floor) all
      liquidity_of : Any (λ m. m.liquidity ≡ bar.liquidity_floor) all
      numbers : (d.is_nan bar.volume_floor ≡ false) × (d.is_nan bar.liquidity_floor ≡ false)

    chosen : (b : Bool) (x y : Bar F) → IsBar x → IsBar y → IsBar (if b then x else y)
    chosen true x y p q = p
    chosen false x y p q = q

    meets :
        (volumes liquidities : List F) (bar : Bar F) (m : MarketSnapshot F)
        → IsBar bar
        → IsNumbered m × IsTraded m
        → lt m.volume bar.volume_floor ≡ false
        → lt m.liquidity bar.liquidity_floor ≡ false
        → MeetsFloors all (candidate_of volumes liquidities bar m)
    unfolding candidate_of
    meets volumes liquidities bar m b ((nv, nl), (tv, tl)) v l =
        let zero_ = (lit_finite 0 0 (ground arith)).0 in
        let above_v = le_of_not_le laws m.volume nought nv zero_ tv in
        let above_l = le_of_not_le laws m.liquidity nought nl zero_ tl in
        record {
          traded = (ground (arith, above_v, tv), ground (arith, above_l, tl));
          volume_ok = le_of_not_lt laws m.volume bar.volume_floor nv b.numbers.0 v;
          liquidity_ok = le_of_not_lt laws m.liquidity bar.liquidity_floor nl b.numbers.1 l;
          volume_floor_of = b.volume_of;
          liquidity_floor_of = b.liquidity_of;
        }

    module _ ⦃u : Runes⦄ where
      candidates_of-MeetsFloors :
          (core : List String) (volumes liquidities : List F) (core_bar other_bar : Bar F)
          (markets : List (MarketSnapshot F))
          → IsBar core_bar
          → IsBar other_bar
          → All (λ m. IsNumbered m × IsTraded m) markets
          → All
              (MeetsFloors all)
              (candidates_of core volumes liquidities core_bar other_bar markets)
      unfolding candidates_of
      candidates_of-MeetsFloors core volumes liquidities core_bar other_bar [] p q h = tt
      candidates_of-MeetsFloors core volumes liquidities core_bar other_bar (m ∷ ms) p q (t, ts) =
          let rest =
            candidates_of-MeetsFloors core volumes liquidities core_bar other_bar ms p q ts in
          let is_core = elem (normalize_category m.category) core in
          let bar = if is_core then core_bar else other_bar in
          elim (Bool-cases (lt m.volume bar.volume_floor || lt m.liquidity bar.liquidity_floor)) [
            | inl low ↦ rw low rest
            | inr high ↦ rw high (
              meets volumes liquidities bar m (chosen is_core core_bar other_bar p q) t
                  (ground (arith, high)) (ground (arith, high)),
              rest,
            )
          ]

      -- All that comes before the sorting, for markets of which some are valid.
      abbrev found : SelectionConfig F → List (MarketSnapshot F) → List (Candidate F)
      found config valid =
          let volumes = map (λ m. m.volume) valid in
          let liquidities = map (λ m. m.liquidity) valid in
          candidates_of (core_set config.core_categories) volumes liquidities
            (bar_of volumes liquidities "tier1" config.core_top_percentile)
            (bar_of volumes liquidities "tier3" config.other_top_percentile) valid

      -- Where there is a valid market, a bar is made of numbers that markets have.
      bar_of-IsBar :
          (v : MarketSnapshot F) (vs : List (MarketSnapshot F)) (tier : String) (pct : F)
          → valid_markets all ≡ v ∷ vs
          → IsBar (bar_of (map (λ m. m.volume) (v ∷ vs)) (map (λ m. m.liquidity) (v ∷ vs)) tier pct)
      unfolding bar_of
      bar_of-IsBar v vs tier pct e =
          let q = d.sub one pct in
          let volumes =
            Any-map (λ m. m.volume) _ (v ∷ vs)
              (percentile_floor-Any v.volume (map (λ m. m.volume) vs) q) in
          let liquidities =
            Any-map (λ m. m.liquidity) _ (v ∷ vs)
              (percentile_floor-Any v.liquidity (map (λ m. m.liquidity) vs) q) in
          let from_volume =
            valid-Any (λ m. m.volume ≡ percentile_floor (map (λ k. k.volume) (v ∷ vs)) q)
              (λ m ts p. p) all (subst (Any _) (sym e) volumes) in
          let from_liquidity =
            valid-Any (λ m. m.liquidity ≡ percentile_floor (map (λ k. k.liquidity) (v ∷ vs)) q)
              (λ m ts p. p) all (subst (Any _) (sym e) liquidities) in
          record {
            volume_of = from_volume;
            liquidity_of = from_liquidity;
            numbers = (
              number_of (λ m. m.volume) _ all (All-imp _ _ (λ m h. h.0) all numbered) from_volume,
              number_of (λ m. m.liquidity) _ all (All-imp _ _ (λ m h. h.1) all numbered)
                  from_liquidity,
            );
          }

      found-nil : (config : SelectionConfig F) → All (MeetsFloors all) (found config [])
      unfolding candidates_of
      found-nil config = tt

      found-MeetsFloors :
          (config : SelectionConfig F) (valid : List (MarketSnapshot F))
          → valid_markets all ≡ valid
          → All (MeetsFloors all) (found config valid)
      found-MeetsFloors config [] e = found-nil config
      found-MeetsFloors config (v ∷ vs) e =
          let bar = λ (tier : String) (pct : F). bar_of-IsBar v vs tier pct e in
          candidates_of-MeetsFloors (core_set config.core_categories) _ _ _ _ (v ∷ vs)
            (bar "tier1" config.core_top_percentile) (bar "tier3" config.other_top_percentile)
            (subst (All _) e (valid-All IsNumbered (λ m ts p. p) all numbered))

      -- For markets whose volumes and liquidities are no NaN: every candidate has a volume and a liquidity
      -- above 0, and at or above its floors, which are the volume of a market and the liquidity of one; none
      -- has a greater score than the one right before it or, at the same score, a greater volume or, at
      -- the same volume too, a greater liquidity or, at the same liquidity too, a lesser identifier; and
      -- there are at most `max_markets` of them if that is positive.
      pub select_candidates-MeetsFloors :
          (cfg : SelectionConfig F)
          → All (MeetsFloors all) (select_candidates all cfg)
            × IsInOrder (select_candidates all cfg)
            × ((n : ℕ) → cfg.max_markets ≡ pos (suc n) → length (select_candidates all cfg) ≤ suc n)
      unfolding select_candidates with_selection_defaults
      select_candidates-MeetsFloors cfg =
          bound_candidates (MeetsFloors all) cfg.max_markets _
            (found-MeetsFloors (with_selection_defaults cfg) (valid_markets all) refl)
