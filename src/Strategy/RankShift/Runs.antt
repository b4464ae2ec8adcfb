-- ===== src/Strategy/RankShift/Runs.antt =====
-- What stays true of the strategy over any sequence of updates.
use polymarket_signal_autopi.Base.{
  ◌≡◌, refl, sym, subst, ◌⊎◌, inl, inr, not, ◌&&◌, String, none, some, List, [], ◌∷◌, ◌++◌, ◌≤ℤ◌,
  Time, Duration, since, lookup, insert, ◌==◌, text_eq, arith, Bool-cases, Option-cases,
}
use polymarket_signal_autopi.Double.{Double}
use polymarket_signal_autopi.Values.{Decoder}
use polymarket_signal_autopi.Strategy.RankShift.Defs.{
  MarketUpdate, Signal, RankShiftConfig, RankShiftStrategy, new_rank_shift_strategy, leader_of,
  flip_signal, on_prices, on_price, on_update, extract_price,
}
use polymarket_signal_autopi.Strategy.RankShift.Flips.{
  on_prices_cases, IsLeader, leader_of-IsLeader,
}

module _ {F : Type 0} ⦃d : Double F⦄ where
  -- The state after a sequence of updates, each with the time of its arrival, and the signals given.
  pub after : Decoder F → RankShiftStrategy F → List (MarketUpdate × Time) → RankShiftStrategy F
  after dec s [] = s
  after dec s ((u, now) ∷ us) = after dec (on_update dec s u now).0 us

  pub signals : Decoder F → RankShiftStrategy F → List (MarketUpdate × Time) → List (Signal F)
  signals dec s [] = []
  signals dec s ((u, now) ∷ us) =
      (on_update dec s u now).1 ++ signals dec (on_update dec s u now).0 us

  -- An update gives no signal and leaves the time of the last one, or gives one signal after the
  -- cooldown and notes its time.
  abbrev Quiet : RankShiftStrategy F → RankShiftStrategy F × List (Signal F) → Type 0
  Quiet s r = (r.1 ≡ []) × (r.0.last_signal_at ≡ s.last_signal_at) × (r.0.cfg ≡ s.cfg)

  abbrev Signals : RankShiftStrategy F → RankShiftStrategy F × List (Signal F) → Type 0
  Signals s r =
      (x : Signal F) × (r.1 ≡ x ∷ [])
      × ((s.last_signal_at ≡ 0) ⊎ (s.cfg.cooldown ≤ℤ since x.created_at s.last_signal_at))
      × (r.0.last_signal_at ≡ x.created_at)
      × (r.0.cfg ≡ s.cfg)

  on_prices_pace :
      (s : RankShiftStrategy F) (price_a price_b : F) (now : Time)
      → let r = on_prices s price_a price_b now in Quiet s r ⊎ Signals s r
  unfolding flip_signal
  on_prices_pace s price_a price_b now = elim (on_prices_cases s price_a price_b now) [
    | inl (flip, e) ↦ rw e (inr (_, refl, flip.rested, refl, refl))
    | inr (same, e) ↦ rw e (inl (refl, refl, refl))
  ]

  abbrev priced : RankShiftStrategy F → String → F → RankShiftStrategy F
  priced s asset_id price = record s { prices = insert asset_id price s.prices }

  -- One price is still missing, or both are known.
  abbrev Missing : RankShiftStrategy F → Type 0
  Missing s = (lookup s.cfg.asset_a s.prices ≡ none) ⊎ (lookup s.cfg.asset_b s.prices ≡ none)

  on_price_cases :
      (s : RankShiftStrategy F) (asset_id : String) (price : F) (now : Time)
      → let s' = priced s asset_id price in
        (Missing s' × (on_price s asset_id price now ≡ (s', [])))
        ⊎ ((a : F) × (b : F) × (lookup s.cfg.asset_a s'.prices ≡ some a)
            × (lookup s.cfg.asset_b s'.prices ≡ some b)
            × (on_price s asset_id price now ≡ on_prices s' a b now))
  unfolding on_price
  on_price_cases s asset_id price now =
      let s' = priced s asset_id price in
      elim (Option-cases (lookup s.cfg.asset_a s'.prices)) [
        | inl e ↦ inl (inl e, rw (e, on_price))
        | inr (a, e) ↦ elim (Option-cases (lookup s.cfg.asset_b s'.prices)) [
          | inl f ↦ inl (inr f, rw (e, on_price) (rw f))
          | inr (b, f) ↦ inr (a, b, e, f, rw (e, on_price) (rw f))
        ]
      ]

  on_update_cases :
      (dec : Decoder F) (s : RankShiftStrategy F) (u : MarketUpdate) (now : Time)
      → (on_update dec s u now ≡ (s, []))
        ⊎ ((price : F) × (on_update dec s u now ≡ on_price s u.asset_id price now))
  unfolding on_update
  on_update_cases dec s u now = elim (Option-cases (extract_price dec u.payload)) [
    | inl e ↦ inl (rw (e, on_update) (ground arith))
    | inr (price, e) ↦ elim (Bool-cases (u.asset_id == "")) [
      | inl f ↦ inl (rw f)
      | inr f ↦
          elim (Bool-cases
            (not (u.asset_id == s.cfg.asset_a) && not (u.asset_id == s.cfg.asset_b))) [
              | inl g ↦ inl (rw (f, g))
              | inr g ↦ inr (price, rw (f, g) (rw (e, on_update)))
            ]
    ]
  ]

  abbrev Paced : RankShiftStrategy F → RankShiftStrategy F × List (Signal F) → Type 0
  Paced s r = Quiet s r ⊎ Signals s r

  on_price_pace :
      (s : RankShiftStrategy F) (asset_id : String) (price : F) (now : Time)
      → Paced s (on_price s asset_id price now)
  on_price_pace s asset_id price now = elim (on_price_cases s asset_id price now) [
    | inl (_, e) ↦ subst (Paced s) (sym e) (inl (refl, refl, refl))
    | inr (a, b, _, _, e) ↦
        subst (Paced s) (sym e) (on_prices_pace (priced s asset_id price) a b now)
  ]

  on_update_pace :
      (dec : Decoder F) (s : RankShiftStrategy F) (u : MarketUpdate) (now : Time)
      → Paced s (on_update dec s u now)
  on_update_pace dec s u now = elim (on_update_cases dec s u now) [
    | inl e ↦ subst (Paced s) (sym e) (inl (refl, refl, refl))
    | inr (price, e) ↦ subst (Paced s) (sym e) (on_price_pace s u.asset_id price now)
  ]

  -- Each signal comes at least the cooldown after the one before, the first after the last one known.
  pub Spaced : Duration → Time → List (Signal F) → Type 0
  Spaced cooldown last [] = Unit
  Spaced cooldown last (x ∷ xs) =
      ((last ≡ 0) ⊎ (cooldown ≤ℤ since x.created_at last)) × Spaced cooldown x.created_at xs

  -- Whatever updates arrive, and whatever the clock says, two signals in a row are at least the
  -- cooldown apart, and the first is that far from the last signal before, if there was one.
  pub signals-Spaced :
      (dec : Decoder F) (s : RankShiftStrategy F) (us : List (MarketUpdate × Time))
      → Spaced s.cfg.cooldown s.last_signal_at (signals dec s us)
  unfolding signals Spaced
  signals-Spaced dec s [] = tt
  signals-Spaced dec s ((u, now) ∷ us) =
      let r = on_update dec s u now in
      let ih = signals-Spaced dec r.0 us in
      elim (on_update_pace dec s u now) [
        | inl (none_given, last, cfg) ↦ rw none_given (rw (last, cfg) at ih)
        | inr (x, given, rested, last, cfg) ↦ rw given (rested, rw (last, cfg) at ih)
      ]

  -- Where both prices are known, the leader is that of these prices.
  HasLeader : RankShiftStrategy F → Type 0
  HasLeader s =
      (price_a price_b : F)
      → lookup s.cfg.asset_a s.prices ≡ some price_a
      → lookup s.cfg.asset_b s.prices ≡ some price_b
      → s.leader ≡ leader_of s.cfg price_a price_b

  on_prices-HasLeader :
      (s : RankShiftStrategy F) (a b : F) (now : Time)
      → lookup s.cfg.asset_a s.prices ≡ some a
      → lookup s.cfg.asset_b s.prices ≡ some b
      → HasLeader (on_prices s a b now).0
  unfolding HasLeader leader_of
  on_prices-HasLeader s a b now e f = elim (on_prices_cases s a b now) [
    | inl (_, r) ↦ subst (λ t. HasLeader t.0) (sym r) (λ x y p q. ground (arith, e, f, p, q))
    | inr (_, r) ↦ subst (λ t. HasLeader t.0) (sym r) (λ x y p q. ground (arith, e, f, p, q))
  ]

  on_price-HasLeader :
      (s : RankShiftStrategy F) (asset_id : String) (price : F) (now : Time)
      → HasLeader (on_price s asset_id price now).0
  unfolding HasLeader
  on_price-HasLeader s asset_id price now = elim (on_price_cases s asset_id price now) [
    | inl (missing, e) ↦ subst (λ t. HasLeader t.0) (sym e) (λ x y p q. absurd (ground arith))
    | inr (a, b, f, g, e) ↦
        subst (λ t. HasLeader t.0) (sym e)
          (on_prices-HasLeader (priced s asset_id price) a b now f g)
  ]

  after-HasLeader :
      (dec : Decoder F) (s : RankShiftStrategy F) (us : List (MarketUpdate × Time))
      → HasLeader s
      → HasLeader (after dec s us)
  unfolding after
  after-HasLeader dec s [] h = h
  after-HasLeader dec s ((u, now) ∷ us) h =
      after-HasLeader dec (on_update dec s u now).0 us (elim (on_update_cases dec s u now) [
        | inl e ↦ subst (λ t. HasLeader t.0) (sym e) h
        | inr (price, e) ↦
            subst (λ t. HasLeader t.0) (sym e) (on_price-HasLeader s u.asset_id price now)
      ])

  after-new-HasLeader :
      (dec : Decoder F) (cfg : RankShiftConfig F) (us : List (MarketUpdate × Time))
      → HasLeader (after dec (new_rank_shift_strategy cfg) us)
  unfolding new_rank_shift_strategy lookup HasLeader
  after-new-HasLeader dec cfg us =
      after-HasLeader dec (new_rank_shift_strategy cfg) us (λ x y p q. cc)

  -- Where both prices are known, the leader is the asset with the greater price, the first one if
  -- neither is greater.
  pub IsLed : RankShiftStrategy F → Type 0
  IsLed s =
      (price_a price_b : F)
      → lookup s.cfg.asset_a s.prices ≡ some price_a
      → lookup s.cfg.asset_b s.prices ≡ some price_b
      → IsLeader s.cfg price_a price_b s.leader

  -- From a new strategy, after any updates: as soon as both prices are known, the leader is the asset
  -- with the greater of the two, the first one if neither compares greater.
  pub after-new-IsLed :
      (dec : Decoder F) (cfg : RankShiftConfig F) (us : List (MarketUpdate × Time))
      → IsLed (after dec (new_rank_shift_strategy cfg) us)
  unfolding HasLeader IsLed
  after-new-IsLed dec cfg us price_a price_b known_a known_b =
      let s = after dec (new_rank_shift_strategy cfg) us in
      subst (IsLeader s.cfg price_a price_b)
        (sym (after-new-HasLeader dec cfg us price_a price_b known_a known_b))
        (leader_of-IsLeader s.cfg price_a price_b)
