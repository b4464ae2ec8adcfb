-- ===== src/Tests/Strategy.antt =====
-- The rank shift strategy on concrete prices.
use polymarket_signal_autopi.Base.{
  ℕ, ◌≡◌, ◌⊎◌, String, none, some, List, [], ◌∷◌, pos, Time, text_eq,
}
use polymarket_signal_autopi.Double.Fixed.{Fixed, fixed_double, num}
use polymarket_signal_autopi.Values.{float, Decoder}
use polymarket_signal_autopi.Strategy.RankShift.Defs.{
  MarketUpdate, Signal, RankShiftConfig, RankShiftStrategy, new_rank_shift_strategy, on_prices,
}
use polymarket_signal_autopi.Strategy.RankShift.Flips.{IsFlip, IsLeader, IsAbout, on_prices-IsFlip}
use polymarket_signal_autopi.Strategy.RankShift.Runs.{
  signals, Spaced, signals-Spaced, after, IsLed, after-new-IsLed,
}

-- A decoder that finds the price 0.6 in every payload of one byte, and 0.3 in the others.
abbrev decoder : Decoder Fixed
decoder = record {
  parse_float = λ s. none;
  unmarshal = λ bytes. elim bytes [
    | [] ↦ none
    | b ∷ bs ↦ elim bs [
      | [] ↦ some (("price", float (num (pos 600_000))) ∷ [])
      | c ∷ cs ↦ some (("price", float (num (pos 300_000))) ∷ [])
    ]
  ];
}

abbrev config : RankShiftConfig Fixed
config = record {
  asset_a = "A";
  asset_b = "B";
  flip_spread = num (pos 100_000);
  cooldown = pos 60_000_000_000;
  target_label = "label";
  asset_links = [];
}

-- The strategy with "A" in the lead.
abbrev leading : RankShiftStrategy Fixed
leading = record { cfg = config; prices = []; asset_links = []; leader = "A"; last_signal_at = 0 }

abbrev update : String → List ℕ → MarketUpdate
update asset_id payload = record { asset_id = asset_id; kind = "price"; payload = payload }

-- "A" leads with 0.6 against 0.3, then "B" with 0.6 against 0.3.
abbrev updates : List (MarketUpdate × Time)
updates =
    (update "A" (1 ∷ []), 5)
    ∷ (update "B" (1 ∷ 2 ∷ []), 6)
    ∷ (update "B" (1 ∷ []), 7)
    ∷ (update "A" (1 ∷ 2 ∷ []), 8)
    ∷ []

on_prices-IsFlip_example :
    let a = num (pos 300_000) in
    let b = num (pos 600_000) in
    let diff = fixed_double.abs (fixed_double.sub a b) in
    (new : String) × IsLeader config a b new
    × ((IsFlip leading new diff 9
          × ((x : Signal Fixed) × IsAbout "A" new diff 9 x
              × (on_prices leading a b 9
                  ≡ (record leading { leader = new; last_signal_at = 9 }, x ∷ []))))
        ⊎ ((¬ IsFlip leading new diff 9)
            × (on_prices leading a b 9 ≡ (record leading { leader = new }, []))))
on_prices-IsFlip_example = on_prices-IsFlip leading (num (pos 300_000)) (num (pos 600_000)) 9

signals-Spaced_example : Spaced (pos 60_000_000_000) 0 (signals decoder leading updates)
signals-Spaced_example = signals-Spaced decoder leading updates

after-new-IsLed_example : IsLed (after decoder (new_rank_shift_strategy config) updates)
after-new-IsLed_example = after-new-IsLed decoder config updates
