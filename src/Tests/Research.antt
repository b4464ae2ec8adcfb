-- ===== src/Tests/Research.antt =====
-- Gates, the risk filter, lead-lag directions and features on concrete inputs.
use polymarket_signal_autopi.Base.{
  String, ℕ, ◌+◌, ◌≡◌, ◌≤◌, ◌↔◌, refl, false, none, List, [], ◌∷◌, pos, All, length, is_zero, ok,
}
use polymarket_signal_autopi.Double.Fixed.{Fixed, fixed_double, num, nan, Fixed-IsOrdered}
use polymarket_signal_autopi.Risk.{Context}
use polymarket_signal_autopi.Config.{GoNoGoGates, validate, IsSound, validate-none_iff}
use polymarket_signal_autopi.Ingestion.RawWriter.{RawEvent}
use polymarket_signal_autopi.Linking.{Item, Link}
use polymarket_signal_autopi.Features.{MarketPoint, Feature, build_features}
use polymarket_signal_autopi.Features.Lookahead.{build_features-ok_iff}

abbrev gates : GoNoGoGates Fixed
gates = record {
  data_quality = record {
    missing_field_pct_max = nan;
    p99_ingest_latency_ms = pos 5;
    reconnect_success_min = num (pos 99_000_000);
    unresolved_gap_max = pos 0;
  };
  causal_robustness = record {
    fdr_q_max = num (pos 50_000);
    anti_lookahead_min = num (pos 100_000_000);
  };
  economic_viability = record {
    max_drawdown_pct = num (pos 10_000_000);
    capacity_decay_pct_max = num (pos 0);
  };
  operational_safety = record { slippage_deviation_pct_max = num (pos 5_000_000) };
}

-- A threshold that is NaN passes.
nan_passes : validate gates ≡ none
unfolding validate
nan_passes = refl

validate-none_iff_example : (validate gates ≡ none) ↔ IsSound gates
validate-none_iff_example = validate-none_iff Fixed-IsOrdered gates

abbrev item : ℕ → Item
item t = record { published_ts = t; first_seen_ingest_ts = t + 2 }

abbrev event : RawEvent
event = record {
  id = "e";
  sequence = pos 1;
  source = "ws";
  payload = [];
  source_ts = 7;
  ingest_ts = 8;
  normalized_ts = 8;
}

abbrev link : Link Fixed
link = record { id = "l"; market_event = event; news_item = item 3; confidence = num (pos 100_000) }

abbrev point : ℕ → MarketPoint Fixed
point t = record { at = t; price = num (pos t); spread = num (pos 1); volume = num (pos 1) }

build_features-ok_iff_example :
    ((fs : List (Feature Fixed)) × (build_features [] (point 5 ∷ point 3 ∷ []) 4 ≡ ok fs)
      × All (λ f. f.computed_at ≡ 4) fs)
    ↔ ((is_zero 4 ≡ false)
        × (2 ≤ length (point 5 ∷ point 3 ∷ []))
        × All (λ p. p.at ≤ 4) (point 5 ∷ point 3 ∷ []))
build_features-ok_iff_example = build_features-ok_iff [] (point 5 ∷ point 3 ∷ []) 4

abbrev context : Context Fixed
context = record {
  current_exposure = num (pos 5);
  max_exposure = num (pos 9);
  data_age = pos 4;
  stale_after = pos 3;
}

abbrev signal : String
signal = "signal"
