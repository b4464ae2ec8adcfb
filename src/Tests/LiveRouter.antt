-- ===== src/Tests/LiveRouter.antt =====
-- The live router on concrete orders.
use polymarket_signal_autopi.Base.{
  ◌≡◌, refl, ◌↔◌, true, false, String, none, List, [], ◌∷◌, pos, negsuc, text_eq, lookup, read,
  insert,
}
use polymarket_signal_autopi.Double.Fixed.{
  Fixed, fixed_double, num, nan, Fixed-IsOrdered, Fixed-SpreadsNan,
}
use polymarket_signal_autopi.Execution.LiveRouter.Defs.{
  LiveOrder, LiveConfig, LiveRouter, new_live_router, submit, gate, cap_refusal, order_refusal,
  loss_exceeded, next_exposure, next_cluster_exposure, cluster_of, over_cluster_cap, book,
  record_pnl,
}
use polymarket_signal_autopi.Execution.LiveRouter.Steps.{
  Call, submits, records, triggers, resets, run, accepted,
}
use polymarket_signal_autopi.Execution.LiveRouter.Spec.{IsAdmissible, submit-accepts_iff}
use polymarket_signal_autopi.Execution.LiveRouter.Caps.{IsCapped, run-new_live_router-IsCapped}
use polymarket_signal_autopi.Execution.LiveRouter.Book.{Follows, run-Follows-accepted}
use polymarket_signal_autopi.Execution.LiveRouter.Halts.{
  record_pnl-halts, submit-once, killed-accepted,
}
use polymarket_signal_autopi.Execution.LiveRouter.NotNumber.{nan-submit_uncaps}

abbrev dollars : Fixed → LiveOrder Fixed
dollars n = record { key = "k1"; market = "m1"; country = "US"; notional = n }

abbrev second_order : LiveOrder Fixed
second_order = record { key = "k2"; market = "m1"; country = "US"; notional = num (pos 70_000_000) }

abbrev config : LiveConfig Fixed
config = record {
  whitelist_markets = "m1" ∷ "m2" ∷ [];
  market_cluster = ("m1", "c") ∷ ("m2", "c") ∷ [];
  per_cluster_exposure_cap = ("c", num (pos 150_000_000)) ∷ [];
  per_market_exposure_cap = num (pos 100_000_000);
  stale_cutoff = pos 5_000_000_000;
  daily_loss_cap = num (pos 500_000_000);
  allowed_countries = "US" ∷ [];
  compliance_hook = none;
}

abbrev start : LiveRouter Fixed
unfolding new_live_router
start = new_live_router config

abbrev first_order : LiveOrder Fixed
first_order = dollars (num (pos 60_000_000))

-- The second order would take the market over its cap, and a repeated key is refused.
reasons :
    ((submit start first_order (pos 0)).1 ≡ true)
    × ((submit (submit start first_order (pos 0)).0 second_order (pos 0)).2 ≡ "market_exposure_cap")
    × ((submit (submit start first_order (pos 0)).0 first_order (pos 0)).2 ≡ "duplicate_order_key")
    × ((submit start (record first_order { country = "FR" }) (pos 0)).2 ≡ "geoblock_compliance")
    × ((submit start first_order (pos 6_000_000_000)).2 ≡ "stale_data_cutoff")
unfolding new_live_router submit gate cap_refusal order_refusal loss_exceeded next_exposure
    next_cluster_exposure cluster_of over_cluster_cap book lookup insert read
reasons = (refl, refl, refl, refl, refl)

abbrev calls : List (Call Fixed)
calls =
    submits first_order (pos 0)
    ∷ triggers "drill"
    ∷ submits second_order (pos 0)
    ∷ resets
    ∷ records (num (negsuc 599_999_999))
    ∷ []

submit-accepts_iff_example :
    ((submit start first_order (pos 0)).1 ≡ true) ↔ IsAdmissible start first_order (pos 0)
submit-accepts_iff_example = submit-accepts_iff start first_order (pos 0)

run-new_live_router-IsCapped_example : IsCapped (run (new_live_router config) calls)
run-new_live_router-IsCapped_example = run-new_live_router-IsCapped config calls

run-Follows-accepted_example : Follows start (accepted start calls) (run start calls)
run-Follows-accepted_example = run-Follows-accepted start calls

abbrev quiet_calls : List (Call Fixed)
quiet_calls = resets ∷ submits first_order (pos 0) ∷ []

record_pnl-halts_example :
    let q = record_pnl (new_live_router config) (num (negsuc 599_999_999)) in
    (q.kill ≡ record { triggered = true; reason = "daily_loss_cap" })
    × (accepted q quiet_calls ≡ [])
unfolding new_live_router
record_pnl-halts_example =
    record_pnl-halts (new_live_router config) (num (negsuc 599_999_999)) quiet_calls refl refl
      (tt, (tt, tt))

submit-once_example :
    let q = run (submit start first_order (pos 0)).0 (triggers "drill" ∷ resets ∷ []) in
    (why : String) × (submit q (dollars (num (pos 1))) (pos 0) ≡ (q, false, why))
unfolding new_live_router submit gate cap_refusal order_refusal loss_exceeded next_exposure
    next_cluster_exposure cluster_of over_cluster_cap book lookup insert read
submit-once_example =
    submit-once start first_order (dollars (num (pos 1))) (pos 0) (pos 0)
      (triggers "drill" ∷ resets ∷ []) refl refl

killed-accepted_example :
    accepted
      (record (new_live_router config) { kill = record { triggered = true; reason = "" } })
      (submits first_order (pos 0) ∷ [])
    ≡ []
unfolding new_live_router
killed-accepted_example =
    killed-accepted
      (record (new_live_router config) { kill = record { triggered = true; reason = "" } })
      (submits first_order (pos 0) ∷ []) refl (tt, tt)

nan-submit_uncaps_example :
    ((submit start (dollars nan) (pos 0)).1 ≡ true)
    × (cap_refusal
          (run (submit start (dollars nan) (pos 0)).0 (submits first_order (pos 0) ∷ []))
          second_order
        ≡ none)
unfolding new_live_router gate order_refusal loss_exceeded
nan-submit_uncaps_example =
    nan-submit_uncaps Fixed-IsOrdered Fixed-SpreadsNan start (dollars nan) second_order (pos 0)
      (submits first_order (pos 0) ∷ []) refl refl refl
