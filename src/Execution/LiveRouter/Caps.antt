-- ===== src/Execution/LiveRouter/Caps.antt =====
-- The exposures of accepted orders against their caps.
use polymarket_signal_autopi.Base.{
  ◌≡◌, inl, inr, true, false, String, none, some, List, [], ◌∷◌, Duration, lookup, read-insert,
  read, elem, IsDistinct, arith, text_eq,
}
use polymarket_signal_autopi.Double.{Double, lt, nought}
use polymarket_signal_autopi.Execution.LiveRouter.Defs.{
  LiveOrder, LiveConfig, LiveRouter, new_live_router, gate, cap_refusal, cluster_of, next_exposure,
  over_cluster_cap, next_cluster_exposure, book, submit,
}
use polymarket_signal_autopi.Execution.LiveRouter.Cases.{submit_cases, record_pnl_lem}
use polymarket_signal_autopi.Execution.LiveRouter.Steps.{
  Call, submits, records, triggers, resets, step, run,
}

module _ {F : Type 0} ⦃d : Double F⦄ where
  -- Where a cap is set, no exposure compares greater than it; no key is booked twice.
  pub record IsCapped (r : LiveRouter F) : Type 0 where
    pub market_capped :
        (m : String)
        → lt nought r.cfg.per_market_exposure_cap ≡ true
        → lt r.cfg.per_market_exposure_cap (read nought m r.exposure) ≡ false
    pub cluster_capped :
        (c : String) (cap : F)
        → lookup c r.cfg.per_cluster_exposure_cap ≡ some cap
        → lt nought cap ≡ true
        → lt cap (read nought c r.cluster_exposure) ≡ false
    pub keys_distinct : IsDistinct r.seen_keys

  pub new_live_router-IsCapped : (cfg : LiveConfig F) → IsCapped (new_live_router cfg)
  unfolding new_live_router read lookup
  new_live_router-IsCapped cfg = record {
    market_capped = λ m h. ground arith;
    cluster_capped = λ c cap e h. ground arith;
    keys_distinct = tt;
  }

  book-IsCapped :
      (r : LiveRouter F) (order : LiveOrder F)
      → IsCapped r
      → elem order.key r.seen_keys ≡ false
      → cap_refusal r order ≡ none
      → IsCapped (book r order)
  unfolding book cap_refusal over_cluster_cap
  book-IsCapped r order v fresh fits = record {
    market_capped = λ m h. ground (
      arith,
      read-insert nought order.market m (next_exposure r order) r.exposure,
      v.market_capped m h,
    );
    cluster_capped = λ c cap e h. ground (
      arith,
      read-insert nought (cluster_of r.cfg order.market) c (next_cluster_exposure r order)
          r.cluster_exposure,
      v.cluster_capped c cap e h,
      text_eq.same_iff (cluster_of r.cfg order.market) c,
    );
    keys_distinct = (fresh, v.keys_distinct);
  }

  -- What an order that passes the gate is known to satisfy.
  gate-fresh :
      (r : LiveRouter F) (order : LiveOrder F) (age : Duration)
      → gate r order age ≡ none
      → elem order.key r.seen_keys ≡ false
  unfolding gate
  gate-fresh r order age h = ground arith

  submit-IsCapped :
      (r : LiveRouter F) (order : LiveOrder F) (age : Duration)
      → IsCapped r
      → IsCapped (submit r order age).0
  submit-IsCapped r order age v = elim (submit_cases r order age) [
    | inl (why, e) ↦ rw e v
    | inr a ↦ rw a.result (book-IsCapped r order v (gate-fresh r order age a.gate_open) a.fits)
  ]

  step-IsCapped : (r : LiveRouter F) (c : Call F) → IsCapped r → IsCapped (step r c)
  unfolding step
  step-IsCapped r (submits order age) v = submit-IsCapped r order age v
  step-IsCapped r (records pnl) v = rw record_pnl_lem (record {
    market_capped = v.market_capped;
    cluster_capped = v.cluster_capped;
    keys_distinct = v.keys_distinct;
  })
  step-IsCapped r (triggers why) v = record {
    market_capped = v.market_capped;
    cluster_capped = v.cluster_capped;
    keys_distinct = v.keys_distinct;
  }
  step-IsCapped r resets v = record {
    market_capped = v.market_capped;
    cluster_capped = v.cluster_capped;
    keys_distinct = v.keys_distinct;
  }

  run-IsCapped : (r : LiveRouter F) (cs : List (Call F)) → IsCapped r → IsCapped (run r cs)
  unfolding run
  run-IsCapped r [] v = v
  run-IsCapped r (c ∷ cs) v = run-IsCapped (step r c) cs (step-IsCapped r c v)

  -- Start a router from any configuration and let any calls reach it, in any order: orders, profits and
  -- losses, and an operator's use of the kill switch. Then no market's exposure compares greater than
  -- the market cap, if that is positive, no cluster's greater than its own cap, if it has one that is
  -- positive, and no order key was booked twice.
  pub run-new_live_router-IsCapped :
      (cfg : LiveConfig F) (cs : List (Call F)) → IsCapped (run (new_live_router cfg) cs)
  run-new_live_router-IsCapped cfg cs =
      run-IsCapped (new_live_router cfg) cs (new_live_router-IsCapped cfg)
