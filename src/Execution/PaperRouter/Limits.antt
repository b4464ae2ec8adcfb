-- ===== src/Execution/PaperRouter/Limits.antt =====
-- The market cap of the paper router over any calls, and its halt.
use polymarket_signal_autopi.Base.{
  ◌≡◌, refl, sym, subst, ◌≢◌, ◌↔◌, true, false, String, List, [], ◌∷◌, read, read-insert, lookup,
  arith, text_eq,
}
use polymarket_signal_autopi.Double.{Double, lt, nought}
use polymarket_signal_autopi.Execution.PaperRouter.Defs.{
  PaperLimits, Order, PaperRouter, new_paper_router, submit, record_pnl, trading_halted, Call,
  submits, records, step, run,
}

module _ {F : Type 0} ⦃d : Double F⦄ where
  -- Where the cap is set, no exposure compares greater than it; and the limits are the first ones.
  pub record IsLimited (limits : PaperLimits F) (r : PaperRouter F) : Type 0 where
    pub same_limits : r.limits ≡ limits
    pub market_capped :
        (m : String)
        → lt nought limits.per_market_exposure_cap ≡ true
        → lt limits.per_market_exposure_cap (read nought m r.exposure) ≡ false

  new-IsLimited : (limits : PaperLimits F) → IsLimited limits (new_paper_router limits)
  unfolding new_paper_router read lookup
  new-IsLimited limits = record { same_limits = refl; market_capped = λ m h. ground arith }

  submit-IsLimited :
      (limits : PaperLimits F) (r : PaperRouter F) (order : Order F)
      → IsLimited limits r
      → IsLimited limits (submit r order).0
  unfolding submit
  submit-IsLimited limits r order v = record {
    same_limits = ground arith;
    market_capped = λ m h. ground (
      arith,
      v.market_capped m h,
      read-insert nought order.market m (d.add (read nought order.market r.exposure) order.notional)
          r.exposure,
    );
  }

  step-IsLimited :
      (limits : PaperLimits F) (r : PaperRouter F) (c : Call F)
      → IsLimited limits r
      → IsLimited limits (step r c)
  unfolding step record_pnl
  step-IsLimited limits r (submits order) v = submit-IsLimited limits r order v
  step-IsLimited limits r (records pnl) v = record {
    same_limits = v.same_limits;
    market_capped = v.market_capped;
  }

  run-IsLimited :
      (limits : PaperLimits F) (r : PaperRouter F) (cs : List (Call F))
      → IsLimited limits r
      → IsLimited limits (run r cs)
  unfolding run
  run-IsLimited limits r [] v = v
  run-IsLimited limits r (c ∷ cs) v =
      run-IsLimited limits (step r c) cs (step-IsLimited limits r c v)

  -- From a new paper router, after any calls, no market's exposure compares greater than the market
  -- cap, if that is positive, and the limits are those it was made with.
  pub run-new_paper_router-IsLimited :
      (limits : PaperLimits F) (cs : List (Call F))
      → IsLimited limits (run (new_paper_router limits) cs)
  run-new_paper_router-IsLimited limits cs = run-IsLimited limits _ cs (new-IsLimited limits)

  -- All that an accepted paper order has to satisfy.
  pub record IsAcceptable (r : PaperRouter F) (order : Order F) : Type 0 where
    pub running : trading_halted r ≡ false
    pub has_id : order.id ≢ ""
    pub has_market : order.market ≢ ""
    pub positive : d.le order.notional nought ≡ false
    pub market_fits :
        lt nought r.limits.per_market_exposure_cap ≡ true
        → lt r.limits.per_market_exposure_cap
            (d.add (read nought order.market r.exposure) order.notional)
          ≡ false

  -- A paper order is accepted exactly if trading is not halted, the order has an identifier and a
  -- market, its notional does not compare as zero or less, and the market's next exposure does not
  -- compare greater than a cap that is positive.
  pub submit-accepts_iff_IsAcceptable :
      (r : PaperRouter F) (order : Order F) → ((submit r order).1 ≡ true) ↔ IsAcceptable r order
  unfolding submit trading_halted
  submit-accepts_iff_IsAcceptable r order = (
    λ h. record {
      running = ground arith;
      has_id = ground (arith, text_eq.same_iff order.id "");
      has_market = ground (arith, text_eq.same_iff order.market "");
      positive = ground arith;
      market_fits = λ p. ground arith;
    },
    λ w.
        ground
          (arith, text_eq.same_iff order.id "", text_eq.same_iff order.market "", w.market_fits),
  )

  halted-submit :
      (r : PaperRouter F) (order : Order F)
      → r.halted ≡ true
      → submit r order ≡ (r, false, "trading_halted")
  unfolding submit
  halted-submit r order h = rw h

  run-halted :
      (r : PaperRouter F) (cs : List (Call F))
      → r.halted ≡ true
      → ((run r cs).halted ≡ true) × ((run r cs).exposure ≡ r.exposure)
  unfolding run step record_pnl
  run-halted r [] h = (h, refl)
  run-halted r (submits order ∷ cs) h =
      subst (λ t. ((run t.0 cs).halted ≡ true) × ((run t.0 cs).exposure ≡ r.exposure))
        (sym (halted-submit r order h)) (run-halted r cs h)
  run-halted r (records pnl ∷ cs) h = run-halted (record_pnl r pnl) cs (ground arith)

  -- Once a recorded result takes the day's loss over a cap that is set, trading stays halted whatever
  -- is submitted or recorded later, also after profits: every order is refused with that reason, and
  -- no exposure changes.
  pub record_pnl-stays_halted :
      (r : PaperRouter F) (pnl : F) (cs : List (Call F)) (order : Order F)
      → lt nought r.limits.daily_loss_cap ≡ true
      → lt r.limits.daily_loss_cap (d.neg (d.add r.day_pnl pnl)) ≡ true
      → let q = run (record_pnl r pnl) cs in
        (trading_halted q ≡ true)
        × (submit q order ≡ (q, false, "trading_halted"))
        × (q.exposure ≡ r.exposure)
  unfolding record_pnl trading_halted
  record_pnl-stays_halted r pnl cs order p h =
      let (still, same) = run-halted (record_pnl r pnl) cs (ground arith) in
      (still, halted-submit _ order still, same)
