-- ===== src/Execution/PaperRouter/Defs.antt =====
-- The limits, the state and the operations of the paper router.
use polymarket_signal_autopi.Base.{
  Bool, true, false, ◌&&◌, ◌||◌, String, List, [], ◌∷◌, GoMap, insert, read, ◌==◌, text_eq,
  if◌then◌else◌,
}
use polymarket_signal_autopi.Double.{Double, lt, nought}

pub record PaperLimits (F : Type 0) : Type 0 where
  pub per_market_exposure_cap : F
  pub daily_loss_cap : F

pub record Order (F : Type 0) : Type 0 where
  pub id : String
  pub market : String
  pub notional : F

pub record PaperRouter (F : Type 0) : Type 0 where
  pub limits : PaperLimits F
  pub exposure : GoMap String F
  pub day_pnl : F
  pub halted : Bool

-- The calls that reach the router.
pub data Call (F : Type 0) : Type 0 where
  submits : Order F → Call F
  records : F → Call F

module _ {F : Type 0} ⦃d : Double F⦄ where
  -- `NewPaperRouter`
  unfoldable pub new_paper_router : PaperLimits F → PaperRouter F
  new_paper_router limits = record {
    limits = limits;
    exposure = [];
    day_pnl = nought;
    halted = false;
  }

  -- `Submit`: the new state, whether the order is accepted, and the reason if it is not.
  unfoldable pub submit : PaperRouter F → Order F → PaperRouter F × Bool × String
  submit r order =
      let next_exposure = d.add (read nought order.market r.exposure) order.notional in
      if r.halted
      then (r, false, "trading_halted")
      else if order.id == "" || order.market == "" || d.le order.notional nought
      then (r, false, "invalid_order")
      else if lt nought r.limits.per_market_exposure_cap
          && lt r.limits.per_market_exposure_cap next_exposure
      then (r, false, "market_exposure_cap")
      else (record r { exposure = insert order.market next_exposure r.exposure }, true, "")

  -- `RecordPnL`
  unfoldable pub record_pnl : PaperRouter F → F → PaperRouter F
  record_pnl r pnl =
      let day_pnl' = d.add r.day_pnl pnl in
      record r {
        day_pnl = day_pnl';
        halted =
            if lt nought r.limits.daily_loss_cap && lt r.limits.daily_loss_cap (d.neg day_pnl')
            then true
            else r.halted;
      }

  -- `TradingHalted`
  unfoldable pub trading_halted : PaperRouter F → Bool
  trading_halted r = r.halted

  unfoldable pub step : PaperRouter F → Call F → PaperRouter F
  step r (submits order) = (submit r order).0
  step r (records pnl) = record_pnl r pnl

  unfoldable pub run : PaperRouter F → List (Call F) → PaperRouter F
  run r [] = r
  run r (c ∷ cs) = run (step r c) cs
