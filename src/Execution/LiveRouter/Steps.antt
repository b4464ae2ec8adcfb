-- ===== src/Execution/LiveRouter/Steps.antt =====
-- The calls that reach a live router, in any order, and the orders that it accepts on the way.
use polymarket_signal_autopi.Base.{String, List, [], ◌∷◌, Duration, if◌then◌else◌}
use polymarket_signal_autopi.Double.{Double}
use polymarket_signal_autopi.Execution.KillSwitch.{trigger, reset}
use polymarket_signal_autopi.Execution.LiveRouter.Defs.{LiveOrder, LiveRouter, submit, record_pnl}

-- `triggers` and `resets` are the calls of an operator on `KillSwitch()`.
pub data Call (F : Type 0) : Type 0 where
  submits : LiveOrder F → Duration → Call F
  records : F → Call F
  triggers : String → Call F
  resets : Call F

module _ {F : Type 0} ⦃d : Double F⦄ where
  unfoldable pub step : LiveRouter F → Call F → LiveRouter F
  step r (submits order age) = (submit r order age).0
  step r (records pnl) = record_pnl r pnl
  step r (triggers why) = record r { kill = trigger r.kill why }
  step r resets = record r { kill = reset r.kill }

  unfoldable pub run : LiveRouter F → List (Call F) → LiveRouter F
  run r [] = r
  run r (c ∷ cs) = run (step r c) cs

  -- The orders that one call gets accepted, and those that a sequence of calls does, oldest first.
  unfoldable pub accepted_now : LiveRouter F → Call F → List (LiveOrder F) → List (LiveOrder F)
  accepted_now r (submits order age) rest = if (submit r order age).1 then order ∷ rest else rest
  accepted_now r c rest = rest

  unfoldable pub accepted : LiveRouter F → List (Call F) → List (LiveOrder F)
  unfolding accepted_now
  accepted r [] = []
  accepted r (c ∷ cs) = accepted_now r c (accepted (step r c) cs)
