-- ===== src/Tests/PaperRouter.antt =====
-- The paper router on concrete orders.
use polymarket_signal_autopi.Base.{◌≡◌, refl, [], ◌∷◌, pos, read, lookup, insert, text_eq}
use polymarket_signal_autopi.Double.Fixed.{Fixed, fixed_double, num}
use polymarket_signal_autopi.Execution.PaperRouter.Defs.{
  PaperLimits, Order, PaperRouter, new_paper_router, submit, submits, run,
}
use polymarket_signal_autopi.Execution.PaperRouter.Limits.{
  IsLimited, run-new_paper_router-IsLimited,
}

abbrev limits : PaperLimits Fixed
limits = record { per_market_exposure_cap = num (pos 100); daily_loss_cap = num (pos 50) }

abbrev order : Order Fixed
order = record { id = "o1"; market = "m1"; notional = num (pos 60) }

abbrev start : PaperRouter Fixed
unfolding new_paper_router
start = new_paper_router limits

second_refused : (submit (submit start order).0 order).2 ≡ "market_exposure_cap"
unfolding new_paper_router submit read lookup insert
second_refused = refl

run-new_paper_router-IsLimited_example :
    IsLimited limits (run (new_paper_router limits) (submits order ∷ submits order ∷ []))
run-new_paper_router-IsLimited_example =
    run-new_paper_router-IsLimited limits (submits order ∷ submits order ∷ [])
