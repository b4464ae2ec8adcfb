-- ===== src/Execution/LiveRouter/Append.antt =====
-- Calls that follow calls.
use polymarket_signal_autopi.Base.{
  ◌≡◌, refl, ap, ◌∙◌, true, false, List, [], ◌∷◌, ◌++◌, if◌then◌else◌,
}
use polymarket_signal_autopi.Double.{Double}
use polymarket_signal_autopi.Execution.LiveRouter.Defs.{LiveOrder, LiveRouter, submit}
use polymarket_signal_autopi.Execution.LiveRouter.Steps.{
  Call, submits, records, triggers, resets, step, run, accepted, accepted_now,
}

module _ {F : Type 0} ⦃d : Double F⦄ where
  pub run-append : (r : LiveRouter F) (cs ds : List (Call F)) → run r (cs ++ ds) ≡ run (run r cs) ds
  unfolding run
  run-append r [] ds = refl
  run-append r (c ∷ cs) ds = run-append (step r c) cs ds

  accepted_now-append :
      (r : LiveRouter F) (c : Call F) (os ps : List (LiveOrder F))
      → accepted_now r c (os ++ ps) ≡ accepted_now r c os ++ ps
  unfolding accepted_now
  accepted_now-append r (submits order age) os ps =
      elim (submit r order age).1
        as (λ b.
          (if b then order ∷ (os ++ ps) else os ++ ps) ≡ (if b then order ∷ os else os) ++ ps) [
            | true ↦ refl
            | false ↦ refl
          ]
  accepted_now-append r (records pnl) os ps = refl
  accepted_now-append r (triggers why) os ps = refl
  accepted_now-append r resets os ps = refl

  pub accepted-append :
      (r : LiveRouter F) (cs ds : List (Call F))
      → accepted r (cs ++ ds) ≡ accepted r cs ++ accepted (run r cs) ds
  unfolding run accepted
  accepted-append r [] ds = refl
  accepted-append r (c ∷ cs) ds =
      ap (accepted_now r c) (accepted-append (step r c) cs ds)
      ∙ accepted_now-append r c (accepted (step r c) cs) (accepted (run (step r c) cs) ds)
