-- ===== src/Execution/LiveRouter/Cases.antt =====
-- `Submit` and `RecordPnL` taken apart: what the proofs about the router split on.
use polymarket_signal_autopi.Base.{
  ◌≡◌, ◌⊎◌, inl, inr, true, false, String, none, Duration, if◌then◌else◌, Option-cases, Bool-cases,
}
use polymarket_signal_autopi.Double.{Double}
use polymarket_signal_autopi.Execution.KillSwitch.{trigger}
use polymarket_signal_autopi.Execution.LiveRouter.Defs.{
  LiveOrder, LiveRouter, gate, cap_refusal, book, submit, record_pnl, loss_exceeded,
}

module _ {F : Type 0} ⦃d : Double F⦄ where
  -- A refused order with its reason, or an accepted one that passed both sets of checks.
  abbrev pub IsRefused : LiveRouter F → LiveOrder F → Duration → Type 0
  IsRefused r order age = (why : String) × (submit r order age ≡ (r, false, why))

  pub record IsAccepted (r : LiveRouter F) (order : LiveOrder F) (age : Duration) : Type 0 where
    pub gate_open : gate r order age ≡ none
    pub fits : cap_refusal r order ≡ none
    pub result : submit r order age ≡ (book r order, true, "")

  pub submit_cases :
      (r : LiveRouter F) (order : LiveOrder F) (age : Duration)
      → IsRefused r order age ⊎ IsAccepted r order age
  unfolding submit
  submit_cases r order age = elim (Option-cases (gate r order age)) [
    | inr (why, e) ↦ inl (why, rw (e, submit))
    | inl gate_open ↦ elim (Option-cases (cap_refusal r order)) [
      | inr (why, e) ↦ inl (why, rw (gate_open, submit) (rw (e, submit)))
      | inl fits ↦ inr (record {
        gate_open = gate_open;
        fits = fits;
        result = rw (gate_open, submit) (rw (fits, submit));
      })
    ]
  ]

  pub record_pnl_lem :
      (r : LiveRouter F) (pnl : F)
      → let r' = record r { day_pnl = d.add r.day_pnl pnl } in
        record_pnl r pnl
        ≡ record r' { kill = if loss_exceeded r' then trigger r.kill "daily_loss_cap" else r.kill }
  unfolding record_pnl
  record_pnl_lem r pnl =
      let r' = record r { day_pnl = d.add r.day_pnl pnl } in
      elim (Bool-cases (loss_exceeded r')) [ inl e ↦ rw e | inr e ↦ rw e ]
