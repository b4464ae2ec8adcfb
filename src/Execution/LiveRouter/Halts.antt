-- ===== src/Execution/LiveRouter/Halts.antt =====
-- What stops a live router: the kill switch, the daily loss, a key used before; and what does not.
use polymarket_signal_autopi.Base.{
  ◌≡◌, refl, sym, subst, inl, inr, Bool, true, false, String, List, [], ◌∷◌, Duration, elem, All,
  arith, text_eq, if◌then◌else◌, ==_refl,
}
use polymarket_signal_autopi.Double.{Double, lt, nought}
use polymarket_signal_autopi.Execution.KillSwitch.{trigger}
use polymarket_signal_autopi.Execution.LiveRouter.Defs.{
  LiveOrder, LiveRouter, gate, loss_exceeded, submit, record_pnl, book,
}
use polymarket_signal_autopi.Execution.LiveRouter.Cases.{submit_cases, record_pnl_lem}
use polymarket_signal_autopi.Execution.LiveRouter.Steps.{
  Call, submits, records, triggers, resets, step, run, accepted,
}

module _ {F : Type 0} ⦃d : Double F⦄ where
  abbrev pub IsQuiet : Call F → Type 0
  IsQuiet (records pnl) = ⊥
  IsQuiet c = Unit {0}

  abbrev pub KeepsKill : Call F → Type 0
  KeepsKill resets = ⊥
  KeepsKill c = Unit {0}

  loss-submit :
      (r : LiveRouter F) (order : LiveOrder F) (age : Duration)
      → loss_exceeded r ≡ true
      → (why : String) × (submit r order age ≡ (r, false, why))
  unfolding gate
  loss-submit r order age h = elim (submit_cases r order age) [
    | inl refused ↦ refused
    | inr a ↦ absurd (ground (arith, a.gate_open))
  ]

  killed-submit :
      (r : LiveRouter F) (order : LiveOrder F) (age : Duration)
      → r.kill.triggered ≡ true
      → (why : String) × (submit r order age ≡ (r, false, why))
  unfolding gate
  killed-submit r order age h = elim (submit_cases r order age) [
    | inl refused ↦ refused
    | inr a ↦ absurd (ground (arith, a.gate_open))
  ]

  -- What holds of the calls after a refused submission holds after the submission.
  abbrev NoneAfter : LiveOrder F → List (Call F) → LiveRouter F × Bool × String → Type 0
  NoneAfter order cs t = (if t.1 then order ∷ accepted t.0 cs else accepted t.0 cs) ≡ []

  exceeded-accepted :
      (r : LiveRouter F) (cs : List (Call F))
      → loss_exceeded r ≡ true
      → All IsQuiet cs
      → accepted r cs ≡ []
  unfolding accepted step loss_exceeded
  exceeded-accepted r [] h q = refl
  exceeded-accepted r (submits order age ∷ cs) h (_, q) =
      let (why, e) = loss-submit r order age h in
      subst (NoneAfter order cs) (sym e) (exceeded-accepted r cs h q)
  exceeded-accepted r (records pnl ∷ cs) h (quiet, q) = absurd quiet
  exceeded-accepted r (triggers why ∷ cs) h (_, q) =
      exceeded-accepted (step r (triggers why)) cs h q
  exceeded-accepted r (resets ∷ cs) h (_, q) = exceeded-accepted (step r resets) cs h q

  -- Once a recorded result takes the day's loss over a daily cap that is set, the kill switch is triggered with
  -- that reason, and no order is accepted until another result is recorded: neither more orders nor
  -- an operator's reset of the kill switch opens the router again.
  pub record_pnl-halts :
      (r : LiveRouter F) (pnl : F) (cs : List (Call F))
      → lt nought r.cfg.daily_loss_cap ≡ true
      → lt r.cfg.daily_loss_cap (d.neg (d.add r.day_pnl pnl)) ≡ true
      → All IsQuiet cs
      → ((record_pnl r pnl).kill ≡ record { triggered = true; reason = "daily_loss_cap" })
        × (accepted (record_pnl r pnl) cs ≡ [])
  unfolding trigger loss_exceeded
  record_pnl-halts r pnl cs p h q = (
    rw record_pnl_lem (ground arith),
    exceeded-accepted (record_pnl r pnl) cs (rw record_pnl_lem (ground arith)) q,
  )

  -- While the kill switch is triggered and nobody resets it, no order is accepted.
  pub killed-accepted :
      (r : LiveRouter F) (cs : List (Call F))
      → r.kill.triggered ≡ true
      → All KeepsKill cs
      → accepted r cs ≡ []
  unfolding accepted step trigger
  killed-accepted r [] h q = refl
  killed-accepted r (submits order age ∷ cs) h (_, q) =
      let (why, e) = killed-submit r order age h in
      subst (NoneAfter order cs) (sym e) (killed-accepted r cs h q)
  killed-accepted r (records pnl ∷ cs) h (_, q) =
      killed-accepted (record_pnl r pnl) cs (rw record_pnl_lem (ground arith)) q
  killed-accepted r (triggers why ∷ cs) h (_, q) =
      killed-accepted (step r (triggers why)) cs (ground arith) q
  killed-accepted r (resets ∷ cs) h (keeps, q) = absurd keeps

  seen-run :
      (r : LiveRouter F) (cs : List (Call F)) (k : String)
      → elem k r.seen_keys ≡ true
      → elem k (run r cs).seen_keys ≡ true
  unfolding run step book
  seen-run r [] k h = h
  seen-run r (submits order age ∷ cs) k h =
      seen-run (submit r order age).0 cs k (elim (submit_cases r order age) [
        | inl (why, e) ↦ rw e h
        | inr a ↦ rw a.result (ground arith)
      ])
  seen-run r (records pnl ∷ cs) k h = seen-run (record_pnl r pnl) cs k (rw record_pnl_lem h)
  seen-run r (triggers why ∷ cs) k h = seen-run (step r (triggers why)) cs k h
  seen-run r (resets ∷ cs) k h = seen-run (step r resets) cs k h

  booked_key :
      (r : LiveRouter F) (order : LiveOrder F) (age : Duration)
      → (submit r order age).1 ≡ true
      → elem order.key (submit r order age).0.seen_keys ≡ true
  unfolding book
  booked_key r order age ok = elim (submit_cases r order age) [
    | inl (why, e) ↦ absurd (ground (arith, e))
    | inr a ↦ rw a.result (rw (==_refl order.key))
  ]

  -- An order whose key was accepted before is refused and changes nothing, whatever happened since.
  pub submit-once :
      (r : LiveRouter F) (first again : LiveOrder F) (age age' : Duration) (cs : List (Call F))
      → (submit r first age).1 ≡ true
      → again.key ≡ first.key
      → let q = run (submit r first age).0 cs in
        (why : String) × (submit q again age' ≡ (q, false, why))
  unfolding gate book
  submit-once r first again age age' cs ok same =
      let q = run (submit r first age).0 cs in
      let seen : elem again.key q.seen_keys ≡ true =
        rw same (seen-run (submit r first age).0 cs first.key (booked_key r first age ok)) in
      elim (submit_cases q again age') [
        | inl refused ↦ refused
        | inr a ↦ absurd (ground (arith, a.gate_open))
      ]
