-- ===== src/Runtime/AutoPilot/Written.antt =====
-- The outcome of one update, by the answer of the store to its raw event.
use polymarket_signal_autopi.Base.{◌≡◌, refl, ap, ◌∙◌, String, none, some, [], ◌∷◌}
use polymarket_signal_autopi.Double.{Double}
use polymarket_signal_autopi.Text.{Runes}
use polymarket_signal_autopi.Text.Decimal.{concat}
use polymarket_signal_autopi.Values.{Decoder}
use polymarket_signal_autopi.Strategy.RankShift.Defs.{MarketUpdate, on_update}
use polymarket_signal_autopi.Runtime.Telemetry.Defs.{record_raw_event}
use polymarket_signal_autopi.Runtime.AutoPilot.Texts.{Printer}
use polymarket_signal_autopi.Runtime.AutoPilot.Defs.{
  AutoPilot, Action, wrote, Outcome, Step, quietly, and_then, persist,
}
use polymarket_signal_autopi.Runtime.AutoPilot.Handle.{
  UpdatePorts, raw_event, handle_signals, handle_update,
}

module _ {F R : Type 0} (f : Step F R) (a : AutoPilot F) where
  persist-refused :
      (what why : String) (x : Action F R)
      → and_then (persist what x (some why)) f a
        ≡ record { pilot = a; actions = x ∷ []; error = some (concat (what ∷ why ∷ [])) }
  unfolding persist and_then
  persist-refused what why x = refl

  persist-taken :
      (what : String) (x : Action F R)
      → and_then (persist what x none) f a
        ≡ record { pilot = (f a).pilot; actions = x ∷ (f a).actions; error = (f a).error }
  unfolding persist and_then
  persist-taken what x = refl

  quietly_lem : (g : AutoPilot F → AutoPilot F) → and_then (quietly g) f a ≡ f (g a)
  unfolding and_then
  quietly_lem g = refl

module _ {F R : Type 0} ⦃d : Double F⦄ ⦃u : Runes⦄ where
  -- What an update leads to once its raw event is stored.
  abbrev pub from_signals :
      Printer F → Decoder F → UpdatePorts F R → MarketUpdate → AutoPilot F → Outcome F R
  from_signals p dec w update a =
      let r = on_update dec a.strategy update w.strategy_now in
      handle_signals p dec w.signals 0 w.now r.1
        (record a { strategy = r.0; telemetry = record_raw_event a.telemetry w.later })

  -- The outcome of `handleUpdate` for each answer of the store.
  pub handle_update-wrote :
      (p : Printer F) (dec : Decoder F) (w : UpdatePorts F R) (update : MarketUpdate)
      (a : AutoPilot F)
      → let o = handle_update p dec w update a in
        let event = raw_event update w.now in
        ((why : String)
          → w.write event ≡ some why
          → o ≡ record {
            pilot = a;
            actions = wrote event ∷ [];
            error = some (concat ("persist raw update: " ∷ why ∷ []));
          })
        × (w.write event ≡ none
            → let rest = from_signals p dec w update a in
              o ≡ record {
                pilot = rest.pilot;
                actions = wrote event ∷ rest.actions;
                error = rest.error;
              })
  unfolding handle_update
  handle_update-wrote p dec w update a = (
    λ why h. rw h (persist-refused _ a "persist raw update: " why (wrote (raw_event update w.now))),
    λ h. rw h (
        persist-taken _ a "persist raw update: " (wrote (raw_event update w.now))
        ∙ ap
            (λ (rest : Outcome F R). record {
              pilot = rest.pilot;
              actions = wrote (raw_event update w.now) ∷ rest.actions;
              error = rest.error;
            })
            (quietly_lem _ a _)),
  )
