-- ===== src/Runtime/AutoPilot/Execute.antt =====
-- What the worker does with a signal's order: `notify` and `executeSignal`, with the call of
-- `reconcileOrder`. Each reading of the clock has its own number.
use polymarket_signal_autopi.Base.{
  ℕ, ◌+◌, true, false, not, ◌||◌, String, Option, none, some, List, [], ◌∷◌, pos, Time, ◌==◌,
  text_eq, if◌then◌else◌, Result, ok, err,
}
use polymarket_signal_autopi.Double.{Double}
use polymarket_signal_autopi.Text.{Runes, trim_space}
use polymarket_signal_autopi.Text.Decimal.{concat, show_int}
use polymarket_signal_autopi.Values.{Decoder}
use polymarket_signal_autopi.Execution.LiveRouter.Defs.{LiveOrder, submit}
use polymarket_signal_autopi.Strategy.RankShift.Defs.{Signal, unix_nano}
use polymarket_signal_autopi.Runtime.Telemetry.Defs.{record_order_status, record_reconcile_status}
use polymarket_signal_autopi.Runtime.Reconcile.Defs.{
  OrderRecord, Effect, polled, counted_reconcile, counted_order, alerted, saved, not_saved, waited,
  reconcile_order,
}
use polymarket_signal_autopi.Runtime.AutoPilot.Texts.{Printer, format_signal_notification_text}
use polymarket_signal_autopi.Runtime.AutoPilot.Defs.{
  PostOrderResponse, SignalPorts, routed, posted, saved_order, reconciled, notified,
  saved_notification, Step, quietly, nothing, does, ◌>=>◌, persist, alert, fails,
  should_suppress_signal_notify,
}

-- The error of a call of `PostOrder`, which a response without success has too.
unfoldable pub post_error : PostOrderResponse → Option String → Option String
post_error response (some why) = some why
post_error response none =
    let message = trim_space response.error_msg in
    let status = trim_space response.status in
    if response.success
    then none
    else some (
        concat (
          "order rejected: "
          ∷ (if not (message == "")
              then message
              else if not (status == "")
              then status
              else "success=false")
          ∷ []))

-- The status under which the result of `PostOrder` is stored.
unfoldable pub post_status : PostOrderResponse → Option String → String
post_status response (some why) = "failed"
post_status response none = if response.status == "" then "submitted" else response.status

module _ {F R : Type 0} ⦃d : Double F⦄ ⦃u : Runes⦄ where
  abbrev order_counted : String → Time → Step F R
  order_counted status now =
      quietly (λ a. record a { telemetry = record_order_status a.telemetry status now })

  -- `notify`; `n` is the number of its first reading of the clock.
  unfoldable pub notify : Printer F → Decoder F → SignalPorts F R → ℕ → Signal F → String → Step F R
  notify p dec w n signal stage a =
      let decision = should_suppress_signal_notify a stage signal (w.clock n) in
      let message = format_signal_notification_text p dec stage signal in
      let problem = w.send signal.asset_id message in
      if not a.cfg.has_notifier
      then nothing a
      else if decision.1
      then nothing decision.0
      else (does (notified stage signal message (w.clock n))
            >=> does (
                saved_notification (record {
                  id = concat (
                      "notif-"
                      ∷ signal.id
                      ∷ "-"
                      ∷ stage
                      ∷ "-"
                      ∷ show_int (unix_nano (w.clock (n + 1)))
                      ∷ []);
                  channel = "telegram";
                  target = signal.asset_id;
                  message = message;
                  status = elim problem [ none ↦ "sent" | some why ↦ "failed" ];
                  error_msg = elim problem [ none ↦ "" | some why ↦ why ];
                  created_at = w.clock (n + 2);
                })))
          decision.0

  -- What an effect of the reconciliation does to the worker.
  unfoldable pub follow_effect : SignalPorts F R → Effect → Step F R
  follow_effect w polled = does (reconciled polled)
  follow_effect w (counted_reconcile status) =
      quietly
        (λ a. record a { telemetry = record_reconcile_status a.telemetry status (w.clock 12) })
  follow_effect w (counted_order status) = order_counted status (w.clock 13)
  follow_effect w (alerted key message) = alert w.alert_sends (w.clock 14) key message
  follow_effect w (saved r) = does (reconciled (saved r))
  follow_effect w (not_saved r) = does (reconciled (not_saved r))
  follow_effect w (waited t) = does (reconciled (waited t))

  unfoldable pub follow_effects : SignalPorts F R → List Effect → Step F R
  follow_effects w [] = nothing
  follow_effects w (e ∷ es) = follow_effect w e >=> follow_effects w es

  -- The call of `reconcileOrder`, whose effects reach the telemetry and the alerts.
  unfoldable pub reconcile : SignalPorts F R → String → String → String → Step F R
  reconcile w signal_id order_id status a =
      let trace =
        reconcile_order w.polls a.cfg.reconcile a.cfg.reads_orders signal_id order_id status in
      (follow_effects w trace.0 >=> (λ b. record { pilot = b; actions = []; error = trace.1 })) a

  abbrev pub order_record : SignalPorts F R → Signal F → String → String → String → OrderRecord
  order_record w signal status order_id error_msg = record {
    id = concat ("ord-" ∷ signal.id ∷ "-" ∷ show_int (unix_nano (w.clock 7)) ∷ []);
    signal_id = signal.id;
    status = status;
    order_id = order_id;
    error_msg = error_msg;
    created_at = w.clock 8;
  }

  -- The record of an order, and what follows once the store took it.
  unfoldable pub save_order_then : SignalPorts F R → String → OrderRecord → Step F R
  save_order_then w what r =
      persist what (saved_order r) (w.save_order r) >=> order_counted r.status (w.clock 9)

  -- `executeSignal` where the router refuses the order.
  unfoldable pub blocked : Printer F → Decoder F → SignalPorts F R → Signal F → String → Step F R
  blocked p dec w signal reason =
      save_order_then w "persist blocked order: " (order_record w signal "blocked" "" reason)
      >=> alert w.alert_sends (w.clock 10) "order_blocked" (
          concat (
            "⚠\u{fe0f} order blocked\nsignal=" ∷ signal.id ∷ "\nreason=" ∷ reason ∷ "\nasset="
            ∷ signal.asset_id ∷ []))
      >=> notify p dec w 15 signal "blocked"

  -- The alert of an order that was not placed.
  unfoldable pub failure_alert : SignalPorts F R → Signal F → Option String → Step F R
  failure_alert w signal none = nothing
  failure_alert w signal (some why) = alert w.alert_sends (w.clock 11) "order_failed" (
      concat (
        "⚠\u{fe0f} order submit failed\nsignal=" ∷ signal.id ∷ "\nasset=" ∷ signal.asset_id
        ∷ "\nerror=" ∷ why ∷ []))

  -- `executeSignal` from the answer of `PostOrder` on.
  unfoldable pub settled :
      Printer F
      → Decoder F
      → SignalPorts F R
      → Signal F
      → PostOrderResponse × Option String
      → Step F R
  settled p dec w signal answer =
      let response = answer.0 in
      let problem = post_error response answer.1 in
      let status = post_status response problem in
      let message : String = elim problem [ none ↦ response.error_msg | some why ↦ why ] in
      save_order_then w "persist order result: "
        (order_record w signal status response.order_id message)
      >=> failure_alert w signal problem
      >=> reconcile w signal.id response.order_id status
      >=> notify p dec w 15 signal status

  -- `executeSignal` from the answer of the order builder on; the router is asked with a data age of 0.
  unfoldable pub place_order :
      Printer F → Decoder F → SignalPorts F R → Signal F → Result (LiveOrder F × R) → Step F R
  place_order p dec w signal (err why) =
      fails (concat ("build order for signal " ∷ signal.id ∷ ": " ∷ why ∷ []))
  place_order p dec w signal (ok (order, request)) = λ a.
      let answer = submit a.live_router order (pos 0) in
      let b = record a { live_router = answer.0 } in
      if answer.1
      then (does (routed order request true)
            >=> does (posted request)
            >=> settled p dec w signal (w.post_order request))
          b
      else (does (routed order request false) >=> blocked p dec w signal answer.2) b

  -- `executeSignal`
  unfoldable pub execute_signal : Printer F → Decoder F → SignalPorts F R → Signal F → Step F R
  execute_signal p dec w signal a =
      if not a.cfg.has_live_router || not a.cfg.has_trader || not a.cfg.has_order_builder
      then nothing a
      else place_order p dec w signal (w.order_builder signal) a
