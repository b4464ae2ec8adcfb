-- ===== src/Runtime/AutoPilot/Walk/Run.antt =====
-- The principle of induction carried from the order of a signal to updates, sweeps and the loop of `Run`.
use polymarket_signal_autopi.Base.{
  refl, ℕ, ◌+◌, Bool, true, false, not, ◌||◌, String, Option, none, some, List, [], ◌∷◌, Time,
  Result, ok, err,
}
use polymarket_signal_autopi.Double.{Double}
use polymarket_signal_autopi.Text.{Runes}
use polymarket_signal_autopi.Values.{Decoder}
use polymarket_signal_autopi.Strategy.RankShift.Defs.{MarketUpdate, Signal, on_update}
use polymarket_signal_autopi.Ingestion.RawWriter.{RawEvent}
use polymarket_signal_autopi.Runtime.Anomaly.Defs.{AnomalyEvent, allows_anomaly_alert}
use polymarket_signal_autopi.Runtime.AutoPilot.Texts.{Printer}
use polymarket_signal_autopi.Runtime.AutoPilot.Defs.{AutoPilot, Action, wrote, Step, SignalPorts}
use polymarket_signal_autopi.Runtime.AutoPilot.Handle.{
  UpdatePorts, report_anomaly, act_on, handle_signal, handle_signals, handle_update,
}
use polymarket_signal_autopi.Runtime.AutoPilot.Loop.{
  PendingOrderRecord, SweepPorts, Event, cancelled, ticked, errs_closed, stream_failed,
  updates_closed, updated, reconcile_entries, reconcile_listed, reconcile_pending_orders,
  report_stream_error, run_loop, while_open,
}
use polymarket_signal_autopi.Runtime.AutoPilot.Walk.{
  IsWalk, Walks, if-Goes, stays-Goes, and_then-Walks, nothing-Walks, counts-Walks, persist-Walks,
  alert-Walks, notify-Walks, reconcile-Walks, execute_signal-Walks,
}

module _ {F R : Type 0} ⦃d : Double F⦄ ⦃u : Runes⦄
    {P : AutoPilot F → List (Action F R) → AutoPilot F → Type 0} (walk : IsWalk P) (p : Printer F)
    (dec : Decoder F) where
  report_anomaly-Walks :
      (w : SignalPorts F R) (signal : Signal F) (anomaly : AnomalyEvent F)
      → Walks P (report_anomaly p w signal anomaly)
  unfolding report_anomaly
  report_anomaly-Walks w signal anomaly = and_then-Walks walk (counts-Walks walk _) (record {
    walks = λ a.
        if-Goes walk (allows_anomaly_alert a.cfg.anomaly_alert_min_severity anomaly.severity)
          (λ h. (alert-Walks walk _ _ _ _).walks a) (λ h. stays-Goes walk a);
  })

  act_on-Walks :
      (w : SignalPorts F R) (now : Time) (signal : Signal F) → Walks P (act_on p dec w now signal)
  unfolding act_on
  act_on-Walks w now signal = and_then-Walks walk (counts-Walks walk _) (
      and_then-Walks walk (persist-Walks walk _ _ _ (λ a. walk.acts a _ refl refl)) (
        and_then-Walks walk (notify-Walks walk p dec w _ signal _) (record {
          walks = λ a.
              if-Goes walk a.cfg.auto_execute
                (λ h. (execute_signal-Walks walk p dec w signal).walks a) (λ h. stays-Goes walk a);
        })))

  handle_signal-Walks :
      (w : SignalPorts F R) (now : Time) (signal : Signal F)
      → Walks P (handle_signal p dec w now signal)
  unfolding handle_signal
  handle_signal-Walks w now signal = record {
    walks = λ a. (and_then-Walks walk (report_anomaly-Walks w _ _) (act_on-Walks w now _)).walks a;
  }

  pub handle_signals-Walks :
      (w : ℕ → SignalPorts F R) (n : ℕ) (now : Time) (signals : List (Signal F))
      → Walks P (handle_signals p dec w n now signals)
  unfolding handle_signals
  handle_signals-Walks w n now [] = nothing-Walks walk
  handle_signals-Walks w n now (signal ∷ signals) =
      and_then-Walks walk (handle_signal-Walks (w n) now signal)
        (handle_signals-Walks w (n + 1) now signals)

  reconcile_entries-Walks :
      (w : ℕ → SignalPorts F R) (n : ℕ) (entries : List PendingOrderRecord)
      → Walks P (reconcile_entries w n entries)
  unfolding reconcile_entries
  reconcile_entries-Walks w n [] = nothing-Walks walk
  reconcile_entries-Walks w n (entry ∷ entries) =
      and_then-Walks walk (reconcile-Walks walk (w n) _ _ _)
        (reconcile_entries-Walks w (n + 1) entries)

  reconcile_listed-Walks :
      (w : SweepPorts F R) (listed : Result (List PendingOrderRecord))
      → Walks P (reconcile_listed w listed)
  unfolding reconcile_listed
  reconcile_listed-Walks w (ok entries) = reconcile_entries-Walks w.orders 0 entries
  reconcile_listed-Walks w (err why) =
      and_then-Walks walk (counts-Walks walk _) (alert-Walks walk _ _ _ _)

  pub reconcile_pending_orders-Walks : (w : SweepPorts F R) → Walks P (reconcile_pending_orders w)
  unfolding reconcile_pending_orders
  reconcile_pending_orders-Walks w = record {
    walks = λ a.
        if-Goes walk (not a.cfg.scans_orders || not a.cfg.reads_orders) (λ h. stays-Goes walk a)
          (λ h. (reconcile_listed-Walks w (w.pending a.cfg.reconcile_sweep_limit)).walks a);
  }

  pub report_stream_error-Walks :
      (why : Option String) (over : Bool) (now : Time) (sends : String → Bool)
      → Walks P (report_stream_error why over now sends)
  unfolding report_stream_error
  report_stream_error-Walks none over now sends = nothing-Walks walk
  report_stream_error-Walks (some why) true now sends = nothing-Walks walk
  report_stream_error-Walks (some why) false now sends =
      and_then-Walks walk (counts-Walks walk _) (alert-Walks walk _ _ _ _)

  while_open-Walks :
      (updates errs : Bool) (f : Step F R) → Walks P f → Walks P (while_open updates errs f)
  unfolding while_open
  while_open-Walks false false f h = nothing-Walks walk
  while_open-Walks false true f h = h
  while_open-Walks true errs f h = h

  module _ (writes : (a : AutoPilot F) (event : RawEvent) → P a (wrote event ∷ []) a) where
    pub handle_update-Walks :
        (w : UpdatePorts F R) (update : MarketUpdate) → Walks P (handle_update p dec w update)
    unfolding handle_update
    handle_update-Walks w update =
        and_then-Walks walk (persist-Walks walk _ _ _ (λ a. writes a _)) (
          and_then-Walks walk (counts-Walks walk _) (record {
            walks = λ a. record {
              goes =
                  let r = on_update dec a.strategy update w.strategy_now in
                  walk.joins a _ _ [] _ (walk.turns a r.0)
                    ((handle_signals-Walks w.signals 0 w.now r.1).walks _).goes;
            };
          }))

    -- Whatever holds of each way in which the worker acts and carries over from one to the next holds of
    -- a run of its loop, whatever happens to it.
    pub run_loop-Walks :
        (updates errs : Bool) (events : List (Event F R))
        → Walks P (run_loop p dec updates errs events)
    unfolding run_loop
    run_loop-Walks updates errs [] = nothing-Walks walk
    run_loop-Walks updates errs (cancelled ∷ events) = nothing-Walks walk
    run_loop-Walks updates errs (ticked w ∷ events) = while_open-Walks updates errs _ (
        and_then-Walks walk (reconcile_pending_orders-Walks w) (run_loop-Walks updates errs events))
    run_loop-Walks updates errs (errs_closed ∷ events) =
        while_open-Walks updates errs _ (run_loop-Walks updates false events)
    run_loop-Walks updates errs (stream_failed why over now sends ∷ events) =
        while_open-Walks updates errs _ (
          and_then-Walks walk (report_stream_error-Walks why over now sends)
            (run_loop-Walks updates errs events))
    run_loop-Walks updates errs (updates_closed ∷ events) =
        while_open-Walks updates errs _ (run_loop-Walks false errs events)
    run_loop-Walks updates errs (updated w update ∷ events) =
        while_open-Walks updates errs _
          (and_then-Walks walk (handle_update-Walks w update) (run_loop-Walks updates errs events))
