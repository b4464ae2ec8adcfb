-- ===== src/Runtime/AutoPilot/Loop.antt =====
-- The sweep over pending orders and the loop of `Run`.
use polymarket_signal_autopi.Base.{
  ℕ, ◌+◌, Bool, true, false, not, ◌||◌, String, Option, none, some, List, [], ◌∷◌, ℤ, Time,
  if◌then◌else◌, Result, ok, err,
}
use polymarket_signal_autopi.Double.{Double}
use polymarket_signal_autopi.Text.{Runes}
use polymarket_signal_autopi.Text.Decimal.{concat}
use polymarket_signal_autopi.Values.{Decoder}
use polymarket_signal_autopi.Strategy.RankShift.Defs.{MarketUpdate}
use polymarket_signal_autopi.Runtime.Telemetry.Defs.{record_reconcile_status, record_stream_error}
use polymarket_signal_autopi.Runtime.AutoPilot.Texts.{Printer, format_market_stream_error_alert}
use polymarket_signal_autopi.Runtime.AutoPilot.Defs.{
  SignalPorts, Step, quietly, nothing, ◌>=>◌, alert,
}
use polymarket_signal_autopi.Runtime.AutoPilot.Execute.{reconcile}
use polymarket_signal_autopi.Runtime.AutoPilot.Handle.{UpdatePorts, handle_update}

pub record PendingOrderRecord : Type 0 where
  pub signal_id : String
  pub order_id : String
  pub status : String

-- What the world answers during a sweep; the pending orders are counted from 0.
pub record SweepPorts (F R : Type 0) : Type 0 where
  pub now : Time
  pub alert_sends : String → Bool
  pub pending : ℤ → Result (List PendingOrderRecord)
  pub orders : ℕ → SignalPorts F R

-- What the `select` of `Run` can choose. A stream error may be nil, and comes with whether the context
-- has an error by then.
pub data Event (F R : Type 0) : Type 0 where
  cancelled : Event F R
  ticked : SweepPorts F R → Event F R
  errs_closed : Event F R
  stream_failed : Option String → Bool → Time → (String → Bool) → Event F R
  updates_closed : Event F R
  updated : UpdatePorts F R → MarketUpdate → Event F R

-- The refusals of `Run` at its start.
unfoldable pub run_error : Bool → Bool → Bool → Option String
run_error has_stream has_store has_strategy =
    if not has_stream
    then some "autopilot stream is required"
    else if not has_store
    then some "autopilot store is required"
    else if not has_strategy
    then some "autopilot strategy is required"
    else none

module _ {F R : Type 0} ⦃d : Double F⦄ ⦃u : Runes⦄ where
  unfoldable pub reconcile_entries : (ℕ → SignalPorts F R) → ℕ → List PendingOrderRecord → Step F R
  reconcile_entries w n [] = nothing
  reconcile_entries w n (entry ∷ entries) =
      reconcile (w n) entry.signal_id entry.order_id entry.status
      >=> reconcile_entries w (n + 1) entries

  -- `reconcilePendingOrders` from the answer of the store on.
  unfoldable pub reconcile_listed : SweepPorts F R → Result (List PendingOrderRecord) → Step F R
  reconcile_listed w (ok entries) = reconcile_entries w.orders 0 entries
  reconcile_listed w (err why) =
      quietly (λ a. record a { telemetry = record_reconcile_status a.telemetry "scan_error" w.now })
      >=> alert w.alert_sends w.now "order_reconcile_scan_error"
          (concat ("⚠\u{fe0f} order reconcile scan failed\nerror=" ∷ why ∷ []))

  -- `reconcilePendingOrders`
  unfoldable pub reconcile_pending_orders : SweepPorts F R → Step F R
  reconcile_pending_orders w a =
      if not a.cfg.scans_orders || not a.cfg.reads_orders
      then nothing a
      else reconcile_listed w (w.pending a.cfg.reconcile_sweep_limit) a

  -- An error of the stream.
  unfoldable pub report_stream_error : Option String → Bool → Time → (String → Bool) → Step F R
  report_stream_error none over now sends = nothing
  report_stream_error (some why) over now sends =
      if over
      then nothing
      else quietly (λ a. record a { telemetry = record_stream_error a.telemetry now })
        >=> alert sends now "market_stream_error" (format_market_stream_error_alert (some why))

  -- The condition of the loop of `Run`: one of the channels, of updates and of errors, is not nil.
  unfoldable pub while_open : Bool → Bool → Step F R → Step F R
  while_open false false f = nothing
  while_open false true f = f
  while_open true errs f = f

  -- The loop of `Run` over what its `select` chooses. A closed channel is set to nil, which is chosen no
  -- more.
  unfoldable pub run_loop : Printer F → Decoder F → Bool → Bool → List (Event F R) → Step F R
  run_loop p dec updates errs [] = nothing
  run_loop p dec updates errs (cancelled ∷ events) = nothing
  run_loop p dec updates errs (ticked w ∷ events) =
      while_open updates errs (reconcile_pending_orders w >=> run_loop p dec updates errs events)
  run_loop p dec updates errs (errs_closed ∷ events) =
      while_open updates errs (run_loop p dec updates false events)
  run_loop p dec updates errs (stream_failed why over now sends ∷ events) =
      while_open updates errs
        (report_stream_error why over now sends >=> run_loop p dec updates errs events)
  run_loop p dec updates errs (updates_closed ∷ events) =
      while_open updates errs (run_loop p dec false errs events)
  run_loop p dec updates errs (updated w update ∷ events) =
      while_open updates errs (handle_update p dec w update >=> run_loop p dec updates errs events)
