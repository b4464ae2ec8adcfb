-- ===== src/Runtime/AutoPilot/Handle.antt =====
-- What the worker does with an update: `handleUpdate`.
use polymarket_signal_autopi.Base.{
  ℕ, ◌+◌, String, Option, List, [], ◌∷◌, pos, Time, is_zero, text_eq, if◌then◌else◌,
}
use polymarket_signal_autopi.Double.{Double}
use polymarket_signal_autopi.Text.{Runes}
use polymarket_signal_autopi.Text.Decimal.{concat, show_int}
use polymarket_signal_autopi.Values.{Decoder}
use polymarket_signal_autopi.Ingestion.RawWriter.{RawEvent}
use polymarket_signal_autopi.Strategy.RankShift.Defs.{MarketUpdate, Signal, on_update, unix_nano}
use polymarket_signal_autopi.Runtime.Anomaly.Defs.{
  AnomalyEvent, classify_signal_anomaly, with_signal_severity_metadata, allows_anomaly_alert,
}
use polymarket_signal_autopi.Runtime.Telemetry.Defs.{
  record_raw_event, record_signal, record_anomaly,
}
use polymarket_signal_autopi.Runtime.AutoPilot.Texts.{Printer, format_anomaly_alert_text}
use polymarket_signal_autopi.Runtime.AutoPilot.Defs.{
  SignalRecord, SignalPorts, saved_signal, wrote, Step, quietly, nothing, ◌>=>◌, persist, alert,
}
use polymarket_signal_autopi.Runtime.AutoPilot.Execute.{notify, execute_signal}

-- What the world answers while one update is handled; its signals are counted from 0.
pub record UpdatePorts (F R : Type 0) : Type 0 where
  pub now : Time
  pub later : Time
  pub strategy_now : Time
  pub write : RawEvent → Option String
  pub signals : ℕ → SignalPorts F R

abbrev pub signal_record : {F : Type 0} → Printer F → Signal F → Time → SignalRecord F
signal_record p signal now = record {
  id = signal.id;
  asset_id = signal.asset_id;
  direction = signal.action;
  confidence = signal.confidence;
  reason = signal.reason;
  payload = p.marshal signal.metadata;
  created_at = if is_zero signal.created_at then now else signal.created_at;
}

abbrev pub raw_event : MarketUpdate → Time → RawEvent
raw_event update now = record {
  id = concat (update.asset_id ∷ "-" ∷ update.kind ∷ "-" ∷ show_int (unix_nano now) ∷ []);
  sequence = pos 0;
  source = "polymarket-ws";
  payload = update.payload;
  source_ts = now;
  ingest_ts = now;
  normalized_ts = now;
}

module _ {F R : Type 0} ⦃d : Double F⦄ ⦃u : Runes⦄ where
  -- The anomaly of a signal: its count and, where it is severe enough, its alert.
  unfoldable pub report_anomaly : Printer F → SignalPorts F R → Signal F → AnomalyEvent F → Step F R
  report_anomaly p w signal anomaly =
      quietly (λ a. record a { telemetry = record_anomaly a.telemetry anomaly (w.clock 1) })
      >=> (λ a.
          if allows_anomaly_alert a.cfg.anomaly_alert_min_severity anomaly.severity
          then alert w.alert_sends (w.clock 2) (concat ("anomaly_" ∷ anomaly.severity ∷ []))
              (format_anomaly_alert_text p signal anomaly) a
          else nothing a)

  -- A round of the loop of `handleUpdate`, from the signal with its severity on.
  unfoldable pub act_on : Printer F → Decoder F → SignalPorts F R → Time → Signal F → Step F R
  act_on p dec w now signal =
      quietly (λ a. record a { telemetry = record_signal a.telemetry (w.clock 3) })
      >=> persist "persist signal: " (saved_signal (signal_record p signal now))
          (w.save_signal (signal_record p signal now))
      >=> notify p dec w 4 signal "signal"
      >=> (λ a. if a.cfg.auto_execute then execute_signal p dec w signal a else nothing a)

  -- A round of the loop of `handleUpdate`.
  unfoldable pub handle_signal :
      Printer F → Decoder F → SignalPorts F R → Time → Signal F → Step F R
  handle_signal p dec w now signal a =
      let anomaly =
        classify_signal_anomaly dec signal a.cfg.anomaly_severity_medium a.cfg.anomaly_severity_high
          (w.clock 0) in
      let marked = with_signal_severity_metadata signal anomaly in
      (report_anomaly p w marked anomaly >=> act_on p dec w now marked) a

  unfoldable pub handle_signals :
      Printer F → Decoder F → (ℕ → SignalPorts F R) → ℕ → Time → List (Signal F) → Step F R
  handle_signals p dec w n now [] = nothing
  handle_signals p dec w n now (signal ∷ signals) =
      handle_signal p dec (w n) now signal >=> handle_signals p dec w (n + 1) now signals

  -- `handleUpdate`
  unfoldable pub handle_update : Printer F → Decoder F → UpdatePorts F R → MarketUpdate → Step F R
  handle_update p dec w update =
      persist "persist raw update: " (wrote (raw_event update w.now))
        (w.write (raw_event update w.now))
      >=> quietly (λ a. record a { telemetry = record_raw_event a.telemetry w.later })
      >=> (λ a.
          let r = on_update dec a.strategy update w.strategy_now in
          handle_signals p dec w.signals 0 w.now r.1 (record a { strategy = r.0 }))
