-- ===== src/Runtime/Telemetry/Defs.antt =====
-- The telemetry and the alert manager. The clock is an argument; `int64` counters wrap around.
use polymarket_signal_autopi.Base.{
  nat_beq, code, ℕ, ◌-◌, ◌*◌, Bool, true, not, ◌||◌, String, Char, Option, none, some, List, [],
  ◌∷◌, ◌++◌, ℤ, pos, negsuc, ◌+ℤ◌, wrap64, leb_ℤ, ltb_ℤ, Time, Duration, is_zero, since, minute,
  GoMap, lookup, insert, read, length, take, drop, ltb, ◌==◌, text_eq, if◌then◌else◌,
}
use polymarket_signal_autopi.Text.{Runes, lower_trimmed, trim_space, map_runes}
use polymarket_signal_autopi.Runtime.Anomaly.Defs.{AnomalyEvent, normalize_anomaly_severity}

pub record AutoPilotTelemetry (F : Type 0) : Type 0 where
  pub started_at : Time
  -- the source keeps its Unix seconds
  pub last_update : Time
  pub raw_events : ℤ
  pub signals : ℤ
  pub stream_errors : ℤ
  pub nonce_allocations : ℤ
  pub orders : GoMap String ℤ
  pub reconcile : GoMap String ℤ
  pub pricing : GoMap String ℤ
  pub anomalies : GoMap String ℤ
  pub anomaly_recent : List (AnomalyEvent F)

-- `atomic.Int64.Add(1)` and `m[k]++`
abbrev pub increment : ℤ → ℤ
increment n = wrap64 (n +ℤ pos 1)

-- One character of the two calls of `strings.ReplaceAll`.
abbrev pub label_char : Char → Char
label_char c = if nat_beq (code c) b' ' || nat_beq (code c) b'-' then "_" else c

-- `normalizeMetricLabel`
unfoldable pub normalize_metric_label : ⦃u : Runes⦄ → String → String
unfolding map_runes
normalize_metric_label raw =
    let label = lower_trimmed raw in if label == "" then "unknown" else map_runes label_char label

-- `incrementMapCounter`
unfoldable pub increment_map_counter : ⦃u : Runes⦄ → GoMap String ℤ → String → GoMap String ℤ
increment_map_counter target raw =
    let status = normalize_metric_label raw in
    insert status (increment (read (pos 0) status target)) target

-- The limit of `AnomalyPanelSnapshot`.
abbrev pub panel_limit : ℤ → ℕ
panel_limit limit =
    let positive = if leb_ℤ limit (pos 0) then pos 20 else limit in
    elim positive [ pos n ↦ if ltb 200 n then 200 else n | negsuc n ↦ 0 ]

module _ {F : Type 0} where
  -- `NewAutoPilotTelemetry`
  abbrev pub new_auto_pilot_telemetry : Time → AutoPilotTelemetry F
  new_auto_pilot_telemetry now = record {
    started_at = now;
    last_update = now;
    raw_events = pos 0;
    signals = pos 0;
    stream_errors = pos 0;
    nonce_allocations = pos 0;
    orders = [];
    reconcile = [];
    pricing = [];
    anomalies = ("low", pos 0) ∷ ("medium", pos 0) ∷ ("high", pos 0) ∷ [];
    anomaly_recent = [];
  }

  -- `RecordRawEvent`, `RecordSignal`, `RecordStreamError` and `RecordNonceAllocation`
  abbrev pub record_raw_event : AutoPilotTelemetry F → Time → AutoPilotTelemetry F
  record_raw_event t now = record t { raw_events = increment t.raw_events; last_update = now }

  abbrev pub record_signal : AutoPilotTelemetry F → Time → AutoPilotTelemetry F
  record_signal t now = record t { signals = increment t.signals; last_update = now }

  abbrev pub record_stream_error : AutoPilotTelemetry F → Time → AutoPilotTelemetry F
  record_stream_error t now = record t {
    stream_errors = increment t.stream_errors;
    last_update = now;
  }

  abbrev pub record_nonce_allocation : AutoPilotTelemetry F → Time → AutoPilotTelemetry F
  record_nonce_allocation t now = record t {
    nonce_allocations = increment t.nonce_allocations;
    last_update = now;
  }

  module _ ⦃u : Runes⦄ where
    -- `RecordOrderStatus`, `RecordReconcileStatus` and `RecordPricingMode`
    abbrev pub record_order_status : AutoPilotTelemetry F → String → Time → AutoPilotTelemetry F
    record_order_status t status now = record t {
      orders = increment_map_counter t.orders status;
      last_update = now;
    }

    abbrev pub record_reconcile_status : AutoPilotTelemetry F → String → Time → AutoPilotTelemetry F
    record_reconcile_status t status now = record t {
      reconcile = increment_map_counter t.reconcile status;
      last_update = now;
    }

    abbrev pub record_pricing_mode : AutoPilotTelemetry F → String → Time → AutoPilotTelemetry F
    record_pricing_mode t mode now = record t {
      pricing = increment_map_counter t.pricing mode;
      last_update = now;
    }

    -- The event as `RecordAnomaly` keeps it.
    unfoldable pub kept_event : AnomalyEvent F → Time → AnomalyEvent F
    kept_event event now =
        let severity = normalize_anomaly_severity event.severity in
        let stage = trim_space event.stage in
        record event {
          created_at = if is_zero event.created_at then now else event.created_at;
          severity = if severity == "" then "low" else severity;
          stage = if stage == "" then "signal" else stage;
        }

    -- `RecordAnomaly`
    unfoldable pub record_anomaly :
        AutoPilotTelemetry F → AnomalyEvent F → Time → AutoPilotTelemetry F
    record_anomaly t event now =
        let kept = kept_event event now in
        let recent = t.anomaly_recent ++ (kept ∷ []) in
        record t {
          anomalies =
              insert kept.severity (increment (read (pos 0) kept.severity t.anomalies)) t.anomalies;
          anomaly_recent =
              if ltb 200 (length recent) then drop (length recent - 200) recent else recent;
          last_update = now;
        }

  -- The loop of `AnomalyPanelSnapshot`, which goes through the events from the last one on.
  abbrev pub reversed_onto : List (AnomalyEvent F) → List (AnomalyEvent F) → List (AnomalyEvent F)
  reversed_onto [] acc = acc
  reversed_onto (e ∷ es) acc = reversed_onto es (e ∷ acc)

  -- `AnomalyPanelSnapshot`: the counts of the three severities, and the recent events, without
  -- the time at which it is generated.
  unfoldable pub anomaly_panel_snapshot :
      AutoPilotTelemetry F → ℤ → (ℤ × ℤ × ℤ) × List (AnomalyEvent F)
  anomaly_panel_snapshot t limit = (
    (
      read (pos 0) "low" t.anomalies,
      read (pos 0) "medium" t.anomalies,
      read (pos 0) "high" t.anomalies,
    ),
    take (panel_limit limit) (reversed_onto t.anomaly_recent []),
  )

-- `parsePanelLimit`; `atoi` is `strconv.Atoi`.
unfoldable pub parse_panel_limit : (String → Option ℤ) → String → ℤ → ℤ
parse_panel_limit atoi raw fallback =
    let value = trim_space raw in
    if value == "" then fallback else elim (atoi value) [
      | none ↦ fallback
      | some parsed ↦
          if leb_ℤ parsed (pos 0)
          then fallback
          else if ltb_ℤ (pos 200) parsed
          then pos 200
          else parsed
    ]

pub record OpsAlertManager : Type 0 where
  pub cooldown : Duration
  pub last_sent : GoMap String Time

-- `NewOpsAlertManager`, where there is a notifier
abbrev pub new_ops_alert_manager : Duration → OpsAlertManager
new_ops_alert_manager cooldown = record {
  cooldown = if leb_ℤ cooldown (pos 0) then pos (2 * minute) else cooldown;
  last_sent = [];
}

-- The first of the two sections of `Emit` that hold the mutex: whether the notifier is called.
unfoldable pub emits : OpsAlertManager → String → Time → Bool
emits m rate_key now = elim (lookup rate_key m.last_sent) [
  | none ↦ true
  | some last ↦ not (ltb_ℤ (since now last) m.cooldown)
]

-- The second section: the time of an alert that was sent.
abbrev pub note_sent : OpsAlertManager → String → Time → OpsAlertManager
note_sent m rate_key now = record m { last_sent = insert rate_key now m.last_sent }

-- `Emit`, where no other call of it comes between its two sections, as is so for the worker, which calls it
-- from the one goroutine of its loop: the new state, and the alert that is handed to the notifier; `sends`
-- is whether that succeeds.
unfoldable pub emit :
    ⦃u : Runes⦄ → OpsAlertManager → String → Bool → Time → OpsAlertManager × Option String
unfolding emits
emit m key sends now =
    let rate_key = normalize_metric_label key in
    if not (emits m rate_key now)
    then (m, none)
    else if sends
    then (note_sent m rate_key now, some rate_key)
    else (m, some rate_key)
