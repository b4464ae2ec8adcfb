-- ===== src/Runtime/AutoPilot/Defs.antt =====
-- The worker's configuration, its state, and what it does with one update. An operation is a step: from a
-- state to a new one, with what it did in order and the error that it returns, if it does. What the
-- world answers is a record of functions: the order builder, the exchange and the notifier by what they
-- are given, the clock by the number of its reading.
use polymarket_signal_autopi.Base.{
  ℕ, ◌*◌, Bool, true, false, not, String, Option, none, some, List, [], ◌∷◌, ◌++◌, ℤ, pos, leb_ℤ,
  ltb_ℤ, Time, Duration, since, second, millisecond, minute, GoMap, lookup, insert, ◌==◌, text_eq,
  if◌then◌else◌, Result,
}
use polymarket_signal_autopi.Double.{Double, nought}
use polymarket_signal_autopi.Text.{Runes, trim_space, lower_trimmed, to_upper}
use polymarket_signal_autopi.Text.Decimal.{concat}
use polymarket_signal_autopi.Execution.LiveRouter.Defs.{LiveOrder, LiveRouter}
use polymarket_signal_autopi.Ingestion.RawWriter.{RawEvent}
use polymarket_signal_autopi.Strategy.RankShift.Defs.{Signal, RankShiftStrategy}
use polymarket_signal_autopi.Runtime.Anomaly.Defs.{
  normalize_anomaly_severity, signal_severity_from_metadata,
}
use polymarket_signal_autopi.Runtime.Telemetry.Defs.{AutoPilotTelemetry, OpsAlertManager, emit}
use polymarket_signal_autopi.Runtime.Reconcile.Defs.{OrderRecord, Effect, World, ReconcileConfig}

-- The Boolean fields tell which of the interfaces of the source's record are there, and what they can do.
pub record AutoPilotConfig (F : Type 0) : Type 0 where
  pub has_notifier : Bool
  pub has_live_router : Bool
  pub has_trader : Bool
  pub has_order_builder : Bool
  pub reads_orders : Bool
  pub scans_orders : Bool
  pub auto_execute : Bool
  pub reconcile : ReconcileConfig
  pub reconcile_sweep_interval : Duration
  pub reconcile_sweep_limit : ℤ
  pub anomaly_severity_medium : F
  pub anomaly_severity_high : F
  pub anomaly_alert_min_severity : String
  pub signal_notify_cooldown : Duration

pub record AutoPilot (F : Type 0) : Type 0 where
  pub cfg : AutoPilotConfig F
  pub live_router : LiveRouter F
  pub strategy : RankShiftStrategy F
  pub telemetry : AutoPilotTelemetry F
  pub ops_alerts : Option OpsAlertManager
  pub last_signal_notify : GoMap String Time

abbrev positive_or : Duration → Duration → Duration
positive_or value fallback = if leb_ℤ value (pos 0) then fallback else value

-- The defaults of `NewAutoPilot`.
unfoldable pub with_defaults :
    {F : Type 0} → ⦃d : Double F⦄ → ⦃u : Runes⦄ → AutoPilotConfig F → AutoPilotConfig F
with_defaults ⦃d = d⦄ cfg =
    let medium =
      if d.le cfg.anomaly_severity_medium nought
      then d.lit 8 100
      else cfg.anomaly_severity_medium in
    let standard = d.lit 15 100 in
    record cfg {
      reconcile = record {
        max_attempts = positive_or cfg.reconcile.max_attempts (pos 3);
        base_delay = positive_or cfg.reconcile.base_delay (pos (300 * millisecond));
        max_delay = positive_or cfg.reconcile.max_delay (pos (2 * second));
      };
      reconcile_sweep_interval = positive_or cfg.reconcile_sweep_interval (pos (15 * second));
      reconcile_sweep_limit = positive_or cfg.reconcile_sweep_limit (pos 50);
      anomaly_severity_medium = medium;
      anomaly_severity_high =
          if d.le cfg.anomaly_severity_high medium
          then (if d.le standard medium then d.add medium (d.lit 1 100) else standard)
          else cfg.anomaly_severity_high;
      anomaly_alert_min_severity =
          if normalize_anomaly_severity cfg.anomaly_alert_min_severity == ""
          then "medium"
          else cfg.anomaly_alert_min_severity;
      signal_notify_cooldown = positive_or cfg.signal_notify_cooldown (pos (2 * minute));
    }

pub record SignalRecord (F : Type 0) : Type 0 where
  pub id : String
  pub asset_id : String
  pub direction : String
  pub confidence : F
  pub reason : String
  pub payload : List ℕ
  pub created_at : Time

pub record NotificationRecord : Type 0 where
  pub id : String
  pub channel : String
  pub target : String
  pub message : String
  pub status : String
  pub error_msg : String
  pub created_at : Time

-- The fields of `polymarket.PostOrderResponse` that the worker reads.
pub record PostOrderResponse : Type 0 where
  pub success : Bool
  pub order_id : String
  pub status : String
  pub error_msg : String

-- What the world answers while one signal is handled. An error is its text; a request is only handed on.
pub record SignalPorts (F R : Type 0) : Type 0 where
  pub clock : ℕ → Time
  pub save_signal : SignalRecord F → Option String
  pub order_builder : Signal F → Result (LiveOrder F × R)
  pub post_order : R → PostOrderResponse × Option String
  pub save_order : OrderRecord → Option String
  pub send : String → String → Option String
  pub alert_sends : String → Bool
  pub polls : World

-- What the worker does, besides changing its state. The records are those handed to the store.
pub data Action (F R : Type 0) : Type 0 where
  wrote : RawEvent → Action F R
  saved_signal : SignalRecord F → Action F R
  -- an order offered to the router with its request, and whether the router accepted it
  routed : LiveOrder F → R → Bool → Action F R
  posted : R → Action F R
  saved_order : OrderRecord → Action F R
  reconciled : Effect → Action F R
  alert_sent : String → String → Action F R
  -- a message handed to the notifier: the stage, the signal, the text, and when it was let through
  notified : String → Signal F → String → Time → Action F R
  saved_notification : NotificationRecord → Action F R

pub record Outcome (F R : Type 0) : Type 0 where
  pub pilot : AutoPilot F
  pub actions : List (Action F R)
  pub error : Option String

abbrev pub Step : Type 0 → Type 0 → Type 0
Step F R = AutoPilot F → Outcome F R

module _ {F R : Type 0} where
  abbrev pub quietly : (AutoPilot F → AutoPilot F) → Step F R
  quietly f a = record { pilot = f a; actions = []; error = none }

  abbrev pub nothing : Step F R
  nothing a = record { pilot = a; actions = []; error = none }

  abbrev pub does : Action F R → Step F R
  does action a = record { pilot = a; actions = action ∷ []; error = none }

  abbrev pub fails : String → Step F R
  fails why a = record { pilot = a; actions = []; error = some why }

  -- One step and, unless it returned an error, another.
  unfoldable pub and_then : Step F R → Step F R → Step F R
  and_then f g a = elim (f a).error [
    | some why ↦ record { pilot = (f a).pilot; actions = (f a).actions; error = some why }
    | none ↦
        let rest = g (f a).pilot in
        record { pilot = rest.pilot; actions = (f a).actions ++ rest.actions; error = rest.error }
  ]

infixr 5 ◌>=>◌
abbrev pub ◌>=>◌ : {F R : Type 0} → Step F R → Step F R → Step F R
f >=> g = and_then f g

module _ {F R : Type 0} where
  -- What is handed to the store, and the return of the error that it gives, if it does.
  unfoldable pub persist : String → Action F R → Option String → Step F R
  persist what action answer =
      does action >=> elim answer [ none ↦ nothing | some why ↦ fails (concat (what ∷ why ∷ [])) ]

  module _ ⦃u : Runes⦄ where
    -- `OpsAlerts.Emit`, which does nothing where there is no manager.
    unfoldable pub alert : (String → Bool) → Time → String → String → Step F R
    alert sends now key message a = elim a.ops_alerts [
      | none ↦ nothing a
      | some manager ↦
          let r = emit manager key (sends key) now in
          record {
            pilot = record a { ops_alerts = some r.0 };
            actions = elim r.1 [ none ↦ [] | some rate_key ↦ alert_sent rate_key message ∷ [] ];
            error = none;
          }
    ]

module _ {F : Type 0} ⦃d : Double F⦄ ⦃u : Runes⦄ where
  -- The key under which `shouldSuppressSignalNotify` remembers a signal.
  unfoldable pub notify_key : Signal F → String
  notify_key signal = concat (
      "signal"
      ∷ "|"
      ∷ trim_space signal.asset_id
      ∷ "|"
      ∷ to_upper (trim_space signal.action)
      ∷ "|"
      ∷ trim_space signal.reason
      ∷ "|"
      ∷ signal_severity_from_metadata signal
      ∷ [])

  -- Whether the last notification under the key is less than the cooldown ago.
  unfoldable pub notified_lately : AutoPilot F → String → Time → Bool
  notified_lately a key now = elim (lookup key a.last_signal_notify) [
    | none ↦ false
    | some last ↦ ltb_ℤ (since now last) a.cfg.signal_notify_cooldown
  ]

  -- `shouldSuppressSignalNotify`: the new state, and whether the notification is suppressed.
  unfoldable pub should_suppress_signal_notify :
      AutoPilot F → String → Signal F → Time → AutoPilot F × Bool
  should_suppress_signal_notify a stage signal now =
      if not (lower_trimmed stage == "signal")
      then (a, false)
      else if leb_ℤ a.cfg.signal_notify_cooldown (pos 0)
      then (a, false)
      else if notified_lately a (notify_key signal) now
      then (a, true)
      else (
        record a { last_signal_notify = insert (notify_key signal) now a.last_signal_notify },
        false,
      )
