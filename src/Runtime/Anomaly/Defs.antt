-- ===== src/Runtime/Anomaly/Defs.antt =====
-- Severities, anomaly events, and the numbers that a signal's metadata carries. A severity is a Go string,
-- so any text can stand for one; the clock is an argument.
use polymarket_signal_autopi.Base.{
  ℕ, Bool, not, ◌&&◌, ◌||◌, String, Option, none, some, Time, is_zero, leb, GoMap, lookup, insert,
  ◌==◌, text_eq, if◌then◌else◌,
}
use polymarket_signal_autopi.Double.{Double, lt, nought}
use polymarket_signal_autopi.Text.{Runes, lower_trimmed, trim_space}
use polymarket_signal_autopi.Values.{Value, float, int, text, other, Decoder, of_int, is_finite}
use polymarket_signal_autopi.Strategy.RankShift.Defs.{Signal}

pub record AnomalyEvent (F : Type 0) : Type 0 where
  pub severity : String
  pub asset_id : String
  pub asset_label : String
  pub reason : String
  pub action : String
  pub stage : String
  pub confidence : F
  pub spread : F
  pub created_at : Time

abbrev pub is_known_severity : String → Bool
is_known_severity s = s == "low" || s == "medium" || s == "high"

module _ ⦃u : Runes⦄ where
  -- `normalizeAnomalySeverity`
  unfoldable pub normalize_anomaly_severity : String → String
  normalize_anomaly_severity raw =
      let value = lower_trimmed raw in if is_known_severity value then value else ""

  -- `ParseAnomalySeverity`
  unfoldable pub parse_anomaly_severity : String → String → String
  parse_anomaly_severity raw fallback =
      let severity = normalize_anomaly_severity raw in
      if severity == "" then normalize_anomaly_severity fallback else severity

  -- `anomalySeverityRank`
  unfoldable pub anomaly_severity_rank : String → ℕ
  anomaly_severity_rank severity =
      let value = normalize_anomaly_severity severity in
      if value == "high"
      then 3
      else if value == "medium"
      then 2
      else if value == "low"
      then 1
      else 0

  -- `allowsAnomalyAlert`
  unfoldable pub allows_anomaly_alert : String → String → Bool
  allows_anomaly_alert min_severity current =
      leb (anomaly_severity_rank min_severity) (anomaly_severity_rank current)

module _ {F : Type 0} ⦃d : Double F⦄ where
  -- `isFinitePositive`
  unfoldable pub is_finite_positive : F → Bool
  is_finite_positive value = not (d.is_nan value) && not (d.is_inf value) && lt nought value

  -- `parseFloatString`: `none` is its error.
  unfoldable pub parse_float_string : Decoder F → String → Option F
  unfolding is_finite
  parse_float_string dec raw =
      let value = trim_space raw in
      if value == "" then none else elim (dec.parse_float value) [
        | none ↦ none
        | some parsed ↦ if is_finite parsed then some parsed else none
      ]

  -- `parseNumericAny`; every integer type of Go is a case with the same conversion.
  unfoldable pub parse_numeric_any : Decoder F → Value F → Option F
  unfolding parse_float_string of_int is_finite
  parse_numeric_any dec (float x) = if is_finite x then some x else none
  parse_numeric_any dec (int n) = some (of_int n)
  parse_numeric_any dec (text s) = parse_float_string dec s
  parse_numeric_any dec other = none

  -- One round of the loop of `readSignalSpread`.
  unfoldable pub spread_at : Decoder F → GoMap String (Value F) → String → Option F
  spread_at dec metadata key = elim (lookup key metadata) [
    | none ↦ none
    | some value ↦ elim (parse_numeric_any dec value) [
      | none ↦ none
      | some parsed ↦ if is_finite_positive parsed then some parsed else none
    ]
  ]

  -- `readSignalSpread`
  unfoldable pub read_signal_spread : Decoder F → GoMap String (Value F) → F
  read_signal_spread dec metadata = elim (spread_at dec metadata "spread") [
    | some x ↦ x
    | none ↦ elim (spread_at dec metadata "price_spread") [
      | some x ↦ x
      | none ↦ elim (spread_at dec metadata "flip_spread") [ some x ↦ x | none ↦ nought ]
    ]
  ]

  -- The score that a signal is classified by: its spread, if that is positive, or its confidence.
  unfoldable pub anomaly_score : Decoder F → Signal F → F
  anomaly_score dec signal =
      let spread = read_signal_spread dec signal.metadata in
      if is_finite_positive spread then spread else signal.confidence

  unfoldable pub severity_of : F → F → F → String
  severity_of medium_threshold high_threshold score =
      if d.le high_threshold score
      then "high"
      else if d.le medium_threshold score
      then "medium"
      else "low"

  -- `classifySignalAnomaly`
  unfoldable pub classify_signal_anomaly : Decoder F → Signal F → F → F → Time → AnomalyEvent F
  classify_signal_anomaly dec signal medium_threshold high_threshold now = record {
    severity = severity_of medium_threshold high_threshold (anomaly_score dec signal);
    asset_id = trim_space signal.asset_id;
    asset_label = trim_space signal.asset_label;
    reason = trim_space signal.reason;
    action = trim_space signal.action;
    stage = "signal";
    confidence = signal.confidence;
    spread = read_signal_spread dec signal.metadata;
    created_at = if is_zero signal.created_at then now else signal.created_at;
  }

  -- `withSignalSeverityMetadata`; the copy of the map leaves the signal's own map as it is.
  unfoldable pub with_signal_severity_metadata : Signal F → AnomalyEvent F → Signal F
  with_signal_severity_metadata signal anomaly =
      let metadata = insert "severity" (text anomaly.severity) signal.metadata in
      record signal {
        metadata =
            if is_finite_positive anomaly.spread
            then insert "spread" (float anomaly.spread) metadata
            else metadata;
        created_at = if is_zero signal.created_at then anomaly.created_at else signal.created_at;
      }

  -- `signalSeverityFromMetadata`
  unfoldable pub signal_severity_from_metadata : ⦃u : Runes⦄ → Signal F → String
  signal_severity_from_metadata signal = elim (lookup "severity" signal.metadata) [
    | none ↦ "low"
    | some value ↦ elim value [
      | text raw ↦
          let severity = parse_anomaly_severity raw "low" in
          if normalize_anomaly_severity severity == "" then "low" else severity
      | float x ↦ "low"
      | int n ↦ "low"
      | other ↦ "low"
    ]
  ]
