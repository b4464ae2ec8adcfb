-- ===== src/Runtime/AutoPilot/Texts.antt =====
-- The texts of notifications and alerts. What `fmt` makes of a floating-point number, what `json.Marshal`
-- makes of a signal's metadata, and the bytes of a text are a parameter: a Go slice of a text may cut a
-- character.
use polymarket_signal_autopi.Base.{
  nat_beq, code, ℕ, ◌&&◌, ◌||◌, String, Char, Option, none, some, List, [], ◌∷◌, ◌++◌, GoMap,
  lookup, leb, ◌==◌, text_eq, if◌then◌else◌,
}
use polymarket_signal_autopi.Double.{Double, lt, nought, one}
use polymarket_signal_autopi.Text.{
  Runes, trim_space, lower_trimmed, to_upper, map_runes, has_prefix, contains, join,
}
use polymarket_signal_autopi.Text.Decimal.{concat}
use polymarket_signal_autopi.Values.{Value, float, int, text, other, Decoder}
use polymarket_signal_autopi.Strategy.RankShift.Defs.{Signal}
use polymarket_signal_autopi.Runtime.Anomaly.Defs.{
  AnomalyEvent, normalize_anomaly_severity, read_signal_spread, signal_severity_from_metadata,
}

pub record Printer (F : Type 0) : Type 0 where
  -- the verb `%.Nf`
  pub fixed : ℕ → F → String
  -- `len(s)`, `s[:n]` and `s[len(s)-n:]`
  pub byte_length : String → ℕ
  pub first_bytes : ℕ → String → String
  pub last_bytes : ℕ → String → String
  -- `mustJSON` of a signal's metadata, which is no nil value
  pub marshal : GoMap String (Value F) → List ℕ

-- `humanizeStage`
unfoldable pub humanize_stage : ⦃u : Runes⦄ → String → String
humanize_stage stage =
    let name = lower_trimmed stage in
    let trimmed = trim_space stage in
    if name == "signal"
    then "新信号"
    else if name == "blocked"
    then "风控拦截"
    else if name == "failed"
    then "执行失败"
    else if name == "submitted" || name == "live" || name == "matched" || name == "filled"
    then "执行跟踪"
    else if name == "reconcile_pending"
    then "待对账确认"
    else if trimmed == ""
    then "状态更新"
    else trimmed

-- `humanizeAction`
unfoldable pub humanize_action : ⦃u : Runes⦄ → String → String
humanize_action action =
    let trimmed = trim_space action in
    let name = to_upper trimmed in
    if name == "LONG" || name == "BUY"
    then "看多"
    else if name == "SHORT" || name == "SELL"
    then "看空"
    else if trimmed == ""
    then "未知"
    else trimmed

-- One character of `strings.ReplaceAll(s, "_", " ")`.
abbrev pub space_char : Char → Char
space_char c = if nat_beq (code c) b'_' then " " else c

-- `humanizeReason`
unfoldable pub humanize_reason : String → String
unfolding map_runes
humanize_reason reason =
    let name = trim_space reason in
    if name == "rank_flip_polymarket_leads_news_lag"
    then "盘口领先关系发生反转（Polymarket 领先）"
    else if name == ""
    then "未知原因"
    else map_runes space_char name

-- `humanizeSeverity`
unfoldable pub humanize_severity : ⦃u : Runes⦄ → String → String
humanize_severity severity =
    let name = normalize_anomaly_severity severity in
    if name == "high"
    then "高"
    else if name == "medium"
    then "中"
    else if name == "low"
    then "低"
    else "未知"

-- `formatMarketStreamErrorAlert`; `none` is the nil error.
unfoldable pub format_market_stream_error_alert : ⦃u : Runes⦄ → Option String → String
format_market_stream_error_alert none = "⚠\u{fe0f} 行情数据流出现异常，系统正在自动重连。"
format_market_stream_error_alert (some why) =
    let lower = lower_trimmed why in
    if contains lower "decode market ws update"
    then concat (
        "⚠\u{fe0f} 行情提醒\n" ∷ "行情数据格式出现变化，系统已自动跳过异常片段并继续运行。" ∷ "\n说明：" ∷ "无需手动处理；如果频繁出现，请升级到最新版本。"
        ∷ [])
    else if contains lower "dial market ws"
    then concat ("⚠\u{fe0f} 行情提醒\n" ∷ "行情连接暂时中断，系统正在自动重连。" ∷ "\n说明：" ∷ "通常是网络抖动导致，恢复后会继续接收行情。" ∷ [])
    else if contains lower "read market ws"
    then concat ("⚠\u{fe0f} 行情提醒\n" ∷ "行情连接读取中断，系统正在自动重连。" ∷ "\n说明：" ∷ "短暂断线后通常会自动恢复。" ∷ [])
    else concat
        ("⚠\u{fe0f} 行情提醒\n" ∷ "行情数据流出现异常，系统正在自动重连。" ∷ "\n说明：" ∷ "连接恢复后会继续推送信号，请稍后再看一眼。" ∷ [])

module _ {F : Type 0} ⦃d : Double F⦄ where
  -- `clampConfidencePercent`
  unfoldable pub clamp_confidence_percent : F → F
  clamp_confidence_percent confidence =
      let raised = if lt confidence nought then nought else confidence in
      let capped = if lt one raised then one else raised in d.mul capped (d.lit 100 1)

-- The line with the market's link, if there is one.
abbrev pub link_lines : String → List String
link_lines url = if url == "" then [] else concat ("查看市场：" ∷ url ∷ []) ∷ []

module _ {F : Type 0} where
  -- One round of the loop of `readSignalMarketURL`.
  unfoldable pub link_at : GoMap String (Value F) → String → Option String
  unfolding has_prefix
  link_at metadata key = elim (lookup key metadata) [
    | none ↦ none
    | some value ↦ elim value [
      | text raw ↦
          let link = trim_space raw in
          if has_prefix link "https://" || has_prefix link "http://" then some link else none
      | float x ↦ none
      | int n ↦ none
      | other ↦ none
    ]
  ]

  unfoldable pub first_link : GoMap String (Value F) → List String → String
  unfolding link_at
  first_link metadata [] = ""
  first_link metadata (key ∷ keys) =
      let rest = first_link metadata keys in
      elim (link_at metadata key) [ some link ↦ link | none ↦ rest ]

  -- `readSignalMarketURL`
  unfoldable pub read_signal_market_url : GoMap String (Value F) → String
  unfolding first_link
  read_signal_market_url metadata =
      first_link metadata ("market_url" ∷ "marketUrl" ∷ "event_url" ∷ "eventUrl" ∷ "url" ∷ [])

  module _ (p : Printer F) where
    -- `shortenAssetID`
    unfoldable pub shorten_asset_id : String → String
    shorten_asset_id asset_id =
        let trimmed = trim_space asset_id in
        if trimmed == ""
        then "未知标的"
        else if leb (p.byte_length trimmed) 18
        then trimmed
        else concat (p.first_bytes 10 trimmed ∷ "..." ∷ p.last_bytes 8 trimmed ∷ [])

    -- `formatAssetDisplay`
    unfoldable pub format_asset_display : String → String → String
    unfolding shorten_asset_id
    format_asset_display label asset_id =
        let trimmed_label = trim_space label in
        let trimmed_id = trim_space asset_id in
        if trimmed_label == "" && trimmed_id == ""
        then "未知标的"
        else if trimmed_label == "" || trimmed_label == trimmed_id
        then shorten_asset_id trimmed_id
        else if trimmed_id == ""
        then trimmed_label
        else concat (trimmed_label ∷ " (" ∷ shorten_asset_id trimmed_id ∷ ")" ∷ [])

module _ {F : Type 0} ⦃d : Double F⦄ ⦃u : Runes⦄ (p : Printer F) where
  -- `formatSignalNotificationText`
  unfoldable pub format_signal_notification_text : Decoder F → String → Signal F → String
  unfolding format_asset_display
  format_signal_notification_text dec stage signal = join "\n" (
      (concat ("📈 信号提醒（" ∷ humanize_stage stage ∷ "）" ∷ [])
        ∷ concat ("方向：" ∷ humanize_action signal.action ∷ [])
        ∷ concat ("标的：" ∷ format_asset_display p signal.asset_label signal.asset_id ∷ [])
        ∷ concat ("触发原因：" ∷ humanize_reason signal.reason ∷ [])
        ∷ concat ("风险等级：" ∷ humanize_severity (signal_severity_from_metadata signal) ∷ [])
        ∷ concat ("置信度：" ∷ p.fixed 2 (clamp_confidence_percent signal.confidence) ∷ "%" ∷ [])
        ∷ concat ("价差幅度：" ∷ p.fixed 4 (read_signal_spread dec signal.metadata) ∷ [])
        ∷ [])
      ++ (link_lines (read_signal_market_url signal.metadata) ++ ("建议：该信号仅供参考，请结合仓位与风控决策。" ∷ [])))

  -- `formatAnomalyAlertText`
  unfoldable pub format_anomaly_alert_text : Signal F → AnomalyEvent F → String
  unfolding format_asset_display
  format_anomaly_alert_text signal anomaly =
      let label = format_asset_display p anomaly.asset_label anomaly.asset_id in
      let shown =
        if label == "未知标的"
        then format_asset_display p signal.asset_label signal.asset_id
        else label in
      join "\n" (
        ("⚠\u{fe0f} 异常波动预警"
          ∷ concat ("等级：" ∷ humanize_severity anomaly.severity ∷ [])
          ∷ concat ("标的：" ∷ shown ∷ [])
          ∷ concat ("触发原因：" ∷ humanize_reason anomaly.reason ∷ [])
          ∷ concat ("当前价差：" ∷ p.fixed 4 anomaly.spread ∷ [])
          ∷ concat ("置信度：" ∷ p.fixed 2 (clamp_confidence_percent anomaly.confidence) ∷ "%" ∷ [])
          ∷ [])
        ++ (link_lines (read_signal_market_url signal.metadata) ++ ("建议：波动放大，注意仓位与止损。" ∷ [])))
