-- ===== src/Worker/Env.antt =====
-- The environment of the worker. What `strconv` and `time.ParseDuration` make of a text is a parameter, and
-- so is `url.QueryEscape`.
use polymarket_signal_autopi.Base.{
  Bool, not, String, Option, none, some, List, [], ◌∷◌, ℤ, pos, ◌*ℤ◌, wrap64, Duration, second,
  GoMap, insert, read, ◌==◌, text_eq, if◌then◌else◌, Result, ok, err,
}
use polymarket_signal_autopi.Text.{trim_space, split_on}
use polymarket_signal_autopi.Text.Decimal.{concat}

-- `os.Getenv`: a variable that is not set is empty.
abbrev pub Env : Type 0
Env = String → String

-- The errors of these functions are not read.
pub record Strconv (F : Type 0) : Type 0 where
  pub parse_bool : String → Option Bool
  pub parse_float : String → Option F
  pub parse_int : String → Option ℤ
  pub atoi : String → Option ℤ
  pub parse_duration : String → Option Duration
  pub query_escape : String → String
  -- the verb `%q`
  pub quote : String → String

abbrev pub or_else_value : {A : Type 0} → Option A → A → A
or_else_value (some x) fallback = x
or_else_value none fallback = fallback

-- `getenv`
abbrev pub getenv : Env → String → String → String
getenv env key fallback = if env key == "" then fallback else env key

-- The parts of a list that are not blank, trimmed.
unfoldable pub kept_parts : List String → List String
kept_parts [] = []
kept_parts (part ∷ parts) =
    let rest = kept_parts parts in if trim_space part == "" then rest else trim_space part ∷ rest

-- `parseAssetIDs`
unfoldable pub parse_asset_ids : String → List String
parse_asset_ids raw = kept_parts (split_on b',' raw)

-- `asSet`: the keys of the set.
unfoldable pub as_set : List String → List String
as_set values = kept_parts values

-- `effectiveWSURL`
unfoldable pub effective_ws_url : String → String
effective_ws_url raw =
    if trim_space raw == "" then "wss://ws-subscriptions-clob.polymarket.com/ws/market" else raw

module _ {F : Type 0} (conv : Strconv F) (env : Env) where
  -- `parseBool`, `parseFloat` and `parseInt`: a value that cannot be parsed is the fallback.
  unfoldable pub parse_bool : String → Bool → Bool
  parse_bool key fallback =
      let value = trim_space (env key) in
      if value == "" then fallback else or_else_value (conv.parse_bool value) fallback

  unfoldable pub parse_float : String → F → F
  parse_float key fallback =
      let value = trim_space (env key) in
      if value == "" then fallback else or_else_value (conv.parse_float value) fallback

  unfoldable pub parse_int : String → ℤ → ℤ
  parse_int key fallback =
      let value = trim_space (env key) in
      if value == "" then fallback else or_else_value (conv.parse_int value) fallback

  abbrev strictly : {A : Type 0} → (String → Option A) → String → String → A → Result A
  strictly parse what key fallback =
      let value = trim_space (env key) in
      if value == "" then ok fallback else elim (parse value) [
        | some x ↦ ok x
        | none ↦ err (concat (key ∷ " must be " ∷ what ∷ ", got " ∷ conv.quote value ∷ []))
      ]

  -- `parseFloatStrict`, `parseIntStrict` and `parseBoolStrict`: a value that cannot be parsed is an error.
  unfoldable pub parse_float_strict : String → F → Result F
  parse_float_strict key fallback = strictly conv.parse_float "a float" key fallback

  unfoldable pub parse_int_strict : String → ℤ → Result ℤ
  parse_int_strict key fallback = strictly conv.parse_int "an integer" key fallback

  unfoldable pub parse_bool_strict : String → Bool → Result Bool
  parse_bool_strict key fallback = strictly conv.parse_bool "a boolean" key fallback

  -- `parseDuration`: a number is one of seconds, whose product with a second wraps around.
  unfoldable pub parse_duration : String → Duration → Duration
  parse_duration key fallback =
      let value = trim_space (env key) in
      if value == "" then fallback else elim (conv.atoi value) [
        | some seconds ↦ wrap64 (seconds *ℤ pos second)
        | none ↦ or_else_value (conv.parse_duration value) fallback
      ]

  -- `defaultStrategyLink`
  unfoldable pub default_strategy_link : String → String
  default_strategy_link asset_id =
      let trimmed = trim_space asset_id in
      if trimmed == ""
      then "https://polymarket.com/search"
      else concat ("https://polymarket.com/search?query=" ∷ conv.query_escape trimmed ∷ [])

  -- The link that the environment sets for an asset, if it does.
  abbrev configured_link : String → String → GoMap String String → GoMap String String
  configured_link asset key links =
      let configured = trim_space (env key) in
      if asset == ""
      then links
      else if configured == ""
      then links
      else insert asset configured links

  -- A link for an asset that has none so far.
  abbrev missing_link : String → String → GoMap String String → GoMap String String
  missing_link asset link links =
      if asset == ""
      then links
      else if not (read "" asset links == "")
      then links
      else if link == ""
      then links
      else insert asset link links

  -- `resolveStrategyAssetLinks`; `resolve` is `resolvePolymarketEventURL`, which asks a server.
  unfoldable pub resolve_strategy_asset_links :
      (String → String → String) → String → String → GoMap String String
  resolve_strategy_asset_links resolve raw_a raw_b =
      let asset_a = trim_space raw_a in
      let asset_b = trim_space raw_b in
      let trimmed = trim_space (getenv env "POLY_GAMMA_URL" "https://gamma-api.polymarket.com") in
      let gamma_base = if trimmed == "" then "https://gamma-api.polymarket.com" else trimmed in
      let links_a = configured_link asset_a "ARB_ASSET_A_URL" [] in
      let links_b = configured_link asset_b "ARB_ASSET_B_URL" links_a in
      let found_a = missing_link asset_a (resolve gamma_base asset_a) links_b in
      let found_b = missing_link asset_b (resolve gamma_base asset_b) found_a in
      let default_a = missing_link asset_a (default_strategy_link asset_a) found_b in
      missing_link asset_b (default_strategy_link asset_b) default_a
