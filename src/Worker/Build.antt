-- ===== src/Worker/Build.antt =====
-- The order builders of `loadExecutionDependenciesFromEnv`, and the configurations that `main` and
-- `buildStrategy` make of the environment. What signs and encodes an order is in Orders.
use polymarket_signal_autopi.Base.{
  Bool, not, String, none, some, List, [], ◌∷◌, lookup, ◌==◌, text_eq, if◌then◌else◌, Result, ok,
  err,
}
use polymarket_signal_autopi.Double.{Double}
use polymarket_signal_autopi.Text.{Runes, trim_space}
use polymarket_signal_autopi.Text.Decimal.{concat}
use polymarket_signal_autopi.Values.{text, float, int, other}
use polymarket_signal_autopi.Execution.LiveRouter.Defs.{LiveOrder}
use polymarket_signal_autopi.Strategy.RankShift.Defs.{Signal}
use polymarket_signal_autopi.Pricing.{OrderBook, choose_limit_price}
use polymarket_signal_autopi.Orders.Request.{
  OrderBody, no_order, object, other_order, PostOrderRequest,
}

-- `buildLiveOrderKey`
unfoldable pub build_live_order_key : String → String → String
build_live_order_key signal_id market =
    let signal_part = if trim_space signal_id == "" then "unknown" else trim_space signal_id in
    let market_part = if trim_space market == "" then "unknown" else trim_space market in
    concat ("sig-" ∷ signal_part ∷ "-" ∷ market_part ∷ [])

-- `choosePolymarketEventSlug`; an event is its slug.
unfoldable pub choose_polymarket_event_slug : String → List String → String
choose_polymarket_event_slug market_slug [] = trim_space market_slug
choose_polymarket_event_slug market_slug (slug ∷ events) =
    let rest = choose_polymarket_event_slug market_slug events in
    if trim_space slug == "" then rest else trim_space slug

module _ {F : Type 0} where
  -- `readTokenID`
  unfoldable pub read_token_id : OrderBody F → String
  read_token_id no_order = ""
  read_token_id other_order = ""
  read_token_id (object fields) = elim (lookup "tokenId" fields) [
    | none ↦ ""
    | some value ↦ elim value [ text token ↦ token | float x ↦ "" | int n ↦ "" | other ↦ "" ]
  ]

  -- `parseOrderTemplate`; `decode` is `json.Unmarshal`.
  unfoldable pub parse_order_template :
      (String → Result (PostOrderRequest F)) → String → Result (PostOrderRequest F)
  parse_order_template decode raw =
      if trim_space raw == "" then err "POLY_SIGNED_ORDER_JSON is required" else elim (decode raw) [
        | err why ↦ err (concat ("decode signed order json: " ∷ why ∷ []))
        | ok request ↦ elim request.order [
          | no_order ↦ err "signed order template missing 'order' object"
          | object fields ↦
              if trim_space request.owner == ""
              then err "signed order template missing 'owner'"
              else ok request
          | other_order ↦
              if trim_space request.owner == ""
              then err "signed order template missing 'owner'"
              else ok request
        ]
      ]

  abbrev live_order : String → String → String → F → LiveOrder F
  live_order signal_id market country notional = record {
    key = build_live_order_key signal_id market;
    market = market;
    country = country;
    notional = notional;
  }

  -- The builder of a signed template. `clonePostOrderRequest` gives the same request, or the copy that
  -- JSON makes of it, which is a parameter.
  unfoldable pub template_builder :
      (PostOrderRequest F → PostOrderRequest F)
      → PostOrderRequest F
      → String
      → F
      → Signal F
      → Result (LiveOrder F × PostOrderRequest F)
  template_builder clone template country notional signal =
      let request = clone template in
      let token = read_token_id request.order in
      let market = if token == "" then signal.asset_id else token in
      ok (live_order signal.id market country notional, request)

-- What the builder of dynamic orders is given: the settings, the book of the signal's asset, and how a
-- request is built for a price of its own, or for the configured one.
pub record DynamicPorts (F : Type 0) : Type 0 where
  pub country : String
  pub notional : F
  pub side : String
  pub price : F
  pub dynamic_pricing : Bool
  pub offset_bps : F
  pub min_price : F
  pub max_price : F
  pub book : String → Result (OrderBook F)
  pub build_with_price : String → F → F → Result (PostOrderRequest F)
  pub build : String → F → Result (PostOrderRequest F)

-- What the builder reports besides its result.
pub data Report : Type 0 where
  fell_back : String → Report
  priced : String → Report
  took_nonce : Report

module _ {F : Type 0} where
  abbrev with_order :
      DynamicPorts F
      → Signal F
      → String
      → List Report
      → PostOrderRequest F
      → List Report × Result (LiveOrder F × PostOrderRequest F)
  with_order p signal mode reports request = (
    took_nonce ∷ priced mode ∷ reports,
    ok (live_order signal.id signal.asset_id p.country p.notional, request),
  )

  -- The request for the configured price, where none was built before.
  unfoldable pub build_static :
      DynamicPorts F
      → Signal F
      → String
      → List Report
      → List Report × Result (LiveOrder F × PostOrderRequest F)
  build_static p signal mode reports = elim (p.build signal.asset_id p.notional) [
    | err why ↦ (reports, err why)
    | ok request ↦ with_order p signal mode reports request
  ]

  unfoldable pub build_priced :
      DynamicPorts F
      → Signal F
      → F × String
      → List Report × Result (LiveOrder F × PostOrderRequest F)
  build_priced p signal (price, mode) =
      let reports = if mode == "fallback" then fell_back signal.asset_id ∷ [] else [] in
      elim (p.build_with_price signal.asset_id p.notional price) [
        | err why ↦ ([], err why)
        | ok request ↦ elim request.order [
          | no_order ↦ build_static p signal mode reports
          | object fields ↦ with_order p signal mode reports request
          | other_order ↦ with_order p signal mode reports request
        ]
      ]

  -- The builder of dynamic orders; its reports are the newest first.
  unfoldable pub dynamic_builder :
      ⦃d : Double F⦄
      → ⦃u : Runes⦄ → DynamicPorts F
      → Signal F
      → List Report × Result (LiveOrder F × PostOrderRequest F)
  dynamic_builder p signal =
      if not p.dynamic_pricing
      then build_static p signal "static" []
      else elim (choose_limit_price p.dynamic_pricing (p.book signal.asset_id) p.side p.price
          p.offset_bps p.min_price p.max_price) [
            | err why ↦ ([], err why)
            | ok picked ↦ build_priced p signal picked
          ]
