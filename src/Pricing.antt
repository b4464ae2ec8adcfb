-- ===== src/Pricing.antt =====
-- cmd/worker/pricing.go: the limit price of an order, from the book or from the configured fallback. An
-- error is its text without the numbers that `fmt` prints into it.
pub mod Bounds
use polymarket_signal_autopi.Base.{
  Bool, true, false, not, ◌&&◌, ◌||◌, String, Option, none, some, List, [], ◌∷◌, ◌==◌, text_eq,
  if◌then◌else◌, Result, ok, err,
}
use polymarket_signal_autopi.Double.{Double, lt, nought, one}
use polymarket_signal_autopi.Text.{Runes, equal_fold, trim_space}

pub record PriceLevel (F : Type 0) : Type 0 where
  pub price : F
  pub size : F

pub record OrderBook (F : Type 0) : Type 0 where
  pub token_id : String
  pub bids : List (PriceLevel F)
  pub asks : List (PriceLevel F)

module _ {F : Type 0} ⦃d : Double F⦄ where
  -- `isFiniteProbability`
  abbrev pub is_finite_probability : F → Bool
  is_finite_probability price =
      not (d.is_nan price) && not (d.is_inf price) && lt nought price && lt price one

  -- A bound that is no probability is replaced by the default.
  abbrev pub or_default : F → F → F
  or_default bound default = if is_finite_probability bound then bound else default

  -- `clampProbabilityPrice` from the point where the two bounds are known.
  unfoldable pub clamp_between : F → F → F → Result F
  clamp_between price min max =
      if d.le max min
      then err "invalid price clamp range"
      else if lt price min
      then ok min
      else if lt max price
      then ok max
      else ok price

  -- `clampProbabilityPrice`
  unfoldable pub clamp_probability_price : F → F → F → Result F
  unfolding clamp_between
  clamp_probability_price price min_price max_price =
      if not (is_finite_probability price)
      then err "price must be finite and within (0,1)"
      else clamp_between price (or_default min_price (d.lit 1 100))
          (or_default max_price (d.lit 99 100))

  -- The loop of `bestBidPrice`, from the best price found so far.
  unfoldable pub best_bid_from : Option F → List (PriceLevel F) → Option F
  best_bid_from best [] = best
  best_bid_from best (level ∷ levels) =
      let skip = best_bid_from best levels in
      let take = best_bid_from (some level.price) levels in
      if not (is_finite_probability level.price)
      then skip
      else elim best [ none ↦ take | some b ↦ if lt b level.price then take else skip ]

  -- `bestBidPrice`: `none` is its second result false.
  abbrev pub best_bid_price : List (PriceLevel F) → Option F
  best_bid_price levels = best_bid_from none levels

  -- The loop of `bestAskPrice`, from the best price found so far.
  unfoldable pub best_ask_from : Option F → List (PriceLevel F) → Option F
  best_ask_from best [] = best
  best_ask_from best (level ∷ levels) =
      let skip = best_ask_from best levels in
      let take = best_ask_from (some level.price) levels in
      if not (is_finite_probability level.price)
      then skip
      else elim best [ none ↦ take | some b ↦ if lt level.price b then take else skip ]

  -- `bestAskPrice`
  abbrev pub best_ask_price : List (PriceLevel F) → Option F
  best_ask_price levels = best_ask_from none levels

  -- The middle of the book, if it has a side.
  unfoldable pub mid_price : OrderBook F → Option F
  unfolding best_bid_from best_ask_from
  mid_price book = elim (best_bid_price book.bids) [
    | none ↦ best_ask_price book.asks
    | some bid ↦ elim (best_ask_price book.asks) [
      | none ↦ some bid
      | some ask ↦ some (d.div (d.add bid ask) (d.lit 2 1))
    ]
  ]

  module _ ⦃u : Runes⦄ where
    -- The price after the offset of the side.
    unfoldable pub offset_price : String → F → F → F
    unfolding equal_fold
    offset_price side offset_bps mid =
        let adjustment = d.div offset_bps (d.lit 10_000 1) in
        if equal_fold (trim_space side) "SELL"
        then d.mul mid (d.sub one adjustment)
        else d.mul mid (d.add one adjustment)

    -- `selectLimitPrice` from the point where the fallback is known to be in order.
    unfoldable pub select_from_book : OrderBook F → String → F → F → F → F → F × String
    unfolding mid_price offset_price clamp_probability_price
    select_from_book book side safe_fallback offset_bps min_price max_price =
        elim (mid_price book) [
          | none ↦ (safe_fallback, "fallback")
          | some mid ↦
              elim (clamp_probability_price (offset_price side offset_bps mid) min_price
                max_price) [
                  | err why ↦ (safe_fallback, "fallback")
                  | ok clamped ↦ (clamped, "dynamic")
                ]
        ]

    -- `selectLimitPrice`
    unfoldable pub select_limit_price : OrderBook F → String → F → F → F → F → Result (F × String)
    unfolding select_from_book clamp_probability_price
    select_limit_price book side fallback offset_bps min_price max_price =
        elim (clamp_probability_price fallback min_price max_price) [
          | err why ↦ err why
          | ok safe ↦ ok (select_from_book book side safe offset_bps min_price max_price)
        ]

    -- `chooseLimitPrice`; the book is an error if it could not be read.
    unfoldable pub choose_limit_price :
        Bool → Result (OrderBook F) → String → F → F → F → F → Result (F × String)
    unfolding select_limit_price clamp_probability_price
    choose_limit_price dynamic_enabled book side fallback offset_bps min_price max_price =
        let clamped = clamp_probability_price fallback min_price max_price in
        if not dynamic_enabled
        then elim clamped [ err why ↦ err why | ok price ↦ ok (price, "static") ]
        else elim book [
          | err book_err ↦ elim clamped [ err why ↦ err why | ok price ↦ ok (price, "fallback") ]
          | ok book ↦ select_limit_price book side fallback offset_bps min_price max_price
        ]
