-- ===== src/Orders/Request.antt =====
-- The request that places an order, and the signed order in it. The signing of go-order-utils is a
-- parameter: what it makes of the data, for the exchange of one kind of market or of the other.
use polymarket_signal_autopi.Base.{
  Bool, String, Option, [], ◌∷◌, ℤ, GoMap, text_eq, Result, ok, err,
}
use polymarket_signal_autopi.Double.{Double}
use polymarket_signal_autopi.Text.Decimal.{concat}
use polymarket_signal_autopi.Values.{Value, text, int}
use polymarket_signal_autopi.Orders.Defs.{
  DynamicOrderBuilder, Crypto, OrderData, SignedOrder, build_order_data,
}

-- The order of a request: an object, or another JSON value, or missing.
pub data OrderBody (F : Type 0) : Type 0 where
  no_order : OrderBody F
  object : GoMap String (Value F) → OrderBody F
  other_order : OrderBody F

pub record PostOrderRequest (F : Type 0) : Type 0 where
  pub order : OrderBody F
  pub owner : String
  pub order_type : String
  pub defer_exec : Bool

module _ {F : Type 0} where
  -- The request around a signed order.
  abbrev pub signed_request : DynamicOrderBuilder F → SignedOrder → PostOrderRequest F
  signed_request b s = record {
    order = object (
        ("salt", text s.salt)
        ∷ ("maker", text s.maker)
        ∷ ("signer", text s.signer)
        ∷ ("taker", text s.taker)
        ∷ ("tokenId", text s.token_id)
        ∷ ("makerAmount", text s.maker_amount)
        ∷ ("takerAmount", text s.taker_amount)
        ∷ ("side", text b.cfg.side)
        ∷ ("expiration", text s.expiration)
        ∷ ("nonce", text s.nonce)
        ∷ ("feeRateBps", text s.fee_rate_bps)
        ∷ ("signatureType", int s.signature_type)
        ∷ ("signature", text s.signature)
        ∷ []);
    owner = b.cfg.owner;
    order_type = b.cfg.order_type;
    defer_exec = b.cfg.defer_exec;
  }

  -- `buildRequest`; `override` is the price of `BuildRequestWithPrice`, and missing for `BuildRequest`.
  unfoldable pub build_request :
      (c : Crypto F)
      → ⦃d : Double F⦄ → (Bool → OrderData → Result SignedOrder)
      → DynamicOrderBuilder F
      → String
      → F
      → Option F
      → Option (Result ℤ)
      → ℤ
      → Result (PostOrderRequest F)
  build_request c sign b asset_id notional override answer now =
      elim (build_order_data c b asset_id notional override answer now) [
        | err why ↦ err why
        | ok data_ ↦ elim (sign b.cfg.neg_risk data_) [
          | err why ↦ err (concat ("build signed order: " ∷ why ∷ []))
          | ok signed ↦ ok (signed_request b signed)
        ]
      ]
