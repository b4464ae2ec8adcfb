-- ===== src/Orders/Defs.antt =====
-- The builder and its requests. The keys and signatures of go-ethereum and go-order-utils are parameters,
-- as are `math.Round`, the conversion of a number to an `int64` and the verb `%.8f`.
use polymarket_signal_autopi.Base.{
  Bool, not, ◌&&◌, ◌||◌, String, Option, none, some, [], ◌∷◌, ℤ, pos, ◌+ℤ◌, wrap64, ltb_ℤ, leb_ℤ,
  ◌==◌, text_eq, if◌then◌else◌, Result, ok, err, ◌>>=◌, ◌>>◌, guard,
}
use polymarket_signal_autopi.Double.{Double, lt, eq, nought, one}
use polymarket_signal_autopi.Text.{Runes, trim_space, to_upper, equal_fold, has_prefix}
use polymarket_signal_autopi.Text.Decimal.{concat, show_int}

pub record DynamicOrderConfig (F : Type 0) : Type 0 where
  pub private_key_hex : String
  pub owner : String
  pub maker_address : String
  pub signer_address : String
  pub taker_address : String
  pub price : F
  pub side : String
  pub order_type : String
  pub defer_exec : Bool
  pub fee_rate_bps : ℤ
  pub nonce : ℤ
  pub has_nonce_provider : Bool
  pub signature_type : ℤ
  pub expiration_seconds : ℤ
  pub chain_id : ℤ
  pub neg_risk : Bool

-- The side of an order, as go-order-utils names it.
pub data Side : Type 0 where
  buy : Side
  sell : Side

pub record DynamicOrderBuilder (F : Type 0) : Type 0 where
  pub cfg : DynamicOrderConfig F
  pub signer : String
  pub maker : String
  pub taker : String
  pub side : Side

-- `crypto.HexToECDSA` with the address of its key, and what the program calls of `math` and `fmt`.
pub record Crypto (F : Type 0) : Type 0 where
  pub address_of : String → Result String
  pub round : F → F
  pub to_int64 : F → ℤ
  pub fixed_8 : F → String

-- `strings.TrimPrefix(s, "0x")`
abbrev trim_0x : String → String
trim_0x String.[] = String.[]
trim_0x (String.◌∷◌ c String.[]) = String.◌∷◌ c String.[]
trim_0x (String.◌∷◌ c (String.◌∷◌ e s)) =
    if has_prefix (String.◌∷◌ c (String.◌∷◌ e s)) "0x" then s else String.◌∷◌ c (String.◌∷◌ e s)

-- `normalizeDynamicSide`: the label and the side.
unfoldable pub normalize_dynamic_side : ⦃u : Runes⦄ → String → Result (String × Side)
normalize_dynamic_side raw =
    let upper = to_upper (trim_space raw) in
    let side = if upper == "" then "BUY" else upper in
    if side == "BUY"
    then ok (side, buy)
    else if side == "SELL"
    then ok (side, sell)
    else err "dynamic order side must be BUY or SELL"

-- `normalizeOrderType`
unfoldable pub normalize_order_type : ⦃u : Runes⦄ → String → Result String
normalize_order_type raw =
    let upper = to_upper (trim_space raw) in
    let order_type = if upper == "" then "GTC" else upper in
    if order_type == "GTC" || order_type == "FOK" || order_type == "GTD" || order_type == "FAK"
    then ok order_type
    else err "dynamic order type must be one of GTC/FOK/GTD/FAK"

module _ {F : Type 0} (c : Crypto F) where
  -- `parseSigner`: the address of the key.
  unfoldable pub parse_signer : String → Result String
  parse_signer private_key_hex =
      let trimmed = trim_0x (trim_space private_key_hex) in
      if trimmed == ""
      then err "POLY_PRIVATE_KEY is required for dynamic order signing"
      else elim (c.address_of trimmed) [
        | err why ↦ err (concat ("parse POLY_PRIVATE_KEY: " ∷ why ∷ []))
        | ok address ↦ ok address
      ]

  module _ ⦃d : Double F⦄ where
    -- `isFinitePositive` and `isValidProbabilityPrice`
    abbrev pub is_finite_positive : F → Bool
    is_finite_positive value = not (d.is_nan value) && not (d.is_inf value) && lt nought value

    abbrev pub is_valid_probability_price : F → Bool
    is_valid_probability_price price = is_finite_positive price && lt price one

    -- The price that a builder is given: 0 stands for the default.
    abbrev given_price : F → F
    given_price price = if eq price nought then d.lit 5 10 else price

    abbrev or_zero : ℤ → ℤ → ℤ
    or_zero value fallback = if leb_ℤ value (pos 0) && leb_ℤ (pos 0) value then fallback else value

    abbrev or_trimmed : String → String → String
    or_trimmed value fallback = if trim_space value == "" then fallback else trim_space value

    abbrev built : DynamicOrderConfig F → String → String × Side → String → DynamicOrderBuilder F
    built cfg signer (label, side) order_type = record {
      cfg = record cfg {
        owner = trim_space cfg.owner;
        price = given_price cfg.price;
        side = label;
        order_type = order_type;
        expiration_seconds = or_zero cfg.expiration_seconds (pos 600);
        chain_id = or_zero cfg.chain_id (pos 137);
      };
      signer = signer;
      maker = or_trimmed cfg.maker_address signer;
      taker = or_trimmed cfg.taker_address "0x0000000000000000000000000000000000000000";
      side = side;
    }

    -- `NewDynamicOrderBuilder`
    unfoldable pub new_dynamic_order_builder :
        ⦃u : Runes⦄ → DynamicOrderConfig F → Result (DynamicOrderBuilder F)
    new_dynamic_order_builder cfg = do
      guard (not (trim_space cfg.owner == "")) "dynamic order owner is required"
      signer ← parse_signer cfg.private_key_hex
      guard (cfg.signer_address == "" || equal_fold (trim_space cfg.signer_address) signer)
          "configured signer address does not match provided private key"
      let price = given_price cfg.price
      guard (is_valid_probability_price price)
          (concat ("dynamic order price must be within (0, 1), got " ∷ c.fixed_8 price ∷ []))
      guard (cfg.has_nonce_provider || leb_ℤ (pos 0) cfg.nonce) "dynamic nonce must be >= 0"
      side ← normalize_dynamic_side cfg.side
      order_type ← normalize_order_type cfg.order_type
      guard (leb_ℤ (pos 0) cfg.signature_type && leb_ℤ cfg.signature_type (pos 2))
          "dynamic signature type must be 0, 1, or 2"
      guard (leb_ℤ (pos 0) (or_zero cfg.expiration_seconds (pos 600)))
          "dynamic expiration seconds must be >= 0"
      ok (built cfg signer side order_type)

-- The data that go-order-utils signs; the numbers are texts in it.
pub record OrderData : Type 0 where
  pub maker : String
  pub taker : String
  pub token_id : String
  pub maker_amount : String
  pub taker_amount : String
  pub fee_rate_bps : String
  pub nonce : String
  pub signer : String
  pub expiration : String
  pub side : Side
  pub signature_type : ℤ

-- The fields of a signed order, as texts.
pub record SignedOrder : Type 0 where
  pub salt : String
  pub maker : String
  pub signer : String
  pub taker : String
  pub token_id : String
  pub maker_amount : String
  pub taker_amount : String
  pub expiration : String
  pub nonce : String
  pub fee_rate_bps : String
  pub signature_type : ℤ
  pub signature : String

module _ {F : Type 0} (c : Crypto F) ⦃d : Double F⦄ where
  -- `toBaseUnits`: the number of base units, whose text the source returns.
  unfoldable pub to_base_units : F → Result ℤ
  to_base_units value = do
    guard (is_finite_positive c value) "dynamic amount must be finite and > 0"
    let units = c.round (d.mul value (d.lit 1_000_000 1))
    guard (not (d.le units nought)) "dynamic amount produced non-positive base units"
    ok (c.to_int64 units)

  abbrev pub sided : Side → ℤ → ℤ → ℤ × ℤ
  sided buy notional_units size_units = (notional_units, size_units)
  sided sell notional_units size_units = (size_units, notional_units)

  -- `computeAmounts`: what the maker gives and what the taker gives, in base units.
  unfoldable pub compute_amounts : Side → F → F → Result (ℤ × ℤ)
  compute_amounts side notional price = do
    guard (is_finite_positive c notional) "dynamic order notional must be finite and > 0"
    let size = d.div notional price
    guard (is_finite_positive c size) "dynamic order computed size must be finite and > 0"
    notional_units ← to_base_units notional
    size_units ← to_base_units size
    ok (sided side notional_units size_units)

  -- `resolvePrice`; `none` is the configured price.
  unfoldable pub resolve_price : DynamicOrderBuilder F → Option F → Result F
  resolve_price b override =
      let price : F = elim override [ some p ↦ p | none ↦ b.cfg.price ] in
      do
        guard (is_valid_probability_price c price)
            (concat ("dynamic order price must be within (0, 1), got " ∷ c.fixed_8 price ∷ []))
        ok price

  -- `resolveNonce`; the second argument is the answer of the provider, if there is one.
  unfoldable pub resolve_nonce : DynamicOrderBuilder F → Option (Result ℤ) → Result ℤ
  resolve_nonce b none = do
    guard (leb_ℤ (pos 0) b.cfg.nonce) "dynamic nonce must be >= 0"
    ok b.cfg.nonce
  resolve_nonce b (some (err why)) = err (concat ("allocate dynamic nonce: " ∷ why ∷ []))
  resolve_nonce b (some (ok nonce)) = do
    guard (leb_ℤ (pos 0) nonce) "allocated dynamic nonce must be >= 0"
    ok nonce

  -- The data of an order; `now` is Unix seconds.
  abbrev pub order_data : DynamicOrderBuilder F → String → ℤ → ℤ → ℤ × ℤ → OrderData
  order_data b token_id now nonce (maker_amount, taker_amount) = record {
    maker = b.maker;
    taker = b.taker;
    token_id = token_id;
    maker_amount = show_int maker_amount;
    taker_amount = show_int taker_amount;
    fee_rate_bps = show_int b.cfg.fee_rate_bps;
    nonce = show_int nonce;
    signer = b.signer;
    expiration = show_int (
        if ltb_ℤ (pos 0) b.cfg.expiration_seconds
        then wrap64 (now +ℤ b.cfg.expiration_seconds)
        else pos 0);
    side = b.side;
    signature_type = b.cfg.signature_type;
  }

  -- `buildRequest` up to the signature: the data that is signed.
  unfoldable pub build_order_data :
      DynamicOrderBuilder F → String → F → Option F → Option (Result ℤ) → ℤ → Result OrderData
  build_order_data b asset_id notional override answer now = do
    guard (not (trim_space asset_id == "")) "dynamic order token id is required"
    guard (not (d.le notional nought)) "dynamic order notional must be > 0"
    price ← resolve_price b override
    nonce ← resolve_nonce b answer
    amounts ← compute_amounts b.side notional price
    ok (order_data b (trim_space asset_id) now nonce amounts)
