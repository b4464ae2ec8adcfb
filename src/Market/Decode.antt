-- ===== src/Market/Decode.antt =====
-- `decodeMarketUpdates` and `decodeMarketUpdateEnvelope`. What `encoding/json` makes of some bytes is a
-- parameter, as is `bytes.TrimSpace`.
use polymarket_signal_autopi.Base.{
  ℕ, String, Option, none, some, List, [], ◌∷◌, ◌++◌, nat_beq, ◌==◌, text_eq, if◌then◌else◌, Result,
  ok, err,
}
use polymarket_signal_autopi.Text.Decimal.{concat}
use polymarket_signal_autopi.Strategy.RankShift.Defs.{MarketUpdate}

-- An entry of `price_changes`: its asset, and its encoding, if it has one.
pub record PriceChange : Type 0 where
  pub asset_id : String
  pub encoded : Option (List ℕ)

pub record Envelope : Type 0 where
  pub asset_id : String
  pub asset_ids : List String
  pub kind : String
  pub event_type : String
  pub payload : List ℕ
  pub price_changes : List PriceChange

-- The errors are those of `json.Unmarshal`.
pub record FrameDecoder : Type 0 where
  pub trim_space : List ℕ → List ℕ
  pub entries : List ℕ → Result (List (List ℕ))
  pub envelope : List ℕ → Result Envelope

abbrev pub first_or : List String → String
first_or [] = ""
first_or (id ∷ ids) = id

-- The updates of the price changes.
unfoldable pub change_updates : String → List PriceChange → List MarketUpdate
change_updates event_type [] = []
change_updates event_type (change ∷ changes) =
    let rest = change_updates event_type changes in
    if change.asset_id == "" then rest else elim change.encoded [
      | none ↦ rest
      | some payload ↦
          record { asset_id = change.asset_id; kind = event_type; payload = payload } ∷ rest
    ]

-- The update of an envelope without price changes.
unfoldable pub single_update : List ℕ → String → Envelope → List MarketUpdate
single_update raw event_type e =
    let asset_id = if e.asset_id == "" then first_or e.asset_ids else e.asset_id in
    if asset_id == ""
    then []
    else record {
      asset_id = asset_id;
      kind = event_type;
      payload = elim e.payload [ [] ↦ raw | b ∷ bytes ↦ b ∷ bytes ];
    }
      ∷ []

-- The updates of a decoded envelope.
unfoldable pub envelope_updates : List ℕ → Envelope → List MarketUpdate
envelope_updates raw e =
    let event_type = if e.kind == "" then e.event_type else e.kind in
    if event_type == "" then [] else elim (change_updates event_type e.price_changes) [
      | [] ↦ single_update raw event_type e
      | u ∷ us ↦ u ∷ us
    ]

abbrev decode_error : String → String
decode_error why = concat ("decode market ws update: " ∷ why ∷ [])

unfoldable pub enveloped : List ℕ → Result Envelope → Result (List MarketUpdate)
enveloped raw (err why) = err (decode_error why)
enveloped raw (ok e) = ok (envelope_updates raw e)

-- `decodeMarketUpdateEnvelope`
unfoldable pub decode_market_update_envelope : FrameDecoder → List ℕ → Result (List MarketUpdate)
decode_market_update_envelope dec raw = enveloped raw (dec.envelope raw)

-- The updates of an entry in front of those of the later ones: the first error is returned.
unfoldable pub joined :
    Result (List MarketUpdate) → Result (List MarketUpdate) → Result (List MarketUpdate)
joined (err why) rest = err why
joined (ok us) (err why) = err why
joined (ok us) (ok vs) = ok (us ++ vs)

-- The loop over the entries of an array.
unfoldable pub decode_entries : FrameDecoder → List (List ℕ) → Result (List MarketUpdate)
decode_entries dec [] = ok []
decode_entries dec (entry ∷ entries) =
    joined (decode_market_update_envelope dec entry) (decode_entries dec entries)

unfoldable pub decode_array : FrameDecoder → Result (List (List ℕ)) → Result (List MarketUpdate)
decode_array dec (err why) = err (decode_error why)
decode_array dec (ok entries) = decode_entries dec entries

unfoldable pub decode_trimmed : FrameDecoder → List ℕ → Result (List MarketUpdate)
decode_trimmed dec [] = ok []
decode_trimmed dec (b ∷ bytes) =
    if nat_beq b b'['
    then decode_array dec (dec.entries (b ∷ bytes))
    else decode_market_update_envelope dec (b ∷ bytes)

-- `decodeMarketUpdates`
unfoldable pub decode_market_updates : FrameDecoder → List ℕ → Result (List MarketUpdate)
decode_market_updates dec raw = decode_trimmed dec (dec.trim_space raw)
