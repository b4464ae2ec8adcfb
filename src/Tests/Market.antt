-- ===== src/Tests/Market.antt =====
-- The stream of market updates on concrete rounds and frames.
use polymarket_signal_autopi.Base.{
  ◌+◌, ◌≤◌, ◌≡◌, ◌↔◌, refl, false, true, none, some, [], ◌∷◌, pos, negsuc, All, collect, ok, err,
  arith, text_eq,
}
use polymarket_signal_autopi.Strategy.RankShift.Defs.{MarketUpdate}
use polymarket_signal_autopi.Market.Stream.{
  WsReconnectPolicy, default_reconnect_policy, next_backoff, Round, read_cancelled, stream,
}
use polymarket_signal_autopi.Market.Backoff.{next_backoff-nought, dials, dials-stream}
use polymarket_signal_autopi.Market.Decode.{
  Envelope, FrameDecoder, decode_entries, decode_market_updates, decode_trimmed,
  decode_market_update_envelope, enveloped, envelope_updates, change_updates,
}
use polymarket_signal_autopi.Market.Updates.{
  IsAddressed, IsDecoded, updates_of, decode_entries-ok_iff, decode_market_updates-IsAddressed,
}

-- The last attempt whose wait is the greatest delay, and the first whose wait is below 0.
turning :
    (next_backoff (pos 35) default_reconnect_policy ≡ pos 5_000_000_000)
    × (next_backoff (pos 36) default_reconnect_policy ≡ negsuc 1266874889709551615)
    × (next_backoff (pos 57) default_reconnect_policy ≡ pos 0)
unfolding next_backoff
turning = (refl, refl, refl)

next_backoff-nought_example : next_backoff (pos 64) default_reconnect_policy ≡ pos 0
next_backoff-nought_example =
    next_backoff-nought default_reconnect_policy 64 (ground arith) (ground arith)

abbrev round : Round
round = record {
  over = false;
  dial = some "refused";
  subscribe = none;
  frames = [];
  read_end = read_cancelled;
  emits = true;
  wakes = true;
}

abbrev policy : WsReconnectPolicy
policy = record { base_delay = pos 1; max_delay = pos 9; max_attempts = pos 2 }

dials-stream_example : 0 + dials (stream policy 1 (round ∷ round ∷ round ∷ []) 0) ≤ 2
dials-stream_example =
    dials-stream policy 1 2 (round ∷ round ∷ round ∷ []) 0 refl (ground arith)
      (("refused", refl), (("refused", refl), (("refused", refl), tt)))

abbrev envelope : Envelope
envelope = record {
  asset_id = "";
  asset_ids = "A" ∷ [];
  kind = "";
  event_type = "price_change";
  payload = [];
  price_changes = record { asset_id = "B"; encoded = some (7 ∷ []) } ∷ [];
}

-- Every entry is the envelope, but for the empty one.
abbrev decoder : FrameDecoder
decoder = record {
  trim_space = λ raw. raw;
  entries = λ raw. ok (raw ∷ []);
  envelope = λ raw. elim raw [ [] ↦ err "empty" | b ∷ bytes ↦ ok envelope ];
}

abbrev update : MarketUpdate
update = record { asset_id = "B"; kind = "price_change"; payload = 7 ∷ [] }

decode_entries-ok_iff_example : (decode_entries decoder ((1 ∷ []) ∷ []) ≡ ok (update ∷ [])) ↔ (
    All (IsDecoded decoder) ((1 ∷ []) ∷ [])
    × ((update ∷ []) ≡ collect (updates_of decoder) ((1 ∷ []) ∷ [])))
decode_entries-ok_iff_example = decode_entries-ok_iff decoder ((1 ∷ []) ∷ []) (update ∷ [])

decode_market_updates-IsAddressed_example : All IsAddressed (update ∷ [])
unfolding decode_market_updates decode_trimmed decode_market_update_envelope enveloped
    envelope_updates change_updates
decode_market_updates-IsAddressed_example =
    decode_market_updates-IsAddressed decoder (1 ∷ []) (update ∷ []) refl
