-- ===== src/Strategy/RankShift/Defs.antt =====
-- The strategy's configuration, its state and its one operation.
use polymarket_signal_autopi.Base.{
  ℕ, ◌*◌, Bool, not, ◌&&◌, ◌||◌, String, Option, none, some, List, [], ◌∷◌, ℤ, pos, sub_ℕ, wrap64,
  ltb_ℤ, leb_ℤ, Time, Duration, is_zero, since, minute, GoMap, lookup, insert, ◌==◌, text_eq,
  if◌then◌else◌,
}
use polymarket_signal_autopi.Double.{Double, lt, nought, one}
use polymarket_signal_autopi.Text.{trim_space}
use polymarket_signal_autopi.Text.Decimal.{concat, show_int}
use polymarket_signal_autopi.Values.{Value, float, int, text, other, Decoder}

-- `polymarket.WSMarketUpdate`
pub record MarketUpdate : Type 0 where
  pub asset_id : String
  pub kind : String
  pub payload : List ℕ

pub record Signal (F : Type 0) : Type 0 where
  pub id : String
  pub asset_id : String
  pub asset_label : String
  pub action : String
  pub reason : String
  pub confidence : F
  pub created_at : Time
  pub metadata : GoMap String (Value F)

pub record RankShiftConfig (F : Type 0) : Type 0 where
  pub asset_a : String
  pub asset_b : String
  pub flip_spread : F
  pub cooldown : Duration
  pub target_label : String
  pub asset_links : GoMap String String

pub record RankShiftStrategy (F : Type 0) : Type 0 where
  pub cfg : RankShiftConfig F
  pub prices : GoMap String F
  pub asset_links : GoMap String String
  pub leader : String
  pub last_signal_at : Time

-- `sanitizeAssetLinks`: the pairs of the raw map in the order in which Go visits them.
unfoldable pub sanitize_asset_links :
    GoMap String String → GoMap String String → GoMap String String
unfolding trim_space
sanitize_asset_links out [] = out
sanitize_asset_links out ((key, value) ∷ raw) =
    sanitize_asset_links
      (if trim_space key == "" || trim_space value == ""
        then out
        else insert (trim_space key) (trim_space value) out)
      raw

-- `t.UnixNano()`, for a time counted from year 1.
abbrev pub unix_nano : Time → ℤ
unix_nano t = wrap64 (sub_ℕ t 62_135_596_800_000_000_000)

module _ {F : Type 0} ⦃d : Double F⦄ where
  -- `NewRankShiftStrategy`
  unfoldable pub new_rank_shift_strategy : RankShiftConfig F → RankShiftStrategy F
  unfolding sanitize_asset_links
  new_rank_shift_strategy cfg = record {
    cfg = record cfg {
      flip_spread = if d.le cfg.flip_spread nought then d.lit 3 100 else cfg.flip_spread;
      cooldown = if leb_ℤ cfg.cooldown (pos 0) then pos (3 * minute) else cfg.cooldown;
    };
    prices = [];
    asset_links = sanitize_asset_links [] cfg.asset_links;
    leader = "";
    last_signal_at = 0;
  }

  -- One round of the loop of `extractPrice`: the value under a key, if it is a price.
  unfoldable pub price_at : Decoder F → GoMap String (Value F) → String → Option F
  price_at dec payload key = elim (lookup key payload) [
    | none ↦ none
    | some value ↦ elim value [
      | float x ↦ some x
      | int n ↦ none
      | text s ↦ dec.parse_float s
      | other ↦ none
    ]
  ]

  unfoldable pub first_price : Decoder F → GoMap String (Value F) → List String → Option F
  first_price dec payload [] = none
  first_price dec payload (key ∷ keys) =
      let rest = first_price dec payload keys in
      elim (price_at dec payload key) [ some x ↦ some x | none ↦ rest ]

  -- `extractPrice`
  unfoldable pub extract_price : Decoder F → List ℕ → Option F
  unfolding price_at first_price
  extract_price dec [] = none
  extract_price dec (b ∷ raw) = elim (dec.unmarshal (b ∷ raw)) [
    | none ↦ none
    | some payload ↦
        first_price dec payload ("price" ∷ "mid" ∷ "best_bid" ∷ "bid" ∷ "last_trade_price" ∷ [])
  ]

  unfoldable pub leader_of : RankShiftConfig F → F → F → String
  leader_of cfg price_a price_b = if lt price_a price_b then cfg.asset_b else cfg.asset_a

  unfoldable pub signal_metadata :
      RankShiftStrategy F → String → String → F → GoMap String (Value F)
  signal_metadata s old_leader new_leader diff =
      let metadata : GoMap String (Value F) =
        insert "spread" (float diff)
          (insert "new_leader" (text new_leader) (insert "old_leader" (text old_leader) [])) in
      elim (lookup old_leader s.asset_links) [
        | none ↦ metadata
        | some url ↦
            if trim_space url == ""
            then metadata
            else insert "market_url" (text (trim_space url)) metadata
      ]

  -- The signal of a flip.
  unfoldable pub flip_signal : RankShiftStrategy F → String → String → F → Time → Signal F
  unfolding signal_metadata
  flip_signal s old_leader new_leader diff now = record {
    id = concat ("rankshift-" ∷ show_int (unix_nano now) ∷ []);
    asset_id = old_leader;
    asset_label = if trim_space s.cfg.target_label == "" then old_leader else s.cfg.target_label;
    action = "LONG";
    reason = "rank_flip_polymarket_leads_news_lag";
    confidence = if lt one diff then one else diff;
    created_at = now;
    metadata = signal_metadata s old_leader new_leader diff;
  }

  unfoldable pub cooling : RankShiftStrategy F → Time → Bool
  cooling s now =
      not (is_zero s.last_signal_at) && ltb_ℤ (since now s.last_signal_at) s.cfg.cooldown

  -- `OnUpdate` from the point where both prices are known.
  unfoldable pub on_prices :
      RankShiftStrategy F → F → F → Time → RankShiftStrategy F × List (Signal F)
  on_prices s price_a price_b now =
      let new_leader = leader_of s.cfg price_a price_b in
      let diff = d.abs (d.sub price_a price_b) in
      let s' = record s { leader = new_leader } in
      if s.leader == ""
      then (s', [])
      else if s.leader == new_leader || lt diff s.cfg.flip_spread
      then (s', [])
      else if cooling s now
      then (s', [])
      else (record s' { last_signal_at = now }, flip_signal s s.leader new_leader diff now ∷ [])

  -- `OnUpdate` from the point where the update's price is known.
  unfoldable pub on_price :
      RankShiftStrategy F → String → F → Time → RankShiftStrategy F × List (Signal F)
  on_price s asset_id price now =
      let s' = record s { prices = insert asset_id price s.prices } in
      elim (lookup s.cfg.asset_a s'.prices) [
        | none ↦ (s', [])
        | some price_a ↦ elim (lookup s.cfg.asset_b s'.prices) [
          | none ↦ (s', [])
          | some price_b ↦ on_prices s' price_a price_b now
        ]
      ]

  -- `OnUpdate`
  unfoldable pub on_update :
      Decoder F → RankShiftStrategy F → MarketUpdate → Time → RankShiftStrategy F × List (Signal F)
  on_update dec s update now =
      if update.asset_id == ""
      then (s, [])
      else if not (update.asset_id == s.cfg.asset_a) && not (update.asset_id == s.cfg.asset_b)
      then (s, [])
      else elim (extract_price dec update.payload) [
        | none ↦ (s, [])
        | some price ↦ on_price s update.asset_id price now
      ]
