-- ===== src/Selector/Select.antt =====
-- Which markets are candidates, in which order. Numbers that are not NaN are assumed where the order of a
-- sorting is used: `less` is then a strict order, and every stable sorting gives the same list.
use polymarket_signal_autopi.Base.{
  nat_beq, code, ℕ, zero, suc, ◌-◌, Bool, true, false, not, ◌&&◌, ◌||◌, String, Option, none, some,
  List, [], ◌∷◌, ◌++◌, map, ℤ, pos, negsuc, length, take, get_elem?, elem, ltb, leb, ltb_ℤ, leb_ℤ,
  ◌==◌, text_eq, if◌then◌else◌,
}
use polymarket_signal_autopi.Double.{Double, lt, eq, nought, one}
use polymarket_signal_autopi.Text.{Runes}
use polymarket_signal_autopi.Selector.Defs.{
  MarketSnapshot, SelectionConfig, Candidate, normalize_token_ids, normalize_category,
}
pub mod Floors
pub mod Percentile
pub mod Sorting

-- The order of texts: that of UTF-8 bytes is that of code points.
unfoldable pub text_less : String → String → Bool
text_less s String.[] = false
text_less String.[] (String.◌∷◌ e t) = true
text_less (String.◌∷◌ c s) (String.◌∷◌ e t) =
    let rest = text_less s t in
    if ltb (code c) (code e) then true else if nat_beq (code c) (code e) then rest else false

-- The percentile and the floors that a market is held against.
pub record Bar (F : Type 0) : Type 0 where
  pub tier : String
  pub top_pct : F
  pub volume_floor : F
  pub liquidity_floor : F

-- The set of the core categories.
unfoldable pub core_set : ⦃u : Runes⦄ → List String → List String
core_set [] = []
core_set (category ∷ categories) =
    let rest = core_set categories in
    let normalized = normalize_category category in
    if normalized == "" then rest else normalized ∷ rest

module _ {F : Type 0} ⦃d : Double F⦄ where
  -- `withSelectionDefaults`
  unfoldable pub with_selection_defaults : SelectionConfig F → SelectionConfig F
  with_selection_defaults cfg = record cfg {
    core_categories = elim cfg.core_categories [
      | [] ↦ "Sports" ∷ "Soccer" ∷ "Politics" ∷ []
      | c ∷ cs ↦ c ∷ cs
    ];
    core_top_percentile =
        if d.le cfg.core_top_percentile nought || lt one cfg.core_top_percentile
        then d.lit 30 100
        else cfg.core_top_percentile;
    other_top_percentile =
        if d.le cfg.other_top_percentile nought || lt one cfg.other_top_percentile
        then d.lit 10 100
        else cfg.other_top_percentile;
  }

  -- `sort.Float64s`: NaN comes first.
  unfoldable pub insert_float : F → List F → List F
  insert_float x [] = x ∷ []
  insert_float x (y ∷ ys) =
      if lt y x || (d.is_nan y && not (d.is_nan x)) then y ∷ insert_float x ys else x ∷ y ∷ ys

  unfoldable pub sort_floats : List F → List F
  unfolding insert_float
  sort_floats [] = []
  sort_floats (x ∷ xs) = insert_float x (sort_floats xs)

  -- The index of `percentileFloor` in a list that is not empty.
  unfoldable pub percentile_index : ℕ → F → ℕ
  percentile_index n q =
      let low = if d.le q nought then nought else q in
      let share = if d.le one low then one else low in
      elim (d.floor (d.mul share (d.lit n 1))) [
        | negsuc _ ↦ 0
        | pos index ↦ if leb n index then n - 1 else index
      ]

  -- `percentileFloor`
  unfoldable pub percentile_floor : List F → F → F
  unfolding sort_floats percentile_index
  percentile_floor [] q = nought
  percentile_floor (x ∷ xs) q =
      let values = x ∷ xs in
      elim (get_elem? (sort_floats values) (percentile_index (length values) q)) [
        | none ↦ nought
        | some v ↦ v
      ]

  unfoldable pub count_upto : F → List F → ℕ
  count_upto value [] = 0
  count_upto value (entry ∷ entries) =
      let rest = count_upto value entries in if d.le entry value then suc rest else rest

  -- `percentileRank`
  unfoldable pub percentile_rank : List F → F → F
  unfolding count_upto
  percentile_rank [] value = nought
  percentile_rank (x ∷ xs) value =
      let values = x ∷ xs in d.div (d.lit (count_upto value values) 1) (d.lit (length values) 1)

  -- The markets that have a volume, a liquidity and a token, with their tokens normalized.
  unfoldable pub valid_markets : List (MarketSnapshot F) → List (MarketSnapshot F)
  valid_markets [] = []
  valid_markets (market ∷ markets) =
      let rest = valid_markets markets in
      let tokens = normalize_token_ids market.token_ids in
      if d.le market.volume nought || d.le market.liquidity nought
      then rest
      else elim tokens [ [] ↦ rest | t ∷ ts ↦ record market { token_ids = t ∷ ts } ∷ rest ]

  -- The order of the candidates: by score, by volume, by liquidity, each from the greatest, then by
  -- identifier.
  unfoldable pub less : Candidate F → Candidate F → Bool
  unfolding text_less
  less a b =
      if not (eq a.score b.score)
      then lt b.score a.score
      else if not (eq a.volume b.volume)
      then lt b.volume a.volume
      else if not (eq a.liquidity b.liquidity)
      then lt b.liquidity a.liquidity
      else text_less a.id b.id

  -- `sort.SliceStable`
  unfoldable pub insert_candidate : Candidate F → List (Candidate F) → List (Candidate F)
  insert_candidate x [] = x ∷ []
  insert_candidate x (y ∷ ys) = if less y x then y ∷ insert_candidate x ys else x ∷ y ∷ ys

  unfoldable pub sort_candidates : List (Candidate F) → List (Candidate F)
  unfolding insert_candidate
  sort_candidates [] = []
  sort_candidates (x ∷ xs) = insert_candidate x (sort_candidates xs)

  unfoldable pub bar_of : List F → List F → String → F → Bar F
  bar_of volumes liquidities tier top_pct = record {
    tier = tier;
    top_pct = top_pct;
    volume_floor = percentile_floor volumes (d.sub one top_pct);
    liquidity_floor = percentile_floor liquidities (d.sub one top_pct);
  }

  unfoldable pub candidate_of : List F → List F → Bar F → MarketSnapshot F → Candidate F
  candidate_of volumes liquidities bar market =
      let volume_rank = percentile_rank volumes market.volume in
      let liquidity_rank = percentile_rank liquidities market.liquidity in
      record {
        id = market.id;
        question = market.question;
        category = market.category;
        tier = bar.tier;
        volume = market.volume;
        liquidity = market.liquidity;
        volume_rank = volume_rank;
        liquidity_rank = liquidity_rank;
        score = d.add volume_rank liquidity_rank;
        token_ids = market.token_ids;
        market_top_pct = bar.top_pct;
        volume_floor = bar.volume_floor;
        liquidity_floor = bar.liquidity_floor;
      }

  module _ ⦃u : Runes⦄ where
    -- The loop over the valid markets.
    unfoldable pub candidates_of :
        List String → List F → List F → Bar F → Bar F → List (MarketSnapshot F) → List (Candidate F)
    unfolding candidate_of
    candidates_of core volumes liquidities core_bar other_bar [] = []
    candidates_of core volumes liquidities core_bar other_bar (market ∷ markets) =
        let rest = candidates_of core volumes liquidities core_bar other_bar markets in
        let bar = if elem (normalize_category market.category) core then core_bar else other_bar in
        if lt market.volume bar.volume_floor || lt market.liquidity bar.liquidity_floor
        then rest
        else candidate_of volumes liquidities bar market ∷ rest

    -- `SelectCandidates`
    unfoldable pub select_candidates :
        List (MarketSnapshot F) → SelectionConfig F → List (Candidate F)
    unfolding with_selection_defaults core_set valid_markets bar_of candidates_of sort_candidates
    select_candidates markets cfg =
        let config = with_selection_defaults cfg in
        let valid = valid_markets markets in
        let volumes = map (λ m. m.volume) valid in
        let liquidities = map (λ m. m.liquidity) valid in
        let candidates = sort_candidates (
          candidates_of (core_set config.core_categories) volumes liquidities
            (bar_of volumes liquidities "tier1" config.core_top_percentile)
            (bar_of volumes liquidities "tier3" config.other_top_percentile) valid) in
        elim config.max_markets [
          | negsuc _ ↦ candidates
          | pos zero ↦ candidates
          | pos (suc n) ↦ take (suc n) candidates
        ]
