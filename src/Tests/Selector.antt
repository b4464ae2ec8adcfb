-- ===== src/Tests/Selector.antt =====
-- The choice of markets and tokens on concrete markets.
use polymarket_signal_autopi.Base.{ℕ, suc, ◌≡◌, refl, ◌≤◌, String, List, [], ◌∷◌, pos, length, All}
use polymarket_signal_autopi.Double.Fixed.{Fixed, fixed_double, num, Fixed-IsOrdered}
use polymarket_signal_autopi.Text.Ascii.{ascii_runes}
use polymarket_signal_autopi.Selector.Defs.{
  MarketSnapshot, SelectionConfig, Candidate, build_poly_asset_ids,
}
use polymarket_signal_autopi.Selector.Select.{select_candidates}
use polymarket_signal_autopi.Selector.Select.Floors.{MeetsFloors, select_candidates-MeetsFloors}
use polymarket_signal_autopi.Selector.Select.Sorting.{IsInOrder}
use polymarket_signal_autopi.Selector.Tokens.{IsTokenList, build_poly_asset_ids-IsTokenList}

abbrev market : String → ℕ → List String → MarketSnapshot Fixed
market id n tokens = record {
  id = id;
  question = "q";
  category = "Politics";
  volume = num (pos n);
  liquidity = num (pos n);
  token_ids = tokens;
}

abbrev markets : List (MarketSnapshot Fixed)
markets =
    market "m1" 5 (" a" ∷ "b" ∷ []) ∷ market "m2" 9 ("a" ∷ "c" ∷ []) ∷ market "m3" 0 ("d" ∷ []) ∷ []

abbrev config : SelectionConfig Fixed
config = record {
  core_categories = [];
  core_top_percentile = num (pos 1_000_000);
  other_top_percentile = num (pos 0);
  max_markets = pos 5;
}

abbrev candidates : List (Candidate Fixed)
unfolding select_candidates
candidates = select_candidates markets config

build_poly_asset_ids-IsTokenList_example :
    IsTokenList (build_poly_asset_ids candidates (pos 2))
    × ((n : ℕ) → pos 2 ≡ pos n → length (build_poly_asset_ids candidates (pos 2)) ≤ n)
build_poly_asset_ids-IsTokenList_example = build_poly_asset_ids-IsTokenList candidates (pos 2)

select_candidates-MeetsFloors_example :
    All (MeetsFloors markets) (select_candidates markets config)
    × IsInOrder (select_candidates markets config)
    × ((n : ℕ) → pos 5 ≡ pos (suc n) → length (select_candidates markets config) ≤ suc n)
select_candidates-MeetsFloors_example =
    select_candidates-MeetsFloors Fixed-IsOrdered markets
      ((refl, refl), ((refl, refl), ((refl, refl), tt))) config
