-- ===== src/Selector/Defs.antt =====
-- The choice of markets and tokens. A Go set is the list of its keys.
use polymarket_signal_autopi.Base.{
  zero, Bool, true, false, not, ◌&&◌, ◌||◌, String, Option, none, some, List, [], ◌∷◌, ◌++◌, ℤ, pos,
  length, elem, ltb_ℤ, leb_ℤ, ◌==◌, text_eq, if◌then◌else◌,
}
use polymarket_signal_autopi.Text.{Runes, lower_trimmed, trim_space}

pub record MarketSnapshot (F : Type 0) : Type 0 where
  pub id : String
  pub question : String
  pub category : String
  pub volume : F
  pub liquidity : F
  pub token_ids : List String

pub record SelectionConfig (F : Type 0) : Type 0 where
  pub core_categories : List String
  pub core_top_percentile : F
  pub other_top_percentile : F
  pub max_markets : ℤ

pub record Candidate (F : Type 0) : Type 0 where
  pub id : String
  pub question : String
  pub category : String
  pub tier : String
  pub volume : F
  pub liquidity : F
  pub volume_rank : F
  pub liquidity_rank : F
  pub score : F
  pub token_ids : List String
  pub market_top_pct : F
  pub volume_floor : F
  pub liquidity_floor : F

-- The loop of `normalizeTokenIDs`, from the tokens seen so far.
unfoldable pub normalize_from : List String → List String → List String
normalize_from seen [] = []
normalize_from seen (token ∷ tokens) =
    let trimmed = trim_space token in
    let skip = normalize_from seen tokens in
    let keep = trimmed ∷ normalize_from (trimmed ∷ seen) tokens in
    if trimmed == "" then skip else if elem trimmed seen then skip else keep

-- `normalizeTokenIDs`
abbrev pub normalize_token_ids : List String → List String
normalize_token_ids token_ids = normalize_from [] token_ids

-- The tokens of one candidate in the loop of `BuildPOLYAssetIDs`: the identifiers so far, which are also
-- the keys seen, and whether the bound was reached.
unfoldable pub add_tokens : ℤ → List String → List String → List String × Bool
add_tokens max_ids ids [] = (ids, false)
add_tokens max_ids ids (token ∷ tokens) =
    let trimmed = trim_space token in
    let longer = ids ++ (trimmed ∷ []) in
    let skip = add_tokens max_ids ids tokens in
    let keep = add_tokens max_ids longer tokens in
    if trimmed == ""
    then skip
    else if elem trimmed ids
    then skip
    else if ltb_ℤ (pos 0) max_ids && leb_ℤ max_ids (pos (length longer))
    then (longer, true)
    else keep

-- `normalizeCategory`
abbrev pub normalize_category : ⦃u : Runes⦄ → String → String
normalize_category category = lower_trimmed category

-- The two identifiers of a list that has two.
unfoldable pub first_two : List String → String × String
first_two (first ∷ second ∷ []) = (first, second)
first_two ids = ("", "")

module _ {F : Type 0} where
  unfoldable pub add_candidates : ℤ → List String → List (Candidate F) → List String
  unfolding add_tokens
  add_candidates max_ids ids [] = ids
  add_candidates max_ids ids (candidate ∷ candidates) =
      let step = add_tokens max_ids ids candidate.token_ids in
      let rest = add_candidates max_ids step.0 candidates in if step.1 then step.0 else rest

  -- `BuildPOLYAssetIDs`
  unfoldable pub build_poly_asset_ids : List (Candidate F) → ℤ → List String
  unfolding add_candidates
  build_poly_asset_ids candidates (pos zero) = []
  build_poly_asset_ids candidates max_ids = add_candidates max_ids [] candidates

  module _ ⦃u : Runes⦄ where
    -- One round of the inner loop of `SuggestPair`, for two candidates with their first tokens.
    unfoldable pub pair_between :
        Candidate F → String → Candidate F → String → Option (String × String)
    pair_between left first right token =
        let asset_a = trim_space first in
        let asset_b = trim_space token in
        if not (normalize_category left.category == normalize_category right.category)
        then none
        else if asset_a == "" || asset_b == "" || asset_a == asset_b
        then none
        else some (asset_a, asset_b)

    -- The round, where the second candidate may have no token.
    unfoldable pub pair_of : Candidate F → String → Candidate F → Option (String × String)
    unfolding pair_between
    pair_of left first right = elim right.token_ids [
      | [] ↦ none
      | token ∷ _ ↦ pair_between left first right token
    ]

    unfoldable pub partner_of : Candidate F → String → List (Candidate F) → Option (String × String)
    unfolding pair_of
    partner_of left first [] = none
    partner_of left first (right ∷ rest) =
        let later = partner_of left first rest in
        elim (pair_of left first right) [ none ↦ later | some pair ↦ some pair ]

    unfoldable pub pair_in : List (Candidate F) → Option (String × String)
    unfolding partner_of
    pair_in [] = none
    pair_in (left ∷ rest) =
        let later = pair_in rest in
        elim left.token_ids [
          | [] ↦ later
          | first ∷ _ ↦ elim (partner_of left first rest) [ none ↦ later | some pair ↦ some pair ]
        ]

    -- `SuggestPair`
    unfoldable pub suggest_pair : List (Candidate F) → String × String
    unfolding pair_in build_poly_asset_ids first_two
    suggest_pair candidates = elim (pair_in candidates) [
      | some pair ↦ pair
      | none ↦ first_two (build_poly_asset_ids candidates (pos 2))
    ]
