-- ===== src/Selector/Pairs.antt =====
-- The suggested pair.
use polymarket_signal_autopi.Base.{
  ◌≡◌, ◌≢◌, refl, ◌⊎◌, inl, inr, ◌||◌, String, Option, none, some, List, [], ◌∷◌, pos, ◌==◌,
  text_eq, arith, Bool-cases,
}
use polymarket_signal_autopi.Text.{Runes, trim_space, trim_space_idem}
use polymarket_signal_autopi.Selector.Defs.{
  Candidate, build_poly_asset_ids, normalize_category, pair_between, first_two, pair_of, partner_of,
  pair_in, suggest_pair,
}
use polymarket_signal_autopi.Selector.Tokens.{IsTokenList, build_poly_asset_ids-IsTokenList}

-- Two different identifiers that are trimmed and not empty.
pub record IsPair (pair : String × String) : Type 0 where
  pub left_trimmed : trim_space pair.0 ≡ pair.0
  pub right_trimmed : trim_space pair.1 ≡ pair.1
  pub left_known : pair.0 ≢ ""
  pub right_known : pair.1 ≢ ""
  pub different : pair.0 ≢ pair.1

-- A result that holds a pair holds two different identifiers.
abbrev Sound : Option (String × String) → Type 0
Sound o = elim o [ none ↦ Unit {0} | some pair ↦ IsPair pair ]

Sound-or_else :
    (o later : Option (String × String))
    → Sound o
    → Sound later
    → Sound (elim o [ none ↦ later | some pair ↦ some pair ])
Sound-or_else none later h l = l
Sound-or_else (some pair) later h l = h

first_two-IsPair :
    (ids : List String) → IsTokenList ids → IsPair (first_two ids) ⊎ (first_two ids ≡ ("", ""))
unfolding first_two
first_two-IsPair [] h = inr refl
first_two-IsPair (a ∷ []) h = inr refl
first_two-IsPair (a ∷ b ∷ []) h =
    let ta = h.trimmed.0 in
    let tb = h.trimmed.1.0 in
    inl (record {
      left_trimmed = ta.0;
      right_trimmed = tb.0;
      left_known = ta.1;
      right_known = tb.1;
      different = ground (arith, h.distinct.0, text_eq.same_iff b a);
    })
first_two-IsPair (a ∷ b ∷ c ∷ rest) h = inr refl

suggest_from :
    (o : Option (String × String)) (ids : List String)
    → Sound o
    → IsTokenList ids
    → let r : String × String = elim o [ some pair ↦ pair | none ↦ first_two ids ] in
      IsPair r ⊎ (r ≡ ("", ""))
suggest_from none ids h l = first_two-IsPair ids l
suggest_from (some pair) ids h l = inl h

module _ {F : Type 0} ⦃u : Runes⦄ where
  Sound-pair_between :
      (left : Candidate F) (first : String) (right : Candidate F) (token : String)
      → Sound (pair_between left first right token)
  unfolding pair_between
  Sound-pair_between left first right token =
      let a = trim_space first in
      let b = trim_space token in
      elim (Bool-cases (normalize_category left.category == normalize_category right.category)) [
        | inr ne ↦ rw ne tt
        | inl e ↦ elim (Bool-cases (a == "" || b == "" || a == b)) [
          | inl bad ↦ rw (e, bad) tt
          | inr good ↦
              rw (e, good)
                (record {
                  left_trimmed = trim_space_idem first;
                  right_trimmed = trim_space_idem token;
                  left_known = ground (arith, text_eq.same_iff a "");
                  right_known = ground (arith, text_eq.same_iff b "");
                  different = ground (arith, text_eq.same_iff a b);
                })
        ]
      ]

  Sound-pair_of :
      (left : Candidate F) (first : String) (right : Candidate F) → Sound (pair_of left first right)
  unfolding pair_of
  Sound-pair_of left first right =
      elim right.token_ids
        as (λ l. Sound (elim l [ [] ↦ none | token ∷ _ ↦ pair_between left first right token ])) [
          | [] ↦ tt
          | token ∷ _ ↦ Sound-pair_between left first right token
        ]

  Sound-partner_of :
      (left : Candidate F) (first : String) (rest : List (Candidate F))
      → Sound (partner_of left first rest)
  unfolding partner_of
  Sound-partner_of left first [] = tt
  Sound-partner_of left first (right ∷ rest) =
      Sound-or_else (pair_of left first right) (partner_of left first rest)
        (Sound-pair_of left first right) (Sound-partner_of left first rest)

  Sound-pair_in : (candidates : List (Candidate F)) → Sound (pair_in candidates)
  unfolding pair_in
  Sound-pair_in [] = tt
  Sound-pair_in (left ∷ rest) =
      elim left.token_ids
        as (λ l. Sound (elim l [
          | [] ↦ pair_in rest
          | first ∷ _ ↦ elim (partner_of left first rest) [
            | none ↦ pair_in rest
            | some pair ↦ some pair
          ]
        ])) [
          | [] ↦ Sound-pair_in rest
          | first ∷ _ ↦
              Sound-or_else (partner_of left first rest) (pair_in rest)
                (Sound-partner_of left first rest) (Sound-pair_in rest)
        ]

  -- The suggested pair is two different identifiers that are trimmed and not empty, or two empty texts.
  pub suggest_pair-IsPair :
      (candidates : List (Candidate F))
      → IsPair (suggest_pair candidates) ⊎ (suggest_pair candidates ≡ ("", ""))
  unfolding suggest_pair
  suggest_pair-IsPair candidates =
      suggest_from (pair_in candidates) (build_poly_asset_ids candidates (pos 2))
        (Sound-pair_in candidates) (build_poly_asset_ids-IsTokenList candidates (pos 2)).0
