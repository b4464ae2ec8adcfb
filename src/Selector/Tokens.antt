-- ===== src/Selector/Tokens.antt =====
-- The identifiers that are watched.
use polymarket_signal_autopi.Base.{
  ℕ, zero, suc, ◌≤◌, ◌≡◌, ◌≢◌, refl, inl, inr, Bool, false, ◌&&◌, String, List, [], ◌∷◌, ◌++◌, ℤ,
  pos, negsuc, length, length-append, All, All-append, elem, elem-append, IsDistinct, ltb_ℤ, leb_ℤ,
  ◌==◌, text_eq, arith, Bool-cases,
}
use polymarket_signal_autopi.Text.{trim_space, trim_space_idem}
use polymarket_signal_autopi.Selector.Defs.{
  Candidate, add_tokens, add_candidates, build_poly_asset_ids,
}

-- Identifiers as the program hands them on.
pub record IsTokenList (ids : List String) : Type 0 where
  pub trimmed : All (λ s. (trim_space s ≡ s) × (s ≢ "")) ids
  pub distinct : IsDistinct ids

IsDistinct-snoc :
    (ids : List String) (s : String)
    → IsDistinct ids
    → elem s ids ≡ false
    → IsDistinct (ids ++ (s ∷ []))
IsDistinct-snoc [] s h e = (refl, tt)
IsDistinct-snoc (x ∷ xs) s (h, hs) e = (
  ground (arith, elem-append x xs (s ∷ []), text_eq.same_iff x s, text_eq.same_iff s x),
  IsDistinct-snoc xs s hs (ground arith),
)

snoc-IsTokenList :
    (ids : List String) (token : String)
    → IsTokenList ids
    → (trim_space token == "") ≡ false
    → elem (trim_space token) ids ≡ false
    → IsTokenList (ids ++ (trim_space token ∷ []))
snoc-IsTokenList ids token h ne new = record {
  trimmed =
      All-append _ ids (trim_space token ∷ []) h.trimmed
        ((trim_space_idem token, ground (arith, text_eq.same_iff (trim_space token) "")), tt);
  distinct = IsDistinct-snoc ids (trim_space token) h.distinct new;
}

-- Below a positive bound, or at it with the loop left.
abbrev Bounded : ℤ → List String × Bool → Type 0
Bounded max_ids r =
    IsTokenList r.0
    × ((n : ℕ) → max_ids ≡ pos (suc n) → length r.0 ≤ suc n × (r.1 ≡ false → length r.0 ≤ n))

add_tokens-Bounded :
    (max_ids : ℤ) (ids tokens : List String)
    → IsTokenList ids
    → ((n : ℕ) → max_ids ≡ pos (suc n) → length ids ≤ n)
    → Bounded max_ids (add_tokens max_ids ids tokens)
unfolding add_tokens
add_tokens-Bounded max_ids ids [] h b = (h, λ n e. (ground (arith, b n e), λ _. b n e))
add_tokens-Bounded max_ids ids (token ∷ tokens) h b =
    let skip = add_tokens-Bounded max_ids ids tokens h b in
    elim (Bool-cases (trim_space token == "")) [
      | inl e ↦ rw e skip
      | inr ne ↦ elim (Bool-cases (elem (trim_space token) ids)) [
        | inl old ↦ rw (ne, old) skip
        | inr new ↦
            let longer = ids ++ (trim_space token ∷ []) in
            let more = snoc-IsTokenList ids token h ne new in
            elim (Bool-cases (ltb_ℤ (pos 0) max_ids && leb_ℤ max_ids (pos (length longer)))) [
              | inl full ↦
                  rw (ne, new, full)
                    (
                      more,
                      λ n e. (
                        ground (arith, b n e, length-append ids (trim_space token ∷ [])),
                        λ f. ground arith,
                      ),
                    )
              | inr room ↦
                  rw (ne, new, room)
                    (add_tokens-Bounded max_ids longer tokens more (λ n e. ground arith))
            ]
      ]
    ]

module _ {F : Type 0} where
  add_candidates-Bounded :
      (max_ids : ℤ) (ids : List String) (candidates : List (Candidate F))
      → IsTokenList ids
      → ((n : ℕ) → max_ids ≡ pos (suc n) → length ids ≤ n)
      → IsTokenList (add_candidates max_ids ids candidates)
        × ((n : ℕ) → max_ids ≡ pos (suc n) → length (add_candidates max_ids ids candidates) ≤ suc n)
  unfolding add_candidates
  add_candidates-Bounded max_ids ids [] h b = (h, λ n e. ground (arith, b n e))
  add_candidates-Bounded max_ids ids (candidate ∷ candidates) h b =
      let step = add_tokens max_ids ids candidate.token_ids in
      let bounded = add_tokens-Bounded max_ids ids candidate.token_ids h b in
      elim (Bool-cases step.1) [
        | inl full ↦ rw full (bounded.0, λ n e. (bounded.1 n e).0)
        | inr room ↦ rw room (
            add_candidates-Bounded max_ids step.0 candidates bounded.0
              (λ n e. (bounded.1 n e).1 room))
      ]

  -- Whatever the candidates: the identifiers are trimmed, not empty and all different, and there are at
  -- most `max_ids` of them, unless that is negative, which stands for no bound.
  pub build_poly_asset_ids-IsTokenList :
      (candidates : List (Candidate F)) (max_ids : ℤ)
      → IsTokenList (build_poly_asset_ids candidates max_ids)
        × ((n : ℕ) → max_ids ≡ pos n → length (build_poly_asset_ids candidates max_ids) ≤ n)
  unfolding build_poly_asset_ids
  build_poly_asset_ids-IsTokenList candidates (pos zero) =
      (record { trimmed = tt; distinct = tt }, λ n e. ground arith)
  build_poly_asset_ids-IsTokenList candidates (pos (suc m)) =
      let r =
        add_candidates-Bounded (pos (suc m)) [] candidates (record { trimmed = tt; distinct = tt })
          (λ n e. ground arith) in
      (r.0, λ n e. ground (arith, r.1 m refl))
  build_poly_asset_ids-IsTokenList candidates (negsuc m) =
      let r =
        add_candidates-Bounded (negsuc m) [] candidates (record { trimmed = tt; distinct = tt })
          (λ n e. ground arith) in
      (r.0, λ n e. ground arith)
