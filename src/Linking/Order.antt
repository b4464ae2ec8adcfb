-- ===== src/Linking/Order.antt =====
-- The directions and the earliest time against the times that they come from.
use polymarket_signal_autopi.Base.{
  ◌≡◌, ◌↔◌, refl, sym, subst, ◌≤◌, ◌<◌, ◌⊎◌, inl, inr, true, List, [], ◌∷◌, Time, All, ltb,
  if◌then◌else◌, arith, Bool-cases,
}
use polymarket_signal_autopi.Linking.{
  Item, Link, direction_from_delta, compute_dual_clock_delta, direction_consistent, earliest_from,
  earliest_first_seen,
}

-- The two clocks of a link agree exactly if by both the news came before the market event, or by both
-- after it.
pub direction_consistent-compute_iff :
    {F : Type 0} (link : Link F)
    → let news = link.news_item in
      let event = link.market_event in
      (direction_consistent (compute_dual_clock_delta link) ≡ true) ↔ (
        ((news.published_ts < event.source_ts) × (news.first_seen_ingest_ts < event.ingest_ts))
        ⊎ ((event.source_ts < news.published_ts) × (event.ingest_ts < news.first_seen_ingest_ts)))
unfolding direction_consistent compute_dual_clock_delta direction_from_delta
direction_consistent-compute_iff link = ground arith

-- Whether a time is the one of an item.
pub IsSeenAt : Time → List Item → Type 0
IsSeenAt t [] = ⊥
IsSeenAt t (item ∷ items) = (item.first_seen_ingest_ts ≡ t) ⊎ IsSeenAt t items

-- Not after a start and the items, and one of these.
abbrev IsLeast : Time → List Item → Time → Type 0
IsLeast t items r =
    (r ≤ t) × All (λ item. r ≤ item.first_seen_ingest_ts) items × ((r ≡ t) ⊎ IsSeenAt r items)

earliest_from-IsLeast : (t : Time) (items : List Item) → IsLeast t items (earliest_from t items)
unfolding earliest_from IsSeenAt
earliest_from-IsLeast t [] = (ground arith, tt, inl refl)
earliest_from-IsLeast t (item ∷ items) =
    let seen = item.first_seen_ingest_ts in
    elim (Bool-cases (ltb seen t)) [
      | inl before ↦
          let (a, b, c) = earliest_from-IsLeast seen items in
          subst (λ s. IsLeast t (item ∷ items) (earliest_from (if s then seen else t) items))
            (sym before)
            (ground (arith, a), (a, b), elim c [ inl e ↦ inr (inl (sym e)) | inr e ↦ inr (inr e) ])
      | inr after ↦
          let (a, b, c) = earliest_from-IsLeast t items in
          subst (λ s. IsLeast t (item ∷ items) (earliest_from (if s then seen else t) items))
            (sym after) (a, (ground (arith, a), b), elim c [ inl e ↦ inl e | inr e ↦ inr (inr e) ])
    ]

-- The earliest time of items that are not none is that of one of them, and no item is seen before it.
pub earliest_first_seen-IsLeast :
    (item : Item) (items : List Item)
    → let t = earliest_first_seen (item ∷ items) in
      IsSeenAt t (item ∷ items) × All (λ i. t ≤ i.first_seen_ingest_ts) (item ∷ items)
unfolding earliest_first_seen IsSeenAt
earliest_first_seen-IsLeast item items =
    let (a, b, c) = earliest_from-IsLeast item.first_seen_ingest_ts items in
    (elim c [ inl e ↦ inl (sym e) | inr e ↦ inr e ], (a, b))
