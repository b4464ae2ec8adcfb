-- ===== src/Market/Updates.antt =====
-- What the updates of a frame are.
use polymarket_signal_autopi.Base.{
  ℕ, ◌≡◌, refl, sym, ap, ◌∙◌, subst, inl, inr, false, String, none, some, List, [], ◌∷◌, ◌++◌,
  nat_beq, All, ◌==◌, text_eq, if◌then◌else◌, Result, ok, err, Result-cases, Bool-cases, arith,
  collect, collect-All, ◌↔◌,
}
use polymarket_signal_autopi.Strategy.RankShift.Defs.{MarketUpdate}
use polymarket_signal_autopi.Market.Decode.{
  PriceChange, Envelope, FrameDecoder, first_or, change_updates, single_update, envelope_updates,
  enveloped, decode_market_update_envelope, joined, decode_entries, decode_array, decode_trimmed,
  decode_market_updates,
}

-- An update with an asset and a type.
abbrev pub IsAddressed : MarketUpdate → Type 0
IsAddressed u = (u.asset_id == "" ≡ false) × (u.kind == "" ≡ false)

change_updates-IsAddressed :
    (event_type : String) (changes : List PriceChange)
    → event_type == "" ≡ false
    → All IsAddressed (change_updates event_type changes)
unfolding change_updates
change_updates-IsAddressed event_type [] h = tt
change_updates-IsAddressed event_type (change ∷ changes) h =
    let ih = change_updates-IsAddressed event_type changes h in
    elim (Bool-cases (change.asset_id == "")) [
      | inl none_ ↦ rw none_ ih
      | inr named ↦
          rw named
            (elim change.encoded
              as (λ o. All IsAddressed (elim o as (λ o'. List MarketUpdate) [
                | none ↦ change_updates event_type changes
                | some payload ↦
                    record { asset_id = change.asset_id; kind = event_type; payload = payload }
                    ∷ change_updates event_type changes
              ])) [ none ↦ ih | some payload ↦ ((named, h), ih) ])
    ]

single_update-IsAddressed :
    (raw : List ℕ) (event_type : String) (e : Envelope)
    → event_type == "" ≡ false
    → All IsAddressed (single_update raw event_type e)
unfolding single_update
single_update-IsAddressed raw event_type e h =
    elim (Bool-cases ((if e.asset_id == "" then first_or e.asset_ids else e.asset_id) == "")) [
      | inl none_ ↦ rw none_ tt
      | inr named ↦ rw named ((named, h), tt)
    ]

-- The first of two lists that is not empty.
chosen-All :
    (us vs : List MarketUpdate)
    → All IsAddressed us
    → All IsAddressed vs
    → All IsAddressed (elim us [ [] ↦ vs | w ∷ ws ↦ w ∷ ws ])
chosen-All [] vs h k = k
chosen-All (w ∷ ws) vs h k = h

envelope_updates-IsAddressed :
    (raw : List ℕ) (e : Envelope) → All IsAddressed (envelope_updates raw e)
unfolding envelope_updates
envelope_updates-IsAddressed raw e =
    let event_type : String = if e.kind == "" then e.event_type else e.kind in
    elim (Bool-cases (event_type == "")) [
      | inl none_ ↦ rw none_ tt
      | inr typed ↦ rw typed (
          chosen-All (change_updates event_type e.price_changes) (single_update raw event_type e)
            (change_updates-IsAddressed event_type e.price_changes typed)
            (single_update-IsAddressed raw event_type e typed))
    ]

abbrev updates_in : List ℕ → Result Envelope → List MarketUpdate
updates_in entry (err why) = []
updates_in entry (ok e) = envelope_updates entry e

-- The updates that an entry stands for, none if it cannot be decoded.
abbrev pub updates_of : FrameDecoder → List ℕ → List MarketUpdate
updates_of dec entry = updates_in entry (dec.envelope entry)

abbrev pub IsDecoded : FrameDecoder → List ℕ → Type 0
IsDecoded dec entry = (e : Envelope) × (dec.envelope entry ≡ ok e)

updates_in-IsAddressed :
    (entry : List ℕ) (r : Result Envelope) → All IsAddressed (updates_in entry r)
updates_in-IsAddressed entry (err why) = tt
updates_in-IsAddressed entry (ok e) = envelope_updates-IsAddressed entry e

enveloped-ok :
    (raw : List ℕ) (r : Result Envelope) (us : List MarketUpdate)
    → enveloped raw r ≡ ok us
    → ((e : Envelope) × (r ≡ ok e)) × (us ≡ updates_in raw r)
unfolding enveloped
enveloped-ok raw (err why) us h = absurd (ground (arith, h))
enveloped-ok raw (ok e) us h = ((e, refl), ground (arith, h))

joined-ok :
    (a b : Result (List MarketUpdate)) (us : List MarketUpdate)
    → joined a b ≡ ok us
    → (vs : List MarketUpdate) × (ws : List MarketUpdate) × (a ≡ ok vs)
      × (b ≡ ok ws)
      × (us ≡ vs ++ ws)
unfolding joined
joined-ok (err why) b us h = absurd (ground (arith, h))
joined-ok (ok vs) (err why) us h = absurd (ground (arith, h))
joined-ok (ok vs) (ok ws) us h = (vs, ws, refl, refl, ground (arith, h))

decode_entries-ok :
    (dec : FrameDecoder) (entries : List (List ℕ)) (us : List MarketUpdate)
    → decode_entries dec entries ≡ ok us
    → All (IsDecoded dec) entries × (us ≡ collect (updates_of dec) entries)
unfolding decode_entries decode_market_update_envelope collect
decode_entries-ok dec [] us h = (tt, ground (arith, h))
decode_entries-ok dec (entry ∷ entries) us h =
    let (vs, ws, first, rest, q) = joined-ok _ _ us h in
    let (decoded, here) = enveloped-ok entry (dec.envelope entry) vs first in
    let (all, there) = decode_entries-ok dec entries ws rest in
    ((decoded, all), rw (q, here, there) refl)

decode_entries-collect :
    (dec : FrameDecoder) (entries : List (List ℕ))
    → All (IsDecoded dec) entries
    → decode_entries dec entries ≡ ok (collect (updates_of dec) entries)
unfolding decode_entries decode_market_update_envelope collect enveloped joined
decode_entries-collect dec [] h = refl
decode_entries-collect dec (entry ∷ entries) ((e, q), h) =
    rw (q, decode_entries-collect dec entries h) refl

-- The entries of an array give updates exactly if every one of them can be decoded, and then those of all
-- of them, one after another: one entry that is no envelope loses the whole frame.
pub decode_entries-ok_iff :
    (dec : FrameDecoder) (entries : List (List ℕ)) (us : List MarketUpdate)
    → (decode_entries dec entries ≡ ok us)
      ↔ (All (IsDecoded dec) entries × (us ≡ collect (updates_of dec) entries))
decode_entries-ok_iff dec entries us = (
  decode_entries-ok dec entries us,
  λ (h, q). decode_entries-collect dec entries h ∙ ap ok (sym q),
)

abbrev Addressed : Result (List MarketUpdate) → Type 0
Addressed (err why) = Unit
Addressed (ok us) = All IsAddressed us

enveloped-Addressed : (raw : List ℕ) (r : Result Envelope) → Addressed (enveloped raw r)
unfolding enveloped
enveloped-Addressed raw (err why) = tt
enveloped-Addressed raw (ok e) = envelope_updates-IsAddressed raw e

decode_array-Addressed :
    (dec : FrameDecoder) (r : Result (List (List ℕ))) → Addressed (decode_array dec r)
unfolding decode_array
decode_array-Addressed dec (err why) = tt
decode_array-Addressed dec (ok entries) = elim (Result-cases (decode_entries dec entries)) [
  | inl (why, q) ↦ subst Addressed (sym q) tt
  | inr (us, q) ↦
      let (_, same) = decode_entries-ok dec entries us q in
      subst Addressed (sym q) (
        rw same (
          collect-All IsAddressed (updates_of dec) entries
            (λ entry. updates_in-IsAddressed entry (dec.envelope entry))))
]

decode_trimmed-Addressed : (dec : FrameDecoder) (raw : List ℕ) → Addressed (decode_trimmed dec raw)
unfolding decode_trimmed decode_market_update_envelope
decode_trimmed-Addressed dec [] = tt
decode_trimmed-Addressed dec (b ∷ bytes) = elim (Bool-cases (nat_beq b b'[')) [
  | inl array ↦ rw array (decode_array-Addressed dec (dec.entries (b ∷ bytes)))
  | inr single ↦ rw single (enveloped-Addressed (b ∷ bytes) (dec.envelope (b ∷ bytes)))
]

-- Whatever a frame holds: each update that is read off it has an asset and a type.
pub decode_market_updates-IsAddressed :
    (dec : FrameDecoder) (raw : List ℕ) (us : List MarketUpdate)
    → decode_market_updates dec raw ≡ ok us
    → All IsAddressed us
unfolding decode_market_updates
decode_market_updates-IsAddressed dec raw us h =
    subst Addressed h (decode_trimmed-Addressed dec (dec.trim_space raw))
