-- ===== src/Runtime/Anomaly/Severity.antt =====
-- How severe a signal is: normal forms, ranks, the order of scores, and what the metadata carries on.
use polymarket_signal_autopi.Base.{
  ◌≤◌, ◌≡◌, refl, sym, ap, ◌∙◌, ◌↔◌, ◌⊎◌, inl, inr, true, false, String, Option, none, some, Time,
  lookup, insert, lookup-insert, GoMap, ◌==◌, text_eq, if◌then◌else◌, arith, Bool-cases,
}
use polymarket_signal_autopi.Double.{Double, IsOrdered, nought}
use polymarket_signal_autopi.Text.{
  Runes, lower_trimmed, trim_space, lower_trimmed_fixed, is_lower_text,
}
use polymarket_signal_autopi.Values.{Value, float, int, text, other, Decoder, is_finite}
use polymarket_signal_autopi.Strategy.RankShift.Defs.{Signal}
use polymarket_signal_autopi.Runtime.Anomaly.Defs.{
  AnomalyEvent, parse_numeric_any, normalize_anomaly_severity, parse_anomaly_severity,
  anomaly_severity_rank, is_finite_positive, read_signal_spread, spread_at, anomaly_score,
  severity_of, classify_signal_anomaly, with_signal_severity_metadata,
  signal_severity_from_metadata, is_known_severity,
}

module _ ⦃u : Runes⦄ where
  -- The three names of severities are their own normal forms.
  normalize_low : normalize_anomaly_severity "low" ≡ "low"
  unfolding normalize_anomaly_severity trim_space is_lower_text
  normalize_low = rw (lower_trimmed_fixed "low" refl refl)

  pub normalize_medium : normalize_anomaly_severity "medium" ≡ "medium"
  unfolding normalize_anomaly_severity trim_space is_lower_text
  normalize_medium = rw (lower_trimmed_fixed "medium" refl refl)

  normalize_high : normalize_anomaly_severity "high" ≡ "high"
  unfolding normalize_anomaly_severity trim_space is_lower_text
  normalize_high = rw (lower_trimmed_fixed "high" refl refl)

  -- The severities of events are their own normal forms.
  normalize_known : (s : String) → is_known_severity s ≡ true → normalize_anomaly_severity s ≡ s
  normalize_known s h = ground (
    arith,
    text_eq.same_iff s "low",
    text_eq.same_iff s "medium",
    text_eq.same_iff s "high",
    normalize_low,
    normalize_medium,
    normalize_high,
  )

  normalize-empty : normalize_anomaly_severity "" ≡ ""
  unfolding normalize_anomaly_severity trim_space is_lower_text
  normalize-empty = rw (lower_trimmed_fixed "" refl refl)

  normalize-cases :
      (raw : String)
      → (is_known_severity (normalize_anomaly_severity raw) ≡ true)
        ⊎ (normalize_anomaly_severity raw ≡ "")
  unfolding normalize_anomaly_severity
  normalize-cases raw = elim (Bool-cases (is_known_severity (lower_trimmed raw))) [
    | inl k ↦ inl (rw k k)
    | inr k ↦ inr (rw k)
  ]

  normalize_idem :
      (raw : String)
      → normalize_anomaly_severity (normalize_anomaly_severity raw) ≡ normalize_anomaly_severity raw
  normalize_idem raw = elim (normalize-cases raw) [
    | inl k ↦ normalize_known (normalize_anomaly_severity raw) k
    | inr e ↦ ap normalize_anomaly_severity e ∙ normalize-empty ∙ sym e
  ]

  rank-normalize :
      (raw : String)
      → anomaly_severity_rank (normalize_anomaly_severity raw) ≡ anomaly_severity_rank raw
  unfolding anomaly_severity_rank
  rank-normalize raw = rw (normalize_idem raw)

  rank_zero_iff :
      (raw : String) → (anomaly_severity_rank raw ≡ 0) ↔ (normalize_anomaly_severity raw ≡ "")
  unfolding anomaly_severity_rank
  rank_zero_iff raw = elim (normalize-cases raw) [
    | inr e ↦ (λ z. e, λ e2. rw e refl)
    | inl k ↦
        let value = normalize_anomaly_severity raw in
        let low = text_eq.same_iff value "low" in
        let medium = text_eq.same_iff value "medium" in
        let high = text_eq.same_iff value "high" in
        (
          λ z. ground arith,
          λ e. let bad : true ≡ false = sym k ∙ ap is_known_severity e in ground arith,
        )
  ]

  -- Whatever the text: its normal form is one of the three names or empty, and its own normal form;
  -- its rank is that of its normal form, and is 0 exactly if the normal form is empty.
  pub normalize-known_or_empty :
      (raw : String)
      → let value = normalize_anomaly_severity raw in
        ((is_known_severity value ≡ true) ⊎ (value ≡ ""))
        × (normalize_anomaly_severity value ≡ value)
        × (anomaly_severity_rank value ≡ anomaly_severity_rank raw)
        × ((anomaly_severity_rank raw ≡ 0) ↔ (value ≡ ""))
  normalize-known_or_empty raw =
      (normalize-cases raw, normalize_idem raw, rank-normalize raw, rank_zero_iff raw)

  rank-high : anomaly_severity_rank "high" ≡ 3
  unfolding anomaly_severity_rank
  rank-high = rw normalize_high

  rank-medium : anomaly_severity_rank "medium" ≡ 2
  unfolding anomaly_severity_rank
  rank-medium = rw normalize_medium

  rank-low : anomaly_severity_rank "low" ≡ 1
  unfolding anomaly_severity_rank
  rank-low = rw normalize_low

  -- A severity that is known passes through the reading of the metadata as it is.
  parse-known :
      (s : String)
      → is_known_severity s ≡ true
      → (let severity = parse_anomaly_severity s "low" in
          if normalize_anomaly_severity severity == "" then "low" else severity)
        ≡ s
  unfolding parse_anomaly_severity
  parse-known s k = elim (Bool-cases (s == "")) [
    | inl e ↦
        let bad : true ≡ false = sym k ∙ ap is_known_severity ((text_eq.same_iff s "").0 e) in
        ground arith
    | inr ne ↦ rw (normalize_known s k, ne, normalize_known s k, ne) refl
  ]

module _ {F : Type 0} ⦃d : Double F⦄ where
  severity_of-known : (m h x : F) → is_known_severity (severity_of m h x) ≡ true
  unfolding severity_of
  severity_of-known m h x = elim (Bool-cases (d.le h x)) [
    | inl p ↦ rw p
    | inr n ↦ elim (Bool-cases (d.le m x)) [ inl p ↦ rw (n, p) | inr q ↦ rw (n, q) ]
  ]

  rank-severity_of :
      ⦃u : Runes⦄ (m h x : F)
      → anomaly_severity_rank (severity_of m h x)
        ≡ (if d.le h x then 3 else if d.le m x then 2 else 1)
  unfolding severity_of
  rank-severity_of m h x = elim (Bool-cases (d.le h x)) [
    | inl p ↦ rw (p, rank-high)
    | inr n ↦ elim (Bool-cases (d.le m x)) [
      | inl p ↦ rw (n, p, rank-medium)
      | inr q ↦ rw (n, q, rank-low)
    ]
  ]

  module _ (laws : IsOrdered F) where
    open laws use {le_trans}

    -- A greater score is never less severe, whatever the two thresholds are.
    pub severity_of_mono :
        ⦃u : Runes⦄ (m h x y : F)
        → d.le x y ≡ true
        → anomaly_severity_rank (severity_of m h x) ≤ anomaly_severity_rank (severity_of m h y)
    severity_of_mono ⦃u⦄ m h x y p = ground (
      arith,
      rank-severity_of ⦃u = u⦄ m h x,
      rank-severity_of ⦃u = u⦄ m h y,
      le_trans h x y,
      le_trans m x y,
    )

  -- What a round of the loop makes of the entry that it finds.
  abbrev numeric_of : Decoder F → Option (Value F) → Option F
  numeric_of dec o = elim o [
    | none ↦ none
    | some value ↦ elim (parse_numeric_any dec value) [
      | none ↦ none
      | some parsed ↦ if is_finite_positive parsed then some parsed else none
    ]
  ]

  numeric_of-float :
      (dec : Decoder F) (x : F)
      → is_finite_positive x ≡ true
      → numeric_of dec (some (float x)) ≡ some x
  unfolding parse_numeric_any is_finite is_finite_positive
  numeric_of-float dec x p = ground arith

  -- Metadata in which a positive spread is written, and metadata in which only the severity is.
  spread_at-spread :
      (dec : Decoder F) (x : F) (m : GoMap String (Value F))
      → is_finite_positive x ≡ true
      → spread_at dec (insert "spread" (float x) m) "spread" ≡ some x
  unfolding spread_at
  spread_at-spread dec x m p =
      ap (numeric_of dec) {y = some (float x)} (rw lookup-insert) ∙ numeric_of-float dec x p

  spread_at-severity :
      (dec : Decoder F) (s key : String) (m : GoMap String (Value F))
      → ("severity" == key) ≡ false
      → spread_at dec (insert "severity" (text s) m) key ≡ spread_at dec m key
  unfolding spread_at
  spread_at-severity dec s key m ne = ap (λ o. numeric_of dec o) (rw (lookup-insert, ne))

  abbrev first_of : Option F → Option F → Option F → F
  first_of a b c = elim a [
    | some x ↦ x
    | none ↦ elim b [ some x ↦ x | none ↦ elim c [ some x ↦ x | none ↦ nought ] ]
  ]

  read_signal_spread-spread :
      (dec : Decoder F) (x : F) (m : GoMap String (Value F))
      → is_finite_positive x ≡ true
      → read_signal_spread dec (insert "spread" (float x) m) ≡ x
  unfolding read_signal_spread
  read_signal_spread-spread dec x m p =
      let metadata = insert "spread" (float x) m in
      ap
        (λ a.
          first_of a (spread_at dec metadata "price_spread") (spread_at dec metadata "flip_spread"))
        (spread_at-spread dec x m p)

  read_signal_spread-severity :
      (dec : Decoder F) (s : String) (m : GoMap String (Value F))
      → read_signal_spread dec (insert "severity" (text s) m) ≡ read_signal_spread dec m
  unfolding read_signal_spread
  read_signal_spread-severity dec s m i =
      first_of (spread_at-severity dec s "spread" m refl i)
        (spread_at-severity dec s "price_spread" m refl i)
        (spread_at-severity dec s "flip_spread" m refl i)

  -- The spread that an event carries is what the enriched signal's metadata gives back.
  pub read_signal_spread-with :
      (dec : Decoder F) (signal : Signal F) (m h : F) (now : Time)
      → let anomaly = classify_signal_anomaly dec signal m h now in
        read_signal_spread dec (with_signal_severity_metadata signal anomaly).metadata
        ≡ anomaly.spread
  unfolding with_signal_severity_metadata classify_signal_anomaly
  read_signal_spread-with dec signal m h now =
      let s = severity_of m h (anomaly_score dec signal) in
      let base = insert "severity" (text s) signal.metadata in
      let x = read_signal_spread dec signal.metadata in
      elim (Bool-cases (is_finite_positive x)) [
        | inl p ↦
            ap (λ b. read_signal_spread dec (if b then insert "spread" (float x) base else base)) p
            ∙ read_signal_spread-spread dec x base p
        | inr n ↦
            ap (λ b. read_signal_spread dec (if b then insert "spread" (float x) base else base)) n
            ∙ read_signal_spread-severity dec s signal.metadata
      ]

  classify-known :
      (dec : Decoder F) (signal : Signal F) (m h : F) (now : Time)
      → is_known_severity (classify_signal_anomaly dec signal m h now).severity ≡ true
  unfolding classify_signal_anomaly
  classify-known dec signal m h now = severity_of-known m h (anomaly_score dec signal)

  lookup-severity :
      (signal : Signal F) (anomaly : AnomalyEvent F)
      → lookup "severity" (with_signal_severity_metadata signal anomaly).metadata
        ≡ some (text anomaly.severity)
  unfolding with_signal_severity_metadata
  lookup-severity signal anomaly = elim (Bool-cases (is_finite_positive anomaly.spread)) [
    | inl p ↦ rw (p, lookup-insert, lookup-insert)
    | inr n ↦ rw (n, lookup-insert)
  ]

  -- What the lookup of the severity is turned into.
  abbrev severity_in : ⦃u : Runes⦄ → Option (Value F) → String
  severity_in o = elim o [
    | none ↦ "low"
    | some value ↦ elim value [
      | text raw ↦
          let severity = parse_anomaly_severity raw "low" in
          if normalize_anomaly_severity severity == "" then "low" else severity
      | float x ↦ "low"
      | int n ↦ "low"
      | other ↦ "low"
    ]
  ]

  -- The severity that a signal is classified with is read back from the metadata of the signal that
  -- goes on to the store and to the notification.
  pub signal_severity-with :
      ⦃u : Runes⦄ (dec : Decoder F) (signal : Signal F) (m h : F) (now : Time)
      → let anomaly = classify_signal_anomaly dec signal m h now in
        signal_severity_from_metadata (with_signal_severity_metadata signal anomaly)
        ≡ anomaly.severity
  unfolding signal_severity_from_metadata
  signal_severity-with dec signal m h now =
      let anomaly = classify_signal_anomaly dec signal m h now in
      ap severity_in (lookup-severity signal anomaly)
      ∙ parse-known anomaly.severity (classify-known dec signal m h now)
