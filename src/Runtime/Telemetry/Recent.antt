-- ===== src/Runtime/Telemetry/Recent.antt =====
-- The list of recent anomalies after any of them.
use polymarket_signal_autopi.Base.{
  ℕ, zero, suc, ◌+◌, ◌-◌, ◌≤◌, ◌≡◌, refl, sym, ap, ◌∙◌, inl, inr, String, List, [], ◌∷◌, ◌++◌,
  append_assoc, append-nil, ◌^◌, ◌<◌, read-insert_update, ℤ, pos, Time, read, lookup, length,
  length-append, length-drop, take, drop, ltb, ◌==◌, text_eq, if◌then◌else◌, arith, Bool-cases,
}
use polymarket_signal_autopi.Text.{Runes}
use polymarket_signal_autopi.Runtime.Anomaly.Defs.{AnomalyEvent}
use polymarket_signal_autopi.Runtime.Telemetry.Defs.{
  AutoPilotTelemetry, increment, kept_event, record_anomaly, new_auto_pilot_telemetry,
  anomaly_panel_snapshot, panel_limit, reversed_onto,
}

module _ {F : Type 0} where
  -- The last `n` elements of a list.
  pub last_n : ℕ → List (AnomalyEvent F) → List (AnomalyEvent F)
  last_n n es = drop (length es - n) es

  drop-append :
      (n : ℕ) (xs ys : List (AnomalyEvent F)) → n ≤ length xs → drop n (xs ++ ys) ≡ drop n xs ++ ys
  drop-append zero xs ys h = refl
  drop-append (suc n) [] ys h = absurd (ground arith)
  drop-append (suc n) (x ∷ xs) ys h = drop-append n xs ys (ground arith)

  drop-nil : (m n : ℕ) → drop {A = AnomalyEvent F} m [] ≡ drop n []
  drop-nil zero zero = refl
  drop-nil zero (suc n) = refl
  drop-nil (suc m) zero = refl
  drop-nil (suc m) (suc n) = refl

  drop-drop : (m n : ℕ) (xs : List (AnomalyEvent F)) → drop m (drop n xs) ≡ drop (n + m) xs
  drop-drop m zero xs = ap (λ k. drop k xs) (ground arith)
  drop-drop m (suc n) [] = drop-nil m (suc n + m)
  drop-drop m (suc n) (x ∷ xs) =
      drop-drop m n xs ∙ ap (λ k. drop k (x ∷ xs)) {x = suc (n + m)} (ground arith)

  -- The last `n` of what has one element more.
  last_n-snoc :
      (n : ℕ) (xs : List (AnomalyEvent F)) (e : AnomalyEvent F)
      → last_n (suc n) (last_n (suc n) xs ++ (e ∷ [])) ≡ last_n (suc n) (xs ++ (e ∷ []))
  unfolding last_n
  last_n-snoc n xs e =
      let k = length xs - suc n in
      let all = xs ++ (e ∷ []) in
      let joined : last_n (suc n) xs ++ (e ∷ []) ≡ drop k all =
        sym (drop-append k xs (e ∷ []) (ground arith)) in
      ap (last_n (suc n)) joined
      ∙ drop-drop (length (drop k all) - suc n) k all
      ∙ ap (λ j. drop j all) (omega (arith, length-drop k all, length-append xs (e ∷ [])))

  cut :
      (es : List (AnomalyEvent F))
      → (if ltb 200 (length es) then drop (length es - 200) es else es) ≡ last_n 200 es
  unfolding last_n
  cut es = elim (Bool-cases (ltb 200 (length es))) [
    | inl more ↦ rw more refl
    | inr few ↦ rw few (ap (λ k. drop k es) {x = 0} (ground arith))
  ]

  -- What is left of a list that one event is added to.
  abbrev trimmed : AnomalyEvent F → List (AnomalyEvent F) → List (AnomalyEvent F)
  trimmed e es =
      let recent = es ++ (e ∷ []) in
      if ltb 200 (length recent) then drop (length recent - 200) recent else recent

  module _ ⦃u : Runes⦄ where
    -- The telemetry after a sequence of anomalies, each with the time at which it is recorded, and the
    -- events as they are kept.
    pub after : AutoPilotTelemetry F → List (AnomalyEvent F × Time) → AutoPilotTelemetry F
    after t [] = t
    after t ((e, now) ∷ es) = after (record_anomaly t e now) es

    pub kept : List (AnomalyEvent F × Time) → List (AnomalyEvent F)
    kept [] = []
    kept ((e, now) ∷ es) = kept_event e now ∷ kept es

    -- How many of the kept events have a severity.
    pub count : String → List (AnomalyEvent F × Time) → ℕ
    count severity [] = 0
    count severity ((e, now) ∷ es) =
        let rest = count severity es in
        if (kept_event e now).severity == severity then suc rest else rest

    recent-record_anomaly :
        (t : AutoPilotTelemetry F) (e : AnomalyEvent F) (now : Time)
        (before : List (AnomalyEvent F))
        → t.anomaly_recent ≡ last_n 200 before
        → (record_anomaly t e now).anomaly_recent ≡ last_n 200 (before ++ (kept_event e now ∷ []))
    unfolding record_anomaly
    recent-record_anomaly t e now before h =
        ap (trimmed (kept_event e now)) h
        ∙ cut (last_n 200 before ++ (kept_event e now ∷ []))
        ∙ last_n-snoc 199 before (kept_event e now)

    recent-after :
        (t : AutoPilotTelemetry F) (es : List (AnomalyEvent F × Time))
        (before : List (AnomalyEvent F))
        → t.anomaly_recent ≡ last_n 200 before
        → (after t es).anomaly_recent ≡ last_n 200 (before ++ kept es)
    unfolding after kept
    recent-after t [] before h = h ∙ ap (last_n 200) (sym (append-nil before))
    recent-after t ((e, now) ∷ es) before h =
        recent-after (record_anomaly t e now) es (before ++ (kept_event e now ∷ []))
          (recent-record_anomaly t e now before h)
        ∙ ap (last_n 200) (append_assoc before (kept_event e now ∷ []) (kept es))

    count-after :
        (t : AutoPilotTelemetry F) (es : List (AnomalyEvent F × Time)) (severity : String) (n : ℕ)
        → read (pos 0) severity t.anomalies ≡ pos n
        → n + length es < 2 ^ 63
        → read (pos 0) severity (after t es).anomalies ≡ pos (n + count severity es)
    unfolding after count record_anomaly
    count-after t [] severity n h b = ground arith
    count-after t ((e, now) ∷ es) severity n h b =
        let k = (kept_event e now).severity in
        let t' = record_anomaly t e now in
        let counted = read-insert_update (pos 0) increment k severity t.anomalies in
        elim (Bool-cases (k == severity)) [
          | inl same ↦ rw same (
              count-after t' es severity (suc n) (ground (arith, counted)) (ground arith)
              ∙ ap pos (ground arith))
          | inr other ↦
              rw other (count-after t' es severity n (ground (arith, counted)) (ground arith))
        ]

    -- After any anomalies, fewer than 2 ^ 63, the panel of a new telemetry shows how many there were of
    -- each severity, and of the last 200, from the last one on, as many as the limit says.
    pub anomaly_panel_snapshot-after :
        (start : Time) (es : List (AnomalyEvent F × Time)) (limit : ℤ)
        → length es < 2 ^ 63
        → anomaly_panel_snapshot (after (new_auto_pilot_telemetry start) es) limit ≡ (
          (pos (count "low" es), pos (count "medium" es), pos (count "high" es)),
          take (panel_limit limit) (reversed_onto (last_n 200 (kept es)) []),
        )
    unfolding anomaly_panel_snapshot read lookup last_n
    anomaly_panel_snapshot-after start es limit b =
        let t = new_auto_pilot_telemetry start in
        let low =
          count-after t es "low" 0 refl (ground arith)
          ∙ ap pos {y = count "low" es} (ground arith) in
        let medium =
          count-after t es "medium" 0 refl (ground arith)
          ∙ ap pos {y = count "medium" es} (ground arith) in
        let high =
          count-after t es "high" 0 refl (ground arith)
          ∙ ap pos {y = count "high" es} (ground arith) in
        let recent = recent-after t es [] refl in
        λ i. ((low i, medium i, high i), take (panel_limit limit) (reversed_onto (recent i) []))
