-- ===== src/Ingestion/Gaps.antt =====
-- internal/ingestion/gap_detector.go and internal/ingestion/backfill.go. A sequence number is an `int64`;
-- the detector keeps the positive ones, which are naturals here, so that no difference of two overflows.
pub mod Missing
pub mod Fill
use polymarket_signal_autopi.Base.{
  ℕ, zero, suc, ◌+◌, ◌-◌, ◌^◌, Bool, true, false, String, Option, none, some, List, [], ◌∷◌, ◌++◌,
  map, ℤ, pos, negsuc, wrap64, leb_ℤ, ◌+ℤ◌, Time, is_zero, length, elem, ltb, leb, number_eq,
  if◌then◌else◌,
}
use polymarket_signal_autopi.Text.{bytes}
use polymarket_signal_autopi.Text.Decimal.{concat, show_int}
use polymarket_signal_autopi.Ingestion.RawWriter.{RawEvent}

pub record SequenceGap : Type 0 where
  pub from : ℤ
  pub to : ℤ

-- A sequence number that is not skipped by `event.Sequence <= 0`.
abbrev pub positive : ℤ → Option ℕ
positive (pos zero) = none
positive (pos (suc n)) = some (suc n)
positive (negsuc n) = none

-- The positive sequence numbers that are not in `seen`, each once.
unfoldable pub distinct_sequences : List ℕ → List RawEvent → List ℕ
distinct_sequences seen [] = []
distinct_sequences seen (e ∷ es) =
    let skip = distinct_sequences seen es in
    elim (positive e.sequence) [
      | none ↦ skip
      | some n ↦
          let fresh = n ∷ distinct_sequences (n ∷ seen) es in if elem n seen then skip else fresh
    ]

unfoldable pub insert_sorted : ℕ → List ℕ → List ℕ
insert_sorted n [] = n ∷ []
insert_sorted n (m ∷ ms) = if leb n m then n ∷ m ∷ ms else m ∷ insert_sorted n ms

-- `sort.Slice` by `<`, on numbers that are all different: any sorting gives the same list.
unfoldable pub sort : List ℕ → List ℕ
unfolding insert_sorted
sort [] = []
sort (n ∷ ns) = insert_sorted n (sort ns)

-- The loop over the sorted numbers.
unfoldable pub gaps_after : ℕ → List ℕ → List SequenceGap
gaps_after prev [] = []
gaps_after prev (curr ∷ rest) =
    let gaps = gaps_after curr rest in
    if ltb 1 (curr - prev)
    then record { from = pos (prev + 1); to = pos (curr - 1) } ∷ gaps
    else gaps

abbrev pub gaps_of : List ℕ → List SequenceGap
gaps_of [] = []
gaps_of (first ∷ rest) = gaps_after first rest

unfoldable pub detect_sequence_gaps : List RawEvent → List SequenceGap
unfolding distinct_sequences sort gaps_after
detect_sequence_gaps events =
    if ltb (length events) 2
    then []
    else let seq = distinct_sequences [] events in
      if ltb (length seq) 2 then [] else gaps_of (sort seq)

-- The event that stands for a missing sequence number.
abbrev pub backfilled : Time → ℤ → RawEvent
backfilled base_ts seq = record {
  id = concat ("backfill-" ∷ show_int seq ∷ []);
  sequence = seq;
  source = "backfill";
  payload = bytes "{\"closure\":true}";
  source_ts = base_ts;
  ingest_ts = base_ts;
  normalized_ts = base_ts;
}

-- `for seq := gap.From; seq <= gap.To; seq++`, with the wrap-around of `seq++`; `none` means that the
-- fuel ran out before the loop ended.
unfoldable pub fill_from : ℕ → Time → ℤ → ℤ → Option (List RawEvent)
fill_from zero base_ts seq to = none
fill_from (suc fuel) base_ts seq to = elim (leb_ℤ seq to) [
  | false ↦ some []
  | true ↦ elim (fill_from fuel base_ts (wrap64 (seq +ℤ pos 1)) to) [
    | none ↦ none
    | some rest ↦ some (backfilled base_ts seq ∷ rest)
  ]
]

-- The loop over the gaps, each with the same fuel.
unfoldable pub fill_all : ℕ → Time → List SequenceGap → Option (List RawEvent)
unfolding fill_from
fill_all fuel base_ts [] = some []
fill_all fuel base_ts (gap ∷ gaps) = elim (fill_from fuel base_ts gap.from gap.to) [
  | none ↦ none
  | some filled ↦ elim (fill_all fuel base_ts gaps) [
    | none ↦ none
    | some rest ↦ some (filled ++ rest)
  ]
]

-- `FillGaps`; `now` is what the clock says where the base time is the zero time.
unfoldable pub fill_gaps : ℕ → Time → List SequenceGap → Time → Option (List RawEvent)
fill_gaps fuel now gaps base_ts = fill_all fuel (if is_zero base_ts then now else base_ts) gaps
