-- ===== src/Tests/Ingestion.antt =====
-- The store of raw events and the gap detector on concrete events.
use polymarket_signal_autopi.Base.{
  ℕ, ◌≡◌, refl, not, ◌&&◌, String, none, some, List, [], ◌∷◌, pos, ltb, ◌==◌, number_eq, text_eq,
  arith,
}
use polymarket_signal_autopi.Ingestion.RawWriter.{RawEvent, new_memory_raw_writer, list}
use polymarket_signal_autopi.Ingestion.RawWriter.Order.{write_all, first_valid, list-write_all_new}
use polymarket_signal_autopi.Ingestion.Gaps.{detect_sequence_gaps, fill_from}
use polymarket_signal_autopi.Ingestion.Gaps.Missing.{in_gaps, some_sequence, in_gaps-detect}
use polymarket_signal_autopi.Ingestion.Gaps.Fill.{
  max_int64, events_from, fill_from-diverges, fill_from-total,
}

abbrev event : String → ℕ → RawEvent
event id n = record {
  id = id;
  sequence = pos n;
  source = "ws";
  payload = [];
  source_ts = 1;
  ingest_ts = 1;
  normalized_ts = 1;
}

abbrev events : List RawEvent
events = event "a" 7 ∷ event "b" 3 ∷ event "a" 9 ∷ []

detected :
    detect_sequence_gaps events
    ≡ record { from = pos 4; to = pos 6 } ∷ record { from = pos 8; to = pos 8 } ∷ []
unfolding detect_sequence_gaps
detected = refl

list-write_all_new_example : list (write_all new_memory_raw_writer events) ≡ first_valid [] events
list-write_all_new_example = list-write_all_new events

in_gaps-detect_example : in_gaps 5 (detect_sequence_gaps events) ≡ (
    not (some_sequence (λ m. m == 5) events)
    && some_sequence (λ m. ltb m 5) events
    && some_sequence (ltb 5) events)
in_gaps-detect_example = in_gaps-detect 5 events

fill_from-total_example : fill_from 4 1 (pos 4) (pos 6) ≡ some (events_from 1 4 3)
fill_from-total_example = fill_from-total 4 1 3 3 (ground arith) (ground arith)

fill_from-diverges_example : fill_from 1000 1 (pos 5) max_int64 ≡ none
fill_from-diverges_example = fill_from-diverges 1000 1 (pos 5) (ground arith, ground arith)
