-- ===== src/Tests/StreamWorker.antt =====
-- The recording worker on a concrete stream.
use polymarket_signal_autopi.Base.{◌≡◌, refl, true, false, some, none, List, [], ◌∷◌, text_eq}
use polymarket_signal_autopi.Text.Decimal.{show_int}
use polymarket_signal_autopi.Strategy.RankShift.Defs.{MarketUpdate}
use polymarket_signal_autopi.Ingestion.RawWriter.{
  new_memory_raw_writer, write_error, list, MemoryRawWriter,
}
use polymarket_signal_autopi.Ingestion.RawWriter.Order.{first_valid}
use polymarket_signal_autopi.Runtime.AutoPilot.Handle.{raw_event}
use polymarket_signal_autopi.Runtime.StreamWorker.{
  Choice, stream_error, updated, MarketStream, Worker, run, returned,
}
use polymarket_signal_autopi.Runtime.StreamWorker.Kept.{received, ending, in_memory, list-run}

abbrev update : MarketUpdate
update = record { asset_id = "A"; kind = "book"; payload = 1 ∷ [] }

-- The second update has the identifier of the first; the one after the end of the context is not taken.
abbrev choices : List Choice
choices =
    updated update 7
    ∷ stream_error (some "reset") false
    ∷ updated update 7
    ∷ updated update 8
    ∷ stream_error (some "cancelled") true
    ∷ updated update 9
    ∷ []

abbrev market_stream : MarketStream
market_stream = record { stream = λ ids. choices }

kept :
    (first_valid [] (received choices) ≡ raw_event update 7 ∷ raw_event update 8 ∷ [])
    × (ending choices ≡ returned none)
unfolding first_valid received ending write_error show_int
kept = (refl, refl)

list-run_example :
    let w : Worker MemoryRawWriter = record { stream = market_stream; sink = in_memory } in
    let r = run w ("A" ∷ []) new_memory_raw_writer in
    (list r.0 ≡ first_valid [] (received choices)) × (r.1 ≡ ending choices)
unfolding received write_error show_int
list-run_example = list-run market_stream "A" [] (refl, (refl, (refl, tt)))
