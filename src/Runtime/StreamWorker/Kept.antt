-- ===== src/Runtime/StreamWorker/Kept.antt =====
-- What the recording worker leaves in the store.
use polymarket_signal_autopi.Base.{
  ◌≡◌, refl, ◌∙◌, ap, Bool, Bool-cases, inl, inr, has, text_eq, true, false, String, none, some,
  List, [], ◌∷◌, All, ok, arith,
}
use polymarket_signal_autopi.Ingestion.RawWriter.{
  RawEvent, MemoryRawWriter, new_memory_raw_writer, write_error, write, list,
}
use polymarket_signal_autopi.Ingestion.RawWriter.Order.{write_all, first_valid, list-write_all_new}
use polymarket_signal_autopi.Runtime.AutoPilot.Handle.{raw_event}
use polymarket_signal_autopi.Runtime.StreamWorker.{
  Choice, done, errs_closed, stream_error, updates_closed, updated, Status, waiting, returned,
  MarketStream, RawEventSink, Worker, run_from, run,
}

-- The events of the updates that come before the first choice that ends the loop: the end of the context
-- or of the updates, or an error of the stream after the end of the context.
unfoldable pub received : List Choice → List RawEvent
received [] = []
received (done ∷ choices) = []
received (errs_closed ∷ choices) = received choices
received (stream_error none over ∷ choices) = received choices
received (stream_error (some why) true ∷ choices) = []
received (stream_error (some why) false ∷ choices) = received choices
received (updates_closed ∷ choices) = []
received (updated update now ∷ choices) = raw_event update now ∷ received choices

-- The end of the loop without an error of the sink.
unfoldable pub ending : List Choice → Status
ending [] = waiting
ending (done ∷ choices) = returned none
ending (errs_closed ∷ choices) = ending choices
ending (stream_error none over ∷ choices) = ending choices
ending (stream_error (some why) true ∷ choices) = returned none
ending (stream_error (some why) false ∷ choices) = ending choices
ending (updates_closed ∷ choices) = returned none
ending (updated update now ∷ choices) = ending choices

abbrev pub in_memory : RawEventSink MemoryRawWriter
in_memory = record { write = write }

-- An event that the store does not refuse.
abbrev pub IsWritable : RawEvent → Type 0
IsWritable e = write_error e ≡ none

write-IsWritable :
    (w : MemoryRawWriter) (e : RawEvent) → IsWritable e → (new : Bool) × ((write w e).1 ≡ ok new)
unfolding write
write-IsWritable w e h = elim (Bool-cases (has e.id w.by_id)) [
  | inl old ↦ (false, ground (arith, h, old))
  | inr new ↦ (true, ground (arith, h, new))
]

run_from-received :
    (choices : List Choice) (s : MemoryRawWriter)
    → All IsWritable (received choices)
    → run_from in_memory choices s ≡ (write_all s (received choices), ending choices)
unfolding run_from received ending write_all
run_from-received [] s h = refl
run_from-received (done ∷ choices) s h = refl
run_from-received (errs_closed ∷ choices) s h = run_from-received choices s h
run_from-received (stream_error none over ∷ choices) s h = run_from-received choices s h
run_from-received (stream_error (some why) true ∷ choices) s h = refl
run_from-received (stream_error (some why) false ∷ choices) s h = run_from-received choices s h
run_from-received (updates_closed ∷ choices) s h = refl
run_from-received (updated update now ∷ choices) s h =
    let (new, fine) = write-IsWritable s (raw_event update now) h.0 in
    let ih = run_from-received choices (write s (raw_event update now)).0 h.1 in rw fine ih

-- Given an asset at least, and if the store refuses no event of an update that is received: the worker that
-- records into a new store in memory leaves the first event of each identifier there, in the order of
-- arrival, and returns, without an error, at the first choice that ends the loop and not before.
pub list-run :
    (m : MarketStream) (id : String) (ids : List String)
    → let choices = m.stream (id ∷ ids) in
      All IsWritable (received choices)
      → let w : Worker MemoryRawWriter = record { stream = m; sink = in_memory } in
        let r = run w (id ∷ ids) new_memory_raw_writer in
        (list r.0 ≡ first_valid [] (received choices)) × (r.1 ≡ ending choices)
unfolding run
list-run m id ids h =
    let choices = m.stream (id ∷ ids) in
    let whole = run_from-received choices new_memory_raw_writer h in
    (ap (λ r. list r.0) whole ∙ list-write_all_new (received choices), ap (λ r. r.1) whole)
