-- ===== src/Runtime/StreamWorker.antt =====
-- internal/runtime/worker.go: the worker that only records. The stream is what its `select` chooses, a list;
-- the sink is a state with its `Write`. The event that it makes of an update is the autopilot's.
use polymarket_signal_autopi.Base.{
  ◌≡◌, Bool, true, false, String, Option, none, some, List, [], ◌∷◌, Time, Result, ok, err,
}
use polymarket_signal_autopi.Text.Decimal.{concat}
use polymarket_signal_autopi.Strategy.RankShift.Defs.{MarketUpdate}
use polymarket_signal_autopi.Ingestion.RawWriter.{RawEvent}
use polymarket_signal_autopi.Runtime.AutoPilot.Handle.{raw_event}
pub mod Kept

-- What the `select` of `Run` can choose. An error of the stream may be nil, and comes with whether the
-- context has an error by then; an update comes with the time at which it is taken.
pub data Choice : Type 0 where
  done : Choice
  errs_closed : Choice
  stream_error : Option String → Bool → Choice
  updates_closed : Choice
  updated : MarketUpdate → Time → Choice

-- Whether `Run` waits for the next choice, or what it has returned.
pub data Status : Type 0 where
  waiting : Status
  returned : Option String → Status

pub record MarketStream : Type 0 where
  pub stream : List String → List Choice

pub record RawEventSink (S : Type 0) : Type 0 where
  pub write : S → RawEvent → S × Result Bool

-- `Worker`
pub record Worker (S : Type 0) : Type 0 where
  pub stream : MarketStream
  pub sink : RawEventSink S

module _ {S : Type 0} where
  abbrev pub stop : S → Option String → S × Status
  stop s why = (s, returned why)

  -- What follows a write: the rest of the loop, or the error.
  abbrev pub after_write : S → Result Bool → (S × Status) → S × Status
  after_write s (ok new) rest = rest
  after_write s (err why) rest = stop s (some (concat ("persist ws event: " ∷ why ∷ [])))

  -- What follows an error of the stream: an error that is not nil ends the loop if the context is over.
  abbrev pub after_error : S → Option String → Bool → (S × Status) → S × Status
  after_error s none over rest = rest
  after_error s (some why) true rest = stop s none
  after_error s (some why) false rest = rest

  -- The loop of `Run`
  unfoldable pub run_from : RawEventSink S → List Choice → S → S × Status
  run_from sink [] s = (s, waiting)
  run_from sink (done ∷ choices) s = stop s none
  run_from sink (errs_closed ∷ choices) s = run_from sink choices s
  run_from sink (stream_error why over ∷ choices) s =
      after_error s why over (run_from sink choices s)
  run_from sink (updates_closed ∷ choices) s = stop s none
  run_from sink (updated update now ∷ choices) s =
      let r = sink.write s (raw_event update now) in after_write r.0 r.1 (run_from sink choices r.0)

  -- `Worker.Run`
  unfoldable pub run : Worker S → List String → S → S × Status
  run w [] s = stop s (some "assetIDs are required")
  run w (id ∷ ids) s = run_from w.sink (w.stream.stream (id ∷ ids)) s
