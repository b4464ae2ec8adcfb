-- ===== src/Ingestion/RawWriter.antt =====
-- internal/ingestion/raw_writer.go. `Write`, `Get` and `List` hold the lock for all that reads or writes
-- the store. A payload is a list of bytes, so that the copy of `cloneEvent` is the event itself.
use polymarket_signal_autopi.Base.{
  ℕ, ◌≡◌, refl, Bool, true, false, ◌||◌, not, ◌&&◌, String, Option, none, some, List, [], ◌∷◌, ◌++◌,
  ℤ, Time, is_zero, GoMap, lookup, insert, has, elem, ◌==◌, text_eq, if◌then◌else◌, Result, ok, err,
}
pub mod Order

pub record RawEvent : Type 0 where
  pub id : String
  pub sequence : ℤ
  pub source : String
  pub payload : List ℕ
  pub source_ts : Time
  pub ingest_ts : Time
  pub normalized_ts : Time

-- Go's zero value of the type.
abbrev pub zero_event : RawEvent
zero_event = record {
  id = "";
  sequence = ℤ.pos 0;
  source = "";
  payload = [];
  source_ts = 0;
  ingest_ts = 0;
  normalized_ts = 0;
}

pub record MemoryRawWriter : Type 0 where
  pub by_id : GoMap String RawEvent
  pub order : List String

abbrev pub new_memory_raw_writer : MemoryRawWriter
new_memory_raw_writer = record { by_id = []; order = [] }

-- `cloneEvent`
abbrev pub clone_event : RawEvent → RawEvent
clone_event event = record event { payload = event.payload }

-- The two refusals of `Write`.
unfoldable pub write_error : RawEvent → Option String
write_error event =
    if event.id == ""
    then some "event id is required"
    else if is_zero event.source_ts || is_zero event.ingest_ts || is_zero event.normalized_ts
    then some "source_ts/ingest_ts/normalized_ts are required"
    else none

unfoldable pub write : MemoryRawWriter → RawEvent → MemoryRawWriter × Result Bool
write w event = elim (write_error event) [
  | some why ↦ (w, err why)
  | none ↦ if has event.id w.by_id then (w, ok false) else (
    record {
      by_id = insert event.id (clone_event event) w.by_id;
      order = w.order ++ (event.id ∷ []);
    },
    ok true,
  )
]

unfoldable pub get : MemoryRawWriter → String → RawEvent × Bool
get w id = elim (lookup id w.by_id) [
  | none ↦ (zero_event, false)
  | some event ↦ (clone_event event, true)
]

-- The loop of `List`: a read of a missing key gives the zero event.
unfoldable pub list_from : GoMap String RawEvent → List String → List RawEvent
list_from by_id [] = []
list_from by_id (id ∷ ids) =
    elim (lookup id by_id) [ none ↦ zero_event | some event ↦ clone_event event ]
    ∷ list_from by_id ids

unfoldable pub list : MemoryRawWriter → List RawEvent
unfolding list_from
list w = list_from w.by_id w.order
