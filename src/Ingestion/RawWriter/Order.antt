-- ===== src/Ingestion/RawWriter/Order.antt =====
-- What the store lists after a sequence of writes.
use polymarket_signal_autopi.Base.{
  ◌≡◌, refl, sym, ap, ◌∙◌, inl, inr, Bool, true, false, not, ◌≢◌, String, none, some, List, [], ◌∷◌,
  ◌++◌, append_assoc, append-nil, ==_refl, GoMap, lookup, insert, has, lookup-insert, has-insert,
  elem, elem-append, text_eq, if◌then◌else◌, ok, err, arith, Bool-cases,
}
use polymarket_signal_autopi.Ingestion.RawWriter.{
  RawEvent, MemoryRawWriter, new_memory_raw_writer, write_error, write, get, list, list_from,
}

-- The writes of a sequence of events.
unfoldable pub write_all : MemoryRawWriter → List RawEvent → MemoryRawWriter
write_all w [] = w
write_all w (e ∷ es) = write_all (write w e).0 es

-- Whether an event is valid and its identifier is not among those seen.
abbrev pub is_new : List String → RawEvent → Bool
is_new seen e = elim (write_error e) [ some why ↦ false | none ↦ not (elem e.id seen) ]

-- The events that are valid and whose identifier is neither seen before nor carried by one kept.
unfoldable pub first_valid : List String → List RawEvent → List RawEvent
first_valid seen [] = []
first_valid seen (e ∷ es) =
    let skip = first_valid seen es in
    let take = e ∷ first_valid (seen ++ (e.id ∷ [])) es in if is_new seen e then take else skip

-- The map and the order hold the same identifiers.
pub record IsConsistent (w : MemoryRawWriter) : Type 0 where
  pub same_ids : (id : String) → has id w.by_id ≡ elem id w.order

pub new-IsConsistent : IsConsistent new_memory_raw_writer
unfolding has lookup
new-IsConsistent = record { same_ids = λ id. refl }

-- A new identifier in the map does not change what the others read.
list_from-insert :
    (by_id : GoMap String RawEvent) (ids : List String) (e : RawEvent)
    → elem e.id ids ≡ false
    → list_from (insert e.id e by_id) ids ≡ list_from by_id ids
unfolding list_from
list_from-insert by_id [] e h = refl
list_from-insert by_id (id ∷ ids) e h = ground (
  arith,
  lookup-insert e.id id e by_id,
  list_from-insert by_id ids e,
  text_eq.same_iff e.id id,
  text_eq.same_iff id e.id,
)

list_from-append :
    (by_id : GoMap String RawEvent) (ids js : List String)
    → list_from by_id (ids ++ js) ≡ list_from by_id ids ++ list_from by_id js
unfolding list_from
list_from-append by_id [] js = refl
list_from-append by_id (id ∷ ids) js = cc (list_from-append by_id ids js)

abbrev appended : MemoryRawWriter → RawEvent → MemoryRawWriter
appended w e = record { by_id = insert e.id e w.by_id; order = w.order ++ (e.id ∷ []) }

write-appended :
    (w : MemoryRawWriter) (e : RawEvent)
    → IsConsistent w
    → (write w e).0 ≡ (if is_new w.order e then appended w e else w)
unfolding write
write-appended w e c = ground (arith, c.same_ids e.id)

appended-IsConsistent :
    (w : MemoryRawWriter) (e : RawEvent)
    → IsConsistent w
    → is_new w.order e ≡ true
    → IsConsistent (appended w e)
appended-IsConsistent w e c h = record {
  same_ids = λ id.
      ground
        (arith, c.same_ids id, has-insert e.id id e w.by_id, elem-append id w.order (e.id ∷ []));
}

list-append :
    (w : MemoryRawWriter) (e : RawEvent)
    → elem e.id w.order ≡ false
    → list (appended w e) ≡ list w ++ (e ∷ [])
unfolding list list_from
list-append w e fresh =
    list_from-append (insert e.id e w.by_id) w.order (e.id ∷ [])
    ∙ rw (list_from-insert w.by_id w.order e fresh, lookup-insert, ==_refl e.id)

-- What is listed after the writes is what was listed before, and then the first valid events.
list-write_all :
    (w : MemoryRawWriter) (es : List RawEvent)
    → IsConsistent w
    → list (write_all w es) ≡ list w ++ first_valid w.order es
unfolding write_all first_valid
list-write_all w [] c = sym (append-nil (list w))
list-write_all w (e ∷ es) c = elim (Bool-cases (is_new w.order e)) [
  | inl new ↦
      rw (write-appended w e c, new)
        (list-write_all (appended w e) es (appended-IsConsistent w e c new)
          ∙ ap (λ l. l ++ first_valid (w.order ++ (e.id ∷ [])) es) (list-append w e (ground arith))
          ∙ append_assoc (list w) (e ∷ []) _)
  | inr old ↦ rw (write-appended w e c, old) (list-write_all w es c)
]

-- After any writes to a new store, `List` gives the first valid event of each identifier, in the order
-- in which they arrived.
pub list-write_all_new :
    (es : List RawEvent) → list (write_all new_memory_raw_writer es) ≡ first_valid [] es
unfolding list
list-write_all_new es = list-write_all new_memory_raw_writer es new-IsConsistent

-- A write of a valid event under a new identifier is answered with true, and the event can be read
-- back; under a known identifier it is answered with false; of an event that is not valid, with an
-- error. The last two leave the store as it was. No write changes what another identifier reads.
pub get-write :
    (w : MemoryRawWriter) (e : RawEvent)
    → (write_error e ≡ none
        → has e.id w.by_id ≡ false
        → ((write w e).1 ≡ ok true) × (get (write w e).0 e.id ≡ (e, true)))
      × (write_error e ≡ none → has e.id w.by_id ≡ true → write w e ≡ (w, ok false))
      × ((why : String) → write_error e ≡ some why → write w e ≡ (w, err why))
      × ((id : String) → id ≢ e.id → get (write w e).0 id ≡ get w id)
unfolding write get
get-write w e = (
  λ good new. ground (arith, lookup-insert e.id e.id e w.by_id, ==_refl e.id),
  λ good old. ground arith,
  λ why bad. ground arith,
  λ id other. ground (arith, lookup-insert e.id id e w.by_id, text_eq.same_iff e.id id),
)
