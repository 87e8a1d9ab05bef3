-- ===== src/Siem/Manager.antt =====
-- The manager of internal/siem/siem.go.
use fortress_waf.Base.{
  ℕ, zero, suc, Bool, true, false, String, List, [], ◌∷◌, ◌++◌, none, some, length, leb, ◌||◌,
  if◌then◌else◌, ◌==◌, text_keys,
}
use fortress_waf.Base.Map.{Map, empty, put}

-- Without the token and the credentials, which the exporters keep.
pub record ExporterConfig : Type 0 where
  pub kind : String
  pub enabled : Bool
  pub url : String

-- A batch that a flush has taken out of the buffer: the exporters that its loop still visits, in the
-- order of the visit, and the events.
pub record Batch (E : Type 0) : Type 0 where
  pub order : List String
  pub events : List E

-- `wanting` counts the calls of Send that have found a whole batch and have not tried the channel of the
-- flushes yet, which has room for one signal and holds it where `pending` says so. `flushing` counts the calls
-- of flush that have not taken the lock yet, and `exporting` are those that have taken their events and given the lock back.
-- `handed` is what the exporters were given, batch by batch, `closed` that the channel `done` is,
-- `stopped` that the loop has ended. E is the type of events.
pub record Manager (E : Type 0) : Type 0 where
  pub batch_size : ℕ
  pub exporters : Map String ExporterConfig
  pub buffer : List E
  pub wanting : ℕ
  pub pending : Bool
  pub closed : Bool
  pub stopped : Bool
  pub flushing : ℕ
  pub exporting : List (Batch E)
  pub handed : List (String × List E)

abbrev is_known : String → Bool
is_known kind = kind == "splunk" || kind == "elasticsearch"

-- The exporters that are enabled and of a known type, by type; both constructors succeed.
abbrev pub add_exporters :
    List ExporterConfig → Map String ExporterConfig → Map String ExporterConfig
add_exporters [] m = m
add_exporters (c ∷ configs) m =
    add_exporters configs (if c.enabled then (if is_known c.kind then put c.kind c m else m) else m)

module _ {E : Type 0} where
  unfoldable pub new_manager : ℕ → List ExporterConfig → Manager E
  new_manager batch_size configs = record {
    batch_size = batch_size;
    exporters = add_exporters configs empty;
    buffer = [];
    wanting = 0;
    pending = false;
    closed = false;
    stopped = false;
    flushing = 0;
    exporting = [];
    handed = [];
  }

  -- Send, up to where it gives the lock back.
  unfoldable pub send_append : E → Manager E → Manager E
  send_append event m =
      let buffer = m.buffer ++ event ∷ [] in
      record m {
        buffer = buffer;
        wanting = if leb m.batch_size (length buffer) then suc m.wanting else m.wanting;
      }

  -- The rest of a Send that has found a whole batch. The signal is dropped where the channel is full.
  abbrev pub signal_one : ℕ → Manager E → Manager E
  signal_one zero m = m
  signal_one (suc n) m = record m { wanting = n; pending = true }

  unfoldable pub send_signal : Manager E → Manager E
  send_signal m = signal_one m.wanting m

  -- flush, up to where it gives the lock back. `order` visits the map of the exporters.
  abbrev pub take_events : List String → List E → Manager E → Manager E
  take_events order [] m = m
  take_events order (event ∷ events) m = record m {
    buffer = [];
    exporting = m.exporting ++ record { order = order; events = event ∷ events } ∷ [];
  }

  abbrev pub take_one : List String → ℕ → Manager E → Manager E
  take_one order zero m = m
  take_one order (suc n) m = take_events order m.buffer (record m { flushing = n })

  unfoldable pub flush_take : List String → Manager E → Manager E
  flush_take order m = take_one order m.flushing m

  -- What one turn of the loop over the exporters hands out.
  abbrev pub hand_to : Map String ExporterConfig → String → List E → List (String × List E)
  hand_to exporters name events = elim (exporters name) [ none ↦ [] | some c ↦ (name, events) ∷ [] ]

  -- One turn of the loop of the flush at a place among those that export: what is left of them, and what
  -- was handed out.
  abbrev pub turn :
      Map String ExporterConfig → ℕ → List (Batch E) → List (Batch E) × List (String × List E)
  turn exporters place [] = ([], [])
  turn exporters zero (batch ∷ batches) = elim batch.order [
    | [] ↦ (batches, [])
    | name ∷ names ↦ (record batch { order = names } ∷ batches, hand_to exporters name batch.events)
  ]
  turn exporters (suc place) (batch ∷ batches) =
      let (left, given) = turn exporters place batches in (batch ∷ left, given)

  unfoldable pub flush_export : ℕ → Manager E → Manager E
  flush_export place m =
      let r = turn m.exporters place m.exporting in
      record m { exporting = r.0; handed = m.handed ++ r.1 }

  -- The two cases of the loop that flush: the ticker, and the signal, which is taken from the channel.
  -- More flushes may begin here before others have ended than the one loop begins.
  unfoldable pub tick : Manager E → Manager E
  tick m = if m.stopped then m else record m { flushing = suc m.flushing }

  unfoldable pub take_signal : Manager E → Manager E
  take_signal m =
      if m.stopped
      then m
      else if m.pending
      then record m { pending = false; flushing = suc m.flushing }
      else m

  -- The case of the loop that ends it, which the loop may take late where others are ready too.
  unfoldable pub stop : Manager E → Manager E
  stop m = if m.closed then record m { stopped = true } else m

  -- The one call of Close, which lets the loop end and flushes once more; the exporters close without an
  -- error.
  unfoldable pub close : Manager E → Manager E
  close m = record m { closed = true; flushing = suc m.flushing }
