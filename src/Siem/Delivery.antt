-- ===== src/Siem/Delivery.antt =====
-- What the exporters of internal/siem/siem.go are given, whatever the order in which the calls of Send,
-- the loop and Close run.
use fortress_waf.Base.{
  ℕ, zero, suc, ◌+◌, ◌<◌, ◌≤◌, ◌≡◌, ◌≢◌, if_holds, refl, ap, Bool, true, false, String, List, [],
  ◌∷◌, ◌++◌, append_nil, some, length, leb, if◌then◌else◌, text_keys, arith, ◌⊎◌, inl, inr,
}
use fortress_waf.Base.Map.{empty}
use fortress_waf.Siem.Manager.{
  Manager, Batch, ExporterConfig, add_exporters, new_manager, send_append, send_signal, signal_one,
  flush_take, take_events, take_one, flush_export, turn, tick, take_signal, close, stop,
}
use fortress_waf.Siem.Handed.{
  count_name, received, received-append, tally, tally-append, owed, owed-append, turn-owed,
}

-- A step of one of the goroutines. A flush takes the buffer with an order of the visit of the exporters.
pub data Step (E : Type 0) : Type 0 where
  appends : E → Step E
  signals ticks takes_signal closes ends : Step E
  takes : List String → Step E
  exports : ℕ → Step E

module _ {E : Type 0} where
  abbrev pub apply : Step E → Manager E → Manager E
  apply (appends event) m = send_append event m
  apply signals m = send_signal m
  apply ticks m = tick m
  apply takes_signal m = take_signal m
  apply closes m = close m
  apply ends m = stop m
  apply (takes order) m = flush_take order m
  apply (exports place) m = flush_export place m

  -- The last step stands first.
  abbrev pub run : List (Step E) → Manager E → Manager E
  run [] m = m
  run (step ∷ earlier) m = apply step (run earlier m)

  -- The events that were sent.
  abbrev pub sent_by : Step E → List E
  sent_by (appends event) = event ∷ []
  sent_by _ = []

  abbrev pub sent : List (Step E) → List E
  sent [] = []
  sent (step ∷ earlier) = sent earlier ++ sent_by step

  -- An order of the visit has the exporter once.
  abbrev pub Visits : String → Step E → Type 0
  Visits name (takes order) = count_name name order ≡ 1
  Visits name _ = Unit

  abbrev pub AllVisit : String → List (Step E) → Type 0
  AllVisit name [] = Unit
  AllVisit name (step ∷ earlier) = Visits name step × AllVisit name earlier

  -- Of the events with any property, an exporter was given, is still to be given by the flushes that export, and
  -- has behind it in the buffer, together, as many as were sent; and where the buffer holds a whole batch,
  -- its signal is in the channel, or a Send is about to put it there, or a flush is about to take the buffer.
  pub record Delivers (name : String) (c : ExporterConfig) (events : List E) (m : Manager E)
      : Type 0 where
    pub configured : m.exporters name ≡ some c
    pub each :
        (p : E → Bool)
        → tally p (received name m.handed) + owed name p m.exporting + tally p m.buffer
          ≡ tally p events
    pub signalled :
        (m.batch_size ≤ length m.buffer)
        → m.buffer ≢ []
        → (m.pending ≡ true) ⊎ (0 < m.wanting) ⊎ (0 < m.flushing)

  send_append-Delivers :
      (name : String) (c : ExporterConfig) (event : E) (events : List E) (m : Manager E)
      → Delivers name c events m
      → Delivers name c (events ++ event ∷ []) (send_append event m)
  unfolding send_append
  send_append-Delivers name c event events m d = record {
    configured = d.configured;
    each = λ p.
        omega (
          arith,
          d.each p,
          tally-append p m.buffer (event ∷ []),
          tally-append p events (event ∷ []),
        );
    signalled = λ full nonempty. inr (inl (wants full));
  }
    where
      wants :
          m.batch_size ≤ length (m.buffer ++ event ∷ [])
          → 0 < (
              if leb m.batch_size (length (m.buffer ++ event ∷ []))
              then suc m.wanting
              else m.wanting)
      wants full = ground (arith, full)

  signal_one-Delivers :
      (name : String) (c : ExporterConfig) (events : List E) (n : ℕ) (m : Manager E)
      → Delivers name c events m
      → Delivers name c events (signal_one n m)
  signal_one-Delivers name c events zero m d = d
  signal_one-Delivers name c events (suc n) m d = record {
    configured = d.configured;
    each = d.each;
    signalled = λ full nonempty. inl refl;
  }

  -- One more flush is about to begin.
  begin-Delivers :
      (name : String) (c : ExporterConfig) (events : List E) (pending closed : Bool) (m : Manager E)
      → Delivers name c events m
      → Delivers name c events
          (record m { pending = pending; closed = closed; flushing = suc m.flushing })
  begin-Delivers name c events pending closed m d = record {
    configured = d.configured;
    each = d.each;
    signalled = λ full nonempty. inr (inr (omega arith));
  }

  tick-Delivers :
      (name : String) (c : ExporterConfig) (events : List E) (m : Manager E)
      → Delivers name c events m
      → Delivers name c events (tick m)
  unfolding tick
  tick-Delivers name c events m d =
      if_holds (λ (k : Manager E). Delivers name c events k) m.stopped m
        (record m { flushing = suc m.flushing }) d
        (begin-Delivers name c events m.pending m.closed m d)

  take_signal-Delivers :
      (name : String) (c : ExporterConfig) (events : List E) (m : Manager E)
      → Delivers name c events m
      → Delivers name c events (take_signal m)
  unfolding take_signal
  take_signal-Delivers name c events m d =
      let taken : Manager E = record m { pending = false; flushing = suc m.flushing } in
      if_holds (λ (k : Manager E). Delivers name c events k) m.stopped m
        (if m.pending then taken else m) d
        (if_holds (λ (k : Manager E). Delivers name c events k) m.pending taken m
          (begin-Delivers name c events false m.closed m d) d)

  stop-Delivers :
      (name : String) (c : ExporterConfig) (events : List E) (m : Manager E)
      → Delivers name c events m
      → Delivers name c events (stop m)
  unfolding stop
  stop-Delivers name c events m d =
      if_holds (λ (k : Manager E). Delivers name c events k) m.closed (record m { stopped = true })
        m (record { configured = d.configured; each = d.each; signalled = d.signalled }) d

  take_events-Delivers :
      (name : String) (c : ExporterConfig) (order : List String) (all buffer : List E) (n : ℕ)
      (m : Manager E)
      → m.buffer ≡ buffer
      → count_name name order ≡ 1
      → Delivers name c all m
      → Delivers name c all (take_events order buffer (record m { flushing = n }))
  take_events-Delivers name c order all [] n m is_buffer once d = record {
    configured = d.configured;
    each = d.each;
    signalled = λ full nonempty. absurd (nonempty is_buffer);
  }
  take_events-Delivers name c order all (event ∷ events) n m is_buffer once d = record {
    configured = d.configured;
    each = λ p.
        let batch : Batch E = record { order = order; events = event ∷ events } in
        let same : tally p m.buffer ≡ tally p (event ∷ events) = ap (tally p) is_buffer in
        let more = owed-append name p m.exporting (batch ∷ []) in
        let here : owed name p (batch ∷ []) ≡ tally p (event ∷ events) = rw once (omega arith) in
        omega (arith, d.each p, same, more, here);
    signalled = λ full nonempty. absurd (nonempty refl);
  }

  take_one-Delivers :
      (name : String) (c : ExporterConfig) (order : List String) (all : List E) (n : ℕ)
      (m : Manager E)
      → count_name name order ≡ 1
      → Delivers name c all m
      → Delivers name c all (take_one order n m)
  take_one-Delivers name c order all zero m once d = d
  take_one-Delivers name c order all (suc n) m once d =
      take_events-Delivers name c order all m.buffer n m refl once d

  flush_export-Delivers :
      (name : String) (c : ExporterConfig) (all : List E) (place : ℕ) (m : Manager E)
      → Delivers name c all m
      → Delivers name c all (flush_export place m)
  unfolding flush_export
  flush_export-Delivers name c all place m d = record {
    configured = d.configured;
    each = λ p.
        let r = turn m.exporters place m.exporting in
        let more = ap (tally p) (received-append name m.handed r.1) in
        let sum = tally-append p (received name m.handed) (received name r.1) in
        omega (
          arith,
          d.each p,
          more,
          sum,
          turn-owed m.exporters c name p place m.exporting d.configured,
        );
    signalled = d.signalled;
  }

  apply-Delivers :
      (name : String) (c : ExporterConfig) (events : List E) (step : Step E) (m : Manager E)
      → Visits name step
      → Delivers name c events m
      → Delivers name c (events ++ sent_by step) (apply step m)
  unfolding send_signal close flush_take
  apply-Delivers name c events (appends event) m v d = send_append-Delivers name c event events m d
  apply-Delivers name c events signals m v d =
      rw (append_nil events) (signal_one-Delivers name c events m.wanting m d)
  apply-Delivers name c events ticks m v d =
      rw (append_nil events) (tick-Delivers name c events m d)
  apply-Delivers name c events takes_signal m v d =
      rw (append_nil events) (take_signal-Delivers name c events m d)
  apply-Delivers name c events closes m v d =
      rw (append_nil events) (begin-Delivers name c events m.pending true m d)
  apply-Delivers name c events ends m v d = rw (append_nil events) (stop-Delivers name c events m d)
  apply-Delivers name c events (takes order) m v d =
      rw (append_nil events) (take_one-Delivers name c order events m.flushing m v d)
  apply-Delivers name c events (exports place) m v d =
      rw (append_nil events) (flush_export-Delivers name c events place m d)

  -- The calls of Send, the ticks and signals of the loop, its end, calls of Close and the flushes run in any
  -- order of their steps, between which the lock is free, and every flush visits an exporter of the configuration once. Then of
  -- the events with any property this exporter was given, is still to be given by the flushes that
  -- have taken the buffer, and has behind it in the buffer, together, exactly as many as were sent, so that none is lost and none is given twice;
  -- and where the buffer holds a whole batch and an event, its signal is in the channel, or a Send is about to put it
  -- there, or a flush is about to take the buffer.
  pub run-Delivers :
      (name : String) (c : ExporterConfig) (batch_size : ℕ) (configs : List ExporterConfig)
      (steps : List (Step E))
      → add_exporters configs empty name ≡ some c
      → AllVisit name steps
      → Delivers name c (sent steps) (run steps (new_manager batch_size configs))
  unfolding new_manager
  run-Delivers name c batch_size configs [] configured v = record {
    configured = configured;
    each = λ p. refl;
    signalled = λ full nonempty. absurd (nonempty refl);
  }
  run-Delivers name c batch_size configs (step ∷ earlier) configured (here, v) =
      apply-Delivers name c (sent earlier) step _ here
        (run-Delivers name c batch_size configs earlier configured v)
