-- ===== src/Logs/Kept.antt =====
-- handler/handler.go: the queue of the log keeps the entries, their order and a bound.
use redins.Prelude.{
  ltb, if◌then◌else◌, ltb→lt, Bool-cases, length, length-append, ℕ, ◌≤◌, ◌≡◌, refl, sym, ap, ◌∙◌,
  inl, inr, Bool, true, false, Option, none, some, List, [], ◌∷◌, ◌++◌, arith,
}
use mathlib.Core.List.{append_assoc, append-nil}
use redins.Logs.{LogData, finish_entry}
use redins.Logs.Queue.{
  log_queue_size, Log, LogEvent, submit, take_entry, take_quit, close_queue, close_quit, received,
  log_request, log_step, run_log,
}

abbrev pub present : List (Option LogData) → List LogData
present [] = []
present (none ∷ os) = present os
present (some entry ∷ os) = entry ∷ present os

-- What the logger was given, and what waits.
abbrev pub all_entries : Log → List LogData
all_entries log = present log.written ++ log.queue

-- No request is logged after the queue is closed, and ShutDown is called once.
abbrev pub Orderly : Bool → Bool → List LogEvent → Type 0
Orderly closed quit [] = Unit
Orderly closed quit (submit entry elapsed rcode ∷ events) =
    (closed ≡ false) × Orderly closed quit events
Orderly closed quit (take_entry ∷ events) = Orderly closed quit events
Orderly closed quit (take_quit ∷ events) = Orderly closed quit events
Orderly closed quit (close_queue ∷ events) = (closed ≡ false) × Orderly true quit events
Orderly closed quit (close_quit ∷ events) = (quit ≡ false) × Orderly closed true events

present-append : (xs ys : List (Option LogData)) → present (xs ++ ys) ≡ present xs ++ present ys
present-append [] ys = refl
present-append (none ∷ xs) ys = present-append xs ys
present-append (some x ∷ xs) ys = ap (λ (l : List LogData). x ∷ l) (present-append xs ys)

entries_none : (log : Log) → all_entries log ≡ all_entries log ++ []
entries_none log = sym (append-nil (all_entries log))

-- `logs` tells whether the logger takes a map without a panic of its formatter.
module _ (logs : Option LogData → Bool) where
  -- The entries that are not dropped, in the order of the requests.
  unfoldable pub kept_entries : Option Log → List LogEvent → List LogData
  kept_entries none events = []
  kept_entries (some log) [] = []
  kept_entries (some log) (submit entry elapsed rcode ∷ events) =
      (if ltb (length log.queue) log_queue_size then finish_entry entry elapsed rcode ∷ [] else [])
      ++ kept_entries (log_step logs log (submit entry elapsed rcode)) events
  kept_entries (some log) (take_entry ∷ events) = kept_entries (log_step logs log take_entry) events
  kept_entries (some log) (take_quit ∷ events) = kept_entries (log_step logs log take_quit) events
  kept_entries (some log) (close_queue ∷ events) =
      kept_entries (log_step logs log close_queue) events
  kept_entries (some log) (close_quit ∷ events) = kept_entries (log_step logs log close_quit) events

  -- A step to a log with these entries, with room in its queue.
  abbrev Steps : Log → LogEvent → List LogData → Bool → Bool → Type 0
  Steps log event entries closed quit =
      (log' : Log) × (log_step logs log event ≡ some log')
      × (all_entries log' ≡ all_entries log ++ entries)
      × (length log'.queue ≤ log_queue_size)
      × (log'.closed ≡ closed)
      × (log'.quit ≡ quit)

  submit-Steps :
      (log : Log) (entry : LogData) (elapsed rcode : ℕ)
      → length log.queue ≤ log_queue_size
      → log.closed ≡ false
      → Steps log
          (submit entry elapsed rcode)
          (if ltb (length log.queue) log_queue_size
            then finish_entry entry elapsed rcode ∷ []
            else [])
          log.closed
          log.quit
  unfolding log_step log_request
  submit-Steps log entry elapsed rcode h open' =
      let entry' = finish_entry entry elapsed rcode in
      elim (Bool-cases (ltb (length log.queue) log_queue_size)) [
        | inl room ↦
            simp (open', room)
              (
                _,
                refl,
                sym (append_assoc (present log.written) log.queue (entry' ∷ [])),
                omega (
                  arith,
                  length-append log.queue (entry' ∷ []),
                  ltb→lt (length log.queue) log_queue_size room,
                ),
                refl,
                refl,
              )
        | inr full ↦ simp (open', full) (_, refl, entries_none log, h, open', refl)
      ]

  received-Steps :
      ((taken : Option LogData) → logs taken ≡ true)
      → (log : Log) (queue : List LogData) → log.queue ≡ queue
      → (log' : Log) × (received logs log queue ≡ some log')
        × (all_entries log' ≡ all_entries log)
        × (length log'.queue ≤ length log.queue)
        × (log'.closed ≡ log.closed)
        × (log'.quit ≡ log.quit)
  received-Steps takes log (entry ∷ rest) e = simp (takes (some entry)) (
    _,
    refl,
    ap (λ (l : List LogData). l ++ rest) (present-append log.written (some entry ∷ []))
        ∙ append_assoc (present log.written) (entry ∷ []) rest
        ∙ ap (λ (l : List LogData). present log.written ++ l) (sym e),
    omega (arith, ap length e),
    refl,
    refl,
  )
  received-Steps takes log [] e = elim (Bool-cases log.closed) [
    | inl closed ↦
        simp (closed, takes none)
          (
            _,
            refl,
            ap (λ (l : List LogData). l ++ [])
                  (present-append log.written (none ∷ []) ∙ append-nil (present log.written))
                ∙ ap (λ (l : List LogData). present log.written ++ l) (sym e),
            omega arith,
            refl,
            refl,
          )
    | inr open' ↦ simp open' (log, refl, refl, omega arith, open', refl)
  ]

  take_entry-Steps :
      ((taken : Option LogData) → logs taken ≡ true)
      → (log : Log) → length log.queue ≤ log_queue_size
      → Steps log take_entry [] log.closed log.quit
  unfolding log_step
  take_entry-Steps takes log h = elim (Bool-cases log.running) [
    | inl running ↦
        let (log', e, same, fewer, closed, quit) = received-Steps takes log log.queue refl in
        simp (running, e) (log', refl, same ∙ entries_none log, omega arith, closed, quit)
    | inr returned ↦ simp returned (_, refl, entries_none log, h, refl, refl)
  ]

  take_quit-Steps :
      (log : Log) → length log.queue ≤ log_queue_size → Steps log take_quit [] log.closed log.quit
  unfolding log_step
  take_quit-Steps log h = elim (Bool-cases log.quit) [
    | inl quit ↦ simp quit (_, refl, entries_none log, h, refl, refl)
    | inr open' ↦ simp open' (_, refl, entries_none log, h, refl, open')
  ]

  close_queue-Steps :
      (log : Log)
      → length log.queue ≤ log_queue_size
      → log.closed ≡ false
      → Steps log close_queue [] true log.quit
  unfolding log_step
  close_queue-Steps log h open' = simp open' (_, refl, entries_none log, h, refl, refl)

  close_quit-Steps :
      (log : Log)
      → length log.queue ≤ log_queue_size
      → log.quit ≡ false
      → Steps log close_quit [] log.closed true
  unfolding log_step
  close_quit-Steps log h open' = simp open' (_, refl, entries_none log, h, refl, refl)

  -- What a run ends with.
  abbrev pub Keeps : Log → List LogEvent → Type 0
  Keeps log events =
      (log' : Log) × (run_log logs (some log) events ≡ some log')
      × (all_entries log' ≡ all_entries log ++ kept_entries (some log) events)
      × (length log'.queue ≤ log_queue_size)

  Keeps-step :
      (log : Log) (event : LogEvent) (events : List LogEvent) (entries : List LogData)
      (closed quit : Bool)
      → kept_entries (some log) (event ∷ events)
        ≡ entries ++ kept_entries (log_step logs log event) events
      → Steps log event entries closed quit
      → ((log' : Log)
          → length log'.queue ≤ log_queue_size
          → Orderly log'.closed log'.quit events
          → Keeps log' events)
      → Orderly closed quit events
      → Keeps log (event ∷ events)
  unfolding run_log
  Keeps-step log event events entries closed quit e (log', step, same, bound, c, q) rest orderly =
      let (end, run, same', bound') = rest log' bound (rw (c, q) orderly) in
      (
        end,
        ap (λ (o : Option Log). run_log logs o events) step ∙ run,
        same'
            ∙ ap (λ (l : List LogData). l ++ kept_entries (some log') events) same
            ∙ append_assoc (all_entries log) entries _
            ∙ ap (λ (l : List LogData). all_entries log ++ l)
                (ap (λ (o : Option Log). entries ++ kept_entries o events) (sym step) ∙ sym e),
        bound',
      )

  -- Where no request is logged after the queue is closed, ShutDown is called once and the logger
  -- takes every map without a panic, also the nil ones of a closed queue, the log does not panic,
  -- and nothing is lost behind the queue, whatever the order of the requests, of the goroutine that
  -- writes and of the steps of ShutDown: what the logger was given, but for the nil maps, and what
  -- waits are the entries that were kept, in the order of their requests, and no more than 1000 of
  -- them wait. An entry is kept unless it finds 1000 others waiting.
  pub run_log_lem :
      ((taken : Option LogData) → logs taken ≡ true)
      → (events : List LogEvent) (log : Log) → length log.queue ≤ log_queue_size
      → Orderly log.closed log.quit events
      → Keeps log events
  unfolding kept_entries
  run_log_lem takes [] log h orderly = (log, unfold run_log in refl, entries_none log, h)
  run_log_lem takes (submit entry elapsed rcode ∷ events) log h (open', orderly) =
      Keeps-step log (submit entry elapsed rcode) events _ log.closed log.quit refl
        (submit-Steps log entry elapsed rcode h open') (run_log_lem takes events) orderly
  run_log_lem takes (take_entry ∷ events) log h orderly =
      Keeps-step log take_entry events [] log.closed log.quit refl (take_entry-Steps takes log h)
        (run_log_lem takes events) orderly
  run_log_lem takes (take_quit ∷ events) log h orderly =
      Keeps-step log take_quit events [] log.closed log.quit refl (take_quit-Steps log h)
        (run_log_lem takes events) orderly
  run_log_lem takes (close_queue ∷ events) log h (open', orderly) =
      Keeps-step log close_queue events [] true log.quit refl (close_queue-Steps log h open')
        (run_log_lem takes events) orderly
  run_log_lem takes (close_quit ∷ events) log h (open', orderly) =
      Keeps-step log close_quit events [] log.closed true refl (close_quit-Steps log h open')
        (run_log_lem takes events) orderly
