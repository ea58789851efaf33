-- ===== src/Logs/Queue.antt =====
-- handler/handler.go: the queue of the log between LogRequest and the goroutine of NewHandler that
-- writes it, and how ShutDown closes it.
use redins.Prelude.{
  ltb, if◌then◌else◌, length, ℕ, Bool, true, false, Option, none, some, List, [], ◌∷◌, ◌++◌,
}
use redins.Logs.{LogData, finish_entry}
use redins.Reply.{Context}
use redins.Incoming.{Outgoing, response}

abbrev pub log_queue_size : ℕ
log_queue_size = 1000

-- A channel that may be closed: what is sent and not received yet.
pub record Log : Type 0 where
  pub queue : List LogData
  pub closed : Bool
  pub quit : Bool
  pub running : Bool
  -- What the goroutine gives to the logger: `none` is the nil map of a queue that is closed and empty.
  pub written : List (Option LogData)

abbrev pub new_log : Log
new_log = record { queue = []; closed = false; quit = false; running = true; written = [] }

-- LogRequest: the entry is dropped where the queue is full, and a queue that is closed is a panic.
unfoldable pub log_request : Log → LogData → ℕ → ℕ → Option Log
log_request log entry elapsed rcode =
    if log.closed
    then none
    else if ltb (length log.queue) log_queue_size
    then some (record log { queue = log.queue ++ finish_entry entry elapsed rcode ∷ [] })
    else some log

-- DnsRequestHandler.Response
abbrev pub with_response : Outgoing → Option Log → Option (Log × Outgoing)
with_response out none = none
with_response out (some log) = some (log, out)

unfoldable pub log_and_respond : Log → LogData → ℕ → Context → ℕ → Option (Log × Outgoing)
unfolding log_request
log_and_respond log entry elapsed context rcode =
    with_response (response context rcode) (log_request log entry elapsed rcode)

-- The requests, the choices of the goroutine that writes the log, and the two steps of ShutDown.
pub data LogEvent : Type 0 where
  submit : LogData → ℕ → ℕ → LogEvent
  take_entry : LogEvent
  take_quit : LogEvent
  close_queue : LogEvent
  close_quit : LogEvent

-- `logs` tells whether the logger takes a map without a panic of its formatter.
module _ (logs : Option LogData → Bool) where
  abbrev pub logged : Log → List LogData → Option LogData → Option Log
  logged log rest taken =
      if logs taken
      then some (record log { queue = rest; written = log.written ++ taken ∷ [] })
      else none

  -- `data := <-h.logQueue`, which waits on a queue that is open and empty, and the log of what is
  -- taken.
  abbrev pub received : Log → List LogData → Option Log
  received log (entry ∷ rest) = logged log rest (some entry)
  received log [] = if log.closed then logged log [] none else some log

  -- A second close is a panic. The goroutine does nothing once it has returned.
  unfoldable pub log_step : Log → LogEvent → Option Log
  unfolding log_request
  log_step log (submit entry elapsed rcode) = log_request log entry elapsed rcode
  log_step log take_entry = if log.running then received log log.queue else some log
  log_step log take_quit = some (if log.quit then record log { running = false } else log)
  log_step log close_queue = if log.closed then none else some (record log { closed = true })
  log_step log close_quit = if log.quit then none else some (record log { quit = true })

  unfoldable pub run_log : Option Log → List LogEvent → Option Log
  run_log none events = none
  run_log (some log) [] = some log
  run_log (some log) (event ∷ events) = run_log (log_step log event) events
