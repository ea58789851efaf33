-- ===== src/Tests/Logged.antt =====
-- The entries of the log of handler/handler.go and handler/logformat/logformat.go.
use redins.Prelude.{
  leb, pos, length, Text, codes, text_eq, ℕ, ◌≡◌, refl, ◌⊎◌, Bool, true, false, Option, none, some,
  List, [], ◌∷◌, ◌++◌, arith,
}
use redins.Message.{RrType}
use redins.Records.{Ip}
use redins.GeoIp.{get_country, get_asn}
use redins.Incoming.{Incoming, subnet, raw_name, source_subnet, new_request_context, response}
use redins.Logs.{
  LogData, put, text_value, uint_value, new_log_data, with_source, with_domain, finish_entry,
  no_data,
}
use redins.Logs.Format.{RequestLog, format, formatted, panicked}
use redins.Logs.Answered.{format_of, handle_and_log_lem}
use redins.Logs.Handling.{handle_and_log}
use redins.Tests.Requests.{backend, same_name, signing, no_panics}
use redins.Reply.{Context}
use redins.Request.{answer_request}
use redins.Request.Aliases.{IsCode}
use redins.Backend.{rcode_not_auth}
use redins.Logs.Queue.{
  LogEvent, Log, submit, take_entry, take_quit, close_queue, close_quit, new_log, log_request,
  log_step, run_log,
}
use redins.Logs.Kept.{Keeps, run_log_lem}
use redins.Tests.Geography.{geo}

abbrev message : Incoming
message = record {
  questions = (codes "A.e.", 1) ∷ [];
  options = some (subnet (6 ∷ []) (codes "6/8") ∷ []);
}

abbrev parse_ip : Text → Ip
parse_ip s = s

abbrev type_text : RrType → Text
type_text n = n ∷ []

abbrev short : Text → Bool
short t = leb (length t) 4

abbrev numbers_of : RequestLog → Option Text
numbers_of log = some (
    log.timestamp ∷ log.asn ∷ log.responsecode ∷ log.processtime ∷ log.uuid
    ++ (log.country ++ log.name))

abbrev entry : LogData
entry = put "source_asn" (uint_value 44) (
    put "source_country" (text_value (codes "IR"))
      (new_log_data parse_ip type_text (1 ∷ []) message))

-- The time of a request that takes 65.537 seconds is logged as a millisecond.
long_request :
    format short true numbers_of 7
      (finish_entry (with_domain (some (codes "id")) entry) 65537000000 3)
    ≡ formatted (7 ∷ 44 ∷ 3 ∷ 1 ∷ codes "idIRa.e.")
unfolding format finish_entry new_log_data raw_name source_subnet text_eq
long_request = refl

handle_and_log_lem_example :
    (s' : backend.State) × (d : Context) × (rcode : ℕ) × (log' : Log) × (sent' : LogData)
    × (answer_request backend same_name
          (pos 60)
          signing
          tt
          (new_request_context parse_ip (1 ∷ []) false message)
        ≡ some (s', d, rcode))
    × (handle_and_log geo true backend same_name
          (pos 60)
          signing
          tt
          new_log
          (new_log_data parse_ip type_text (1 ∷ []) message)
          7000000
          (new_request_context parse_ip (1 ∷ []) false message)
        ≡ some (s', (log', response d rcode)))
    × (IsCode rcode ⊎ (rcode ≡ rcode_not_auth))
    × (log'.queue ≡ sent' ∷ [])
    × ((seconds : ℕ)
        → format short true numbers_of seconds sent'
          ≡ format_of geo true backend same_name
              (pos 60)
              signing
              parse_ip
              type_text
              short
              true
              numbers_of
              (λ z. refl)
              (no_panics)
              tt
              new_log
              (1 ∷ [])
              false
              message
              7000000
              rcode
              seconds)
unfolding with_source get_country get_asn
handle_and_log_lem_example =
    handle_and_log_lem geo true backend same_name (pos 60) signing parse_ip type_text short true
      numbers_of (λ z. refl) no_panics tt new_log (1 ∷ []) false message 7000000 entry refl refl

-- Two requests, and then ShutDown, during which the queue is received from once more.
abbrev events : List LogEvent
events =
    submit entry 5000000 0
    ∷ submit entry 6000000 3
    ∷ take_entry
    ∷ close_queue
    ∷ take_entry
    ∷ take_entry
    ∷ close_quit
    ∷ take_quit
    ∷ []

-- The formatters of text and json, and that of capnp.
abbrev plain_logger : Option LogData → Bool
plain_logger taken = true

abbrev capnp_logger : Option LogData → Bool
capnp_logger none = false
capnp_logger (some entry') = true

run_log_lem_example : Keeps plain_logger new_log events
run_log_lem_example =
    run_log_lem plain_logger (λ taken. refl) events new_log (omega arith)
      (refl, (refl, (refl, (refl, tt))))

abbrev written_of : Option Log → List (Option LogData)
written_of none = []
written_of (some log) = log.written

-- The last entry that is written is a nil map, on which Format panics, and the log with it.
nil_written :
    (written_of (run_log plain_logger (some new_log) events)
      ≡ some (finish_entry entry 5000000 0) ∷ some (finish_entry entry 6000000 3) ∷ none ∷ [])
    × (format short true numbers_of 7 no_data ≡ panicked)
    × (run_log capnp_logger (some new_log) events ≡ none)
unfolding run_log log_step log_request format
nil_written = (refl, refl, refl)

-- A request that is answered after the queue is closed is a panic.
late_request :
    run_log plain_logger (some new_log) (close_queue ∷ submit entry 5000000 0 ∷ []) ≡ none
unfolding run_log log_step log_request
late_request = refl
