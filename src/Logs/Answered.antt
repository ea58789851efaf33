-- ===== src/Logs/Answered.antt =====
-- handler/handler.go: a request is answered and logged with the code of its answer.
use redins.Prelude.{
  ltb, if◌then◌else◌, Bool-cases, ℤ, length, Text, ℕ, ◌≡◌, refl, ap, ◌∙◌, ◌⊎◌, inl, inr, Bool,
  false, ◌&&◌, Option, some, [], ◌∷◌, ◌++◌,
}
use redins.Records.{Ip}
use redins.Zone.{Zone}
use redins.Dnssec.Fitting.{Fits}
use redins.Message.{RrType}
use redins.GeoIp.{GeoIp}
use redins.Backend.{Backend, Calm, rcode_not_auth}
use redins.Reply.{Context, Signing}
use redins.Request.{answer_request}
use redins.Request.Aliases.{IsCode}
use redins.Request.Response.{answer_request-Responds}
use redins.Incoming.{Incoming, response, source_ip, new_request_context}
use redins.Logs.{LogData, new_log_data, with_source, with_domain, finish_entry}
use redins.Logs.Format.{RequestLog, Formatted, failed, encoded, format}
use redins.Logs.Entry.{log_of, texts_of, all_fit, format-entry}
use redins.Logs.Queue.{Log, log_queue_size, log_request, log_and_respond, with_response}
use redins.Logs.Handling.{domain_of, handle_and_log, responded, sourced, with_state}

-- An entry that is sent to a queue which is open.
sent :
    (log : Log) (entry : LogData) (elapsed rcode : ℕ)
    → log.closed ≡ false
    → (log' : Log) × (log_request log entry elapsed rcode ≡ some log')
      × (log'.queue ≡ (
          if ltb (length log.queue) log_queue_size
          then log.queue ++ finish_entry entry elapsed rcode ∷ []
          else log.queue))
unfolding log_request
sent log entry elapsed rcode open' = elim (Bool-cases (ltb (length log.queue) log_queue_size)) [
  | inl room ↦ simp (open', room) (_, refl, refl)
  | inr full ↦ simp (open', full) (_, refl, refl)
]

module _ {F : Type 0} (geo : GeoIp F) (log_source_location : Bool) (b : Backend)
    (fqdn : Text → Text) (max_ttl : ℤ) (signing : Signing) (parse_ip : Text → Ip)
    (type_text : RrType → Text) (fits : Text → Bool) (made : Bool)
    (encode : RequestLog → Option Text) (fitting : (zone : Zone) → Fits (signing.keys zone).zsk)
    (calm : Calm b) (s : b.State) (log : Log) (remote : Text) (do_bit : Bool) (m : Incoming)
    (elapsed : ℕ) where
  abbrev context : Context
  context = new_request_context parse_ip remote do_bit m

  abbrev domain : Option Text
  domain = domain_of geo log_source_location b fqdn max_ttl signing s context

  abbrev new_entry : LogData
  new_entry = new_log_data parse_ip type_text remote m

  -- The format of the log of the request with this code, at a time.
  abbrev pub format_of : ℕ → ℕ → Formatted
  format_of rcode seconds =
      let texts =
        texts_of fits made encode geo parse_ip type_text remote m elapsed rcode seconds
          log_source_location domain in
      if made
        && all_fit fits made encode geo parse_ip type_text remote m elapsed rcode seconds texts
      then encoded fits made encode (
          encode (
            log_of fits made encode geo parse_ip type_text remote m elapsed rcode seconds
              log_source_location domain))
      else failed

  handle_and_log-eq :
      (entry : LogData) (s' : b.State) (d : Context) (rcode : ℕ) (log' : Log)
      → with_source geo log_source_location (source_ip parse_ip remote m) new_entry ≡ some entry
      → answer_request b fqdn max_ttl signing s context ≡ some (s', d, rcode)
      → log_request log (with_domain domain entry) elapsed rcode ≡ some log'
      → handle_and_log geo log_source_location b fqdn max_ttl signing s log new_entry elapsed
          context
        ≡ some (s', (log', response d rcode))
  unfolding handle_and_log log_and_respond new_request_context
  handle_and_log-eq entry s' d rcode log' e handled sent' =
      ap (sourced geo log_source_location b fqdn max_ttl signing s log elapsed context) e
      ∙ ap (responded geo log_source_location b fqdn max_ttl signing log entry elapsed domain)
          handled
      ∙ ap
          (λ (o : Option Log).
            with_state geo log_source_location b fqdn max_ttl signing s'
              (with_response (response d rcode) o))
          sent'

  -- A request to a handler in which no filter and no loading of a zone panics, and whose keys that sign
  -- are of the types of their algorithms, is answered and logged, while the queue of the log is open
  -- and the lookups of its source do not panic: HandleRequest ends
  -- by the response of the context and the code that it comes to, which is no error, server failure,
  -- name error, not implemented or not authoritative, and sends one entry, unless 1000 others wait;
  -- whenever the entry is formatted, it gives the log of the request with that code and with the domain
  -- of the zone that was loaded for it, or Format fails by capnp.
  pub handle_and_log_lem :
      (entry : LogData)
      → log.closed ≡ false
      → with_source geo log_source_location (source_ip parse_ip remote m) new_entry ≡ some entry
      → (s' : b.State) × (d : Context) × (rcode : ℕ) × (log' : Log) × (sent' : LogData)
        × (answer_request b fqdn max_ttl signing s context ≡ some (s', d, rcode))
        × (handle_and_log geo log_source_location b fqdn max_ttl signing s log new_entry elapsed
              context
            ≡ some (s', (log', response d rcode)))
        × (IsCode rcode ⊎ (rcode ≡ rcode_not_auth))
        × (log'.queue ≡ (
            if ltb (length log.queue) log_queue_size then log.queue ++ sent' ∷ [] else log.queue))
        × ((seconds : ℕ) → format fits made encode seconds sent' ≡ format_of rcode seconds)
  handle_and_log_lem entry open' e =
      let (s', d, rcode, handled, code, same) =
        answer_request-Responds b fqdn max_ttl signing fitting calm s context in
      let (log', e', queued) = sent log (with_domain domain entry) elapsed rcode open' in
      (
        s',
        d,
        rcode,
        log',
        finish_entry (with_domain domain entry) elapsed rcode,
        handled,
        handle_and_log-eq entry s' d rcode log' e handled e',
        code,
        queued,
        λ seconds.
            format-entry fits made encode geo parse_ip type_text remote m elapsed rcode seconds
              log_source_location domain entry e,
      )
