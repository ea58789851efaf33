-- ===== src/Logs/Handling.antt =====
-- handler/handler.go: HandleRequest with its log and the Response that it ends by.
use redins.Prelude.{if◌then◌else◌, ℤ, Text, ℕ, Bool, Option, none, some}
use redins.Zone.{Zone}
use redins.Answers.{empty}
use redins.GeoIp.{GeoIp}
use redins.Backend.{Backend}
use redins.Reply.{Context, Signing}
use redins.Request.{answer_request}
use redins.Incoming.{Outgoing}
use redins.Logs.{LogData, with_source, with_domain}
use redins.Logs.Queue.{Log, log_and_respond}

module _ {F : Type 0} (geo : GeoIp F) (log_source_location : Bool) (b : Backend)
    (fqdn : Text → Text) (max_ttl : ℤ) (signing : Signing) where
  abbrev pub domain_if : Option (b.State × Option Zone) → Option Text
  domain_if none = none
  domain_if (some (s, none)) = none
  domain_if (some (s, some zone)) = some zone.config.domain_id

  -- The domain of the zone that is loaded for a request, which goes into its entry.
  unfoldable pub domain_of : b.State → Context → Option Text
  domain_of s c =
      let zone_name = b.find_zone c.raw_name in
      if empty zone_name then none else domain_if (b.load_zone s zone_name)

  abbrev pub Handled : Type 0
  Handled = Option (b.State × (Log × Outgoing))

  abbrev pub with_state : b.State → Option (Log × Outgoing) → Handled
  with_state s none = none
  with_state s (some sent) = some (s, sent)

  abbrev pub responded : Log → LogData → ℕ → Option Text → Option (b.State × Context × ℕ) → Handled
  responded log entry elapsed domain none = none
  responded log entry elapsed domain (some (s, c, rcode)) =
      with_state s (log_and_respond log (with_domain domain entry) elapsed c rcode)

  abbrev pub sourced : b.State → Log → ℕ → Context → Option LogData → Handled
  sourced s log elapsed c none = none
  sourced s log elapsed c (some entry) =
      responded log entry elapsed (domain_of s c) (answer_request b fqdn max_ttl signing s c)

  -- HandleRequest, with the entry that the context has and the time that it takes; `none` is a panic.
  unfoldable pub handle_and_log : b.State → Log → LogData → ℕ → Context → Handled
  handle_and_log s log entry elapsed c =
      sourced s log elapsed c (with_source geo log_source_location c.source_ip entry)
