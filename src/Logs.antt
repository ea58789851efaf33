-- ===== src/Logs.antt =====
-- handler/request.go and handler/handler.go: the entry of a request in the log, from NewRequestContext
-- through HandleRequest to LogRequest.
pub mod Format
pub mod Entry
pub mod Queue
pub mod Kept
pub mod Handling
pub mod Answered
use redins.Prelude.{
  if◌then◌else◌, Text, codes, text_eq, ℕ, ◌/◌, String, Bool, Option, none, some, [],
}
use redins.Records.{Ip}
use redins.Message.{RrType}
use redins.GeoIp.{GeoIp, get_country, get_asn}
use redins.Incoming.{Incoming, type_of, raw_name, source_ip, source_subnet}

-- What an `interface{}` of the entry holds.
pub data Value : Type 0 where
  text_value : Text → Value
  ip_value : Ip → Value
  int_value : ℕ → Value
  int64_value : ℕ → Value
  uint_value : ℕ → Value

-- context.LogData, a map.
abbrev pub LogData : Type 0
LogData = Text → Option Value

abbrev pub put : String → Value → LogData → LogData
put key value entry name = if text_eq (codes key) name then some value else entry name

abbrev pub no_data : LogData
no_data name = none

-- The part of NewRequestContext; `type_text` is the name of a type.
unfoldable pub new_log_data : (Text → Ip) → (RrType → Text) → Text → Incoming → LogData
new_log_data parse_ip type_text remote m =
    put "source_ip" (ip_value (source_ip parse_ip remote m)) (
      put "record" (text_value (raw_name [] m).1) (
        put "type" (text_value (type_text (type_of m.questions))) (
          put "client_subnet" (text_value (source_subnet m))
            (put "domain_uuid" (text_value []) no_data))))

abbrev pub or_no_country : Option Text → Text
or_no_country none = []
or_no_country (some country) = country

abbrev pub or_no_asn : Option ℕ → ℕ
or_no_asn none = 0
or_no_asn (some asn) = asn

abbrev pub logged_asn : LogData → Option (Option ℕ) → Option LogData
logged_asn entry none = none
logged_asn entry (some asn) = some (put "source_asn" (uint_value (or_no_asn asn)) entry)

-- The start of HandleRequest, where `log_source_location` is set; `none` is the panic of GetASN.
unfoldable pub with_source : {F : Type 0} → GeoIp F → Bool → Ip → LogData → Option LogData
with_source geo log_source_location source entry =
    if log_source_location
    then logged_asn
        (put "source_country" (text_value (or_no_country (get_country geo source))) entry)
        (get_asn geo source)
    else some entry

-- HandleRequest, once the zone of the request is loaded.
abbrev pub with_domain : Option Text → LogData → LogData
with_domain none entry = entry
with_domain (some domain_id) entry = put "domain_uuid" (text_value domain_id) entry

-- LogRequest, before it sends the entry; `elapsed` is in nanoseconds.
unfoldable pub finish_entry : LogData → ℕ → ℕ → LogData
finish_entry entry elapsed rcode = put "log_type" (text_value (codes "request")) (
    put "response_code" (int_value rcode)
      (put "process_time" (int64_value (elapsed / 1000000)) entry))
