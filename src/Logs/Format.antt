-- ===== src/Logs/Format.antt =====
-- handler/logformat/logformat.go: the formatting of an entry of the log as a message of capnp.
use redins.Prelude.{if◌then◌else◌, Text, codes, ℕ, ◌%◌, ◌^◌, Bool, Option, none, some, []}
use redins.Logs.{Value, text_value, ip_value, int_value, int64_value, uint_value, LogData}

-- The fields of request.capnp.
pub record RequestLog : Type 0 where
  pub timestamp : ℕ
  pub uuid : Text
  pub name : Text
  pub qtype : Text
  pub ip : Text
  pub country : Text
  pub asn : ℕ
  pub responsecode : ℕ
  pub processtime : ℕ

-- A type assertion that fails is a panic.
pub data Formatted : Type 0 where
  panicked : Formatted
  failed : Formatted
  formatted : Text → Formatted

abbrev pub new_request_log : RequestLog
new_request_log = record {
  timestamp = 0;
  uuid = [];
  name = [];
  qtype = [];
  ip = [];
  country = [];
  asn = 0;
  responsecode = 0;
  processtime = 0;
}

-- `v.(int)`, `v.(int64)` and `v.(uint)`, and what is done with the value.
abbrev pub int_of : Option Value → (ℕ → Formatted) → Formatted
int_of none next = panicked
int_of (some (text_value t)) next = panicked
int_of (some (ip_value ip)) next = panicked
int_of (some (int_value n)) next = next n
int_of (some (int64_value n)) next = panicked
int_of (some (uint_value n)) next = panicked

abbrev pub int64_of : Option Value → (ℕ → Formatted) → Formatted
int64_of none next = panicked
int64_of (some (text_value t)) next = panicked
int64_of (some (ip_value ip)) next = panicked
int64_of (some (int_value n)) next = panicked
int64_of (some (int64_value n)) next = next n
int64_of (some (uint_value n)) next = panicked

abbrev pub uint_of : Value → (ℕ → Formatted) → Formatted
uint_of (text_value t) next = panicked
uint_of (ip_value ip) next = panicked
uint_of (int_value n) next = panicked
uint_of (int64_value n) next = panicked
uint_of (uint_value n) next = next n

-- `fits` tells of a text whether capnp can set it, `made` whether it can make a message, and
-- `encode` is its encoder.
module _ (fits : Text → Bool) (made : Bool) (encode : RequestLog → Option Text) where
  -- `v.(string)`, set as a field.
  abbrev pub text_of : Option Value → (Text → Formatted) → Formatted
  text_of none next = panicked
  text_of (some (text_value t)) next = if fits t then next t else failed
  text_of (some (ip_value ip)) next = panicked
  text_of (some (int_value n)) next = panicked
  text_of (some (int64_value n)) next = panicked
  text_of (some (uint_value n)) next = panicked

  abbrev pub encoded : Option Text → Formatted
  encoded none = failed
  encoded (some bytes) = formatted bytes

  abbrev pub with_source_asn : RequestLog → Option Value → Formatted
  with_source_asn log none = encoded (encode log)
  with_source_asn log (some asn) =
      uint_of asn (λ n. encoded (encode (record log { asn = n % 2 ^ 32 })))

  abbrev pub with_source_country : RequestLog → LogData → Option Value → Formatted
  with_source_country log entry none = with_source_asn log (entry (codes "source_asn"))
  with_source_country log entry (some country) =
      text_of (some country)
        (λ t. with_source_asn (record log { country = t }) (entry (codes "source_asn")))

  abbrev pub with_subnet : RequestLog → LogData → Option Value → Formatted
  with_subnet log entry none = with_source_country log entry (entry (codes "source_country"))
  with_subnet log entry (some client_subnet) =
      text_of (some client_subnet)
        (λ t. with_source_country (record log { ip = t }) entry (entry (codes "source_country")))

  -- Format; `seconds` is the time of the entry.
  unfoldable pub format : ℕ → LogData → Formatted
  format seconds entry =
      if made
      then text_of (entry (codes "domain_uuid")) (λ uuid. text_of (entry (codes "record")) (λ name.
        text_of (entry (codes "type")) (λ qtype. int_of (entry (codes "response_code")) (λ rcode.
          int64_of (entry (codes "process_time")) (λ time.
            with_subnet
              (record new_request_log {
                timestamp = seconds % 2 ^ 64;
                uuid = uuid;
                name = name;
                qtype = qtype;
                responsecode = rcode % 2 ^ 16;
                processtime = time % 2 ^ 16;
              })
              entry (entry (codes "client_subnet")))))))
      else failed
