-- ===== src/Healthcheck/Probe.antt =====
-- handler/healthcheck.go: one check of an item (HandleHealthCheck, httpCheck, pingCheck), and the
-- choice of the items that are due (Start).
pub mod Due
use redins.Prelude.{
  ltb, ◌==◌, if◌then◌else◌, ℤ, pos_part, int_mul, pos, Text, codes, text_eq, trim_prefix,
  trim_right, ℕ, min, ◌+◌, ◌-◌, ◌*◌, Bool, true, not, ◌||◌, Option, none, some, List, [], ◌∷◌, ◌++◌,
}
use redins.Records.{Ip}
use redins.Config.{HealthcheckConfig}
use redins.Healthcheck.{Item, load_item, status_up, status_down}
use redins.Healthcheck.Store.{StatusServer, status_prefix, store_item}

pub data CheckError : Type 0 where
  invalid_request : CheckError
  request_failed : CheckError
  invalid_status_code : ℕ → CheckError
  ping_failed : CheckError
  invalid_protocol : Text → Text → ℤ → CheckError

-- The request of httpCheck: a HEAD request that follows no redirect; durations are nanoseconds.
pub record HttpRequest : Type 0 where
  pub url : Text
  pub host : Text
  pub server_name : Text
  pub timeout : ℤ

-- The network: whether http.NewRequest takes an url, the status code that a request gets, and of a
-- raw socket the steps of pingCheck, `none` or `false` for an error. `parse_reply` tells whether a
-- message is an echo reply, and `parse_ip` is net.ParseIP.
pub record Network : Type 0 where
  pub valid_url : Text → Bool
  pub head : HttpRequest → Option ℕ
  pub listen_packet : Bool
  pub marshal_echo : ℕ → Option Text
  pub write_to : Text → Ip → Bool
  pub read_from : Option Text
  pub parse_reply : Text → Option Bool
  pub parse_ip : Text → Ip

abbrev pub status_ok : ℕ
status_ok = 200

abbrev pub status_moved_permanently : ℕ
status_moved_permanently = 301

abbrev pub status_found : ℕ
status_found = 302

unfoldable pub check_status : ℕ → Option CheckError
check_status code =
    if code == status_ok || code == status_found || code == status_moved_permanently
    then none
    else some (invalid_status_code code)

abbrev check_response : Option ℕ → Option CheckError
check_response none = some request_failed
check_response (some code) = check_status code

-- The first four bytes of an address, which net.ParseIP gives in 16 bytes; `none` is the panic of
-- binary.BigEndian.Uint32 at an address that does not parse.
unfoldable pub echo_id : Ip → Option ℕ
echo_id (a ∷ b ∷ c ∷ d ∷ rest) = some (((a * 256 + b) * 256 + c) * 256 + d)
echo_id _ = none

module _ (net : Network) where
  unfoldable pub http_check : Text → Text → ℤ → Option CheckError
  unfolding check_status
  http_check url host timeout =
      if not (net.valid_url url)
      then some invalid_request
      else check_response (
          net.head (record {
            url = url;
            host = trim_right b'.' host;
            server_name = host;
            timeout = timeout;
          }))

  abbrev echo_answer : Option Bool → Option CheckError
  echo_answer (some true) = none
  echo_answer _ = some ping_failed

  abbrev echo_read : Option Text → Option CheckError
  echo_read none = some ping_failed
  echo_read (some rb) = echo_answer (net.parse_reply rb)

  abbrev echo_sent : Ip → Option Text → Option CheckError
  echo_sent ip none = some ping_failed
  echo_sent ip (some wb) = if net.write_to wb ip then echo_read net.read_from else some ping_failed

  abbrev echo : Ip → Option ℕ → Option (Option CheckError)
  echo ip none = none
  echo ip (some id) = some (echo_sent ip (net.marshal_echo id))

  -- The outer `none` is a panic, the inner one success.
  unfoldable pub ping_check : Text → Option (Option CheckError)
  unfolding echo_id
  ping_check ip =
      if not net.listen_packet
      then some (some ping_failed)
      else let address = net.parse_ip ip in echo address (echo_id address)

  -- The `switch` on the protocol. The port is not part of the url.
  unfoldable pub run_check : Item → Option (Option CheckError)
  unfolding http_check ping_check
  run_check item =
      if text_eq item.protocol (codes "http") || text_eq item.protocol (codes "https")
      then some (
          http_check (item.protocol ++ (codes "://" ++ (item.ip ++ item.uri))) item.host
            (int_mul item.timeout (pos 1000000)))
      else if text_eq item.protocol (codes "ping") || text_eq item.protocol (codes "icmp")
      then ping_check item.ip
      else some (some (invalid_protocol item.protocol item.ip item.port))

-- What logHealthcheck writes of an item, with the error of its check.
pub record LogEntry : Type 0 where
  pub ip : Text
  pub port : ℤ
  pub host : Text
  pub domain_uuid : Text
  pub uri : Text
  pub status : ℤ
  pub error : Option CheckError

unfoldable pub log_healthcheck : Item → Option CheckError → LogEntry
log_healthcheck item error = record {
  ip = item.ip;
  port = item.port;
  host = item.host;
  domain_uuid = item.domain_id;
  uri = item.uri;
  status = item.status;
  error = error;
}

-- The item after a check that ends at `now`.
unfoldable pub checked : ℕ → Item → Option CheckError → Item
checked now item none = record (status_up item) { last_check = now }
checked now item (some error) = record (status_down item) { last_check = now }

-- The longest time.Duration, which time.Time.Sub does not pass.
abbrev pub max_duration : ℕ
max_duration = 9223372036854775807

module _ (r : StatusServer) (encode : Item → Option Text) (decode : Text → Item → Item)
    (check_interval : ℕ) where
  abbrev finish_check :
      r.State → ℕ → Item → Option (Option CheckError) → Option (r.State × LogEntry)
  finish_check s now item none = none
  finish_check s now item (some error) =
      let item' = checked now item error in
      some (store_item r encode s item', log_healthcheck item' error)

  -- HandleHealthCheck on a job of the pool; `none` is a panic.
  unfoldable pub handle_health_check : Network → r.State → ℕ → Item → Option (r.State × LogEntry)
  unfolding run_check checked log_healthcheck
  handle_health_check net s now item = finish_check s now item (run_check net item)

  unfoldable pub is_due : ℕ → Item → Bool
  is_due now item = ltb check_interval (min (now - item.last_check) max_duration)

  abbrev queue_if_due : ℕ → Option Item → List Item → List Item
  queue_if_due now none items = items
  queue_if_due now (some item) items = if is_due now item then item ∷ items else items

  -- The items that a tick queues, of the keys that were read before it.
  unfoldable pub queue_items : ℕ → r.State → List Text → List Item
  unfolding is_due
  queue_items now s [] = []
  queue_items now s (key ∷ keys) =
      queue_if_due now (load_item (r.get s) decode (trim_prefix key status_prefix))
        (queue_items now s keys)

  abbrev pub known_keys : Option (List Text) → List Text
  known_keys none = []
  known_keys (some keys) = keys

  -- A round of Start that takes the tick at `now`: the keys are those of the state `before`, at the
  -- start of the round, and the items those of the tick.
  unfoldable pub start_tick : r.State → ℕ → r.State → List Item
  start_tick before now s =
      queue_items now s (known_keys (r.get_keys before (status_prefix ++ codes "*")))

-- Healthcheck, as NewHealthcheck makes it: `workers` handlers run, and the cache keeps an item for
-- `update_interval`.
pub record Healthcheck : Type 0 where
  pub enable : Bool
  pub max_requests : ℤ
  pub max_pending_requests : ℤ
  pub update_interval : ℤ
  pub check_interval : ℤ
  pub workers : ℕ

abbrev second : ℤ
second = pos 1000000000

unfoldable pub new_healthcheck : HealthcheckConfig → Healthcheck
new_healthcheck config = record {
  enable = config.enable;
  max_requests = config.max_requests;
  max_pending_requests = config.max_pending_requests;
  update_interval = int_mul config.update_interval second;
  check_interval = int_mul config.check_interval second;
  workers = if config.enable then pos_part config.max_requests else 0;
}
