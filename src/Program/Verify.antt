-- ===== src/Program/Verify.antt =====
-- redins.go: the verification of a configuration (Verify), as the lines that it prints.
pub mod Usable
use redins.Prelude.{
  ◌==◌, if◌then◌else◌, ℤ, ltb_ℤ, eqb_ℤ, pos, any, Text, codes, text_eq, ℕ, Bool, true, false, not,
  ◌&&◌, ◌||◌, Option, none, some, List, [], ◌∷◌, ◌++◌,
}
use redins.Records.{Ip}
use redins.Upstream.{UpstreamConfig}
use redins.Config.{
  SentryConfig, RedisConfig, LogConfig, KafkaConfig, SyslogConfig, ServerConfig, GeoIpConfig,
  RedinsConfig,
}

-- What a line is about.
pub data Subject : Type 0 where
  config_file : Text → Subject
  protocol : Text → Subject
  ip_address : Text → Subject
  port_number : ℤ → Subject
  available : Text → Text → Subject
  keyspace_events : Subject
  target : Text → Subject
  file_target : Text → Subject
  udp_target : Text → Subject
  log_level : Text → Subject
  log_format : Text → Subject
  time_format : Text → Subject
  kafka : Subject
  sentry : Text → Subject
  syslog : Text → Subject
  file_stat : Text → Subject
  database : Text → Subject
  query_results : Subject

-- The errors of Verify itself, and `failed` for one that a call returns.
pub data Problem : Type 0 where
  failed : Problem
  bad_protocol bad_ip bad_port : Problem
  no_keyspace no_set_events : Problem
  bad_target bad_level bad_format : Text → Problem
  bad_time_format : Problem
  empty_response bad_response incorrect_response : Problem
  sentry_failed : Problem

pub data Line : Type 0 where
  result : Subject → Option Problem → Line
  warning : Subject → Line

-- The first answer of an upstream server: an A record with its address as a text, or another record.
pub data FirstAnswer : Type 0 where
  a_record : Text → FirstAnswer
  other_record : FirstAnswer

-- The calls that leave the program; `false` and `none` are errors. `capture` is the identifier of the
-- event that sentry takes, and whether its channel gives no error.
pub record World : Type 0 where
  pub parse_ip : Text → Ip
  pub itoa : ℤ → Text
  pub listen_packet : Text → Text → Bool
  pub listen : Text → Text → Bool
  pub exchange : UpstreamConfig → Text → Option (List FirstAnswer)
  pub ping : RedisConfig → Bool
  pub get_config : RedisConfig → Text → Option Text
  pub open_file : Text → Bool
  pub resolve_udp : Text → Bool
  pub dial_udp : Text → Bool
  pub reference_time : ℕ
  pub format_time : ℕ → Text → Text
  pub parse_time : Text → Text → Option ℕ
  pub new_producer : KafkaConfig → Bool
  pub send_messages : KafkaConfig → Bool
  pub new_raven : Text → Bool
  pub capture : Text → Text × Bool
  pub dial_syslog : SyslogConfig → Bool
  pub write_syslog : SyslogConfig → Bool
  pub stat : Text → Bool
  pub open_db : Text → Bool
  pub lookup_db : Text → Bool

abbrev pub unless : Bool → Problem → Option Problem
unless true p = none
unless false p = some p

-- One of some texts.
unfoldable pub one_of : Text → List Text → Bool
one_of s [] = false
one_of s (t ∷ ts) = text_eq s t || one_of s ts

abbrev pub is_set {ℓ} : {A : Type ℓ} → List A → Bool
is_set [] = false
is_set (x ∷ xs) = true

abbrev pub protocols : List Text
protocols = codes "tcp" ∷ codes "udp" ∷ []

abbrev pub targets : List Text
targets = codes "stdout" ∷ codes "stderr" ∷ codes "file" ∷ codes "udp" ∷ []

abbrev pub levels : List Text
levels = codes "debug" ∷ codes "info" ∷ codes "warning" ∷ codes "error" ∷ []

abbrev pub formats : List Text
formats = codes "text" ∷ codes "json" ∷ codes "capnp_request" ∷ []

unfoldable pub valid_port : ℤ → Bool
valid_port port = not (ltb_ℤ (pos 65535) port || ltb_ℤ port (pos 1))

-- strings.Contains for one character.
abbrev pub has_char : Text → ℕ → Bool
has_char s c = any (λ d. d == c) s

abbrev pub expected_address : Text
expected_address = codes "131.107.255.255"

module _ (w : World) where
  unfoldable pub check_address : Text → Text → ℤ → List Line
  unfolding one_of valid_port
  check_address proto ip port =
      result (protocol proto) (unless (one_of proto protocols) bad_protocol)
      ∷ result (ip_address ip) (unless (is_set (w.parse_ip ip)) bad_ip)
      ∷ result (port_number port) (unless (valid_port port) bad_port)
      ∷ []

  abbrev pub check_events : Option Text → Option Problem
  check_events none = some failed
  check_events (some nkse) =
      if not (has_char nkse b'K')
      then some no_keyspace
      else if not (has_char nkse b'A') && not (has_char nkse b's')
      then some no_set_events
      else none

  unfoldable pub check_redis : RedisConfig → List Line
  check_redis config =
      result (available config.net config.address) (unless (w.ping config) failed)
      ∷ result keyspace_events (check_events (w.get_config config (codes "notify-keyspace-events")))
      ∷ []

  abbrev same_time : Option ℕ → Option Problem
  same_time none = some failed
  same_time (some t) = unless (t == w.reference_time) bad_time_format

  abbrev captured : Text × Bool → Option Problem
  captured (event_id, sent) = if is_set event_id then unless sent failed else some sentry_failed

  -- The file that is opened is the one that `target` names.
  abbrev pub file_lines : LogConfig → List Line
  file_lines config =
      if text_eq config.target (codes "file")
      then result (file_target config.path) (unless (w.open_file config.target) failed) ∷ []
      else []

  abbrev pub udp_lines : LogConfig → List Line
  udp_lines config =
      if text_eq config.target (codes "udp")
      then result (udp_target config.target)
          (unless (w.resolve_udp config.path && w.dial_udp config.path) failed)
        ∷ []
      else []

  abbrev pub setting_lines : LogConfig → List Line
  setting_lines config =
      result (log_level config.level) (unless (one_of config.level levels) (bad_level config.level))
      ∷ result (log_format config.format)
          (unless (one_of config.format formats) (bad_format config.format))
      ∷ result (time_format config.time_format) (
          same_time
            (w.parse_time config.time_format (w.format_time w.reference_time config.time_format)))
      ∷ []

  abbrev pub kafka_lines : KafkaConfig → List Line
  kafka_lines config =
      if config.enable
      then result kafka (unless (w.new_producer config && w.send_messages config) failed) ∷ []
      else []

  abbrev pub sentry_lines : SentryConfig → List Line
  sentry_lines config =
      if config.enable
      then result (sentry config.dsn)
          (if w.new_raven config.dsn then captured (w.capture config.dsn) else some failed)
        ∷ []
      else []

  abbrev pub syslog_lines : SyslogConfig → List Line
  syslog_lines config =
      if config.enable
      then result (syslog config.address)
          (unless (w.dial_syslog config && w.write_syslog config) failed)
        ∷ []
      else []

  abbrev pub service_lines : LogConfig → List Line
  service_lines config =
      kafka_lines config.kafka ++ (sentry_lines config.sentry ++ syslog_lines config.syslog)

  unfoldable pub check_log : LogConfig → List Line
  unfolding one_of
  check_log config =
      result (target config.path) (unless (one_of config.target targets) (bad_target config.target))
      ∷ (file_lines config ++ (udp_lines config ++ (setting_lines config ++ service_lines config)))

  abbrev pub address_of : Text → ℤ → Text
  address_of ip port = ip ++ (codes ":" ++ w.itoa port)

  abbrev pub listener_lines : ServerConfig → Text → List Line
  listener_lines server address =
      (if eqb_ℤ server.port (pos 53)
        then result (port_number server.port) none
        else warning (port_number server.port))
      ∷ result (available server.protocol address) (
          unless
            (if text_eq server.protocol (codes "udp")
              then w.listen_packet server.protocol address
              else w.listen server.protocol address)
            failed)
      ∷ []

  unfoldable pub check_server : ServerConfig → List Line
  unfolding check_address
  check_server server =
      check_address server.protocol server.ip server.port
      ++ listener_lines server (address_of server.ip server.port)

  abbrev pub check_answer : Option (List FirstAnswer) → Option Problem
  check_answer none = some failed
  check_answer (some []) = some empty_response
  check_answer (some (other_record ∷ rest)) = some bad_response
  check_answer (some (a_record a ∷ rest)) = unless (text_eq a expected_address) incorrect_response

  abbrev pub answer_lines : UpstreamConfig → Text → List Line
  answer_lines upstream address =
      result (available upstream.protocol address) (check_answer (w.exchange upstream address)) ∷ []

  unfoldable pub check_upstream : UpstreamConfig → List Line
  unfolding check_address
  check_upstream upstream =
      check_address upstream.protocol upstream.ip upstream.port
      ++ answer_lines upstream (address_of upstream.ip upstream.port)

  -- A file that is not there, or not a database, is not looked at further.
  unfoldable pub check_db : Text → List Line
  check_db file =
      result (file_stat file) (unless (w.stat file) failed)
      ∷ (if w.stat file
          then result (database file) (unless (w.open_db file) failed)
            ∷ (if w.open_db file
                then result query_results (unless (w.lookup_db file) failed) ∷ []
                else [])
          else [])

  unfoldable pub check_geo_ip : GeoIpConfig → List Line
  unfolding check_db
  check_geo_ip config =
      if config.enable then check_db config.country_db ++ check_db config.asn_db else []

  abbrev pub each {ℓ} : {A : Type ℓ} → (A → List Line) → List A → List Line
  each f [] = []
  each f (x ∷ xs) = f x ++ each f xs

  abbrev pub log_lines : LogConfig → List Line
  log_lines config = if config.enable then check_log config else []

  -- The lines of the sections, from each one to the last.
  abbrev pub from_logs : RedinsConfig → List Line
  from_logs config = log_lines config.error_log ++ log_lines config.handler.log

  abbrev pub from_geo_ip : RedinsConfig → List Line
  from_geo_ip config = check_geo_ip config.handler.geo_ip ++ from_logs config

  abbrev pub from_redis : RedinsConfig → List Line
  from_redis config = check_redis config.handler.redis ++ from_geo_ip config

  abbrev pub from_upstreams : RedinsConfig → List Line
  from_upstreams config = each check_upstream config.handler.upstream ++ from_redis config

  -- Verify, with the result of LoadConfig.
  unfoldable pub verify : Text → RedinsConfig × Bool → List Line
  unfolding check_server check_upstream check_redis check_geo_ip check_log
  verify path (config, load_failed) =
      result (config_file path) (unless (not load_failed) failed)
      ∷ (each check_server config.server ++ from_upstreams config)
