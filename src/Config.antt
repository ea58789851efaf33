-- ===== src/Config.antt =====
-- redins.go and handler: the configuration of the program and its default (RedinsConfig). The
-- records of the log and of redis have the fields that the program sets of those of
-- github.com/hawell/logger and github.com/hawell/uperdis.
use redins.Prelude.{ℤ, pos, Text, codes, Bool, true, false, List, [], ◌∷◌}
use redins.Limiter.{RateLimiterConfig}
use redins.Upstream.{UpstreamConfig}

pub record RedisConnectionConfig : Type 0 where
  pub max_idle_connections : ℤ
  pub max_active_connections : ℤ
  pub connect_timeout : ℤ
  pub read_timeout : ℤ
  pub idle_keep_alive : ℤ
  pub max_keep_alive : ℤ
  pub wait_for_connection : Bool

pub record RedisConfig : Type 0 where
  pub address : Text
  pub net : Text
  pub db : ℤ
  pub password : Text
  pub key_prefix : Text
  pub key_suffix : Text
  pub connection : RedisConnectionConfig

pub record SentryConfig : Type 0 where
  pub enable : Bool
  pub dsn : Text

pub record SyslogConfig : Type 0 where
  pub enable : Bool
  pub protocol : Text
  pub address : Text

pub record KafkaConfig : Type 0 where
  pub enable : Bool
  pub topic : Text
  pub brokers : List Text
  pub format : Text
  pub compression : Text
  pub timeout : ℤ
  pub buffer_size : ℤ

pub record LogConfig : Type 0 where
  pub enable : Bool
  pub target : Text
  pub level : Text
  pub path : Text
  pub format : Text
  pub time_format : Text
  pub sentry : SentryConfig
  pub syslog : SyslogConfig
  pub kafka : KafkaConfig

pub record TlsConfig : Type 0 where
  pub enable : Bool
  pub cert_path : Text
  pub key_path : Text
  pub ca_path : Text

pub record ServerConfig : Type 0 where
  pub ip : Text
  pub port : ℤ
  pub protocol : Text
  pub count : ℤ
  pub tls : TlsConfig

pub record GeoIpConfig : Type 0 where
  pub enable : Bool
  pub country_db : Text
  pub asn_db : Text

pub record HealthcheckConfig : Type 0 where
  pub enable : Bool
  pub max_requests : ℤ
  pub max_pending_requests : ℤ
  pub update_interval : ℤ
  pub check_interval : ℤ
  pub redis_status_server : RedisConfig
  pub log : LogConfig

pub record DnsRequestHandlerConfig : Type 0 where
  pub upstream : List UpstreamConfig
  pub geo_ip : GeoIpConfig
  pub health_check : HealthcheckConfig
  pub max_ttl : ℤ
  pub cache_timeout : ℤ
  pub zone_reload : ℤ
  pub log_source_location : Bool
  pub redis : RedisConfig
  pub log : LogConfig

pub record RedinsConfig : Type 0 where
  pub server : List ServerConfig
  pub error_log : LogConfig
  pub handler : DnsRequestHandlerConfig
  pub rate_limit : RateLimiterConfig

-- The literals that redinsDefaultConfig repeats.
abbrev default_redis : RedisConfig
default_redis = record {
  address = codes "127.0.0.1:6379";
  net = codes "tcp";
  db = pos 0;
  password = [];
  key_prefix = codes "redins_";
  key_suffix = codes "_redins";
  connection = record {
    max_idle_connections = pos 10;
    max_active_connections = pos 10;
    connect_timeout = pos 500;
    read_timeout = pos 500;
    idle_keep_alive = pos 30;
    max_keep_alive = pos 0;
    wait_for_connection = false;
  };
}

abbrev default_log : Text → Text → Text → Text → LogConfig
default_log target path format syslog_address = record {
  enable = true;
  target = target;
  level = codes "info";
  path = path;
  format = format;
  time_format = codes "2006-01-02T15:04:05Z07:00";
  sentry = record { enable = false; dsn = [] };
  syslog = record { enable = false; protocol = codes "tcp"; address = syslog_address };
  kafka = record {
    enable = false;
    topic = codes "redins";
    brokers = codes "127.0.0.1:9092" ∷ [];
    format = codes "json";
    compression = codes "none";
    timeout = pos 3000;
    buffer_size = pos 1000;
  };
}

abbrev default_server : ServerConfig
default_server = record {
  ip = codes "127.0.0.1";
  port = pos 1053;
  protocol = codes "udp";
  count = pos 1;
  tls = record { enable = false; cert_path = []; key_path = []; ca_path = [] };
}

abbrev default_upstream : UpstreamConfig
default_upstream = record {
  ip = codes "1.1.1.1";
  port = pos 53;
  protocol = codes "udp";
  timeout = pos 400;
}

abbrev default_healthcheck : HealthcheckConfig
default_healthcheck = record {
  enable = false;
  max_requests = pos 10;
  max_pending_requests = pos 100;
  update_interval = pos 600;
  check_interval = pos 600;
  redis_status_server = default_redis;
  log =
      default_log (codes "file") (codes "/tmp/healthcheck.log") (codes "json")
        (codes "localhost:514");
}

abbrev default_handler : DnsRequestHandlerConfig
default_handler = record {
  upstream = default_upstream ∷ [];
  geo_ip = record {
    enable = false;
    country_db = codes "geoCity.mmdb";
    asn_db = codes "geoIsp.mmdb";
  };
  health_check = default_healthcheck;
  max_ttl = pos 3600;
  cache_timeout = pos 60;
  zone_reload = pos 600;
  log_source_location = false;
  redis = default_redis;
  log = default_log (codes "file") (codes "/tmp/redins.log") (codes "json") (codes "localhost:514");
}

-- The address of the syslog of the error log is spelled as it is there.
abbrev pub default_config : RedinsConfig
default_config = record {
  server = default_server ∷ [];
  error_log =
      default_log (codes "stdout") (codes "/tmp/error.log") (codes "text") (codes "locahost:514");
  handler = default_handler;
  rate_limit = record {
    enable = false;
    rate = pos 60;
    burst = pos 10;
    black_list = [];
    white_list = [];
  };
}
