-- ===== src/Tests/Programs.antt =====
-- The program of redins.go: messages through the limiter, signals, and the verification.
use redins.Prelude.{
  Option-cases, ℤ, pos_part, wrap, int_mul, int_div, pos, length, replicate, All, Text, codes,
  text_eq, ℕ, zero, suc, ◌+◌, ◌*◌, ◌≤◌, String, ◌≡◌, refl, inl, inr, Bool, true, false, Option,
  none, some, List, [], ◌∷◌, ◌++◌, arith,
}
use redins.Cache.{table_cache}
use redins.Limiter.{Limiter, Clock, contains, new_rate_limiter}
use redins.Limiter.Trace.{cost}
use redins.Incoming.{Outgoing}
use redins.Records.{Ip}
use redins.Config.{RedinsConfig, default_config}
use redins.Servers.{Files, new_server, make_server}
use redins.Program.{Packet, Globals, serve}
use redins.Program.Serving.{answered, serve_budget}
use redins.Program.Running.{
  sigint, sighup, arrives, Process, Exit, waiting, stopping, run_main, run_signals, start, stop,
  load_config, mode_of, Mode,
}
use redins.Program.Running.Reloads.{Ends, run_main-Ends, run_main_keeps, hang_ups}
use redins.Program.Verify.{
  World, Line, a_record, verify, check_server, check_upstream, check_redis, check_geo_ip, check_log,
  check_address, one_of, valid_port, expected_address,
}
use redins.Program.Verify.Usable.{Passes, failure_of, IsUsable, verify-IsUsable}
use redins.Tests.Limiting
use redins.Tests.Limiting.{unlisted, limiter, at, limiter_made, config-IsDrained}
use redins.Tests.Requests.{backend, same_name, signing, no_panics}

abbrev parse_ip : Text → Ip
parse_ip s = s

abbrev packet : String → String → Packet
packet remote qname = record {
  remote = codes remote;
  do_bit = false;
  message = record { questions = (codes qname, 1) ∷ []; options = none };
}

abbrev packets : List (Packet × Clock)
packets =
    (packet "a" "A.e.", at 1000)
    ∷ (packet "a" "a.e.", at 1001)
    ∷ (packet "b" "x.e.", at 1002)
    ∷ (packet "a" "w.f.", at 1003)
    ∷ (packet "a" "a.e.", at 1004)
    ∷ []

abbrev globals : Globals (table_cache Limiter) backend same_name (pos 60) signing parse_ip
globals = record { limiter = limiter; handler = tt }

serve_budget_example :
    (g' : Globals (table_cache Limiter) backend same_name (pos 60) signing parse_ip) × (outs : List
      Outgoing)
    × (serve (table_cache Limiter) backend same_name (pos 60) signing parse_ip globals packets
        ≡ some (g', outs))
    × (length outs ≡ 5)
    × (1000 + answered (codes "a") packets outs * cost 60 ≤ 2000 + cost 60 * (1 + 1))
unfolding contains
serve_budget_example =
    serve_budget (table_cache Limiter) backend same_name (pos 60) signing parse_ip (λ z. refl)
      no_panics unlisted redins.Tests.Limiting.config 60 1 globals (codes "a") packets 1000 2000
      config-IsDrained limiter_made (λ now. refl) refl (omega arith)

-- Files: every key pair is there, and a configuration that sets the time to live or a rate of 0.
abbrev files : Files ℕ ℕ
files = record {
  read_file = λ path. none;
  load_key_pair = λ cert key. some 1;
  certs_from_pem = λ pem. none;
  itoa = λ z. pos_part z ∷ [];
}

abbrev decode : Text → RedinsConfig → RedinsConfig × Bool
decode [] config = (config, true)
decode (zero ∷ str) config =
    (record config { rate_limit = record (config.rate_limit) { rate = pos 0 } }, false)
decode (suc n ∷ str) config =
    (record config { handler = record (config.handler) { max_ttl = pos n } }, false)

abbrev limiters : Text → Option (Limiter × ℕ)
limiters key = none

run_main-Ends_example :
    Ends decode files
      (table_cache Limiter)
      limiters
      default_config
      (arrives sighup (some (31 ∷ [])) true
        ∷ arrives sighup none true
        ∷ arrives sigint none true
        ∷ arrives sighup none false
        ∷ [])
      (run_main decode files
        (table_cache Limiter)
        limiters
        default_config
        (some (31 ∷ []))
        (arrives sighup none true ∷ arrives sigint none true ∷ arrives sighup none false ∷ []))
run_main-Ends_example =
    run_main-Ends decode files (table_cache Limiter) limiters default_config (some (31 ∷ []))
      (arrives sighup none true ∷ arrives sigint none true ∷ arrives sighup none false ∷ [])

abbrev ttl_of : RedinsConfig → ℤ
ttl_of config = config.handler.max_ttl

abbrev final : Exit decode files (table_cache Limiter) limiters → RedinsConfig
final (waiting p) = p.shared
final _ = default_config

abbrev reloaded : Process decode files (table_cache Limiter) limiters
reloaded = record {
  shared = (decode (31 ∷ []) default_config).0;
  services = some (record {
    servers = new_server files default_config.server;
    handler = (decode (31 ∷ []) default_config).0.handler;
    limiter = record {
      limiters = limiters;
      max_time = pos 10000000000;
      time_step = pos 1000000000;
      config = default_config.rate_limit;
      white_list = [];
      black_list = [];
    };
  });
}

reloads :
    run_main decode files
      (table_cache Limiter)
      limiters
      default_config
      (some (31 ∷ []))
      (hang_ups (none ∷ []))
    ≡ waiting reloaded
unfolding run_main run_signals start stop load_config new_rate_limiter int_div int_mul wrap
reloads = refl

-- A reload whose shut down does not end.
stuck :
    run_main decode files
      (table_cache Limiter)
      limiters
      default_config
      (some (31 ∷ []))
      (arrives sighup none true ∷ arrives sighup none false ∷ arrives sigint none true ∷ [])
    ≡ stopping reloaded
unfolding run_main run_signals start stop load_config new_rate_limiter int_div int_mul wrap
stuck = refl

unread : (config' : RedinsConfig) → ttl_of (load_config decode none config').0 ≡ ttl_of config'
unfolding load_config
unread config' = refl

run_main_keeps_example :
    ttl_of reloaded.shared ≡ ttl_of (load_config decode (some (31 ∷ [])) default_config).0
run_main_keeps_example =
    run_main_keeps decode files (table_cache Limiter) limiters ttl_of default_config
      (some (31 ∷ [])) (none ∷ []) reloaded (unread, tt) reloads

two_listeners :
    new_server files (
      record {
        ip = codes "h";
        port = pos 53;
        protocol = codes "tcp";
        count = pos 2;
        tls = record { enable = true; cert_path = codes "c"; key_path = []; ca_path = [] };
      }
      ∷ [])
    ≡ replicate 2 (record {
      addr = codes "h:" ++ 53 ∷ [];
      net = codes "tcp";
      reuse_port = true;
      tls_config = some (record { certificates = []; root_cas = none });
    })
unfolding new_server make_server
two_listeners = refl

verify_first : mode_of true (some (codes "f")) ≡ Mode.verify
unfolding mode_of
verify_first = refl

abbrev world : World
world = record {
  parse_ip = λ ip. ip;
  itoa = λ z. pos_part z ∷ [];
  listen_packet = λ proto address. true;
  listen = λ proto address. true;
  exchange = λ upstream address. some (a_record expected_address ∷ []);
  ping = λ config. true;
  get_config = λ config key. some (codes "Ks");
  open_file = λ path. true;
  resolve_udp = λ path. true;
  dial_udp = λ path. true;
  reference_time = 7;
  format_time = λ t layout. layout;
  parse_time = λ layout str. some 7;
  new_producer = λ config. true;
  send_messages = λ config. true;
  new_raven = λ dsn. true;
  capture = λ dsn. (dsn, true);
  dial_syslog = λ config. true;
  write_syslog = λ config. true;
  stat = λ file. true;
  open_db = λ file. true;
  lookup_db = λ file. true;
}

abbrev lines : List Line
lines = verify world (codes "config.json") (default_config, false)

abbrev all_pass : List Line → Bool
all_pass [] = true
all_pass (line ∷ rest) = elim (failure_of line) [ none ↦ all_pass rest | some p ↦ false ]

all_pass-Passes : (rest : List Line) → all_pass rest ≡ true → All Passes rest
all_pass-Passes [] h = tt
all_pass-Passes (line ∷ rest) h = elim (Option-cases (failure_of line)) [
  | inl e ↦ (e, all_pass-Passes rest (ground arith))
  | inr (p, e) ↦ absurd (ground arith)
]

lines-pass : All Passes lines
unfolding verify check_server check_upstream check_redis check_geo_ip check_log check_address one_of
    valid_port text_eq
lines-pass = all_pass-Passes lines refl

verify-IsUsable_example : (false ≡ false) × IsUsable world default_config
verify-IsUsable_example =
    verify-IsUsable world (codes "config.json") default_config false lines-pass

-- A log to a file is tested at the path "file".
file_not_tested :
    verify
      (record world { open_file = λ path. text_eq path (codes "file") })
      (codes "config.json")
      (default_config, false)
    ≡ lines
unfolding verify check_server check_upstream check_redis check_geo_ip check_log check_address one_of
    valid_port text_eq
file_not_tested = refl
