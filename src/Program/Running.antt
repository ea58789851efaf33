-- ===== src/Program/Running.antt =====
-- redins.go: the configuration file, and the process that starts, reloads and stops (LoadConfig,
-- Start, Stop, main).
pub mod Reloads
use redins.Prelude.{if◌then◌else◌, Text, Bool, true, false, Option, none, some, List, [], ◌∷◌}
use redins.Cache.{GoCache}
use redins.Limiter.{Limiter, RateLimiter, new_rate_limiter}
use redins.Config.{RedinsConfig, DnsRequestHandlerConfig}
use redins.Servers.{Server, Files, new_server}

pub data Signal : Type 0 where
  sigint sighup : Signal

-- A signal, with the configuration file as it is then, and whether the shut down of the services that
-- run at that time ends.
pub data Arrival : Type 0 where
  arrives : Signal → Option Text → Bool → Arrival

-- `decode` is the decoding of jsoniter into a configuration that holds values already, unknown fields
-- not allowed: the configuration as it is then, and whether it failed.
module _ (decode : Text → RedinsConfig → RedinsConfig × Bool) where
  -- LoadConfig on the file's text, `none` where it cannot be opened. The configuration is the one
  -- that redinsDefaultConfig points to, so the result is its new value too.
  unfoldable pub load_config : Option Text → RedinsConfig → RedinsConfig × Bool
  load_config none config = (config, true)
  load_config (some str) config = decode str config

  module _ {Cert Pool : Type 0} (files : Files Cert Pool) (c : GoCache Limiter)
      (empty : c.State) where
    -- The variables s, h and l: the handler is the one that NewHandler makes of its configuration.
    pub record Services : Type 0 where
      pub servers : List (Server Cert Pool)
      pub handler : DnsRequestHandlerConfig
      pub limiter : RateLimiter c

    -- What redinsDefaultConfig holds, and the services while they run.
    pub record Process : Type 0 where
      pub shared : RedinsConfig
      pub services : Option Services

    abbrev pub with_limiter : RedinsConfig → Option (RateLimiter c) → Option Process
    with_limiter config none = none
    with_limiter config (some limiter) = some (record {
      shared = config;
      services = some (record {
        servers = new_server files config.server;
        handler = config.handler;
        limiter = limiter;
      });
    })

    -- Start, which does not look at the error of LoadConfig; `none` is a panic.
    unfoldable pub start : Option Text → Process → Option Process
    start file p =
        let config = (load_config file p.shared).0 in
        with_limiter config (new_rate_limiter c empty config.rate_limit)

    -- Stop, which waits for the servers and for the handler to shut down: `none` is a wait that never
    -- ends, as the health check can have (Healthcheck.Transfer.Ending).
    unfoldable pub stop : Bool → Process → Option Process
    stop ends p = if ends then some (record p { services = none }) else none

    pub data Exit : Type 0 where
      waiting : Process → Exit
      returned : Process → Exit
      stopping : Process → Exit
      panicked : Exit

    -- The loop of main over the signals.
    unfoldable pub run_signals : Process → List Arrival → Exit
    unfolding start stop
    run_signals p [] = waiting p
    run_signals p (arrives sigint file ends ∷ signals) = elim (stop ends p) [
      | none ↦ stopping p
      | some p' ↦ returned p'
    ]
    run_signals p (arrives sighup file ends ∷ signals) = elim (stop ends p) [
      | none ↦ stopping p
      | some p' ↦ elim (start file p') [ none ↦ panicked | some p'' ↦ run_signals p'' signals ]
    ]

    abbrev from_start : List Arrival → Option Process → Exit
    from_start signals none = panicked
    from_start signals (some p) = run_signals p signals

    -- main without the flags t and g.
    unfoldable pub run_main : RedinsConfig → Option Text → List Arrival → Exit
    run_main config file signals =
        from_start signals (start file (record { shared = config; services = none }))

-- The flags of main: t is looked at first, and g only where it is given.
pub data Mode : Type 0 where
  verify : Mode
  generate : Text → Mode
  serving : Mode

unfoldable pub mode_of : Bool → Option Text → Mode
mode_of true generate_config = verify
mode_of false none = serving
mode_of false (some path) = generate path

-- The template of the flag g: what is written, or the step that failed. `marshal` is
-- jsoniter.MarshalIndent of the default configuration, and `write_file` tells of a success.
pub data Generated : Type 0 where
  not_marshalled : Generated
  not_saved : Generated
  saved : Text → Text → Generated

abbrev pub save_template : (Text → Text → Bool) → Text → Option Text → Generated
save_template write_file path none = not_marshalled
save_template write_file path (some str) = if write_file path str then saved path str else not_saved

unfoldable pub generate_template :
    (RedinsConfig → Option Text) → (Text → Text → Bool) → RedinsConfig → Text → Generated
generate_template marshal write_file config path = save_template write_file path (marshal config)
