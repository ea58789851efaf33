-- ===== src/Program/Verify/Usable.antt =====
-- redins.go: what a verification without a failed line says of the configuration.
use redins.Prelude.{
  if◌then◌else◌, Bool-cases, ℤ, ◌≤ℤ◌, pos, All, Text, codes, text_eq, text_eq_iff, ◌≡◌, refl, ap,
  subst, ◌⊎◌, inl, inr, Bool, true, false, not, ◌||◌, Option, none, some, List, [], ◌∷◌, ◌++◌,
  arith,
}
use redins.Upstream.{UpstreamConfig}
use redins.Config.{RedisConfig, LogConfig, ServerConfig, RedinsConfig}
use redins.Program.Verify.{
  Problem, Line, result, warning, World, FirstAnswer, a_record, other_record, unless, one_of,
  is_set, protocols, targets, levels, formats, valid_port, has_char, check_address, check_events,
  check_redis, check_log, address_of, check_server, expected_address, check_answer, check_upstream,
  check_geo_ip, each, log_lines, file_lines, udp_lines, setting_lines, service_lines,
  listener_lines, answer_lines, from_logs, from_geo_ip, from_redis, from_upstreams, verify,
}

-- A line that is printed as no failure.
abbrev pub failure_of : Line → Option Problem
failure_of (result subject problem) = problem
failure_of (warning subject) = none

abbrev pub Passes : Line → Type 0
Passes line = failure_of line ≡ none

unless-none : (b : Bool) (p : Problem) → unless b p ≡ none → b ≡ true
unless-none true p h = refl
unless-none false p h = absurd (cc)

All-split {ℓ κ} :
    {A : Type ℓ} (P : A → Type κ) (xs ys : List A) → All P (xs ++ ys) → All P xs × All P ys
All-split P [] ys h = (tt, h)
All-split P (x ∷ xs) ys (p, h) = let (hs, ks) = All-split P xs ys h in ((p, hs), ks)

module _ (w : World) where
  All-each :
      {A : Type 0} (f : A → List Line) (xs : List A)
      → All Passes (each w f xs)
      → All (λ (x : A). All Passes (f x)) xs
  All-each f [] h = tt
  All-each f (x ∷ xs) h = let (p, hs) = All-split Passes (f x) _ h in (p, All-each f xs hs)

  -- An address that can be used: its protocol, its text and its port.
  abbrev pub IsAddress : Text → Text → ℤ → Type 0
  IsAddress proto ip port =
      (one_of proto protocols ≡ true)
      × (is_set (w.parse_ip ip) ≡ true)
      × (pos 1 ≤ℤ port)
      × (port ≤ℤ pos 65535)

  abbrev pub Listens : Text → Text → Type 0
  Listens proto address =
      ((proto ≡ codes "udp") × (w.listen_packet proto address ≡ true))
      ⊎ ((proto ≡ codes "tcp") × (w.listen proto address ≡ true))

  abbrev pub Serves : ServerConfig → Type 0
  Serves server =
      IsAddress server.protocol server.ip server.port
      × Listens server.protocol (address_of w server.ip server.port)

  abbrev pub Replies : UpstreamConfig → Type 0
  Replies upstream =
      IsAddress upstream.protocol upstream.ip upstream.port
      × (rest : List FirstAnswer) × (w.exchange upstream (address_of w upstream.ip upstream.port)
          ≡ some (a_record expected_address ∷ rest))

  -- Keyspace events for sets are on.
  abbrev pub Notifies : RedisConfig → Type 0
  Notifies config =
      (w.ping config ≡ true)
      × (events : Text) × (w.get_config config (codes "notify-keyspace-events") ≡ some events)
      × (has_char events b'K' ≡ true)
      × (has_char events b'A' || has_char events b's' ≡ true)

  abbrev pub Logs : LogConfig → Type 0
  Logs config =
      (one_of config.target targets ≡ true)
      × (one_of config.level levels ≡ true)
      × (one_of config.format formats ≡ true)

  check_address-IsAddress :
      (proto ip : Text) (port : ℤ)
      → All Passes (check_address w proto ip port)
      → IsAddress proto ip port
  unfolding check_address
  check_address-IsAddress proto ip port (a, (b, (c, _))) =
      let in_range : valid_port port ≡ true = unless-none (valid_port port) _ c in
      (
        unless-none (one_of proto protocols) _ a,
        unless-none (is_set (w.parse_ip ip)) _ b,
        unfold valid_port in ground arith,
        unfold valid_port in ground arith,
      )

  one_of-Listens :
      (proto address : Text)
      → one_of proto protocols ≡ true
      → (if text_eq proto (codes "udp")
          then w.listen_packet proto address
          else w.listen proto address)
        ≡ true
      → Listens proto address
  unfolding one_of
  one_of-Listens proto address known h = elim (Bool-cases (text_eq proto (codes "udp"))) [
    | inl udp ↦ inl ((text_eq_iff proto (codes "udp")).0 udp, rw udp at h)
    | inr other ↦ inr ((text_eq_iff proto (codes "tcp")).0 (ground arith), rw other at h)
  ]

  server-Serves : (server : ServerConfig) → All Passes (check_server w server) → Serves server
  unfolding check_server
  server-Serves server h =
      let (address, (_, (listening, _))) =
        All-split Passes (check_address w server.protocol server.ip server.port)
          (listener_lines w server (address_of w server.ip server.port)) h in
      let usable = check_address-IsAddress server.protocol server.ip server.port address in
      (
        usable,
        one_of-Listens server.protocol (address_of w server.ip server.port) usable.0
            (unless-none _ _ listening),
      )

  replied :
      (o : Option (List FirstAnswer))
      → check_answer w o ≡ none
      → (rest : List FirstAnswer) × (o ≡ some (a_record expected_address ∷ rest))
  replied none h = absurd (cc)
  replied (some []) h = absurd (cc)
  replied (some (other_record ∷ rest)) h = absurd (cc)
  replied (some (a_record a ∷ rest)) h =
      let same = (text_eq_iff a expected_address).0 (unless-none _ _ h) in
      (rest, ap (λ (t : Text). some (a_record t ∷ rest)) same)

  upstream-Replies :
      (upstream : UpstreamConfig) → All Passes (check_upstream w upstream) → Replies upstream
  unfolding check_upstream
  upstream-Replies upstream h =
      let (address, (answer, _)) =
        All-split Passes (check_address w upstream.protocol upstream.ip upstream.port)
          (answer_lines w upstream (address_of w upstream.ip upstream.port)) h in
      let (rest, e) =
        replied (w.exchange upstream (address_of w upstream.ip upstream.port)) answer in
      (check_address-IsAddress upstream.protocol upstream.ip upstream.port address, rest, e)

  notified :
      (o : Option Text)
      → check_events w o ≡ none
      → (events : Text) × (o ≡ some events)
        × (has_char events b'K' ≡ true)
        × (has_char events b'A' || has_char events b's' ≡ true)
  notified none h = absurd (cc)
  notified (some events) h = elim (Bool-cases (has_char events b'K')) [
    | inr missing ↦ absurd (ground arith)
    | inl keyspace ↦ (events, refl, keyspace, ground arith)
  ]

  redis-Notifies : (config : RedisConfig) → All Passes (check_redis w config) → Notifies config
  unfolding check_redis
  redis-Notifies config (ping, (answer, _)) =
      let (events, e, keyspace, sets) =
        notified (w.get_config config (codes "notify-keyspace-events")) answer in
      (unless-none (w.ping config) _ ping, events, e, keyspace, sets)

  log-Logs : (config : LogConfig) → All Passes (check_log w config) → Logs config
  unfolding check_log
  log-Logs config (target, h) =
      let (_, h2) =
        All-split Passes (file_lines w config)
          (udp_lines w config ++ (setting_lines w config ++ service_lines w config)) h in
      let (_, h3) =
        All-split Passes (udp_lines w config) (setting_lines w config ++ service_lines w config)
          h2 in
      let ((level, (format, _)), _) =
        All-split Passes (setting_lines w config) (service_lines w config) h3 in
      (
        unless-none (one_of config.target targets) _ target,
        unless-none (one_of config.level levels) _ level,
        unless-none (one_of config.format formats) _ format,
      )

  abbrev map_all :
      {A : Type 0} (P Q : A → Type 0) → ((x : A) → P x → Q x) → (xs : List A) → All P xs → All Q xs
  map_all P Q f [] h = tt
  map_all P Q f (x ∷ xs) (p, h) = (f x p, map_all P Q f xs h)

  pub record IsUsable (config : RedinsConfig) : Type 0 where
    pub servers : All Serves config.server
    pub upstreams : All Replies config.handler.upstream
    pub redis : Notifies config.handler.redis
    pub error_log : config.error_log.enable ≡ true → Logs config.error_log
    pub log : config.handler.log.enable ≡ true → Logs config.handler.log

  enabled_log :
      (config : LogConfig) → All Passes (log_lines w config) → config.enable ≡ true → Logs config
  enabled_log config h on =
      log-Logs config (subst (λ (b : Bool). All Passes (if b then check_log w config else [])) on h)

  not_failed : (b : Bool) → not b ≡ true → b ≡ false
  not_failed false h = refl
  not_failed true h = absurd (cc)

  -- A verification that prints no failure has decoded its file, and the configuration is usable: every
  -- listener and upstream server has the protocol tcp or udp, an address that parses and a port from
  -- 1 to 65535; the listeners can listen, and each upstream server gives the address that is expected;
  -- redis answers and notifies of the changes of sets in the keyspace; and the logs that are
  -- enabled, those of the health check aside, have a target, a level and a format that are known.
  pub verify-IsUsable :
      (path : Text) (config : RedinsConfig) (load_failed : Bool)
      → All Passes (verify w path (config, load_failed))
      → (load_failed ≡ false) × IsUsable config
  unfolding verify
  verify-IsUsable path config load_failed (decoded, h) =
      let (servers, h1) =
        All-split Passes (each w (check_server w) config.server) (from_upstreams w config) h in
      let (upstreams, h2) =
        All-split Passes (each w (check_upstream w) config.handler.upstream) (from_redis w config)
          h1 in
      let (redis, h3) =
        All-split Passes (check_redis w config.handler.redis) (from_geo_ip w config) h2 in
      let (_, h4) =
        All-split Passes (check_geo_ip w config.handler.geo_ip) (from_logs w config) h3 in
      let (error_log, log) =
        All-split Passes (log_lines w config.error_log) (log_lines w config.handler.log) h4 in
      (
        not_failed load_failed (unless-none (not load_failed) _ decoded),
        record {
          servers =
              map_all _ _ server-Serves config.server
                (All-each (check_server w) config.server servers);
          upstreams =
              map_all _ _ upstream-Replies config.handler.upstream
                (All-each (check_upstream w) config.handler.upstream upstreams);
          redis = redis-Notifies config.handler.redis redis;
          error_log = enabled_log config.error_log error_log;
          log = enabled_log config.handler.log log;
        },
      )
