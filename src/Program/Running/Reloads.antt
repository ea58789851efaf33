-- ===== src/Program/Running/Reloads.antt =====
-- redins.go: the services between two signals, and what a reload keeps of the configuration.
use redins.Prelude.{
  Bool-cases, eqb_ℤ, int_div, eqb_ℤ_iff, pos, All, Text, ◌≡◌, refl, sym, ap, ◌∙◌, subst, inl, inr,
  Bool, true, false, Option, none, some, List, [], ◌∷◌, ◌++◌, map, arith,
}
use redins.Cache.{GoCache}
use redins.Limiter.{RateLimiterConfig, Limiter, RateLimiter, new_rate_limiter}
use redins.Config.{RedinsConfig}
use redins.Servers.{Files, new_server}
use redins.Program.Running.{
  Signal, Arrival, arrives, load_config, Services, Process, start, stop, Exit, waiting, returned,
  stopping, panicked, run_signals, run_main, sigint, sighup, with_limiter, from_start,
}

-- A reload with each of the files, where the shut downs end.
abbrev pub hang_ups : List (Option Text) → List Arrival
hang_ups = map (λ (file : Option Text). arrives sighup file true)

hang_ups_injective : (xs ys : List (Option Text)) → hang_ups xs ≡ hang_ups ys → xs ≡ ys
hang_ups_injective [] [] h = refl
hang_ups_injective [] (y ∷ ys) h = absurd (cc)
hang_ups_injective (x ∷ xs) [] h = absurd (cc)
hang_ups_injective (x ∷ xs) (y ∷ ys) h =
    let rest : xs ≡ ys = hang_ups_injective xs ys (cc) in let first : x ≡ y = cc in cc

module _ {Cert Pool : Type 0} (decode : Text → RedinsConfig → RedinsConfig × Bool)
    (files : Files Cert Pool) (c : GoCache Limiter) (empty : c.State) where
  -- The services run, by the configuration that was loaded last.
  pub record IsServing (p : Process decode files c empty) : Type 0 where
    pub services : Services decode files c empty
    pub running : p.services ≡ some services
    pub servers_eq : services.servers ≡ new_server files p.shared.server
    pub handler_eq : services.handler ≡ p.shared.handler
    pub limiter_eq : new_rate_limiter c empty p.shared.rate_limit ≡ some services.limiter

  new_rate_limiter-none :
      (config : RateLimiterConfig) → new_rate_limiter c empty config ≡ none → config.rate ≡ pos 0
  unfolding new_rate_limiter int_div
  new_rate_limiter-none config h = elim (Bool-cases (eqb_ℤ config.rate (pos 0))) [
    | inl zero' ↦ (eqb_ℤ_iff config.rate (pos 0)).0 zero'
    | inr other ↦ absurd (ground arith)
  ]

  -- A start serves by the configuration that is loaded, or panics at a rate of 0.
  abbrev Started : RedinsConfig → Option (Process decode files c empty) → Type 0
  Started config none = config.rate_limit.rate ≡ pos 0
  Started config (some q) = IsServing q × (q.shared ≡ config)

  with_limiter-Started :
      (config : RedinsConfig) (o : Option (RateLimiter c))
      → new_rate_limiter c empty config.rate_limit ≡ o
      → Started config (with_limiter decode files c empty config o)
  with_limiter-Started config none h = new_rate_limiter-none config.rate_limit h
  with_limiter-Started config (some limiter) h = (
    record { services = _; running = refl; servers_eq = refl; handler_eq = refl; limiter_eq = h },
    refl,
  )

  start-Started :
      (file : Option Text) (p : Process decode files c empty)
      → Started (load_config decode file p.shared).0 (start decode files c empty file p)
  unfolding start
  start-Started file p =
      with_limiter-Started (load_config decode file p.shared).0
        (new_rate_limiter c empty (load_config decode file p.shared).0.rate_limit) refl

  -- The configuration after loads of these files, each over the one before it.
  abbrev pub loaded : RedinsConfig → List (Option Text) → RedinsConfig
  loaded config [] = config
  loaded config (file ∷ files') = loaded (load_config decode file config).0 files'

  -- How a process of a configuration gets through the signals.
  pub data Ends (config : RedinsConfig) (signals : List Arrival)
      : Exit decode files c empty → Type 0 where
    serves :
        {p : Process decode files c empty} (files' : List (Option Text))
        → signals ≡ hang_ups files'
        → IsServing p
        → p.shared ≡ loaded config files'
        → Ends config signals (waiting p)
    interrupted :
        {p : Process decode files c empty} (files' : List (Option Text)) (file : Option Text)
        (rest : List Arrival)
        → signals ≡ hang_ups files' ++ arrives sigint file true ∷ rest
        → p.services ≡ none
        → p.shared ≡ loaded config files'
        → Ends config signals (returned p)
    not_stopped :
        {p : Process decode files c empty} (files' : List (Option Text)) (signal : Signal)
        (file : Option Text) (rest : List Arrival)
        → signals ≡ hang_ups files' ++ arrives signal file false ∷ rest
        → IsServing p
        → p.shared ≡ loaded config files'
        → Ends config signals (stopping p)
    rate_zero :
        (files' : List (Option Text)) (file : Option Text) (rest : List Arrival)
        → signals ≡ hang_ups files' ++ arrives sighup file true ∷ rest
        → (loaded config (files' ++ file ∷ [])).rate_limit.rate ≡ pos 0
        → Ends config signals panicked

  after_reload :
      (config : RedinsConfig) (file : Option Text) (signals : List Arrival)
      (e : Exit decode files c empty)
      → Ends (load_config decode file config).0 signals e
      → Ends config (arrives sighup file true ∷ signals) e
  after_reload config file signals _ (serves files' q s h) = serves (file ∷ files') (cc) s h
  after_reload config file signals _ (interrupted files' f rest q h k) =
      interrupted (file ∷ files') f rest (cc) h k
  after_reload config file signals _ (not_stopped files' signal f rest q s h) =
      not_stopped (file ∷ files') signal f rest (cc) s h
  after_reload config file signals _ (rate_zero files' f rest q h) =
      rate_zero (file ∷ files') f rest (cc) h

  after_start :
      (config : RedinsConfig) (file : Option Text) (signals : List Arrival)
      (o : Option (Process decode files c empty))
      → Started (load_config decode file config).0 o
      → ((q : Process decode files c empty)
          → IsServing q
          → Ends q.shared signals (run_signals decode files c empty q signals))
      → Ends config
          (arrives sighup file true ∷ signals)
          (elim o [ none ↦ panicked | some q ↦ run_signals decode files c empty q signals ])
  after_start config file signals none h next = rate_zero [] file signals refl h
  after_start config file signals (some q) (s, e) next = after_reload config file signals _ (
      subst
        (λ (config' : RedinsConfig).
          Ends config' signals (run_signals decode files c empty q signals))
        e (next q s))

  run_signals-Ends :
      (p : Process decode files c empty) (signals : List Arrival)
      → IsServing p
      → Ends p.shared signals (run_signals decode files c empty p signals)
  unfolding run_signals
  run_signals-Ends p [] h = serves [] refl h refl
  run_signals-Ends p (arrives sigint file true ∷ signals) h =
      unfold stop in interrupted [] file signals refl refl refl
  run_signals-Ends p (arrives sigint file false ∷ signals) h =
      unfold stop in not_stopped [] sigint file signals refl h refl
  run_signals-Ends p (arrives sighup file false ∷ signals) h =
      unfold stop in not_stopped [] sighup file signals refl h refl
  run_signals-Ends p (arrives sighup file true ∷ signals) h =
      unfold stop in
      after_start p.shared file signals
        (start decode files c empty file (record p { services = none }))
        (start-Started file (record p { services = none })) (λ q s. run_signals-Ends q signals s)

  -- From a configuration and at any signals, panics of the goroutines of the services aside: redins
  -- panics at a rate of 0, or between two signals it runs exactly the services of the configuration
  -- that was loaded last, each file read over the values of the one before it; a SIGINT ends it,
  -- with no services left, and what follows is not looked at; and at a signal whose shut down of
  -- the services does not end, it stays in Stop, whether the signal was to end it or to reload,
  -- with the configuration from before it.
  pub run_main-Ends :
      (config : RedinsConfig) (file : Option Text) (signals : List Arrival)
      → Ends config
          (arrives sighup file true ∷ signals)
          (run_main decode files c empty config file signals)
  unfolding run_main
  run_main-Ends config file signals =
      from_start-Ends
        (start decode files c empty file (record { shared = config; services = none }))
        (start-Started file (record { shared = config; services = none }))
    where
      from_start-Ends :
          (o : Option (Process decode files c empty))
          → Started (load_config decode file config).0 o
          → Ends config
              (arrives sighup file true ∷ signals)
              (from_start decode files c empty signals o)
      from_start-Ends none h = rate_zero [] file signals refl h
      from_start-Ends (some q) (s, e) = after_reload config file signals _ (
          subst
            (λ (config' : RedinsConfig).
              Ends config' signals (run_signals decode files c empty q signals))
            e (run_signals-Ends q signals s))

  Ends-waiting :
      (config : RedinsConfig) (signals : List Arrival) (e : Exit decode files c empty)
      (p : Process decode files c empty)
      → Ends config signals e
      → e ≡ waiting p
      → (files' : List (Option Text)) × (signals ≡ hang_ups files')
        × (p.shared ≡ loaded config files')
  Ends-waiting config signals _ p (serves {p = q} files' s h k) w =
      let same : q ≡ p = cc in
      (
        files',
        s,
        subst (λ (r : Process decode files c empty). r.shared ≡ loaded config files') same k,
      )
  Ends-waiting config signals _ p (interrupted files' file rest s h k) w = absurd (cc)
  Ends-waiting config signals _ p (not_stopped files' signal file rest s h k) w = absurd (cc)
  Ends-waiting config signals _ p (rate_zero files' file rest s h) w = absurd (cc)

  loaded_keeps :
      {A : Type 0} (field : RedinsConfig → A) (files' : List (Option Text)) (config : RedinsConfig)
      → All
          (λ (file : Option Text).
            (config' : RedinsConfig) → field (load_config decode file config').0 ≡ field config')
          files'
      → field (loaded config files') ≡ field config
  loaded_keeps field [] config h = refl
  loaded_keeps field (file ∷ files') config (k, h) =
      loaded_keeps field files' (load_config decode file config).0 h ∙ k config

  -- A reload does not go back to the default: what no later file sets stays as the first file has set
  -- it, for as long as redins runs.
  pub run_main_keeps :
      {A : Type 0} (field : RedinsConfig → A) (config : RedinsConfig) (first : Option Text)
      (files' : List (Option Text)) (p : Process decode files c empty)
      → All
          (λ (file : Option Text).
            (config' : RedinsConfig) → field (load_config decode file config').0 ≡ field config')
          files'
      → run_main decode files c empty config first (hang_ups files') ≡ waiting p
      → field p.shared ≡ field (load_config decode first config).0
  run_main_keeps field config first files' p h e =
      let (all, same, k) =
        Ends-waiting config (arrives sighup first true ∷ hang_ups files')
          (run_main decode files c empty config first (hang_ups files')) p
          (run_main-Ends config first (hang_ups files')) e in
      let lists : first ∷ files' ≡ all = hang_ups_injective (first ∷ files') all same in
      ap field (k ∙ sym (ap (λ (l : List (Option Text)). loaded config l) lists))
      ∙ loaded_keeps field files' (load_config decode first config).0 h
