-- ===== src/Updater/Fresh.antt =====
-- handler/handler.go: when the zones that are served follow those of redis.
use redins.Prelude.{All, Text, ◌≡◌, refl, ap, ◌∙◌, Bool, true, false, Option, List, [], ◌∷◌, ◌++◌}
use redins.Zones.{RadixTree, load_zones}
use redins.Updater.{
  Event, notified, reload_tick, reload_ends, force_reload_tick, quit, Updater, run_updater,
}

-- A message of redis, and a forced reload, mark the zones as changed.
abbrev pub Marks : Event → Type 0
Marks notified = Unit {0}
Marks force_reload_tick = Unit {0}
Marks _ = ⊥

-- A tick of reloadTicker, and the end of a reload.
abbrev pub IsTick : Event → Type 0
IsTick (reload_tick answer) = Unit {0}
IsTick reload_ends = Unit {0}
IsTick _ = ⊥

module _ (radix : RadixTree) where
  abbrev pub state : Bool → Bool → radix.State → Updater radix
  state modified loading zones = record { modified = modified; loading = loading; zones = zones }

  -- A mark is set, and stays set, while nothing is loaded.
  run_marked :
      (modified : Bool) (zones : radix.State) (event : Event) (events : List Event)
      → Marks event
      → run_updater radix (state modified false zones) (event ∷ events)
        ≡ run_updater radix (state true false zones) events
  unfolding run_updater
  run_marked modified zones notified events h = refl
  run_marked modified zones force_reload_tick events h = refl
  run_marked modified zones (reload_tick answer) events h = absurd h
  run_marked modified zones reload_ends events h = absurd h
  run_marked modified zones quit events h = absurd h

  run_updater-Marks :
      (zones : radix.State) (marks events : List Event)
      → All Marks marks
      → run_updater radix (state true false zones) (marks ++ events)
        ≡ run_updater radix (state true false zones) events
  run_updater-Marks zones [] events h = refl
  run_updater-Marks zones (event ∷ marks) events (p, h) =
      run_marked true zones event (marks ++ events) p ∙ run_updater-Marks zones marks events h

  -- What is marked during a load is marked already.
  run_loading :
      (zones : radix.State) (marks events : List Event)
      → All Marks marks
      → run_updater radix (state true true zones) (marks ++ events)
        ≡ run_updater radix (state true true zones) events
  unfolding run_updater
  run_loading zones [] events h = refl
  run_loading zones (notified ∷ marks) events (p, h) = run_loading zones marks events h
  run_loading zones (force_reload_tick ∷ marks) events (p, h) = run_loading zones marks events h
  run_loading zones (reload_tick answer ∷ marks) events (p, h) = absurd p
  run_loading zones (reload_ends ∷ marks) events (p, h) = absurd p
  run_loading zones (quit ∷ marks) events (p, h) = absurd p

  -- Ticks change nothing where nothing is marked.
  run_ticks :
      (zones : radix.State) (ticks : List Event)
      → All IsTick ticks
      → run_updater radix (state false false zones) ticks ≡ state false false zones
  unfolding run_updater
  run_ticks zones [] h = refl
  run_ticks zones (reload_tick answer ∷ ticks) (p, h) = run_ticks zones ticks h
  run_ticks zones (reload_ends ∷ ticks) (p, h) = run_ticks zones ticks h
  run_ticks zones (notified ∷ ticks) (p, h) = absurd p
  run_ticks zones (force_reload_tick ∷ ticks) (p, h) = absurd p
  run_ticks zones (quit ∷ ticks) (p, h) = absurd p

  run_begin :
      (zones : radix.State) (answer : Option (List Text)) (events : List Event)
      → run_updater radix (state true false zones) (reload_tick answer ∷ events)
        ≡ run_updater radix (state true true (load_zones radix zones answer)) events
  unfolding run_updater
  run_begin zones answer events = refl

  run_end :
      (zones : radix.State) (events : List Event)
      → run_updater radix (state true true zones) (reload_ends ∷ events)
        ≡ run_updater radix (state false false zones) events
  unfolding run_updater
  run_end zones events = refl

  -- Whatever was marked before: after a message of redis or a forced reload that comes while
  -- nothing is loaded, the next tick of the reload ticker serves the zones that redis has when
  -- LoadZones reads them, until the next message or forced reload after the load. Where redis fails
  -- at that tick the old zones are served, and the ticks after it do not try again; and a message
  -- that comes during the load, after redis was read, is lost: the ticks after the load do not load
  -- what it tells of.
  pub run_updater_lem :
      (u : Updater radix) (event : Event) (marks : List Event) (answer : Option (List Text))
      (during ticks : List Event)
      → u.loading ≡ false
      → Marks event
      → All Marks marks
      → All Marks during
      → All IsTick ticks
      → run_updater radix u
          (event ∷ (marks ++ reload_tick answer ∷ (during ++ reload_ends ∷ ticks)))
        ≡ state false false (load_zones radix u.zones answer)
  run_updater_lem u event marks answer during ticks idle h hs ds ts =
      let zones = load_zones radix u.zones answer in
      ap
        (λ (loading : Bool).
          run_updater radix (state u.modified loading u.zones)
            (event ∷ (marks ++ reload_tick answer ∷ (during ++ reload_ends ∷ ticks))))
        idle
      ∙ run_marked u.modified u.zones event
          (marks ++ reload_tick answer ∷ (during ++ reload_ends ∷ ticks)) h
      ∙ run_updater-Marks u.zones marks (reload_tick answer ∷ (during ++ reload_ends ∷ ticks)) hs
      ∙ run_begin u.zones answer (during ++ reload_ends ∷ ticks)
      ∙ run_loading zones during (reload_ends ∷ ticks) ds
      ∙ run_end zones ticks
      ∙ run_ticks zones ticks ts
