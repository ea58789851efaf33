-- ===== src/Updater.antt =====
-- handler/handler.go: the goroutine of NewHandler that loads the zones.
pub mod Fresh
use redins.Prelude.{if◌then◌else◌, Text, Bool, true, false, not, ◌&&◌, Option, List, [], ◌∷◌}
use redins.Zones.{RadixTree, load_zones}

-- What happens to the zone updater, in the order of its effects. The callbacks of SubscribeEvent
-- run in another goroutine, so a message of redis about the zones, also the first one of the
-- subscription, can come at any time; the loop of the updater takes a tick of reloadTicker, at
-- which LoadZones reads redis where the zones are marked, with `none` for an error; it marks them
-- as loaded when LoadZones has returned; it takes a tick of forceReloadTicker; and it takes the
-- closing of h.quit.
pub data Event : Type 0 where
  notified : Event
  reload_tick : Option (List Text) → Event
  reload_ends : Event
  force_reload_tick : Event
  quit : Event

module _ (radix : RadixTree) where
  -- The variable `modified`, the tree, and whether the loop is between LoadZones and the write
  -- after it.
  pub record Updater : Type 0 where
    pub modified : Bool
    pub loading : Bool
    pub zones : radix.State

  -- NewHandler: the zones are loaded once, before the updater starts.
  unfoldable pub new_updater : Option (List Text) → Updater
  new_updater answer = record {
    modified = false;
    loading = false;
    zones = load_zones radix radix.new answer;
  }

  unfoldable pub begin_reload : Updater → Option (List Text) → Updater
  begin_reload u answer =
      if u.modified && not u.loading
      then record u { loading = true; zones = load_zones radix u.zones answer }
      else u

  -- `modified = false`, whatever has come since the zones were read.
  unfoldable pub end_reload : Updater → Updater
  end_reload u = if u.loading then record u { modified = false; loading = false } else u

  -- A select of the loop, which takes nothing while it loads.
  unfoldable pub force_reload : Updater → Updater
  force_reload u = if u.loading then u else record u { modified = true }

  -- The loop over the events; what comes after h.quit is not taken.
  unfoldable pub run_updater : Updater → List Event → Updater
  unfolding begin_reload end_reload force_reload
  run_updater u [] = u
  run_updater u (notified ∷ events) = run_updater (record u { modified = true }) events
  run_updater u (reload_tick answer ∷ events) = run_updater (begin_reload u answer) events
  run_updater u (reload_ends ∷ events) = run_updater (end_reload u) events
  run_updater u (force_reload_tick ∷ events) = run_updater (force_reload u) events
  run_updater u (quit ∷ events) = let rest = run_updater u events in if u.loading then rest else u
