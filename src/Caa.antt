-- ===== src/Caa.antt =====
-- handler/handler.go: the CAA records that hold for a location (FindCAA).
pub mod Ends
use redins.Prelude.{
  if◌then◌else◌, length, Text, trim_suffix, split_after, ℕ, zero, suc, true, false, Option, none,
  some, ◌++◌,
}
use redins.Zone.{Zone, Match, no_match, dot}
use redins.Answers.{empty}
use redins.Backend.{Location, Backend, locate}

module _ (b : Backend) (zone : Zone) where
  abbrev pub caa_or_nil : b.State × Option Location → b.State × Option Location
  caa_or_nil (s, none) = (s, none)
  caa_or_nil (s, some record') = (s, if empty record'.rrsets.caa.items then none else some record')

  -- What stands behind the loop: the records of the zone itself.
  unfoldable pub at_apex : b.State → b.State × Option Location
  at_apex s = caa_or_nil (b.load_location s zone.name zone)

  -- The rest of a round, with the loop's next one.
  abbrev pub resume :
      (b.State → Text → Location → Option (b.State × Option Location))
      → Text
      → b.State × Option Location
      → Option (b.State × Option Location)
  resume next location (s, none) = some (s, none)
  resume next location (s, some record') = next s location record'

  abbrev pub climb :
      (b.State → Text → Location → Option (b.State × Option Location))
      → b.State
      → Text × Match
      → Option (b.State × Option Location)
  climb next s (location, no_match) = some (s, none)
  climb next s (location, _) = resume next location (b.load_location s location zone)

  unfoldable pub parent :
      (b.State → Text → Location → Option (b.State × Option Location))
      → b.State
      → Option (Text × Text)
      → Option (b.State × Option Location)
  unfolding at_apex
  parent next s none = some (at_apex s)
  parent next s (some (label, rest)) = climb next s (locate zone rest)

  -- The loop of FindCAA; the outer `none` is the end of the fuel.
  unfoldable pub search_caa : ℕ → b.State → Text → Location → Option (b.State × Option Location)
  unfolding parent
  search_caa zero s location record' = none
  search_caa (suc fuel) s location record' = elim (empty record'.rrsets.caa.items) [
    | true ↦ parent (search_caa fuel) s (split_after b'.' location)
    | false ↦ some (s, some record')
  ]

  -- FindCAA; one round more than the length of the name is fuel enough.
  unfoldable pub find_caa : b.State → Location → Option (b.State × Option Location)
  unfolding search_caa
  find_caa s record' =
      let location = trim_suffix record'.name (dot ++ zone.name) in
      search_caa (suc (length location)) s location record'
