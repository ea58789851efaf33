-- ===== src/Tests/Zones.antt =====
-- Zones and locations (handler/zone.go).
use redins.Prelude.{
  pos, Text, codes, text_eq, has_suffix, trim_suffix, split_after, ◌≡◌, refl, false, none, some,
  List, [], ◌∷◌, ◌++◌, arith,
}
use redins.Zone.{
  Zone, ZoneConfig, Match, exact_match, wildcard_match, no_match, dot, key_exists, key_matches,
  split_query, find_wildcard, find_location,
}
use redins.Zone.Hidden.{find_location_partial}
use redins.Zone.Location.{Located, find_location_lem}

abbrev fqdn : Text → Text
fqdn s = s ++ dot

abbrev keep : Text → ZoneConfig → ZoneConfig
keep json config = config

abbrev drop_soa : Text → ZoneConfig → ZoneConfig
drop_soa json config = record config { soa = none }

abbrev name : Text
name = codes "example.com."

-- The locations of the example of RFC 4592, and one that ends like `bar`.
abbrev locations : List Text
locations =
    codes "@" ∷ codes "*" ∷ codes "sub.*" ∷ codes "host1" ∷ codes "_ssh.host1" ∷ codes "foobar" ∷ []

abbrev zone : Zone
zone = record {
  name = name;
  config = record { domain_id = []; soa = none; dns_sec = false; cname_flattening = false };
  locations = locations;
  cache_timeout = pos 0;
}

finds :
    (find_location zone (codes "example.com.") ≡ some (codes "example.com.", exact_match))
    × (find_location zone (codes "host1.example.com.") ≡ some (codes "host1", exact_match))
    × (find_location zone (codes "host3.example.com.") ≡ some (codes "*", wildcard_match))
    × (find_location zone (codes "_tcp.host1.example.com.") ≡ some ([], no_match))
    × (find_location zone (codes "x.far.example.com.") ≡ some (codes "*", wildcard_match))
    × (find_location zone (codes "x.bar.example.com.") ≡ some ([], no_match))
unfolding find_location find_wildcard split_query key_exists key_matches text_eq has_suffix
    trim_suffix split_after
finds = (refl, refl, refl, refl, refl, refl)

find_location_lem_example :
    (found : Text × Match) × (find_location zone (codes "host3.example.com.") ≡ some found)
    × Located zone (codes "host3.example.com.") found
find_location_lem_example = find_location_lem zone (codes "host3.example.com.")

find_location_partial_example :
    find_location zone (codes "x.bar.example.com.") ≡ some ([], no_match)
unfolding key_exists text_eq
find_location_partial_example =
    find_location_partial zone
      (codes "@" ∷ codes "*" ∷ codes "sub.*" ∷ codes "host1" ∷ codes "_ssh.host1" ∷ []) []
      (codes "foo") (codes "bar") (codes "x") refl (omega arith) refl refl
