-- ===== src/Tests/Geography.antt =====
-- The filters of handler/geoip.go, with distances as natural numbers.
use redins.Prelude.{
  ltb, ◌==◌, pos, Text, codes, text_eq, ℕ, ◌+◌, ◌-◌, ◌≡◌, refl, true, none, some, List, [], ◌∷◌,
  ◌++◌, map,
}
use redins.Records.{Ip, IpRr}
use redins.Ips.{Mask, white, grey, black}
use redins.GeoIp.{
  GeoIp, CountryDb, AsnDb, Floats, get_country, get_asn, by_country, by_asn, by_lookup, prefer,
  narrow, widen, get_same_country, get_same_asn, get_minimum_distance, from_source, measure,
  nearest, at_distance, settle, get_coordinates, coordinates_or_zero,
}
use redins.GeoIp.Distance.{IsLocated, get_minimum_distance_white, get_minimum_distance_panics}

abbrev last : Ip → ℕ
last [] = 0
last (x ∷ xs) = x

abbrev country_db : CountryDb ℕ
country_db = record { country = λ ip. some (codes "IR"); location = λ ip. some (last ip, 0) }

abbrev asn_db : AsnDb
asn_db = record { asn = λ ip. some 44 }

abbrev pub geo : GeoIp ℕ
geo = record { enable = true; country_db = some country_db; asn_db = some asn_db }

abbrev pub numbers : Floats ℕ
numbers = record {
  lt = ltb;
  eq = λ a b. a == b;
  zero_deg = 0;
  far = 1000;
  distance = λ a b. (a.0 - b.0) + (b.0 - a.0);
}

abbrev rr : ℕ → List Text → List ℕ → IpRr
rr host country asn = record { weight = pos 1; ip = host ∷ []; country = country; asn = asn }

abbrev rrs : List IpRr
rrs = rr 1 (codes "US" ∷ []) (44 ∷ []) ∷ rr 9 (codes "IR" ∷ []) [] ∷ rr 5 [] (7 ∷ []) ∷ []

abbrev source : Ip
source = 6 ∷ []

abbrev all_white : List Mask
all_white = white ∷ white ∷ white ∷ []

filters_run :
    (get_same_country geo source rrs all_white ≡ grey ∷ white ∷ grey ∷ [])
    × (get_same_asn geo source rrs (black ∷ white ∷ white ∷ []) ≡ black ∷ white ∷ black ∷ [])
    × (get_minimum_distance numbers geo source rrs all_white ≡ some (grey ∷ grey ∷ white ∷ []))
    × (get_minimum_distance numbers geo source rrs (black ∷ white ∷ white ∷ []) ≡ none)
unfolding get_same_country get_same_asn get_country get_asn by_country by_asn by_lookup prefer
    narrow widen get_minimum_distance measure nearest at_distance settle from_source get_coordinates
    coordinates_or_zero text_eq
filters_run = (refl, refl, refl, refl)

source-IsLocated : IsLocated numbers geo source (6, 0) country_db
source-IsLocated = record { on = refl; opened = refl; located = refl }

get_minimum_distance_white_example :
    get_minimum_distance numbers geo source rrs (map (λ _. white) rrs)
    ≡ some (grey ∷ grey ∷ white ∷ [])
unfolding get_coordinates coordinates_or_zero
get_minimum_distance_white_example =
    get_minimum_distance_white numbers geo source (6, 0) country_db rrs source-IsLocated

get_minimum_distance_panics_example :
    get_minimum_distance numbers geo source rrs ((black ∷ white ∷ []) ++ white ∷ []) ≡ none
get_minimum_distance_panics_example =
    get_minimum_distance_panics numbers geo source (6, 0) country_db (black ∷ white ∷ []) rrs
      source-IsLocated refl refl
