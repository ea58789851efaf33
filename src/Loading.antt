-- ===== src/Loading.antt =====
-- handler/handler.go: locations and zones are loaded from redis through a cache (LoadLocation,
-- LoadZone, LoadZoneKeys, loadKey, SetLocation).
pub mod Locations
use redins.Prelude.{
  if◌then◌else◌, ℤ, ltb_ℤ, int_add, pos, set, Text, codes, text_eq, ◌≡◌, ◌⊎◌, Bool, false, not,
  Option, none, some, [], ◌∷◌, ◌++◌,
}
use redins.Records.{IpRrset, RrSets}
use redins.Zone.{Zone, dot, key_exists}
use redins.Backend.{Location}

-- A value with the time, in seconds, up to which it is fresh.
pub record Kept (V : Type 0) : Type 0 where
  pub value : V
  pub cache_timeout : ℤ

-- The cache of github.com/dgraph-io/ristretto, whose code is not part of the repository: it may drop
-- what it is given, and forget what it has.
pub record Ristretto (V : Type 0) : Type 1 where
  pub State : Type 0
  pub get : State → Text → Option (Kept V)
  pub set : State → Text → Kept V → State
  pub get-set_self :
      (s : State) (k : Text) (v : Kept V)
      → (get (set s k v) k ≡ some v) ⊎ (get (set s k v) k ≡ none)

-- `time.Now().Unix() <= CacheTimeout`
abbrev pub is_fresh : {V : Type 0} → ℤ → Kept V → Bool
is_fresh now kept = not (ltb_ℤ kept.cache_timeout now)

abbrev pub value_of : {V : Type 0} → Option (Kept V) → Option V
value_of none = none
value_of (some kept) = some kept.value

-- Both loaders: a fresh value is returned; else one is loaded, and if that fails the old value is
-- returned. What is loaded goes into the cache, at `cache_timeout`.
module _ {V : Type 0} (cache : Ristretto V) where
  abbrev pub or_stale :
      cache.State → Text → Option (Kept V) → Option (Kept V) → cache.State × Option V
  or_stale s key old none = (s, value_of old)
  or_stale s key old (some kept) = (cache.set s key kept, some kept.value)

  unfoldable pub refresh :
      cache.State → ℤ → Text → Option (Kept V) → Option (Kept V) → cache.State × Option V
  refresh s now key none loaded = or_stale s key none loaded
  refresh s now key (some kept) loaded =
      if is_fresh now kept then (s, some kept.value) else or_stale s key (some kept) loaded

-- The sets of `new(Record)` before it is decoded.
abbrev pub default_sets : IpRrset
default_sets = record {
  filter_config = record { count = codes "multi"; order = codes "none"; geo_filter = codes "none" };
  health_check_config = record {
    protocol = [];
    uri = [];
    port = pos 0;
    timeout = pos 0;
    up_count = pos 0;
    down_count = pos 0;
    enable = false;
  };
  ttl = 0;
  items = [];
}

abbrev pub new_sets : RrSets
new_sets = record {
  a = default_sets;
  aaaa = default_sets;
  txt = record { ttl = 0; items = [] };
  cname = none;
  ns = record { ttl = 0; items = [] };
  mx = record { ttl = 0; items = [] };
  srv = record { ttl = 0; items = [] };
  caa = record { ttl = 0; items = [] };
  ptr = none;
  tlsa = record { ttl = 0; items = [] };
  aname = none;
}

abbrev pub apex_label : Text
apex_label = codes "@"

-- The label under which redis has a location, and its name.
unfoldable pub label_of : Zone → Text → Text
label_of z location = if text_eq location z.name then apex_label else location

unfoldable pub name_of : Zone → Text → Text
name_of z location = if text_eq location z.name then z.name else location ++ (dot ++ z.name)

abbrev pub zone_key : Text → Text
zone_key zone = codes "redins:zones:" ++ zone

-- `hget` is HGet of github.com/hawell/uperdis, `none` for an error, and `unmarshal` jsoniter.Unmarshal
-- into a record. `keep_for` is the CacheTimeout of the configuration, in seconds.
module _ (hget : Text → Text → Option Text) (unmarshal : Text → RrSets → Option RrSets)
    (keep_for : ℤ) where
  abbrev pub decoded : ℤ → Text → Option RrSets → Option (Kept Location)
  decoded now name none = none
  decoded now name (some sets) = some (record {
    value = record { name = name; rrsets = sets };
    cache_timeout = int_add now keep_for;
  })

  abbrev pub stored_at : ℤ → Text → Option Text → Option (Kept Location)
  stored_at now name none = none
  stored_at now name (some []) = decoded now name (some new_sets)
  stored_at now name (some (c ∷ val)) = decoded now name (unmarshal (c ∷ val) new_sets)

  -- The function that LoadLocation runs where it has no fresh record; the apex need not be stored.
  unfoldable pub fetch_location : ℤ → Zone → Text → Option (Kept Location)
  fetch_location now z location =
      let label = label_of z location in
      let name = name_of z location in
      if not (key_exists z.locations label)
      then if text_eq label apex_label
        then some
            (record { value = record { name = name; rrsets = new_sets }; cache_timeout = pos 0 })
        else none
      else stored_at now name (hget (zone_key z.name) label)

  module _ (cache : Ristretto Location) where
    unfoldable pub load_location : cache.State → ℤ → Text → Zone → cache.State × Option Location
    unfolding refresh fetch_location
    load_location s now location z =
        let key = location ++ (dot ++ z.name) in
        refresh cache s now key (cache.get s key) (fetch_location now z location)

-- The write of SetLocation: the key, the field and the value, or nothing after an error. `marshal` is
-- jsoniter.Marshal.
abbrev pub write_of : Text → Text → Option Text → Option (Text × Text × Text)
write_of key field none = none
write_of key field (some json_value) = some (key, field, json_value)

unfoldable pub set_location :
    (RrSets → Option Text) → Text → Zone → RrSets → Option (Text × Text × Text)
set_location marshal location z val = write_of z.name (label_of z location) (marshal val)
