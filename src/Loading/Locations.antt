-- ===== src/Loading/Locations.antt =====
-- handler/handler.go: what LoadLocation returns, fresh, loaded or stale.
use redins.Prelude.{
  if◌then◌else◌, Bool-cases, ℤ, length, length-append, Text, codes, text_eq, text_eq_iff, ◌≡◌, refl,
  sym, ap, ◌⊎◌, inl, inr, true, false, ◌&&◌, Option, none, some, [], ◌++◌, arith,
}
use redins.Records.{RrSets}
use redins.Zone.{Zone, dot, key_exists}
use redins.Backend.{Location}
use redins.Loading.{
  Kept, Ristretto, is_fresh, value_of, or_stale, refresh, label_of, zone_key, fetch_location,
  load_location, write_of, set_location,
}

abbrev pub key_of : Text → Zone → Text
key_of location z = location ++ (dot ++ z.name)

module _ (unmarshal : Text → RrSets → Option RrSets) (keep_for : ℤ) (cache : Ristretto Location)
    (z : Zone) (location : Text) where
  refresh-failed :
      (s : cache.State) (now : ℤ) (key : Text) (o : Option (Kept Location))
      → refresh cache s now key o none ≡ (s, value_of o)
  unfolding refresh
  refresh-failed s now key none = refl
  refresh-failed s now key (some kept) = elim (Bool-cases (is_fresh now kept)) [
    | inl fresh ↦ rw fresh refl
    | inr stale ↦ rw stale refl
  ]

  -- While redis cannot be read a stored location is served as the cache has it, however old it is, and
  -- the cache stays as it is.
  pub load_location-outage :
      (hget : Text → Text → Option Text) (s : cache.State) (now : ℤ)
      → key_exists z.locations (label_of z location) ≡ true
      → hget (zone_key z.name) (label_of z location) ≡ none
      → load_location hget unmarshal keep_for cache s now location z
        ≡ (s, value_of (cache.get s (key_of location z)))
  unfolding load_location fetch_location
  load_location-outage hget s now stored failed =
      rw (load_location, stored, failed)
        (refresh-failed s now (key_of location z) (cache.get s (key_of location z)))

  refresh-loaded :
      (s : cache.State) (now : ℤ) (key : Text) (o : Option (Kept Location)) (kept : Kept Location)
      → ((old : Kept Location) → o ≡ some old → is_fresh now old ≡ false)
      → refresh cache s now key o (some kept) ≡ (cache.set s key kept, some kept.value)
  unfolding refresh
  refresh-loaded s now key none kept h = refl
  refresh-loaded s now key (some old) kept h = rw (h old refl) refl

  -- A location that is loaded, with no fresh record before, is served again from the cache up to its
  -- time, whatever redis has by then, unless the cache has dropped it: then it is loaded again.
  pub load_location-again :
      (hget later_hget : Text → Text → Option Text) (s : cache.State) (now at : ℤ)
      (kept : Kept Location)
      → ((old : Kept Location)
          → cache.get s (key_of location z) ≡ some old
          → is_fresh now old ≡ false)
      → fetch_location hget unmarshal keep_for now z location ≡ some kept
      → is_fresh at kept ≡ true
      → (load_location hget unmarshal keep_for cache s now location z
          ≡ (cache.set s (key_of location z) kept, some kept.value))
        × ((load_location later_hget unmarshal keep_for cache
                (cache.set s (key_of location z) kept)
                at
                location
                z
              ≡ (cache.set s (key_of location z) kept, some kept.value))
            ⊎ (load_location later_hget unmarshal keep_for cache
                  (cache.set s (key_of location z) kept)
                  at
                  location
                  z
                ≡ or_stale cache
                    (cache.set s (key_of location z) kept)
                    (key_of location z)
                    none
                    (fetch_location later_hget unmarshal keep_for at z location)))
  unfolding load_location refresh
  load_location-again hget later_hget s now at kept old loaded fresh = (
    rw (load_location, loaded) (refresh-loaded s now (key_of location z) _ kept old),
    elim (cache.get-set_self s (key_of location z) kept) [
      | inl has ↦ inl (rw (load_location, has, fresh) refl)
      | inr dropped ↦ inr (rw (load_location, dropped) refl)
    ],
  )

-- Redis after a write.
abbrev pub written : (Text → Text → Option Text) → Text → Text → Text → Text → Text → Option Text
written hget key field val k f = if text_eq k key && text_eq f field then some val else hget k f

prefixed : (name : Text) → text_eq (zone_key name) name ≡ false
prefixed name = elim (Bool-cases (text_eq (zone_key name) name)) [
  | inl same ↦ absurd (
      omega (
        arith,
        ap length ((text_eq_iff (zone_key name) name).0 same),
        length-append (codes "redins:zones:") name,
      ))
  | inr differ ↦ differ
]

written-other :
    (hget : Text → Text → Option Text) (name field val f : Text)
    → written hget name field val (zone_key name) f ≡ hget (zone_key name) f
written-other hget name field val f = rw (prefixed name) refl

key_or_empty : Option (Text × Text × Text) → Text
key_or_empty none = []
key_or_empty (some (key, field, val)) = key

write_of-key :
    (o : Option Text) (name label key field val : Text)
    → write_of name label o ≡ some (key, field, val)
    → key ≡ name
unfolding key_or_empty
write_of-key none name label key field val e = absurd (cc)
write_of-key (some j) name label key field val e = sym (ap key_or_empty e)

-- What SetLocation writes for a location is not what is loaded: no write changes what LoadLocation
-- reads of the zone, since the keys differ in their prefix.
pub set_location-unread :
    (hget : Text → Text → Option Text) (unmarshal : Text → RrSets → Option RrSets)
    (marshal : RrSets → Option Text) (keep_for now : ℤ) (z : Zone) (location other : Text)
    (val : RrSets) (key field json_value : Text)
    → set_location marshal location z val ≡ some (key, field, json_value)
    → fetch_location (written hget key field json_value) unmarshal keep_for now z other
      ≡ fetch_location hget unmarshal keep_for now z other
unfolding fetch_location set_location
set_location-unread hget unmarshal marshal keep_for now z location other val key field json_value
      wrote =
    rw
      (
        write_of-key (marshal val) z.name (label_of z location) key field json_value wrote,
        written-other hget z.name field json_value (label_of z other),
      )
      refl
