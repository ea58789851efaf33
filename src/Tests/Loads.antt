-- ===== src/Tests/Loads.antt =====
-- The loading of zones and locations by handler/handler.go.
use redins.Prelude.{
  if◌then◌else◌, wrap, int_add, pos, Text, codes, text_eq, text_eq_refl, ℕ, ◌≡◌, refl, ◌⊎◌, inl,
  Bool, true, false, Option, none, some, List, [], ◌∷◌,
}
use redins.Records.{RrSets}
use redins.Zone.{Zone, key_exists}
use redins.Message.{Rr}
use redins.Message
use redins.Dnssec.{PrivateKey, ecdsa_private_key, ZoneKey, ZoneKeys, sign_set}
use redins.Backend.{Location}
use redins.Loading.{
  Kept, Ristretto, or_stale, new_sets, label_of, name_of, fetch_location, load_location,
  set_location,
}
use redins.Loading.Locations.{
  written, load_location-outage, load_location-again, set_location-unread,
}
use redins.Keys.{load_zone_keys, load_key, with_zsk, with_ksk, with_keys, unescape}

-- A cache that keeps one entry for each key.
abbrev keeping : Ristretto Location
keeping = record {
  State = Text → Option (Kept Location);
  get = λ s k. s k;
  set = λ s k v j. if text_eq k j then some v else s j;
  get-set_self = λ s k v. inl (rw (text_eq_refl k) refl);
}

abbrev zone : Zone
zone = record {
  name = codes "e.";
  config = record { domain_id = []; soa = none; dns_sec = true; cname_flattening = false };
  locations = codes "a" ∷ [];
  cache_timeout = pos 0;
}

abbrev down : Text → Text → Option Text
down k f = none

abbrev up : Text → Text → Option Text
up k f = some []

abbrev unmarshal : Text → RrSets → Option RrSets
unmarshal val sets = some sets

abbrev old_record : Kept Location
old_record = record {
  value = record { name = codes "a.e."; rrsets = new_sets };
  cache_timeout = pos 10;
}

abbrev one_kept : Text → Option (Kept Location)
one_kept k = some old_record

abbrev nothing_kept : Text → Option (Kept Location)
nothing_kept k = none

load_location-outage_example :
    load_location down unmarshal (pos 60) keeping one_kept (pos 99) (codes "a") zone
    ≡ (one_kept, some old_record.value)
unfolding key_exists label_of text_eq
load_location-outage_example =
    load_location-outage unmarshal (pos 60) keeping zone (codes "a") down one_kept (pos 99) refl
      refl

abbrev loaded : Kept Location
loaded = record {
  value = record { name = codes "a.e."; rrsets = new_sets };
  cache_timeout = pos 160;
}

abbrev key : Text
key = codes "a.e."

load_location-again_example :
    (load_location up unmarshal (pos 60) keeping nothing_kept (pos 100) (codes "a") zone
      ≡ (keeping.set nothing_kept key loaded, some loaded.value))
    × ((load_location down unmarshal
            (pos 60)
            keeping
            (keeping.set nothing_kept key loaded)
            (pos 120)
            (codes "a")
            zone
          ≡ (keeping.set nothing_kept key loaded, some loaded.value))
        ⊎ (load_location down unmarshal
              (pos 60)
              keeping
              (keeping.set nothing_kept key loaded)
              (pos 120)
              (codes "a")
              zone
            ≡ or_stale keeping
                (keeping.set nothing_kept key loaded)
                key
                none
                (fetch_location down unmarshal (pos 60) (pos 120) zone (codes "a"))))
unfolding fetch_location key_exists label_of name_of text_eq int_add wrap
load_location-again_example =
    load_location-again unmarshal (pos 60) keeping zone (codes "a") up down nothing_kept (pos 100)
      (pos 120) loaded (λ old e. absurd (cc)) refl refl

abbrev marshal : RrSets → Option Text
marshal sets = some (codes "{}")

set_location-unread_example :
    fetch_location
      (written down (codes "e.") (codes "a") (codes "{}"))
      unmarshal
      (pos 60)
      (pos 5)
      zone
      (codes "a")
    ≡ fetch_location down unmarshal (pos 60) (pos 5) zone (codes "a")
unfolding set_location label_of text_eq
set_location-unread_example =
    set_location-unread down unmarshal marshal (pos 60) (pos 5) zone (codes "a") (codes "a")
      new_sets (codes "e.") (codes "a") (codes "{}") refl

abbrev get : Text → Text
get k = codes "k"

abbrev dnskey : Text → Option (Option Rr)
dnskey s = some (
    some (record {
      hdr = record {
        name = codes "e.";
        rrtype = Message.type_dnskey;
        class = Message.class_inet;
        ttl = 300;
      };
      body = Message.dnskey_body 0 13 (codes "k");
    }))

abbrev accepts : Rr → Text → Option PrivateKey
accepts r s = some ecdsa_private_key

abbrev crypto : ZoneKey → Rr → List Rr → Option Rr
crypto k rrsig rrs = some rrsig

abbrev tag : Rr → ℕ
tag r = 7

abbrev signed : Option (Zone × Option ZoneKeys) → Bool
signed (some (z, some keys)) = z.config.dns_sec
signed _ = false

keys_run : signed (load_zone_keys get dnskey accepts tag crypto (pos 1000000) zone) ≡ true
unfolding load_zone_keys load_key with_zsk with_ksk with_keys sign_set unescape
keys_run = refl
