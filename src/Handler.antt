-- ===== src/Handler.antt =====
-- handler/handler.go: the parts of the handler (DnsRequestHandler) joined, as HandleRequest calls them.
pub mod Filtered
pub mod Loaded
pub mod Joined
use redins.Prelude.{
  if◌then◌else◌, ℤ, pos, Text, codes, ℕ, ◌/◌, ◌%◌, ◌<◌, Bool, Option, none, some, List, [], ◌++◌,
}
use redins.Cache.{GoCache}
use redins.Records.{Ip, IpRrset, RrSets}
use redins.Message.{Rr, RrType}
use redins.Zone.{Zone, ZoneConfig}
use redins.Zones.{RadixTree}
use redins.Zones
use redins.Dnssec.{PrivateKey, ZoneKey, ZoneKeys}
use redins.GeoIp.{Floats, GeoIp, get_asn}
use redins.Healthcheck.{Item}
use redins.Healthcheck.Items.{status_source}
use redins.Filter
use redins.Loading.{Ristretto}
use redins.Loading
use redins.Keys
use redins.Upstream.{UpstreamConnection, Msg, Upstream}
use redins.Upstream
use redins.Backend.{Backend, Location}

-- What the handler is made of: the caches, redis, the codecs and the databases.
pub record Parts : Type 1 where
  pub radix : RadixTree
  pub record_cache : Ristretto Location
  pub zone_cache : Ristretto (Zone × Option ZoneKeys)
  pub upstream_cache : GoCache (List Rr)
  pub item_cache : GoCache Item
  pub Float : Type 0
  pub floats : Floats Float
  pub geo_ip : GeoIp Float
  pub log_source_location : Bool
  pub hget : Text → Text → Option Text
  pub get : Text → Option Text
  pub hkeys : Text → Option (List Text)
  pub unmarshal : Text → RrSets → Option RrSets
  pub unmarshal_config : Text → ZoneConfig → ZoneConfig
  pub parse_rr : Text → Option (Option Rr)
  pub private_key : Rr → Text → Option PrivateKey
  pub key_tag : Rr → ℕ
  pub crypto : ZoneKey → Rr → List Rr → Option Rr
  pub fqdn : Text → Text
  pub exchange : Text → RrType → UpstreamConnection → Option Msg
  pub itoa : ℕ → Text
  pub status_get : Text → Option Text
  pub decode_item : Text → Item → Item
  pub ip_text : Ip → Text
  pub cache_timeout : ℤ
  pub health_enable : Bool
  pub update_interval : ℕ
  pub positive : 0 < update_interval
  pub advance : ℕ → ℕ

abbrev or_no_text : Option Text → Text
or_no_text none = []
or_no_text (some str) = str

abbrev unix : ℕ → ℤ
unix now = pos (now / 1000000000)

module _ (p : Parts) where
  -- The caches, and the time in nanoseconds of the next reading of the clock.
  pub record Caches : Type 0 where
    pub records : p.record_cache.State
    pub zones : p.zone_cache.State
    pub upstream : Upstream p.upstream_cache
    pub items : p.item_cache.State
    pub now : ℕ

  abbrev pub zone_loaded :
      Caches
      → Option (p.zone_cache.State × Option (Zone × Option ZoneKeys))
      → Option (Caches × Option Zone)
  zone_loaded s none = none
  zone_loaded s (some (zones, none)) =
      some (record s { zones = zones; now = p.advance s.now }, none)
  zone_loaded s (some (zones, some (zone, keys))) =
      some (record s { zones = zones; now = p.advance s.now }, some zone)

  unfoldable pub cached_zone : Caches → Text → Option (Caches × Option Zone)
  cached_zone s zone_name = zone_loaded s (
      Keys.load_zone (λ k. or_no_text (p.get k)) p.parse_rr p.private_key p.key_tag p.crypto
        (unix s.now) p.fqdn p.unmarshal_config p.hkeys p.cache_timeout p.zone_cache s.zones
        zone_name)

  unfoldable pub cached_location : Caches → Text → Zone → Caches × Option Location
  cached_location s location zone =
      let (records, found) =
        Loading.load_location p.hget p.unmarshal p.cache_timeout p.record_cache s.records
          (unix s.now) location zone in
      (record s { records = records; now = p.advance s.now }, found)

  unfoldable pub filtered_ips : Caches → Text → Ip → IpRrset → Caches × Option (List Ip)
  filtered_ips s name source rrset =
      let (items, ips) =
        Filter.filter p.floats p.geo_ip
          (status_source p.status_get p.decode_item p.item_cache p.health_enable p.update_interval
            p.positive p.ip_text s.now)
          p.health_enable (s.now % 1000000000) s.items name source rrset in
      (record s { items = items; now = p.advance s.now }, ips)

  unfoldable pub forwarded : Caches → Text → RrType → Caches × (List Rr × ℕ)
  forwarded s name qtype =
      let (upstream, answer) =
        Upstream.query p.upstream_cache (p.exchange name qtype) s.upstream s.now
          (name ++ (codes ":" ++ p.itoa qtype)) in
      (record s { upstream = upstream; now = p.advance s.now }, answer)

  abbrev pub looked_up : Option (Option ℕ) → Option (Unit {0})
  looked_up none = none
  looked_up (some asn) = some tt

  -- The lookups of the source for the log: GetASN may panic, GetCountry does not.
  unfoldable pub log_source : Ip → Option (Unit {0})
  log_source source = if p.log_source_location then looked_up (get_asn p.geo_ip source) else some tt

  -- The handler with a tree of zones.
  abbrev pub backend : p.radix.State → Backend
  backend zones = record {
    State = Caches;
    log_source = log_source;
    find_zone = Zones.find_zone p.radix zones;
    load_zone = cached_zone;
    load_location = cached_location;
    filter = filtered_ips;
    upstream_query = forwarded;
  }
