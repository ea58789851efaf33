-- ===== src/Handler/Joined.antt =====
-- handler/handler.go: the joined handler responds to every request, where nothing in it can panic.
use redins.Prelude.{Bool-cases, ℤ, ◌%◌, ◌≡◌, refl, sym, subst, inl, inr, Bool, Option, none, some}
use redins.Zone.{Zone}
use redins.Dnssec.{ZoneKeys}
use redins.Healthcheck.Items.{status_source}
use redins.Filter
use redins.Backend.{Calm}
use redins.Reply.{Context, Signing}
use redins.Request.{handle_request}
use redins.Request.Response.{Responds, handle_request-Responds}
use redins.Handler.{
  Parts, Caches, cached_zone, zone_loaded, filtered_ips, looked_up, log_source, backend,
}
use redins.Dnssec.Fitting.{Is, Fits}
use redins.GeoIp.{AsnDb, get_asn}
use redins.Records.{Ip}
use redins.Handler.Filtered.{filter-Is}
use redins.Handler.Loaded.{IsSane, load_zone-Is}

module _ (p : Parts) where
  zone_loaded-Is :
      (s : Caches p) (o : Option (p.zone_cache.State × Option (Zone × Option ZoneKeys)))
      → Is o
      → Is (zone_loaded p s o)
  zone_loaded-Is s none (a, e) = absurd (cc)
  zone_loaded-Is s (some (zones, none)) h = (_, refl)
  zone_loaded-Is s (some (zones, some (zone, keys))) h = (_, refl)

  log_source-Is : IsSane p → (source : Ip) → log_source p source ≡ some tt
  unfolding log_source get_asn
  log_source-Is sane source = elim (Bool-cases p.log_source_location) [
    | inl on ↦ let (db, e) = sane.opened on in rw (on, log_source) (looked p.geo_ip.asn_db db e)
    | inr off ↦ rw (off, log_source) refl
  ]
    where
      looked :
          (o : Option AsnDb) (db : AsnDb)
          → o ≡ some db
          → looked_up p (elim o [ none ↦ none | some db ↦ some (db.asn source) ]) ≡ some tt
      looked none db e = absurd (cc)
      looked (some db') db e = refl

  backend-Calm : IsSane p → (zones : p.radix.State) → Calm (backend p zones)
  unfolding cached_zone filtered_ips
  backend-Calm sane zones = (
    λ s name source rrset.
        let src =
          status_source p.status_get p.decode_item p.item_cache p.health_enable p.update_interval
            p.positive p.ip_text s.now in
        subst
          (λ (enable : Bool).
            Is
              (Filter.filter p.floats p.geo_ip src enable (s.now % 1000000000) s.items name source
                rrset).1)
          (sym sane.off)
          (filter-Is p.floats p.geo_ip src (s.now % 1000000000) s.items name source rrset),
    λ s zone_name. zone_loaded-Is s _ (load_zone-Is p sane _ _ s.zones zone_name),
    log_source-Is sane,
  )

  -- The handler with its caches, redis, filters and upstream servers joined, and with the zones of
  -- any tree, responds to every request, the log of it aside, and leaves it as it is, whatever else
  -- redis, the caches, the databases and the other servers answer: where the health check is
  -- switched off, the database of the numbers is open if the source is logged, the records under
  -- the keys of zones are DNSKEY records, the private keys, also those that sign the answers, are
  -- of the types of their algorithms, and a decoded configuration of a zone keeps its SOA.
  pub joined-Responds :
      (zones : p.radix.State) (signing : Signing) (max_ttl : ℤ) (s : Caches p) (c : Context)
      → IsSane p
      → ((zone : Zone) → Fits (signing.keys zone).zsk)
      → Responds
          (backend p zones)
          p.fqdn
          max_ttl
          signing
          c
          (handle_request (backend p zones) p.fqdn max_ttl signing s c)
  joined-Responds zones signing max_ttl s c sane fitting =
      handle_request-Responds (backend p zones) p.fqdn max_ttl signing fitting
        (backend-Calm sane zones) s c
