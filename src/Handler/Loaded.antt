-- ===== src/Handler/Loaded.antt =====
-- handler/handler.go: the loading of a zone does not panic, where its records and configuration are
-- sane.
use redins.Prelude.{
  ltb, Bool-cases, Option-cases, ℤ, length, Text, ℕ, ◌≡◌, refl, sym, ap, ◌∙◌, subst, inl, inr, true,
  false, Option, none, some, List,
}
use mathlib.Core.Option.{some-injective}
use redins.GeoIp.{AsnDb}
use redins.Message.{
  Rr, Body, a_body, aaaa_body, cname_body, ns_body, ptr_body, txt_body, mx_body, srv_body, caa_body,
  tlsa_body, soa_body, dnskey_body, nsec_body, rrsig_body, other_body, type_dnskey,
}
use redins.Zone.{default_soa, Zone, ZoneConfig, SoaRrset, new_zone, with_soa}
use redins.Dnssec.{PrivateKey, ZoneKey, ZoneKeys}
use redins.Answers.{empty, to_uint32}
use redins.Loading.{zone_key, Kept, is_fresh}
use redins.Keys.{
  algorithm_of, set_flags, with_flags, with_private_key, load_key, parsed, with_signature,
  with_keys, with_ksk, with_zsk, load_zone_keys, made, fetch_zone, or_old, reload,
}
use redins.Keys
use redins.Handler.{Parts}
use redins.Dnssec.Fitting.{Is, fits, sign_set-Is}

-- The loading of a zone.
module _ (p : Parts) where
  -- The configuration of a zone keeps a SOA that was set before it was decoded, the records under
  -- the keys of zones are DNSKEY records, private keys are of the type of the algorithm of their
  -- record, the health check is switched off, and the database of the numbers is open where they
  -- are logged.
  pub record IsSane : Type 0 where
    pub keeps_soa :
        (str : Text) (config : ZoneConfig) (soa : SoaRrset)
        → config.soa ≡ some soa
        → (soa' : SoaRrset) × ((p.unmarshal_config str config).soa ≡ some soa')
    pub dns_keys :
        (str : Text) (o : Option Rr)
        → p.parse_rr str ≡ some o
        → (r : Rr) × (o ≡ some r) × (r.hdr.rrtype ≡ type_dnskey)
    pub fitting :
        (r : Rr) (str : Text) (pk : PrivateKey)
        → p.private_key r str ≡ some pk
        → fits (algorithm_of r.body) pk ≡ true
    pub off : p.health_enable ≡ false
    pub opened : p.log_source_location ≡ true → (db : AsnDb) × (p.geo_ip.asn_db ≡ some db)

  module _ (sane : IsSane) (get : Text → Text) (now : ℤ) where
    abbrev load : Text → Text → Option (Option ZoneKey)
    load = load_key get p.parse_rr p.private_key p.key_tag p.crypto now

    -- A key, where there is one, that fits its record.
    abbrev FitsIf : Option ZoneKey → Type 0
    FitsIf none = Unit
    FitsIf (some key) = fits (algorithm_of key.dns_key.body) key.private_key ≡ true

    abbrev Loads : Option (Option ZoneKey) → Type 0
    Loads o = (key : Option ZoneKey) × (o ≡ some key) × FitsIf key

    with_private_key-Fits :
        (r : Rr) (o : Option PrivateKey)
        → ((pk : PrivateKey) → o ≡ some pk → fits (algorithm_of r.body) pk ≡ true)
        → FitsIf (with_private_key get p.parse_rr p.private_key p.key_tag p.crypto now r o)
    with_private_key-Fits r none h = tt
    with_private_key-Fits r (some pk) h = h pk refl

    parsed-Loads :
        (priv : Text) (o : Option (Option Rr))
        → ((r' : Option Rr) → o ≡ some r' → (r : Rr) × (r' ≡ some r) × (r.hdr.rrtype ≡ type_dnskey))
        → Loads (parsed get p.parse_rr p.private_key p.key_tag p.crypto now priv o)
    parsed-Loads priv none h = (none, refl, tt)
    parsed-Loads priv (some none) h = let (r, e, k) = h none refl in absurd (cc)
    parsed-Loads priv (some (some r)) h =
        let (r', e, k) = h (some r) refl in
        let same : r.hdr.rrtype ≡ type_dnskey =
          subst (λ (x : Rr). x.hdr.rrtype ≡ type_dnskey) (sym (some-injective _ _ e)) k in
        simp same (_, refl, with_private_key-Fits r (p.private_key r priv) (sane.fitting r priv))

    load_key-Loads : (pub_key priv_key : Text) → Loads (load pub_key priv_key)
    unfolding load_key
    load_key-Loads pub_key priv_key = elim (Bool-cases (empty (get pub_key))) [
      | inl missing ↦ rw missing (none, refl, tt)
      | inr there ↦ rw there (elim (Bool-cases (empty (get priv_key))) [
        | inl missing ↦ rw missing (none, refl, tt)
        | inr there' ↦ rw there' (
            parsed-Loads (Keys.unescape (get priv_key)) (p.parse_rr (get pub_key))
              (sane.dns_keys (get pub_key)))
      ])
    ]

    algorithm_of-set_flags :
        (flags : ℕ) (body : Body) → algorithm_of (set_flags flags body) ≡ algorithm_of body
    algorithm_of-set_flags flags (a_body _) = refl
    algorithm_of-set_flags flags (aaaa_body _) = refl
    algorithm_of-set_flags flags (cname_body _) = refl
    algorithm_of-set_flags flags (ns_body _) = refl
    algorithm_of-set_flags flags (ptr_body _) = refl
    algorithm_of-set_flags flags (txt_body _) = refl
    algorithm_of-set_flags flags (mx_body _ _) = refl
    algorithm_of-set_flags flags (srv_body _ _ _ _) = refl
    algorithm_of-set_flags flags (caa_body _ _ _) = refl
    algorithm_of-set_flags flags (tlsa_body _ _ _ _) = refl
    algorithm_of-set_flags flags (soa_body _) = refl
    algorithm_of-set_flags flags (dnskey_body _ _ _) = refl
    algorithm_of-set_flags flags (nsec_body _ _) = refl
    algorithm_of-set_flags flags (rrsig_body _ _ _ _ _) = refl
    algorithm_of-set_flags flags other_body = refl

    with_signature-Is :
        (z : Zone) (zsk ksk : ZoneKey) (o : Option (Option Rr))
        → Is o
        → Is (with_signature get p.parse_rr p.private_key p.key_tag p.crypto now z zsk ksk o)
    with_signature-Is z zsk ksk none (a, e) = absurd (cc)
    with_signature-Is z zsk ksk (some none) h = (_, refl)
    with_signature-Is z zsk ksk (some (some rrsig)) h = (_, refl)

    with_keys-Is :
        (z : Zone) (zsk ksk : ZoneKey)
        → FitsIf (some ksk)
        → Is (with_keys get p.parse_rr p.private_key p.key_tag p.crypto now z zsk ksk)
    unfolding with_keys
    with_keys-Is z zsk ksk h = with_signature-Is z _ _ _ (
        sign_set-Is p.crypto _ z.name
          (with_flags get p.parse_rr p.private_key p.key_tag p.crypto now 257 ksk.dns_key.hdr.ttl
            ksk)
          ksk.dns_key.hdr.ttl
          (ap (λ (n : ℕ). fits n ksk.private_key) (algorithm_of-set_flags 257 ksk.dns_key.body)
            ∙ h))

    with_ksk-Is :
        (z : Zone) (zsk : ZoneKey) (o : Option (Option ZoneKey))
        → Loads o
        → Is (with_ksk get p.parse_rr p.private_key p.key_tag p.crypto now z zsk o)
    unfolding with_ksk
    with_ksk-Is z zsk none (a, e, h) = absurd (cc)
    with_ksk-Is z zsk (some none) h = (_, refl)
    with_ksk-Is z zsk (some (some ksk)) (key, e, h) =
        with_keys-Is z zsk ksk (subst FitsIf (sym (some-injective _ _ e)) h)

    with_zsk-Is :
        (z : Zone) (o : Option (Option ZoneKey))
        → Loads o
        → Is (with_zsk get p.parse_rr p.private_key p.key_tag p.crypto now z o)
    unfolding with_zsk
    with_zsk-Is z none (a, e, h) = absurd (cc)
    with_zsk-Is z (some none) h = (_, refl)
    with_zsk-Is z (some (some zsk)) h = with_ksk-Is z zsk _ (load_key-Loads _ _)

    load_zone_keys-Is :
        (z : Zone) → Is (load_zone_keys get p.parse_rr p.private_key p.key_tag p.crypto now z)
    unfolding load_zone_keys
    load_zone_keys-Is z = elim (Bool-cases z.config.dns_sec) [
      | inl secured ↦ simp secured (with_zsk-Is z _ (load_key-Loads _ _))
      | inr plain ↦ simp plain (_, refl)
    ]

    with_soa-Is :
        (name : Text) (locations : List Text) (config : ZoneConfig)
        → Is config.soa
        → Is (with_soa p.fqdn name locations config config.soa)
    unfolding with_soa
    with_soa-Is name locations config (soa, e) = rw (e, with_soa) (_, refl)

    new_zone-Is :
        (name : Text) (locations : List Text) (json : Text)
        → Is (new_zone p.fqdn p.unmarshal_config (to_uint32 now) name locations json)
    unfolding new_zone
    new_zone-Is name locations json = elim (Bool-cases (ltb 0 (length json))) [
      | inl given ↦ rw given (
          with_soa-Is name locations _
            (sane.keeps_soa json _ (default_soa name (to_uint32 now)) refl))
      | inr missing ↦ rw missing (with_soa-Is name locations _ (_, refl))
    ]

    made-Is :
        (o : Option Zone)
        → Is o
        → Is (
            made get p.parse_rr p.private_key p.key_tag p.crypto now p.fqdn p.unmarshal_config
              p.hkeys p.cache_timeout o)
    unfolding made
    made-Is none (a, e) = absurd (cc)
    made-Is (some z) h = let (loaded, e) = load_zone_keys-Is z in rw e (_, refl)

    fetch_zone-Is :
        (zone : Text)
        → Is (
            fetch_zone get p.parse_rr p.private_key p.key_tag p.crypto now p.fqdn p.unmarshal_config
              p.hkeys p.cache_timeout zone)
    unfolding fetch_zone
    fetch_zone-Is zone = elim (Option-cases (p.hkeys (zone_key zone))) [
      | inl e ↦ rw (e, fetch_zone) (_, refl)
      | inr (locations, e) ↦ rw (e, fetch_zone) (made-Is _ (new_zone-Is zone locations _))
    ]

    or_old-Is :
        (s : p.zone_cache.State) (zone : Text) (old : Option (Kept (Zone × Option ZoneKeys)))
        (o : Option (Option (Kept (Zone × Option ZoneKeys))))
        → Is o
        → Is (
            or_old get p.parse_rr p.private_key p.key_tag p.crypto now p.fqdn p.unmarshal_config
              p.hkeys p.cache_timeout p.zone_cache s zone old o)
    or_old-Is s zone old none (a, e) = absurd (cc)
    or_old-Is s zone old (some loaded) h = (_, refl)

    pub load_zone-Is :
        (s : p.zone_cache.State) (zone : Text)
        → Is (
            Keys.load_zone get p.parse_rr p.private_key p.key_tag p.crypto now p.fqdn
              p.unmarshal_config p.hkeys p.cache_timeout p.zone_cache s zone)
    unfolding Keys.load_zone
    load_zone-Is s zone = reload-Is (p.zone_cache.get s zone)
      where
        reload-Is :
            (old : Option (Kept (Zone × Option ZoneKeys)))
            → Is (
                reload get p.parse_rr p.private_key p.key_tag p.crypto now p.fqdn p.unmarshal_config
                  p.hkeys p.cache_timeout p.zone_cache s zone old)
        reload-Is none = or_old-Is s zone none _ (fetch_zone-Is zone)
        reload-Is (some old) = elim (Bool-cases (is_fresh now old)) [
          | inl fresh ↦ rw fresh (_, refl)
          | inr stale ↦ rw stale (or_old-Is s zone (some old) _ (fetch_zone-Is zone))
        ]
