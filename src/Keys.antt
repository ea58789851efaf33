-- ===== src/Keys.antt =====
-- handler/handler.go: the keys of a zone (loadKey, LoadZoneKeys), and the load of a zone (LoadZone).
pub mod Signed
use redins.Prelude.{
  ◌==◌, if◌then◌else◌, ℤ, int_add, int_sub, pos, Text, codes, ℕ, String, false, not, ◌&&◌, Option,
  none, some, List, [], ◌∷◌, ◌++◌,
}
use redins.Zone.{Zone, ZoneConfig, new_zone}
use redins.Answers.{to_uint32, empty}
use redins.Message.{Rr, Body, dnskey_body, type_dnskey}
use redins.Dnssec.{PrivateKey, ZoneKey, ZoneKeys, sign_set}
use redins.Loading.{Kept, Ristretto, is_fresh, or_stale, zone_key}

-- `strings.Replace(privStr, "\\n", "\n", -1)`: a backslash and an n become a newline.
unfoldable pub unescape : Text → Text
unescape [] = []
unescape (c ∷ []) = c ∷ []
unescape (c ∷ d ∷ s) =
    let escaped = unescape s in
    let plain = unescape (d ∷ s) in if c == 92 && d == 110 then 10 ∷ escaped else c ∷ plain

-- The flags of a DNSKEY record, as they are set.
abbrev pub set_flags : ℕ → Body → Body
set_flags flags (dnskey_body old algorithm key) = dnskey_body flags algorithm key
set_flags flags body = body

abbrev pub flagged : ℕ → Rr → Rr
flagged flags r = record r { body = set_flags flags r.body }

abbrev pub algorithm_of : Body → ℕ
algorithm_of (dnskey_body flags algorithm key) = algorithm
algorithm_of body = 0

-- `get` is Get of redis with its error dropped, `parse_rr` and `private_key` are dns.NewRR and
-- NewPrivateKey of github.com/miekg/dns, `none` for an error; a text without a record gives a nil
-- record and no error, the inner `none`; `key_tag` is KeyTag.
module _ (get : Text → Text) (parse_rr : Text → Option (Option Rr))
    (private_key : Rr → Text → Option PrivateKey) (key_tag : Rr → ℕ)
    (crypto : ZoneKey → Rr → List Rr → Option Rr) (now : ℤ) where
  abbrev pub key_of : Rr → PrivateKey → ZoneKey
  key_of r pk = record {
    dns_key = r;
    private_key = pk;
    algorithm = algorithm_of r.body;
    key_tag = key_tag r;
    key_inception = to_uint32 (int_sub now (pos 10800));
    key_expiration = to_uint32 (int_add now (pos 691200));
  }

  abbrev pub with_private_key : Rr → Option PrivateKey → Option ZoneKey
  with_private_key r none = none
  with_private_key r (some pk) = some (key_of r pk)

  -- The outer `none` is the panic of a nil record, or of one that is no DNSKEY.
  abbrev pub parsed : Text → Option (Option Rr) → Option (Option ZoneKey)
  parsed priv none = some none
  parsed priv (some none) = none
  parsed priv (some (some r)) =
      if not (r.hdr.rrtype == type_dnskey)
      then none
      else some (with_private_key r (private_key r priv))

  unfoldable pub load_key : Text → Text → Option (Option ZoneKey)
  unfolding unescape
  load_key pub_key priv_key =
      if empty (get pub_key)
      then some none
      else if empty (get priv_key)
      then some none
      else parsed (unescape (get priv_key)) (parse_rr (get pub_key))

  abbrev pub unsecured : Zone → Zone
  unsecured z = record z { config = record (z.config) { dns_sec = false } }

  abbrev pub with_signature :
      Zone → ZoneKey → ZoneKey → Option (Option Rr) → Option (Zone × Option ZoneKeys)
  with_signature z zsk ksk none = none
  with_signature z zsk ksk (some none) = some (unsecured z, none)
  with_signature z zsk ksk (some (some rrsig)) =
      some (z, some (record { zsk = zsk; ksk = ksk; dns_key_sig = rrsig }))

  -- A key whose record has these flags and this ttl.
  abbrev pub with_flags : ℕ → ℕ → ZoneKey → ZoneKey
  with_flags flags ttl key =
      key_of (flagged flags (record (key.dns_key) { hdr = record (key.dns_key.hdr) { ttl = ttl } }))
        key.private_key

  -- The flags and the ttl of both keys are set, and their records are signed.
  unfoldable pub with_keys : Zone → ZoneKey → ZoneKey → Option (Zone × Option ZoneKeys)
  with_keys z zsk_key ksk_key =
      let ttl = ksk_key.dns_key.hdr.ttl in
      let zsk = with_flags 256 ttl zsk_key in
      let ksk = with_flags 257 ttl ksk_key in
      with_signature z zsk ksk (sign_set crypto (zsk.dns_key ∷ ksk.dns_key ∷ []) z.name ksk ttl)

  unfoldable pub with_ksk :
      Zone → ZoneKey → Option (Option ZoneKey) → Option (Zone × Option ZoneKeys)
  unfolding with_keys
  with_ksk z zsk none = none
  with_ksk z zsk (some none) = some (unsecured z, none)
  with_ksk z zsk (some (some ksk)) = with_keys z zsk ksk

  abbrev pub key_name : Zone → String → Text
  key_name z part = zone_key z.name ++ codes part

  unfoldable pub with_zsk : Zone → Option (Option ZoneKey) → Option (Zone × Option ZoneKeys)
  unfolding with_ksk load_key
  with_zsk z none = none
  with_zsk z (some none) = some (unsecured z, none)
  with_zsk z (some (some zsk)) =
      with_ksk z zsk (load_key (key_name z ":ksk:pub") (key_name z ":ksk:priv"))

  -- LoadZoneKeys: a zone whose keys cannot be loaded is not signed.
  unfoldable pub load_zone_keys : Zone → Option (Zone × Option ZoneKeys)
  unfolding with_zsk load_key
  load_zone_keys z =
      if z.config.dns_sec
      then with_zsk z (load_key (key_name z ":zsk:pub") (key_name z ":zsk:priv"))
      else some (z, none)

  -- `hkeys` and `get_config` are GetHKeys and Get of redis, `none` for an error.
  module _ (fqdn : Text → Text) (unmarshal : Text → ZoneConfig → ZoneConfig)
      (hkeys : Text → Option (List Text)) (keep_for : ℤ) where
    abbrev pub kept :
        Option (Zone × Option ZoneKeys) → Option (Option (Kept (Zone × Option ZoneKeys)))
    kept none = none
    kept (some loaded) =
        some (some (record { value = loaded; cache_timeout = int_add now keep_for }))

    unfoldable pub made : Option Zone → Option (Option (Kept (Zone × Option ZoneKeys)))
    unfolding load_zone_keys
    made none = none
    made (some z) = kept (load_zone_keys z)

    -- The function that LoadZone runs where it has no fresh zone; the outer `none` is a panic.
    unfoldable pub fetch_zone : Text → Option (Option (Kept (Zone × Option ZoneKeys)))
    unfolding made
    fetch_zone zone = elim (hkeys (zone_key zone)) [
      | none ↦ some none
      | some locations ↦ made (
          new_zone fqdn unmarshal (to_uint32 now) zone locations
            (get (zone_key zone ++ codes ":config")))
    ]

    module _ (cache : Ristretto (Zone × Option ZoneKeys)) where
      abbrev pub or_old :
          cache.State
          → Text
          → Option (Kept (Zone × Option ZoneKeys))
          → Option (Option (Kept (Zone × Option ZoneKeys)))
          → Option (cache.State × Option (Zone × Option ZoneKeys))
      or_old s zone old none = none
      or_old s zone old (some loaded) = some (or_stale cache s zone old loaded)

      unfoldable pub reload :
          cache.State
          → Text
          → Option (Kept (Zone × Option ZoneKeys))
          → Option (cache.State × Option (Zone × Option ZoneKeys))
      unfolding fetch_zone
      reload s zone none = or_old s zone none (fetch_zone zone)
      reload s zone (some old) =
          if is_fresh now old
          then some (s, some old.value)
          else or_old s zone (some old) (fetch_zone zone)

      unfoldable pub load_zone :
          cache.State → Text → Option (cache.State × Option (Zone × Option ZoneKeys))
      unfolding reload
      load_zone s zone = reload s zone (cache.get s zone)
