-- ===== src/Zone.antt =====
-- handler/zone.go: a zone and the search of a location in it.
pub mod Location
pub mod Hidden
use redins.Prelude.{
  ltb, if◌then◌else◌, ℤ, pos, length, any, Text, codes, text_eq, has_suffix, trim_suffix,
  split_after, ℕ, zero, suc, ◌%◌, ◌^◌, Bool, false, ◌||◌, Option, none, some, List, [], ◌∷◌, ◌++◌,
}

-- dns.SOA with the fields that NewZone sets, and the header's name and ttl.
pub record SoaData : Type 0 where
  pub name : Text
  pub hdr_ttl : ℕ
  pub ns : Text
  pub mbox : Text
  pub refresh : ℕ
  pub retry : ℕ
  pub expire : ℕ
  pub minttl : ℕ
  pub serial : ℕ

-- SOA_RRSet; `data` is the field Data, a nil pointer before NewZone sets it.
pub record SoaRrset : Type 0 where
  pub ns : Text
  pub mbox : Text
  pub soa : Option SoaData
  pub ttl : ℕ
  pub refresh : ℕ
  pub retry : ℕ
  pub expire : ℕ
  pub min_ttl : ℕ
  pub serial : ℕ

-- The SOA is a pointer.
pub record ZoneConfig : Type 0 where
  pub domain_id : Text
  pub soa : Option SoaRrset
  pub dns_sec : Bool
  pub cname_flattening : Bool

-- A zone without its keys. The map of locations is used as a set of keys.
pub record Zone : Type 0 where
  pub name : Text
  pub config : ZoneConfig
  pub locations : List Text
  pub cache_timeout : ℤ

pub data Match : Type 0 where
  exact_match wildcard_match no_match : Match

abbrev pub dot : Text
dot = codes "."

abbrev pub star : Text
star = codes "*"

unfoldable pub key_exists : List Text → Text → Bool
key_exists locations key = any (text_eq key) locations

unfoldable pub key_matches : List Text → Text → Bool
key_matches locations key = any (λ value. has_suffix value key) locations

-- The closest encloser and the source of synthesis of a query.
abbrev pub enclose : Option (Text × Text) → Text × Text
enclose none = ([], star)
enclose (some (label, rest)) = (rest, star ++ (dot ++ rest))

unfoldable pub split_query : Text → Option (Text × Text)
split_query [] = none
split_query (c ∷ query) = some (enclose (split_after b'.' (c ∷ query)))

-- The loop of FindLocation on the two parts of a split; the outer `none` is the end of the fuel.
unfoldable pub find_wildcard : List Text → ℕ → Option (Text × Text) → Option (Text × Match)
find_wildcard locations fuel none = some ([], no_match)
find_wildcard locations zero (some (encloser, source)) = none
find_wildcard locations (suc fuel) (some (encloser, source)) =
    let next = find_wildcard locations fuel (split_query encloser) in
    if key_matches locations encloser || key_exists locations encloser
    then some (if key_exists locations source then (source, wildcard_match) else ([], no_match))
    else next

-- FindLocation; the length of the query is fuel enough.
unfoldable pub find_location : Zone → Text → Option (Text × Match)
find_location z query =
    let label = trim_suffix query (dot ++ z.name) in
    if text_eq query z.name
    then some (query, exact_match)
    else if key_exists z.locations label
    then some (label, exact_match)
    else find_wildcard z.locations (length label) (split_query label)

-- What NewZone gives a zone without a configuration.
unfoldable pub default_soa : Text → ℕ → SoaRrset
default_soa name now = record {
  ns = codes "ns1." ++ name;
  mbox = codes "hostmaster." ++ name;
  soa = none;
  ttl = 300;
  refresh = 86400;
  retry = 7200;
  expire = 3600;
  min_ttl = 300;
  serial = now % 2 ^ 32;
}

-- `z.Config.SOA.Ns` is qualified by dns.Fqdn, and the SOA record is made of the decoded fields.
unfoldable pub fill_soa : (Text → Text) → Text → SoaRrset → SoaRrset
fill_soa fqdn name soa =
    let ns = fqdn soa.ns in
    record soa {
      ns = ns;
      soa = some (record {
        name = name;
        hdr_ttl = soa.ttl;
        ns = ns;
        mbox = soa.mbox;
        refresh = soa.refresh;
        retry = soa.retry;
        expire = soa.expire;
        minttl = soa.min_ttl;
        serial = soa.serial;
      });
    }

-- The rest of NewZone; `none` is the panic where the decoded SOA is a nil pointer.
unfoldable pub with_soa :
    (Text → Text) → Text → List Text → ZoneConfig → Option SoaRrset → Option Zone
with_soa fqdn name locations config none = none
with_soa fqdn name locations config (some soa) = some (record {
  name = name;
  config = record config { soa = some (fill_soa fqdn name soa) };
  locations = locations;
  cache_timeout = pos 0;
})

-- `fqdn` is dns.Fqdn of github.com/miekg/dns, `unmarshal` is jsoniter.Unmarshal into a configuration
-- that has its defaults, which gives what it has filled in so far after an error too. `now` is the
-- Unix time.
unfoldable pub new_zone :
    (Text → Text) → (Text → ZoneConfig → ZoneConfig) → ℕ → Text → List Text → Text → Option Zone
new_zone fqdn unmarshal now name locations json =
    let defaults : ZoneConfig = record {
      domain_id = [];
      soa = some (default_soa name now);
      dns_sec = false;
      cname_flattening = false;
    } in
    let config = if ltb 0 (length json) then unmarshal json defaults else defaults in
    with_soa fqdn name locations config config.soa
