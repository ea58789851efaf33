-- ===== src/Backend.antt =====
-- handler/handler.go: what the handling of a request asks of the parts of the handler. The caches, the
-- database and the statuses are one state, which the calls pass on.
use redins.Prelude.{◌≡◌, Text, ℕ, Option, none, some, List, [], ◌∷◌}
use redins.Records.{Ip, IpRrset, RrSets}
use redins.Zone.{Zone, SoaRrset, Match, find_location}
use redins.Message.{Rr, RrType, soa_rr}

-- Record: a location that is loaded. Its zone is the one it was loaded from.
pub record Location : Type 0 where
  pub name : Text
  pub rrsets : RrSets

-- Response codes.
abbrev pub rcode_success : ℕ
rcode_success = 0

abbrev pub rcode_server_failure : ℕ
rcode_server_failure = 2

abbrev pub rcode_name_error : ℕ
rcode_name_error = 3

abbrev pub rcode_not_implemented : ℕ
rcode_not_implemented = 4

abbrev pub rcode_not_auth : ℕ
rcode_not_auth = 9

-- The lookups of the source for the log, FindZone, LoadZone, LoadLocation, Filter and
-- Upstream.Query. The tree of the zones is not replaced while a request is handled. The results of
-- `log_source`, `load_zone` and `filter` are `none` for a panic.
pub record Backend : Type 1 where
  pub State : Type 0
  pub log_source : Ip → Option (Unit {0})
  pub find_zone : Text → Text
  pub load_zone : State → Text → Option (State × Option Zone)
  pub load_location : State → Text → Zone → State × Option Location
  pub filter : State → Text → Ip → IpRrset → State × Option (List Ip)
  pub upstream_query : State → Text → RrType → State × (List Rr × ℕ)

-- The result of FindLocation, which its fuel always gives.
abbrev pub located : Option (Text × Match) → Text × Match
located none = ([], Match.no_match)
located (some found) = found

unfoldable pub locate : Zone → Text → Text × Match
unfolding find_location
locate zone qname = located (find_location zone qname)

-- zone.Config.SOA.Data, which NewZone sets.
abbrev pub soa_records : Option SoaRrset → List Rr
soa_records none = []
soa_records (some soa) = elim soa.soa [ none ↦ [] | some d ↦ soa_rr d ∷ [] ]

abbrev pub soa_of : Zone → List Rr
soa_of zone = soa_records zone.config.soa

-- What a panic of a request comes from, where it allows `P`.
abbrev pub Panics : Backend → Type 0 → Type 0
Panics b P =
    ((s : b.State) (name : Text) (source : Ip) (rrset : IpRrset)
      → (b.filter s name source rrset).1 ≡ none
      → P)
    × ((s : b.State) (zone_name : Text) → b.load_zone s zone_name ≡ none → P)

-- The filters, the loading of a zone and the lookups of the source never panic.
abbrev pub Calm : Backend → Type 0
Calm b =
    ((s : b.State) (name : Text) (source : Ip) (rrset : IpRrset)
      → (ips : List Ip) × ((b.filter s name source rrset).1 ≡ some ips))
    × ((s : b.State) (zone_name : Text)
        → (loaded : b.State × Option Zone) × (b.load_zone s zone_name ≡ some loaded))
    × ((source : Ip) → b.log_source source ≡ some tt)
