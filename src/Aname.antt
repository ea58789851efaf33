-- ===== src/Aname.antt =====
-- handler/handler.go: the addresses that an ANAME record stands for (FindANAME).
use redins.Prelude.{
  ◌==◌, if◌then◌else◌, Text, ℕ, zero, suc, true, false, not, ◌&&◌, Option, none, some, List, [],
  ◌∷◌, ◌++◌,
}
use redins.Records.{Ip, AnameRecord}
use redins.Zone.{Zone}
use redins.Answers.{empty}
use redins.Message.{Rr, RrType, Body, a_body, aaaa_body, type_a, type_aaaa}
use redins.Backend.{Location, Backend, locate, rcode_success, rcode_server_failure}

-- The records of the type asked for: `r.(*dns.A)` tests the type of the record.
abbrev pub a_of : Body → List Ip
a_of (a_body ip) = ip ∷ []
a_of _ = []

abbrev pub aaaa_of : Body → List Ip
aaaa_of (aaaa_body ip) = ip ∷ []
aaaa_of _ = []

unfoldable pub upstream_ips : RrType → List Rr → List Ip
upstream_ips qtype [] = []
upstream_ips qtype (r ∷ rs) =
    (if qtype == type_a then a_of r.body else aaaa_of r.body) ++ upstream_ips qtype rs

abbrev pub first_ttl : List Rr → ℕ
first_ttl [] = 0
first_ttl (r ∷ rs) = r.hdr.ttl

-- The addresses, the response code and the ttl.
abbrev pub Found : Type 0
Found = List Ip × ℕ × ℕ

abbrev pub failed : Found
failed = ([], rcode_server_failure, 0)

unfoldable pub from_upstream : RrType → List Rr × ℕ → Found
from_upstream qtype (answers, rcode) =
    if rcode == rcode_success
    then (upstream_ips qtype answers, rcode, first_ttl answers)
    else failed

module _ (b : Backend) (source : Ip) (qtype : RrType) where
  -- A result is `none` for a panic of Filter or LoadZone.
  abbrev pub Result : Type 0
  Result = Option (b.State × Found)

  abbrev pub filtered : ℕ → b.State × Option (List Ip) → Result
  filtered ttl (s, none) = none
  filtered ttl (s, some ips) = some (s, (ips, rcode_success, ttl))

  abbrev pub at_aname : (b.State → Text → Result) → b.State → Option AnameRecord → Result
  at_aname next s none = some (s, ([], rcode_success, 0))
  at_aname next s (some aname) = next s aname.location

  unfoldable pub at_addresses : (b.State → Text → Result) → b.State → Location → Result
  at_addresses next s record' = elim (qtype == type_a && not (empty record'.rrsets.a.items)) [
    | true ↦ filtered record'.rrsets.a.ttl (b.filter s record'.name source record'.rrsets.a)
    | false ↦ elim (qtype == type_aaaa && not (empty record'.rrsets.aaaa.items)) [
      | true ↦ filtered record'.rrsets.aaaa.ttl (b.filter s record'.name source record'.rrsets.aaaa)
      | false ↦ at_aname next s record'.rrsets.aname
    ]
  ]

  unfoldable pub at_location : (b.State → Text → Result) → b.State × Option Location → Result
  unfolding at_addresses
  at_location next (s, none) = some (s, failed)
  at_location next (s, some record') = elim record'.rrsets.cname [
    | none ↦ at_addresses next s record'
    | some cname ↦ next s cname.host
  ]

  unfoldable pub in_zone :
      (b.State → Text → Result) → Text → Option (b.State × Option Zone) → Result
  unfolding at_location
  in_zone next qname none = none
  in_zone next qname (some (s, none)) = some (s, failed)
  in_zone next qname (some (s, some zone)) =
      let location = (locate zone qname).0 in
      elim (empty location) [
        | true ↦ some (s, failed)
        | false ↦ at_location next (b.load_location s location zone)
      ]

  unfoldable pub queried : b.State × (List Rr × ℕ) → Result
  unfolding from_upstream
  queried (s, answer) = some (s, from_upstream qtype answer)

  -- The loop of FindANAME with the rounds that are left: the round of the count 11 fails.
  unfoldable pub search_aname : ℕ → b.State → Text → Result
  unfolding in_zone queried
  search_aname zero s qname = some (s, failed)
  search_aname (suc rounds) s qname =
      let zone_name = b.find_zone qname in
      elim (empty zone_name) [
        | true ↦ queried (b.upstream_query s qname qtype)
        | false ↦ in_zone (search_aname rounds) qname (b.load_zone s zone_name)
      ]

  unfoldable pub find_aname : b.State → Text → Result
  unfolding search_aname
  find_aname = search_aname 11
