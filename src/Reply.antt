-- ===== src/Reply.antt =====
-- handler/handler.go: the answer at the final location of a request, in HandleRequest's switch over the
-- type, and the context of handler/request.go that it reads.
use redins.Prelude.{◌==◌, if◌then◌else◌, ℤ, Text, ℕ, Bool, Option, none, some, List, [], ◌∷◌}
use redins.Records.{Ip, RrSets, AnameRecord}
use redins.Zone.{Zone}
use redins.Answers.{
  a_answers, aaaa_answers, cname_answers, txt_answers, ns_answers, mx_answers, srv_answers,
  caa_answers, ptr_answers, tlsa_answers,
}
use redins.Message.{
  Rr, RrType, type_a, type_aaaa, type_cname, type_txt, type_ns, type_mx, type_srv, type_caa,
  type_ptr, type_tlsa, type_soa, type_dnskey,
}
use redins.Dnssec.{ZoneKeys, ZoneKey, SetKey}
use redins.Backend.{Location, Backend, soa_of, rcode_success, rcode_not_implemented}
use redins.Aname.{Found, find_aname}
use redins.Caa.{find_caa}

-- RequestContext: what HandleRequest reads and writes of it. `do_bit` is Do().
pub record Context : Type 0 where
  pub raw_name : Text
  pub qtype : RrType
  pub source_ip : Ip
  pub do_bit : Bool
  pub auth : Bool
  pub answer : List Rr
  pub authority : List Rr
  pub additional : List Rr

-- What signing needs: the keys of the zones, the order in which a map is visited, and RRSIG.Sign.
pub record Signing : Type 0 where
  pub keys : Zone → ZoneKeys
  pub order : List (SetKey × List Rr) → List (SetKey × List Rr)
  pub crypto : ZoneKey → Rr → List Rr → Option Rr

module _ (b : Backend) (fqdn : Text → Text) (max_ttl : ℤ) (signing : Signing) where
  -- The answer to the final location and the response code; the inner `none` is a type that is not
  -- implemented.
  abbrev pub Reply : Type 0
  Reply = Option (b.State × Option (List Rr) × ℕ)

  abbrev pub reply : b.State → List Rr → Reply
  reply s answer = some (s, some answer, rcode_success)

  abbrev pub set_a_ttl : RrSets → ℕ → RrSets
  set_a_ttl sets ttl = record sets { a = record (sets.a) { ttl = ttl } }

  abbrev pub set_aaaa_ttl : RrSets → ℕ → RrSets
  set_aaaa_ttl sets ttl = record sets { aaaa = record (sets.aaaa) { ttl = ttl } }

  unfoldable pub a_found : Text → RrSets → Option (b.State × Found) → Reply
  unfolding a_answers
  a_found qname sets none = none
  a_found qname sets (some (s, (ips, rcode, ttl))) =
      some (s, some (a_answers fqdn max_ttl qname (set_a_ttl sets ttl) ips), rcode)

  unfoldable pub aaaa_found : Text → RrSets → Option (b.State × Found) → Reply
  unfolding aaaa_answers
  aaaa_found qname sets none = none
  aaaa_found qname sets (some (s, (ips, rcode, ttl))) =
      some (s, some (aaaa_answers fqdn max_ttl qname (set_aaaa_ttl sets ttl) ips), rcode)

  abbrev pub a_filtered : Text → RrSets → b.State × Option (List Ip) → Reply
  a_filtered qname sets (s, none) = none
  a_filtered qname sets (s, some ips) = reply s (a_answers fqdn max_ttl qname sets ips)

  abbrev pub aaaa_filtered : Text → RrSets → b.State × Option (List Ip) → Reply
  aaaa_filtered qname sets (s, none) = none
  aaaa_filtered qname sets (s, some ips) = reply s (aaaa_answers fqdn max_ttl qname sets ips)

  abbrev pub caa_found : Text → Option (b.State × Option Location) → Reply
  caa_found qname none = none
  caa_found qname (some (s', none)) = reply s' []
  caa_found qname (some (s', some record')) =
      reply s' (caa_answers fqdn max_ttl qname record'.rrsets)

  -- The ANAME record is followed where the location has no address of the type.
  abbrev pub aname_if : {A : Type 0} → List A → Option AnameRecord → Option Text
  aname_if [] none = none
  aname_if [] (some aname) = some aname.location
  aname_if (x ∷ xs) aname = none

  unfoldable pub answer_a : b.State → Context → Text → Location → Reply
  unfolding a_found
  answer_a s c qname record' = elim (aname_if record'.rrsets.a.items record'.rrsets.aname) [
    | some aname ↦ a_found qname record'.rrsets (find_aname b c.source_ip type_a s aname)
    | none ↦ a_filtered qname record'.rrsets (b.filter s record'.name c.source_ip record'.rrsets.a)
  ]

  unfoldable pub answer_aaaa : b.State → Context → Text → Location → Reply
  unfolding aaaa_found
  answer_aaaa s c qname record' = elim (aname_if record'.rrsets.aaaa.items record'.rrsets.aname) [
    | some aname ↦ aaaa_found qname record'.rrsets (find_aname b c.source_ip type_aaaa s aname)
    | none ↦
        aaaa_filtered qname record'.rrsets (b.filter s record'.name c.source_ip record'.rrsets.aaaa)
  ]

  unfoldable pub dnskey_answers : Zone → List Rr
  dnskey_answers zone =
      if zone.config.dns_sec
      then (signing.keys zone).zsk.dns_key ∷ (signing.keys zone).ksk.dns_key ∷ []
      else []

  -- The switch over the type of the query, at the final location.
  unfoldable pub answer_for : Zone → b.State → Context → Text → Location → Reply
  unfolding answer_a answer_aaaa dnskey_answers
  answer_for zone s c qname record' =
      let t = c.qtype in
      let sets = record'.rrsets in
      if t == type_a
      then answer_a s c qname record'
      else if t == type_aaaa
      then answer_aaaa s c qname record'
      else if t == type_cname
      then reply s (cname_answers fqdn max_ttl qname sets)
      else if t == type_txt
      then reply s (txt_answers fqdn max_ttl qname sets)
      else if t == type_ns
      then reply s (ns_answers fqdn max_ttl qname sets)
      else if t == type_mx
      then reply s (mx_answers fqdn max_ttl qname sets)
      else if t == type_srv
      then reply s (srv_answers fqdn max_ttl qname sets)
      else if t == type_caa
      then caa_found qname (find_caa b zone s record')
      else if t == type_ptr
      then reply s (ptr_answers fqdn max_ttl qname sets)
      else if t == type_tlsa
      then reply s (tlsa_answers fqdn max_ttl qname sets)
      else if t == type_soa
      then reply s (soa_of zone)
      else if t == type_dnskey
      then reply s (dnskey_answers zone)
      else some (s, none, rcode_not_implemented)
