-- ===== src/Request.antt =====
-- handler/handler.go: the handling of a request (HandleRequest).
pub mod Aliases
pub mod Replies
pub mod Chain
pub mod Loop
pub mod Missing
pub mod NameError
pub mod Response
pub mod Cycle
use redins.Prelude.{
  ◌==◌, if◌then◌else◌, ℤ, Text, text_eq, ℕ, zero, suc, true, false, not, ◌&&◌, Option, none, some,
  List, [], ◌∷◌, ◌++◌,
}
use redins.Records.{Ip, NsRr}
use redins.Zone.{Zone, Match, no_match}
use redins.Answers.{empty, a_answers, aaaa_answers, cname_answers, ns_answers}
use redins.Message.{Rr, type_cname}
use redins.Dnssec.{sign, nsec}
use redins.Backend.{
  Location, Backend, locate, soa_of, rcode_success, rcode_server_failure, rcode_name_error,
  rcode_not_auth,
}
use redins.Reply.{Context, Signing, Reply, answer_for}

module _ (b : Backend) (fqdn : Text → Text) (max_ttl : ℤ) (signing : Signing) where
  -- The state, the context and the response code; `none` is a panic.
  abbrev pub Result : Type 0
  Result = Option (b.State × Context × ℕ)

  abbrev pub finish : Zone → Context → Reply b fqdn max_ttl signing → Result
  finish zone c none = none
  finish zone c (some (s, none, rcode)) =
      some (s, record c { answer = []; authority = soa_of zone }, rcode)
  finish zone c (some (s, some answer, rcode)) = some (
    s,
    record c {
      answer = c.answer ++ answer;
      authority = if empty answer && rcode == rcode_success then soa_of zone else c.authority;
    },
    rcode,
  )

  -- The glue of one name server: a location that is not loaded has none.
  abbrev pub glue_aaaa :
      Text → Context → Location → b.State × Option (List Ip) → Option (b.State × Context)
  glue_aaaa host c glue (s, none) = none
  glue_aaaa host c glue (s, some ips) =
      some (
        s,
        record c { additional = c.additional ++ aaaa_answers fqdn max_ttl host glue.rrsets ips },
      )

  abbrev pub glue_a :
      Text → Context → Location → b.State × Option (List Ip) → Option (b.State × Context)
  glue_a host c glue (s, none) = none
  glue_a host c glue (s, some ips) =
      glue_aaaa host
        (record c { additional = c.additional ++ a_answers fqdn max_ttl host glue.rrsets ips }) glue
        (b.filter s glue.name c.source_ip glue.rrsets.aaaa)

  abbrev pub glue_loaded : Text → Context → b.State × Option Location → Option (b.State × Context)
  glue_loaded host c (s, none) = some (s, c)
  glue_loaded host c (s, some glue) =
      glue_a host c glue (b.filter s glue.name c.source_ip glue.rrsets.a)

  abbrev pub glue_at : Zone → Text → b.State → Context → Text × Match → Option (b.State × Context)
  glue_at zone host s c (location, no_match) = some (s, c)
  glue_at zone host s c (location, _) = glue_loaded host c (b.load_location s location zone)

  unfoldable pub add_glue : Zone → List NsRr → b.State → Context → Option (b.State × Context)
  add_glue zone [] s c = some (s, c)
  add_glue zone (ns ∷ nss) s c = elim (glue_at zone ns.host s c (locate zone ns.host)) [
    | none ↦ none
    | some (s', c') ↦ add_glue zone nss s' c'
  ]

  abbrev pub delegated : Option (b.State × Context) → Result
  delegated none = none
  delegated (some (s, c)) = some (s, c, rcode_success)

  -- What is done with a location that is loaded, with the loop's next round.
  unfoldable pub at_location :
      (b.State → Context → Text → Result)
      → Text
      → Zone
      → Text
      → b.State
      → Context
      → Location
      → Result
  unfolding add_glue answer_for
  at_location next zone_name zone qname s c record' =
      let sets = record'.rrsets in
      elim (if c.qtype == type_cname then none else sets.cname) [
        | some cname ↦ elim zone.config.cname_flattening [
          | false ↦
              next s (record c { answer = c.answer ++ cname_answers fqdn max_ttl qname sets })
                (fqdn cname.host)
          | true ↦ elim (text_eq (b.find_zone cname.host) zone_name) [
            | false ↦ some (
              s,
              record c { answer = c.answer ++ cname_answers fqdn max_ttl c.raw_name sets },
              rcode_success,
            )
            | true ↦ next s c (fqdn cname.host)
          ]
        ]
        | none ↦ elim (not (empty sets.ns.items) && not (text_eq qname zone.name)) [
          | true ↦ delegated (
              add_glue zone sets.ns.items s
                (record c { authority = c.authority ++ ns_answers fqdn max_ttl qname sets }))
          | false ↦
              let name = if zone.config.cname_flattening then c.raw_name else qname in
              finish zone c (answer_for b fqdn max_ttl signing zone s c name record')
        ]
      ]

  unfoldable pub loaded :
      (b.State → Context → Text → Result)
      → Text
      → Zone
      → Text
      → Context
      → b.State × Option Location
      → Result
  unfolding at_location
  loaded next zone_name zone qname c (s, none) = some (s, c, rcode_server_failure)
  loaded next zone_name zone qname c (s, some record') =
      at_location next zone_name zone qname s c record'

  unfoldable pub at_match :
      (b.State → Context → Text → Result)
      → Text
      → Zone
      → Text
      → b.State
      → Context
      → Text × Match
      → Result
  unfolding loaded
  at_match next zone_name zone qname s c (location, no_match) =
      some (s, record c { authority = soa_of zone }, rcode_name_error)
  at_match next zone_name zone qname s c (location, _) =
      loaded next zone_name zone qname c (b.load_location s location zone)

  -- The loop with the rounds that are left: the round of the count 11 gives up.
  unfoldable pub follow : Text → Zone → ℕ → b.State → Context → Text → Result
  unfolding at_match
  follow zone_name zone zero s c qname = some (s, record c { answer = [] }, rcode_server_failure)
  follow zone_name zone (suc rounds) s c qname = elim (text_eq (b.find_zone qname) zone_name) [
    | false ↦ some (s, c, rcode_success)
    | true ↦ at_match (follow zone_name zone rounds) zone_name zone qname s c (locate zone qname)
  ]

  abbrev pub with_signed :
      Context → Option (List Rr) → Option (List Rr) → Option (List Rr) → Option Context
  with_signed c (some answer) (some authority) (some additional) =
      some (record c { answer = answer; authority = authority; additional = additional })
  with_signed c none _ _ = none
  with_signed c (some answer) none _ = none
  with_signed c (some answer) (some authority) none = none

  -- The three calls of Sign; `none` is a panic.
  unfoldable pub sign_all : Zone → Context → Option Context
  sign_all zone c =
      let signed : List Rr → Option (List Rr) =
        λ rrs. sign signing.crypto signing.order rrs c.raw_name (signing.keys zone) in
      with_signed c (signed c.answer) (signed c.authority) (signed c.additional)

  abbrev pub after_signing : b.State → ℕ → Option Context → Result
  after_signing s rcode none = none
  after_signing s rcode (some c) = some (s, c, rcode)

  -- The denial and the signatures.
  unfoldable pub secure : Zone → Result → Result
  unfolding sign_all
  secure zone none = none
  secure zone (some (s, c, rcode)) =
      let denied = record c { authority = c.authority ++ nsec c.raw_name zone ∷ [] } in
      if c.do_bit && c.auth && zone.config.dns_sec
      then if rcode == rcode_success
        then after_signing s rcode (sign_all zone (if empty c.answer then denied else c))
        else if rcode == rcode_name_error
        then after_signing s rcode_success (sign_all zone denied)
        else after_signing s rcode (sign_all zone c)
      else some (s, c, rcode)

  unfoldable pub in_zone : Text → Context → Option (b.State × Option Zone) → Result
  unfolding follow secure
  in_zone zone_name c none = none
  in_zone zone_name c (some (s, none)) = some (s, c, rcode_server_failure)
  in_zone zone_name c (some (s, some zone)) = secure zone (follow zone_name zone 11 s c c.raw_name)

  -- HandleRequest after the lookups of the source. Response writes the context and the code.
  unfoldable pub answer_request : b.State → Context → Result
  unfolding in_zone
  answer_request s c =
      let zone_name = b.find_zone c.raw_name in
      elim (empty zone_name) [
        | true ↦ some (s, c, rcode_not_auth)
        | false ↦ in_zone zone_name c (b.load_zone s zone_name)
      ]

  -- HandleRequest, but for what it puts into the entry of the log.
  unfoldable pub handle_request : b.State → Context → Result
  unfolding answer_request
  handle_request s c = elim (b.log_source c.source_ip) [ none ↦ none | some _ ↦ answer_request s c ]
