-- ===== src/Request/Cycle.antt =====
-- handler/handler.go: a loop of CNAME records is given up.
use redins.Prelude.{
  ◌==◌, Bool-cases, ℤ, Text, text_eq, ℕ, zero, suc, ◌≡◌, refl, sym, subst, ◌⊎◌, inl, inr, true,
  false, ◌&&◌, Option, none, some, [],
}
use redins.Records.{CnameRrset}
use redins.Zone.{Zone, Match, exact_match, wildcard_match}
use redins.Message.{type_cname}
use redins.Answers.{empty}
use redins.Dnssec.{sign, sign_sets, split_sets}
use redins.Dnssec.Fitting.{Fits, sign-Is}
use redins.Backend.{Location, Backend, locate, rcode_server_failure, rcode_not_auth}
use redins.Reply.{Context, Signing}
use redins.Request.{
  at_location, loaded, at_match, follow, secure, in_zone, answer_request, handle_request, sign_all,
  after_signing,
}

module _ (b : Backend) (fqdn : Text → Text) (max_ttl : ℤ) (signing : Signing) (zone_name : Text)
    (zone : Zone) where
  -- A name whose location, in this state, has a CNAME record to a name of the zone; the fully qualified
  -- target is of the set again, and the state after is a good one.
  pub record IsAlias (InCycle : Text → Type 0) (Good : b.State → Type 0) (s : b.State)
      (qname : Text) : Type 0 where
    pub inside : text_eq (b.find_zone qname) zone_name ≡ true
    pub place : Text
    pub found :
        (locate zone qname ≡ (place, exact_match)) ⊎ (locate zone qname ≡ (place, wildcard_match))
    pub record' : Location
    pub state : b.State
    pub loads : b.load_location s place zone ≡ (state, some record')
    pub cname : CnameRrset
    pub alias : record'.rrsets.cname ≡ some cname
    pub target_inside : text_eq (b.find_zone cname.host) zone_name ≡ true
    pub again : InCycle (fqdn cname.host)
    pub good : Good state

  abbrev pub GivesUp : Option (b.State × Context × ℕ) → Type 0
  GivesUp o =
      (s : b.State) × (d : Context) × (o ≡ some (s, d, rcode_server_failure)) × (d.answer ≡ [])

  module _ (next : b.State → Context → Text → Option (b.State × Context × ℕ)) where
    at_location-GivesUp :
        (s : b.State) (c : Context) (qname : Text) (record' : Location) (cname : CnameRrset)
        → (c.qtype == type_cname) ≡ false
        → record'.rrsets.cname ≡ some cname
        → text_eq (b.find_zone cname.host) zone_name ≡ true
        → ((d : Context) → d.qtype ≡ c.qtype → GivesUp (next s d (fqdn cname.host)))
        → GivesUp (at_location b fqdn max_ttl signing next zone_name zone qname s c record')
    unfolding at_location
    at_location-GivesUp s c qname record' cname other alias inside rest =
        simp (other, alias, at_location)
          (elim (Bool-cases zone.config.cname_flattening) [
            | inl flattened ↦ simp (flattened, inside) (rest c refl)
            | inr linked ↦ simp linked (rest _ refl)
          ])

    at_match-GivesUp :
        (InCycle : Text → Type 0) (Good : b.State → Type 0) (s : b.State) (c : Context)
        (qname : Text) (a : IsAlias InCycle Good s qname)
        → (c.qtype == type_cname) ≡ false
        → ((d : Context) → d.qtype ≡ c.qtype → GivesUp (next a.state d (fqdn a.cname.host)))
        → GivesUp
            (at_match b fqdn max_ttl signing next zone_name zone qname s c (locate zone qname))
    unfolding at_match loaded
    at_match-GivesUp InCycle Good s c qname a other rest = elim (a.found) [
      | inl exact ↦ subst at_found (sym exact) (subst is_loaded (sym a.loads) there)
      | inr wild ↦ subst at_found (sym wild) (subst is_loaded (sym a.loads) there)
    ]
      where
        at_found : Text × Match → Type 0
        at_found found =
            GivesUp (at_match b fqdn max_ttl signing next zone_name zone qname s c found)

        is_loaded : b.State × Option Location → Type 0
        is_loaded o = GivesUp (loaded b fqdn max_ttl signing next zone_name zone qname c o)

        there :
            GivesUp
              (at_location b fqdn max_ttl signing next zone_name zone qname a.state c a.record')
        there =
            at_location-GivesUp a.state c qname a.record' a.cname other a.alias a.target_inside rest

  -- Names and states of the handler, of which each name has, in each of the states, a CNAME record to
  -- another of the names.
  abbrev pub IsClosed : (Text → Type 0) → (b.State → Type 0) → Type 0
  IsClosed InCycle Good =
      (s : b.State) (qname : Text) → Good s → InCycle qname → IsAlias InCycle Good s qname

  follow-GivesUp :
      (InCycle : Text → Type 0) (Good : b.State → Type 0) (closed : IsClosed InCycle Good)
      (rounds : ℕ) (s : b.State) (c : Context) (qname : Text)
      → (c.qtype == type_cname) ≡ false
      → Good s
      → InCycle qname
      → GivesUp (follow b fqdn max_ttl signing zone_name zone rounds s c qname)
  unfolding follow
  follow-GivesUp InCycle Good closed zero s c qname other good inside = (s, _, refl, refl)
  follow-GivesUp InCycle Good closed (suc rounds) s c qname other good inside =
      let a = closed s qname good inside in
      rw (a.inside, follow)
        (at_match-GivesUp (follow b fqdn max_ttl signing zone_name zone rounds) InCycle Good s c
          qname a other
          (λ d e.
            follow-GivesUp InCycle Good closed rounds a.state d (fqdn a.cname.host) (rw e other)
              a.good a.again))

  -- Sign of no records gives none.
  sign_none :
      (qname : Text)
      → signing.order [] ≡ []
      → sign signing.crypto signing.order [] qname (signing.keys zone) ≡ some []
  unfolding sign split_sets sign_sets redins.Dnssec.add_records
  sign_none qname e = rw e refl

  sign_all-GivesUp :
      (s : b.State) (c : Context)
      → Fits (signing.keys zone).zsk
      → signing.order [] ≡ []
      → c.answer ≡ []
      → GivesUp (
          after_signing b fqdn max_ttl signing s rcode_server_failure
            (sign_all b fqdn max_ttl signing zone c))
  unfolding sign_all
  sign_all-GivesUp s c fitting nothing e =
      let signs = sign-Is signing.crypto c.raw_name (signing.keys zone) fitting signing.order in
      let (authority, e1) = signs c.authority in
      let (additional, e2) = signs c.additional in
      rw (e, sign_none c.raw_name nothing, e1, e2) (s, _, refl, refl)

  secure-GivesUp :
      (o : Option (b.State × Context × ℕ))
      → Fits (signing.keys zone).zsk
      → signing.order [] ≡ []
      → GivesUp o
      → GivesUp (secure b fqdn max_ttl signing zone o)
  unfolding secure
  secure-GivesUp none fitting nothing (s, d, e, empty') = absurd (cc)
  secure-GivesUp (some (s', c', rcode')) fitting nothing (s, c, same, empty') =
      subst (λ (o : Option (b.State × Context × ℕ)). GivesUp (secure b fqdn max_ttl signing zone o))
        (sym same)
        (elim (Bool-cases (c.do_bit && c.auth && zone.config.dns_sec)) [
          | inl signed ↦ simp signed (sign_all-GivesUp s c fitting nothing empty')
          | inr plain ↦ simp plain (s, c, refl, empty')
        ])

  -- HandleRequest answers a query, of a type other than CNAME, for one of a set of names that each
  -- have a CNAME record to another of the set, in the zone, by a server failure with an empty
  -- answer section, also where the zone is signed. The records of the names are as the caches and
  -- redis give them in each of a set of states, that of the query's start after the load of the
  -- zone and with each state that after the load of a record; the lookups of the source do not
  -- panic, the key that signs has a private key of its algorithm's type, and a range over an empty
  -- map visits nothing.
  pub handle_request-cycle :
      (InCycle : Text → Type 0) (Good : b.State → Type 0)
      → IsClosed InCycle Good
      → Fits (signing.keys zone).zsk
      → signing.order [] ≡ []
      → (s start : b.State) (c : Context) → b.log_source c.source_ip ≡ some tt
      → b.find_zone c.raw_name ≡ zone_name
      → empty zone_name ≡ false
      → b.load_zone s zone_name ≡ some (start, some zone)
      → Good start
      → InCycle c.raw_name
      → (c.qtype == type_cname) ≡ false
      → GivesUp (handle_request b fqdn max_ttl signing s c)
  unfolding handle_request answer_request in_zone
  handle_request-cycle InCycle Good closed fitting nothing s start c logged within zoned load good
        inside other =
      rw (logged, handle_request, answer_request)
        (subst answered (sym within) (
          rw (zoned, load)
            (secure-GivesUp (follow b fqdn max_ttl signing zone_name zone 11 start c c.raw_name)
              fitting nothing
              (follow-GivesUp InCycle Good closed 11 start c c.raw_name other good inside))))
    where
      answered : Text → Type 0
      answered name = GivesUp (elim (empty name) [
        | true ↦ some (s, c, rcode_not_auth)
        | false ↦ in_zone b fqdn max_ttl signing name c (b.load_zone s name)
      ])
