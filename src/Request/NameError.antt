-- ===== src/Request/NameError.antt =====
-- handler/handler.go: HandleRequest answers that a name does not exist only for a reason.
use redins.Prelude.{
  ◌==◌, if◌then◌else◌, Bool-cases, Option-cases, ℤ, Text, text_eq, ℕ, zero, suc, ◌≡◌, refl, sym, ap,
  ◌∙◌, subst, inl, inr, Bool, true, false, not, ◌&&◌, Option, none, some, ◌++◌, arith,
}
use redins.Records.{RrSets, CnameRrset}
use redins.Zone.{Zone, Match, no_match, exact_match, wildcard_match}
use redins.Answers.{empty, cname_answers, ns_answers}
use redins.Message.{RrType, type_cname}
use redins.Backend.{
  Location, Backend, locate, rcode_success, rcode_server_failure, rcode_name_error, rcode_not_auth,
}
use redins.Reply.{Context, Signing, Reply, answer_for}
use redins.Request.{
  at_location, loaded, at_match, follow, secure, in_zone, handle_request, answer_request,
  after_signing, finish, delegated, add_glue,
}
use redins.Request.Missing.{
  Reason, missing, alias, Explains, Explained, Explained-map, success-Explains, Replies,
  answer_for-Replies,
}

module _ (b : Backend) (fqdn : Text → Text) (max_ttl : ℤ) (signing : Signing) where
  abbrev Result : Type 0
  Result = Option (b.State × Context × ℕ)

  module _ (zone_name : Text) (zone : Zone) (qtype : RrType) where
    abbrev For : b.State → Text → Type 0
    For = Reason b fqdn max_ttl signing zone qtype

    abbrev Fine : b.State → Text → Result → Type 0
    Fine s qname = Explained b fqdn max_ttl signing zone qtype (For s qname)

    module _ (reason : Type 0) where
      delegated-Explained :
          (o : Option (b.State × Context))
          → Explained b fqdn max_ttl signing zone qtype reason (delegated b fqdn max_ttl signing o)
      delegated-Explained none = tt
      delegated-Explained (some (s, c)) = success-Explains b fqdn max_ttl signing zone qtype reason

      finish-Explained :
          (c : Context) (o : Reply b fqdn max_ttl signing)
          → Replies b fqdn max_ttl signing zone qtype reason o
          → Explained b fqdn max_ttl signing zone qtype reason
              (finish b fqdn max_ttl signing zone c o)
      unfolding Replies
      finish-Explained c none h = tt
      finish-Explained c (some (s, none, rcode)) h = h
      finish-Explained c (some (s, some answer, rcode)) h = h

    module _ (next : b.State → Context → Text → Result)
        (rest : (s : b.State) (d : Context) (name : Text)
          → d.qtype ≡ qtype
          → Fine s name (next s d name))
        (start : b.State) (qname : Text) (c : Context) (same : c.qtype ≡ qtype) where
      module _ (s : b.State) (record' : Location)
          (there : b.load_location start (locate zone qname).0 zone ≡ (s, some record')) where
        followed :
            (cname : CnameRrset) (o : Result)
            → (qtype == type_cname) ≡ false
            → record'.rrsets.cname ≡ some cname
            → Fine s (fqdn cname.host) o
            → Fine start qname o
        followed cname o other e =
            Explained-map b fqdn max_ttl signing zone qtype (For s (fqdn cname.host))
              (For start qname) o (alias start s qname record' cname there other e)

        alias-Fine :
            (sets : RrSets) (cname : CnameRrset)
            → (qtype == type_cname) ≡ false
            → record'.rrsets.cname ≡ some cname
            → Fine start qname (elim zone.config.cname_flattening [
              | false ↦
                  next s
                    (record c { answer = c.answer ++ cname_answers fqdn max_ttl qname sets })
                    (fqdn cname.host)
              | true ↦ elim (text_eq (b.find_zone cname.host) zone_name) [
                | false ↦ some (
                  s,
                  record c { answer = c.answer ++ cname_answers fqdn max_ttl c.raw_name sets },
                  rcode_success,
                )
                | true ↦ next s c (fqdn cname.host)
              ]
            ])
        alias-Fine sets cname other e = elim (Bool-cases zone.config.cname_flattening) [
          | inr linked ↦ simp linked (followed cname _ other e (rest s _ (fqdn cname.host) same))
          | inl flattened ↦
              simp flattened (elim (Bool-cases (text_eq (b.find_zone cname.host) zone_name)) [
                | inr outside ↦
                    rw outside
                      (success-Explains b fqdn max_ttl signing zone qtype (For start qname))
                | inl inside ↦
                    rw inside (followed cname _ other e (rest s c (fqdn cname.host) same))
              ])
        ]

        plain-Fine :
            Fine start qname
              (elim (not (empty record'.rrsets.ns.items) && not (text_eq qname zone.name)) [
                | true ↦ delegated b fqdn max_ttl signing (
                    add_glue b fqdn max_ttl signing zone record'.rrsets.ns.items s (record c {
                      authority = c.authority ++ ns_answers fqdn max_ttl qname record'.rrsets;
                    }))
                | false ↦
                    let name = if zone.config.cname_flattening then c.raw_name else qname in
                    finish b fqdn max_ttl signing zone c
                      (answer_for b fqdn max_ttl signing zone s c name record')
              ])
        plain-Fine =
            elim (Bool-cases
              (not (empty record'.rrsets.ns.items) && not (text_eq qname zone.name))) [
                | inl delegation ↦ rw delegation (delegated-Explained (For start qname) _)
                | inr final ↦ rw final (
                    finish-Explained (For start qname) c _ (
                      answer_for-Replies b fqdn max_ttl signing zone qtype (For start qname) record'
                        s c _))
              ]

        at_location-Fine :
            Fine start qname
              (at_location b fqdn max_ttl signing next zone_name zone qname s c record')
        unfolding at_location
        at_location-Fine =
            elim (Option-cases (if c.qtype == type_cname then none else record'.rrsets.cname)) [
              | inl no_alias ↦ rw (no_alias, at_location) plain-Fine
              | inr (cname, e) ↦
                  let (other, present) =
                    given (c.qtype == type_cname) record'.rrsets.cname cname e in
                  rw (e, at_location)
                    (alias-Fine record'.rrsets cname (ap (λ q. q == type_cname) (sym same) ∙ other)
                      present)
            ]
          where
            given :
                (t : Bool) (o : Option CnameRrset) (cname : CnameRrset)
                → (if t then none else o) ≡ some cname
                → (t ≡ false) × (o ≡ some cname)
            given true o cname e = absurd cc
            given false o cname e = (refl, e)

      loaded-Fine :
          (o : b.State × Option Location)
          → b.load_location start (locate zone qname).0 zone ≡ o
          → Fine start qname (loaded b fqdn max_ttl signing next zone_name zone qname c o)
      unfolding loaded
      loaded-Fine (s, none) e = λ h. absurd (omega (arith, h))
      loaded-Fine (s, some record') e = at_location-Fine s record' e

      at_match-Fine :
          (found : Text × Match)
          → locate zone qname ≡ found
          → Fine start qname
              (at_match b fqdn max_ttl signing next zone_name zone qname start c found)
      unfolding at_match
      at_match-Fine (location, no_match) e =
          λ h. missing start qname (ap (λ (m : Text × Match). m.1) e)
      at_match-Fine (location, exact_match) e =
          loaded-Fine _ (ap (λ (m : Text × Match). b.load_location start m.0 zone) e)
      at_match-Fine (location, wildcard_match) e =
          loaded-Fine _ (ap (λ (m : Text × Match). b.load_location start m.0 zone) e)

    follow-Fine :
        (rounds : ℕ) (s : b.State) (c : Context) (qname : Text)
        → c.qtype ≡ qtype
        → Fine s qname (follow b fqdn max_ttl signing zone_name zone rounds s c qname)
    unfolding follow
    follow-Fine zero s c qname same = λ h. absurd (omega (arith, h))
    follow-Fine (suc rounds) s c qname same =
        elim (Bool-cases (text_eq (b.find_zone qname) zone_name)) [
          | inr outside ↦
              rw (outside, follow)
                (success-Explains b fqdn max_ttl signing zone qtype (For s qname))
          | inl inside ↦
              rw (inside, follow)
                (at_match-Fine (follow b fqdn max_ttl signing zone_name zone rounds)
                  (follow-Fine rounds) s qname c same (locate zone qname) refl)
        ]

  after_signing-Explained :
      (zone : Zone) (reason : Type 0) (qtype : RrType) (s : b.State) (rcode : ℕ)
      (o : Option Context)
      → Explains b fqdn max_ttl signing zone qtype reason rcode
      → Explained b fqdn max_ttl signing zone qtype reason
          (after_signing b fqdn max_ttl signing s rcode o)
  after_signing-Explained zone reason qtype s rcode none h = tt
  after_signing-Explained zone reason qtype s rcode (some c) h = h

  secure-name_error :
      (zone : Zone) (reason : Type 0) (qtype : RrType) (o : Result)
      → Explained b fqdn max_ttl signing zone qtype reason o
      → Explained b fqdn max_ttl signing zone qtype reason (secure b fqdn max_ttl signing zone o)
  unfolding secure
  secure-name_error zone reason qtype none h = tt
  secure-name_error zone reason qtype (some (s, c, rcode)) h =
      let success = success-Explains b fqdn max_ttl signing zone qtype reason in
      elim (Bool-cases (c.do_bit && c.auth && zone.config.dns_sec)) [
        | inr plain ↦ simp plain h
        | inl signed ↦ simp signed (elim (Bool-cases (rcode == rcode_success)) [
          | inl fine ↦ simp fine (after_signing-Explained zone reason qtype s rcode _ h)
          | inr failure ↦ simp failure (elim (Bool-cases (rcode == rcode_name_error)) [
            | inl denied ↦
                simp denied (after_signing-Explained zone reason qtype s rcode_success _ success)
            | inr other ↦ simp other (after_signing-Explained zone reason qtype s rcode _ h)
          ])
        ])
      ]

  abbrev code_of : Result → ℕ
  code_of none = 0
  code_of (some (s, d, rcode)) = rcode

  in_zone-Explained :
      (zone_name : Text) (c : Context) (o : Option (b.State × Option Zone)) (s' : b.State)
      (d : Context)
      → in_zone b fqdn max_ttl signing zone_name c o ≡ some (s', d, rcode_name_error)
      → (s : b.State) × (zone : Zone) × (o ≡ some (s, some zone))
        × Reason b fqdn max_ttl signing zone c.qtype s c.raw_name
  unfolding in_zone
  in_zone-Explained zone_name c none s' d e = absurd (cc)
  in_zone-Explained zone_name c (some (s, none)) s' d e =
      let same : rcode_server_failure ≡ rcode_name_error = ap code_of e in
      absurd (omega (arith, same))
  in_zone-Explained zone_name c (some (s, some zone)) s' d e = (
    s,
    zone,
    refl,
    subst
        (Explained b fqdn max_ttl signing zone c.qtype
          (Reason b fqdn max_ttl signing zone c.qtype s c.raw_name))
        e
        (secure-name_error zone _ c.qtype _
          (follow-Fine zone_name zone c.qtype 11 s c c.raw_name refl))
        refl,
  )

  answer_request-name_error :
      (s s' : b.State) (c d : Context)
      → answer_request b fqdn max_ttl signing s c ≡ some (s', d, rcode_name_error)
      → (start : b.State) × (zone : Zone) × (b.load_zone s (b.find_zone c.raw_name)
          ≡ some (start, some zone))
        × Reason b fqdn max_ttl signing zone c.qtype start c.raw_name
  unfolding answer_request
  answer_request-name_error s s' c d e = elim (Bool-cases (empty (b.find_zone c.raw_name))) [
    | inl nowhere ↦
        let same : rcode_not_auth ≡ rcode_name_error =
          ap code_of (rw (nowhere, answer_request) at e) in
        absurd (omega (arith, same))
    | inr somewhere ↦
        in_zone-Explained (b.find_zone c.raw_name) c (b.load_zone s (b.find_zone c.raw_name)) s' d
          (rw (somewhere, answer_request) at e)
  ]

  -- HandleRequest answers that a name does not exist only within a zone that it has loaded, and for a
  -- reason, from the state after this load: no location of the zone matches the name, and no wildcard;
  -- or, for a type other than CNAME, the record that is loaded for it has a CNAME record, to a name for
  -- which there is such a reason in the state after. An ANAME record is no reason, whatever the other
  -- servers answer.
  pub handle_request-name_error :
      (s s' : b.State) (c d : Context)
      → handle_request b fqdn max_ttl signing s c ≡ some (s', d, rcode_name_error)
      → (start : b.State) × (zone : Zone) × (b.load_zone s (b.find_zone c.raw_name)
          ≡ some (start, some zone))
        × Reason b fqdn max_ttl signing zone c.qtype start c.raw_name
  unfolding handle_request
  handle_request-name_error s s' c d e = elim (Option-cases (b.log_source c.source_ip)) [
    | inl panic ↦
        let none' : ◌≡◌ {A = Result} none (some (s', d, rcode_name_error)) =
          rw (panic, handle_request) at e in
        absurd (cc)
    | inr (_, logged) ↦ answer_request-name_error s s' c d (rw (logged, handle_request) at e)
  ]
