-- ===== src/Request/Loop.antt =====
-- handler/handler.go: the loop of HandleRequest follows a chain of CNAME records.
use redins.Prelude.{
  ◌==◌, if◌then◌else◌, Bool-cases, Option-cases, ℤ, Text, text_eq, ℕ, zero, suc, ◌≡◌, refl, sym,
  ◌∙◌, subst, ◌≢◌, ◌⊎◌, inl, inr, Bool, true, false, not, ◌&&◌, Option, none, some, List, [], ◌++◌,
}
use mathlib.Core.Bool.{false≢true}
use redins.Records.{RrSets, CnameRrset}
use redins.Zone.{Zone, Match, no_match, exact_match, wildcard_match}
use redins.Answers.{empty, cname_answers, ns_answers}
use redins.Message.{Rr, type_cname, type_soa, type_dnskey}
use redins.Backend.{Panics, Location, Backend, locate, rcode_success}
use redins.Request.Aliases.{IsCode}
use redins.Request.Replies.{answer_for-Replied}
use redins.Request.Chain.{
  SameRequest, Grows-same, Followed, finish-Followed, delegated-Followed, linked-Followed,
  Followed-other, Followed-rename, add_glue-SameAnswer, Chain,
}
use redins.Reply.{Context, Signing, answer_for}
use redins.Request.{finish, add_glue, delegated, at_location, loaded, at_match, follow}

module _ (b : Backend) (P : Type 0) (panics : Panics b P) (fqdn : Text → Text) (max_ttl : ℤ)
    (signing : Signing) where
  abbrev Result : Type 0
  Result = Option (b.State × Context × ℕ)

  module _ (zone_name : Text) (zone : Zone) (other : Type 0)
      (flat : zone.config.cname_flattening ≡ true → other) where
    module _ (next : b.State → Context → Text → Result) where
      alias-Followed :
          (qname : Text) (s : b.State) (c : Context) (sets : RrSets) (cname : CnameRrset)
          → sets.cname ≡ some cname
          → ((s : b.State) (d : Context) (name : Text)
              → SameRequest c d
              → Followed b P panics fqdn max_ttl signing other name d (next s d name))
          → Followed b P panics fqdn max_ttl signing other qname c
              (elim zone.config.cname_flattening [
                | false ↦
                    next s
                      (record c { answer = c.answer ++ cname_answers fqdn max_ttl qname sets })
                      (fqdn cname.host)
                | true ↦ elim (text_eq (b.find_zone cname.host) zone_name) [
                  | false ↦ some (
                    s,
                    record c { answer = c.answer ++ cname_answers fqdn max_ttl c.raw_name sets },
                    rcode_success,
                  )
                  | true ↦ next s c (fqdn cname.host)
                ]
              ])
      alias-Followed qname s c sets cname e rest = elim (Bool-cases zone.config.cname_flattening) [
        | inr linked ↦ rw linked (
            linked-Followed b P panics fqdn max_ttl signing other qname sets cname c _ e
              (rest s _ (fqdn cname.host) (refl, refl, refl, refl, refl)))
        | inl flattened ↦
            rw flattened (elim (Bool-cases (text_eq (b.find_zone cname.host) zone_name)) [
              | inr outside ↦
                  rw outside (refl, (refl, refl, refl, refl, refl), inl (flat flattened))
              | inl inside ↦ rw inside (
                  Followed-other b P panics fqdn max_ttl signing other (fqdn cname.host) qname c _
                    (flat flattened) (rest s c (fqdn cname.host) (refl, refl, refl, refl, refl)))
            ])
      ]

      module _ (c : Context) (soa : c.qtype ≡ type_soa → other)
          (dnskey : c.qtype ≡ type_dnskey → other)
          (rest : (s : b.State) (d : Context) (name : Text)
            → SameRequest c d
            → Followed b P panics fqdn max_ttl signing other name d (next s d name)) where
        plain-Followed :
            (qname : Text) (s : b.State) (record' : Location)
            → Followed b P panics fqdn max_ttl signing other qname c
                (elim (not (empty record'.rrsets.ns.items) && not (text_eq qname zone.name)) [
                  | true ↦ delegated b fqdn max_ttl signing (
                      add_glue b fqdn max_ttl signing zone record'.rrsets.ns.items s (record c {
                        authority = c.authority ++ ns_answers fqdn max_ttl qname record'.rrsets;
                      }))
                  | false ↦
                      let name = if zone.config.cname_flattening then c.raw_name else qname in
                      finish b fqdn max_ttl signing zone c
                        (answer_for b fqdn max_ttl signing zone s c name record')
                ])
        plain-Followed qname s record' =
            elim (Bool-cases
              (not (empty record'.rrsets.ns.items) && not (text_eq qname zone.name))) [
                | inl delegation ↦ rw delegation (
                    delegated-Followed b P panics fqdn max_ttl signing other qname c
                      (record c {
                        authority = c.authority ++ ns_answers fqdn max_ttl qname record'.rrsets;
                      })
                      _ (refl, refl, refl, refl, refl) refl
                      (add_glue-SameAnswer b P panics fqdn max_ttl signing other zone
                        record'.rrsets.ns.items s _))
                | inr final ↦ rw final (elim (Bool-cases zone.config.cname_flattening) [
                  | inl flattened ↦
                      Followed-other b P panics fqdn max_ttl signing other name qname c _
                        (flat flattened) finished
                  | inr linked ↦
                      Followed-rename b P panics fqdn max_ttl signing other name qname c _
                        (rw linked refl) finished
                ])
              ]
          where
            name : Text
            name = if zone.config.cname_flattening then c.raw_name else qname

            finished : Followed b P panics fqdn max_ttl signing other name c (
                finish b fqdn max_ttl signing zone c
                  (answer_for b fqdn max_ttl signing zone s c name record'))
            finished = finish-Followed b P panics fqdn max_ttl signing other zone c name _ (
                answer_for-Replied b P panics fqdn max_ttl signing other name zone s c record' soa
                  dnskey)

        at_location-Followed :
            (qname : Text) (s : b.State) (record' : Location)
            → Followed b P panics fqdn max_ttl signing other qname c
                (at_location b fqdn max_ttl signing next zone_name zone qname s c record')
        unfolding at_location
        at_location-Followed qname s record' =
            elim (Option-cases (if c.qtype == type_cname then none else record'.rrsets.cname)) [
              | inl no_alias ↦ rw (no_alias, at_location) (plain-Followed qname s record')
              | inr (cname, alias) ↦
                  rw (alias, at_location)
                    (alias-Followed qname s c record'.rrsets cname
                      (present (c.qtype == type_cname) record'.rrsets.cname cname alias) rest)
            ]
          where
            present :
                (t : Bool) (o : Option CnameRrset) (cname : CnameRrset)
                → (if t then none else o) ≡ some cname
                → o ≡ some cname
            present true o cname e = absurd cc
            present false o cname e = e

        loaded-Followed :
            (qname : Text) (o : b.State × Option Location)
            → Followed b P panics fqdn max_ttl signing other qname c
                (loaded b fqdn max_ttl signing next zone_name zone qname c o)
        unfolding loaded
        loaded-Followed qname (s, none) =
            (refl, (refl, refl, refl, refl, refl), Grows-same other qname c)
        loaded-Followed qname (s, some record') = at_location-Followed qname s record'

        at_match-Followed :
            (qname : Text) (s : b.State) (found : Text × Match)
            → Followed b P panics fqdn max_ttl signing other qname c
                (at_match b fqdn max_ttl signing next zone_name zone qname s c found)
        unfolding at_match
        at_match-Followed qname s (location, no_match) =
            (refl, (refl, refl, refl, refl, refl), Grows-same other qname c)
        at_match-Followed qname s (location, exact_match) =
            loaded-Followed qname (b.load_location s location zone)
        at_match-Followed qname s (location, wildcard_match) =
            loaded-Followed qname (b.load_location s location zone)

    pub follow-Followed :
        (rounds : ℕ) (s : b.State) (c : Context) (qname : Text)
        → (c.qtype ≡ type_soa → other)
        → (c.qtype ≡ type_dnskey → other)
        → Followed b P panics fqdn max_ttl signing other qname c
            (follow b fqdn max_ttl signing zone_name zone rounds s c qname)
    unfolding follow
    follow-Followed zero s c qname soa dnskey =
        (refl, (refl, refl, refl, refl, refl), inr (inl refl))
    follow-Followed (suc rounds) s c qname soa dnskey =
        elim (Bool-cases (text_eq (b.find_zone qname) zone_name)) [
          | inr outside ↦
              rw (outside, follow) (refl, (refl, refl, refl, refl, refl), Grows-same other qname c)
          | inl inside ↦
              rw (inside, follow)
                (at_match-Followed (follow b fqdn max_ttl signing zone_name zone rounds) c soa
                  dnskey
                  (λ s' d name same.
                    follow-Followed rounds s' d name (λ e. soa (same.1 ∙ e))
                      (λ e. dnskey (same.1 ∙ e)))
                  qname s (locate zone qname))
        ]

-- Without flattening, what the loop of HandleRequest adds to the answer section for a query of a type
-- other than SOA and DNSKEY is a chain of CNAME records from the name, each for the target of the one
-- before, and then records of the last target; or the section is emptied. The request is not changed,
-- and the code is one of four.
pub follow-Chain :
    (b : Backend) (fqdn : Text → Text) (max_ttl : ℤ) (signing : Signing) (zone_name : Text)
    (zone : Zone) (rounds : ℕ) (s s' : b.State) (c d : Context) (qname : Text) (rcode : ℕ)
    → zone.config.cname_flattening ≡ false
    → c.qtype ≢ type_soa
    → c.qtype ≢ type_dnskey
    → follow b fqdn max_ttl signing zone_name zone rounds s c qname ≡ some (s', d, rcode)
    → IsCode rcode
      × SameRequest c d
      × ((d.answer ≡ []) ⊎ ((rrs : List Rr) × (d.answer ≡ c.answer ++ rrs) × Chain qname rrs))
follow-Chain b fqdn max_ttl signing zone_name zone rounds s s' c d qname rcode linked soa dnskey e =
    let (code, same, grows) =
      subst (Followed b Unit ((λ s n i r h. tt), (λ s z h. tt)) fqdn max_ttl signing ⊥ qname c) e (
        follow-Followed b Unit ((λ s n i r h. tt), (λ s z h. tt)) fqdn max_ttl signing zone_name
          zone ⊥ (λ h. false≢true (sym linked ∙ h)) rounds s c qname soa dnskey) in
    (code, same, elim grows [ inl o ↦ absurd o | inr g ↦ g ])
