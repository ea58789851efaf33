-- ===== src/Request/Replies.antt =====
-- handler/handler.go: what the answer to the final location has in common for all types.
use redins.Prelude.{
  if◌then◌else◌, ==_iff, Option-cases, ℤ, All, Text, ℕ, ◌≡◌, refl, ◌⊎◌, inl, inr, Bool, true, false,
  Option, none, some, List, [], ◌∷◌,
}
use redins.Records.{Ip, RrSets}
use redins.Zone.{Zone}
use redins.Answers.{a_answers, aaaa_answers, cname_answers, ptr_answers}
use redins.Answers.Shape.{HasHeader, answers_header}
use redins.Message.{Rr, RrType, type_a, type_aaaa, type_soa, type_dnskey}
use redins.Backend.{Panics, Location, Backend, rcode_not_implemented}
use redins.Aname.{Found}
use redins.Caa.Ends.{find_caa_lem}
use redins.Request.Aliases.{IsAnameCode-IsCode, IsCode, Fine, find_aname-Fine}
use redins.Reply.{
  Context, Signing, Reply, reply, a_found, aaaa_found, a_filtered, aaaa_filtered, caa_found,
  aname_if, answer_a, answer_aaaa, answer_for, set_a_ttl, set_aaaa_ttl,
}

-- The records are those of `qname`.
abbrev pub Owned : Text → List Rr → Type 0
Owned qname = All (λ r. r.hdr.name ≡ qname)

Owned-header :
    (qname : Text) (t : RrType) (ttl : ℕ) (rrs : List Rr)
    → All (HasHeader qname t ttl) rrs
    → Owned qname rrs
Owned-header qname t ttl [] h = tt
Owned-header qname t ttl (r ∷ rrs) h = (h.0.0, Owned-header qname t ttl rrs h.1)

module _ (b : Backend) (P : Type 0) (panics : Panics b P) (fqdn : Text → Text) (max_ttl : ℤ)
    (signing : Signing) where
  -- A reply has a known code, and answers for the name where `other` does not hold.
  unfoldable pub Replied : Type 0 → Text → Reply b fqdn max_ttl signing → Type 0
  Replied other qname none = P
  Replied other qname (some (s, none, rcode)) = IsCode rcode
  Replied other qname (some (s, some answer, rcode)) = IsCode rcode × (other ⊎ Owned qname answer)

  module _ (other : Type 0) (qname : Text) where
    a-Owned : (sets : RrSets) (ips : List Ip) → Owned qname (a_answers fqdn max_ttl qname sets ips)
    a-Owned sets ips = Owned-header qname _ _ _ (answers_header fqdn max_ttl qname sets ips).0

    aaaa-Owned :
        (sets : RrSets) (ips : List Ip) → Owned qname (aaaa_answers fqdn max_ttl qname sets ips)
    aaaa-Owned sets ips = Owned-header qname _ _ _ (answers_header fqdn max_ttl qname sets ips).1

    a_found-Replied :
        (source : Ip) (sets : RrSets) (o : Option (b.State × Found))
        → Fine b P panics source type_a o
        → Replied other qname (a_found b fqdn max_ttl signing qname sets o)
    unfolding a_found Replied
    a_found-Replied source sets none h = h
    a_found-Replied source sets (some (s, (ips, rcode, ttl))) h =
        (IsAnameCode-IsCode rcode h, inr (a-Owned (set_a_ttl b fqdn max_ttl signing sets ttl) ips))

    aaaa_found-Replied :
        (source : Ip) (sets : RrSets) (o : Option (b.State × Found))
        → Fine b P panics source type_aaaa o
        → Replied other qname (aaaa_found b fqdn max_ttl signing qname sets o)
    unfolding aaaa_found Replied
    aaaa_found-Replied source sets none h = h
    aaaa_found-Replied source sets (some (s, (ips, rcode, ttl))) h = (
      IsAnameCode-IsCode rcode h,
      inr (aaaa-Owned (set_aaaa_ttl b fqdn max_ttl signing sets ttl) ips),
    )

    a_filtered-Replied :
        (sets : RrSets) (o : b.State × Option (List Ip))
        → (o.1 ≡ none → P)
        → Replied other qname (a_filtered b fqdn max_ttl signing qname sets o)
    unfolding Replied
    a_filtered-Replied sets (s, none) h = h refl
    a_filtered-Replied sets (s, some ips) h = (refl, inr (a-Owned sets ips))

    aaaa_filtered-Replied :
        (sets : RrSets) (o : b.State × Option (List Ip))
        → (o.1 ≡ none → P)
        → Replied other qname (aaaa_filtered b fqdn max_ttl signing qname sets o)
    unfolding Replied
    aaaa_filtered-Replied sets (s, none) h = h refl
    aaaa_filtered-Replied sets (s, some ips) h = (refl, inr (aaaa-Owned sets ips))

    answer_a-Replied :
        (s : b.State) (c : Context) (record' : Location)
        → Replied other qname (answer_a b fqdn max_ttl signing s c qname record')
    unfolding answer_a
    answer_a-Replied s c record' =
        elim (Option-cases
          (aname_if b fqdn max_ttl signing record'.rrsets.a.items record'.rrsets.aname)) [
            | inr (aname, e) ↦
                rw (e, answer_a)
                  (a_found-Replied c.source_ip record'.rrsets _
                    (find_aname-Fine b P panics c.source_ip type_a s aname))
            | inl e ↦
                rw (e, answer_a)
                  (a_filtered-Replied record'.rrsets _
                    (panics.0 s record'.name c.source_ip record'.rrsets.a))
          ]

    answer_aaaa-Replied :
        (s : b.State) (c : Context) (record' : Location)
        → Replied other qname (answer_aaaa b fqdn max_ttl signing s c qname record')
    unfolding answer_aaaa
    answer_aaaa-Replied s c record' =
        elim (Option-cases
          (aname_if b fqdn max_ttl signing record'.rrsets.aaaa.items record'.rrsets.aname)) [
            | inr (aname, e) ↦
                rw (e, answer_aaaa)
                  (aaaa_found-Replied c.source_ip record'.rrsets _
                    (find_aname-Fine b P panics c.source_ip type_aaaa s aname))
            | inl e ↦
                rw (e, answer_aaaa)
                  (aaaa_filtered-Replied record'.rrsets _
                    (panics.0 s record'.name c.source_ip record'.rrsets.aaaa))
          ]

    reply-Replied :
        (s : b.State) (rrs : List Rr)
        → Owned qname rrs
        → Replied other qname (reply b fqdn max_ttl signing s rrs)
    unfolding Replied
    reply-Replied s rrs h = (refl, inr h)

    cname-Owned : (sets : RrSets) → Owned qname (cname_answers fqdn max_ttl qname sets)
    unfolding cname_answers
    cname-Owned sets = elim (Option-cases sets.cname) [
      | inl e ↦ rw (e, cname_answers) tt
      | inr (cname, e) ↦
          Owned-header qname _ _ _ ((answers_header fqdn max_ttl qname sets []).2 cname e)
    ]

    ptr-Owned : (sets : RrSets) → Owned qname (ptr_answers fqdn max_ttl qname sets)
    unfolding ptr_answers
    ptr-Owned sets = elim (Option-cases sets.ptr) [
      | inl e ↦ rw (e, ptr_answers) tt
      | inr (ptr, e) ↦
          Owned-header qname _ _ _ ((answers_header fqdn max_ttl qname sets []).8 ptr e)
    ]

    caa_found-Replied :
        (o : Option (b.State × Option Location)) (r : b.State × Option Location)
        → o ≡ some r
        → Replied other qname (caa_found b fqdn max_ttl signing qname o)
    unfolding Replied
    caa_found-Replied none r e = absurd (cc)
    caa_found-Replied (some (s, none)) r e = (refl, inr tt)
    caa_found-Replied (some (s, some record')) r e = (
      refl,
      inr (Owned-header qname _ _ _ (answers_header fqdn max_ttl qname record'.rrsets []).7),
    )

    allowed-Replied :
        (s : b.State) (rrs : List Rr)
        → other
        → Replied other qname (reply b fqdn max_ttl signing s rrs)
    unfolding Replied
    allowed-Replied s rrs h = (refl, inl h)

    unknown-Replied : (s : b.State) → Replied other qname (some (s, none, rcode_not_implemented))
    unfolding Replied
    unknown-Replied s = refl

    if-Replied :
        (test : Bool) (x y : Reply b fqdn max_ttl signing)
        → (test ≡ true → Replied other qname x)
        → Replied other qname y
        → Replied other qname (if test then x else y)
    if-Replied true x y h k = h refl
    if-Replied false x y h k = k

    reply-header :
        (t : RrType) (ttl : ℕ) (s : b.State) (rrs : List Rr)
        → All (HasHeader qname t ttl) rrs
        → Replied other qname (reply b fqdn max_ttl signing s rrs)
    reply-header t ttl s rrs h = reply-Replied s rrs (Owned-header qname t ttl rrs h)

    -- The name is that of every record, but for the SOA of the zone and its keys.
    pub answer_for-Replied :
        (zone : Zone) (s : b.State) (c : Context) (record' : Location)
        → (c.qtype ≡ type_soa → other)
        → (c.qtype ≡ type_dnskey → other)
        → Replied other qname (answer_for b fqdn max_ttl signing zone s c qname record')
    unfolding answer_for
    answer_for-Replied zone s c record' soa dnskey =
        let headers = answers_header fqdn max_ttl qname record'.rrsets [] in
        let (s', found, e, h) = find_caa_lem b zone s record' in
        if-Replied _ _ _ (λ _. answer_a-Replied s c record')
          (if-Replied _ _ _ (λ _. answer_aaaa-Replied s c record')
            (if-Replied _ _ _ (λ _. reply-Replied s _ (cname-Owned record'.rrsets))
              (if-Replied _ _ _ (λ _. reply-header _ _ s _ headers.3)
                (if-Replied _ _ _ (λ _. reply-header _ _ s _ headers.4)
                  (if-Replied _ _ _ (λ _. reply-header _ _ s _ headers.5)
                    (if-Replied _ _ _ (λ _. reply-header _ _ s _ headers.6)
                      (if-Replied _ _ _ (λ _. caa_found-Replied _ (s', found) e)
                        (if-Replied _ _ _ (λ _. reply-Replied s _ (ptr-Owned record'.rrsets))
                          (if-Replied _ _ _ (λ _. reply-header _ _ s _ headers.9)
                            (if-Replied _ _ _ (λ h. allowed-Replied s _ (soa ((==_iff _ _).0 h)))
                              (if-Replied _ _ _
                                (λ h. allowed-Replied s _ (dnskey ((==_iff _ _).0 h)))
                                (unknown-Replied s))))))))))))
