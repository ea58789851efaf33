-- ===== src/Request/Missing.antt =====
-- handler/handler.go: why HandleRequest answers that a name does not exist, at the final location.
use redins.Prelude.{
  ◌==◌, if◌then◌else◌, Option-cases, ℤ, Text, ℕ, ◌≡◌, refl, inl, inr, Bool, true, false, Option,
  none, some, List, arith,
}
use redins.Records.{RrSets, CnameRrset}
use redins.Zone.{Zone, no_match}
use redins.Caa.{find_caa}
use redins.Answers.{
  cname_answers, ns_answers, txt_answers, mx_answers, srv_answers, ptr_answers, tlsa_answers,
}
use redins.Message.{Rr, type_cname, RrType, type_a, type_aaaa}
use redins.Records.{Ip}
use redins.Aname.{Found, find_aname}
use redins.Backend.{
  soa_of, Location, Backend, locate, rcode_success, rcode_name_error, rcode_not_implemented,
}
use redins.Request.Aliases.{Fine, find_aname-Fine, IsAnameCode}
use redins.Reply.{
  dnskey_answers, reply, Context, Signing, Reply, aname_if, answer_a, answer_aaaa, answer_for,
  a_found, aaaa_found, a_filtered, aaaa_filtered, caa_found,
}

-- FindANAME gives no error or a server failure, never that a name does not exist.
IsAnameCode-ne : (rcode : ℕ) → IsAnameCode rcode → rcode ≡ rcode_name_error → ⊥
IsAnameCode-ne rcode h e = ground arith

module _ (b : Backend) (fqdn : Text → Text) (max_ttl : ℤ) (signing : Signing) (zone : Zone)
    (qtype : RrType) where
  -- Why a name does not exist, from the state in which it is looked up: nothing in the zone matches it,
  -- and no wildcard; or the record that this state loads for it has a CNAME record, to a name that does
  -- not exist in the state after the load.
  pub data Reason : b.State → Text → Type 0 where
    missing : (s : b.State) (qname : Text) → (locate zone qname).1 ≡ no_match → Reason s qname
    alias :
        (s s' : b.State) (qname : Text) (record' : Location) (cname : CnameRrset)
        → b.load_location s (locate zone qname).0 zone ≡ (s', some record')
        → (qtype == type_cname) ≡ false
        → record'.rrsets.cname ≡ some cname
        → Reason s' (fqdn cname.host)
        → Reason s qname

  abbrev Result : Type 0
  Result = Option (b.State × Context × ℕ)

  abbrev pub Explains : Type 0 → ℕ → Type 0
  Explains reason rcode = rcode ≡ rcode_name_error → reason

  abbrev pub Explained : Type 0 → Result → Type 0
  Explained reason none = Unit
  Explained reason (some (s, d, rcode)) = Explains reason rcode

  pub Explained-map :
      (reason reason' : Type 0) (o : Result)
      → (reason → reason')
      → Explained reason o
      → Explained reason' o
  Explained-map reason reason' none f h = tt
  Explained-map reason reason' (some (s, d, rcode)) f h = λ e. f (h e)

  pub success-Explains : (reason : Type 0) → Explains reason rcode_success
  success-Explains reason e = absurd (omega (arith, e))

  module _ (reason : Type 0) where
    unfoldable pub Replies : Reply b fqdn max_ttl signing → Type 0
    Replies none = Unit
    Replies (some (s, answer, rcode)) = Explains reason rcode

    if-Replies :
        (t : Bool) (x y : Reply b fqdn max_ttl signing)
        → (t ≡ true → Replies x)
        → Replies y
        → Replies (if t then x else y)
    if-Replies true x y h h' = h refl
    if-Replies false x y h h' = h'

    reply-Replies : (s : b.State) (rrs : List Rr) → Replies (reply b fqdn max_ttl signing s rrs)
    unfolding Replies
    reply-Replies s rrs = success-Explains reason

    last-Replies : (s : b.State) → Replies (some (s, none, rcode_not_implemented))
    unfolding Replies
    last-Replies s e = absurd (omega (arith, e))

    a_found-Replies :
        (source : Ip) (qname : Text) (sets : RrSets) (s : b.State) (name : Text)
        → Replies (a_found b fqdn max_ttl signing qname sets (find_aname b source type_a s name))
    unfolding a_found Replies
    a_found-Replies source qname sets s name =
        by_code (find_aname b source type_a s name)
          (find_aname-Fine b Unit ((λ s n i r h. tt), (λ s z h. tt)) source type_a s name)
      where
        by_code :
            (o : Option (b.State × Found))
            → Fine b Unit ((λ s n i r h. tt), (λ s z h. tt)) source type_a o
            → Replies (a_found b fqdn max_ttl signing qname sets o)
        by_code none h = tt
        by_code (some (s', (ips, rcode, ttl))) h = λ e. absurd (IsAnameCode-ne rcode h e)

    aaaa_found-Replies :
        (source : Ip) (qname : Text) (sets : RrSets) (s : b.State) (name : Text)
        → Replies
            (aaaa_found b fqdn max_ttl signing qname sets (find_aname b source type_aaaa s name))
    unfolding aaaa_found Replies
    aaaa_found-Replies source qname sets s name =
        by_code (find_aname b source type_aaaa s name)
          (find_aname-Fine b Unit ((λ s n i r h. tt), (λ s z h. tt)) source type_aaaa s name)
      where
        by_code :
            (o : Option (b.State × Found))
            → Fine b Unit ((λ s n i r h. tt), (λ s z h. tt)) source type_aaaa o
            → Replies (aaaa_found b fqdn max_ttl signing qname sets o)
        by_code none h = tt
        by_code (some (s', (ips, rcode, ttl))) h = λ e. absurd (IsAnameCode-ne rcode h e)

    a_filtered-Replies :
        (qname : Text) (sets : RrSets) (o : b.State × Option (List Ip))
        → Replies (a_filtered b fqdn max_ttl signing qname sets o)
    unfolding Replies
    a_filtered-Replies qname sets (s, none) = tt
    a_filtered-Replies qname sets (s, some ips) = success-Explains reason

    aaaa_filtered-Replies :
        (qname : Text) (sets : RrSets) (o : b.State × Option (List Ip))
        → Replies (aaaa_filtered b fqdn max_ttl signing qname sets o)
    unfolding Replies
    aaaa_filtered-Replies qname sets (s, none) = tt
    aaaa_filtered-Replies qname sets (s, some ips) = success-Explains reason

    caa_found-Replies :
        (qname : Text) (o : Option (b.State × Option Location))
        → Replies (caa_found b fqdn max_ttl signing qname o)
    unfolding Replies
    caa_found-Replies qname none = tt
    caa_found-Replies qname (some (s, none)) = success-Explains reason
    caa_found-Replies qname (some (s, some record')) = success-Explains reason

    module _ (record' : Location) where
      answer_a-Replies :
          (s : b.State) (c : Context) (qname : Text)
          → Replies (answer_a b fqdn max_ttl signing s c qname record')
      unfolding answer_a
      answer_a-Replies s c qname =
          elim (Option-cases
            (aname_if b fqdn max_ttl signing record'.rrsets.a.items record'.rrsets.aname)) [
              | inl e ↦ rw (e, answer_a) (a_filtered-Replies qname record'.rrsets _)
              | inr (name, e) ↦
                  rw (e, answer_a) (a_found-Replies c.source_ip qname record'.rrsets s name)
            ]

      answer_aaaa-Replies :
          (s : b.State) (c : Context) (qname : Text)
          → Replies (answer_aaaa b fqdn max_ttl signing s c qname record')
      unfolding answer_aaaa
      answer_aaaa-Replies s c qname =
          elim (Option-cases
            (aname_if b fqdn max_ttl signing record'.rrsets.aaaa.items record'.rrsets.aname)) [
              | inl e ↦ rw (e, answer_aaaa) (aaaa_filtered-Replies qname record'.rrsets _)
              | inr (name, e) ↦
                  rw (e, answer_aaaa) (aaaa_found-Replies c.source_ip qname record'.rrsets s name)
            ]

      pub answer_for-Replies :
          (s : b.State) (c : Context) (qname : Text)
          → Replies (answer_for b fqdn max_ttl signing zone s c qname record')
      unfolding answer_for
      answer_for-Replies s c qname =
          if-Replies (c.qtype == type_a) (answer_a b fqdn max_ttl signing s c qname record') _
            (λ t. answer_a-Replies s c qname)
            (if-Replies (c.qtype == type_aaaa)
              (answer_aaaa b fqdn max_ttl signing s c qname record') _
              (λ t. answer_aaaa-Replies s c qname)
              (if-Replies _ _ _
                (λ _. reply-Replies s (cname_answers fqdn max_ttl qname record'.rrsets))
                (if-Replies _ _ _
                  (λ _. reply-Replies s (txt_answers fqdn max_ttl qname record'.rrsets))
                  (if-Replies _ _ _
                    (λ _. reply-Replies s (ns_answers fqdn max_ttl qname record'.rrsets))
                    (if-Replies _ _ _
                      (λ _. reply-Replies s (mx_answers fqdn max_ttl qname record'.rrsets))
                      (if-Replies _ _ _
                        (λ _. reply-Replies s (srv_answers fqdn max_ttl qname record'.rrsets))
                        (if-Replies _ _ _ (λ _. caa_found-Replies qname (find_caa b zone s record'))
                          (if-Replies _ _ _
                            (λ _. reply-Replies s (ptr_answers fqdn max_ttl qname record'.rrsets))
                            (if-Replies _ _ _
                              (λ _.
                                reply-Replies s (tlsa_answers fqdn max_ttl qname record'.rrsets))
                              (if-Replies _ _ _ (λ _. reply-Replies s (soa_of zone))
                                (if-Replies _ _ _
                                  (λ _.
                                    reply-Replies s (dnskey_answers b fqdn max_ttl signing zone))
                                  (last-Replies s))))))))))))
