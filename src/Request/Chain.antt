-- ===== src/Request/Chain.antt =====
-- handler/handler.go: what the loop of HandleRequest does to the answer section.
use redins.Prelude.{
  ℤ, Text, ℕ, ◌≡◌, refl, sym, ap, ◌∙◌, subst, ◌⊎◌, inl, inr, Option, none, some, List, [], ◌∷◌,
  ◌++◌,
}
use mathlib.Core.List.{append_assoc, append-nil}
use redins.Records.{Ip, RrSets, CnameRrset, NsRr}
use redins.Zone.{Zone, Match, no_match, exact_match, wildcard_match}
use redins.Answers.{a_answers, cname_answers, rr_of}
use redins.Message.{Rr, cname_body, type_cname, class_inet}
use redins.Backend.{Panics, Location, Backend, locate}
use redins.Request.Aliases.{IsCode}
use redins.Request.Replies.{Owned, Replied}
use redins.Reply.{Context, Signing, Reply}
use redins.Request.{finish, glue_aaaa, glue_a, glue_loaded, glue_at, add_glue, delegated}

-- An answer to a query for a name: CNAME records, each for the target of the one before, and then
-- records for the last target.
pub data Chain : Text → List Rr → Type 0 where
  chain_end : {name : Text} {rrs : List Rr} → Owned name rrs → Chain name rrs
  chain_link :
      {name : Text} {rrs : List Rr} (r : Rr) (target : Text)
      → r.hdr.name ≡ name
      → r.hdr.rrtype ≡ type_cname
      → r.body ≡ cname_body target
      → Chain target rrs
      → Chain name (r ∷ rrs)

-- The request itself is not changed.
abbrev pub SameRequest : Context → Context → Type 0
SameRequest c d =
    (c.raw_name ≡ d.raw_name)
    × (c.qtype ≡ d.qtype)
    × (c.source_ip ≡ d.source_ip)
    × (c.do_bit ≡ d.do_bit)
    × (c.auth ≡ d.auth)

module _ (other : Type 0) where
  -- The answer section is dropped, or what is new in it is a chain from `name`.
  abbrev pub Grows : Text → Context → Context → Type 0
  Grows name c d =
      other ⊎ ((d.answer ≡ []) ⊎ ((rrs : List Rr) × (d.answer ≡ c.answer ++ rrs) × Chain name rrs))

  pub Grows-same : (name : Text) (c : Context) → Grows name c c
  Grows-same name c = inr (inr ([], sym (append-nil c.answer), chain_end tt))

module _ (b : Backend) (P : Type 0) (panics : Panics b P) (fqdn : Text → Text) (max_ttl : ℤ)
    (signing : Signing) where
  -- The result of the loop from a context: a panic, or a known code and a grown answer.
  abbrev pub Followed : Type 0 → Text → Context → Option (b.State × Context × ℕ) → Type 0
  Followed other name c none = P
  Followed other name c (some (s, d, rcode)) = IsCode rcode × SameRequest c d × Grows other name c d

  module _ (other : Type 0) where
    pub finish-Followed :
        (zone : Zone) (c : Context) (name : Text) (o : Reply b fqdn max_ttl signing)
        → Replied b P panics fqdn max_ttl signing other name o
        → Followed other name c (finish b fqdn max_ttl signing zone c o)
    unfolding Replied
    finish-Followed zone c name none h = h
    finish-Followed zone c name (some (s, none, rcode)) h =
        (h, (refl, refl, refl, refl, refl), inr (inl refl))
    finish-Followed zone c name (some (s, some answer, rcode)) h = (
      h.0,
      (refl, refl, refl, refl, refl),
      elim h.1 [ inl o ↦ inl o | inr owned ↦ inr (inr (answer, refl, chain_end owned)) ],
    )

    -- Glue changes the additional section only.
    pub SameAnswer : Context → Option (b.State × Context) → Type 0
    SameAnswer c none = P
    SameAnswer c (some (s, d)) = SameRequest c d × (d.answer ≡ c.answer)

    glue_aaaa-SameAnswer :
        (host : Text) (c : Context) (glue : Location) (o : b.State × Option (List Ip))
        → (o.1 ≡ none → P)
        → SameAnswer c (glue_aaaa b fqdn max_ttl signing host c glue o)
    unfolding SameAnswer
    glue_aaaa-SameAnswer host c glue (s, none) h = h refl
    glue_aaaa-SameAnswer host c glue (s, some ips) h = ((refl, refl, refl, refl, refl), refl)

    glue_a-SameAnswer :
        (host : Text) (c : Context) (glue : Location) (o : b.State × Option (List Ip))
        → (o.1 ≡ none → P)
        → SameAnswer c (glue_a b fqdn max_ttl signing host c glue o)
    unfolding SameAnswer
    glue_a-SameAnswer host c glue (s, none) h = h refl
    glue_a-SameAnswer host c glue (s, some ips) h =
        glue_aaaa-SameAnswer host
          (record c { additional = c.additional ++ a_answers fqdn max_ttl host glue.rrsets ips })
          glue _ (panics.0 s glue.name c.source_ip glue.rrsets.aaaa)

    glue_loaded-SameAnswer :
        (host : Text) (c : Context) (o : b.State × Option Location)
        → SameAnswer c (glue_loaded b fqdn max_ttl signing host c o)
    unfolding SameAnswer
    glue_loaded-SameAnswer host c (s, none) = ((refl, refl, refl, refl, refl), refl)
    glue_loaded-SameAnswer host c (s, some glue) =
        glue_a-SameAnswer host c glue _ (panics.0 s glue.name c.source_ip glue.rrsets.a)

    glue_at-SameAnswer :
        (zone : Zone) (host : Text) (s : b.State) (c : Context) (found : Text × Match)
        → SameAnswer c (glue_at b fqdn max_ttl signing zone host s c found)
    unfolding SameAnswer
    glue_at-SameAnswer zone host s c (location, no_match) = ((refl, refl, refl, refl, refl), refl)
    glue_at-SameAnswer zone host s c (location, exact_match) =
        glue_loaded-SameAnswer host c (b.load_location s location zone)
    glue_at-SameAnswer zone host s c (location, wildcard_match) =
        glue_loaded-SameAnswer host c (b.load_location s location zone)

    SameRequest-trans : (c d e : Context) → SameRequest c d → SameRequest d e → SameRequest c e
    SameRequest-trans c d e (h0, h1, h2, h3, h4) (k0, k1, k2, k3, k4) =
        (h0 ∙ k0, h1 ∙ k1, h2 ∙ k2, h3 ∙ k3, h4 ∙ k4)

    SameAnswer-later :
        (c d : Context) (o : Option (b.State × Context))
        → SameRequest c d
        → d.answer ≡ c.answer
        → SameAnswer d o
        → SameAnswer c o
    unfolding SameAnswer
    SameAnswer-later c d none h k l = l
    SameAnswer-later c d (some (s, e)) h k (l, m) = (SameRequest-trans c d e h l, m ∙ k)

    SameAnswer-each :
        (c : Context) (o : Option (b.State × Context))
        (next : b.State → Context → Option (b.State × Context))
        → ((s : b.State) (d : Context) → SameAnswer d (next s d))
        → SameAnswer c o
        → SameAnswer c (elim o [ none ↦ none | some (s', c') ↦ next s' c' ])
    unfolding SameAnswer
    SameAnswer-each c none next h k = k
    SameAnswer-each c (some (s', c')) next h (k, l) = SameAnswer-later c c' _ k l (h s' c')

    pub add_glue-SameAnswer :
        (zone : Zone) (nss : List NsRr) (s : b.State) (c : Context)
        → SameAnswer c (add_glue b fqdn max_ttl signing zone nss s c)
    unfolding add_glue SameAnswer
    add_glue-SameAnswer zone [] s c = ((refl, refl, refl, refl, refl), refl)
    add_glue-SameAnswer zone (ns ∷ nss) s c =
        SameAnswer-each c (glue_at b fqdn max_ttl signing zone ns.host s c (locate zone ns.host))
          (add_glue b fqdn max_ttl signing zone nss) (add_glue-SameAnswer zone nss)
          (glue_at-SameAnswer zone ns.host s c (locate zone ns.host))

    pub delegated-Followed :
        (name : Text) (c d : Context) (o : Option (b.State × Context))
        → SameRequest c d
        → d.answer ≡ c.answer
        → SameAnswer d o
        → Followed other name c (delegated b fqdn max_ttl signing o)
    unfolding SameAnswer
    delegated-Followed name c d none h k l = l
    delegated-Followed name c d (some (s, e)) h k (l, m) = (
      refl,
      SameRequest-trans c d e h l,
      inr (inr ([], m ∙ k ∙ sym (append-nil c.answer), chain_end tt)),
    )

    -- A link before what the next rounds add.
    pub linked-Followed :
        (name : Text) (sets : RrSets) (cname : CnameRrset) (c : Context)
        (o : Option (b.State × Context × ℕ))
        → sets.cname ≡ some cname
        → Followed other
            (fqdn cname.host)
            (record c { answer = c.answer ++ cname_answers fqdn max_ttl name sets })
            o
        → Followed other name c o
    unfolding cname_answers
    linked-Followed name sets cname c none e h = h
    linked-Followed name sets cname c (some (s, d, rcode)) e (code, same, inl o) =
        (code, same, inl o)
    linked-Followed name sets cname c (some (s, d, rcode)) e (code, same, inr (inl dropped)) =
        (code, same, inr (inl dropped))
    linked-Followed name sets cname c (some (s, d, rcode)) e
          (code, same, inr (inr (rrs, grown, chain))) =
        (
          code,
          same,
          inr (
              inr (
                link ∷ rrs,
                grown
                    ∙ ap (λ (l : List Rr). (c.answer ++ l) ++ rrs) cname_answer
                    ∙ append_assoc c.answer (link ∷ []) rrs,
                chain_link link (fqdn cname.host) refl refl refl chain,
              )),
        )
      where
        link : Rr
        link =
            rr_of fqdn max_ttl name type_cname class_inet cname.ttl (cname_body (fqdn cname.host))

        cname_answer : cname_answers fqdn max_ttl name sets ≡ link ∷ []
        cname_answer = rw (e, cname_answers) refl

    pub Followed-other :
        (name name' : Text) (c : Context) (o : Option (b.State × Context × ℕ))
        → other
        → Followed other name c o
        → Followed other name' c o
    Followed-other name name' c none o h = h
    Followed-other name name' c (some (s, d, rcode)) o (code, same, grows) = (code, same, inl o)

    pub Followed-rename :
        (name name' : Text) (c : Context) (o : Option (b.State × Context × ℕ))
        → name ≡ name'
        → Followed other name c o
        → Followed other name' c o
    Followed-rename name name' c o e h = subst (λ n. Followed other n c o) e h
