-- ===== src/Request/Aliases.antt =====
-- handler/handler.go: what FindANAME returns.
use redins.Prelude.{
  ◌==◌, ==_iff, Bool-cases, Option-cases, any, Text, ℕ, zero, suc, ◌≡◌, refl, inl, inr, true, not,
  ◌&&◌, Option, none, some, List, [], ◌∷◌, arith,
}
use redins.Records.{Ip, AnameRecord}
use redins.Zone.{Zone}
use redins.Answers.{empty}
use redins.Message.{Rr, RrType, type_a, type_aaaa}
use redins.Backend.{
  Panics, Location, Backend, locate, rcode_success, rcode_server_failure, rcode_name_error,
  rcode_not_implemented,
}
use redins.Aname.{
  Found, from_upstream, filtered, at_aname, at_addresses, queried, search_aname, find_aname,
}
use redins.Aname

-- The codes: no error, server failure, name error, not implemented.
abbrev pub codes_known : List ℕ
codes_known = rcode_success ∷ rcode_server_failure ∷ rcode_name_error ∷ rcode_not_implemented ∷ []

abbrev pub IsCode : ℕ → Type 0
IsCode rcode = any (λ c. c == rcode) codes_known ≡ true

-- The codes of FindANAME: no error and server failure.
abbrev pub IsAnameCode : ℕ → Type 0
IsAnameCode rcode = any (λ c. c == rcode) (rcode_success ∷ rcode_server_failure ∷ []) ≡ true

pub IsAnameCode-IsCode : (rcode : ℕ) → IsAnameCode rcode → IsCode rcode
IsAnameCode-IsCode rcode h = ground arith

module _ (b : Backend) (P : Type 0) (panics : Panics b P) where
  module _ (source : Ip) (qtype : RrType) where
    -- A search has addresses or an error, with one of its codes, or panics, which `P` allows.
    abbrev pub Fine : Option (b.State × Found) → Type 0
    Fine none = P
    Fine (some (s, (ips, rcode, ttl))) = IsAnameCode rcode

    from_upstream-IsAnameCode : (answer : List Rr × ℕ) → IsAnameCode (from_upstream qtype answer).1
    unfolding from_upstream
    from_upstream-IsAnameCode (rrs, rcode) = elim (Bool-cases (rcode == rcode_success)) [
      | inl same ↦ rw (same, (==_iff rcode rcode_success).0 same) refl
      | inr differ ↦ rw differ refl
    ]

    filtered-Fine :
        (ttl : ℕ) (o : b.State × Option (List Ip))
        → (o.1 ≡ none → P)
        → Fine (filtered b source qtype ttl o)
    filtered-Fine ttl (s, none) h = h refl
    filtered-Fine ttl (s, some found) h = refl

    module _ (next : b.State → Text → Option (b.State × Found))
        (rest : (s : b.State) (qname : Text) → Fine (next s qname)) where
      at_aname-Fine :
          (s : b.State) (o : Option AnameRecord) → Fine (at_aname b source qtype next s o)
      at_aname-Fine s none = refl
      at_aname-Fine s (some aname) = rest s aname.location

      at_addresses-Fine :
          (s : b.State) (record' : Location) → Fine (at_addresses b source qtype next s record')
      unfolding at_addresses
      at_addresses-Fine s record' =
          elim (Bool-cases (qtype == type_a && not (empty record'.rrsets.a.items))) [
            | inl is_a ↦
                rw (is_a, at_addresses)
                  (filtered-Fine record'.rrsets.a.ttl _
                    (panics.0 s record'.name source record'.rrsets.a))
            | inr other ↦
                rw (other, at_addresses)
                  (elim (Bool-cases (qtype == type_aaaa && not (empty record'.rrsets.aaaa.items))) [
                    | inl is_aaaa ↦ rw is_aaaa (
                        filtered-Fine record'.rrsets.aaaa.ttl _
                          (panics.0 s record'.name source record'.rrsets.aaaa))
                    | inr neither ↦ rw neither (at_aname-Fine s record'.rrsets.aname)
                  ])
          ]

      at_location-Fine :
          (o : b.State × Option Location) → Fine (Aname.at_location b source qtype next o)
      unfolding Aname.at_location
      at_location-Fine (s, none) = refl
      at_location-Fine (s, some record') = elim (Option-cases record'.rrsets.cname) [
        | inl plain ↦ rw (plain, Aname.at_location) (at_addresses-Fine s record')
        | inr (cname, alias) ↦ rw (alias, Aname.at_location) (rest s cname.host)
      ]

      in_zone-Fine :
          (qname : Text) (o : Option (b.State × Option Zone))
          → (o ≡ none → P)
          → Fine (Aname.in_zone b source qtype next qname o)
      unfolding Aname.in_zone
      in_zone-Fine qname none h = h refl
      in_zone-Fine qname (some (s, none)) h = refl
      in_zone-Fine qname (some (s, some zone)) h = elim (Bool-cases (empty (locate zone qname).0)) [
        | inl nowhere ↦ rw (nowhere, Aname.in_zone) refl
        | inr somewhere ↦
            rw (somewhere, Aname.in_zone)
              (at_location-Fine (b.load_location s (locate zone qname).0 zone))
      ]

    queried-Fine : (o : b.State × (List Rr × ℕ)) → Fine (queried b source qtype o)
    unfolding queried
    queried-Fine (s, answer) = from_upstream-IsAnameCode answer

    search_aname-Fine :
        (rounds : ℕ) (s : b.State) (qname : Text)
        → Fine (search_aname b source qtype rounds s qname)
    unfolding search_aname
    search_aname-Fine zero s qname = refl
    search_aname-Fine (suc rounds) s qname = elim (Bool-cases (empty (b.find_zone qname))) [
      | inl outside ↦ rw (outside, search_aname) (queried-Fine (b.upstream_query s qname qtype))
      | inr inside ↦
          rw (inside, search_aname)
            (in_zone-Fine (search_aname b source qtype rounds) (search_aname-Fine rounds) qname
              (b.load_zone s (b.find_zone qname)) (panics.1 s (b.find_zone qname)))
    ]

    pub find_aname-Fine : (s : b.State) (aname : Text) → Fine (find_aname b source qtype s aname)
    unfolding find_aname
    find_aname-Fine = search_aname-Fine 11
