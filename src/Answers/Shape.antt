-- ===== src/Answers/Shape.antt =====
-- handler/handler.go: what the records of an answer have in common.
use redins.Prelude.{
  if◌then◌else◌, Bool-cases, ℤ, All, Text, ℕ, ◌≡◌, refl, inl, inr, Bool, some, List, [], ◌∷◌, map,
}
use redins.Records.{Ip, RrSets, CnameRrset, PtrRrset}
use redins.Message.{Rr, RrType, Body}
use redins.Message
use redins.Answers.{
  get_ttl, empty, never, each, a_answers, aaaa_answers, cname_answers, txt_answers, ns_answers,
  mx_answers, srv_answers, caa_answers, ptr_answers, tlsa_answers,
}

-- The header of a record.
abbrev pub HasHeader : Text → RrType → ℕ → Rr → Type 0
HasHeader name rrtype ttl r = (r.hdr.name ≡ name) × (r.hdr.rrtype ≡ rrtype) × (r.hdr.ttl ≡ ttl)

All-each {ℓ} :
    {A : Type ℓ} (P : Rr → Type 0) (skip : A → Bool) (build : A → Rr) (xs : List A)
    → ((x : A) → P (build x))
    → All P (each skip build xs)
All-each P skip build [] h = tt
All-each P skip build (x ∷ xs) h = elim (Bool-cases (skip x)) [
  | inl skipped ↦ rw skipped (All-each P skip build xs h)
  | inr kept ↦ rw kept (h x, All-each P skip build xs h)
]

-- The addresses of a list of records.
abbrev address : Body → Ip
address (Message.a_body ip) = ip
address (Message.aaaa_body ip) = ip
address _ = []

abbrev pub addresses : List Rr → List Ip
addresses = map (λ r. address r.body)

abbrev pub nonnil : List Ip → List Ip
nonnil [] = []
nonnil (ip ∷ ips) = if empty ip then nonnil ips else ip ∷ nonnil ips

module _ (fqdn : Text → Text) (max_ttl : ℤ) (name : Text) (record' : RrSets) (ips : List Ip) where
  abbrev AnswersHave : RrType → ℕ → List Rr → Type 0
  AnswersHave rrtype ttl = All (HasHeader name rrtype (get_ttl max_ttl ttl))

  -- The headers of the records of each builder.
  abbrev pub AllHeaders : Type 0
  AllHeaders =
      AnswersHave Message.type_a record'.a.ttl (a_answers fqdn max_ttl name record' ips)
      × AnswersHave Message.type_aaaa record'.aaaa.ttl (aaaa_answers fqdn max_ttl name record' ips)
      × ((c : CnameRrset)
          → record'.cname ≡ some c
          → AnswersHave Message.type_cname c.ttl (cname_answers fqdn max_ttl name record'))
      × AnswersHave Message.type_txt record'.txt.ttl (txt_answers fqdn max_ttl name record')
      × AnswersHave Message.type_ns record'.ns.ttl (ns_answers fqdn max_ttl name record')
      × AnswersHave Message.type_mx record'.mx.ttl (mx_answers fqdn max_ttl name record')
      × AnswersHave Message.type_srv record'.srv.ttl (srv_answers fqdn max_ttl name record')
      × AnswersHave Message.type_caa record'.caa.ttl (caa_answers fqdn max_ttl name record')
      × ((p : PtrRrset)
          → record'.ptr ≡ some p
          → AnswersHave Message.type_ptr p.ttl (ptr_answers fqdn max_ttl name record'))
      × AnswersHave Message.type_tlsa record'.tlsa.ttl (tlsa_answers fqdn max_ttl name record')

  -- Every record that a builder answers has the name asked for, the builder's type, and the ttl of its
  -- record set within the configured limit, for each of the ten builders.
  pub answers_header : AllHeaders
  unfolding a_answers aaaa_answers cname_answers txt_answers ns_answers mx_answers srv_answers
      caa_answers ptr_answers tlsa_answers
  answers_header = (
    All-each _ _ _ ips (λ x. (refl, refl, refl)),
    All-each _ _ _ ips (λ x. (refl, refl, refl)),
    λ c e. rw e ((refl, refl, refl), tt),
    All-each _ _ _ record'.txt.items (λ x. (refl, refl, refl)),
    All-each _ _ _ record'.ns.items (λ x. (refl, refl, refl)),
    All-each _ _ _ record'.mx.items (λ x. (refl, refl, refl)),
    All-each _ _ _ record'.srv.items (λ x. (refl, refl, refl)),
    All-each (HasHeader name Message.type_caa (get_ttl max_ttl record'.caa.ttl)) never _
        record'.caa.items (λ x. (refl, refl, refl)),
    λ p e. rw e ((refl, refl, refl), tt),
    All-each (HasHeader name Message.type_tlsa (get_ttl max_ttl record'.tlsa.ttl)) never _
        record'.tlsa.items (λ x. (refl, refl, refl)),
  )

  addresses-each :
      (build : Ip → Rr) (xs : List Ip)
      → ((ip : Ip) → address (build ip).body ≡ ip)
      → addresses (each empty build xs) ≡ nonnil xs
  addresses-each build [] h = refl
  addresses-each build (x ∷ xs) h = elim (Bool-cases (empty x)) [
    | inl nil ↦ rw nil (addresses-each build xs h)
    | inr some_ip ↦ rw (some_ip, h x, addresses-each build xs h)
  ]

  -- The A and the AAAA records carry the addresses given, in order, less the nil ones.
  pub address_answers :
      (addresses (a_answers fqdn max_ttl name record' ips) ≡ nonnil ips)
      × (addresses (aaaa_answers fqdn max_ttl name record' ips) ≡ nonnil ips)
  unfolding a_answers aaaa_answers
  address_answers = (addresses-each _ ips (λ ip. refl), addresses-each _ ips (λ ip. refl))
