-- ===== src/Dnssec/Fitting.antt =====
-- handler/dnssec.go: where signing does not panic.
use redins.Prelude.{
  ◌==◌, if◌then◌else◌, Bool-cases, Text, ℕ, ◌≡◌, refl, inl, inr, Bool, true, not, Option, none,
  some, List, [], ◌∷◌,
}
use redins.Message.{Rr, type_dnskey}
use redins.Dnssec.{
  PrivateKey, ZoneKey, ZoneKeys, SetKey, unsigned, one_of, is_rsa, is_ecdsa, rsa_algorithms,
  ecdsa_algorithms, sign_set, signed_if, set_signature, joined, sign_sets, sign, split_sets,
}

-- A private key of the type that its algorithm asks for.
abbrev pub fits : ℕ → PrivateKey → Bool
fits algorithm private_key =
    if one_of algorithm rsa_algorithms
    then is_rsa private_key
    else if one_of algorithm ecdsa_algorithms
    then is_ecdsa private_key
    else true

abbrev pub Fits : ZoneKey → Type 0
Fits key = fits key.algorithm key.private_key ≡ true

-- A result that is no panic.
abbrev pub Is {ℓ} : {A : Type ℓ} → Option A → Type ℓ
Is {A = A} o = (a : A) × (o ≡ some a)

module _ (crypto : ZoneKey → Rr → List Rr → Option Rr) where
  pub sign_set-Is :
      (rrs : List Rr) (name : Text) (key : ZoneKey) (ttl : ℕ)
      → Fits key
      → Is (sign_set crypto rrs name key ttl)
  unfolding sign_set
  sign_set-Is rrs name key ttl h = elim (Bool-cases (one_of key.algorithm rsa_algorithms)) [
    | inl rsa ↦ let f : is_rsa key.private_key ≡ true = rw rsa at h in simp (rsa, f) (_, refl)
    | inr other ↦ simp other (elim (Bool-cases (one_of key.algorithm ecdsa_algorithms)) [
      | inl ecdsa ↦
          let f : is_ecdsa key.private_key ≡ true = rw (other, ecdsa) at h in
          simp (ecdsa, f) (_, refl)
      | inr unsupported ↦ simp unsupported (_, refl)
    ])
  ]

  module _ (qname : Text) (keys : ZoneKeys) (h : Fits keys.zsk) where
    signed_if-Is : (o : Option (Option Rr)) → Is o → Is (signed_if crypto o)
    signed_if-Is none (a, e) = absurd (cc)
    signed_if-Is (some none) e = (_, refl)
    signed_if-Is (some (some rrsig)) e = (_, refl)

    set_signature-Is : (s : List Rr) → Is (set_signature crypto qname keys s)
    unfolding set_signature
    set_signature-Is [] = (_, refl)
    set_signature-Is (r ∷ s) = elim (Bool-cases (not (unsigned r))) [
      | inl signature ↦ rw (signature, set_signature) (_, refl)
      | inr plain ↦
          rw (plain, set_signature)
            (elim (Bool-cases (r.hdr.rrtype == type_dnskey)) [
              | inl dnskey ↦ rw dnskey (_, refl)
              | inr other ↦
                  rw other (signed_if-Is _ (sign_set-Is (r ∷ s) qname keys.zsk r.hdr.ttl h))
            ])
    ]

    joined-Is :
        (s : List Rr) (o rest : Option (List Rr)) → Is o → Is rest → Is (joined crypto s o rest)
    joined-Is s none rest (a, e) i = absurd (cc)
    joined-Is s (some x) none e (a, i) = absurd (cc)
    joined-Is s (some x) (some rest) e i = (_, refl)

    sign_sets-Is : (m : List (SetKey × List Rr)) → Is (sign_sets crypto qname keys m)
    unfolding sign_sets
    sign_sets-Is [] = (_, refl)
    sign_sets-Is ((k, s) ∷ m) = joined-Is s _ _ (set_signature-Is s) (sign_sets-Is m)

    pub sign-Is :
        (order : List (SetKey × List Rr) → List (SetKey × List Rr)) (rrs : List Rr)
        → Is (sign crypto order rrs qname keys)
    unfolding sign
    sign-Is order rrs = sign_sets-Is (order (split_sets rrs))
