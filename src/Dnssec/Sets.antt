-- ===== src/Dnssec/Sets.antt =====
-- handler/dnssec.go: the sets that are signed, and what signing adds.
use redins.Prelude.{
  ◌==◌, if◌then◌else◌, ==_iff, Bool-cases, length, any, length-append, All, All-append, Text,
  text_eq_refl, ℕ, ◌+◌, ◌<◌, ◌≡◌, refl, sym, ◌∙◌, subst, inl, inr, Bool, true, false, not, ◌&&◌,
  Option, none, some, List, [], ◌∷◌, ◌++◌, arith,
}
use redins.Message.{Rr, type_dnskey}
use redins.Dnssec.{
  ZoneKey, ZoneKeys, SetKey, key_of, key_eq, add_record, unsigned, add_records, split_sets,
  signed_if, sign_set, set_signature, joined, sign_sets, sign, one_of, is_rsa, is_ecdsa,
  rsa_algorithms, ecdsa_algorithms,
}
use mathlib.Core.Option.{some-injective}
use redins.Dnssec.Fitting.{Fits, sign-Is}

abbrev pub all_of : List (SetKey × List Rr) → List Rr
all_of [] = []
all_of ((k, s) ∷ m) = s ++ all_of m

abbrev pub count : (Rr → Bool) → List Rr → ℕ
count p [] = 0
count p (r ∷ rrs) = (if p r then 1 else 0) + count p rrs

-- The records of a set are not none, and have its key.
abbrev pub Grouped : List (SetKey × List Rr) → Type 0
Grouped [] = Unit
Grouped ((k, s) ∷ m) = (0 < length s) × All (λ r. key_eq k (key_of r) ≡ true) s × Grouped m

-- No two sets have the same key.
abbrev pub DistinctKeys : List (SetKey × List Rr) → Type 0
DistinctKeys [] = Unit
DistinctKeys ((k, s) ∷ m) = (any (λ e. key_eq k e.0) m ≡ false) × DistinctKeys m

pub count-append :
    (p : Rr → Bool) (rrs sss : List Rr) → count p (rrs ++ sss) ≡ count p rrs + count p sss
count-append p [] sss = omega arith
count-append p (r ∷ rrs) sss = omega (arith, count-append p rrs sss)

key_eq_refl : (k : SetKey) → key_eq k k ≡ true
key_eq_refl (n, t) = rw (text_eq_refl n) ((==_iff t t).1 refl)

count-add_record :
    (p : Rr → Bool) (m : List (SetKey × List Rr)) (r : Rr)
    → count p (all_of (add_record m r)) ≡ count p (all_of m) + (if p r then 1 else 0)
unfolding add_record
count-add_record p [] r = omega arith
count-add_record p ((k, s) ∷ m) r = elim (Bool-cases (key_eq k (key_of r))) [
  | inl same ↦
      rw (same, add_record)
        (omega (
          arith,
          count-append p (s ++ r ∷ []) (all_of m),
          count-append p s (r ∷ []),
          count-append p s (all_of m),
        ))
  | inr differ ↦
      rw (differ, add_record)
        (omega (
          arith,
          count-append p s (all_of (add_record m r)),
          count-append p s (all_of m),
          count-add_record p m r,
        ))
]

Grouped-add_record : (m : List (SetKey × List Rr)) (r : Rr) → Grouped m → Grouped (add_record m r)
unfolding add_record
Grouped-add_record [] r h = (omega arith, (key_eq_refl (key_of r), tt), tt)
Grouped-add_record ((k, s) ∷ m) r (some_rr, keyed, rest) = elim (Bool-cases (key_eq k (key_of r))) [
  | inl same ↦
      rw (same, add_record)
        (
          omega (arith, length-append s (r ∷ [])),
          All-append (λ x. key_eq k (key_of x) ≡ true) s (r ∷ []) keyed (same, tt),
          rest,
        )
  | inr differ ↦ rw (differ, add_record) (some_rr, keyed, Grouped-add_record m r rest)
]

any-add_record :
    (k : SetKey) (m : List (SetKey × List Rr)) (r : Rr)
    → key_eq k (key_of r) ≡ false
    → any (λ e. key_eq k e.0) m ≡ false
    → any (λ e. key_eq k e.0) (add_record m r) ≡ false
unfolding add_record
any-add_record k [] r h a = rw h refl
any-add_record k ((j, s) ∷ m) r h a = elim (Bool-cases (key_eq j (key_of r))) [
  | inl same ↦ rw (same, add_record) a
  | inr differ ↦ rw (differ, add_record) (ground (arith, any-add_record k m r h))
]

DistinctKeys-add_record :
    (m : List (SetKey × List Rr)) (r : Rr) → DistinctKeys m → DistinctKeys (add_record m r)
unfolding add_record
DistinctKeys-add_record [] r h = (refl, tt)
DistinctKeys-add_record ((k, s) ∷ m) r (new, h) = elim (Bool-cases (key_eq k (key_of r))) [
  | inl same ↦ rw (same, add_record) (new, h)
  | inr differ ↦
      rw (differ, add_record) (any-add_record k m r differ new, DistinctKeys-add_record m r h)
]

add_records_lem :
    (m : List (SetKey × List Rr)) (rrs : List Rr)
    → Grouped m
    → DistinctKeys m
    → Grouped (add_records m rrs)
      × DistinctKeys (add_records m rrs)
      × ((p : Rr → Bool)
          → count p (all_of (add_records m rrs))
            ≡ count p (all_of m) + count (λ r. unsigned r && p r) rrs)
unfolding add_records
add_records_lem m [] g d = (g, d, λ p. omega arith)
add_records_lem m (r ∷ rrs) g d = elim (Bool-cases (unsigned r)) [
  | inl kept ↦
      let (g', d', c) =
        add_records_lem (add_record m r) rrs (Grouped-add_record m r g)
          (DistinctKeys-add_record m r d) in
      rw (kept, add_records) (g', d', λ p. omega (arith, c p, count-add_record p m r))
  | inr dropped ↦
      let (g', d', c) = add_records_lem m rrs g d in
      rw (dropped, add_records) (g', d', λ p. omega (arith, c p))
]

-- splitSets divides the records that are no signatures nor options into sets that are not empty, one
-- for each name and type: every record is in the set of its key, as often as it was there.
pub split_sets_lem :
    (rrs : List Rr)
    → Grouped (split_sets rrs)
      × DistinctKeys (split_sets rrs)
      × ((p : Rr → Bool) → count p (all_of (split_sets rrs)) ≡ count (λ r. unsigned r && p r) rrs)
unfolding split_sets
split_sets_lem rrs = let (g, d, c) = add_records_lem [] rrs tt tt in (g, d, λ p. omega (arith, c p))

-- The records that are no signatures nor options, among those that `q` counts.
abbrev pub plain : (Rr → Bool) → Rr → Bool
plain q r = unsigned r && q r

module _ (crypto : ZoneKey → Rr → List Rr → Option Rr)
    (order : List (SetKey × List Rr) → List (SetKey × List Rr)) (qname : Text) (keys : ZoneKeys)
    (signs : (k : ZoneKey) (rrsig r : Rr) (rrs : List Rr)
      → crypto k rrsig rrs ≡ some r
      → unsigned r ≡ false)
    (keys_signed : unsigned keys.dns_key_sig ≡ false) where
  -- A list of signatures, unless there is a panic.
  abbrev Adds : (Rr → Bool) → ℕ → Option (List Rr) → Type 0
  Adds q n none = Unit
  Adds q n (some rrs) = count (plain q) rrs ≡ n

  signed_if-count :
      (q : Rr → Bool) (o : Option (Option Rr))
      → ((r : Rr) → o ≡ some (some r) → unsigned r ≡ false)
      → Adds q 0 (signed_if crypto o)
  signed_if-count q none h = tt
  signed_if-count q (some none) h = refl
  signed_if-count q (some (some r)) h = rw (h r refl) (omega arith)

  sign_set-unsigned :
      (rrs : List Rr) (name : Text) (key : ZoneKey) (ttl : ℕ) (r : Rr)
      → sign_set crypto rrs name key ttl ≡ some (some r)
      → unsigned r ≡ false
  unfolding sign_set
  sign_set-unsigned rrs name key ttl r e =
      from_crypto (one_of key.algorithm rsa_algorithms) (is_rsa key.private_key)
        (one_of key.algorithm ecdsa_algorithms) (is_ecdsa key.private_key) _ (signs key _ r rrs) e
    where
      from_crypto :
          (rsa is_rsa' ecdsa is_ecdsa' : Bool) (o : Option Rr)
          → (o ≡ some r → unsigned r ≡ false)
          → (if rsa
              then if is_rsa' then some o else none
              else if ecdsa
              then if is_ecdsa' then some o else none
              else some none)
            ≡ some (some r)
          → unsigned r ≡ false
      from_crypto true true ecdsa is_ecdsa' o h e = h (some-injective _ _ e)
      from_crypto true false ecdsa is_ecdsa' o h e = absurd (cc)
      from_crypto false is_rsa' true true o h e = h (some-injective _ _ e)
      from_crypto false is_rsa' true false o h e = absurd (cc)
      from_crypto false is_rsa' false is_ecdsa' o h e =
          let f : none ≡ some r = some-injective _ _ e in absurd (cc)

  set_signature-count : (q : Rr → Bool) (s : List Rr) → Adds q 0 (set_signature crypto qname keys s)
  unfolding set_signature
  set_signature-count q [] = refl
  set_signature-count q (r ∷ s) = elim (Bool-cases (not (unsigned r))) [
    | inl signature ↦ rw (signature, set_signature) refl
    | inr set' ↦
        rw (set', set_signature)
          (elim (Bool-cases (r.hdr.rrtype == type_dnskey)) [
            | inl dnskey ↦ rw dnskey (rw keys_signed (omega arith))
            | inr other ↦
                rw other (signed_if-count q _ (sign_set-unsigned (r ∷ s) qname keys.zsk r.hdr.ttl))
          ])
  ]

  joined-count :
      (q : Rr → Bool) (s : List Rr) (o rest : Option (List Rr)) (n : ℕ)
      → Adds q 0 o
      → Adds q n rest
      → Adds q (count (plain q) s + n) (joined crypto s o rest)
  joined-count q s none rest n a b = tt
  joined-count q s (some x) none n a b = tt
  joined-count q s (some x) (some rest) n a b =
      omega (arith, count-append (plain q) (s ++ x) rest, count-append (plain q) s x)

  sign_sets-count :
      (q : Rr → Bool) (m : List (SetKey × List Rr))
      → Adds q (count (plain q) (all_of m)) (sign_sets crypto qname keys m)
  unfolding sign_sets
  sign_sets-count q [] = refl
  sign_sets-count q ((k, s) ∷ m) =
      subst
        (λ (n : ℕ).
          Adds q n
            (joined crypto s (set_signature crypto qname keys s) (sign_sets crypto qname keys m)))
        (sym (count-append (plain q) s (all_of m)))
        (joined-count q s _ _ _ (set_signature-count q s) (sign_sets-count q m))

  plain-plain :
      (q : Rr → Bool) (rrs : List Rr)
      → count (λ r. unsigned r && plain q r) rrs ≡ count (plain q) rrs
  plain-plain q [] = refl
  plain-plain q (r ∷ rrs) = ground (arith, plain-plain q rrs)

  -- Where the private key of the zone-signing key is of the type of its algorithm, Sign does not panic,
  -- and keeps every record that is no signature nor option, as often as it was there, in whatever order
  -- the sets are visited: what it adds are signatures.
  pub sign_lem :
      Fits keys.zsk
      → ((p : Rr → Bool) (m : List (SetKey × List Rr))
          → count p (all_of (order m)) ≡ count p (all_of m))
      → (q : Rr → Bool) (rrs : List Rr)
      → (signed : List Rr) × (sign crypto order rrs qname keys ≡ some signed)
        × (count (plain q) signed ≡ count (plain q) rrs)
  unfolding sign
  sign_lem fitting visits q rrs =
      let (signed, e) = sign-Is crypto qname keys fitting order rrs in
      (
        signed,
        e,
        subst (Adds q (count (plain q) (all_of (order (split_sets rrs))))) e
              (sign_sets-count q (order (split_sets rrs)))
            ∙ visits (plain q) (split_sets rrs)
            ∙ (split_sets_lem rrs).2 (plain q)
            ∙ plain-plain q rrs,
      )
