-- ===== src/Dnssec/Panics.antt =====
-- handler/dnssec.go: where Sign panics on a private key.
use redins.Prelude.{
  ltb, ◌==◌, if◌then◌else◌, ltb→lt, ltb→le, ==_iff, Bool-cases, All, Text, ℕ, ◌≤◌, ◌<◌, ◌≡◌, refl,
  sym, ap, ◌∙◌, subst, inl, inr, Bool, true, false, not, ◌&&◌, Option, none, some, List, [], ◌∷◌,
  ◌++◌, arith,
}
use redins.Message.{Rr, type_dnskey}
use redins.Dnssec.{
  ZoneKey, ZoneKeys, SetKey, key_of, key_eq, unsigned, split_sets, signed_if, sign_set,
  set_signature, joined, sign_sets, sign, one_of, is_rsa, is_ecdsa, rsa_algorithms,
  ecdsa_algorithms,
}
use redins.Dnssec.Fitting.{fits}
use redins.Dnssec.Sets.{all_of, count, count-append, Grouped, split_sets_lem}

-- The types of records that are signed with the zone-signing key.
abbrev pub to_sign : Rr → Bool
to_sign r = unsigned r && not (r.hdr.rrtype == type_dnskey)

-- An entry that a map has.
abbrev pub Has : List (SetKey × List Rr) → SetKey × List Rr → Type 0
Has m e =
    (before : List (SetKey × List Rr)) × (after : List (SetKey × List Rr)) × (m
      ≡ before ++ e ∷ after)

-- A set that is signed: Sign looks at its first record.
abbrev Signs : List Rr → Type 0
Signs [] = ⊥
Signs (r ∷ s) = to_sign r ≡ true

type_of_key : (k : SetKey) (r : Rr) → key_eq k (key_of r) ≡ true → k.1 ≡ r.hdr.rrtype
type_of_key (n, t) r h = (==_iff t r.hdr.rrtype).0 (second _ _ h)
  where
    second : (a b : Bool) → a && b ≡ true → b ≡ true
    second true b e = e
    second false b e = absurd (cc)

-- The records of a set are signed together.
count-others :
    (k : SetKey) (r : Rr) (s : List Rr)
    → key_eq k (key_of r) ≡ true
    → All (λ r'. key_eq k (key_of r') ≡ true) s
    → to_sign r ≡ false
    → count to_sign s ≡ 0
count-others k r [] h hs e = refl
count-others k r (r' ∷ s) h (h', hs) e =
    let same : r.hdr.rrtype ≡ r'.hdr.rrtype = sym (type_of_key k r h) ∙ type_of_key k r' h' in
    let kept : to_sign r' ≡ false = rw same at e in
    rw (kept) (omega (arith, count-others k r s h hs e))

first-Signs :
    (k : SetKey) (s : List Rr)
    → All (λ r. key_eq k (key_of r) ≡ true) s
    → 0 < count to_sign s
    → Signs s
first-Signs k [] h n = absurd (omega (arith, n))
first-Signs k (r ∷ s) (h, hs) n = elim (Bool-cases (to_sign r)) [
  | inl signed ↦ signed
  | inr other ↦
      let none' : count to_sign s ≡ 0 = count-others k r s h hs other in
      absurd (omega (arith, none', rw other at n))
]

signed_set :
    (m : List (SetKey × List Rr))
    → Grouped m
    → 0 < count to_sign (all_of m)
    → (e : SetKey × List Rr) × Has m e × Signs e.1
signed_set [] g n = absurd (omega (arith, n))
signed_set ((k, s) ∷ m) (full, same, g) n = elim (Bool-cases (ltb 0 (count to_sign s))) [
  | inl here ↦ ((k, s), ([], m, refl), first-Signs k s same (ltb→lt 0 (count to_sign s) here))
  | inr there ↦
      let none' : count to_sign s ≤ 0 = ltb→le 0 (count to_sign s) there in
      let (e, (before, after, i), signs) =
        signed_set m g (omega (arith, n, none', count-append to_sign s (all_of m))) in
      (e, ((k, s) ∷ before, after, ap (λ (l : List (SetKey × List Rr)). (k, s) ∷ l) i), signs)
]

module _ (crypto : ZoneKey → Rr → List Rr → Option Rr) (qname : Text) (keys : ZoneKeys)
    (unfit : fits keys.zsk.algorithm keys.zsk.private_key ≡ false) where
  sign_set-panics :
      (rrs : List Rr) (name : Text) (ttl : ℕ) → sign_set crypto rrs name keys.zsk ttl ≡ none
  unfolding sign_set
  sign_set-panics rrs name ttl =
      panics (one_of keys.zsk.algorithm rsa_algorithms) (is_rsa keys.zsk.private_key)
        (one_of keys.zsk.algorithm ecdsa_algorithms) (is_ecdsa keys.zsk.private_key) _ unfit
    where
      panics :
          (rsa is_rsa' ecdsa is_ecdsa' : Bool) (o : Option Rr)
          → (if rsa then is_rsa' else if ecdsa then is_ecdsa' else true) ≡ false
          → (if rsa
              then if is_rsa' then some o else none
              else if ecdsa
              then if is_ecdsa' then some o else none
              else some none)
            ≡ none
      panics true true ecdsa is_ecdsa' o h = absurd (cc)
      panics true false ecdsa is_ecdsa' o h = refl
      panics false is_rsa' true true o h = absurd (cc)
      panics false is_rsa' true false o h = refl
      panics false is_rsa' false is_ecdsa' o h = absurd (cc)

  set_signature-panics : (s : List Rr) → Signs s → set_signature crypto qname keys s ≡ none
  unfolding set_signature
  set_signature-panics [] h = absurd h
  set_signature-panics (r ∷ s) h =
      panics (unsigned r) (r.hdr.rrtype == type_dnskey) _ h
        (sign_set-panics (r ∷ s) qname r.hdr.ttl)
    where
      panics :
          (plain dnskey : Bool) (o : Option (Option Rr))
          → plain && not dnskey ≡ true
          → o ≡ none
          → (if not plain
              then some []
              else if dnskey
              then some (keys.dns_key_sig ∷ [])
              else signed_if crypto o)
            ≡ none
      panics true true o e e' = absurd (cc)
      panics true false o e e' = rw e' refl
      panics false dnskey o e e' = absurd (cc)

  joined-none : (s : List Rr) (o : Option (List Rr)) → joined crypto s o none ≡ none
  joined-none s none = refl
  joined-none s (some x) = refl

  sign_sets-panics :
      (before after : List (SetKey × List Rr)) (e : SetKey × List Rr)
      → Signs e.1
      → sign_sets crypto qname keys (before ++ e ∷ after) ≡ none
  unfolding sign_sets
  sign_sets-panics [] after (k, s) h = rw (set_signature-panics s h) refl
  sign_sets-panics ((k', s') ∷ before) after e h =
      rw (sign_sets-panics before after e h) (joined-none s' _)

  -- Sign panics where the private key of the zone-signing key is not of the type of its algorithm,
  -- whatever the other keys, if one of the records is to be signed by it, that is, is no signature,
  -- option nor DNSKEY record; the range over the map visits every entry.
  pub sign_panics :
      (order : List (SetKey × List Rr) → List (SetKey × List Rr))
      → ((m : List (SetKey × List Rr)) (e : SetKey × List Rr) → Has m e → Has (order m) e)
      → (rrs : List Rr) → 0 < count to_sign rrs
      → sign crypto order rrs qname keys ≡ none
  unfolding sign
  sign_panics order visits rrs n =
      let (g, _, counts) = split_sets_lem rrs in
      let (e, there, signs) =
        signed_set (split_sets rrs) g
          (subst (λ (k : ℕ). 0 < k) (sym (counts to_sign ∙ unsigned-to_sign rrs)) n) in
      let (before, after, i) = visits (split_sets rrs) e there in
      ap (λ (m : List (SetKey × List Rr)). sign_sets crypto qname keys m) i
      ∙ sign_sets-panics before after e signs
    where
      unsigned-to_sign :
          (rrs : List Rr) → count (λ r. unsigned r && to_sign r) rrs ≡ count to_sign rrs
      unsigned-to_sign [] = refl
      unsigned-to_sign (r ∷ rrs) = ground (arith, unsigned-to_sign rrs)
