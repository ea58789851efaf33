-- ===== src/Dnssec.antt =====
-- handler/dnssec.go: the signatures of an answer, and the denial of a name.
pub mod Sets
pub mod Fitting
pub mod Panics
use redins.Prelude.{
  ◌==◌, if◌then◌else◌, any, Text, codes, text_eq, ℕ, Bool, true, false, not, ◌&&◌, ◌||◌, Option,
  none, some, List, [], ◌∷◌, ◌++◌,
}
use redins.Zone.{Zone, SoaRrset}
use redins.Message.{
  Rr, RrType, class_inet, type_rrsig, type_opt, type_dnskey, type_nsec, nsec_body, rrsig_body,
}

-- What a crypto.PrivateKey holds: its text names an algorithm of its own, beside the one of the record.
pub data PrivateKey : Type 0 where
  rsa_private_key : PrivateKey
  ecdsa_private_key : PrivateKey
  other_private_key : PrivateKey

-- ZoneKey, with the DNSKEY record, its algorithm and its key tag, which github.com/miekg/dns computes.
pub record ZoneKey : Type 0 where
  pub dns_key : Rr
  pub private_key : PrivateKey
  pub algorithm : ℕ
  pub key_tag : ℕ
  pub key_inception : ℕ
  pub key_expiration : ℕ

-- The keys of a zone and the signature of its DNSKEY records.
pub record ZoneKeys : Type 0 where
  pub zsk : ZoneKey
  pub ksk : ZoneKey
  pub dns_key_sig : Rr

-- The key of the map of splitSets, and an entry of it.
abbrev pub SetKey : Type 0
SetKey = Text × RrType

abbrev pub key_of : Rr → SetKey
key_of r = (r.hdr.name, r.hdr.rrtype)

abbrev pub key_eq : SetKey → SetKey → Bool
key_eq (n, t) (m, u) = text_eq n m && t == u

-- A map is the list of its entries; a record joins the entry of its key, else it makes a new one.
unfoldable pub add_record : List (SetKey × List Rr) → Rr → List (SetKey × List Rr)
add_record [] r = (key_of r, r ∷ []) ∷ []
add_record ((k, s) ∷ m) r =
    let rest = add_record m r in if key_eq k (key_of r) then (k, s ++ r ∷ []) ∷ m else (k, s) ∷ rest

abbrev pub unsigned : Rr → Bool
unsigned r = not (r.hdr.rrtype == type_rrsig || r.hdr.rrtype == type_opt)

unfoldable pub add_records : List (SetKey × List Rr) → List Rr → List (SetKey × List Rr)
add_records m [] = m
add_records m (r ∷ rrs) = if unsigned r then add_records (add_record m r) rrs else add_records m rrs

unfoldable pub split_sets : List Rr → List (SetKey × List Rr)
split_sets rrs = add_records [] rrs

abbrev pub one_of : ℕ → List ℕ → Bool
one_of n ns = any (λ m. n == m) ns

abbrev pub rsa_algorithms : List ℕ
rsa_algorithms = 1 ∷ 5 ∷ 7 ∷ 8 ∷ 10 ∷ []

abbrev pub ecdsa_algorithms : List ℕ
ecdsa_algorithms = 13 ∷ 14 ∷ []

-- `key.PrivateKey.(*rsa.PrivateKey)` and `key.PrivateKey.(*ecdsa.PrivateKey)`, as tests.
abbrev pub is_rsa : PrivateKey → Bool
is_rsa rsa_private_key = true
is_rsa ecdsa_private_key = false
is_rsa other_private_key = false

abbrev pub is_ecdsa : PrivateKey → Bool
is_ecdsa rsa_private_key = false
is_ecdsa ecdsa_private_key = true
is_ecdsa other_private_key = false

-- `crypto` is RRSIG.Sign of github.com/miekg/dns with the private key: it fills in the record, and
-- `none` is an error.
module _ (crypto : ZoneKey → Rr → List Rr → Option Rr) where
  -- sign: the outer `none` is the panic of a private key that is not of the algorithm's type, the inner
  -- one an error. The algorithms that are no RSA and no ECDSA ones are not supported.
  unfoldable pub sign_set : List Rr → Text → ZoneKey → ℕ → Option (Option Rr)
  sign_set rrs name key ttl =
      let rrsig : Rr = record {
        hdr = record { name = name; rrtype = type_rrsig; class = class_inet; ttl = ttl };
        body =
            rrsig_body key.key_inception key.key_expiration key.key_tag key.dns_key.hdr.name
              key.algorithm;
      } in
      if one_of key.algorithm rsa_algorithms
      then if is_rsa key.private_key then some (crypto key rrsig rrs) else none
      else if one_of key.algorithm ecdsa_algorithms
      then if is_ecdsa key.private_key then some (crypto key rrsig rrs) else none
      else some none

  abbrev pub signed_if : Option (Option Rr) → Option (List Rr)
  signed_if none = none
  signed_if (some none) = some []
  signed_if (some (some rrsig)) = some (rrsig ∷ [])

  -- The switch of Sign on the type of the first record; a set is never empty.
  unfoldable pub set_signature : Text → ZoneKeys → List Rr → Option (List Rr)
  unfolding sign_set
  set_signature qname keys [] = some []
  set_signature qname keys (r ∷ set') =
      if not (unsigned r)
      then some []
      else if r.hdr.rrtype == type_dnskey
      then some (keys.dns_key_sig ∷ [])
      else signed_if (sign_set (r ∷ set') qname keys.zsk r.hdr.ttl)

  abbrev pub joined : List Rr → Option (List Rr) → Option (List Rr) → Option (List Rr)
  joined s none rest = none
  joined s (some signature) none = none
  joined s (some signature) (some rest) = some (s ++ signature ++ rest)

  -- The loop of Sign; `none` is a panic.
  unfoldable pub sign_sets : Text → ZoneKeys → List (SetKey × List Rr) → Option (List Rr)
  unfolding set_signature
  sign_sets qname keys [] = some []
  sign_sets qname keys ((k, s) ∷ sets) =
      joined s (set_signature qname keys s) (sign_sets qname keys sets)

  -- Sign; `order` is the order in which the range over the map visits the entries.
  unfoldable pub sign :
      (List (SetKey × List Rr) → List (SetKey × List Rr))
      → List Rr
      → Text
      → ZoneKeys
      → Option (List Rr)
  unfolding sign_sets
  sign order rrs qname keys = sign_sets qname keys (order (split_sets rrs))

-- A zone that is loaded has an SOA.
abbrev min_ttl_of : Option SoaRrset → ℕ
min_ttl_of none = 0
min_ttl_of (some soa) = soa.min_ttl

unfoldable pub nsec : Text → Zone → Rr
nsec name zone = record {
  hdr = record {
    name = name;
    rrtype = type_nsec;
    class = class_inet;
    ttl = min_ttl_of zone.config.soa;
  };
  body = nsec_body (codes "\\000." ++ name) (type_rrsig ∷ type_nsec ∷ []);
}
