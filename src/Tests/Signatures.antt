-- ===== src/Tests/Signatures.antt =====
-- The sets and signatures of handler/dnssec.go.
use redins.Prelude.{
  codes, text_eq, ℕ, String, ◌≡◌, refl, sym, ap, Bool, false, ◌&&◌, Option, none, some, List, [],
  ◌∷◌, map, arith,
}
use redins.Message.{Rr}
use redins.Message
use redins.Dnssec.{
  ZoneKey, ZoneKeys, SetKey, add_record, add_records, split_sets, sign, sign_sets, set_signature,
  sign_set, unsigned, ecdsa_private_key, rsa_private_key,
}
use redins.Dnssec.Panics.{sign_panics}
use redins.Dnssec.Sets.{Grouped, DistinctKeys, all_of, count, plain, split_sets_lem, sign_lem}

abbrev rr : String → ℕ → Rr
rr name rrtype = record {
  hdr = record { name = codes name; rrtype = rrtype; class = Message.class_inet; ttl = 300 };
  body = Message.other_body;
}

abbrev answer : List Rr
answer = rr "a." 1 ∷ rr "a." 28 ∷ rr "a." 46 ∷ rr "a." 1 ∷ []

abbrev key : ZoneKey
key = record {
  dns_key = rr "e." 48;
  algorithm = 13;
  key_tag = 7;
  key_inception = 0;
  key_expiration = 9;
  private_key = ecdsa_private_key;
}

abbrev keys : ZoneKeys
keys = record { zsk = key; ksk = key; dns_key_sig = rr "e." 46 }

abbrev crypto : ZoneKey → Rr → List Rr → Option Rr
crypto k rrsig rrs = some (rr "s." 46)

abbrev same_order : List (SetKey × List Rr) → List (SetKey × List Rr)
same_order m = m

abbrev types_of : Option (List Rr) → Option (List ℕ)
types_of none = none
types_of (some rrs) = some (map (λ r. r.hdr.rrtype) rrs)

signed_types :
    types_of (sign crypto same_order answer (codes "a.") keys) ≡ some (1 ∷ 1 ∷ 46 ∷ 28 ∷ 46 ∷ [])
unfolding sign sign_sets set_signature sign_set split_sets add_records add_record text_eq
signed_types = refl

split_sets_lem_example :
    Grouped (split_sets answer)
    × DistinctKeys (split_sets answer)
    × ((p : Rr → Bool)
        → count p (all_of (split_sets answer)) ≡ count (λ r. unsigned r && p r) answer)
split_sets_lem_example = split_sets_lem answer

crypto_signs :
    (k : ZoneKey) (rrsig r : Rr) (rrs : List Rr) → crypto k rrsig rrs ≡ some r → unsigned r ≡ false
crypto_signs k rrsig r rrs e = sym (ap unsigned_or e)
  where
    unsigned_or : Option Rr → Bool
    unsigned_or none = false
    unsigned_or (some r) = unsigned r

abbrev of_a : Rr → Bool
of_a r = text_eq r.hdr.name (codes "a.")

sign_lem_example :
    (signed : List Rr) × (sign crypto same_order answer (codes "a.") keys ≡ some signed)
    × (count (plain of_a) signed ≡ count (plain of_a) answer)
sign_lem_example =
    sign_lem crypto same_order (codes "a.") keys crypto_signs refl refl (λ p m. refl) of_a answer

abbrev mistyped_keys : ZoneKeys
mistyped_keys = record keys { zsk = record key { private_key = rsa_private_key } }

sign_panics_example : sign crypto same_order answer (codes "a.") mistyped_keys ≡ none
sign_panics_example =
    sign_panics crypto (codes "a.") mistyped_keys refl same_order (λ m e h. h) answer (omega arith)
