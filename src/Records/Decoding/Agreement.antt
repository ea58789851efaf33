-- ===== src/Records/Decoding/Agreement.antt =====
-- handler/dns_types.go: UnmarshalJSON compared with what a country and a system may be written as.
use mathlib.Core.List.{append-nil, append_assoc}
use redins.Prelude.{pos, Text, ℕ, ◌≡◌, refl, sym, ap, ◌∙◌, Option, none, some, List, [], ◌∷◌, ◌++◌}
use redins.Records.{IpRr}
use redins.Records.Decoding.{
  Json, Elements, null, boolean, number, text, array, object, nil, cons, DecodeError, RawIpRr,
  append_countries, append_asns, read_country, read_asn, unmarshal_json, with_asn, with_country,
  unmarshal_raw,
}

abbrev prepend {ℓ} : {A : Type ℓ} → A → Option (List A) → Option (List A)
prepend a none = none
prepend a (some xs) = some (a ∷ xs)

-- new(IP_RR)
abbrev pub new_ip_rr : IpRr
new_ip_rr = record { weight = pos 0; ip = []; country = []; asn = [] }

abbrev one {ℓ} : {A : Type ℓ} → Option A → Option (List A)
one none = none
one (some a) = some (a ∷ [])

module _ {Number : Type 0} where
  abbrev string_of : Json Number → Option Text
  string_of (text s) = some s
  string_of _ = none

  abbrev number_of : (Number → ℕ) → Json Number → Option ℕ
  number_of to_uint (number n) = some (to_uint n)
  number_of to_uint _ = none

  abbrev all_of {ℓ} : {A : Type ℓ} → (Json Number → Option A) → Elements Number → Option (List A)
  all_of f nil = some []
  all_of f (cons x xs) = elim (f x) [ none ↦ none | some a ↦ prepend a (all_of f xs) ]

  -- What a value lists: nothing, the values of an array, or one value.
  abbrev list_of {ℓ} : {A : Type ℓ} → (Json Number → Option A) → Json Number → Option (List A)
  list_of f null = some []
  list_of f (array xs) = all_of f xs
  list_of f j = one (f j)

  abbrev pub countries_of : Json Number → Option (List Text)
  countries_of = list_of string_of

  abbrev pub asns_of : (Number → ℕ) → Json Number → Option (List ℕ)
  asns_of to_uint = list_of (number_of to_uint)

-- A loop that adds the listed values, or fails where there is no list.
abbrev Reads {ℓ} : {A : Type ℓ} → List A → Option (List A) → List A × Option DecodeError → Type ℓ
Reads {A = A} old none o = (xs : List A) × (e : DecodeError) × (o ≡ (xs, some e))
Reads old (some xs) o = o ≡ (old ++ xs, none)

Reads-prepend {ℓ} :
    {A : Type ℓ} (old : List A) (a : A) (listed : Option (List A)) (o : List A × Option DecodeError)
    → Reads (old ++ a ∷ []) listed o
    → Reads old (prepend a listed) o
Reads-prepend old a none o h = h
Reads-prepend old a (some xs) o h = h ∙ ap (λ ys. (ys, none)) (append_assoc old (a ∷ []) xs)

-- The result, without a record that is only partly written.
abbrev pub accepted : IpRr × Option DecodeError → Option IpRr
accepted (iprr, none) = some iprr
accepted (iprr, some error) = none

module _ {Number : Type 0} (to_uint : Number → ℕ) where
  append_countries-Reads :
      (old : List Text) (xs : Elements Number)
      → Reads old (all_of string_of xs) (append_countries to_uint old xs)
  unfolding append_countries
  append_countries-Reads old nil = ap (λ (ys : List Text). (ys, none)) (sym (append-nil old))
  append_countries-Reads old (cons (text s) xs) =
      Reads-prepend old s (all_of string_of xs) _ (append_countries-Reads (old ++ s ∷ []) xs)
  append_countries-Reads old (cons null xs) = (old, DecodeError.string_expected, refl)
  append_countries-Reads old (cons (boolean b) xs) = (old, DecodeError.string_expected, refl)
  append_countries-Reads old (cons (number n) xs) = (old, DecodeError.string_expected, refl)
  append_countries-Reads old (cons (array ys) xs) = (old, DecodeError.string_expected, refl)
  append_countries-Reads old (cons object xs) = (old, DecodeError.string_expected, refl)

  append_asns-Reads :
      (old : List ℕ) (xs : Elements Number)
      → Reads old (all_of (number_of to_uint) xs) (append_asns to_uint old xs)
  unfolding append_asns
  append_asns-Reads old nil = ap (λ (ys : List ℕ). (ys, none)) (sym (append-nil old))
  append_asns-Reads old (cons (number n) xs) =
      Reads-prepend old (to_uint n) (all_of (number_of to_uint) xs) _
        (append_asns-Reads (old ++ to_uint n ∷ []) xs)
  append_asns-Reads old (cons null xs) = (old, DecodeError.invalid_type, refl)
  append_asns-Reads old (cons (boolean b) xs) = (old, DecodeError.invalid_type, refl)
  append_asns-Reads old (cons (text s) xs) = (old, DecodeError.invalid_type, refl)
  append_asns-Reads old (cons (array ys) xs) = (old, DecodeError.invalid_type, refl)
  append_asns-Reads old (cons object xs) = (old, DecodeError.invalid_type, refl)

  read_country-Reads : (j : Json Number) → Reads [] (countries_of j) (read_country to_uint [] j)
  unfolding read_country
  read_country-Reads null = refl
  read_country-Reads (text s) = refl
  read_country-Reads (array xs) = append_countries-Reads [] xs
  read_country-Reads (boolean b) = ([], DecodeError.bad_country, refl)
  read_country-Reads (number n) = ([], DecodeError.bad_country, refl)
  read_country-Reads object = ([], DecodeError.bad_country, refl)

  read_asn-Reads : (j : Json Number) → Reads [] (asns_of to_uint j) (read_asn to_uint [] j)
  unfolding read_asn
  read_asn-Reads null = refl
  read_asn-Reads (number n) = refl
  read_asn-Reads (array xs) = append_asns-Reads [] xs
  read_asn-Reads (boolean b) = ([], DecodeError.bad_asn, refl)
  read_asn-Reads (text s) = ([], DecodeError.bad_asn, refl)
  read_asn-Reads object = ([], DecodeError.bad_asn, refl)

  -- The record that the countries and systems of a raw value make, where both are lists.
  abbrev build : RawIpRr Number → Option (List Text) → Option (List ℕ) → Option IpRr
  build raw (some country) (some asn) =
      some (record { weight = raw.weight; ip = raw.ip; country = country; asn = asn })
  build raw _ _ = none

  abbrev pub described : Option (RawIpRr Number) → Option IpRr
  described none = none
  described (some raw) = build raw (countries_of raw.country) (asns_of to_uint raw.asn)

  abbrev blank : RawIpRr Number → IpRr
  blank raw = record new_ip_rr { ip = raw.ip; weight = raw.weight }

  accepted_asn :
      (raw : RawIpRr Number) (country : List Text) (asn : Option (List ℕ))
      (o : List ℕ × Option DecodeError)
      → Reads [] asn o
      → accepted (with_asn to_uint (record (blank raw) { country = country }) o)
        ≡ build raw (some country) asn
  accepted_asn raw country none o (xs, e, h) = rw h refl
  accepted_asn raw country (some asn) o h = rw h refl

  accepted_country :
      (raw : RawIpRr Number) (country : Option (List Text)) (o : List Text × Option DecodeError)
      → Reads [] country o
      → accepted (with_country to_uint (blank raw) raw.asn o)
        ≡ build raw country (asns_of to_uint raw.asn)
  accepted_country raw none o (xs, e, h) = rw h refl
  accepted_country raw (some country) o h =
      rw h (accepted_asn raw country (asns_of to_uint raw.asn) _ (read_asn-Reads raw.asn))

  accepted_raw :
      (o : Option (RawIpRr Number)) → accepted (unmarshal_raw to_uint new_ip_rr o) ≡ described o
  accepted_raw none = refl
  accepted_raw (some raw) =
      accepted_country raw (countries_of raw.country) _ (read_country-Reads raw.country)

  -- UnmarshalJSON into a fresh record takes exactly the values whose countries are a text, a list of
  -- texts or nothing, and whose systems are a number, a list of numbers or nothing, and makes the
  -- lists of them, in order, with the weight and the address as they are decoded.
  pub unmarshal_json_lem :
      (decode : Text → Option (RawIpRr Number)) (str : Text)
      → accepted (unmarshal_json to_uint decode new_ip_rr str) ≡ described (decode str)
  unfolding unmarshal_json
  unmarshal_json_lem decode str = accepted_raw (decode str)
