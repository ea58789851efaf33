-- ===== src/Records/Decoding.antt =====
-- handler/dns_types.go: the decoding of an address with its countries and systems (UnmarshalJSON).
pub mod Agreement
use redins.Prelude.{ℤ, Text, ℕ, Bool, Option, none, some, List, [], ◌∷◌, ◌++◌}
use redins.Records.{Ip, IpRr}

-- A value that json decodes into an interface{}, over the type of its numbers, float64.
mutual
  pub data Json (Number : Type 0) : Type 0 where
    null : Json Number
    boolean : Bool → Json Number
    number : Number → Json Number
    text : Text → Json Number
    array : Elements Number → Json Number
    object : Json Number

  pub data Elements (Number : Type 0) : Type 0 where
    nil : Elements Number
    cons : Json Number → Elements Number → Elements Number

-- The errors: the type of the value that was found is left out.
pub data DecodeError : Type 0 where
  malformed : DecodeError
  string_expected : DecodeError
  bad_country : DecodeError
  invalid_type : DecodeError
  bad_asn : DecodeError

-- _IP_RR
pub record RawIpRr (Number : Type 0) : Type 0 where
  pub country : Json Number
  pub asn : Json Number
  pub weight : ℤ
  pub ip : Ip

-- `to_uint` is the conversion of a float64 to an uint.
module _ {Number : Type 0} (to_uint : Number → ℕ) where
  -- The loops over the elements: those before one of another type are kept.
  unfoldable pub append_countries : List Text → Elements Number → List Text × Option DecodeError
  append_countries country nil = (country, none)
  append_countries country (cons (text s) xs) = append_countries (country ++ s ∷ []) xs
  append_countries country (cons null xs) = (country, some string_expected)
  append_countries country (cons (boolean b) xs) = (country, some string_expected)
  append_countries country (cons (number n) xs) = (country, some string_expected)
  append_countries country (cons (array ys) xs) = (country, some string_expected)
  append_countries country (cons object xs) = (country, some string_expected)

  unfoldable pub append_asns : List ℕ → Elements Number → List ℕ × Option DecodeError
  append_asns asn nil = (asn, none)
  append_asns asn (cons (number n) xs) = append_asns (asn ++ to_uint n ∷ []) xs
  append_asns asn (cons null xs) = (asn, some invalid_type)
  append_asns asn (cons (boolean b) xs) = (asn, some invalid_type)
  append_asns asn (cons (text s) xs) = (asn, some invalid_type)
  append_asns asn (cons (array ys) xs) = (asn, some invalid_type)
  append_asns asn (cons object xs) = (asn, some invalid_type)

  unfoldable pub read_country : List Text → Json Number → List Text × Option DecodeError
  unfolding append_countries
  read_country country null = (country, none)
  read_country country (text s) = (s ∷ [], none)
  read_country country (array xs) = append_countries country xs
  read_country country (boolean b) = (country, some bad_country)
  read_country country (number n) = (country, some bad_country)
  read_country country object = (country, some bad_country)

  unfoldable pub read_asn : List ℕ → Json Number → List ℕ × Option DecodeError
  unfolding append_asns
  read_asn asn null = (asn, none)
  read_asn asn (number n) = (to_uint n ∷ [], none)
  read_asn asn (array xs) = append_asns asn xs
  read_asn asn (boolean b) = (asn, some bad_asn)
  read_asn asn (text s) = (asn, some bad_asn)
  read_asn asn object = (asn, some bad_asn)

  abbrev pub with_asn : IpRr → List ℕ × Option DecodeError → IpRr × Option DecodeError
  with_asn iprr (asn, error) = (record iprr { asn = asn }, error)

  abbrev pub with_country :
      IpRr → Json Number → List Text × Option DecodeError → IpRr × Option DecodeError
  with_country iprr asn (country, some error) = (record iprr { country = country }, some error)
  with_country iprr asn (country, none) =
      with_asn (record iprr { country = country }) (read_asn iprr.asn asn)

  abbrev pub unmarshal_raw : IpRr → Option (RawIpRr Number) → IpRr × Option DecodeError
  unmarshal_raw iprr none = (iprr, some malformed)
  unmarshal_raw iprr (some raw) =
      with_country (record iprr { ip = raw.ip; weight = raw.weight }) raw.asn
        (read_country iprr.country raw.country)

  -- UnmarshalJSON; `decode` is jsoniter.Unmarshal into a fresh _IP_RR, `none` for its error.
  unfoldable pub unmarshal_json :
      (Text → Option (RawIpRr Number)) → IpRr → Text → IpRr × Option DecodeError
  unfolding read_country read_asn
  unmarshal_json decode iprr str = unmarshal_raw iprr (decode str)
