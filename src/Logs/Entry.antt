-- ===== src/Logs/Entry.antt =====
-- handler/handler.go and handler/logformat/logformat.go: the entry of every request can be formatted.
use redins.Prelude.{
  if◌then◌else◌, Text, text_eq, ℕ, ◌/◌, ◌%◌, ◌^◌, ◌≡◌, refl, ◌∙◌, subst, Bool, true, false, ◌&&◌,
  Option, none, some, List, [], ◌∷◌, arith,
}
use redins.Records.{Ip}
use redins.Message.{RrType}
use redins.GeoIp.{GeoIp, get_country, get_asn}
use redins.Incoming.{Incoming, type_of, raw_name, source_ip, source_subnet}
use mathlib.Core.Option.{some-injective}
use redins.Logs.{
  uint_value, LogData, or_no_country, or_no_asn, logged_asn, put, text_value, new_log_data,
  with_source, with_domain, finish_entry,
}
use redins.Logs.Format.{RequestLog, Formatted, failed, encoded, format}

abbrev pub or_no_uuid : Option Text → Text
or_no_uuid none = []
or_no_uuid (some domain_id) = domain_id

-- The number that GetASN gives, where it does not panic.
abbrev pub asn_or_zero : Option (Option ℕ) → ℕ
asn_or_zero none = 0
asn_or_zero (some asn) = or_no_asn asn

module _ {F : Type 0} (fits : Text → Bool) (made : Bool) (encode : RequestLog → Option Text)
    (geo : GeoIp F) (parse_ip : Text → Ip) (type_text : RrType → Text) (remote : Text)
    (m : Incoming) (elapsed rcode seconds : ℕ) where
  abbrev source : Ip
  source = source_ip parse_ip remote m

  abbrev logged : LogData
  logged = new_log_data parse_ip type_text remote m

  abbrev country : Text
  country = or_no_country (get_country geo source)

  -- What is logged of a request.
  unfoldable pub log_of : Bool → Option Text → RequestLog
  log_of log_source_location domain = record {
    timestamp = seconds % 2 ^ 64;
    uuid = or_no_uuid domain;
    name = (raw_name [] m).1;
    qtype = type_text (type_of m.questions);
    ip = source_subnet m;
    country = if log_source_location then country else [];
    asn = if log_source_location then asn_or_zero (get_asn geo source) % 2 ^ 32 else 0;
    responsecode = rcode % 2 ^ 16;
    processtime = elapsed / 1000000 % 2 ^ 16;
  }

  -- Its texts.
  unfoldable pub texts_of : Bool → Option Text → List Text
  texts_of log_source_location domain =
      or_no_uuid domain
      ∷ (raw_name [] m).1
      ∷ type_text (type_of m.questions)
      ∷ source_subnet m
      ∷ (if log_source_location then country ∷ [] else [])

  -- Whether capnp can set all of the texts.
  abbrev pub all_fit : List Text → Bool
  all_fit [] = true
  all_fit (t ∷ ts) = fits t && all_fit ts

  abbrev chain : List Text → Formatted → Formatted
  chain [] result = result
  chain (t ∷ ts) result = if fits t then chain ts result else failed

  chain-all_fit :
      (ts : List Text) (result : Formatted)
      → chain ts result ≡ (if all_fit ts then result else failed)
  chain-all_fit [] result = refl
  chain-all_fit (t ∷ ts) result = ground (arith, chain-all_fit ts result)

  -- The formatting of an entry, as the texts in their order and the message that is made of them.
  abbrev InOrder : LogData → Bool → Option Text → Type 0
  InOrder entry b domain =
      format fits made encode seconds (finish_entry (with_domain domain entry) elapsed rcode) ≡ (
        if made
        then chain (texts_of b domain) (encoded fits made encode (encode (log_of b domain)))
        else failed)

  plain-InOrder : (domain : Option Text) → InOrder logged false domain
  unfolding format finish_entry new_log_data texts_of log_of text_eq
  plain-InOrder none = refl
  plain-InOrder (some domain_id) = refl

  sourced-InOrder :
      (asn : Option ℕ) (domain : Option Text)
      → get_asn geo source ≡ some asn
      → InOrder
          (put "source_asn"
            (uint_value (or_no_asn asn))
            (put "source_country" (text_value country) logged))
          true
          domain
  unfolding format finish_entry new_log_data texts_of log_of text_eq
  sourced-InOrder asn none e = rw e refl
  sourced-InOrder asn (some domain_id) e = rw e refl

  logged_asn-InOrder :
      (o : Option (Option ℕ)) (domain : Option Text) (entry : LogData)
      → get_asn geo source ≡ o
      → logged_asn (put "source_country" (text_value country) logged) o ≡ some entry
      → InOrder entry true domain
  logged_asn-InOrder none domain entry e e' = absurd (cc)
  logged_asn-InOrder (some asn) domain entry e e' =
      subst (λ (en : LogData). InOrder en true domain) (some-injective _ _ e')
        (sourced-InOrder asn domain e)

  with_source-InOrder :
      (log_source_location : Bool) (domain : Option Text) (entry : LogData)
      → with_source geo log_source_location source logged ≡ some entry
      → InOrder entry log_source_location domain
  unfolding with_source
  with_source-InOrder true domain entry e =
      logged_asn-InOrder (get_asn geo source) domain entry refl e
  with_source-InOrder false domain entry e =
      subst (λ (en : LogData). InOrder en false domain) (some-injective _ _ e)
        (plain-InOrder domain)

  -- The entry of a request passes every type assertion of Format, whatever the message, the databases
  -- and the code of the response are, with or without the source and the domain, where the databases
  -- do not panic: it is encoded as the log of the request, with the code and the milliseconds modulo
  -- 2^16 and the number of the source modulo 2^32, and Format fails where capnp makes no message,
  -- refuses one of the texts, or fails to encode it.
  pub format-entry :
      (log_source_location : Bool) (domain : Option Text) (entry : LogData)
      → with_source geo log_source_location source logged ≡ some entry
      → format fits made encode seconds (finish_entry (with_domain domain entry) elapsed rcode) ≡ (
          if made && all_fit (texts_of log_source_location domain)
          then encoded fits made encode (encode (log_of log_source_location domain))
          else failed)
  format-entry b domain entry e = with_source-InOrder b domain entry e ∙ guarded made
    where
      guarded :
          (made' : Bool)
          → (if made'
              then chain (texts_of b domain) (encoded fits made encode (encode (log_of b domain)))
              else failed)
            ≡ (if made' && all_fit (texts_of b domain)
                then encoded fits made encode (encode (log_of b domain))
                else failed)
      guarded true = chain-all_fit (texts_of b domain) _
      guarded false = refl
