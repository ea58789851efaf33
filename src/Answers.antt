-- ===== src/Answers.antt =====
-- handler/handler.go: the records that answer a query, made of those of a location.
pub mod Chunks
pub mod Shape
use redins.Prelude.{
  ltb, leb, ◌==◌, if◌then◌else◌, ℤ, pos, negsuc, length, take, drop, Text, ℕ, zero, suc, ◌+◌, ◌-◌,
  ◌%◌, ◌^◌, Bool, true, false, Option, none, some, List, [], ◌∷◌,
}
use redins.Records.{Ip, CnameRrset, PtrRrset, TxtRr, NsRr, MxRr, SrvRr, CaaRr, TlsaRr, RrSets}
use redins.Message.{
  Rr, RrType, Class, class_inet, class_none, Body, type_a, type_aaaa, type_cname, type_txt, type_ns,
  type_mx, type_srv, type_caa, type_ptr, type_tlsa, a_body, aaaa_body, cname_body, txt_body,
  ns_body, mx_body, srv_body, caa_body, ptr_body, tlsa_body,
}

-- The conversion of an int to an uint32.
unfoldable pub to_uint32 : ℤ → ℕ
to_uint32 (pos n) = n % 2 ^ 32
to_uint32 (negsuc n) = 2 ^ 32 - 1 - n % 2 ^ 32

-- getTtl, with the MaxTtl of the configuration.
unfoldable pub get_ttl : ℤ → ℕ → ℕ
get_ttl max_ttl ttl =
    let limit = to_uint32 max_ttl in
    if ttl == 0 then limit else if limit == 0 then ttl else if ltb limit ttl then limit else ttl

-- The loop of split255 at the position `p`, where `i` is `p + 255`; `none` is the end of the fuel.
abbrev cons_chunk : Text → Option (List Text) → Option (List Text)
cons_chunk chunk none = none
cons_chunk chunk (some sx) = some (chunk ∷ sx)

unfoldable pub split_from : ℕ → Text → ℕ → Option (List Text)
split_from zero s p = none
split_from (suc fuel) s p =
    let next = split_from fuel s (p + 255) in
    if leb (p + 255) (length s) then cons_chunk (take 255 (drop p s)) next else some (drop p s ∷ [])

-- One round more than the length of the text is fuel enough.
unfoldable pub split255 : Text → Option (List Text)
split255 s = if ltb (length s) 255 then some (s ∷ []) else split_from (suc (length s)) s 0

abbrev pub or_empty : Option (List Text) → List Text
or_empty none = []
or_empty (some sx) = sx

abbrev pub empty {ℓ} : {A : Type ℓ} → List A → Bool
empty [] = true
empty (x ∷ xs) = false

-- The loops of the builders: an item that is skipped adds no answer.
abbrev pub each {ℓ} : {A : Type ℓ} → (A → Bool) → (A → Rr) → List A → List Rr
each skip build [] = []
each skip build (x ∷ xs) = if skip x then each skip build xs else build x ∷ each skip build xs

abbrev pub never {ℓ} : {A : Type ℓ} → A → Bool
never x = false

-- `fqdn` is dns.Fqdn of github.com/miekg/dns.
module _ (fqdn : Text → Text) (max_ttl : ℤ) where
  -- `new(dns.X)` with its header.
  abbrev pub rr_of : Text → RrType → Class → ℕ → Body → Rr
  rr_of name rrtype class ttl body = record {
    hdr = record { name = name; rrtype = rrtype; class = class; ttl = get_ttl max_ttl ttl };
    body = body;
  }

  unfoldable pub a_answers : Text → RrSets → List Ip → List Rr
  a_answers name record' ips =
      each empty (λ ip. rr_of name type_a class_inet record'.a.ttl (a_body ip)) ips

  unfoldable pub aaaa_answers : Text → RrSets → List Ip → List Rr
  aaaa_answers name record' ips =
      each empty (λ ip. rr_of name type_aaaa class_inet record'.aaaa.ttl (aaaa_body ip)) ips

  abbrev cname_of : Text → Option CnameRrset → List Rr
  cname_of name none = []
  cname_of name (some cname) =
      rr_of name type_cname class_inet cname.ttl (cname_body (fqdn cname.host)) ∷ []

  unfoldable pub cname_answers : Text → RrSets → List Rr
  cname_answers name record' = cname_of name record'.cname

  unfoldable pub txt_answers : Text → RrSets → List Rr
  txt_answers name record' =
      each (λ (txt : TxtRr). empty txt.text)
        (λ txt.
          rr_of name type_txt class_inet record'.txt.ttl (txt_body (or_empty (split255 txt.text))))
        record'.txt.items

  unfoldable pub ns_answers : Text → RrSets → List Rr
  ns_answers name record' =
      each (λ (ns : NsRr). empty ns.host)
        (λ ns. rr_of name type_ns class_inet record'.ns.ttl (ns_body (fqdn ns.host)))
        record'.ns.items

  unfoldable pub mx_answers : Text → RrSets → List Rr
  mx_answers name record' =
      each (λ (mx : MxRr). empty mx.host)
        (λ mx. rr_of name type_mx class_inet record'.mx.ttl (mx_body (fqdn mx.host) mx.preference))
        record'.mx.items

  -- The body of a SRV record is its target, weight, port and priority.
  unfoldable pub srv_answers : Text → RrSets → List Rr
  srv_answers name record' =
      each (λ (srv : SrvRr). empty srv.target)
        (λ srv.
          rr_of name type_srv class_inet record'.srv.ttl
            (srv_body (fqdn srv.target) srv.weight srv.port srv.priority))
        record'.srv.items

  unfoldable pub caa_answers : Text → RrSets → List Rr
  caa_answers name record' =
      each never
        (λ (caa : CaaRr).
          rr_of name type_caa class_inet record'.caa.ttl (caa_body caa.value caa.flag caa.tag))
        record'.caa.items

  abbrev ptr_of : Text → Option PtrRrset → List Rr
  ptr_of name none = []
  ptr_of name (some ptr) = rr_of name type_ptr class_inet ptr.ttl (ptr_body (fqdn ptr.domain)) ∷ []

  unfoldable pub ptr_answers : Text → RrSets → List Rr
  ptr_answers name record' = ptr_of name record'.ptr

  -- The class of a TLSA record is dns.ClassNONE.
  unfoldable pub tlsa_answers : Text → RrSets → List Rr
  tlsa_answers name record' =
      each never
        (λ (tlsa : TlsaRr).
          rr_of name type_tlsa class_none record'.tlsa.ttl
            (tlsa_body tlsa.usage tlsa.selector tlsa.matching_type tlsa.certificate))
        record'.tlsa.items
