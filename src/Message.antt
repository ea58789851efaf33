-- ===== src/Message.antt =====
-- The records of an answer: what handler/handler.go and handler/dnssec.go set in the types of
-- github.com/miekg/dns.
use redins.Prelude.{Text, ℕ, List}
use redins.Records.{Ip}
use redins.Zone.{SoaData}

-- The numbers of the types of records: dns.TypeA and the others that the sources name.
abbrev pub RrType : Type 0
RrType = ℕ

abbrev pub type_a : RrType
type_a = 1

abbrev pub type_ns : RrType
type_ns = 2

abbrev pub type_cname : RrType
type_cname = 5

abbrev pub type_soa : RrType
type_soa = 6

abbrev pub type_ptr : RrType
type_ptr = 12

abbrev pub type_mx : RrType
type_mx = 15

abbrev pub type_txt : RrType
type_txt = 16

abbrev pub type_aaaa : RrType
type_aaaa = 28

abbrev pub type_srv : RrType
type_srv = 33

abbrev pub type_opt : RrType
type_opt = 41

abbrev pub type_rrsig : RrType
type_rrsig = 46

abbrev pub type_nsec : RrType
type_nsec = 47

abbrev pub type_dnskey : RrType
type_dnskey = 48

abbrev pub type_tlsa : RrType
type_tlsa = 52

abbrev pub type_caa : RrType
type_caa = 257

-- dns.ClassINET and dns.ClassNONE
pub data Class : Type 0 where
  class_inet class_none : Class

pub record RrHeader : Type 0 where
  pub name : Text
  pub rrtype : RrType
  pub class : Class
  pub ttl : ℕ

-- What a record holds behind its header.
pub data Body : Type 0 where
  a_body aaaa_body : Ip → Body
  cname_body ns_body ptr_body : Text → Body
  txt_body : List Text → Body
  mx_body : Text → ℕ → Body
  srv_body : Text → ℕ → ℕ → ℕ → Body
  caa_body : Text → ℕ → Text → Body
  tlsa_body : ℕ → ℕ → ℕ → Text → Body
  soa_body : SoaData → Body
  dnskey_body : ℕ → ℕ → Text → Body
  nsec_body : Text → List RrType → Body
  rrsig_body : ℕ → ℕ → ℕ → Text → ℕ → Body
  other_body : Body

pub record Rr : Type 0 where
  pub hdr : RrHeader
  pub body : Body

-- A miekg SOA record: NewZone gives its header the name of the zone and the ttl of the set.
abbrev pub soa_rr : SoaData → Rr
soa_rr d = record {
  hdr = record { name = d.name; rrtype = type_soa; class = class_inet; ttl = d.hdr_ttl };
  body = soa_body d;
}
