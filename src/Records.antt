-- ===== src/Records.antt =====
-- handler/dns_types.go: the resource records of a location, as they are decoded from redis.
pub mod Decoding
use redins.Prelude.{ℤ, Text, ℕ, Bool, Option, List}

-- net.IP: the bytes of an address; a nil IP has none.
abbrev pub Ip : Type 0
Ip = List ℕ

pub record IpRr : Type 0 where
  pub weight : ℤ
  pub ip : Ip
  pub country : List Text
  pub asn : List ℕ

pub record IpHealthCheckConfig : Type 0 where
  pub protocol : Text
  pub uri : Text
  pub port : ℤ
  pub timeout : ℤ
  pub up_count : ℤ
  pub down_count : ℤ
  pub enable : Bool

pub record IpFilterConfig : Type 0 where
  pub count : Text
  pub order : Text
  pub geo_filter : Text

pub record IpRrset : Type 0 where
  pub filter_config : IpFilterConfig
  pub health_check_config : IpHealthCheckConfig
  pub ttl : ℕ
  pub items : List IpRr

pub record CnameRrset : Type 0 where
  pub host : Text
  pub ttl : ℕ

pub record TxtRr : Type 0 where
  pub text : Text

pub record TxtRrset : Type 0 where
  pub ttl : ℕ
  pub items : List TxtRr

pub record NsRr : Type 0 where
  pub host : Text

pub record NsRrset : Type 0 where
  pub ttl : ℕ
  pub items : List NsRr

pub record MxRr : Type 0 where
  pub host : Text
  pub preference : ℕ

pub record MxRrset : Type 0 where
  pub ttl : ℕ
  pub items : List MxRr

pub record SrvRr : Type 0 where
  pub target : Text
  pub priority : ℕ
  pub weight : ℕ
  pub port : ℕ

pub record SrvRrset : Type 0 where
  pub ttl : ℕ
  pub items : List SrvRr

pub record CaaRr : Type 0 where
  pub tag : Text
  pub value : Text
  pub flag : ℕ

pub record CaaRrset : Type 0 where
  pub ttl : ℕ
  pub items : List CaaRr

pub record PtrRrset : Type 0 where
  pub domain : Text
  pub ttl : ℕ

pub record TlsaRr : Type 0 where
  pub usage : ℕ
  pub selector : ℕ
  pub matching_type : ℕ
  pub certificate : Text

pub record TlsaRrset : Type 0 where
  pub ttl : ℕ
  pub items : List TlsaRr

pub record AnameRecord : Type 0 where
  pub location : Text

pub record RrSets : Type 0 where
  pub a : IpRrset
  pub aaaa : IpRrset
  pub txt : TxtRrset
  pub cname : Option CnameRrset
  pub ns : NsRrset
  pub mx : MxRrset
  pub srv : SrvRrset
  pub caa : CaaRrset
  pub ptr : Option PtrRrset
  pub tlsa : TlsaRrset
  pub aname : Option AnameRecord
