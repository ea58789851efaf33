-- ===== src/Incoming.antt =====
-- handler/request.go: the context of a request, made of the message, and the response.
pub mod Source
use redins.Prelude.{
  leb, if◌then◌else◌, Text, codes, ℕ, ◌+◌, Bool, true, false, ◌&&◌, Option, none, some, List, [],
  ◌∷◌,
}
use redins.Records.{Ip}
use redins.Message.{Rr, RrType}
use redins.Reply.{Context}

-- An option of EDNS0: EDNS0_SUBNET with its address and its text, or another.
pub data EdnsOption : Type 0 where
  subnet : Ip → Text → EdnsOption
  other_option : EdnsOption

-- dns.Msg, as far as it is read: the questions, and the options where there is an OPT record.
pub record Incoming : Type 0 where
  pub questions : List (Text × RrType)
  pub options : Option (List EdnsOption)

unfoldable pub first_subnet : List EdnsOption → Option (Ip × Text)
first_subnet [] = none
first_subnet (subnet address text ∷ os) = some (address, text)
first_subnet (other_option ∷ os) = first_subnet os

unfoldable pub subnet_of : Option (List EdnsOption) → Option (Ip × Text)
unfolding first_subnet
subnet_of none = none
subnet_of (some os) = first_subnet os

-- `parse_ip` is net.ParseIP, `remote` the address of the client.
unfoldable pub source_ip : (Text → Ip) → Text → Incoming → Ip
unfolding subnet_of
source_ip parse_ip remote m = elim (subnet_of m.options) [
  | none ↦ parse_ip remote
  | some (address, text) ↦ address
]

unfoldable pub source_subnet : Incoming → Text
unfolding subnet_of
source_subnet m = elim (subnet_of m.options) [ none ↦ [] | some (address, text) ↦ text ]

-- strings.ToLower on a name, whose bytes are ASCII.
abbrev pub lower : ℕ → ℕ
lower c = if leb 65 c && leb c 90 then c + 32 else c

unfoldable pub to_lower : Text → Text
to_lower [] = []
to_lower (c ∷ s) = lower c ∷ to_lower s

unfoldable pub name_of : List (Text × RrType) → Text
unfolding to_lower
name_of [] = codes "."
name_of ((name, qtype) ∷ questions) = to_lower name

-- RawName with the field `name`: the name is computed once. Its first part is the new field.
unfoldable pub raw_name : Text → Incoming → Text × Text
unfolding name_of
raw_name [] m = (name_of m.questions, name_of m.questions)
raw_name (c ∷ name) m = (c ∷ name, c ∷ name)

abbrev pub type_of : List (Text × RrType) → RrType
type_of [] = 0
type_of ((name, qtype) ∷ questions) = qtype

-- NewRequestContext; `do_bit` is what Do finds in the message.
unfoldable pub new_request_context : (Text → Ip) → Text → Bool → Incoming → Context
unfolding source_ip raw_name
new_request_context parse_ip remote do_bit m = record {
  raw_name = (raw_name [] m).1;
  qtype = type_of m.questions;
  source_ip = source_ip parse_ip remote m;
  do_bit = do_bit;
  auth = true;
  answer = [];
  authority = [];
  additional = [];
}

-- The message that Response writes, before SizeAndDo and Scrub of github.com/coredns/coredns.
pub record Outgoing : Type 0 where
  pub authoritative : Bool
  pub recursion_available : Bool
  pub compress : Bool
  pub rcode : ℕ
  pub answer : List Rr
  pub ns : List Rr
  pub extra : List Rr

unfoldable pub response : Context → ℕ → Outgoing
response c rcode = record {
  authoritative = c.auth;
  recursion_available = false;
  compress = true;
  rcode = rcode;
  answer = c.answer;
  ns = c.authority;
  extra = c.additional;
}
