-- ===== src/Tests/Requests.antt =====
-- The handling of requests by handler/handler.go, over a zone with a CNAME record and a loop of two.
use redins.Prelude.{
  if◌then◌else◌, Bool-cases, pos, All, Text, codes, text_eq, text_eq_iff, has_suffix, trim_suffix,
  split_after, ℕ, String, ◌≡◌, refl, ap, ◌⊎◌, inl, inr, true, false, Option, none, some, List, [],
  ◌∷◌, ◌++◌, map, arith,
}
use redins.Records.{IpRr, IpRrset, RrSets, CnameRrset, CaaRr}
use redins.Zone.{Zone, find_location, find_wildcard, split_query, key_exists, key_matches}
use redins.Message
use redins.Message.{Rr, RrHeader, type_a}
use redins.Dnssec.{ZoneKey, other_private_key}
use redins.Answers.{empty, a_answers, cname_answers, get_ttl, to_uint32}
use redins.Request.Missing.{Reason}
use redins.Request.NameError.{handle_request-name_error}
use redins.Backend.{
  soa_of, rcode_name_error, Calm, Location, Backend, locate, rcode_success, rcode_server_failure,
  rcode_not_auth,
}
use redins.Caa.{find_caa}
use redins.Caa.Ends.{find_caa_lem}
use redins.Reply.{Context, Signing, answer_for, answer_a}
use redins.Request.{
  follow, at_match, loaded, at_location, in_zone, secure, answer_request, handle_request,
}
use redins.Request.Aliases.{IsCode}
use redins.Request.Chain.{SameRequest, Chain}
use redins.Request.Loop.{follow-Chain}
use redins.Request.Response.{Responds, handle_request-Responds}
use redins.Request.Cycle.{IsClosed, GivesUp, handle_request-cycle}

abbrev name : Text
name = codes "e."

abbrev address_set : List IpRr → IpRrset
address_set rrs = record {
  filter_config = record { count = codes "multi"; order = codes "none"; geo_filter = codes "none" };
  health_check_config = record {
    protocol = [];
    uri = [];
    port = pos 0;
    timeout = pos 0;
    up_count = pos 0;
    down_count = pos 0;
    enable = false;
  };
  ttl = 300;
  items = rrs;
}

abbrev sets_of : List IpRr → List CaaRr → Option CnameRrset → RrSets
sets_of rrs caas cname = record {
  a = address_set rrs;
  aaaa = address_set [];
  txt = record { ttl = 300; items = [] };
  cname = cname;
  ns = record { ttl = 300; items = [] };
  mx = record { ttl = 300; items = [] };
  srv = record { ttl = 300; items = [] };
  caa = record { ttl = 300; items = caas };
  ptr = none;
  tlsa = record { ttl = 300; items = [] };
  aname = none;
}

abbrev to_host : String → RrSets
to_host host = sets_of [] [] (some (record { host = codes host; ttl = 60 }))

abbrev zone : Zone
zone = record {
  name = name;
  config = record { domain_id = []; soa = none; dns_sec = false; cname_flattening = false };
  locations = codes "a" ∷ codes "b" ∷ codes "x" ∷ codes "y" ∷ [];
  cache_timeout = pos 0;
}

abbrev host_rr : IpRr
host_rr = record { weight = pos 1; ip = 9 ∷ []; country = []; asn = [] }

-- `a` leads to `b`, which has an address; `x` and `y` lead to each other.
abbrev pub stored : Text → RrSets
stored location =
    if text_eq location (codes "a")
    then to_host "b.e."
    else if text_eq location (codes "x")
    then to_host "y.e."
    else if text_eq location (codes "y")
    then to_host "x.e."
    else if text_eq location (codes "e.")
    then sets_of [] (record { tag = codes "issue"; value = codes "ca"; flag = 0 } ∷ []) none
    else sets_of (host_rr ∷ []) [] none

abbrev pub backend : Backend
backend = record {
  State = Unit;
  find_zone = λ qname. if has_suffix qname name then name else [];
  load_zone = λ s zone_name. some (s, some zone);
  load_location = λ s location z.
      (s, some (record { name = location ++ codes ".e."; rrsets = stored location }));
  filter = λ s n source rrset. (s, some (map (λ r. r.ip) rrset.items));
  upstream_query = λ s qname qtype. (s, ([], rcode_server_failure));
  log_source = λ source. some tt;
}

abbrev pub same_name : Text → Text
same_name s = s

abbrev no_key : ZoneKey
no_key = record {
  dns_key = record {
    hdr = record { name = []; rrtype = 48; class = Message.class_inet; ttl = 0 };
    body = Message.other_body;
  };
  algorithm = 0;
  key_tag = 0;
  key_inception = 0;
  key_expiration = 0;
  private_key = other_private_key;
}

abbrev pub signing : Signing
signing = record {
  keys = λ z. record { zsk = no_key; ksk = no_key; dns_key_sig = no_key.dns_key };
  order = λ sets. sets;
  crypto = λ key rrsig rrs. none;
}

abbrev pub query : String → Context
query qname = record {
  raw_name = codes qname;
  qtype = type_a;
  source_ip = 1 ∷ [];
  do_bit = false;
  auth = true;
  answer = [];
  authority = [];
  additional = [];
}

-- The answer to a query: the names of its records, and the code.
abbrev summary : Option (backend.State × Context × ℕ) → Option (List Text × ℕ)
summary none = none
summary (some (s, c, rcode)) = some (map (λ r. r.hdr.name) c.answer, rcode)

handled :
    (summary (handle_request backend same_name (pos 60) signing tt (query "a.e."))
      ≡ some (codes "a.e." ∷ codes "b.e." ∷ [], rcode_success))
    × (summary (handle_request backend same_name (pos 60) signing tt (query "x.e."))
        ≡ some ([], rcode_server_failure))
    × (summary (handle_request backend same_name (pos 60) signing tt (query "w.f."))
        ≡ some ([], rcode_not_auth))
unfolding handle_request answer_request in_zone secure follow at_match loaded at_location answer_for
    answer_a a_answers cname_answers locate find_location find_wildcard split_query key_exists
    key_matches text_eq has_suffix trim_suffix split_after get_ttl to_uint32
handled = (refl, refl, refl)

abbrev pub no_panics : Calm backend
no_panics = ((λ s n source rrset. (_, refl)), (λ s zone_name. (_, refl)), (λ source. refl))

handle_request-Responds_example :
    Responds backend same_name
      (pos 60)
      signing
      (query "a.e.")
      (handle_request backend same_name (pos 60) signing tt (query "a.e."))
handle_request-Responds_example =
    handle_request-Responds backend same_name (pos 60) signing (λ z. refl) no_panics tt
      (query "a.e.")

abbrev caa_location : Location
caa_location = record { name = codes "a.e."; rrsets = stored (codes "a") }

find_caa_lem_example :
    (s' : backend.State) × (found : Option Location) × (find_caa backend zone tt caa_location
      ≡ some (s', found))
    × ((r : Location) → found ≡ some r → empty r.rrsets.caa.items ≡ false)
find_caa_lem_example = find_caa_lem backend zone tt caa_location

abbrev header : Text → ℕ → RrHeader
header owner rrtype = record { name = owner; rrtype = rrtype; class = Message.class_inet; ttl = 60 }

abbrev answered : Context
answered = record (query "a.e.") {
  answer =
      record { hdr = header (codes "a.e.") 5; body = Message.cname_body (codes "b.e.") }
      ∷ record { hdr = header (codes "b.e.") 1; body = Message.a_body (9 ∷ []) }
      ∷ [];
}

-- The run of the loop for `a.e.`.
followed :
    follow backend same_name (pos 60) signing name zone 11 tt (query "a.e.") (codes "a.e.")
    ≡ some (tt, answered, rcode_success)
unfolding follow at_match loaded at_location answer_for answer_a a_answers cname_answers locate
    find_location find_wildcard split_query key_exists key_matches text_eq has_suffix trim_suffix
    split_after get_ttl to_uint32
followed = refl

follow-Chain_example :
    IsCode rcode_success
    × SameRequest (query "a.e.") answered
    × ((answered.answer ≡ [])
        ⊎ ((rrs : List Rr) × (answered.answer ≡ [] ++ rrs) × Chain (codes "a.e.") rrs))
follow-Chain_example =
    follow-Chain backend same_name (pos 60) signing name zone 11 tt tt (query "a.e.") answered
      (codes "a.e.") rcode_success refl (λ e. absurd (omega (arith, e)))
      (λ e. absurd (omega (arith, e))) followed

data InCycle : Text → Type 0 where
  at_x : InCycle (codes "x.e.")
  at_y : InCycle (codes "y.e.")

-- A cache that keeps every record for good.
abbrev Records : Type 0
Records = List (Text × RrSets)

abbrev location_of : Text → RrSets → Location
location_of location sets = record { name = location ++ codes ".e."; rrsets = sets }

recall : Records → Text → Option RrSets
recall [] location = none
recall ((key, sets) ∷ records) location =
    if text_eq key location then some sets else recall records location

abbrev remembered : Records → Text → Option RrSets → Records × Option Location
remembered records location none =
    ((location, stored location) ∷ records, some (location_of location (stored location)))
remembered records location (some sets) = (records, some (location_of location sets))

abbrev retaining : Backend
retaining = record {
  State = Records;
  find_zone = backend.find_zone;
  load_zone = λ s zone_name. some (s, some zone);
  load_location = λ s location z. remembered s location (recall s location);
  filter = λ s n source rrset. (s, some (map (λ r. r.ip) rrset.items));
  upstream_query = λ s qname qtype. (s, ([], rcode_server_failure));
  log_source = λ source. some tt;
}

-- What is kept is what was stored.
abbrev AsStored : Records → Type 0
AsStored = All (λ (kept : Text × RrSets). kept.1 ≡ stored kept.0)

recall-AsStored :
    (records : Records) (location : Text)
    → AsStored records
    → (recall records location ≡ none) ⊎ (recall records location ≡ some (stored location))
unfolding recall
recall-AsStored [] location h = inl refl
recall-AsStored ((key, sets) ∷ records) location (e, h) = elim (Bool-cases (text_eq key location)) [
  | inl same ↦
      inr (simp (same, e) (ap (λ (t : Text). some (stored t)) ((text_eq_iff key location).0 same)))
  | inr other ↦ simp other (recall-AsStored records location h)
]

remembered-AsStored :
    (records : Records) (location : Text)
    → AsStored records
    → (records' : Records) × (remembered records location (recall records location)
        ≡ (records', some (location_of location (stored location))))
      × AsStored records'
remembered-AsStored records location h = elim (recall-AsStored records location h) [
  | inl new ↦
      ((location, stored location) ∷ records, ap (remembered records location) new, (refl, h))
  | inr kept ↦ (records, ap (remembered records location) kept, h)
]

leads_on : IsClosed retaining same_name (pos 60) signing name zone InCycle AsStored
unfolding locate find_location find_wildcard split_query key_exists key_matches text_eq has_suffix
    trim_suffix split_after
leads_on s _ good at_x =
    let (s', e, good') = remembered-AsStored s (codes "x") good in
    record {
      inside = refl;
      place = codes "x";
      found = inl refl;
      record' = location_of (codes "x") (stored (codes "x"));
      state = s';
      loads = e;
      cname = record { host = codes "y.e."; ttl = 60 };
      alias = refl;
      target_inside = refl;
      again = at_y;
      good = good';
    }
leads_on s _ good at_y =
    let (s', e, good') = remembered-AsStored s (codes "y") good in
    record {
      inside = refl;
      place = codes "y";
      found = inl refl;
      record' = location_of (codes "y") (stored (codes "y"));
      state = s';
      loads = e;
      cname = record { host = codes "x.e."; ttl = 60 };
      alias = refl;
      target_inside = refl;
      again = at_x;
      good = good';
    }

handle_request-cycle_example :
    GivesUp retaining same_name
      (pos 60)
      signing
      name
      zone
      (handle_request retaining same_name (pos 60) signing [] (query "x.e."))
unfolding has_suffix text_eq
handle_request-cycle_example =
    handle_request-cycle retaining same_name (pos 60) signing name zone InCycle AsStored leads_on
      refl refl [] [] (query "x.e.") refl refl refl refl tt at_x refl

denied :
    handle_request backend same_name (pos 60) signing tt (query "w.e.")
    ≡ some (tt, record (query "w.e.") { authority = soa_of zone }, rcode_name_error)
unfolding handle_request answer_request in_zone secure follow at_match locate find_location
    find_wildcard split_query key_exists key_matches text_eq has_suffix trim_suffix split_after
denied = refl

handle_request-name_error_example :
    (loaded' : backend.State) × (z : Zone) × (backend.load_zone tt
        (backend.find_zone (codes "w.e."))
      ≡ some (loaded', some z))
    × Reason backend same_name (pos 60) signing z type_a loaded' (codes "w.e.")
handle_request-name_error_example =
    handle_request-name_error backend same_name (pos 60) signing tt tt (query "w.e.")
      (record (query "w.e.") { authority = soa_of zone }) denied
