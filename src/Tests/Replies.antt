-- ===== src/Tests/Replies.antt =====
-- The answers and the filters of handler/handler.go.
use redins.Prelude.{
  ltb, ◌==◌, if◌then◌else◌, ℤ, pos, negsuc, length, replicate, All, Text, codes, ℕ, ◌+◌, ◌-◌, ◌/◌,
  ◌≤◌, ◌≡◌, refl, true, false, none, some, List, [], ◌∷◌, ◌++◌,
}
use redins.Records.{Ip, IpRr, IpRrset, RrSets}
use redins.Ips.{is}
use redins.GeoIp.{GeoIp, Floats}
use redins.Healthcheck.{StatusSource}
use redins.Filter.{filter}
use redins.Filter.Health.{AllNotBelow, set_threshold, filter-health}
use redins.Answers.{to_uint32, get_ttl, split255, split_from}
use redins.Answers.Chunks.{joined, split255_lem}

abbrev fqdn : Text → Text
fqdn s = s ++ codes "."

abbrev long_text : Text
long_text = replicate 510 b'a'

split_run :
    (split255 (codes "ab") ≡ some (codes "ab" ∷ []))
    × (split255 long_text ≡ some (replicate 255 b'a' ∷ replicate 255 b'a' ∷ [] ∷ []))
unfolding split255 split_from
split_run = (refl, refl)

ttl_run :
    (get_ttl (pos 300) 0 ≡ 300)
    × (get_ttl (pos 300) 500 ≡ 300)
    × (get_ttl (pos 0) 500 ≡ 500)
    × (get_ttl (negsuc 0) 7 ≡ 7)
unfolding get_ttl to_uint32
ttl_run = (refl, refl, refl, refl)

abbrev old_ttl : ℕ
old_ttl = 500

split255_lem_example :
    (chunks : List Text) × (split255 long_text ≡ some chunks)
    × (joined chunks ≡ long_text)
    × All (λ c. length c ≤ 255) chunks
    × (length chunks ≡ length long_text / 255 + 1)
split255_lem_example = split255_lem long_text

abbrev ip_rr : ℕ → IpRr
ip_rr host = record { weight = pos 1; ip = 10 ∷ 0 ∷ 0 ∷ host ∷ []; country = []; asn = [] }

abbrev set_of : List IpRr → IpRrset
set_of rrs = record {
  filter_config = record {
    count = codes "multi";
    order = codes "none";
    geo_filter = codes "country";
  };
  health_check_config = record {
    protocol = codes "http";
    uri = [];
    port = pos 80;
    timeout = pos 1000;
    up_count = pos 3;
    down_count = negsuc 2;
    enable = true;
  };
  ttl = 300;
  items = rrs;
}

abbrev sets : RrSets
sets = record {
  a = set_of (ip_rr 1 ∷ ip_rr 2 ∷ []);
  aaaa = set_of [];
  txt = record { ttl = 300; items = record { text = codes "v" } ∷ record { text = [] } ∷ [] };
  cname = none;
  ns = record { ttl = 300; items = [] };
  mx = record { ttl = 300; items = record { host = codes "mx"; preference = 10 } ∷ [] };
  srv = record { ttl = 300; items = [] };
  caa = record {
    ttl = 300;
    items = record { tag = codes "issue"; value = codes "ca"; flag = 0 } ∷ [];
  };
  ptr = none;
  tlsa = record { ttl = 300; items = [] };
  aname = none;
}

-- The last byte of an address.
abbrev last : Ip → ℕ
last [] = 0
last (x ∷ []) = x
last (x ∷ xs) = last xs

-- The address 10.0.0.2 is down.
abbrev status : Ip → ℤ
status ip = if last ip == 2 then negsuc 2 else pos 3

abbrev statuses : StatusSource
statuses = record {
  State = Unit;
  get_status = λ s host ip. (s, status ip);
  observe = λ s host ip. status ip;
  get_status-observe = λ s host ip. refl;
  observe-get_status = λ s host ip host' ip'. refl;
}

abbrev numbers : Floats ℕ
numbers = record {
  lt = ltb;
  eq = λ a b. a == b;
  zero_deg = 0;
  far = 1000;
  distance = λ a b. a.0 - b.0;
}

abbrev geo : GeoIp ℕ
geo = record {
  enable = true;
  country_db = some (record { country = λ ip. some (codes "IR"); location = λ ip. none });
  asn_db = none;
}

filter-health_example :
    AllNotBelow status
      (set_threshold numbers geo statuses 7 (codes "w.") [] sets.a status tt)
      (filter numbers geo statuses true 7 tt (codes "w.") [] sets.a).1
    × (is sets.a.filter_config.geo_filter "location" ≡ false
        → (served : List Ip) × ((filter numbers geo statuses true 7 tt (codes "w.") [] sets.a).1
            ≡ some served))
filter-health_example =
    filter-health numbers geo statuses 7 (codes "w.") [] sets.a status tt (λ ip. refl)
