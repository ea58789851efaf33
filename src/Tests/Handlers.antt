-- ===== src/Tests/Handlers.antt =====
-- The joined handler of handler/handler.go, over tables for caches and a redis with one zone.
use redins.Prelude.{
  if◌then◌else◌, wrap, int_add, pos, Text, codes, text_eq, text_eq_refl, has_prefix, has_suffix,
  trim_suffix, split_after, ℕ, ◌+◌, ◌≡◌, refl, inl, Bool, true, false, Option, none, some, List, [],
  ◌∷◌, map, arith,
}
use redins.Cache.{table_cache}
use redins.Message.{Rr}
use redins.Zone.{
  Zone, find_location, find_wildcard, split_query, key_exists, key_matches, new_zone, with_soa,
  default_soa, fill_soa,
}
use redins.Dnssec.{ZoneKeys}
use redins.Healthcheck.{Item}
use redins.Loading.{Kept, Ristretto, load_location, fetch_location, refresh, label_of, name_of}
use redins.Backend.{Location, rcode_success, locate}
use redins.Reply.{Context, answer_for, answer_a}
use redins.GeoIp.{get_asn}
use redins.Request.{
  handle_request, answer_request, follow, at_match, loaded, at_location, in_zone, secure,
}
use redins.Answers.{a_answers, cname_answers, get_ttl, to_uint32}
use redins.Filter
use redins.Filter.{geo_filter}
use redins.Healthcheck.{filter_healthcheck}
use redins.Ips.{order_ips, white_rrs, start_index, serve_from, first_index, tally}
use redins.Zones
use redins.Zones.{reverse_zone, swap_from, swap_runes}
use redins.Keys
use redins.Keys.{reload, fetch_zone, made, load_zone_keys}
use redins.Request.Response.{Responds}
use redins.Handler.{Parts, Caches, log_source, backend, cached_zone, cached_location, filtered_ips}
use redins.Handler.Loaded.{IsSane}
use redins.Handler.Joined.{joined-Responds}
use redins.Tests.Trees.{entries_tree}
use redins.Tests.Geography.{numbers, geo}
use redins.Tests.Requests.{stored, signing, query}

abbrev keeping : (V : Type 0) → Ristretto V
keeping V = record {
  State = Text → Option (Kept V);
  get = λ s k. s k;
  set = λ s k v j. if text_eq k j then some v else s j;
  get-set_self = λ s k v. inl (rw (text_eq_refl k) refl);
}

-- Redis has the zone `e.`, whose locations `a` and `b` are under their names.
abbrev parts : Parts
parts = record {
  radix = entries_tree;
  record_cache = keeping Location;
  zone_cache = keeping (Zone × Option ZoneKeys);
  upstream_cache = table_cache (List Rr);
  item_cache = table_cache Item;
  Float = ℕ;
  floats = numbers;
  geo_ip = geo;
  hget = λ key field. some field;
  get = λ key. none;
  hkeys = λ key. some (codes "a" ∷ codes "b" ∷ []);
  unmarshal = λ str sets. some (stored str);
  unmarshal_config = λ str config. config;
  parse_rr = λ str. none;
  private_key = λ r str. none;
  log_source_location = true;
  key_tag = λ r. 0;
  crypto = λ key rrsig rrs. none;
  fqdn = λ host. host;
  exchange = λ name qtype connection. none;
  itoa = λ n. n ∷ [];
  status_get = λ key. none;
  decode_item = λ str item. item;
  ip_text = λ ip. ip;
  cache_timeout = pos 60;
  health_enable = false;
  update_interval = 10;
  positive = omega arith;
  advance = λ now. now + 1;
}

abbrev caches : Caches parts
caches = record {
  records = λ k. none;
  zones = λ k. none;
  upstream = record { connections = []; cache_state = λ k. none };
  items = λ k. none;
  now = 5000000000;
}

abbrev zones : parts.radix.State
zones = (codes ".e", codes "e.") ∷ []

parts-IsSane : IsSane parts
parts-IsSane = record {
  keeps_soa = λ str config soa e. (soa, e);
  dns_keys = λ str r e. absurd (cc);
  fitting = λ r str pk e. absurd (cc);
  off = refl;
  opened = λ on. (_, refl);
}

joined-Responds_example :
    Responds
      (backend parts zones)
      parts.fqdn
      (pos 60)
      signing
      (query "a.e.")
      (handle_request (backend parts zones) parts.fqdn (pos 60) signing caches (query "a.e."))
joined-Responds_example =
    joined-Responds parts zones signing (pos 60) caches (query "a.e.") parts-IsSane (λ z. refl)

abbrev is_kept : Option (Kept Location) → Bool
is_kept none = false
is_kept (some kept) = true

abbrev codes_of :
    Option ((backend parts zones).State × Context × ℕ) → Option (List Text × (ℕ × Bool))
codes_of none = none
codes_of (some (s, c, rcode)) =
    some (map (λ r. r.hdr.name) c.answer, (rcode, is_kept (s.records (codes "b.e."))))

-- A query along a CNAME record, which leaves the location that it ends at in the cache.
joined_run :
    codes_of
      (handle_request (backend parts zones) parts.fqdn (pos 60) signing caches (query "a.e."))
    ≡ some (codes "a.e." ∷ codes "b.e." ∷ [], (rcode_success, true))
unfolding handle_request answer_request log_source get_asn in_zone secure follow at_match loaded
    at_location answer_for answer_a a_answers cname_answers locate find_location find_wildcard
    split_query key_exists key_matches text_eq has_suffix has_prefix trim_suffix split_after get_ttl
    to_uint32 cached_zone cached_location filtered_ips Filter.filter geo_filter filter_healthcheck
    order_ips white_rrs start_index serve_from first_index Zones.find_zone reverse_zone swap_from
    swap_runes Keys.load_zone reload fetch_zone made load_zone_keys new_zone with_soa default_soa
    fill_soa load_location fetch_location refresh label_of name_of int_add wrap tally
joined_run = refl
