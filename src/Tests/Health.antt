-- ===== src/Tests/Health.antt =====
-- The health checks of handler/healthcheck.go.
use redins.Prelude.{
  ℤ, wrap, int_add, int_sub, pos, negsuc, any, Text, codes, split_after, ℕ, ◌<◌, ◌≡◌, refl, Bool,
  true, false, Option, none, some, List, [], ◌∷◌, arith,
}
use redins.Cache.{table_cache}
use redins.Records.{Ip, IpRrset}
use redins.Ips.{white, grey, black, is_white}
use redins.Healthcheck.{
  Item, new_item, load_item, load_parts, decoded, fix_down_count, StatusSource, filter_healthcheck,
  threshold, status_up, status_down, next_up, next_down,
}
use redins.Healthcheck.Status.{IsCounted, InCounts, checks, check, checks_lem}
use redins.Healthcheck.Filtering.{filter_healthcheck_lem, filter_healthcheck_survivor}
use redins.Healthcheck.Items.{status_source}

abbrev counted : Item
counted = record new_item { up_count = pos 3; down_count = negsuc 2 }

abbrev results : List Bool
results = true ∷ true ∷ true ∷ true ∷ false ∷ false ∷ []

checks_run : (checks results counted).status ≡ negsuc 1
unfolding checks check status_up status_down next_up next_down int_add int_sub wrap
checks_run = refl

counted-IsCounted : IsCounted 2 2 counted
counted-IsCounted = record {
  up_eq = refl;
  down_eq = refl;
  up_word = omega arith;
  down_word = omega arith;
}

checks_lem_example :
    (checks results counted ≡ record counted { status = negsuc 1 })
    × InCounts 2 2 (checks results counted).status
checks_lem_example = checks_lem {u = 2} {d = 2} results counted counted-IsCounted (omega arith)

-- A redis that holds an item under each key, with the status that its text begins with.
abbrev redis_get : Text → Option Text
redis_get key = some (2 ∷ [])

abbrev decode : Text → Item → Item
decode [] item = item
decode (n ∷ str) item = record item { status = pos n; down_count = pos 3 }

abbrev no_items : Text → Option (Item × ℕ)
no_items key = none

abbrev ip_text : Ip → Text
ip_text ip = ip

ten_pos : 0 < 10
ten_pos = omega arith

abbrev source : StatusSource
source = status_source redis_get decode (table_cache Item) true 10 ten_pos ip_text 5

abbrev rrset : IpRrset
rrset = record {
  filter_config = record { count = codes "multi"; order = codes "none"; geo_filter = codes "none" };
  health_check_config = record {
    protocol = codes "http";
    uri = codes "/";
    port = pos 80;
    timeout = pos 1000;
    up_count = pos 3;
    down_count = negsuc 2;
    enable = true;
  };
  ttl = 300;
  items =
      record { weight = pos 1; ip = 1 ∷ []; country = []; asn = [] }
      ∷ record { weight = pos 1; ip = 2 ∷ []; country = []; asn = [] }
      ∷ [];
}

abbrev twos : Ip → ℤ
twos ip = pos 2

twos_shown : (ip : Ip) → source.observe no_items (codes "w") ip ≡ twos ip
unfolding load_item load_parts decoded fix_down_count split_after
twos_shown ip = refl

filter_healthcheck_example :
    (filter_healthcheck source (codes "w") true no_items rrset (white ∷ grey ∷ [])).1
    ≡ white ∷ black ∷ []
unfolding threshold int_sub int_add wrap
filter_healthcheck_example =
    filter_healthcheck_lem source (codes "w") twos no_items rrset (white ∷ grey ∷ []) twos_shown

filter_healthcheck_survivor_example :
    any is_white (filter_healthcheck source (codes "w") true no_items rrset (white ∷ grey ∷ [])).1
    ≡ true
filter_healthcheck_survivor_example =
    filter_healthcheck_survivor source (codes "w") twos no_items rrset (white ∷ grey ∷ []) 2
      twos_shown refl (omega arith) refl
