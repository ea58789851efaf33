-- ===== src/Healthcheck.antt =====
-- handler/healthcheck.go: the status of the addresses that are checked, and the filter by status.
pub mod Status
pub mod Filtering
pub mod Items
pub mod Store
pub mod Transfer
pub mod Probe
use redins.Prelude.{
  if◌then◌else◌, ℤ, ltb_ℤ, eqb_ℤ, int_add, int_sub, int_neg, pos, negsuc, set, Text, codes, text_eq,
  trim_suffix, split_after, ℕ, ◌≡◌, Bool, true, false, not, ◌&&◌, Option, none, some, List, [], ◌∷◌,
  ◌++◌,
}
use redins.Cache.{GoCache}
use redins.Records.{Ip, IpRr, IpRrset}
use redins.Ips.{Mask, white, black}

-- HealthCheckItem; `last_check` is in nanoseconds, and the error is not stored.
pub record Item : Type 0 where
  pub protocol : Text
  pub uri : Text
  pub port : ℤ
  pub status : ℤ
  pub last_check : ℕ
  pub timeout : ℤ
  pub up_count : ℤ
  pub down_count : ℤ
  pub enable : Bool
  pub domain_id : Text
  pub host : Text
  pub ip : Text

-- new(HealthCheckItem)
abbrev pub new_item : Item
new_item = record {
  protocol = [];
  uri = [];
  port = pos 0;
  status = pos 0;
  last_check = 0;
  timeout = pos 0;
  up_count = pos 0;
  down_count = pos 0;
  enable = false;
  domain_id = [];
  host = [];
  ip = [];
}

-- The counter after a failure, at the down count, and after a success, at the up count.
unfoldable pub next_down : ℤ → ℤ → ℤ
next_down down_count status =
    let lower = int_sub status (pos 1) in
    if ltb_ℤ (pos 0) status then negsuc 0 else if ltb_ℤ lower down_count then down_count else lower

unfoldable pub next_up : ℤ → ℤ → ℤ
next_up up_count status =
    let higher = int_add status (pos 1) in
    if ltb_ℤ status (pos 0) then pos 1 else if ltb_ℤ up_count higher then up_count else higher

unfoldable pub status_down : Item → Item
status_down item = record item { status = next_down item.down_count item.status }

unfoldable pub status_up : Item → Item
status_up item = record item { status = next_up item.up_count item.status }

abbrev pub colon : Text
colon = codes ":"

-- The key of an address of a host.
abbrev pub item_key : Text → Text → Text
item_key host ip = host ++ (colon ++ ip)

-- A positive down count is read as a negative one.
unfoldable pub fix_down_count : Item → Item
fix_down_count item =
    if ltb_ℤ (pos 0) item.down_count
    then record item { down_count = int_neg item.down_count }
    else item

abbrev pub or_new : Option Item → Item
or_new none = new_item
or_new (some item) = item

-- Redis is read through github.com/hawell/uperdis, `none` for an error, and items are decoded by
-- github.com/json-iterator/go: `decode` is jsoniter.Unmarshal into an item that has its defaults, and
-- gives the item as it is after an error too.
module _ (redis_get : Text → Option Text) (decode : Text → Item → Item) where
  unfoldable pub decoded : Item → Option Text → Option Item
  decoded item none = none
  decoded item (some str) = some (fix_down_count (decode str item))

  unfoldable pub load_parts : Text → Option (Text × Text) → Option Item
  unfolding decoded
  load_parts key none = none
  load_parts key (some (host, ip)) =
      decoded (record new_item { host = trim_suffix host colon; ip = ip })
        (redis_get (codes "redins:healthcheck:" ++ key))

  unfoldable pub load_item : Text → Option Item
  load_item key = load_parts key (split_after b':' key)

  -- getStatus reads the clock once, at `now`. The text of an address is the parameter `ip_text`.
  module _ (c : GoCache Item) (enable : Bool) (update_interval : ℕ) (ip_text : Ip → Text) where
    unfoldable pub cached_status : c.State → ℕ → Text → Option Item → c.State × ℤ
    cached_status s now key (some item) = (s, item.status)
    cached_status s now key none =
        let item = or_new (load_item key) in (c.set s now key item update_interval, item.status)

    unfoldable pub get_status : ℕ → c.State → Text → Ip → c.State × ℤ
    unfolding cached_status
    get_status now s host ip =
        if not enable
        then (s, pos 0)
        else let key = item_key host (ip_text ip) in cached_status s now key (c.get s now key)

-- What FilterHealthcheck asks of getStatus: a call changes the state, and no status in it.
pub record StatusSource : Type 1 where
  pub State : Type 0
  pub get_status : State → Text → Ip → State × ℤ
  pub observe : State → Text → Ip → ℤ
  pub get_status-observe :
      (s : State) (host : Text) (ip : Ip) → (get_status s host ip).1 ≡ observe s host ip
  pub observe-get_status :
      (s : State) (host : Text) (ip : Ip) (host' : Text) (ip' : Ip)
      → observe (get_status s host ip).0 host' ip' ≡ observe s host' ip'

-- Below the up count every status above the down count serves.
unfoldable pub threshold : ℤ → ℤ → ℤ → ℤ
threshold up_count down_count low =
    if ltb_ℤ low (int_sub up_count (pos 1)) && ltb_ℤ down_count low
    then int_add down_count (pos 1)
    else low

module _ (src : StatusSource) (qname : Text) where
  -- The first loop: the greatest status of the white addresses, if it is above `low`.
  unfoldable pub greatest : src.State → ℤ → List Mask → List IpRr → src.State × ℤ
  greatest s low (white ∷ ms) (r ∷ rs) =
      let (s', status) = src.get_status s qname r.ip in
      greatest s' (if ltb_ℤ low status then status else low) ms rs
  greatest s low (_ ∷ ms) (r ∷ rs) = greatest s low ms rs
  greatest s low _ _ = (s, low)

  -- The second loop.
  unfoldable pub reject : src.State → ℤ → List Mask → List IpRr → src.State × List Mask
  reject s low (white ∷ ms) (r ∷ rs) =
      let (s', status) = src.get_status s qname r.ip in
      let (s'', rest) = reject s' low ms rs in
      (s'', (if ltb_ℤ status low then black else white) ∷ rest)
  reject s low (_ ∷ ms) (r ∷ rs) = let (s', rest) = reject s low ms rs in (s', black ∷ rest)
  reject s low ms _ = (s, ms)

  unfoldable pub filter_healthcheck : Bool → src.State → IpRrset → List Mask → src.State × List Mask
  filter_healthcheck enable s rrset mask =
      let up_count = rrset.health_check_config.up_count in
      let down_count = rrset.health_check_config.down_count in
      if not enable
      then (s, mask)
      else let (s', low) = greatest s down_count mask rrset.items in
        reject s' (threshold up_count down_count low) mask rrset.items

abbrev pub same_flag : Bool → Bool → Bool
same_flag true b = b
same_flag false b = not b

-- Transfer compares what is stored for an address with what its zone configures; the status and the
-- time of the last check are not compared.
unfoldable pub items_equal : Option Item → Item → Bool
items_equal none item2 = false
items_equal (some item1) item2 =
    text_eq item1.ip item2.ip
    && text_eq item1.uri item2.uri
    && eqb_ℤ item1.port item2.port
    && text_eq item1.protocol item2.protocol
    && same_flag item1.enable item2.enable
    && eqb_ℤ item1.up_count item2.up_count
    && eqb_ℤ item1.down_count item2.down_count
    && eqb_ℤ item1.timeout item2.timeout

-- The item that Transfer builds for an address of a record set.
unfoldable pub configured : IpRrset → Text → Text → Text → Item
configured rrset host ip domain_id =
    let config = rrset.health_check_config in
    record new_item {
      ip = ip;
      port = config.port;
      host = host;
      enable = config.enable;
      down_count = config.down_count;
      up_count = config.up_count;
      timeout = config.timeout;
      uri = config.uri;
      protocol = config.protocol;
      domain_id = domain_id;
    }

-- What Transfer stores for an address: `none` where it leaves the stored item.
unfoldable pub transfer_item : Option Item → Item → Option Item
unfolding items_equal
transfer_item old new = if items_equal old new then none else some new
