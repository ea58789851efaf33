-- ===== src/Healthcheck/Transfer.antt =====
-- handler/healthcheck.go: Transfer, which writes an item for every address whose check is enabled.
pub mod Items
pub mod Pass
pub mod Resets
pub mod Ending
use redins.Prelude.{
  if◌then◌else◌, pos, negsuc, Text, codes, text_eq, ℕ, zero, suc, Bool, true, false, not, Option,
  none, some, List, [], ◌∷◌, ◌++◌,
}
use redins.Records.{Ip, IpRr, IpRrset, IpHealthCheckConfig}
use redins.Healthcheck.{Item, item_key, configured, transfer_item, load_item}
use redins.Healthcheck.Store.{StatusServer, status_prefix, store_item}

-- The redis of the zones, `none` for an error: SMEMBERS, HKEYS, HGET and GET.
pub record ConfigServer : Type 0 where
  pub s_members : Text → Option (List Text)
  pub get_h_keys : Text → Option (List Text)
  pub h_get : Text → Text → Option Text
  pub get : Text → Option Text

-- A call that fails gives no members, and the empty text.
abbrev pub or_empty {ℓ} : {A : Type ℓ} → Option (List A) → List A
or_empty none = []
or_empty (some xs) = xs

abbrev zones_key : Text
zones_key = codes "redins:zones"

abbrev zone_key : Text → Text
zone_key zone = codes "redins:zones:" ++ zone

-- `decode_id` is the identifier in a configuration that is decoded, also with an error.
abbrev domain_id_in : (Text → Text) → Text → Text
domain_id_in decode_id [] = []
domain_id_in decode_id (c ∷ val) = decode_id (c ∷ val)

unfoldable pub get_domain_id : ConfigServer → (Text → Text) → Text → Text
get_domain_id config decode_id zone =
    domain_id_in decode_id (or_empty (config.get (zone_key zone ++ codes ":config")))

unfoldable pub host_of : Text → Text → Text
host_of domain subdomain =
    if text_eq subdomain (codes "@") then domain else subdomain ++ (codes "." ++ domain)

-- The health check that a record has unless it configures its own.
abbrev pub default_health_check : IpHealthCheckConfig
default_health_check = record {
  protocol = codes "http";
  uri = codes "/";
  port = pos 80;
  timeout = pos 1000;
  up_count = pos 3;
  down_count = negsuc 2;
  enable = false;
}

abbrev pub default_rrset : IpRrset
default_rrset = record {
  filter_config = record { count = []; order = []; geo_filter = [] };
  health_check_config = default_health_check;
  ttl = 0;
  items = [];
}

-- What decoding and printing do for Transfer: the sets A and AAAA of a record over the defaults, or
-- an error; the identifier of a domain; an item; the text of an address.
pub record Codec : Type 0 where
  pub decode_record : Text → IpRrset → IpRrset → Option (IpRrset × IpRrset)
  pub decode_id : Text → Text
  pub encode : Item → Option Text
  pub decode : Text → Item → Item
  pub ip_text : Ip → Text

abbrev pub subdomains_of : ConfigServer → Text → List Text
subdomains_of config domain = or_empty (config.get_h_keys (zone_key domain))

abbrev pub domains_of : ConfigServer → List Text
domains_of config = or_empty (config.s_members zones_key)

abbrev pub record_of : ConfigServer → Codec → Text → Text → Option (IpRrset × IpRrset)
record_of config codec domain subdomain =
    codec.decode_record (or_empty (config.h_get (zone_key domain) subdomain)) default_rrset
      default_rrset

module _ (r : StatusServer) (config : ConfigServer) (codec : Codec) (update_interval : ℕ) where
  unfoldable pub store_transferred : r.State → Option Item → r.State
  store_transferred s none = s
  store_transferred s (some item) = store_item r codec.encode s item

  unfoldable pub transfer_address : r.State → IpRrset → Text → Text → IpRr → r.State
  unfolding store_transferred
  transfer_address s rrset host domain_id rr =
      let ip = codec.ip_text rr.ip in
      let key = item_key host ip in
      r.expire
        (store_transferred s (
          transfer_item (load_item (r.get s) codec.decode key)
            (configured rrset host ip domain_id)))
        (status_prefix ++ key) update_interval

  unfoldable pub transfer_addresses : r.State → IpRrset → Text → Text → List IpRr → r.State
  transfer_addresses s rrset host domain_id [] = s
  transfer_addresses s rrset host domain_id (rr ∷ rrs) =
      transfer_addresses (transfer_address s rrset host domain_id rr) rrset host domain_id rrs

  unfoldable pub transfer_rrset : r.State → Text → Text → IpRrset → r.State
  transfer_rrset s host domain_id rrset =
      if not rrset.health_check_config.enable
      then s
      else transfer_addresses s rrset host domain_id rrset.items

  -- A record that cannot be parsed is skipped.
  unfoldable pub transfer_record : r.State → Text → Text → Option (IpRrset × IpRrset) → r.State
  transfer_record s host domain_id none = s
  transfer_record s host domain_id (some (a, aaaa)) =
      transfer_rrset (transfer_rrset s host domain_id a) host domain_id aaaa

  unfoldable pub transfer_subdomain : r.State → Text → Text → Text → r.State
  unfolding transfer_record
  transfer_subdomain s domain domain_id subdomain =
      transfer_record s (host_of domain subdomain) domain_id
        (record_of config codec domain subdomain)

  -- `quits n` tells whether the n-th `select` of the run takes h.quit. The result has the number of
  -- the next one, or `none` where Transfer has returned.
  module _ (quits : ℕ → Bool) where
    abbrev pub Outcome : Type 0
    Outcome = r.State × Option ℕ

    unfoldable pub transfer_subdomains : ℕ → r.State → Text → Text → List Text → Outcome
    transfer_subdomains n s domain domain_id [] = (s, some n)
    transfer_subdomains n s domain domain_id (subdomain ∷ subdomains) = elim (quits n) [
      | true ↦ (s, none)
      | false ↦
          transfer_subdomains (suc n) (transfer_subdomain s domain domain_id subdomain) domain
            domain_id subdomains
    ]

    unfoldable pub and_then : Outcome → (ℕ → r.State → Outcome) → Outcome
    and_then (s, none) next = (s, none)
    and_then (s, some n) next = next n s

    unfoldable pub transfer_domains : ℕ → r.State → List Text → Outcome
    unfolding and_then
    transfer_domains n s [] = (s, some n)
    transfer_domains n s (domain ∷ domains) =
        and_then
          (transfer_subdomains n s domain (get_domain_id config codec.decode_id domain)
            (subdomains_of config domain))
          (λ n' s'. transfer_domains n' s' domains)

    -- One round of the outer loop.
    unfoldable pub transfer_pass : ℕ → r.State → Outcome
    transfer_pass n s = transfer_domains n s (domains_of config)

    -- The outer loop, for a number of rounds.
    unfoldable pub transfer : ℕ → ℕ → r.State → Outcome
    unfolding and_then
    transfer zero n s = (s, some n)
    transfer (suc rounds) n s = and_then (transfer_pass n s) (transfer rounds)
