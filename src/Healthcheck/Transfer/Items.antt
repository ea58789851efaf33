-- ===== src/Healthcheck/Transfer/Items.antt =====
-- handler/healthcheck.go: a round of Transfer as a loop over the items that the zones configure.
use redins.Prelude.{
  if◌then◌else◌, Text, ℕ, suc, ◌≡◌, refl, sym, ap, Bool, true, false, not, Option, none, some, List,
  [], ◌∷◌, ◌++◌,
}
use redins.Records.{IpRr, IpRrset}
use redins.Healthcheck.{Item, configured, transfer_item, load_item}
use redins.Healthcheck.Store.{StatusServer, status_prefix, key_of}
use redins.Healthcheck.Transfer.{
  ConfigServer, Codec, get_domain_id, host_of, store_transferred, transfer_address,
  transfer_addresses, transfer_rrset, transfer_record, transfer_subdomain, record_of,
  transfer_subdomains, subdomains_of, domains_of, transfer_domains, transfer_pass,
}

module _ (config : ConfigServer) (codec : Codec) where
  -- The items that the zones configure, in the order in which they are written down: of every
  -- domain, its locations, their two sets, and the addresses of a set whose check is enabled.
  abbrev pub items_of_addresses : IpRrset → Text → Text → List IpRr → List Item
  items_of_addresses rrset host domain_id [] = []
  items_of_addresses rrset host domain_id (rr ∷ rrs) =
      configured rrset host (codec.ip_text rr.ip) domain_id
      ∷ items_of_addresses rrset host domain_id rrs

  abbrev pub items_of_rrset : Text → Text → IpRrset → List Item
  items_of_rrset host domain_id rrset =
      if rrset.health_check_config.enable
      then items_of_addresses rrset host domain_id rrset.items
      else []

  abbrev pub items_of_record : Text → Text → Option (IpRrset × IpRrset) → List Item
  items_of_record host domain_id none = []
  items_of_record host domain_id (some (a, aaaa)) =
      items_of_rrset host domain_id a ++ items_of_rrset host domain_id aaaa

  abbrev pub items_of_subdomains : Text → Text → List Text → List Item
  items_of_subdomains domain domain_id [] = []
  items_of_subdomains domain domain_id (subdomain ∷ subdomains) =
      items_of_record (host_of domain subdomain) domain_id (record_of config codec domain subdomain)
      ++ items_of_subdomains domain domain_id subdomains

  abbrev pub items_of_domains : List Text → List Item
  items_of_domains [] = []
  items_of_domains (domain ∷ domains) =
      items_of_subdomains domain (get_domain_id config codec.decode_id domain)
        (subdomains_of config domain)
      ++ items_of_domains domains

  abbrev pub items_of_zones : List Item
  items_of_zones = items_of_domains (domains_of config)

module _ (r : StatusServer) (config : ConfigServer) (codec : Codec) (update_interval : ℕ) where
  -- One item at a time: the plain loop that a round comes down to.
  unfoldable pub update_item : r.State → Item → r.State
  update_item s item =
      r.expire
        (store_transferred r config codec update_interval s
          (transfer_item (load_item (r.get s) codec.decode (key_of item)) item))
        (status_prefix ++ key_of item) update_interval

  unfoldable pub update_items : r.State → List Item → r.State
  update_items s [] = s
  update_items s (item ∷ items) = update_items (update_item s item) items

  pub update_items-append :
      (s : r.State) (xs ys : List Item)
      → update_items s (xs ++ ys) ≡ update_items (update_items s xs) ys
  unfolding update_items
  update_items-append s [] ys = refl
  update_items-append s (x ∷ xs) ys = update_items-append (update_item s x) xs ys

  addresses-eq-items :
      (s : r.State) (rrset : IpRrset) (host domain_id : Text) (rrs : List IpRr)
      → transfer_addresses r config codec update_interval s rrset host domain_id rrs
        ≡ update_items s (items_of_addresses config codec rrset host domain_id rrs)
  unfolding transfer_addresses update_items transfer_address update_item configured
  addresses-eq-items s rrset host domain_id [] = refl
  addresses-eq-items s rrset host domain_id (rr ∷ rrs) =
      addresses-eq-items (update_item s (configured rrset host (codec.ip_text rr.ip) domain_id))
        rrset host domain_id rrs

  rrset-eq-items :
      (s : r.State) (host domain_id : Text) (rrset : IpRrset)
      → transfer_rrset r config codec update_interval s host domain_id rrset
        ≡ update_items s (items_of_rrset config codec host domain_id rrset)
  unfolding transfer_rrset
  rrset-eq-items s host domain_id rrset =
      elim rrset.health_check_config.enable
        as (λ b.
          (if not b
            then s
            else transfer_addresses r config codec update_interval s rrset host domain_id
                rrset.items)
          ≡ update_items s (
              if b then items_of_addresses config codec rrset host domain_id rrset.items else [])) [
                | true ↦ addresses-eq-items s rrset host domain_id rrset.items
                | false ↦ unfold update_items in refl
              ]

  record-eq-items :
      (s : r.State) (host domain_id : Text) (o : Option (IpRrset × IpRrset))
      → transfer_record r config codec update_interval s host domain_id o
        ≡ update_items s (items_of_record config codec host domain_id o)
  unfolding transfer_record
  record-eq-items s host domain_id none = unfold update_items in refl
  record-eq-items s host domain_id (some (a, aaaa)) =
      rw
        (
          rrset-eq-items s host domain_id a,
          rrset-eq-items (update_items s (items_of_rrset config codec host domain_id a)) host
              domain_id aaaa,
        )
        (sym (
          update_items-append s (items_of_rrset config codec host domain_id a)
            (items_of_rrset config codec host domain_id aaaa)))

  module _ (quits : ℕ → Bool) (open' : (n : ℕ) → quits n ≡ false) where
    -- A loop that has gone through these items.
    abbrev Updates : r.State → List Item → r.State × Option ℕ → Type 0
    Updates s items o = (n : ℕ) × (o ≡ (update_items s items, some n))

    subdomains-Updates :
        (n : ℕ) (s : r.State) (domain domain_id : Text) (subdomains : List Text)
        → Updates s (items_of_subdomains config codec domain domain_id subdomains) (
            transfer_subdomains r config codec update_interval quits n s domain domain_id
              subdomains)
    unfolding transfer_subdomains
    subdomains-Updates n s domain domain_id [] = (n, unfold update_items in refl)
    subdomains-Updates n s domain domain_id (subdomain ∷ subdomains) =
        let items =
          items_of_record config codec (host_of domain subdomain) domain_id
            (record_of config codec domain subdomain) in
        let step : transfer_subdomain r config codec update_interval s domain domain_id subdomain
            ≡ update_items s items =
          unfold transfer_subdomain in
          record-eq-items s (host_of domain subdomain) domain_id
            (record_of config codec domain subdomain) in
        let (n', rest) =
          subdomains-Updates (suc n) (update_items s items) domain domain_id subdomains in
        (
          n',
          rw
              (
                open' n,
                transfer_subdomains,
                step,
                update_items-append s items
                    (items_of_subdomains config codec domain domain_id subdomains),
              )
              rest,
        )

    domains-Updates :
        (n : ℕ) (s : r.State) (domains : List Text)
        → Updates s
            (items_of_domains config codec domains)
            (transfer_domains r config codec update_interval quits n s domains)
    unfolding transfer_domains
    domains-Updates n s [] = (n, unfold update_items in refl)
    domains-Updates n s (domain ∷ domains) =
        let domain_id = get_domain_id config codec.decode_id domain in
        let items =
          items_of_subdomains config codec domain domain_id (subdomains_of config domain) in
        let (n', first) = subdomains-Updates n s domain domain_id (subdomains_of config domain) in
        let (n'', rest) = domains-Updates n' (update_items s items) domains in
        (n'', rw (first, update_items-append s items (items_of_domains config codec domains)) rest)

    -- A round of Transfer that is not told to quit does one item after the other.
    pub transfer_pass-eq-items :
        (n : ℕ) (s : r.State)
        → (transfer_pass r config codec update_interval quits n s).0
          ≡ update_items s (items_of_zones config codec)
    unfolding transfer_pass
    transfer_pass-eq-items n s =
        ap (λ (o : r.State × Option ℕ). o.0) (domains-Updates n s (domains_of config)).1
