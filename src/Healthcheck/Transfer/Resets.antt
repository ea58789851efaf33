-- ===== src/Healthcheck/Transfer/Resets.antt =====
-- handler/healthcheck.go: a round of Transfer forgets the status of an address whose down count is
-- configured as a positive number.
use redins.Prelude.{
  Bool-cases, ℤ, ◌<ℤ◌, ltb_ℤ, InWord, int_neg, pos, All, All-append, Text, split_after, ℕ, ◌<◌, ◌≡◌,
  refl, ap, ◌∙◌, subst, ◌≢◌, inl, inr, Bool, true, false, Option, none, some, List, [], ◌∷◌, ◌++◌,
  arith,
}
use redins.Records.{IpRr, IpRrset}
use redins.Healthcheck.{
  Item, configured, transfer_item, load_item, load_parts, decoded, fix_down_count,
}
use redins.Healthcheck.Store.{
  StatusServer, RoundTrips, status_prefix, key_of, load_item-store_item_any, load_item-expire,
}
use redins.Healthcheck.Items.{transfer_item-positive}
use redins.Healthcheck.Transfer.{
  ConfigServer, Codec, get_domain_id, host_of, record_of, subdomains_of, domains_of,
  store_transferred, transfer_pass,
}
use redins.Healthcheck.Transfer.Items.{
  items_of_addresses, items_of_rrset, items_of_record, items_of_subdomains, items_of_domains,
  items_of_zones, update_item, update_items, update_items-append, transfer_pass-eq-items,
}
use redins.Healthcheck.Transfer.Pass.{update_items_ne}

module _ (config : ConfigServer) (codec : Codec) where
  abbrev IsNew : Item → Type 0
  IsNew item = item.status ≡ pos 0

  addresses-IsNew :
      (rrset : IpRrset) (host domain_id : Text) (rrs : List IpRr)
      → All IsNew (items_of_addresses config codec rrset host domain_id rrs)
  unfolding configured
  addresses-IsNew rrset host domain_id [] = tt
  addresses-IsNew rrset host domain_id (rr ∷ rrs) = (refl, addresses-IsNew rrset host domain_id rrs)

  rrset-IsNew :
      (host domain_id : Text) (rrset : IpRrset)
      → All IsNew (items_of_rrset config codec host domain_id rrset)
  rrset-IsNew host domain_id rrset = elim (Bool-cases rrset.health_check_config.enable) [
    | inl on ↦ simp on (addresses-IsNew rrset host domain_id rrset.items)
    | inr off ↦ simp off tt
  ]

  record-IsNew :
      (host domain_id : Text) (o : Option (IpRrset × IpRrset))
      → All IsNew (items_of_record config codec host domain_id o)
  record-IsNew host domain_id none = tt
  record-IsNew host domain_id (some (a, aaaa)) =
      All-append IsNew _ _ (rrset-IsNew host domain_id a) (rrset-IsNew host domain_id aaaa)

  subdomains-IsNew :
      (domain domain_id : Text) (subdomains : List Text)
      → All IsNew (items_of_subdomains config codec domain domain_id subdomains)
  subdomains-IsNew domain domain_id [] = tt
  subdomains-IsNew domain domain_id (subdomain ∷ subdomains) =
      All-append IsNew _ _
        (record-IsNew (host_of domain subdomain) domain_id
          (record_of config codec domain subdomain))
        (subdomains-IsNew domain domain_id subdomains)

  domains-IsNew : (domains : List Text) → All IsNew (items_of_domains config codec domains)
  domains-IsNew [] = tt
  domains-IsNew (domain ∷ domains) =
      All-append IsNew _ _
        (subdomains-IsNew domain (get_domain_id config codec.decode_id domain)
          (subdomains_of config domain))
        (domains-IsNew domains)

middle :
    (P : Item → Type 0) (before after : List Item) (item : Item)
    → All P (before ++ item ∷ after)
    → P item
middle P [] after item (h, hs) = h
middle P (x ∷ before) after item (h, hs) = middle P before after item hs

module _ (r : StatusServer) (config : ConfigServer) (codec : Codec) (update_interval : ℕ) where
  -- What is decoded of an item has an int as its down count.
  abbrev pub DecodesInts : Type 0
  DecodesInts = (str : Text) (item : Item) → InWord (codec.decode str item).down_count

  module _ (ints : DecodesInts) (positive : 0 < update_interval) where
    parts-positive :
        (get : Text → Option Text) (key : Text) (parts : Option (Text × Text)) (item : Item)
        → pos 0 <ℤ item.down_count
        → transfer_item (load_parts get codec.decode key parts) item ≡ some item
    unfolding load_parts decoded
    parts-positive get key none item h = unfold transfer_item in refl
    parts-positive get key (some (host, ip)) item h = found _ (get (status_prefix ++ key))
      where
        found :
            (base : Item) (o : Option Text)
            → transfer_item (decoded get codec.decode base o) item ≡ some item
        found base none = unfold transfer_item in refl
        found base (some str) =
            transfer_item-positive (codec.decode str base) item (ints str base) h

    -- A configured item with a positive down count is written, whatever redis has under its key.
    load-positive :
        (get : Text → Option Text) (key : Text) (item : Item)
        → pos 0 <ℤ item.down_count
        → transfer_item (load_item get codec.decode key) item ≡ some item
    unfolding load_item
    load-positive get key item h = parts-positive get key (split_after b':' key) item h

    update_item-resets :
        (s : r.State) (item : Item)
        → pos 0 <ℤ item.down_count
        → All (λ c. c ≢ b':') item.host
        → RoundTrips codec.encode codec.decode item
        → load_item
            (r.get (update_item r config codec update_interval s item))
            codec.decode
            (key_of item)
          ≡ some (fix_down_count item)
    unfolding update_item store_transferred
    update_item-resets s item h plain round_trip =
        load_item-expire r codec.encode codec.decode
          (store_transferred r config codec update_interval s
            (transfer_item (load_item (r.get s) codec.decode (key_of item)) item))
          (status_prefix ++ key_of item) (key_of item) update_interval positive
        ∙ rw (load-positive (r.get s) (key_of item) item h)
            (load_item-store_item_any r codec.encode codec.decode s item plain round_trip)

    fixed :
        (item : Item)
        → pos 0 <ℤ item.down_count
        → item.status ≡ pos 0
        → fix_down_count item ≡ record item { status = pos 0; down_count = int_neg item.down_count }
    unfolding fix_down_count
    fixed item h e =
        let above : ltb_ℤ (pos 0) item.down_count ≡ true = ground arith in
        simp above (
          ap (λ (status : ℤ). record item { status = status; down_count = int_neg item.down_count })
            e)

    -- After a round of Transfer that is not told to quit, the item of an address whose last
    -- configuration has a positive down count is loaded with the status 0, and with that count
    -- negated, whatever status redis had before: the health check of the address starts again at
    -- every round. The check is enabled in some zone, the host has no colon, the item is stored and
    -- read back without a loss, and decoded down counts are of the type int.
    pub transfer_pass_resets :
        (quits : ℕ → Bool) (n : ℕ) (s : r.State)
        → ((k : ℕ) → quits k ≡ false)
        → (item : Item) (before after : List Item)
        → items_of_zones config codec ≡ before ++ item ∷ after
        → pos 0 <ℤ item.down_count
        → All (λ c. c ≢ b':') item.host
        → RoundTrips codec.encode codec.decode item
        → All (λ (other : Item). key_of other ≢ key_of item) after
        → load_item
            (r.get (transfer_pass r config codec update_interval quits n s).0)
            codec.decode
            (key_of item)
          ≡ some (record item { status = pos 0; down_count = int_neg item.down_count })
    unfolding update_items
    transfer_pass_resets quits n s open' item before after e h plain round_trip last =
        let start = update_items r config codec update_interval s before in
        let new : item.status ≡ pos 0 = middle (IsNew config codec) before after item (
          subst (λ (items : List Item). All (IsNew config codec) items) e
            (domains-IsNew config codec (domains_of config))) in
        rw
          (
            transfer_pass-eq-items r config codec update_interval quits open' n s,
            e,
            update_items-append r config codec update_interval s before (item ∷ after),
          )
          (update_items_ne r config codec update_interval positive
              (update_item r config codec update_interval start item) after (key_of item) last
            ∙ update_item-resets start item h plain round_trip
            ∙ ap some (fixed item h new))
