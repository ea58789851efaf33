-- ===== src/Healthcheck/Items.antt =====
-- handler/healthcheck.go: items under their keys, and getStatus as the source of the filter.
use redins.Prelude.{
  leb, if◌then◌else◌, Bool-cases, ℤ, neg_ℤ, ◌≤ℤ◌, ◌<ℤ◌, ltb_ℤ, wrap, InWord, wrap_self, int_neg,
  eqb_ℤ_iff, pos, All, Text, codes, text_eq, text_eq_iff, split_after-found, trim_suffix-append, ℕ,
  ◌+◌, ◌<◌, ◌≡◌, refl, sym, ap, ◌∙◌, subst, ◌≢◌, ◌⊎◌, inl, inr, Bool, true, false, ◌&&◌, Option,
  none, some, ◌++◌, arith,
}
use redins.Cache.{GoCache}
use mathlib.Core.Bool.{false≢true}
use redins.Records.{Ip}
use redins.Healthcheck.{
  same_flag, items_equal, transfer_item, Item, new_item, colon, item_key, load_item, load_parts,
  decoded, fix_down_count, cached_status, get_status, or_new, StatusSource,
}

module _ (redis_get : Text → Option Text) (decode : Text → Item → Item) where
  -- The item of a host without a colon and an address is loaded with that host and address, as they
  -- are decoded over, whatever colons the address has; a positive down count is negated.
  pub load_item-item_key :
      (host ip str : Text)
      → All (λ c. c ≢ b':') host
      → redis_get (codes "redins:healthcheck:" ++ item_key host ip) ≡ some str
      → load_item redis_get decode (item_key host ip)
        ≡ some (fix_down_count (decode str (record new_item { host = host; ip = ip })))
  unfolding load_item load_parts
  load_item-item_key host ip str h e =
      ap (load_parts redis_get decode (item_key host ip)) (split_after-found b':' host ip h)
      ∙ ap
          (λ (t : Text).
            decoded redis_get decode (record new_item { host = t; ip = ip })
              (redis_get (codes "redins:healthcheck:" ++ item_key host ip)))
          (trim_suffix-append host colon)
      ∙ ap (decoded redis_get decode (record new_item { host = host; ip = ip })) e

  module _ (c : GoCache Item) (enable : Bool) (update_interval : ℕ) (ip_text : Ip → Text) where
    abbrev status_or_stored : Text → Option Item → ℤ
    status_or_stored key none = (or_new (load_item redis_get decode key)).status
    status_or_stored key (some item) = item.status

    -- The status that a state shows at a time: the cached one, else the stored one.
    abbrev pub shown : c.State → ℕ → Text → ℤ
    shown s now key = status_or_stored key (c.get s now key)

    fresh-shown :
        (s : c.State) (now : ℕ) (key key' : Text)
        → 0 < update_interval
        → c.get s now key ≡ none
        → shown (c.set s now key (or_new (load_item redis_get decode key)) update_interval) now key'
          ≡ shown s now key'
    fresh-shown s now key key' h missed = elim (Bool-cases (text_eq key key')) [
      | inl same ↦
          rw
            (
              ← (text_eq_iff key key').0 same,
              c.get-set_self s key (or_new (load_item redis_get decode key)) now update_interval now
                  h,
              missed,
              kept,
            )
            refl
      | inr differ ↦ ap (status_or_stored key') (
          c.get-set_ne s key key' _ now update_interval now
            (λ e. false≢true (sym differ ∙ (text_eq_iff key key').1 e)))
    ]
      where
        kept : leb now (now + update_interval) ≡ true
        kept = ground arith

    shown-cached_status :
        (s : c.State) (now : ℕ) (key key' : Text) (o : Option Item)
        → 0 < update_interval
        → c.get s now key ≡ o
        → (shown
              (cached_status redis_get decode c enable update_interval ip_text s now key o).0
              now
              key'
            ≡ shown s now key')
          × ((cached_status redis_get decode c enable update_interval ip_text s now key o).1
              ≡ shown s now key)
    unfolding cached_status
    shown-cached_status s now key key' none h e =
        (fresh-shown s now key key' h e, ap (status_or_stored key) (sym e))
    shown-cached_status s now key key' (some item) h e = (refl, ap (status_or_stored key) (sym e))

    abbrev pub observed : ℕ → c.State → Text → Ip → ℤ
    observed now s host ip = if enable then shown s now (item_key host (ip_text ip)) else pos 0

    observed_same :
        (b : Bool) (s s' : c.State) (now : ℕ) (key : Text)
        → shown s' now key ≡ shown s now key
        → (if b then shown s' now key else pos 0) ≡ (if b then shown s now key else pos 0)
    observed_same true s s' now key h = h
    observed_same false s s' now key h = refl

    -- At any time and for a positive interval getStatus returns the status that the state shows, and
    -- leaves what the state shows of every address as it was.
    pub get_status_observes :
        (now : ℕ) (s : c.State) (host : Text) (ip : Ip) (host' : Text) (ip' : Ip)
        → 0 < update_interval
        → ((get_status redis_get decode c enable update_interval ip_text now s host ip).1
            ≡ observed now s host ip)
          × (observed now
                (get_status redis_get decode c enable update_interval ip_text now s host ip).0
                host'
                ip'
              ≡ observed now s host' ip')
    unfolding get_status
    get_status_observes now s host ip host' ip' h =
        let key = item_key host (ip_text ip) in
        let (same, status) =
          shown-cached_status s now key (item_key host' (ip_text ip')) (c.get s now key) h refl in
        elim (Bool-cases enable) [ inl on ↦ rw on (status, same) | inr off ↦ rw off (refl, refl) ]

-- So getStatus, at one time, is what the filter asks for.
abbrev pub status_source :
    (Text → Option Text)
    → (Text → Item → Item)
    → GoCache Item
    → Bool
    → (interval : ℕ) → 0 < interval
    → (Ip → Text)
    → ℕ
    → StatusSource
status_source redis_get decode c enable interval positive ip_text now = record {
  State = c.State;
  get_status = λ s host ip. get_status redis_get decode c enable interval ip_text now s host ip;
  observe = λ s host ip. observed redis_get decode c enable interval ip_text now s host ip;
  get_status-observe = λ s host ip.
      (get_status_observes redis_get decode c enable interval ip_text now s host ip host ip
        positive).0;
  observe-get_status = λ s host ip host' ip'.
      (get_status_observes redis_get decode c enable interval ip_text now s host ip host' ip'
        positive).1;
}

-- The item that is left is the configured one but for the status and the time of the last check.
abbrev pub MatchesConfig : Item → Item → Type 0
MatchesConfig item new =
    (item.ip ≡ new.ip)
    × (item.uri ≡ new.uri)
    × (item.port ≡ new.port)
    × (item.protocol ≡ new.protocol)
    × (item.enable ≡ new.enable)
    × (item.up_count ≡ new.up_count)
    × (item.down_count ≡ new.down_count)
    × (item.timeout ≡ new.timeout)

and_parts : (a b : Bool) → a && b ≡ true → (a ≡ true) × (b ≡ true)
and_parts true b h = (refl, h)
and_parts false b h = cc

items_equal-MatchesConfig :
    (item new : Item) → items_equal (some item) new ≡ true → MatchesConfig item new
unfolding items_equal
items_equal-MatchesConfig item new h0 =
    let (h1, timeout) = and_parts _ _ h0 in
    let (h2, down_count) = and_parts _ _ h1 in
    let (h3, up_count) = and_parts _ _ h2 in
    let (h4, enable) = and_parts _ _ h3 in
    let (h5, protocol) = and_parts _ _ h4 in
    let (h6, port) = and_parts _ _ h5 in
    let (ip, uri) = and_parts _ _ h6 in
    (
      (text_eq_iff item.ip new.ip).0 ip,
      (text_eq_iff item.uri new.uri).0 uri,
      (eqb_ℤ_iff item.port new.port).0 port,
      (text_eq_iff item.protocol new.protocol).0 protocol,
      flags_agree item.enable new.enable enable,
      (eqb_ℤ_iff item.up_count new.up_count).0 up_count,
      (eqb_ℤ_iff item.down_count new.down_count).0 down_count,
      (eqb_ℤ_iff item.timeout new.timeout).0 timeout,
    )
  where
    flags_agree : (a b : Bool) → same_flag a b ≡ true → a ≡ b
    flags_agree true b h = sym h
    flags_agree false b h = ground arith

-- Transfer leaves a stored item only where it agrees with the configuration, and else stores the
-- configured item.
pub transfer_item_lem :
    (old : Option Item) (new : Item)
    → ((transfer_item old new ≡ some new) × (items_equal old new ≡ false))
      ⊎ ((item : Item) × (old ≡ some item)
          × MatchesConfig item new
          × (transfer_item old new ≡ none))
unfolding transfer_item
transfer_item_lem none new = unfold items_equal in inl (refl, refl)
transfer_item_lem (some item) new = elim (Bool-cases (items_equal (some item) new)) [
  | inl same ↦ inr (item, refl, items_equal-MatchesConfig item new same, rw same)
  | inr differ ↦ inl (rw differ, differ)
]

fix_down_count-le :
    (item : Item) → InWord item.down_count → (fix_down_count item).down_count ≤ℤ pos 0
unfolding fix_down_count int_neg
fix_down_count-le item h = elim (Bool-cases (ltb_ℤ (pos 0) item.down_count)) [
  | inl above ↦ rw above (negated item.down_count h above)
  | inr below ↦ rw below (ground arith)
]
  where
    negated : (z : ℤ) → InWord z → ltb_ℤ (pos 0) z ≡ true → wrap (neg_ℤ z) ≤ℤ pos 0
    negated z h above = rw (wrap_self (neg_ℤ z) (ground arith)) (ground arith)

-- An item that is loaded never agrees with a configuration whose down count is positive.
pub transfer_item-positive :
    (old new : Item)
    → InWord old.down_count
    → pos 0 <ℤ new.down_count
    → transfer_item (some (fix_down_count old)) new ≡ some new
transfer_item-positive old new h k = elim (transfer_item_lem (some (fix_down_count old)) new) [
  | inl (stored, differ) ↦ stored
  | inr (item, e, agrees, left) ↦ absurd (clash (fix_down_count-le old h) (ap or_new e) agrees)
]
  where
    clash :
        {item : Item}
        → (fix_down_count old).down_count ≤ℤ pos 0
        → fix_down_count old ≡ item
        → MatchesConfig item new
        → ⊥
    clash le e agrees =
        let same : (fix_down_count old).down_count ≡ new.down_count =
          ap (λ (i : Item). i.down_count) e ∙ agrees.6 in
        let below : new.down_count ≤ℤ pos 0 = subst (λ z. z ≤ℤ pos 0) same le in omega arith
