-- ===== src/Filter/Health.antt =====
-- handler/handler.go: no filter serves an address that the health check has rejected.
use redins.Prelude.{
  ltb, Bool-cases, ℤ, ltb_ℤ, length, get_elem?, replicate, All, Text, ℕ, zero, suc, ◌+◌, ◌≡◌, refl,
  ap, ◌∙◌, inl, inr, true, false, not, ◌||◌, Option, none, some, List, [], ◌∷◌, map, arith,
}
use redins.Records.{Ip, IpRr, IpRrset}
use redins.Ips.{Mask, white, grey, black, is, order_ips}
use redins.Ips.Masks.{pointwise, NoRevival, NoRevival-refl}
use redins.GeoIp.{
  GeoIp, Floats, get_same_asn, get_minimum_distance, is_none, get_coordinates, from_source, nearest,
  at_distance, settle, whiten, then_black,
}
use redins.GeoIp.Narrowing.{same_filters-NoRevival}
use redins.Healthcheck.{StatusSource, threshold}
use redins.Healthcheck.Filtering.{greatest_of, healthy, filter_healthcheck_lem}
use redins.Filter.{geo_filter, ordered, filter}
use redins.Filter.Masked.{NoRevival-trans, Passing, Passing-NoRevival, order_ips_pass}

NoRevival-whiten : (ns ms : List Mask) → NoRevival ns ms → NoRevival (map whiten ns) ms
NoRevival-whiten [] [] h = tt
NoRevival-whiten [] (m ∷ ms) h = elim h [ ]
NoRevival-whiten (n ∷ ns) [] h = elim h [ ]
NoRevival-whiten (n ∷ ns) (black ∷ ms) h = (ap whiten (h.0), NoRevival-whiten ns ms h.1)
NoRevival-whiten (n ∷ ns) (white ∷ ms) h = NoRevival-whiten ns ms h
NoRevival-whiten (n ∷ ns) (grey ∷ ms) h = NoRevival-whiten ns ms h

-- What a filter that may fail returns revives no black mask.
abbrev RevivesNone : Option (List Mask) → List Mask → Type 0
RevivesNone none ms = Unit
RevivesNone (some ns) ms = NoRevival ns ms

abbrev Marked : Option (List Mask × ℕ) → List Mask → Type 0
Marked none ms = Unit
Marked (some (ns, passed)) ms = NoRevival ns ms

then_black-Marked :
    (rest : Option (List Mask × ℕ)) (ms : List Mask)
    → Marked rest ms
    → Marked (then_black rest) (grey ∷ ms) × Marked (then_black rest) (black ∷ ms)
then_black-Marked none ms h = (tt, tt)
then_black-Marked (some (ns, passed)) ms h = (h, (refl, h))

module _ {F : Type 0} (fl : Floats F) (g : GeoIp F) (source : Ip) (rs : List IpRr) where
  at_distance-Marked :
      (least : F) (o : Option F) (rest : Option (List Mask × ℕ)) (ms : List Mask)
      → Marked rest ms
      → Marked (at_distance fl g least o rest) (white ∷ ms)
  unfolding at_distance
  at_distance-Marked least none rest ms h = tt
  at_distance-Marked least (some d) none ms h = tt
  at_distance-Marked least (some d) (some (ns, passed)) ms h = elim (Bool-cases (fl.eq d least)) [
    | inl near ↦ rw near h
    | inr far ↦ rw far h
  ]

  nearest-Marked :
      (ds : List F) (least : F) (i : ℕ) (ms : List Mask) → Marked (nearest fl g ds least i ms) ms
  unfolding nearest
  nearest-Marked ds least i [] = tt
  nearest-Marked ds least i (white ∷ ms) =
      at_distance-Marked least (get_elem? ds i) _ ms (nearest-Marked ds least (i + 1) ms)
  nearest-Marked ds least i (grey ∷ ms) =
      (then_black-Marked _ ms (nearest-Marked ds least (i + 1) ms)).0
  nearest-Marked ds least i (black ∷ ms) =
      (then_black-Marked _ ms (nearest-Marked ds least (i + 1) ms)).1

  settle-Revives_none :
      (o : Option (List Mask × ℕ)) (ms : List Mask) → Marked o ms → RevivesNone (settle o) ms
  unfolding settle
  settle-Revives_none none ms h = tt
  settle-Revives_none (some (ns, passed)) ms h = elim (Bool-cases (ltb 0 passed)) [
    | inl some_near ↦ rw some_near h
    | inr none_near ↦ rw none_near (NoRevival-whiten ns ms h)
  ]

  from_source-Revives_none :
      (mask : List Mask) (from : Option (F × F)) → RevivesNone (from_source fl g rs mask from) mask
  unfolding from_source
  from_source-Revives_none mask none = NoRevival-refl mask
  from_source-Revives_none mask (some from) = settle-Revives_none _ mask (nearest-Marked _ _ 0 mask)

  get_minimum_distance-Revives_none :
      (mask : List Mask) → RevivesNone (get_minimum_distance fl g source rs mask) mask
  unfolding get_minimum_distance
  get_minimum_distance-Revives_none mask =
      elim (Bool-cases (not g.enable || is_none g.country_db)) [
        | inl off ↦ rw off (NoRevival-refl mask)
        | inr on ↦ rw on (from_source-Revives_none mask (get_coordinates fl g source))
      ]

  -- The filters but "location" return a mask.
  geo_filter-some :
      (kind : Text) (mask : List Mask)
      → (is kind "location" ≡ false
          → (ns : List Mask) × (geo_filter fl g kind source rs mask ≡ some ns))
        × RevivesNone (geo_filter fl g kind source rs mask) mask
  unfolding geo_filter
  geo_filter-some kind mask = elim (Bool-cases (is kind "asn")) [
    | inl asn ↦ rw asn (λ other. (_, refl), (same_filters-NoRevival g source rs mask).1)
    | inr e ↦ rw e (elim (Bool-cases (is kind "country")) [
      | inl country ↦ rw country (λ other. (_, refl), (same_filters-NoRevival g source rs mask).0)
      | inr e' ↦ rw e' (elim (Bool-cases (is kind "asn+country")) [
        | inl both ↦ rw both (
          λ other. (_, refl),
          NoRevival-trans _ _ mask
              (same_filters-NoRevival g source rs (get_same_asn g source rs mask)).0
              (same_filters-NoRevival g source rs mask).1,
        )
        | inr e'' ↦ rw e'' (elim (Bool-cases (is kind "location")) [
          | inl near ↦ rw near (λ other. absurd (cc), get_minimum_distance-Revives_none mask)
          | inr unfiltered ↦ rw unfiltered (λ other. (_, refl), NoRevival-refl mask)
        ])
      ])
    ])
  ]

length-NoRevival : (ns ms : List Mask) → NoRevival ns ms → length ns ≡ length ms
length-NoRevival [] [] h = refl
length-NoRevival [] (m ∷ ms) h = elim h [ ]
length-NoRevival (n ∷ ns) [] h = elim h [ ]
length-NoRevival (n ∷ ns) (black ∷ ms) h = omega (arith, length-NoRevival ns ms h.1)
length-NoRevival (n ∷ ns) (white ∷ ms) h = omega (arith, length-NoRevival ns ms h)
length-NoRevival (n ∷ ns) (grey ∷ ms) h = omega (arith, length-NoRevival ns ms h)

length-pointwise :
    (f : Mask → IpRr → Mask) (ms : List Mask) (rs : List IpRr)
    → length (pointwise f ms rs) ≡ length ms
length-pointwise f [] rs = refl
length-pointwise f (m ∷ ms) [] = refl
length-pointwise f (m ∷ ms) (r ∷ rs) = omega (arith, length-pointwise f ms rs)

length-replicate : (n : ℕ) (m : Mask) → length (replicate n m) ≡ n
length-replicate zero m = refl
length-replicate (suc n) m = omega (arith, length-replicate n m)

module _ (status : Ip → ℤ) (t : ℤ) where
  abbrev pub NotBelow : Ip → Type 0
  NotBelow ip = ltb_ℤ (status ip) t ≡ false

  healthy-Passing :
      (rs : List IpRr)
      → Passing NotBelow (pointwise (healthy status t) (replicate (length rs) white) rs) rs
  healthy-Passing [] = tt
  healthy-Passing (r ∷ rs) = elim (Bool-cases (ltb_ℤ (status r.ip) t)) [
    | inl low ↦ rw low (healthy-Passing rs)
    | inr high ↦ rw high (high, healthy-Passing rs)
  ]

-- What an answer has to be: some addresses, none of which is below the threshold.
abbrev pub AllNotBelow : (Ip → ℤ) → ℤ → Option (List Ip) → Type 0
AllNotBelow status t none = Unit
AllNotBelow status t (some ips) = All (NotBelow status t) ips

module _ {F : Type 0} (fl : Floats F) (g : GeoIp F) (src : StatusSource) (nanosecond : ℕ)
    (name : Text) (source : Ip) (rrset : IpRrset) (status : Ip → ℤ) (s : src.State) where
  -- The threshold of the addresses of the set.
  abbrev pub set_threshold : ℤ
  set_threshold =
      threshold rrset.health_check_config.up_count rrset.health_check_config.down_count (
        greatest_of status rrset.health_check_config.down_count
          (replicate (length rrset.items) white) rrset.items)

  abbrev checked : List Mask
  checked =
      pointwise (healthy status set_threshold) (replicate (length rrset.items) white) rrset.items

  ordered-AllNotBelow :
      (o : Option (List Mask))
      → RevivesNone o checked
      → AllNotBelow status set_threshold (ordered fl g nanosecond rrset o)
  ordered-AllNotBelow none h = tt
  ordered-AllNotBelow (some mask) h =
      order_ips_pass (NotBelow status set_threshold) nanosecond rrset mask
        (length-NoRevival mask checked h ∙ length-pointwise _ _ _ ∙ length-replicate _ _)
        (Passing-NoRevival _ mask checked rrset.items h
          (healthy-Passing status set_threshold rrset.items))

  -- Whatever the geographical filter and the order are, Filter serves no address whose status is below
  -- the threshold of the set, where the health check is enabled and the state shows the statuses; and
  -- unless the geographical filter is "location" it ends without a panic.
  pub filter-health :
      ((ip : Ip) → src.observe s name ip ≡ status ip)
      → AllNotBelow status set_threshold (filter fl g src true nanosecond s name source rrset).1
        × (is rrset.filter_config.geo_filter "location" ≡ false
            → (served : List Ip) × ((filter fl g src true nanosecond s name source rrset).1
                ≡ some served))
  unfolding filter
  filter-health shown =
      rw
        (filter_healthcheck_lem src name status s rrset (replicate (length rrset.items) white)
          shown)
        (
          ordered-AllNotBelow _
              (geo_filter-some fl g source rrset.items rrset.filter_config.geo_filter checked).1,
          λ other.
              let (ns, e) =
                (geo_filter-some fl g source rrset.items rrset.filter_config.geo_filter checked).0
                  other in
              (order_ips nanosecond rrset ns, ap (ordered fl g nanosecond rrset) e),
        )
