-- ===== src/Handler/Filtered.antt =====
-- handler/handler.go: the filters without a health check do not panic.
use redins.Prelude.{
  Bool-cases, length, replicate, Text, ℕ, ◌≡◌, refl, ap, ◌∙◌, inl, inr, false, List, [], ◌∷◌, map,
}
use redins.Records.{Ip, IpRr, IpRrset}
use redins.GeoIp.{Floats, GeoIp}
use redins.GeoIp.Distance.{get_minimum_distance-some}
use redins.Ips.{order_ips, Mask, white, is}
use redins.Healthcheck.{StatusSource, filter_healthcheck}
use redins.Filter.{geo_filter, ordered}
use redins.Filter
use redins.Dnssec.Fitting.{Is}

-- The filters, without a health check.
replicate-white : (rs : List IpRr) → replicate (length rs) white ≡ map (λ _. white) rs
replicate-white [] = refl
replicate-white (r ∷ rs) = ap (λ (ms : List Mask). white ∷ ms) (replicate-white rs)

module _ {F : Type 0} (fl : Floats F) (g : GeoIp F) where
  geo_filter-Is :
      (source : Ip) (rs : List IpRr) (kind : Text)
      → Is (geo_filter fl g kind source rs (map (λ _. white) rs))
  unfolding geo_filter
  geo_filter-Is source rs kind = elim (Bool-cases (is kind "asn")) [
    | inl asn ↦ rw asn (_, refl)
    | inr e ↦ rw e (elim (Bool-cases (is kind "country")) [
      | inl country ↦ rw country (_, refl)
      | inr e' ↦ rw e' (elim (Bool-cases (is kind "asn+country")) [
        | inl both ↦ rw both (_, refl)
        | inr e'' ↦ rw e'' (elim (Bool-cases (is kind "location")) [
          | inl near ↦ rw near (get_minimum_distance-some fl g source rs)
          | inr unfiltered ↦ rw unfiltered (_, refl)
        ])
      ])
    ])
  ]

  pub filter-Is :
      (src : StatusSource) (nanosecond : ℕ) (s : src.State) (name : Text) (source : Ip)
      (rrset : IpRrset)
      → Is (Filter.filter fl g src false nanosecond s name source rrset).1
  unfolding Filter.filter filter_healthcheck
  filter-Is src nanosecond s name source rrset =
      let (mask, e) = geo_filter-Is source rrset.items rrset.filter_config.geo_filter in
      (
        order_ips nanosecond rrset mask,
        ap
              (λ (ms : List Mask).
                ordered fl g nanosecond rrset
                  (geo_filter fl g rrset.filter_config.geo_filter source rrset.items ms))
              (replicate-white rrset.items)
            ∙ ap (ordered fl g nanosecond rrset) e,
      )
