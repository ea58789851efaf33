-- ===== src/Filter.antt =====
-- handler/handler.go: the filters of an address set in their order (Filter).
pub mod Masked
pub mod Health
use redins.Prelude.{if◌then◌else◌, length, replicate, Text, ℕ, Bool, Option, none, some, List}
use redins.Records.{Ip, IpRr, IpRrset}
use redins.Ips.{Mask, white, is, order_ips}
use redins.GeoIp.{GeoIp, Floats, get_same_asn, get_same_country, get_minimum_distance}
use redins.Healthcheck.{StatusSource, filter_healthcheck}

module _ {F : Type 0} (fl : Floats F) (g : GeoIp F) where
  -- The switch over the geo filter; `none` is a panic of GetMinimumDistance.
  unfoldable pub geo_filter : Text → Ip → List IpRr → List Mask → Option (List Mask)
  geo_filter kind source rs mask =
      if is kind "asn"
      then some (get_same_asn g source rs mask)
      else if is kind "country"
      then some (get_same_country g source rs mask)
      else if is kind "asn+country"
      then some (get_same_country g source rs (get_same_asn g source rs mask))
      else if is kind "location"
      then get_minimum_distance fl g source rs mask
      else some mask

  abbrev pub ordered : ℕ → IpRrset → Option (List Mask) → Option (List Ip)
  ordered nanosecond rrset none = none
  ordered nanosecond rrset (some mask) = some (order_ips nanosecond rrset mask)

  -- Filter, at the nanosecond that the clock reads.
  unfoldable pub filter :
      (src : StatusSource)
      → Bool
      → ℕ
      → src.State
      → Text
      → Ip
      → IpRrset
      → src.State × Option (List Ip)
  unfolding geo_filter
  filter src enable nanosecond s name source rrset =
      let (s', mask) =
        filter_healthcheck src name enable s rrset (replicate (length rrset.items) white) in
      (
        s',
        ordered nanosecond rrset
            (geo_filter rrset.filter_config.geo_filter source rrset.items mask),
      )
