-- ===== src/Tests/Addresses.antt =====
-- OrderIps (handler/handler.go) on three addresses.
use redins.Prelude.{
  if◌then◌else◌, wrap, int_add, int_sub, pos, codes, text_eq, ℕ, String, ◌≡◌, refl, false, List, [],
  ◌∷◌, ◌++◌, arith,
}
use redins.Records.{IpRr, IpRrset, IpHealthCheckConfig}
use redins.Ips.{
  Mask, white, grey, black, order_ips, white_rrs, ips, is, tally, start_index, serve_from,
  weighted_index, robin_index, first_index,
}
use redins.Ips.Rotation.{StartsAt, order_ips_rotation}

abbrev rr : ℕ → ℕ → IpRr
rr weight last = record { weight = pos weight; ip = 10 ∷ 0 ∷ 0 ∷ last ∷ []; country = []; asn = [] }

abbrev unchecked : IpHealthCheckConfig
unchecked = record {
  protocol = [];
  uri = [];
  port = pos 0;
  timeout = pos 0;
  up_count = pos 0;
  down_count = pos 0;
  enable = false;
}

abbrev rrset : String → String → IpRrset
rrset count order = record {
  filter_config = record { count = codes count; order = codes order; geo_filter = codes "none" };
  health_check_config = unchecked;
  ttl = 300;
  items = rr 0 1 ∷ rr 5 2 ∷ rr 7 3 ∷ [];
}

abbrev mask : List Mask
mask = white ∷ black ∷ white ∷ []

order_ips_runs :
    (order_ips 3 (rrset "multi" "weighted") mask ≡ ips (rr 7 3 ∷ rr 0 1 ∷ []))
    × (order_ips 4 (rrset "multi" "rr") mask ≡ ips (rr 0 1 ∷ rr 7 3 ∷ []))
    × (order_ips 5 (rrset "single" "rr") mask ≡ ips (rr 7 3 ∷ []))
    × (order_ips 5 (rrset "multi" "none") (black ∷ grey ∷ black ∷ []) ≡ [])
unfolding order_ips tally start_index serve_from weighted_index robin_index first_index white_rrs
    int_add int_sub wrap text_eq
order_ips_runs = (refl, refl, refl, refl)

abbrev whites : List IpRr
whites = white_rrs mask (rrset "multi" "weighted").items

order_ips_rotation_example :
    (before : List IpRr) × (after : List IpRr) × (r : IpRr) × (before ++ r ∷ after ≡ whites)
    × StartsAt 3 (rrset "multi" "weighted") whites before r
    × (order_ips 3 (rrset "multi" "weighted") mask
        ≡ (if is (codes "multi") "single" then r.ip ∷ [] else ips (r ∷ after) ++ ips before))
unfolding white_rrs
order_ips_rotation_example =
    order_ips_rotation 3 (rrset "multi" "weighted") mask refl (omega arith) (omega arith)
      (omega arith)
