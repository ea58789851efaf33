-- ===== src/Healthcheck/Filtering.antt =====
-- handler/healthcheck.go: which addresses FilterHealthcheck leaves white.
use redins.Prelude.{
  if◌then◌else◌, Bool-cases, ℤ, ◌+ℤ◌, ◌≤ℤ◌, ltb_ℤ, word_half, wrap_self, int_add, int_sub, pos,
  negsuc, any, Text, ℕ, ◌<◌, ◌≡◌, refl, ap, ◌∙◌, ◌⊎◌, inl, inr, Bool, true, not, ◌&&◌, List, [],
  ◌∷◌, arith,
}
use redins.Records.{Ip, IpRr, IpRrset}
use redins.Ips.{Mask, white, black, is_white}
use redins.Ips.Masks.{pointwise, some_white}
use redins.Healthcheck.{StatusSource, greatest, threshold, reject, filter_healthcheck}

-- The greatest status of the white addresses, and at least `low`.
abbrev pub greatest_of : (Ip → ℤ) → ℤ → List Mask → List IpRr → ℤ
greatest_of status low (white ∷ ms) (r ∷ rs) =
    greatest_of status (if ltb_ℤ low (status r.ip) then status r.ip else low) ms rs
greatest_of status low (_ ∷ ms) (r ∷ rs) = greatest_of status low ms rs
greatest_of status low _ _ = low

abbrev pub healthy : (Ip → ℤ) → ℤ → Mask → IpRr → Mask
healthy status low white r = if ltb_ℤ (status r.ip) low then black else white
healthy status low _ r = black

module _ (src : StatusSource) (qname : Text) (status : Ip → ℤ) where
  -- The statuses that a state shows.
  abbrev Shows : src.State → Type 0
  Shows s = (ip : Ip) → src.observe s qname ip ≡ status ip

  Shows-get_status : (s : src.State) (ip : Ip) → Shows s → Shows (src.get_status s qname ip).0
  Shows-get_status s ip h ip' = src.observe-get_status s qname ip qname ip' ∙ h ip'

  status_of : (s : src.State) (ip : Ip) → Shows s → (src.get_status s qname ip).1 ≡ status ip
  status_of s ip h = src.get_status-observe s qname ip ∙ h ip

  greatest_lem :
      (s : src.State) (low : ℤ) (ms : List Mask) (rs : List IpRr)
      → Shows s
      → ((greatest src qname s low ms rs).1 ≡ greatest_of status low ms rs)
        × Shows (greatest src qname s low ms rs).0
  unfolding greatest
  greatest_lem s low [] rs h = (refl, h)
  greatest_lem s low (white ∷ ms) [] h = (refl, h)
  greatest_lem s low (_ ∷ ms) [] h = (refl, h)
  greatest_lem s low (white ∷ ms) (r ∷ rs) h =
      rw (status_of s r.ip h, greatest)
        (greatest_lem (src.get_status s qname r.ip).0
          (if ltb_ℤ low (status r.ip) then status r.ip else low) ms rs (Shows-get_status s r.ip h))
  greatest_lem s low (_ ∷ ms) (r ∷ rs) h = greatest_lem s low ms rs h

  reject_lem :
      (s : src.State) (low : ℤ) (ms : List Mask) (rs : List IpRr)
      → Shows s
      → (reject src qname s low ms rs).1 ≡ pointwise (healthy status low) ms rs
  unfolding reject
  reject_lem s low [] rs h = refl
  reject_lem s low (white ∷ ms) [] h = refl
  reject_lem s low (_ ∷ ms) [] h = refl
  reject_lem s low (white ∷ ms) (r ∷ rs) h = rw (
    status_of s r.ip h,
    reject_lem (src.get_status s qname r.ip).0 low ms rs (Shows-get_status s r.ip h),
  )
  reject_lem s low (_ ∷ ms) (r ∷ rs) h =
      ap (λ (l : List Mask). black ∷ l) (reject_lem s low ms rs h)

  -- FilterHealthcheck, where it is enabled and the state shows the statuses, leaves a white address
  -- white where its status is not below the threshold of the greatest status, and makes all others
  -- black.
  pub filter_healthcheck_lem :
      (s : src.State) (rrset : IpRrset) (mask : List Mask)
      → Shows s
      → (filter_healthcheck src qname true s rrset mask).1
        ≡ pointwise
            (healthy status (
              threshold rrset.health_check_config.up_count rrset.health_check_config.down_count
                (greatest_of status rrset.health_check_config.down_count mask rrset.items)))
            mask
            rrset.items
  unfolding filter_healthcheck
  filter_healthcheck_lem s rrset mask h =
      let (found, shown) = greatest_lem s rrset.health_check_config.down_count mask rrset.items h in
      rw found (reject_lem _ _ mask rrset.items shown)

and_right : (a b : Bool) → a && b ≡ true → b ≡ true
and_right a b h = ground arith

next_above :
    (d : ℕ) (low : ℤ)
    → d < word_half
    → ltb_ℤ (negsuc d) low ≡ true
    → int_add (negsuc d) (pos 1) ≤ℤ low
unfolding int_add
next_above d low h k =
    let e : int_add (negsuc d) (pos 1) ≡ negsuc d +ℤ pos 1 =
      wrap_self (negsuc d +ℤ pos 1) (ground arith) in
    rw e (ground arith)

threshold-le : (up low : ℤ) (d : ℕ) → d < word_half → threshold up (negsuc d) low ≤ℤ low
unfolding threshold
threshold-le up low d h =
    elim (Bool-cases (ltb_ℤ low (int_sub up (pos 1)) && ltb_ℤ (negsuc d) low)) [
      | inl below ↦ rw below (next_above d low h (and_right _ _ below))
      | inr other ↦ rw other (omega arith)
    ]

threshold_below :
    (up low down : ℤ) (d : ℕ) → down ≡ negsuc d → d < word_half → threshold up down low ≤ℤ low
threshold_below up low down d e h = rw e (threshold-le up low d h)

module _ (status : Ip → ℤ) (t : ℤ) where
  -- A threshold up to the greatest status is met by a white address, or is up to the start value.
  met :
      (low : ℤ) (ms : List Mask) (rs : List IpRr)
      → t ≤ℤ greatest_of status low ms rs
      → (t ≤ℤ low) ⊎ (any is_white (pointwise (healthy status t) ms rs) ≡ true)
  met low [] rs h = inl h
  met low (white ∷ ms) [] h = inl h
  met low (_ ∷ ms) [] h = inl h
  met low (white ∷ ms) (r ∷ rs) h =
      ground (arith, met (if ltb_ℤ low (status r.ip) then status r.ip else low) ms rs h)
  met low (_ ∷ ms) (r ∷ rs) h = met low ms rs h

  met_low :
      (low : ℤ) (ms : List Mask) (rs : List IpRr)
      → t ≤ℤ low
      → some_white (λ r. not (ltb_ℤ (status r.ip) low)) ms rs ≡ true
      → any is_white (pointwise (healthy status t) ms rs) ≡ true
  met_low low [] rs h k = cc
  met_low low (white ∷ ms) [] h k = cc
  met_low low (_ ∷ ms) [] h k = cc
  met_low low (white ∷ ms) (r ∷ rs) h k = ground (arith, met_low low ms rs h)
  met_low low (_ ∷ ms) (r ∷ rs) h k = met_low low ms rs h k

-- With a negative down count FilterHealthcheck leaves an address white if one was white with a status
-- that has not fallen below the down count.
pub filter_healthcheck_survivor :
    (src : StatusSource) (qname : Text) (status : Ip → ℤ) (s : src.State) (rrset : IpRrset)
    (mask : List Mask) (d : ℕ)
    → ((ip : Ip) → src.observe s qname ip ≡ status ip)
    → rrset.health_check_config.down_count ≡ negsuc d
    → d < word_half
    → some_white (λ r. not (ltb_ℤ (status r.ip) (negsuc d))) mask rrset.items ≡ true
    → any is_white (filter_healthcheck src qname true s rrset mask).1 ≡ true
filter_healthcheck_survivor src qname status s rrset mask d shown e h k =
    rw (filter_healthcheck_lem src qname status s rrset mask shown)
      (survives (met status t rrset.health_check_config.down_count mask rrset.items below))
  where
    t : ℤ
    t =
        threshold rrset.health_check_config.up_count rrset.health_check_config.down_count
          (greatest_of status rrset.health_check_config.down_count mask rrset.items)

    below : t ≤ℤ greatest_of status rrset.health_check_config.down_count mask rrset.items
    below = threshold_below _ _ _ d e h

    survives :
        (t ≤ℤ rrset.health_check_config.down_count)
          ⊎ (any is_white (pointwise (healthy status t) mask rrset.items) ≡ true)
        → any is_white (pointwise (healthy status t) mask rrset.items) ≡ true
    survives (inl le) =
        met_low status t rrset.health_check_config.down_count mask rrset.items le (rw e k)
    survives (inr white_left) = white_left
