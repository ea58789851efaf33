-- ===== src/Filter/Masked.antt =====
-- handler/handler.go: which addresses an answer can have, by the mask.
use redins.Prelude.{
  ◌==◌, if◌then◌else◌, Bool-cases, ℤ, ltb_ℤ, eqb_ℤ, int_sub, pos, length, get_elem?, take, drop,
  All, All-append, ℕ, zero, suc, ◌+◌, ◌-◌, ◌≡◌, inl, inr, Bool, true, false, ◌&&◌, ◌||◌, Option,
  none, some, List, [], ◌∷◌, ◌++◌, arith,
}
use redins.Records.{Ip, IpRr, IpRrset}
use redins.Ips.{
  Mask, white, grey, black, tally, is, weighted_index, robin_index, first_index, white_rrs, ips,
  single_ip, start_index, serve_from, order_ips,
}
use redins.Ips.Masks.{NoRevival}

pub NoRevival-trans : (ls ns ms : List Mask) → NoRevival ls ns → NoRevival ns ms → NoRevival ls ms
NoRevival-trans [] [] [] h k = tt
NoRevival-trans [] [] (_ ∷ ms) h k = elim k [ ]
NoRevival-trans [] (_ ∷ ns) ms h k = elim h [ ]
NoRevival-trans (l ∷ ls) [] ms h k = elim h [ ]
NoRevival-trans (l ∷ ls) (white ∷ ns) [] h k = elim k [ ]
NoRevival-trans (l ∷ ls) (grey ∷ ns) [] h k = elim k [ ]
NoRevival-trans (l ∷ ls) (black ∷ ns) [] h k = elim k [ ]
NoRevival-trans (l ∷ ls) (black ∷ ns) (black ∷ ms) h k = (h.0, NoRevival-trans ls ns ms h.1 k.1)
NoRevival-trans (l ∷ ls) (black ∷ ns) (white ∷ ms) h k = NoRevival-trans ls ns ms h.1 k
NoRevival-trans (l ∷ ls) (black ∷ ns) (grey ∷ ms) h k = NoRevival-trans ls ns ms h.1 k
NoRevival-trans (l ∷ ls) (white ∷ ns) (black ∷ ms) h k = let e = k.0 in absurd cc
NoRevival-trans (l ∷ ls) (white ∷ ns) (white ∷ ms) h k = NoRevival-trans ls ns ms h k
NoRevival-trans (l ∷ ls) (white ∷ ns) (grey ∷ ms) h k = NoRevival-trans ls ns ms h k
NoRevival-trans (l ∷ ls) (grey ∷ ns) (black ∷ ms) h k = let e = k.0 in absurd cc
NoRevival-trans (l ∷ ls) (grey ∷ ns) (white ∷ ms) h k = NoRevival-trans ls ns ms h k
NoRevival-trans (l ∷ ls) (grey ∷ ns) (grey ∷ ms) h k = NoRevival-trans ls ns ms h k

module _ (P : Ip → Type 0) where
  -- The addresses that are not black satisfy `P`.
  abbrev pub Passing : List Mask → List IpRr → Type 0
  Passing (black ∷ ms) (r ∷ rs) = Passing ms rs
  Passing (_ ∷ ms) (r ∷ rs) = P r.ip × Passing ms rs
  Passing _ _ = Unit

  Passing-nil : (ms : List Mask) → Passing ms []
  Passing-nil [] = tt
  Passing-nil (white ∷ ms) = tt
  Passing-nil (grey ∷ ms) = tt
  Passing-nil (black ∷ ms) = tt

  pub Passing-NoRevival :
      (ns ms : List Mask) (rs : List IpRr) → NoRevival ns ms → Passing ms rs → Passing ns rs
  Passing-NoRevival [] [] rs h k = tt
  Passing-NoRevival [] (m ∷ ms) rs h k = elim h [ ]
  Passing-NoRevival (n ∷ ns) [] rs h k = elim h [ ]
  Passing-NoRevival (n ∷ ns) (m ∷ ms) [] h k = Passing-nil (n ∷ ns)
  Passing-NoRevival (n ∷ ns) (black ∷ ms) (r ∷ rs) h k = rw (h.0) (Passing-NoRevival ns ms rs h.1 k)
  Passing-NoRevival (black ∷ ns) (white ∷ ms) (r ∷ rs) h k = Passing-NoRevival ns ms rs h k.1
  Passing-NoRevival (black ∷ ns) (grey ∷ ms) (r ∷ rs) h k = Passing-NoRevival ns ms rs h k.1
  Passing-NoRevival (white ∷ ns) (white ∷ ms) (r ∷ rs) h k = (k.0, Passing-NoRevival ns ms rs h k.1)
  Passing-NoRevival (white ∷ ns) (grey ∷ ms) (r ∷ rs) h k = (k.0, Passing-NoRevival ns ms rs h k.1)
  Passing-NoRevival (grey ∷ ns) (white ∷ ms) (r ∷ rs) h k = (k.0, Passing-NoRevival ns ms rs h k.1)
  Passing-NoRevival (grey ∷ ns) (grey ∷ ms) (r ∷ rs) h k = (k.0, Passing-NoRevival ns ms rs h k.1)

  whites_pass : (ms : List Mask) (rs : List IpRr) → Passing ms rs → All P (ips (white_rrs ms rs))
  unfolding white_rrs
  whites_pass [] rs h = tt
  whites_pass (m ∷ ms) [] h = tt
  whites_pass (white ∷ ms) (r ∷ rs) h = (h.0, whites_pass ms rs h.1)
  whites_pass (grey ∷ ms) (r ∷ rs) h = whites_pass ms rs h.1
  whites_pass (black ∷ ms) (r ∷ rs) h = whites_pass ms rs h

  Passing-drop :
      (n : ℕ) (ms : List Mask) (rs : List IpRr) → Passing ms rs → Passing (drop n ms) (drop n rs)
  Passing-drop zero ms rs h = h
  Passing-drop (suc n) [] rs h = tt
  Passing-drop (suc n) (m ∷ ms) [] h = Passing-nil (drop n ms)
  Passing-drop (suc n) (white ∷ ms) (r ∷ rs) h = Passing-drop n ms rs h.1
  Passing-drop (suc n) (grey ∷ ms) (r ∷ rs) h = Passing-drop n ms rs h.1
  Passing-drop (suc n) (black ∷ ms) (r ∷ rs) h = Passing-drop n ms rs h

  Passing-take :
      (n : ℕ) (ms : List Mask) (rs : List IpRr) → Passing ms rs → Passing (take n ms) (take n rs)
  Passing-take zero ms rs h = tt
  Passing-take (suc n) [] rs h = tt
  Passing-take (suc n) (m ∷ ms) [] h = Passing-nil (m ∷ take n ms)
  Passing-take (suc n) (white ∷ ms) (r ∷ rs) h = (h.0, Passing-take n ms rs h.1)
  Passing-take (suc n) (grey ∷ ms) (r ∷ rs) h = (h.0, Passing-take n ms rs h.1)
  Passing-take (suc n) (black ∷ ms) (r ∷ rs) h = Passing-take n ms rs h

  -- An index, counted from `i`, of an address that passes.
  PassesAt : ℕ → List IpRr → Option ℕ → Type 0
  PassesAt i rs none = Unit
  PassesAt i rs (some j) = (k : ℕ) × (j ≡ i + k) × All P (single_ip (get_elem? rs k))

  PassesAt-here : (i : ℕ) (r : IpRr) (rs : List IpRr) → P r.ip → PassesAt i (r ∷ rs) (some i)
  unfolding PassesAt
  PassesAt-here i r rs h = (0, omega arith, (h, tt))

  PassesAt-later :
      (i : ℕ) (r : IpRr) (rs : List IpRr) (o : Option ℕ)
      → PassesAt (i + 1) rs o
      → PassesAt i (r ∷ rs) o
  unfolding PassesAt
  PassesAt-later i r rs none h = tt
  PassesAt-later i r rs (some j) (k, e, h) = (suc k, omega (arith, e), h)

  PassesAt-if :
      (b : Bool) (i : ℕ) (r : IpRr) (rs : List IpRr) (o : Option ℕ)
      → P r.ip
      → PassesAt (i + 1) rs o
      → PassesAt i (r ∷ rs) (if b then some i else o)
  PassesAt-if true i r rs o p h = PassesAt-here i r rs p
  PassesAt-if false i r rs o p h = PassesAt-later i r rs o h

  weighted_index-PassesAt :
      (s : ℤ) (i : ℕ) (ms : List Mask) (rs : List IpRr)
      → Passing ms rs
      → PassesAt i rs (weighted_index s i ms rs)
  unfolding weighted_index PassesAt
  weighted_index-PassesAt s i [] rs h = tt
  weighted_index-PassesAt s i (m ∷ ms) [] h = tt
  weighted_index-PassesAt s i (white ∷ ms) (r ∷ rs) h =
      PassesAt-if (ltb_ℤ (int_sub s r.weight) (pos 0)) i r rs _ h.0
        (weighted_index-PassesAt (int_sub s r.weight) (i + 1) ms rs h.1)
  weighted_index-PassesAt s i (grey ∷ ms) (r ∷ rs) h =
      PassesAt-later i r rs _ (weighted_index-PassesAt s (i + 1) ms rs h.1)
  weighted_index-PassesAt s i (black ∷ ms) (r ∷ rs) h =
      PassesAt-later i r rs _ (weighted_index-PassesAt s (i + 1) ms rs h)

  robin_index-PassesAt :
      (t i : ℕ) (ms : List Mask) (rs : List IpRr)
      → length ms ≡ length rs
      → Passing ms rs
      → PassesAt i rs (robin_index t i ms)
  unfolding robin_index PassesAt
  robin_index-PassesAt t i [] rs e h = tt
  robin_index-PassesAt t i (m ∷ ms) [] e h = absurd (omega (arith, e))
  robin_index-PassesAt t i (white ∷ ms) (r ∷ rs) e h =
      PassesAt-if (t == 0) i r rs _ h.0
        (robin_index-PassesAt (t - 1) (i + 1) ms rs (omega (arith, e)) h.1)
  robin_index-PassesAt t i (grey ∷ ms) (r ∷ rs) e h =
      PassesAt-later i r rs _ (robin_index-PassesAt t (i + 1) ms rs (omega (arith, e)) h.1)
  robin_index-PassesAt t i (black ∷ ms) (r ∷ rs) e h =
      PassesAt-later i r rs _ (robin_index-PassesAt t (i + 1) ms rs (omega (arith, e)) h)

  first_index-PassesAt :
      (i : ℕ) (ms : List Mask) (rs : List IpRr)
      → length ms ≡ length rs
      → Passing ms rs
      → PassesAt i rs (first_index i ms)
  unfolding first_index PassesAt
  first_index-PassesAt i [] rs e h = tt
  first_index-PassesAt i (m ∷ ms) [] e h = absurd (omega (arith, e))
  first_index-PassesAt i (white ∷ ms) (r ∷ rs) e h = PassesAt-here i r rs h.0
  first_index-PassesAt i (grey ∷ ms) (r ∷ rs) e h =
      PassesAt-later i r rs _ (first_index-PassesAt (i + 1) ms rs (omega (arith, e)) h.1)
  first_index-PassesAt i (black ∷ ms) (r ∷ rs) e h =
      PassesAt-later i r rs _ (first_index-PassesAt (i + 1) ms rs (omega (arith, e)) h)

  module _ (nanosecond : ℕ) (rrset : IpRrset) (mask : List Mask) where
    start_index-PassesAt :
        (count : ℕ) (sum : ℤ)
        → length mask ≡ length rrset.items
        → Passing mask rrset.items
        → PassesAt 0 rrset.items (start_index nanosecond rrset mask count sum)
    unfolding start_index
    start_index-PassesAt count sum e h =
        elim (Bool-cases (is rrset.filter_config.order "weighted" && ltb_ℤ (pos 0) sum)) [
          | inl weighted ↦ rw weighted (weighted_index-PassesAt _ 0 mask rrset.items h)
          | inr other ↦
              rw other
                (elim (Bool-cases (
                  is rrset.filter_config.order "rr"
                  || (is rrset.filter_config.order "weighted" && eqb_ℤ sum (pos 0)))) [
                    | inl turn ↦ rw turn (robin_index-PassesAt _ 0 mask rrset.items e h)
                    | inr fixed ↦ rw fixed (first_index-PassesAt 0 mask rrset.items e h)
                  ])
        ]

    ips_pass :
        (index : ℕ)
        → Passing mask rrset.items
        → All P (
            ips (white_rrs (drop index mask) (drop index rrset.items))
            ++ ips (white_rrs (take index mask) (take index rrset.items)))
    ips_pass index h =
        All-append P _ _ (whites_pass _ _ (Passing-drop index mask rrset.items h))
          (whites_pass _ _ (Passing-take index mask rrset.items h))

    serve_from-pass :
        (o : Option ℕ)
        → Passing mask rrset.items
        → PassesAt 0 rrset.items o
        → All P (serve_from rrset mask o)
    unfolding serve_from PassesAt
    serve_from-pass none h k = tt
    serve_from-pass (some j) h (k, e, p) =
        elim (Bool-cases (is rrset.filter_config.count "single")) [
          | inl single ↦ let same : j ≡ k = omega (arith, e) in rw (single, same) p
          | inr multi ↦ rw multi (ips_pass j h)
        ]

    -- The addresses that OrderIps answers are among those that are not black.
    pub order_ips_pass :
        length mask ≡ length rrset.items
        → Passing mask rrset.items
        → All P (order_ips nanosecond rrset mask)
    unfolding order_ips
    order_ips_pass e h = elim (Bool-cases ((tally 0 (pos 0) mask rrset.items).0 == 0)) [
      | inl empty ↦ rw empty tt
      | inr some_white ↦ rw some_white (serve_from-pass _ h (start_index-PassesAt _ _ e h))
    ]
