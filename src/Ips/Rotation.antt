-- ===== src/Ips/Rotation.antt =====
-- handler/handler.go: where the answer of OrderIps starts, and what it holds.
use redins.Prelude.{
  ltb, ◌==◌, if◌then◌else◌, Bool-cases, ℤ, ltb_ℤ, eqb_ℤ, word_half, int_add, pos, length, ℕ, ◌+◌,
  ◌%◌, ◌<◌, ◌≡◌, ap, ◌∙◌, inl, inr, Bool, true, false, not, ◌&&◌, ◌||◌, Option, some, List, [], ◌∷◌,
  ◌++◌, arith,
}
use redins.Records.{IpRr, IpRrset}
use redins.Ips.{
  Mask, white, tally, robin_index, first_index, white_rrs, ips, is, start_index, serve_from,
  order_ips,
}
use redins.Ips.Starts.{
  IsAt, wsum, IsWeighed, Found, IsHit, weighted_index-Found, robin_index-Found, first_index-Found,
  tally_lem, white_rrs-split,
}

-- Where the answer starts among the white addresses, by the order that is configured.
abbrev pub StartsAt : ℕ → IpRrset → List IpRr → List IpRr → IpRr → Type 0
StartsAt nanosecond rrset whites before r =
    if is rrset.filter_config.order "weighted" && ltb 0 (wsum whites)
    then IsHit (nanosecond % wsum whites) before r
    else if is rrset.filter_config.order "rr" || is rrset.filter_config.order "weighted"
    then length before ≡ nanosecond % length whites
    else length before ≡ 0

sum_pos : (n : ℕ) → ltb_ℤ (pos 0) (pos n) ≡ ltb 0 n
sum_pos n = ground arith

sum_zero : (n : ℕ) → eqb_ℤ (pos n) (pos 0) ≡ not (ltb 0 n)
sum_zero n = ground arith

in_turn :
    (rr weighted sum : Bool)
    → weighted && sum ≡ false
    → (rr || weighted && not sum) ≡ (rr || weighted)
in_turn rr weighted sum h = ground arith

mod-lt_of_test : (b : Bool) (n m : ℕ) → b && ltb 0 m ≡ true → n % m < m
mod-lt_of_test b n m h = ground arith

from_zero : (o : Option ℕ) (j : ℕ) → o ≡ some (0 + j) → o ≡ some j
from_zero o j e = e ∙ ap some (omega arith)

nonzero : (n : ℕ) → 0 < n → (n == 0) ≡ false
nonzero n h = ground arith

module _ (nanosecond : ℕ) (rrset : IpRrset) (mask : List Mask) where
  abbrev whites : List IpRr
  whites = white_rrs mask rrset.items

  tally-whites :
      IsWeighed rrset.items
      → wsum whites < word_half
      → tally 0 (pos 0) mask rrset.items ≡ (length whites, pos (wsum whites))
  tally-whites w fits = tally_lem 0 0 mask rrset.items w (omega arith) ∙ ground arith

  in_turn-Found :
      length mask ≡ length rrset.items
      → 0 < length whites
      → Found
          (λ before r.
            if is rrset.filter_config.order "rr" || is rrset.filter_config.order "weighted"
            then length before ≡ nanosecond % length whites
            else length before ≡ 0)
          0
          mask
          rrset.items
          (if is rrset.filter_config.order "rr" || is rrset.filter_config.order "weighted"
            then robin_index (nanosecond % length whites) 0 mask
            else first_index 0 mask)
  in_turn-Found len some_white =
      elim (Bool-cases
        (is rrset.filter_config.order "rr" || is rrset.filter_config.order "weighted")) [
          | inl turn ↦ rw turn (
              robin_index-Found (nanosecond % length whites) 0 mask rrset.items len
                (mod-lt_of_test true _ _ (ground arith)))
          | inr first ↦ rw first (first_index-Found 0 mask rrset.items len some_white)
        ]

  start_index-Found :
      length mask ≡ length rrset.items
      → IsWeighed rrset.items
      → wsum whites < word_half
      → 0 < length whites
      → Found
          (StartsAt nanosecond rrset whites)
          0
          mask
          rrset.items
          (start_index nanosecond rrset mask (length whites) (pos (wsum whites)))
  unfolding start_index
  start_index-Found len w fits some_white =
      rw (sum_pos (wsum whites), sum_zero (wsum whites))
        (elim (Bool-cases (is rrset.filter_config.order "weighted" && ltb 0 (wsum whites))) [
          | inl weighted ↦
              let below : nanosecond % wsum whites < wsum whites =
                mod-lt_of_test (is rrset.filter_config.order "weighted") nanosecond (wsum whites)
                  weighted in
              rw weighted (
                weighted_index-Found (nanosecond % wsum whites) 0 mask rrset.items w
                  (omega (arith, below)) below)
          | inr other ↦
              rw (other, in_turn (is rrset.filter_config.order "rr") _ _ other)
                (in_turn-Found len some_white)
        ])

  serve_from-eq :
      (j : ℕ) (before after : List IpRr) (r : IpRr)
      → IsAt mask rrset.items j before after r
      → serve_from rrset mask (some j) ≡ (
          if is rrset.filter_config.count "single"
          then r.ip ∷ []
          else ips (r ∷ after) ++ ips before)
  unfolding serve_from
  serve_from-eq j before after r at = simp (at.left, at.right, at.here)

  -- Where an address is white, the answer of OrderIps starts at the white address that the clock
  -- picks, by weight, in turn or the first, and goes on cyclically through all the white addresses;
  -- with the count "single" it is that one address. No weight may be negative, and the weights sum to
  -- a 64-bit number.
  pub order_ips_rotation :
      length mask ≡ length rrset.items
      → IsWeighed rrset.items
      → wsum whites < word_half
      → 0 < length whites
      → (before : List IpRr) × (after : List IpRr) × (r : IpRr) × (before ++ r ∷ after ≡ whites)
        × StartsAt nanosecond rrset whites before r
        × (order_ips nanosecond rrset mask ≡ (
            if is rrset.filter_config.count "single"
            then r.ip ∷ []
            else ips (r ∷ after) ++ ips before))
  unfolding order_ips
  order_ips_rotation len w fits some_white =
      let (j, before, after, r, e, at, starts) = start_index-Found len w fits some_white in
      (
        before,
        after,
        r,
        rw (← at.left, ← at.right) (white_rrs-split j mask rrset.items),
        starts,
        rw (tally-whites w fits, nonzero (length whites) some_white, from_zero _ j e)
            (serve_from-eq j before after r at),
      )

count-tally :
    (count : ℕ) (sum : ℤ) (ms : List Mask) (rs : List IpRr)
    → (tally count sum ms rs).0 ≡ count + length (white_rrs ms rs)
unfolding tally white_rrs
count-tally count sum [] [] = omega arith
count-tally count sum [] (r ∷ rs) = omega arith
count-tally count sum (m ∷ ms) [] = omega arith
count-tally count sum (white ∷ ms) (r ∷ rs) =
    omega (arith, count-tally (count + 1) (int_add sum r.weight) ms rs)
count-tally count sum (_ ∷ ms) (r ∷ rs) = count-tally count sum ms rs

-- Where no address is white the answer of OrderIps is empty, whatever the weights and the order are.
pub order_ips_none :
    (nanosecond : ℕ) (rrset : IpRrset) (mask : List Mask)
    → white_rrs mask rrset.items ≡ []
    → order_ips nanosecond rrset mask ≡ []
unfolding order_ips
order_ips_none nanosecond rrset mask h =
    let none_counted : (tally 0 (pos 0) mask rrset.items).0 ≡ 0 =
      count-tally 0 (pos 0) mask rrset.items ∙ ap (λ (l : List IpRr). 0 + length l) h in
    rw none_counted
