-- ===== src/Ips.antt =====
-- handler/handler.go: the addresses of a record set that are served (OrderIps).
pub mod Masks
pub mod Starts
pub mod Rotation
use redins.Prelude.{
  ◌==◌, if◌then◌else◌, ℤ, pos_part, ltb_ℤ, eqb_ℤ, int_add, int_sub, pos, get_elem?, take, drop,
  Text, codes, text_eq, ℕ, ◌+◌, ◌-◌, ◌%◌, String, Bool, true, false, ◌&&◌, ◌||◌, Option, none, some,
  List, [], ◌∷◌, ◌++◌, map,
}
use redins.Records.{Ip, IpRr, IpRrset}

-- IpMaskWhite, IpMaskGrey and IpMaskBlack.
pub data Mask : Type 0 where
  white grey black : Mask

abbrev pub is_white : Mask → Bool
is_white white = true
is_white _ = false

-- The first loop: the count of the white addresses and the sum of their weights. The mask is as
-- long as the data, as Filter makes it; an index out of range would be a panic.
unfoldable pub tally : ℕ → ℤ → List Mask → List IpRr → ℕ × ℤ
tally count sum (m ∷ ms) (r ∷ rs) =
    tally (if is_white m then count + 1 else count)
      (if is_white m then int_add sum r.weight else sum) ms rs
tally count sum _ _ = (count, sum)

-- The loops that choose where the answer starts; `none` is the index -1.
unfoldable pub weighted_index : ℤ → ℕ → List Mask → List IpRr → Option ℕ
weighted_index s i (m ∷ ms) (r ∷ rs) =
    let t = int_sub s r.weight in
    let next = weighted_index (if is_white m then t else s) (i + 1) ms rs in
    if is_white m && ltb_ℤ t (pos 0) then some i else next
weighted_index s i _ _ = none

unfoldable pub robin_index : ℕ → ℕ → List Mask → Option ℕ
robin_index r i [] = none
robin_index r i (m ∷ ms) =
    let next = robin_index (if is_white m then r - 1 else r) (i + 1) ms in
    if is_white m && r == 0 then some i else next

unfoldable pub first_index : ℕ → List Mask → Option ℕ
first_index i [] = none
first_index i (m ∷ ms) = let next = first_index (i + 1) ms in if is_white m then some i else next

-- The white addresses of a range of indices, in order.
unfoldable pub white_rrs : List Mask → List IpRr → List IpRr
white_rrs (m ∷ ms) (r ∷ rs) = if is_white m then r ∷ white_rrs ms rs else white_rrs ms rs
white_rrs _ _ = []

abbrev pub ips : List IpRr → List Ip
ips = map (λ r. r.ip)

-- The address at an index; out of range is a panic, which no index of a white address meets.
abbrev pub single_ip : Option IpRr → List Ip
single_ip none = []
single_ip (some r) = r.ip ∷ []

abbrev pub is : Text → String → Bool
is s lit = text_eq s (codes lit)

-- The index at which the answer starts, at the nanosecond that the clock reads.
unfoldable pub start_index : ℕ → IpRrset → List Mask → ℕ → ℤ → Option ℕ
start_index nanosecond rrset mask count sum =
    let order = rrset.filter_config.order in
    if is order "weighted" && ltb_ℤ (pos 0) sum
    then weighted_index (pos (nanosecond % pos_part sum)) 0 mask rrset.items
    else if is order "rr" || (is order "weighted" && eqb_ℤ sum (pos 0))
    then robin_index (nanosecond % count) 0 mask
    else first_index 0 mask

unfoldable pub serve_from : IpRrset → List Mask → Option ℕ → List Ip
serve_from rrset mask none = []
serve_from rrset mask (some index) =
    if is rrset.filter_config.count "single"
    then single_ip (get_elem? rrset.items index)
    else ips (white_rrs (drop index mask) (drop index rrset.items))
      ++ ips (white_rrs (take index mask) (take index rrset.items))

unfoldable pub order_ips : ℕ → IpRrset → List Mask → List Ip
order_ips nanosecond rrset mask =
    let (count, sum) = tally 0 (pos 0) mask rrset.items in
    if count == 0 then [] else serve_from rrset mask (start_index nanosecond rrset mask count sum)
