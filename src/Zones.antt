-- ===== src/Zones.antt =====
-- handler/handler.go: the tree of the served zones (reverseZone, LoadZones, FindZone).
pub mod Reversal
pub mod Suffix
use redins.Prelude.{
  ltb, if◌then◌else◌, length, get_elem?, set, Text, ℕ, zero, suc, ◌+◌, ◌-◌, ◌<◌, ◌≡◌, ◌≢◌, Option,
  none, some, List, [], ◌∷◌, ◌++◌,
}
use redins.Zone.{dot}

-- `p` is a prefix of `k`.
abbrev pub IsPrefix : Text → Text → Type 0
IsPrefix p k = (rest : Text) × (p ++ rest ≡ k)

-- The answers that LongestPrefix may give for the key `k`, in a tree where `find` gives the value of a
-- key.
pub data Longest (find : Text → Option Text) (k : Text) : Option Text → Type 0 where
  longest :
      (p v : Text)
      → IsPrefix p k
      → find p ≡ some v
      → ((q : Text) → IsPrefix q k → length p < length q → find q ≡ none)
      → Longest find k (some v)
  no_prefix : ((q : Text) → IsPrefix q k → find q ≡ none) → Longest find k none

-- The immutable radix tree of github.com/hashicorp/go-immutable-radix, whose code is not part of the
-- repository: the operations that are called, with the documented behaviour as laws.
pub record RadixTree : Type 1 where
  pub State : Type 0
  pub new : State
  pub insert : State → Text → Text → State
  pub find : State → Text → Option Text
  pub longest_prefix : State → Text → Option Text
  pub find-new : (k : Text) → find new k ≡ none
  pub find-insert_self : (t : State) (k v : Text) → find (insert t k v) k ≡ some v
  pub find-insert_ne : (t : State) (k v j : Text) → k ≢ j → find (insert t k v) j ≡ find t j
  pub longest_prefix_lem : (t : State) (k : Text) → Longest (find t) k (longest_prefix t k)

-- `runes[i], runes[j] = runes[j], runes[i]`, in bounds here.
abbrev pub exchanged : Text → ℕ → ℕ → Option ℕ → Option ℕ → Text
exchanged runes i j (some a) (some b) = set (set runes i b) j a
exchanged runes i j _ _ = runes

unfoldable pub swap_runes : Text → ℕ → ℕ → Text
swap_runes runes i j = exchanged runes i j (get_elem? runes i) (get_elem? runes j)

-- The loop of reverseZone, for a number of rounds.
unfoldable pub swap_from : ℕ → ℕ → ℕ → Text → Text
unfolding swap_runes
swap_from zero i j runes = runes
swap_from (suc rounds) i j runes =
    let rest = swap_from rounds (i + 1) (j - 1) (swap_runes runes i j) in
    if ltb i j then rest else runes

-- A name is the list of its runes here.
unfoldable pub reverse_zone : Text → Text
unfolding swap_from
reverse_zone zone = let runes = dot ++ zone in swap_from (length runes) 0 (length runes - 1) runes

module _ (radix : RadixTree) where
  -- The loop of LoadZones.
  unfoldable pub insert_zones : radix.State → List Text → radix.State
  insert_zones t [] = t
  insert_zones t (zone ∷ zones) = insert_zones (radix.insert t (reverse_zone zone) zone) zones

  -- `none` is an error of redis, after which the zones stay as they are.
  unfoldable pub load_zones : radix.State → Option (List Text) → radix.State
  load_zones zones none = zones
  load_zones zones (some names) = insert_zones radix.new names

  abbrev pub or_no_zone : Option Text → Text
  or_no_zone none = []
  or_no_zone (some zname) = zname

  unfoldable pub find_zone : radix.State → Text → Text
  find_zone zones qname = or_no_zone (radix.longest_prefix zones (reverse_zone qname))
