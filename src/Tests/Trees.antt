-- ===== src/Tests/Trees.antt =====
-- The zones of handler/handler.go, in a tree that is a list of its entries.
use redins.Prelude.{
  ltb, if◌then◌else◌, ltb→lt, ltb→le, Bool-cases, Option-cases, length, take, drop, length-append,
  take-append-drop, length-take, Text, codes, text_eq, text_eq_iff, text_eq_refl, ℕ, zero, suc, ◌≤◌,
  ◌<◌, ◌≡◌, refl, sym, ap, ◌∙◌, subst, ◌≢◌, ◌⊎◌, inl, inr, true, Option, none, some, List, [], ◌∷◌,
  ◌++◌, arith,
}
use redins.Zone.{key_exists}
use redins.Zones.{
  IsPrefix, Longest, longest, no_prefix, RadixTree, reverse_zone, insert_zones, load_zones,
  find_zone,
}
use redins.Zones.Reversal.{reverse_zone-eq-reverse}
use redins.Zones.Suffix.{IsClosestZone, IsWithin, find_zone_lem}

abbrev Entries : Type 0
Entries = List (Text × Text)

abbrev find : Entries → Text → Option Text
find [] k = none
find ((j, v) ∷ t) k = if text_eq j k then some v else find t k

-- The longest prefix of a key, of the prefixes up to `n` long, that is stored.
abbrev or_shorter : Option Text → Option Text → Option Text
or_shorter (some v) o = some v
or_shorter none o = o

abbrev search_prefix : Entries → Text → ℕ → Option Text
search_prefix t k zero = find t []
search_prefix t k (suc n) = or_shorter (find t (take (suc n) k)) (search_prefix t k n)

take_prefix : (p rest : Text) → take (length p) (p ++ rest) ≡ p
take_prefix [] rest = refl
take_prefix (c ∷ p) rest = ap (λ (s : Text). c ∷ s) (take_prefix p rest)

-- A prefix is what `take` gives of its length.
IsPrefix-take : (p k : Text) → IsPrefix p k → take (length p) k ≡ p
IsPrefix-take p k (rest, joined) = subst (λ s. take (length p) s ≡ p) joined (take_prefix p rest)

module _ (t : Entries) (k : Text) where
  -- Nothing is stored for the prefixes that are longer than `n`.
  abbrev NoneLonger : ℕ → Type 0
  NoneLonger n = (q : Text) → IsPrefix q k → n < length q → find t q ≡ none

  short : (n : ℕ) (q : Text) → n < length q → length (take n k) < length q
  short n q h = omega (arith, h, length-take n k)

  pub search_prefix_lem :
      (n : ℕ) → NoneLonger n → n ≤ length k → Longest (find t) k (search_prefix t k n)
  search_prefix_lem zero h l = elim (Option-cases (find t [])) [
    | inr (v, e) ↦ subst (Longest (find t) k) (sym e) (longest [] v (k, refl) e h)
    | inl e ↦ subst (Longest (find t) k) (sym e) (no_prefix (λ q p. none_at e q p))
  ]
    where
      none_at : find t [] ≡ none → (q : Text) → IsPrefix q k → find t q ≡ none
      none_at e [] p = e
      none_at e (c ∷ q) p = h (c ∷ q) p (omega arith)
  search_prefix_lem (suc n) h l = elim (Option-cases (find t (take (suc n) k))) [
    | inr (v, e) ↦ rw e (
        longest (take (suc n) k) v (drop (suc n) k, take-append-drop (suc n) k) e
          (λ q p longer. h q p (omega (arith, longer, length-take (suc n) k))))
    | inl e ↦ rw e (search_prefix_lem n (longer_or_here e) (omega arith))
  ]
    where
      longer_or_here : find t (take (suc n) k) ≡ none → NoneLonger n
      longer_or_here e q p longer = elim (Bool-cases (ltb (suc n) (length q))) [
        | inl beyond ↦ h q p (ltb→lt (suc n) (length q) beyond)
        | inr here ↦
            let same : length q ≡ suc n = omega (arith, longer, ltb→le (suc n) (length q) here) in
            subst (λ s. find t s ≡ none) (ap (λ (m : ℕ). take m k) (sym same) ∙ IsPrefix-take q k p)
              e
      ]

pub no_prefix_longer : (t : Entries) (k : Text) → NoneLonger t k (length k)
no_prefix_longer t k q (rest, joined) longer =
    absurd (omega (arith, longer, ap length joined, length-append q rest))

pub find-insert_ne : (t : Entries) (k v j : Text) → k ≢ j → find ((k, v) ∷ t) j ≡ find t j
find-insert_ne t k v j ne = ground (arith, text_eq_iff k j)

abbrev pub entries_tree : RadixTree
entries_tree = record {
  State = Entries;
  new = [];
  insert = λ t k v. (k, v) ∷ t;
  find = find;
  longest_prefix = λ t k. search_prefix t k (length k);
  find-new = λ k. refl;
  find-insert_self = λ t k v. rw (text_eq_refl k) refl;
  find-insert_ne = find-insert_ne;
  longest_prefix_lem = λ t k. search_prefix_lem t k (length k) (no_prefix_longer t k) (omega arith);
}

abbrev names : List Text
names = codes "com." ∷ codes "example.com." ∷ codes "le.com." ∷ []

zones_found :
    (find_zone entries_tree (load_zones entries_tree [] (some names)) (codes "www.example.com.")
      ≡ codes "example.com.")
    × (find_zone entries_tree (load_zones entries_tree [] (some names)) (codes "sample.com.")
        ≡ codes "com.")
    × (find_zone entries_tree (load_zones entries_tree [] (some names)) (codes "example.org.") ≡ [])
unfolding find_zone load_zones insert_zones reverse_zone text_eq
zones_found = (refl, refl, refl)

find_zone_lem_example :
    (IsClosestZone entries_tree names
        (codes "w.le.com.")
        (find_zone entries_tree (load_zones entries_tree [] (some names)) (codes "w.le.com."))
      ⊎ ((find_zone entries_tree (load_zones entries_tree [] (some names)) (codes "w.le.com.") ≡ [])
          × ((z : Text) → key_exists names z ≡ true → ¬ IsWithin (codes "w.le.com.") z)))
    × (find_zone entries_tree (load_zones entries_tree [] none) (codes "w.le.com.")
        ≡ find_zone entries_tree [] (codes "w.le.com."))
find_zone_lem_example = find_zone_lem entries_tree [] names (codes "w.le.com.")

reverse_zone-eq-reverse_example : reverse_zone (codes "e.org.") ≡ codes ".gro.e."
reverse_zone-eq-reverse_example = reverse_zone-eq-reverse (codes "e.org.")
