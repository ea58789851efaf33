-- ===== src/Zones/Suffix.antt =====
-- handler/handler.go: FindZone finds the closest zone above a name.
use redins.Prelude.{
  ltb, if◌then◌else◌, ltb→lt, ltb→le, Bool-cases, length, any, length-append, Text, text_eq,
  text_eq_iff, text_eq_refl, suc, ◌≤◌, ◌<◌, ◌≡◌, refl, sym, ap, ◌∙◌, ◌≢◌, ◌↔◌, ◌⊎◌, inl, inr, Bool,
  true, false, Option, none, some, List, [], ◌∷◌, ◌++◌, reverse, arith,
}
use mathlib.Core.List.{reverse-cons, reverse-append, reverse-reverse}
use mathlib.Core.Bool.{false≢true}
use redins.Zone.{dot, key_exists}
use redins.Zones.Reversal.{reverse_zone-eq-reverse}
use redins.Zones.{
  IsPrefix, Longest, longest, no_prefix, RadixTree, reverse_zone, insert_zones, load_zones,
  or_no_zone, find_zone,
}

-- The name lies in the zone: it is its name, or ends in it behind a dot.
abbrev pub IsWithin : Text → Text → Type 0
IsWithin name zone = (labels : Text) × (labels ++ (dot ++ zone) ≡ dot ++ name)

reverse_zone_injective : (a b : Text) → reverse_zone a ≡ reverse_zone b → a ≡ b
reverse_zone_injective a b h =
    let same : reverse (dot ++ a) ≡ reverse (dot ++ b) =
      sym (reverse_zone-eq-reverse a) ∙ h ∙ reverse_zone-eq-reverse b in
    let e : dot ++ a ≡ dot ++ b =
      sym (reverse-reverse (dot ++ a)) ∙ ap reverse same ∙ reverse-reverse (dot ++ b) in
    cc

-- The key of a zone is a prefix of that of a name just if the name lies in the zone.
IsPrefix-reverse :
    (zone name : Text)
    → IsPrefix (reverse (dot ++ zone)) (reverse (dot ++ name)) ↔ IsWithin name zone
IsPrefix-reverse zone name = (
  λ p. (
    reverse (p.0),
    sym (reverse-reverse _)
        ∙ ap reverse (
            reverse-append (reverse (p.0)) (dot ++ zone)
            ∙ ap (λ (s : Text). reverse (dot ++ zone) ++ s) (reverse-reverse (p.0))
            ∙ p.1)
        ∙ reverse-reverse (dot ++ name),
  ),
  λ w. (reverse (w.0), sym (reverse-append (w.0) (dot ++ zone)) ∙ ap reverse (w.1)),
)

IsPrefix-iff-IsWithin :
    (zone name : Text) → IsPrefix (reverse_zone zone) (reverse_zone name) ↔ IsWithin name zone
IsPrefix-iff-IsWithin zone name =
    rw (reverse_zone-eq-reverse zone, reverse_zone-eq-reverse name) (IsPrefix-reverse zone name)

length-reverse : (s : Text) → length (reverse s) ≡ length s
length-reverse [] = refl
length-reverse (c ∷ s) =
    ap length (reverse-cons c s)
    ∙ omega (arith, length-append (reverse s) (c ∷ []), length-reverse s)

length-reverse_zone : (zone : Text) → length (reverse_zone zone) ≡ suc (length zone)
length-reverse_zone zone = rw (reverse_zone-eq-reverse zone) (length-reverse (dot ++ zone))

module _ (radix : RadixTree) where
  -- The tree holds the zones of `names` and those of `t`.
  find-insert_zones :
      (names : List Text) (t : radix.State) (zone : Text)
      → radix.find (insert_zones radix t names) (reverse_zone zone)
        ≡ (if key_exists names zone then some zone else radix.find t (reverse_zone zone))
  unfolding insert_zones key_exists
  find-insert_zones [] t zone = refl
  find-insert_zones (n ∷ names) t zone = elim (Bool-cases (text_eq zone n)) [
    | inl same ↦
        let e : zone ≡ n = (text_eq_iff zone n).0 same in
        rw
          (
            find-insert_zones names (radix.insert t (reverse_zone n) n) zone,
            same,
            e,
            radix.find-insert_self t (reverse_zone n) n,
          )
          (if-same (any (text_eq n) names) n)
    | inr differ ↦
        let ne : reverse_zone n ≢ reverse_zone zone = λ e.
          false≢true
            (sym differ ∙ (text_eq_iff zone n).1 (reverse_zone_injective zone n (sym e))) in
        rw (
          find-insert_zones names (radix.insert t (reverse_zone n) n) zone,
          differ,
          radix.find-insert_ne t (reverse_zone n) n (reverse_zone zone) ne,
        )
  ]
    where
      if-same : (b : Bool) (n : Text) → (if b then some n else some n) ≡ some n
      if-same true n = refl
      if-same false n = refl

  -- What the tree holds is the zone of its key, and one of `names` or in `t` before.
  filed :
      (names : List Text) (t : radix.State) (k v : Text)
      → radix.find (insert_zones radix t names) k ≡ some v
      → ((k ≡ reverse_zone v) × (key_exists names v ≡ true)) ⊎ (radix.find t k ≡ some v)
  unfolding insert_zones key_exists
  filed [] t k v h = inr h
  filed (n ∷ names) t k v h = elim (filed names (radix.insert t (reverse_zone n) n) k v h) [
    | inl (key, listed) ↦ inl (key, ground arith)
    | inr stored ↦ elim (Bool-cases (text_eq (reverse_zone n) k)) [
      | inl same ↦
          let e : reverse_zone n ≡ k = (text_eq_iff (reverse_zone n) k).0 same in
          let s = radix.find-insert_self t (reverse_zone n) n in
          let stored' : radix.find (radix.insert t (reverse_zone n) n) (reverse_zone n) ≡ some v =
            rw (← e) at stored in
          let v_n : v ≡ n = cc in inl (rw v_n (sym e), rw (v_n, text_eq_refl n) refl)
      | inr differ ↦
          let ne : reverse_zone n ≢ k =
            λ e. false≢true (sym differ ∙ (text_eq_iff (reverse_zone n) k).1 e) in
          inr (sym (radix.find-insert_ne t (reverse_zone n) n k ne) ∙ stored)
    ]
  ]

  -- The closest zone above a name: no zone that the name lies in is longer.
  pub record IsClosestZone (names : List Text) (name zone : Text) : Type 0 where
    pub listed : key_exists names zone ≡ true
    pub within : IsWithin name zone
    pub closest : (z : Text) → key_exists names z ≡ true → IsWithin name z → length z ≤ length zone

  -- After the zones are loaded, FindZone gives the longest of them that the name lies in, label by
  -- label, or the empty text where the name lies in none. An error of redis keeps the zones.
  pub find_zone_lem :
      (zones : radix.State) (names : List Text) (name : Text)
      → (IsClosestZone names name (find_zone radix (load_zones radix zones (some names)) name)
          ⊎ ((find_zone radix (load_zones radix zones (some names)) name ≡ [])
              × ((z : Text) → key_exists names z ≡ true → ¬ IsWithin name z)))
        × (find_zone radix (load_zones radix zones none) name ≡ find_zone radix zones name)
  unfolding find_zone load_zones
  find_zone_lem zones names name = (
    by_tree (radix.longest_prefix (insert_zones radix radix.new names) (reverse_zone name))
        (radix.longest_prefix_lem (insert_zones radix radix.new names) (reverse_zone name)),
    refl,
  )
    where
      clash : (o : Option Text) (z : Text) → o ≡ none → ¬ (o ≡ some z)
      clash o z h k = let e : none ≡ some z = sym h ∙ k in absurd cc

      tree_find : Text → Option Text
      tree_find = radix.find (insert_zones radix radix.new names)

      held : (z : Text) → key_exists names z ≡ true → tree_find (reverse_zone z) ≡ some z
      held z h = rw (find-insert_zones names radix.new z, h)

      longer_held :
          (p z v : Text)
          → ((q : Text) → IsPrefix q (reverse_zone name) → length p < length q → tree_find q ≡ none)
          → p ≡ reverse_zone v
          → key_exists names z ≡ true
          → IsWithin name z
          → length z ≤ length v
      longer_held p z v rest key listed within = elim (Bool-cases (ltb (length v) (length z))) [
        | inl longer ↦
            let l : length p < length (reverse_zone z) = omega (
              arith,
              ap length key,
              length-reverse_zone v,
              length-reverse_zone z,
              ltb→lt (length v) (length z) longer,
            ) in
            absurd (
              clash (tree_find (reverse_zone z)) z
                (rest (reverse_zone z) ((IsPrefix-iff-IsWithin z name).1 within) l) (held z listed))
        | inr shorter ↦ ltb→le (length v) (length z) shorter
      ]

      by_tree :
          (o : Option Text)
          → Longest tree_find (reverse_zone name) o
          → (IsClosestZone names name (or_no_zone radix o)
              ⊎ ((or_no_zone radix o ≡ [])
                  × ((z : Text) → key_exists names z ≡ true → ¬ IsWithin name z)))
      by_tree _ (no_prefix h) = inr (
        refl,
        λ z listed within.
            clash (tree_find (reverse_zone z)) z
              (h (reverse_zone z) ((IsPrefix-iff-IsWithin z name).1 within)) (held z listed),
      )
      by_tree _ (longest p v prefix found rest) = elim (filed names radix.new p v found) [
        | inl (key, listed) ↦ inl (record {
          listed = listed;
          within = (IsPrefix-iff-IsWithin v name).0 (rw (← key) prefix);
          closest = λ z h w. longer_held p z v rest key h w;
        })
        | inr stored ↦ absurd (let e = radix.find-new p in cc)
      ]
