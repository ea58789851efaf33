-- ===== src/Caa/Ends.antt =====
-- handler/handler.go: the search for CAA records ends.
use redins.Prelude.{
  ◌==◌, if◌then◌else◌, Bool-cases, Option-cases, length, take, Text, has_suffix, trim_suffix,
  split_after, split_after_parts, ℕ, zero, suc, ◌+◌, ◌-◌, ◌≤◌, ◌<◌, ◌≡◌, refl, ap, subst, inl, inr,
  false, Option, none, some, List, [], ◌∷◌, ◌++◌, arith,
}
use redins.Zone.{Zone, Match, no_match, exact_match, wildcard_match, dot}
use redins.Zone.Location.{
  Outcome, synthesised, denied, missing, Located, apex, listed, enclosed, find_location_lem,
}
use redins.Answers.{empty}
use redins.Backend.{Location, Backend, locate}
use redins.Caa.{parent, climb, resume, caa_or_nil, at_apex, search_caa, find_caa}

dots : Text → ℕ
dots [] = 0
dots (c ∷ s) = (if c == b'.' then 1 else 0) + dots s

dots-append : (s t : Text) → dots (s ++ t) ≡ dots s + dots t
unfolding dots
dots-append [] t = omega arith
dots-append (c ∷ s) t = omega (arith, dots-append s t)

dots-le : (s : Text) → dots s ≤ length s
unfolding dots
dots-le [] = omega arith
dots-le (c ∷ s) = ground (arith, dots-le s)

dots-take : (n : ℕ) (s : Text) → dots (take n s) ≤ dots s
unfolding dots
dots-take zero s = omega arith
dots-take (suc n) [] = omega arith
dots-take (suc n) (c ∷ s) = omega (arith, dots-take n s)

dots-trim_suffix : (s t : Text) → dots (trim_suffix s t) ≤ dots s
unfolding trim_suffix
dots-trim_suffix s t = elim (Bool-cases (has_suffix s t)) [
  | inl found ↦ rw found (dots-take (length s - length t) s)
  | inr missed ↦ rw missed (omega arith)
]

-- A location that is found for a name has no more dots than the name.
abbrev Fewer : ℕ → Text × Match → Type 0
Fewer n (location, no_match) = Unit
Fewer n (location, _) = dots location ≤ n

Outcome-Fewer :
    (locations : List Text) (label : Text) (found : Text × Match)
    → Outcome locations label found
    → Fewer (dots label) found
unfolding dots
Outcome-Fewer locations label _ (synthesised e source c h) = elim c.below [
  | inl ((labels, joined), same) ↦
      rw same (omega (arith, ap dots joined, dots-append labels (b'.' ∷ e)))
  | inr (nothing, same) ↦ rw same (omega arith)
]
Outcome-Fewer locations label _ (denied e source c h) = tt
Outcome-Fewer locations label _ (missing h root) = tt

Fewer-le : (m n : ℕ) (found : Text × Match) → m ≤ n → Fewer m found → Fewer n found
Fewer-le m n (location, no_match) h k = tt
Fewer-le m n (location, exact_match) h k = omega (arith, k)
Fewer-le m n (location, wildcard_match) h k = omega (arith, k)

Located-Fewer :
    (z : Zone) (query : Text) (found : Text × Match)
    → Located z query found
    → Fewer (dots query) found
Located-Fewer z query _ (apex same) = omega arith
Located-Fewer z query _ (listed differ h) = dots-trim_suffix query (dot ++ z.name)
Located-Fewer z query _ (enclosed {found} differ h o) =
    Fewer-le _ _ found (dots-trim_suffix query (dot ++ z.name))
      (Outcome-Fewer z.locations _ found o)

locate-Fewer : (z : Zone) (query : Text) → Fewer (dots query) (locate z query)
unfolding locate
locate-Fewer z query =
    let (found, e, l) = find_location_lem z query in rw e (Located-Fewer z query found l)

dots-split_after : (s a rest : Text) → split_after b'.' s ≡ some (a, rest) → dots rest < dots s
unfolding dots
dots-split_after s a rest h =
    let (l, plain, joined) = split_after_parts b'.' s a rest h in
    omega (arith, ap dots joined, dots-append l (b'.' ∷ rest))

module _ (b : Backend) (zone : Zone) where
  -- A search that ends, with records that are not empty if it ends with some.
  abbrev HasCaa : Option Location → Type 0
  HasCaa none = Unit
  HasCaa (some record') = empty record'.rrsets.caa.items ≡ false

  Ends : Option (b.State × Option Location) → Type 0
  Ends o = (r : b.State × Option Location) × (o ≡ some r) × HasCaa (r.1)

  HasCaa-apex : (l : b.State × Option Location) → HasCaa (caa_or_nil b zone l).1
  HasCaa-apex (s, none) = tt
  HasCaa-apex (s, some record') = elim (Bool-cases (empty record'.rrsets.caa.items)) [
    | inl no_caa ↦ rw no_caa tt
    | inr some_caa ↦ rw some_caa some_caa
  ]

  climb-Ends :
      (n : ℕ) (next : b.State → Text → Location → Option (b.State × Option Location)) (s : b.State)
      (found : Text × Match)
      → ((s : b.State) (location : Text) (record' : Location)
          → dots location ≤ n
          → Ends (next s location record'))
      → Fewer n found
      → Ends (climb b zone next s found)
  unfolding Ends
  climb-Ends n next s (location, no_match) h k = (_, refl, tt)
  climb-Ends n next s (location, exact_match) h k = resumed (b.load_location s location zone)
    where
      resumed : (l : b.State × Option Location) → Ends (resume b zone next location l)
      resumed (s', none) = (_, refl, tt)
      resumed (s', some record') = h s' location record' k
  climb-Ends n next s (location, wildcard_match) h k = resumed (b.load_location s location zone)
    where
      resumed : (l : b.State × Option Location) → Ends (resume b zone next location l)
      resumed (s', none) = (_, refl, tt)
      resumed (s', some record') = h s' location record' k

  search_caa-Ends :
      (fuel : ℕ) (s : b.State) (location : Text) (record' : Location)
      → dots location < fuel
      → Ends (search_caa b zone fuel s location record')
  unfolding search_caa parent at_apex Ends
  search_caa-Ends zero s location record' h = absurd (omega arith)
  search_caa-Ends (suc fuel) s location record' h =
      elim (Bool-cases (empty record'.rrsets.caa.items)) [
        | inr some_caa ↦ rw (some_caa, search_caa) ((s, some record'), refl, some_caa)
        | inl no_caa ↦
            rw (no_caa, search_caa)
              (elim (Option-cases (split_after b'.' location)) [
                | inl whole ↦
                    rw (whole, parent)
                      (at_apex b zone s, refl, HasCaa-apex (b.load_location s zone.name zone))
                | inr ((a, rest), split) ↦
                    rw (split, parent)
                      (climb-Ends (dots rest) (search_caa b zone fuel) s (locate zone rest)
                        (λ s' l r k.
                          search_caa-Ends fuel s' l r
                            (omega (arith, k, dots-split_after location a rest split)))
                        (locate-Fewer zone rest))
              ])
      ]

  -- FindCAA ends for every location, with no record or with one that has CAA records.
  pub find_caa_lem :
      (s : b.State) (record' : Location)
      → (s' : b.State) × (found : Option Location) × (find_caa b zone s record' ≡ some (s', found))
        × ((r : Location) → found ≡ some r → empty r.rrsets.caa.items ≡ false)
  unfolding find_caa Ends
  find_caa_lem s record' =
      let location = trim_suffix record'.name (dot ++ zone.name) in
      let ((s', found), e, h) =
        search_caa-Ends (suc (length location)) s location record'
          (omega (arith, dots-le location)) in
      (s', found, e, λ r same. subst HasCaa same h)
