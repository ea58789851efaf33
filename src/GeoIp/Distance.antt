-- ===== src/GeoIp/Distance.antt =====
-- handler/geoip.go: what GetMinimumDistance does with a mask.
use redins.Prelude.{
  Option, ltb, if◌then◌else◌, Bool-cases, Option-cases, length, get_elem?, any, length-append,
  get_elem?-none, ℕ, suc, ◌+◌, ◌≤◌, ◌<◌, ◌≡◌, refl, ap, ◌∙◌, inl, inr, Bool, true, false, not, ◌||◌,
  none, some, List, [], ◌∷◌, ◌++◌, map, arith,
}
use native.Mathlib.Nat.{zero-add}
use redins.Records.{Ip, IpRr}
use redins.Ips.{Mask, white, grey, is_white}
use redins.GeoIp.{
  is_none, CountryDb, GeoIp, Floats, coordinates_or_zero, get_coordinates, measure, at_distance,
  nearest, whiten, settle, from_source, get_minimum_distance,
}

module _ {F : Type 0} (fl : Floats F) (g : GeoIp F) where
  abbrev pub distance_to : F × F → IpRr → F
  distance_to from r = fl.distance from (coordinates_or_zero fl g (get_coordinates fl g r.ip))

  -- The least of the distances and of the bound of the program.
  abbrev pub least_of : F → List F → F
  least_of least [] = least
  least_of least (d ∷ ds) = least_of (if fl.lt d least then d else least) ds

  measure-white :
      (from : F × F) (least : F) (rs : List IpRr)
      → measure fl g from least (map (λ _. white) rs) rs
        ≡ (map (distance_to from) rs, least_of least (map (distance_to from) rs))
  unfolding measure
  measure-white from least [] = refl
  measure-white from least (r ∷ rs) = rw (
      measure-white from (if fl.lt (distance_to from r) least then distance_to from r else least)
        rs)

  abbrev pub mark : F → F → Mask
  mark least d = if fl.eq d least then white else grey

  nearest-white :
      (ds0 ds : List F) (least : F) (i : ℕ)
      → ((j : ℕ) → get_elem? ds0 (i + j) ≡ get_elem? ds j)
      → (passed : ℕ) × (nearest fl g ds0 least i (map (λ _. white) ds)
          ≡ some (map (mark least) ds, passed))
        × (ltb 0 passed ≡ any (λ d. fl.eq d least) ds)
  unfolding nearest
  nearest-white ds0 [] least i h = (0, refl, refl)
  nearest-white ds0 (d ∷ ds) least i h =
      let here : get_elem? ds0 i ≡ some d = ap (get_elem? ds0) (omega arith) ∙ h 0 in
      let (passed, rest, counted) =
        nearest-white ds0 ds least (i + 1) (λ j. ap (get_elem? ds0) (omega arith) ∙ h (suc j)) in
      rw (here, rest)
        (unfold at_distance in
          elim (Bool-cases (fl.eq d least)) [
            | inl near ↦ rw near (passed + 1, refl, ground arith)
            | inr far ↦ rw far (passed, refl, counted)
          ])

  -- The distances are appended only for white addresses, and read at the index of the mask.
  length-measure :
      (from : F × F) (least : F) (ms : List Mask) (rs : List IpRr)
      → length (measure fl g from least ms rs).0 ≤ length ms
  unfolding measure
  length-measure from least [] [] = omega arith
  length-measure from least [] (r ∷ rs) = omega arith
  length-measure from least (white ∷ ms) [] = omega arith
  length-measure from least (_ ∷ ms) [] = omega arith
  length-measure from least (white ∷ ms) (r ∷ rs) = omega (
    arith,
    length-measure from (if fl.lt (distance_to from r) least then distance_to from r else least) ms
        rs,
  )
  length-measure from least (_ ∷ ms) (r ∷ rs) = omega (arith, length-measure from least ms rs)

  -- Some address before the last one is not white.
  abbrev pub some_masked : List Mask → Bool
  some_masked [] = false
  some_masked (m ∷ ms) = not (is_white m) || some_masked ms

  short-measure :
      (from : F × F) (least : F) (ms : List Mask) (rs : List IpRr)
      → some_masked ms ≡ true
      → length ms ≤ length rs
      → length (measure fl g from least ms rs).0 < length ms
  unfolding measure
  short-measure from least [] rs h k = cc
  short-measure from least (white ∷ ms) [] h k = elim k [ ]
  short-measure from least (_ ∷ ms) [] h k = elim k [ ]
  short-measure from least (white ∷ ms) (r ∷ rs) h k = omega (
    arith,
    short-measure from (if fl.lt (distance_to from r) least then distance_to from r else least) ms
        rs h (omega arith),
  )
  short-measure from least (_ ∷ ms) (r ∷ rs) h k = omega (arith, length-measure from least ms rs)

  nearest-none :
      (ds : List F) (least : F) (i : ℕ) (ms : List Mask)
      → get_elem? ds (i + length ms) ≡ none
      → nearest fl g ds least i (ms ++ white ∷ []) ≡ none
  unfolding nearest at_distance
  nearest-none ds least i [] h =
      let e : get_elem? ds i ≡ none = ap (get_elem? ds) (omega arith) ∙ h in rw e
  nearest-none ds least i (white ∷ ms) h =
      rw (nearest-none ds least (i + 1) ms (ap (get_elem? ds) (omega arith) ∙ h))
        (elim (Option-cases (get_elem? ds i)) [ inl e ↦ rw e | inr (d, e) ↦ rw e ])
  nearest-none ds least i (_ ∷ ms) h =
      rw (nearest-none ds least (i + 1) ms (ap (get_elem? ds) (omega arith) ∙ h))

  some_masked-append :
      (ms : List Mask) → some_masked ms ≡ true → some_masked (ms ++ white ∷ []) ≡ true
  some_masked-append [] h = cc
  some_masked-append (white ∷ ms) h = some_masked-append ms h
  some_masked-append (_ ∷ ms) h = refl

  from_source-none :
      (from : F × F) (ms : List Mask) (rs : List IpRr)
      → some_masked ms ≡ true
      → length rs ≡ length ms + 1
      → from_source fl g rs (ms ++ white ∷ []) (some from) ≡ none
  unfolding from_source settle
  from_source-none from ms rs h k =
      let whole : length (ms ++ white ∷ []) ≡ length ms + 1 = length-append ms (white ∷ []) in
      let short =
        short-measure from fl.far (ms ++ white ∷ []) rs (some_masked-append ms h) (omega arith) in
      rw (
        nearest-none (measure fl g from fl.far (ms ++ white ∷ []) rs).0 _ 0 ms (
          ap (get_elem? (measure fl g from fl.far (ms ++ white ∷ []) rs).0) (zero-add (length ms))
          ∙ get_elem?-none (measure fl g from fl.far (ms ++ white ∷ []) rs).0 (length ms)
              (omega (arith, short, whole))))

  white-map :
      (from : F × F) (rs : List IpRr)
      → map (λ _. white) rs ≡ map (λ _. white) (map (distance_to from) rs)
  white-map from [] = refl
  white-map from (r ∷ rs) = ap (λ (l : List Mask). white ∷ l) (white-map from rs)

  whiten-mark : (least : F) (ds : List F) → map whiten (map (mark least) ds) ≡ map (λ _. white) ds
  whiten-mark least [] = refl
  whiten-mark least (d ∷ ds) = elim (Bool-cases (fl.eq d least)) [
    | inl near ↦ rw near (ap (λ (l : List Mask). white ∷ l) (whiten-mark least ds))
    | inr far ↦ rw far (ap (λ (l : List Mask). white ∷ l) (whiten-mark least ds))
  ]

  from_source-white :
      (from : F × F) (rs : List IpRr)
      → from_source fl g rs (map (λ _. white) rs) (some from)
        ≡ some (
            if any
              (λ d. fl.eq d (least_of fl.far (map (distance_to from) rs)))
              (map (distance_to from) rs)
            then map
                (mark (least_of fl.far (map (distance_to from) rs)))
                (map (distance_to from) rs)
            else map (λ _. white) rs)
  unfolding from_source settle
  from_source-white from rs =
      let ds = map (distance_to from) rs in
      let (passed, e, counted) =
        nearest-white ds ds (least_of fl.far ds) 0 (λ j. ap (get_elem? ds) (zero-add j)) in
      rw
        (
          measure-white from fl.far rs,
          white-map from rs,
          e,
          counted,
          whiten-mark (least_of fl.far ds) ds,
        )
        refl

  module _ (source : Ip) (from : F × F) (db : CountryDb F) where
    pub record IsLocated : Type 0 where
      pub on : g.enable ≡ true
      pub opened : g.country_db ≡ some db
      pub located : db.location source ≡ some from

    get_coordinates-located : IsLocated → get_coordinates fl g source ≡ some from
    unfolding get_coordinates
    get_coordinates-located l = simp (l.on, l.opened, l.located)

    get_minimum_distance-located :
        (rs : List IpRr) (mask : List Mask)
        → IsLocated
        → get_minimum_distance fl g source rs mask ≡ from_source fl g rs mask (some from)
    unfolding get_minimum_distance
    get_minimum_distance-located rs mask l = simp (l.on, l.opened, get_coordinates-located l)

    -- Where the database has the source and every address is white, GetMinimumDistance keeps the
    -- addresses at the least distance white and makes the others grey; where none is at a distance that
    -- equals the least one, as with all of them beyond the bound, all stay white. It does not panic.
    pub get_minimum_distance_white :
        (rs : List IpRr)
        → IsLocated
        → get_minimum_distance fl g source rs (map (λ _. white) rs)
          ≡ some (
              if any
                (λ d. fl.eq d (least_of fl.far (map (distance_to from) rs)))
                (map (distance_to from) rs)
              then map
                  (mark (least_of fl.far (map (distance_to from) rs)))
                  (map (distance_to from) rs)
              else map (λ _. white) rs)
    get_minimum_distance_white rs l =
        get_minimum_distance-located rs (map (λ _. white) rs) l ∙ from_source-white from rs

    -- Where the last address is white and one before it is not, GetMinimumDistance reads past the
    -- end of the distances: a panic.
    pub get_minimum_distance_panics :
        (ms : List Mask) (rs : List IpRr)
        → IsLocated
        → some_masked ms ≡ true
        → length rs ≡ length ms + 1
        → get_minimum_distance fl g source rs (ms ++ white ∷ []) ≡ none
    get_minimum_distance_panics ms rs l h k =
        get_minimum_distance-located rs (ms ++ white ∷ []) l ∙ from_source-none from ms rs h k

module _ {F : Type 0} (fl : Floats F) (g : GeoIp F) where
  -- With every address white GetMinimumDistance does not panic, whatever the database has.
  pub get_minimum_distance-some :
      (source : Ip) (rs : List IpRr)
      → (ms : List Mask) × (get_minimum_distance fl g source rs (map (λ _. white) rs) ≡ some ms)
  unfolding get_minimum_distance
  get_minimum_distance-some source rs = elim (Bool-cases (not g.enable || is_none g.country_db)) [
    | inl off ↦ rw off (_, refl)
    | inr on ↦ rw on (located (get_coordinates fl g source))
  ]
    where
      located :
          (o : Option (F × F))
          → (ms : List Mask) × (from_source fl g rs (map (λ _. white) rs) o ≡ some ms)
      located none = unfold from_source in (_, refl)
      located (some from) = (_, from_source-white fl g from rs)
