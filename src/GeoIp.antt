-- ===== src/GeoIp.antt =====
-- handler/geoip.go: the filters that compare the source of a query with the addresses of a set.
pub mod Narrowing
pub mod Distance
use redins.Prelude.{
  ltb, ◌==◌, if◌then◌else◌, get_elem?, any, Text, text_eq, ℕ, ◌+◌, Bool, true, false, not, ◌||◌,
  Option, none, some, List, [], ◌∷◌, map,
}
use redins.Records.{Ip, IpRr}
use redins.Ips.{Mask, white, grey, black}

-- A mmdb database is read through github.com/oschwald/maxminddb-golang: a database is what its
-- lookups return, `none` for an error. `F` stands for float64, latitude before longitude.
pub record CountryDb (F : Type 0) : Type 0 where
  pub country : Ip → Option Text
  pub location : Ip → Option (F × F)

pub record AsnDb : Type 0 where
  pub asn : Ip → Option ℕ

pub record GeoIp (F : Type 0) : Type 0 where
  pub enable : Bool
  pub country_db : Option (CountryDb F)
  pub asn_db : Option AsnDb

-- The first loop of GetSameCountry and GetSameASN: a white address without a match becomes grey,
-- one that was not white becomes black. The second part counts the matches.
unfoldable pub narrow : (IpRr → Bool) → List Mask → List IpRr → List Mask × ℕ
narrow matches (white ∷ ms) (r ∷ rs) =
    let (rest, passed) = narrow matches ms rs in
    if matches r then (white ∷ rest, passed + 1) else (grey ∷ rest, passed)
narrow matches (_ ∷ ms) (r ∷ rs) =
    let (rest, passed) = narrow matches ms rs in (black ∷ rest, passed)
narrow matches ms _ = (ms, 0)

-- The second loop: of the addresses that are not black those without a value, or with the empty
-- one, become white, and the others black.
unfoldable pub widen : (IpRr → Bool) → List Mask → List IpRr → List Mask
widen neutral (black ∷ ms) (r ∷ rs) = black ∷ widen neutral ms rs
widen neutral (_ ∷ ms) (r ∷ rs) = (if neutral r then white else black) ∷ widen neutral ms rs
widen neutral ms _ = ms

-- Both loops; `known` says that the source has a value to compare with.
unfoldable pub prefer : Bool → (IpRr → Bool) → (IpRr → Bool) → List Mask → List IpRr → List Mask
prefer known matches neutral mask rs =
    let (narrowed, passed) = if known then narrow matches mask rs else (mask, 0) in
    if ltb 0 passed then narrowed else widen neutral narrowed rs

abbrev pub null {ℓ} : {A : Type ℓ} → List A → Bool
null [] = true
null (x ∷ xs) = false

abbrev pub in_country : Text → IpRr → Bool
in_country country r = any (text_eq country) r.country

abbrev pub any_country : IpRr → Bool
any_country r = null r.country || any (λ c. text_eq c []) r.country

abbrev pub in_asn : ℕ → IpRr → Bool
in_asn asn r = any (λ a. a == asn) r.asn

abbrev pub any_asn : IpRr → Bool
any_asn r = null r.asn || any (λ a. a == 0) r.asn

-- The rest of GetSameCountry and of GetSameASN once the source is looked up.
unfoldable pub by_country : List IpRr → List Mask → Option Text → List Mask
by_country rs mask none = mask
by_country rs mask (some country) =
    prefer (not (text_eq country [])) (in_country country) any_country mask rs

unfoldable pub by_asn : List IpRr → List Mask → Option ℕ → List Mask
by_asn rs mask none = mask
by_asn rs mask (some asn) = prefer (not (asn == 0)) (in_asn asn) any_asn mask rs

-- The panic is not met, since GetSameASN tests the database first.
unfoldable pub by_lookup : List IpRr → List Mask → Option (Option ℕ) → List Mask
by_lookup rs mask none = mask
by_lookup rs mask (some found) = by_asn rs mask found

abbrev pub is_none {ℓ} : {A : Type ℓ} → Option A → Bool
is_none none = true
is_none (some a) = false

module _ {F : Type 0} (g : GeoIp F) where
  -- GetCountry: `some ""` with no error where the database is off.
  unfoldable pub get_country : Ip → Option Text
  get_country ip =
      if not g.enable
      then some []
      else elim g.country_db [ none ↦ some [] | some db ↦ db.country ip ]

  -- GetASN has no such test; its lookup through a reader that is not open is a panic, which is the
  -- outer `none`.
  unfoldable pub get_asn : Ip → Option (Option ℕ)
  get_asn ip = elim g.asn_db [ none ↦ none | some db ↦ some (db.asn ip) ]

  unfoldable pub get_same_country : Ip → List IpRr → List Mask → List Mask
  get_same_country source rs mask =
      if not g.enable || is_none g.country_db then mask else by_country rs mask (get_country source)

  unfoldable pub get_same_asn : Ip → List IpRr → List Mask → List Mask
  get_same_asn source rs mask =
      if not g.enable || is_none g.asn_db then mask else by_lookup rs mask (get_asn source)

-- float64 is a parameter: its tests, the literal 1000.0 and `getDistance`, which calls the package
-- `math` and returns no error.
pub record Floats (F : Type 0) : Type 0 where
  pub lt : F → F → Bool
  pub eq : F → F → Bool
  pub zero_deg : F
  pub far : F
  pub distance : F × F → F × F → F

abbrev pub then_black : Option (List Mask × ℕ) → Option (List Mask × ℕ)
then_black none = none
then_black (some (ms, passed)) = some (black ∷ ms, passed)

abbrev pub whiten : Mask → Mask
whiten grey = white
whiten m = m

unfoldable pub settle : Option (List Mask × ℕ) → Option (List Mask)
settle none = none
settle (some (ms, passed)) = some (if ltb 0 passed then ms else map whiten ms)

module _ {F : Type 0} (fl : Floats F) (g : GeoIp F) where
  -- GetCoordinates: 0, 0 where the database is off.
  unfoldable pub get_coordinates : Ip → Option (F × F)
  get_coordinates ip =
      if not g.enable
      then some (fl.zero_deg, fl.zero_deg)
      else elim g.country_db [ none ↦ some (fl.zero_deg, fl.zero_deg) | some db ↦ db.location ip ]

  -- The caller drops the error of an address, and goes on with the 0, 0 that came with it.
  unfoldable pub coordinates_or_zero : Option (F × F) → F × F
  coordinates_or_zero none = (fl.zero_deg, fl.zero_deg)
  coordinates_or_zero (some at) = at

  -- The first loop: the distances of the white addresses, appended in order, and the least one.
  unfoldable pub measure : F × F → F → List Mask → List IpRr → List F × F
  measure from least (white ∷ ms) (r ∷ rs) =
      let d = fl.distance from (coordinates_or_zero (get_coordinates r.ip)) in
      let (ds, least') = measure from (if fl.lt d least then d else least) ms rs in (d ∷ ds, least')
  measure from least (_ ∷ ms) (r ∷ rs) = measure from least ms rs
  measure from least _ _ = ([], least)

  -- One round of the second loop at a white address: `none` is the panic of an index out of range.
  unfoldable pub at_distance : F → Option F → Option (List Mask × ℕ) → Option (List Mask × ℕ)
  at_distance least none rest = none
  at_distance least (some d) none = none
  at_distance least (some d) (some (ms, passed)) =
      if fl.eq d least then some (white ∷ ms, passed + 1) else some (grey ∷ ms, passed)

  -- The second loop, at the index `i` of the mask, which is also the index into the distances.
  unfoldable pub nearest : List F → F → ℕ → List Mask → Option (List Mask × ℕ)
  unfolding at_distance
  nearest ds least i [] = some ([], 0)
  nearest ds least i (white ∷ ms) = at_distance least (get_elem? ds i) (nearest ds least (i + 1) ms)
  nearest ds least i (_ ∷ ms) = then_black (nearest ds least (i + 1) ms)

  unfoldable pub from_source : List IpRr → List Mask → Option (F × F) → Option (List Mask)
  unfolding measure nearest settle
  from_source rs mask none = some mask
  from_source rs mask (some from) =
      let (ds, least) = measure from fl.far mask rs in settle (nearest ds least 0 mask)

  -- `none` is a panic.
  unfoldable pub get_minimum_distance : Ip → List IpRr → List Mask → Option (List Mask)
  unfolding from_source
  get_minimum_distance source rs mask =
      if not g.enable || is_none g.country_db
      then some mask
      else from_source rs mask (get_coordinates source)
