-- ===== src/GeoIp/Narrowing.antt =====
-- handler/geoip.go: what GetSameCountry and GetSameASN do with a mask.
use redins.Prelude.{
  ltb, ◌==◌, if◌then◌else◌, Bool-cases, Text, text_eq, ℕ, ◌≡◌, refl, inl, inr, Bool, true, false,
  not, ◌&&◌, Option, none, some, List, [], ◌∷◌, arith,
}
use redins.Records.{Ip, IpRr}
use redins.Ips.{Mask, white, grey, black}
use redins.Ips.Masks.{
  pointwise, some_white, NoRevival, NoRevival-refl, NoRevival-pointwise, NoRevival-if,
}
use redins.GeoIp.{
  by_lookup, get_asn, by_country, by_asn, CountryDb, AsnDb, GeoIp, narrow, widen, prefer,
  get_country, get_same_country, get_same_asn, in_country, any_country, in_asn, any_asn,
}

abbrev pub kept_match : (IpRr → Bool) → Mask → IpRr → Mask
kept_match p white r = if p r then white else grey
kept_match p _ r = black

abbrev pub kept_neutral : Bool → (IpRr → Bool) → Mask → IpRr → Mask
kept_neutral known q white r = if q r then white else black
kept_neutral known q grey r = if not known && q r then white else black
kept_neutral known q black r = black

narrow_lem :
    (p : IpRr → Bool) (ms : List Mask) (rs : List IpRr)
    → ((narrow p ms rs).0 ≡ pointwise (kept_match p) ms rs)
      × (ltb 0 (narrow p ms rs).1 ≡ some_white p ms rs)
unfolding narrow
narrow_lem p [] [] = (refl, ground arith)
narrow_lem p [] (r ∷ rs) = (refl, ground arith)
narrow_lem p (white ∷ ms) [] = (refl, ground arith)
narrow_lem p (_ ∷ ms) [] = (refl, ground arith)
narrow_lem p (white ∷ ms) (r ∷ rs) = ground (arith, narrow_lem p ms rs)
narrow_lem p (_ ∷ ms) (r ∷ rs) = ground (arith, narrow_lem p ms rs)

-- The second loop after a first one that found no match.
widen-pointwise :
    (p q : IpRr → Bool) (ms : List Mask) (rs : List IpRr)
    → some_white p ms rs ≡ false
    → widen q (pointwise (kept_match p) ms rs) rs ≡ pointwise (kept_neutral true q) ms rs
unfolding widen
widen-pointwise p q [] rs h = refl
widen-pointwise p q (white ∷ ms) [] h = refl
widen-pointwise p q (_ ∷ ms) [] h = refl
widen-pointwise p q (white ∷ ms) (r ∷ rs) h = ground (arith, widen-pointwise p q ms rs)
widen-pointwise p q (_ ∷ ms) (r ∷ rs) h = ground (arith, widen-pointwise p q ms rs)

widen_lem :
    (q : IpRr → Bool) (ms : List Mask) (rs : List IpRr)
    → widen q ms rs ≡ pointwise (kept_neutral false q) ms rs
unfolding widen
widen_lem q [] rs = refl
widen_lem q (white ∷ ms) [] = refl
widen_lem q (_ ∷ ms) [] = refl
widen_lem q (white ∷ ms) (r ∷ rs) = ground (arith, widen_lem q ms rs)
widen_lem q (_ ∷ ms) (r ∷ rs) = ground (arith, widen_lem q ms rs)

-- The two loops together: where the source's value is known and a white address has it, the white
-- addresses that have it stay white and the other white ones become grey; else the addresses with no
-- value become white, of those that were white, and also of the grey ones if the source's value is
-- not known. All others become black.
prefer_lem :
    (known : Bool) (p q : IpRr → Bool) (ms : List Mask) (rs : List IpRr)
    → prefer known p q ms rs ≡ (
        if known && some_white p ms rs
        then pointwise (kept_match p) ms rs
        else pointwise (kept_neutral known q) ms rs)
unfolding prefer
prefer_lem true p q ms rs =
    rw ((narrow_lem p ms rs).0, (narrow_lem p ms rs).1)
      (elim (Bool-cases (some_white p ms rs)) [
        | inl found ↦ rw found refl
        | inr missed ↦ rw missed (widen-pointwise p q ms rs missed)
      ])
prefer_lem false p q ms rs = widen_lem q ms rs

prefer-NoRevival :
    (known : Bool) (p q : IpRr → Bool) (ms : List Mask) (rs : List IpRr)
    → NoRevival (prefer known p q ms rs) ms
prefer-NoRevival known p q ms rs =
    rw (prefer_lem known p q ms rs) (elim (Bool-cases (known && some_white p ms rs)) [
      | inl found ↦ rw found (NoRevival-pointwise _ ms rs (λ r. refl))
      | inr missed ↦ rw missed (NoRevival-pointwise _ ms rs (λ r. refl))
    ])

by_country-NoRevival :
    (rs : List IpRr) (mask : List Mask) (o : Option Text) → NoRevival (by_country rs mask o) mask
unfolding by_country
by_country-NoRevival rs mask none = NoRevival-refl mask
by_country-NoRevival rs mask (some country) = prefer-NoRevival _ _ _ mask rs

by_asn-NoRevival :
    (rs : List IpRr) (mask : List Mask) (o : Option ℕ) → NoRevival (by_asn rs mask o) mask
unfolding by_asn
by_asn-NoRevival rs mask none = NoRevival-refl mask
by_asn-NoRevival rs mask (some asn) = prefer-NoRevival _ _ _ mask rs

by_lookup-NoRevival :
    (rs : List IpRr) (mask : List Mask) (o : Option (Option ℕ))
    → NoRevival (by_lookup rs mask o) mask
unfolding by_lookup
by_lookup-NoRevival rs mask none = NoRevival-refl mask
by_lookup-NoRevival rs mask (some found) = by_asn-NoRevival rs mask found

module _ {F : Type 0} (g : GeoIp F) (source : Ip) (rs : List IpRr) (mask : List Mask) where
  -- Whatever the databases answer, neither filter gives a black address another mask.
  pub same_filters-NoRevival :
      NoRevival (get_same_country g source rs mask) mask
      × NoRevival (get_same_asn g source rs mask) mask
  unfolding get_same_country get_same_asn
  same_filters-NoRevival = (
    NoRevival-if _ _ mask (by_country-NoRevival rs mask (get_country g source)),
    NoRevival-if _ _ mask (by_lookup-NoRevival rs mask (get_asn g source)),
  )

  -- Where the country of the source is looked up without an error, GetSameCountry keeps the white
  -- addresses of that country and makes the other white ones grey; if the country is empty or no white
  -- address has it, the addresses without a country stay or become white, and all others black.
  pub get_same_country_lem :
      (db : CountryDb F) (country : Text)
      → g.enable ≡ true
      → g.country_db ≡ some db
      → db.country source ≡ some country
      → get_same_country g source rs mask ≡ (
          if not (text_eq country []) && some_white (in_country country) mask rs
          then pointwise (kept_match (in_country country)) mask rs
          else pointwise (kept_neutral (not (text_eq country [])) any_country) mask rs)
  unfolding get_same_country get_country by_country
  get_same_country_lem db country on opened found =
      rw (← prefer_lem (not (text_eq country [])) (in_country country) any_country mask rs)
        (simp (on, opened, found))

  get_asn-opened : (db : AsnDb) → g.asn_db ≡ some db → get_asn g source ≡ some (db.asn source)
  unfolding get_asn
  get_asn-opened db opened = rw (opened, get_asn)

  -- GetSameASN does the same with autonomous systems, where 0 stands for none.
  pub get_same_asn_lem :
      (db : AsnDb) (asn : ℕ)
      → g.enable ≡ true
      → g.asn_db ≡ some db
      → db.asn source ≡ some asn
      → get_same_asn g source rs mask ≡ (
          if not (asn == 0) && some_white (in_asn asn) mask rs
          then pointwise (kept_match (in_asn asn)) mask rs
          else pointwise (kept_neutral (not (asn == 0)) any_asn) mask rs)
  unfolding get_same_asn by_lookup by_asn
  get_same_asn_lem db asn on opened found =
      rw (← prefer_lem (not (asn == 0)) (in_asn asn) any_asn mask rs)
        (simp (on, opened, get_asn-opened db opened, found))
