-- ===== src/Ips/Masks.antt =====
-- handler/handler.go, handler/geoip.go, handler/healthcheck.go: masks beside the addresses of a set.
use redins.Prelude.{if◌then◌else◌, ◌≡◌, refl, Bool, true, false, ◌&&◌, ◌||◌, List, [], ◌∷◌}
use redins.Records.{IpRr}
use redins.Ips.{Mask, black, is_white}

-- Each address of a set with its mask, one by one.
abbrev pub pointwise : (Mask → IpRr → Mask) → List Mask → List IpRr → List Mask
pointwise f (m ∷ ms) (r ∷ rs) = f m r ∷ pointwise f ms rs
pointwise f ms _ = ms

-- Some white address satisfies `p`.
abbrev pub some_white : (IpRr → Bool) → List Mask → List IpRr → Bool
some_white p (m ∷ ms) (r ∷ rs) = is_white m && p r || some_white p ms rs
some_white p _ _ = false

-- The first mask is as long as the second, and black where the second is.
abbrev pub NoRevival : List Mask → List Mask → Type 0
NoRevival [] [] = Unit
NoRevival (n ∷ ns) (black ∷ ms) = (n ≡ black) × NoRevival ns ms
NoRevival (n ∷ ns) (m ∷ ms) = NoRevival ns ms
NoRevival _ _ = ⊥

pub NoRevival-refl : (ms : List Mask) → NoRevival ms ms
NoRevival-refl [] = tt
NoRevival-refl (black ∷ ms) = (refl, NoRevival-refl ms)
NoRevival-refl (_ ∷ ms) = NoRevival-refl ms

pub NoRevival-pointwise :
    (f : Mask → IpRr → Mask) (ms : List Mask) (rs : List IpRr)
    → ((r : IpRr) → f black r ≡ black)
    → NoRevival (pointwise f ms rs) ms
NoRevival-pointwise f [] rs h = tt
NoRevival-pointwise f (black ∷ ms) [] h = NoRevival-refl (black ∷ ms)
NoRevival-pointwise f (_ ∷ ms) [] h = NoRevival-refl ms
NoRevival-pointwise f (black ∷ ms) (r ∷ rs) h = (h r, NoRevival-pointwise f ms rs h)
NoRevival-pointwise f (_ ∷ ms) (r ∷ rs) h = NoRevival-pointwise f ms rs h

pub NoRevival-if :
    (b : Bool) (ns ms : List Mask) → NoRevival ns ms → NoRevival (if b then ms else ns) ms
NoRevival-if true ns ms h = NoRevival-refl ms
NoRevival-if false ns ms h = h
