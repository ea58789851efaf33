-- ===== src/Keys/Signed.antt =====
-- handler/handler.go: a zone that is signed has its keys.
use redins.Prelude.{ℤ, Text, ℕ, ◌≡◌, true, false, Option, none, some, List, [], ◌∷◌}
use redins.Zone.{Zone}
use redins.Message.{Rr}
use redins.Dnssec.{PrivateKey, ZoneKey, ZoneKeys, sign_set}

module _ (get : Text → Text) (parse_rr : Text → Option (Option Rr))
    (private_key : Rr → Text → Option PrivateKey) (key_tag : Rr → ℕ)
    (crypto : ZoneKey → Rr → List Rr → Option Rr) (now : ℤ) (z : Zone) where
  -- A zone with no keys is the same but that it is not signed; one with keys is the same, is
  -- signed, and its keys have the same ttl and are signed by its key-signing key.
  abbrev pub IsSigned : Option (Zone × Option ZoneKeys) → Type 0
  IsSigned none = Unit
  IsSigned (some (z', none)) = z' ≡ record z { config = record (z.config) { dns_sec = false } }
  IsSigned (some (z', some keys)) =
      (z' ≡ z)
      × (z.config.dns_sec ≡ true)
      × (keys.zsk.dns_key.hdr.ttl ≡ keys.ksk.dns_key.hdr.ttl)
      × (sign_set crypto (keys.zsk.dns_key ∷ keys.ksk.dns_key ∷ []) z.name keys.ksk
            keys.ksk.dns_key.hdr.ttl
          ≡ some (some keys.dns_key_sig))
