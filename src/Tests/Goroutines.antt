-- ===== src/Tests/Goroutines.antt =====
-- The updater of the zones and the log of handler/handler.go, and the decoding of handler/dns_types.go.
use redins.Prelude.{
  ◌==◌, if◌then◌else◌, pos, Text, codes, ℕ, ◌≡◌, refl, true, false, Option, none, some, [], ◌∷◌,
  ◌++◌,
}
use redins.Records.Decoding.{
  number, text, array, nil, cons, boolean, RawIpRr, unmarshal_json, read_country, append_countries,
  DecodeError,
}
use redins.Records.Decoding.Agreement.{new_ip_rr, accepted, unmarshal_json_lem}
use redins.Zones.{load_zones}
use redins.Tests.Trees.{entries_tree}
use redins.Updater.{notified, reload_tick, reload_ends, force_reload_tick, Updater, run_updater}
use redins.Updater.Fresh.{run_updater_lem}

abbrev raw : RawIpRr ℕ
raw = record {
  country = array (cons (text (codes "de")) (cons (text (codes "fr")) nil));
  asn = number 7;
  weight = pos 2;
  ip = 9 ∷ [];
}

abbrev decode : Text → Option (RawIpRr ℕ)
decode [] = none
decode (c ∷ str) =
    some (if c == 0 then record raw { country = array (cons (boolean true) nil) } else raw)

abbrev same_number : ℕ → ℕ
same_number n = n

unmarshal_json_lem_example :
    accepted (unmarshal_json same_number decode new_ip_rr (1 ∷ []))
    ≡ some (record {
      weight = pos 2;
      ip = 9 ∷ [];
      country = codes "de" ∷ codes "fr" ∷ [];
      asn = 7 ∷ [];
    })
unmarshal_json_lem_example = unmarshal_json_lem same_number decode (1 ∷ [])

-- An error leaves a record that is written in part.
partly_written :
    unmarshal_json same_number decode new_ip_rr (0 ∷ [])
    ≡ (record new_ip_rr { weight = pos 2; ip = 9 ∷ [] }, some DecodeError.string_expected)
unfolding unmarshal_json read_country append_countries
partly_written = refl

abbrev updater : Updater entries_tree
updater = record { modified = false; loading = false; zones = entries_tree.new }

run_updater_lem_example :
    run_updater entries_tree updater (
      notified ∷ (force_reload_tick ∷ [])
      ++ reload_tick (some (codes "e." ∷ []))
        ∷ ((notified ∷ []) ++ reload_ends ∷ (reload_tick none ∷ [])))
    ≡ record {
      modified = false;
      loading = false;
      zones = load_zones entries_tree entries_tree.new (some (codes "e." ∷ []));
    }
run_updater_lem_example =
    run_updater_lem entries_tree updater notified (force_reload_tick ∷ []) (some (codes "e." ∷ []))
      (notified ∷ []) (reload_tick none ∷ []) refl tt (tt, tt) (tt, tt) (tt, tt)

-- A reload that fails is not tried again by the next tick.
missed :
    run_updater entries_tree updater
      (notified ∷ reload_tick none ∷ reload_ends ∷ reload_tick (some (codes "e." ∷ [])) ∷ [])
    ≡ updater
unfolding run_updater load_zones
missed = refl
