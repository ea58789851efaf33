-- ===== src/Healthcheck/Transfer/Ending.antt =====
-- handler/healthcheck.go: when Transfer returns, after ShutDown has closed h.quit.
use redins.Prelude.{
  if◌then◌else◌, any, Text, ℕ, zero, suc, ◌≡◌, refl, ap, ◌∙◌, Bool, true, false, ◌||◌, Option, none,
  some, List, [], ◌∷◌,
}
use redins.Healthcheck.Store.{StatusServer}
use redins.Healthcheck.Transfer.{
  ConfigServer, Codec, get_domain_id, transfer_subdomains, and_then, subdomains_of, domains_of,
  transfer_domains, transfer_pass, transfer,
}

abbrev pub is_some_item {ℓ} : {A : Type ℓ} → List A → Bool
is_some_item [] = false
is_some_item (x ∷ xs) = true

-- Some zone that is listed has a location.
abbrev pub has_location : ConfigServer → List Text → Bool
has_location config = any (λ (domain : Text). is_some_item (subdomains_of config domain))

or_false : (a : Bool) → a || false ≡ a
or_false true = refl
or_false false = refl

or_self : (a : Bool) → a || a ≡ a
or_self true = refl
or_self false = refl

module _ (r : StatusServer) (config : ConfigServer) (codec : Codec) (update_interval : ℕ)
    (quits : ℕ → Bool) (n : ℕ) (s : r.State) (quit : quits n ≡ true) where
  abbrev returned : Bool → r.State × Option ℕ
  returned b = (s, if b then none else some n)

  subdomains_quit :
      (domain domain_id : Text) (subdomains : List Text)
      → transfer_subdomains r config codec update_interval quits n s domain domain_id subdomains
        ≡ returned (is_some_item subdomains)
  unfolding transfer_subdomains
  subdomains_quit domain domain_id [] = refl
  subdomains_quit domain domain_id (subdomain ∷ subdomains) = rw (quit, transfer_subdomains) refl

  and_then-returned :
      (a b : Bool) (next : ℕ → r.State → r.State × Option ℕ)
      → next n s ≡ returned b
      → and_then r config codec update_interval quits (returned a) next ≡ returned (a || b)
  unfolding and_then
  and_then-returned true b next h = refl
  and_then-returned false b next h = h

  domains_quit :
      (domains : List Text)
      → transfer_domains r config codec update_interval quits n s domains
        ≡ returned (has_location config domains)
  unfolding transfer_domains
  domains_quit [] = refl
  domains_quit (domain ∷ domains) =
      rw
        (subdomains_quit domain (get_domain_id config codec.decode_id domain)
          (subdomains_of config domain))
        (and_then-returned (is_some_item (subdomains_of config domain))
          (has_location config domains)
          (λ n' s'. transfer_domains r config codec update_interval quits n' s' domains)
          (domains_quit domains))

  -- Where h.quit is found closed, Transfer returns at the next location it comes to and writes
  -- nothing more. So it ends within a round if some zone lists a location; where none does, or redis
  -- cannot be read, no number of rounds ends it, and ShutDown waits for ever.
  pub transfer_quits :
      (rounds : ℕ)
      → transfer r config codec update_interval quits (suc rounds) n s
        ≡ (s, if has_location config (domains_of config) then none else some n)
  unfolding transfer transfer_pass
  transfer_quits zero = rw (domains_quit (domains_of config)) (
      and_then-returned (has_location config (domains_of config)) false
        (transfer r config codec update_interval quits zero) refl
      ∙ ap returned (or_false (has_location config (domains_of config))))
  transfer_quits (suc rounds) = rw (domains_quit (domains_of config)) (
      and_then-returned (has_location config (domains_of config))
        (has_location config (domains_of config))
        (transfer r config codec update_interval quits (suc rounds)) (transfer_quits rounds)
      ∙ ap returned (or_self (has_location config (domains_of config))))
