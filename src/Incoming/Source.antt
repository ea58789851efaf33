-- ===== src/Incoming/Source.antt =====
-- handler/request.go: the name and the source of a request.
use redins.Prelude.{
  Option-cases, All, Text, ℕ, ◌<◌, ◌≡◌, refl, ◌⊎◌, inl, inr, Bool, none, some, List, [], ◌∷◌, arith,
}
use redins.Records.{Ip}
use redins.Incoming.{
  Incoming, subnet_of, source_ip, source_subnet, lower, to_lower, name_of, raw_name,
  new_request_context,
}

abbrev pub IsLower : Text → Type 0
IsLower = All (λ c. (c < 65) ⊎ (90 < c))

lower-IsLower : (c : ℕ) → (lower c < 65) ⊎ (90 < lower c)
lower-IsLower c = ground arith

to_lower-IsLower : (s : Text) → IsLower (to_lower s)
unfolding to_lower
to_lower-IsLower [] = tt
to_lower-IsLower (c ∷ s) = (lower-IsLower c, to_lower-IsLower s)

name_of-IsLower : (qs : List (Text × ℕ)) → IsLower (name_of qs)
unfolding name_of
name_of-IsLower [] = (inl (omega arith), tt)
name_of-IsLower ((name, qtype) ∷ qs) = to_lower-IsLower name

module _ (parse_ip : Text → Ip) (remote : Text) (m : Incoming) where
  source_ip-subnet :
      (address : Ip) (text : Text)
      → subnet_of m.options ≡ some (address, text)
      → (source_ip parse_ip remote m ≡ address) × (source_subnet m ≡ text)
  unfolding source_ip source_subnet
  source_ip-subnet address text e = (rw (e, source_ip) refl, rw (e, source_subnet) refl)

  source_ip-remote :
      subnet_of m.options ≡ none
      → (source_ip parse_ip remote m ≡ parse_ip remote) × (source_subnet m ≡ [])
  unfolding source_ip source_subnet
  source_ip-remote e = (rw (e, source_ip) refl, rw (e, source_subnet) refl)

-- The name of a context has no upper-case letter; and the source and the subnet agree: both are
-- those of the first subnet option, or the source is the address of the client and there is no
-- subnet.
pub new_request_context_lem :
    (parse_ip : Text → Ip) (remote : Text) (do_bit : Bool) (m : Incoming)
    → IsLower (new_request_context parse_ip remote do_bit m).raw_name
      × (((address : Ip) × (text : Text) × (subnet_of m.options ≡ some (address, text))
            × ((new_request_context parse_ip remote do_bit m).source_ip ≡ address)
            × (source_subnet m ≡ text))
          ⊎ ((subnet_of m.options ≡ none)
              × ((new_request_context parse_ip remote do_bit m).source_ip ≡ parse_ip remote)
              × (source_subnet m ≡ [])))
unfolding new_request_context raw_name
new_request_context_lem parse_ip remote do_bit m = (
  name_of-IsLower m.questions,
  elim (Option-cases (subnet_of m.options)) [
    | inl e ↦ inr (let (ip, sub) = source_ip-remote parse_ip remote m e in (e, ip, sub))
    | inr ((address, text), e) ↦ inl (
        let (ip, sub) = source_ip-subnet parse_ip remote m address text e in
        (address, text, e, ip, sub))
  ],
)
