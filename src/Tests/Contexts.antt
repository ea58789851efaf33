-- ===== src/Tests/Contexts.antt =====
-- The contexts of handler/request.go.
use redins.Prelude.{Text, codes, ◌≡◌, refl, false, some, [], ◌∷◌}
use redins.Records.{Ip}
use redins.Incoming.{
  subnet, other_option, Incoming, to_lower, name_of, raw_name, new_request_context,
}

abbrev parse_ip : Text → Ip
parse_ip s = s

abbrev remote : Text
remote = codes "r"

abbrev message : Incoming
message = record {
  questions = (codes "wWw.E.", 1) ∷ [];
  options = some (other_option ∷ subnet (9 ∷ []) (codes "9/8") ∷ []);
}

name_run : (new_request_context parse_ip remote false message).raw_name ≡ codes "www.e."
unfolding new_request_context raw_name name_of to_lower
name_run = refl
