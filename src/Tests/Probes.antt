-- ===== src/Tests/Probes.antt =====
-- The checks of handler/healthcheck.go and the transfer of the items, on a store that is a function.
use redins.Prelude.{
  ◌==◌, if◌then◌else◌, ℤ, wrap, wrap-InWord, int_add, int_neg, pos, negsuc, length, take, drop,
  Text, codes, text_eq, text_eq_iff, text_eq_refl, trim_right, ℕ, zero, suc, ◌≡◌, refl, ◌≢◌, Bool,
  true, false, Option, none, some, [], ◌∷◌, ◌++◌, arith,
}
use redins.Records.{IpRr, IpRrset}
use redins.Healthcheck.{Item, new_item, configured, status_up, next_up}
use redins.Healthcheck.Store.{StatusServer, status_prefix, key_of, IsStorable, RoundTrips}
use redins.Healthcheck.{load_item}
use redins.Healthcheck.Transfer.{
  ConfigServer, Codec, host_of, get_domain_id, transfer, transfer_pass, default_health_check,
}
use redins.Healthcheck.Transfer.Items.{items_of_zones}
use redins.Healthcheck.Transfer.Resets.{DecodesInts, transfer_pass_resets}
use redins.Healthcheck.Transfer.Pass.{transfer_pass_lem, Agrees}
use redins.Healthcheck.Transfer.Ending.{transfer_quits}
use redins.Healthcheck.Probe.{
  Network, checked, run_check, http_check, check_status, handle_health_check, queue_items,
  log_healthcheck, ping_check, CheckError,
}
use redins.Healthcheck.Probe.Due.{handle_health_check-due}

get-set_ne_table :
    (s : Text → Option Text) (k j v : Text) → k ≢ j → (if text_eq k j then some v else s j) ≡ s j
get-set_ne_table s k j v h = ground (arith, text_eq_iff k j)

abbrev status_table : StatusServer
status_table = record {
  State = Text → Option Text;
  get = λ s k. s k;
  set = λ s k v j. if text_eq k j then some v else s j;
  expire = λ s k ttl. s;
  get_keys = λ s pattern. none;
  get-set_self = λ s k v. rw (text_eq_refl k);
  get-set_ne = λ s k j v h. get-set_ne_table s k j v h;
  get-expire = λ s k j ttl h. refl;
}

-- An encoding of the fields that the tests change: the numbers, the flag, then the texts.
abbrev put_int : ℤ → Text → Text
put_int (pos n) t = 0 ∷ n ∷ t
put_int (negsuc n) t = 1 ∷ n ∷ t

abbrev put_text : Text → Text → Text
put_text s t = length s ∷ (s ++ t)

abbrev get_int : Text → ℤ
get_int (zero ∷ n ∷ t) = pos n
get_int (suc _ ∷ n ∷ t) = negsuc n
get_int _ = pos 0

abbrev get_text : Text → Text
get_text [] = []
get_text (n ∷ t) = take n t

abbrev after_text : Text → Text
after_text [] = []
after_text (n ∷ t) = drop n t

abbrev encode : Item → Option Text
encode item = some (
    put_int item.port (
      put_int item.status (
        put_int item.timeout (
          put_int item.up_count (
            put_int item.down_count (
              item.last_check
              ∷ ((if item.enable then 1 else 0)
                  ∷ put_text item.protocol (put_text item.uri (put_text item.domain_id [])))))))))

abbrev decode : Text → Item → Item
decode str item = record item {
  port = get_int str;
  status = get_int (drop 2 str);
  timeout = get_int (drop 4 str);
  up_count = get_int (drop 6 str);
  down_count = wrap (get_int (drop 8 str));
  last_check = elim (drop 10 str) [ [] ↦ 0 | n ∷ t ↦ n ];
  enable = elim (drop 11 str) [ [] ↦ false | n ∷ t ↦ n == 1 ];
  protocol = get_text (drop 12 str);
  uri = get_text (after_text (drop 12 str));
  domain_id = get_text (after_text (after_text (drop 12 str)));
}

abbrev address : ℕ → IpRr
address n = record { weight = pos 1; ip = n ∷ []; country = []; asn = [] }

abbrev checked_rrset : IpRrset
checked_rrset = record {
  filter_config = record { count = []; order = []; geo_filter = [] };
  health_check_config = record default_health_check { enable = true };
  ttl = 300;
  items = address 7 ∷ address 8 ∷ [];
}

abbrev config : ConfigServer
config = record {
  s_members = λ k. some (codes "example.com." ∷ []);
  get_h_keys = λ k. some (codes "@" ∷ codes "www" ∷ []);
  h_get = λ k f. some f;
  get = λ k. none;
}

abbrev codec : Codec
codec = record {
  decode_record =
      λ str a aaaa. if text_eq str (codes "www") then some (checked_rrset, aaaa) else none;
  decode_id = λ str. str;
  encode = encode;
  decode = decode;
  ip_text = λ ip. ip;
}

abbrev nothing : Text → Option Text
nothing k = none

abbrev never : ℕ → Bool
never n = false

abbrev www_item : ℕ → Item
www_item n = record new_item {
  ip = n ∷ [];
  port = pos 80;
  host = codes "www.example.com.";
  enable = true;
  down_count = negsuc 2;
  up_count = pos 3;
  timeout = pos 1000;
  uri = codes "/";
  protocol = codes "http";
}

www_items : items_of_zones config codec ≡ (www_item 7 ∷ []) ++ www_item 8 ∷ []
unfolding configured host_of get_domain_id text_eq
www_items = refl

www_item-IsStorable : IsStorable encode decode (www_item 8)
unfolding wrap
www_item-IsStorable = record {
  plain = omega arith;
  round_trip = (_, refl, refl);
  down = omega arith;
}

transfer_pass_lem_example :
    Agrees status_table config codec 600
      (transfer_pass status_table config codec 600 never 0 nothing).0
      (www_item 8)
transfer_pass_lem_example =
    transfer_pass_lem status_table config codec 600 (omega arith) never 0 nothing (λ k. refl)
      (www_item 8) (www_item 7 ∷ []) [] www_items www_item-IsStorable tt

-- The same records with a positive down count.
abbrev positive_codec : Codec
positive_codec = record codec {
  decode_record = λ str a aaaa.
      if text_eq str (codes "www")
      then some (
        record checked_rrset {
          health_check_config = record default_health_check { enable = true; down_count = pos 3 };
        },
        aaaa,
      )
      else none;
}

abbrev positive_item : ℕ → Item
positive_item n = record (www_item n) { down_count = pos 3 }

positive_items :
    items_of_zones config positive_codec ≡ (positive_item 7 ∷ []) ++ positive_item 8 ∷ []
unfolding configured host_of get_domain_id text_eq
positive_items = refl

decodes_ints : DecodesInts status_table config positive_codec 600
decodes_ints str item = wrap-InWord (get_int (drop 8 str))

positive_item-RoundTrips : RoundTrips encode decode (positive_item 8)
unfolding wrap
positive_item-RoundTrips = (_, refl, refl)

transfer_pass_resets_example :
    load_item
      (status_table.get (transfer_pass status_table config positive_codec 600 never 0 nothing).0)
      decode
      (key_of (positive_item 8))
    ≡ some (record (positive_item 8) { status = pos 0; down_count = int_neg (pos 3) })
transfer_pass_resets_example =
    transfer_pass_resets status_table config positive_codec 600 decodes_ints (omega arith) never 0
      nothing (λ k. refl) (positive_item 8) (positive_item 7 ∷ []) [] positive_items (omega arith)
      (omega arith) positive_item-RoundTrips tt

transfer_quits_example :
    transfer status_table config codec 600 (λ n. true) 3 0 nothing ≡ (nothing, none)
transfer_quits_example = transfer_quits status_table config codec 600 (λ n. true) 0 nothing refl 2

-- Without a location Transfer goes on.
abbrev bare : ConfigServer
bare = record config { get_h_keys = λ k. none }

transfer_goes_on : transfer status_table bare codec 600 (λ n. true) 3 0 nothing ≡ (nothing, some 0)
transfer_goes_on = transfer_quits status_table bare codec 600 (λ n. true) 0 nothing refl 2

abbrev net : Network
net = record {
  valid_url = λ url. true;
  head = λ request. some (if text_eq request.host (codes "www.example.com") then 301 else 404);
  listen_packet = true;
  marshal_echo = λ id. some (id ∷ []);
  write_to = λ wb ip. true;
  read_from = some [];
  parse_reply = λ rb. some true;
  parse_ip = λ ip. ip;
}

www_checked : run_check net (www_item 8) ≡ some none
unfolding run_check http_check check_status text_eq trim_right
www_checked = refl

checked-IsStorable : IsStorable encode decode (checked 1000 (www_item 8) none)
unfolding checked status_up next_up int_add wrap
checked-IsStorable = record {
  plain = omega arith;
  round_trip = (_, refl, refl);
  down = omega arith;
}

handle_health_check-due_example :
    (after : Text → Option Text) × (handle_health_check status_table encode decode 600 net nothing
        1000
        (www_item 8)
      ≡ some (after, log_healthcheck (checked 1000 (www_item 8) none) none))
    × (queue_items status_table encode decode 600 1601 after
          ((status_prefix ++ key_of (www_item 8)) ∷ [])
        ≡ checked 1000 (www_item 8) none ∷ [])
handle_health_check-due_example =
    handle_health_check-due status_table encode decode 600 net nothing 1000 1601 (www_item 8) none
      www_checked checked-IsStorable (omega arith)

-- The check by ping panics at an address that does not parse.
ping_panics : ping_check (record net { parse_ip = λ ip. [] }) (codes "localhost") ≡ none
unfolding ping_check
ping_panics = refl

unknown_protocol :
    run_check net (record (www_item 8) { protocol = codes "tcp" })
    ≡ some (some (CheckError.invalid_protocol (codes "tcp") (8 ∷ []) (pos 80)))
unfolding run_check text_eq
unknown_protocol = refl
