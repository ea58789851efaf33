-- ===== src/Upstream.antt =====
-- handler/upstream.go: the queries to the upstream servers, and their cache.
pub mod Replies
use redins.Prelude.{
  ltb, ◌==◌, if◌then◌else◌, ℤ, int_mul, pos, set, Text, codes, ℕ, ◌-◌, ◌*◌, ◌/◌, ◌%◌, ◌^◌, Option,
  none, some, List, [], ◌∷◌, ◌++◌,
}
use redins.Cache.{GoCache}
use redins.Message.{Rr}
use redins.Backend.{rcode_success, rcode_server_failure}

-- UpstreamConnection; the client is that of github.com/miekg/dns.
pub record UpstreamConnection : Type 0 where
  pub protocol : Text
  pub timeout : ℤ
  pub connection_str : Text

pub record UpstreamConfig : Type 0 where
  pub ip : Text
  pub port : ℤ
  pub protocol : Text
  pub timeout : ℤ

-- The response code and the answers of a dns.Msg.
pub record Msg : Type 0 where
  pub rcode : ℕ
  pub answer : List Rr

abbrev pub second : ℕ
second = 1000000000

abbrev pub default_cache_ttl : ℕ
default_cache_ttl = 600

-- The loop of NewUpstream; `itoa` is strconv.Itoa.
unfoldable pub connections_of : (ℤ → Text) → List UpstreamConfig → List UpstreamConnection
connections_of itoa [] = []
connections_of itoa (config ∷ configs) =
    record {
      protocol = config.protocol;
      timeout = int_mul config.timeout (pos 1000000);
      connection_str = config.ip ++ (codes ":" ++ itoa config.port);
    }
    ∷ connections_of itoa configs

-- The least ttl of the answers, from that of the first one.
unfoldable pub min_ttl : ℕ → List Rr → ℕ
min_ttl least [] = least
min_ttl least (r ∷ rs) = min_ttl (if ltb r.hdr.ttl least then r.hdr.ttl else least) rs

-- How long an answer is cached: go-cache takes its default for the duration 0.
unfoldable pub lifetime : ℕ → ℕ
lifetime ttl = if ttl == 0 then default_cache_ttl * second else ttl * second

unfoldable pub with_ttl : ℕ → List Rr → List Rr
with_ttl ttl [] = []
with_ttl ttl (r ∷ rs) = record r { hdr = record (r.hdr) { ttl = ttl } } ∷ with_ttl ttl rs

-- What the loop of Query comes to: the response, and, if it is cached, the connection that gave it and
-- its least ttl.
pub data Fetched : Type 0 where
  unanswered : Fetched
  passed_on : Msg → Fetched
  fetched : Msg → UpstreamConnection → ℕ → Fetched

abbrev pub answered : UpstreamConnection → Msg → List Rr → Fetched
answered c r [] = passed_on r
answered c r (a ∷ rest) = fetched r c (min_ttl a.hdr.ttl (a ∷ rest))

-- `exchange` is what Client.Exchange returns for the question, `none` for an error.
unfoldable pub fetch : (UpstreamConnection → Option Msg) → List UpstreamConnection → Fetched
unfolding min_ttl
fetch exchange [] = unanswered
fetch exchange (c ∷ cs) = elim (exchange c) [
  | none ↦ fetch exchange cs
  | some r ↦ if r.rcode == rcode_success then answered c r r.answer else passed_on r
]

module _ (cache : GoCache (List Rr)) where
  pub record Upstream : Type 0 where
    pub connections : List UpstreamConnection
    pub cache_state : cache.State

  -- `u.connections[0], c = c, u.connections[0]`, where `c` is the variable of the loop.
  unfoldable pub keep_reply : Upstream → ℕ → Text → Fetched → Upstream × (List Rr × ℕ)
  unfolding lifetime
  keep_reply u now key unanswered = (u, ([], rcode_server_failure))
  keep_reply u now key (passed_on r) = (u, (r.answer, r.rcode))
  keep_reply u now key (fetched r c ttl) = (
    record {
      connections = set u.connections 0 c;
      cache_state = cache.set u.cache_state now key r.answer (lifetime ttl);
    },
    (r.answer, r.rcode),
  )

  abbrev pub from_cache :
      Upstream
      → ℕ
      → Text
      → (UpstreamConnection → Option Msg)
      → Option (List Rr × ℕ)
      → Upstream × (List Rr × ℕ)
  from_cache u now key exchange (some (records, exp)) =
      (u, (with_ttl ((exp - now) / second % 2 ^ 32) records, rcode_success))
  from_cache u now key exchange none = keep_reply u now key (fetch exchange u.connections)

  -- Query at the time `now`; `key` is the name, a colon and the number of the type.
  unfoldable pub query :
      (UpstreamConnection → Option Msg) → Upstream → ℕ → Text → Upstream × (List Rr × ℕ)
  query exchange u now key =
      from_cache u now key exchange (cache.get_with_expiration u.cache_state now key)
