-- ===== src/Tests/Servers.antt =====
-- The upstream servers of handler/upstream.go: the second of two answers.
use redins.Prelude.{
  if◌then◌else◌, pos, All, codes, text_eq, ℕ, ◌+◌, ◌-◌, ◌/◌, ◌%◌, ◌^◌, ◌≤◌, ◌≡◌, refl, ◌≢◌, Option,
  none, some, List, [], ◌∷◌, arith,
}
use redins.Cache.{GoCache, table_cache}
use redins.Message.{Rr}
use redins.Message
use redins.Backend.{rcode_success}
use redins.Upstream.{UpstreamConnection, Msg, second, min_ttl, lifetime, with_ttl, Upstream, query}
use redins.Upstream.Replies.{FirstAnswer, answers, fails, after, query-cached, query-replaces}

abbrev server : ℕ → UpstreamConnection
server n = record { protocol = codes "udp"; timeout = pos 400; connection_str = n ∷ [] }

abbrev a_rr : ℕ → Rr
a_rr ttl = record {
  hdr = record {
    name = codes "w.";
    rrtype = Message.type_a;
    class = Message.class_inet;
    ttl = ttl;
  };
  body = Message.a_body (9 ∷ []);
}

abbrev response : Msg
response = record { rcode = rcode_success; answer = a_rr 30 ∷ a_rr 20 ∷ [] }

-- The server 2 answers.
abbrev exchange : UpstreamConnection → Option Msg
exchange c = if text_eq c.connection_str (2 ∷ []) then some response else none

abbrev none_up : UpstreamConnection → Option Msg
none_up c = none

abbrev cache : GoCache (List Rr)
cache = table_cache (List Rr)

abbrev upstream : Upstream cache
upstream = record { connections = server 1 ∷ server 2 ∷ []; cache_state = λ k. none }

first_answer : FirstAnswer exchange (server 1 ∷ server 2 ∷ []) (server 2) response
unfolding text_eq
first_answer =
    fails (server 1) (server 2) (server 2 ∷ []) response refl (answers (server 2) [] response refl)

later_answer : FirstAnswer exchange (server 2 ∷ []) (server 2) response
unfolding text_eq
later_answer = answers (server 2) [] response refl

abbrev stored : Upstream cache
stored =
    after cache upstream 5 (codes "w.:1") exchange (server 2) response (a_rr 30) (a_rr 20 ∷ []) refl
      first_answer refl refl

within : 7000000005 ≤ 5 + lifetime 20
unfolding lifetime
within = omega arith

abbrev least_ttl : ℕ
least_ttl = 20

query-cached_example :
    (query cache exchange upstream 5 (codes "w.:1") ≡ (stored, (response.answer, response.rcode)))
    × (query cache none_up stored 7000000005 (codes "w.:1") ≡ (
      stored,
      (with_ttl ((5 + lifetime 20 - 7000000005) / second % 2 ^ 32) response.answer, rcode_success),
    ))
    × (least_ttl ≢ 0
        → All (λ x. (5 + lifetime 20 - 7000000005) / second % 2 ^ 32 ≤ x.hdr.ttl) response.answer)
unfolding min_ttl
query-cached_example =
    query-cached cache upstream 5 (codes "w.:1") exchange (server 2) response (a_rr 30)
      (a_rr 20 ∷ []) refl first_answer refl refl none_up 7000000005 (omega arith) within
      (omega arith)

query-replaces_example :
    (query cache exchange upstream 5 (codes "w.:1")).0.connections ≡ server 2 ∷ server 2 ∷ []
unfolding text_eq
query-replaces_example =
    query-replaces cache upstream 5 (codes "w.:1") exchange (server 1) (server 2) (server 2 ∷ [])
      response (a_rr 30) (a_rr 20 ∷ []) refl refl refl later_answer refl refl
