-- ===== src/Upstream/Replies.antt =====
-- handler/upstream.go: which server answers, and what the cache answers.
use redins.Prelude.{
  ltb, leb, ◌==◌, if◌then◌else◌, ==_iff, Bool-cases, set, All, Text, ℕ, ◌+◌, ◌-◌, ◌*◌, ◌/◌, ◌%◌,
  ◌^◌, ◌≤◌, ◌<◌, ◌≡◌, refl, ap, ◌∙◌, ◌≢◌, inl, inr, Bool, true, false, Option, none, some, List, [],
  ◌∷◌, arith,
}
use redins.Cache.{GoCache}
use redins.Message.{Rr}
use redins.Backend.{rcode_success, rcode_server_failure}
use redins.Upstream.{
  UpstreamConnection, Msg, second, min_ttl, lifetime, with_ttl, unanswered, passed_on, answered,
  fetch, Upstream, keep_reply, from_cache, query,
}

min_ttl-le :
    (least : ℕ) (rs : List Rr)
    → (min_ttl least rs ≤ least) × All (λ r. min_ttl least rs ≤ r.hdr.ttl) rs
unfolding min_ttl
min_ttl-le least [] = (omega arith, tt)
min_ttl-le least (r ∷ rs) =
    let (below, each) = min_ttl-le (if ltb r.hdr.ttl least then r.hdr.ttl else least) rs in
    (ground (arith, below), (ground (arith, below), each))

-- The servers before the one that answers, with the one that answers and those behind it.
pub data FirstAnswer (exchange : UpstreamConnection → Option Msg)
    : List UpstreamConnection → UpstreamConnection → Msg → Type 0 where
  answers :
      (c : UpstreamConnection) (cs : List UpstreamConnection) (r : Msg)
      → exchange c ≡ some r
      → FirstAnswer exchange (c ∷ cs) c r
  fails :
      (d c : UpstreamConnection) (cs : List UpstreamConnection) (r : Msg)
      → exchange d ≡ none
      → FirstAnswer exchange cs c r
      → FirstAnswer exchange (d ∷ cs) c r

module _ (exchange : UpstreamConnection → Option Msg) where
  fetch-FirstAnswer :
      (cs : List UpstreamConnection) (c : UpstreamConnection) (r : Msg)
      → FirstAnswer exchange cs c r
      → fetch exchange cs
        ≡ (if r.rcode == rcode_success then answered c r r.answer else passed_on r)
  unfolding fetch
  fetch-FirstAnswer _ _ _ (answers c cs r e) = rw (e, fetch) refl
  fetch-FirstAnswer _ _ _ (fails d c cs r e f) = rw (e, fetch) (fetch-FirstAnswer cs c r f)

  fetch-unanswered :
      (cs : List UpstreamConnection)
      → All (λ c. exchange c ≡ none) cs
      → fetch exchange cs ≡ unanswered
  unfolding fetch
  fetch-unanswered [] h = refl
  fetch-unanswered (c ∷ cs) (e, h) = rw (e, fetch) (fetch-unanswered cs h)

module _ (cache : GoCache (List Rr)) (u : Upstream cache) (now : ℕ) (key : Text) where
  abbrev Missing : Type 0
  Missing = cache.get_with_expiration u.cache_state now key ≡ none

  -- A query that is not cached is answered with the response of the first server that gives one,
  -- whatever its code is, and with a server failure where none does.
  pub query_lem :
      (exchange : UpstreamConnection → Option Msg)
      → Missing
      → ((c : UpstreamConnection) (r : Msg)
          → FirstAnswer exchange u.connections c r
          → (query cache exchange u now key).1 ≡ (r.answer, r.rcode))
        × (All (λ c. exchange c ≡ none) u.connections
            → query cache exchange u now key ≡ (u, ([], rcode_server_failure)))
  unfolding query keep_reply
  query_lem exchange missing =
      rw (missing, query)
        (
          λ c r f.
              rw (fetch-FirstAnswer exchange u.connections c r f)
                (replied c r r.answer refl (r.rcode == rcode_success)),
          λ h. rw (fetch-unanswered exchange u.connections h) refl,
        )
    where
      replied :
          (c : UpstreamConnection) (r : Msg) (rrs : List Rr)
          → r.answer ≡ rrs
          → (t : Bool)
          → (keep_reply cache u now key (if t then answered c r rrs else passed_on r)).1
            ≡ (r.answer, r.rcode)
      replied c r rrs e false = refl
      replied c r [] e true = refl
      replied c r (a ∷ rest) e true = refl

  module _ (exchange : UpstreamConnection → Option Msg) (c : UpstreamConnection) (r : Msg) (a : Rr)
      (rest : List Rr) (missing : Missing) (first : FirstAnswer exchange u.connections c r)
      (success : r.rcode ≡ rcode_success) (some_answer : r.answer ≡ a ∷ rest) where
    -- The least ttl of the answer, and the state after it is cached.
    abbrev least : ℕ
    least = min_ttl a.hdr.ttl (a ∷ rest)

    abbrev pub after : Upstream cache
    after = record {
      connections = set u.connections 0 c;
      cache_state = cache.set u.cache_state now key r.answer (lifetime least);
    }

    query-fetched : query cache exchange u now key ≡ (after, (r.answer, r.rcode))
    unfolding query keep_reply
    query-fetched =
        rw (missing, query)
          (rw (fetch-FirstAnswer exchange u.connections c r first, success, some_answer) refl)

    lifetime-pos : (ttl : ℕ) → 0 < lifetime ttl
    unfolding lifetime
    lifetime-pos ttl = ground arith

    least-remaining :
        (end at : ℕ)
        → end ≡ now + lifetime least
        → now ≤ at
        → least ≢ 0
        → (end - at) / second ≤ least
    unfolding lifetime
    least-remaining end at e h k = elim (Bool-cases (least == 0)) [
      | inl zero_ttl ↦ absurd (k ((==_iff least 0).0 zero_ttl))
      | inr some_ttl ↦ let f : end ≡ now + least * second = rw some_ttl at e in omega (arith, f, h)
    ]

    -- A query that a server answers without an error is cached: until the least ttl of its records has
    -- passed, or 600 seconds for a ttl of 0, the same query is answered by the cache, whatever the
    -- servers do, with the seconds that are left as the ttl of each record. That is at most the ttl
    -- that the record had, unless the least ttl was 0.
    pub query-cached :
        (other : UpstreamConnection → Option Msg) (at : ℕ)
        → now ≤ at
        → at ≤ now + lifetime least
        → least < 2 ^ 32
        → (query cache exchange u now key ≡ (after, (r.answer, r.rcode)))
          × (query cache other after at key ≡ (
            after,
            (with_ttl ((now + lifetime least - at) / second % 2 ^ 32) r.answer, rcode_success),
          ))
          × (least ≢ 0
              → All (λ x. (now + lifetime least - at) / second % 2 ^ 32 ≤ x.hdr.ttl) r.answer)
    unfolding query
    query-cached other at later within word = (
      query-fetched,
      rw
          (
            cache.get_with_expiration-set_self u.cache_state key r.answer now (lifetime least) at
                (lifetime-pos least),
            leb-true,
            from_cache,
          )
          refl,
      λ k. at_most k r.answer (rw some_answer (min_ttl-le a.hdr.ttl (a ∷ rest)).1),
    )
      where
        leb-true : leb at (now + lifetime least) ≡ true
        leb-true = ground arith

        at_most :
            least ≢ 0
            → (rs : List Rr) → All (λ x. least ≤ x.hdr.ttl) rs
            → All (λ x. (now + lifetime least - at) / second % 2 ^ 32 ≤ x.hdr.ttl) rs
        at_most k [] h = tt
        at_most k (x ∷ rs) (l, h) = (
          omega (arith, l, word, least-remaining (now + lifetime least) at refl later k),
          at_most k rs h,
        )

-- Where the first server fails and a later one answers without an error, with some record, Query puts
-- the one that answers in the place of the first: the first server is not in the list any more, unless
-- it stands behind as well, and is not asked again.
pub query-replaces :
    (cache : GoCache (List Rr)) (u : Upstream cache) (now : ℕ) (key : Text)
    (exchange : UpstreamConnection → Option Msg) (d c : UpstreamConnection)
    (cs : List UpstreamConnection) (r : Msg) (a : Rr) (rest : List Rr)
    → cache.get_with_expiration u.cache_state now key ≡ none
    → u.connections ≡ d ∷ cs
    → exchange d ≡ none
    → FirstAnswer exchange cs c r
    → r.rcode ≡ rcode_success
    → r.answer ≡ a ∷ rest
    → (query cache exchange u now key).0.connections ≡ c ∷ cs
query-replaces cache u now key exchange d c cs r a rest missing servers failed first success
      some_answer =
    ap (λ (q : Upstream cache × (List Rr × ℕ)). q.0.connections)
      (query-fetched cache u now key exchange c r a rest missing
        (rw servers (fails d c cs r failed first)) success some_answer)
    ∙ ap (λ (l : List UpstreamConnection). set l 0 c) servers
