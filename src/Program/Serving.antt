-- ===== src/Program/Serving.antt =====
-- redins.go: the limiter and the handler together, over the messages of any clients.
use redins.Prelude.{
  ◌==◌, if◌then◌else◌, ℤ, length, Text, text_eq, ℕ, suc, ◌+◌, ◌*◌, ◌≤◌, ◌≡◌, refl, ap, ◌⊎◌, Bool,
  true, false, not, ◌&&◌, Option, none, some, List, [], ◌∷◌, arith,
}
use redins.Cache.{GoCache}
use redins.Limiter.{
  Limiter, Clock, RateLimiter, RateLimiterConfig, can_handle, contains, new_rate_limiter,
}
use redins.Limiter.Trace.{IsHistory, IsDrained, allowed, allowed_budget, cost}
use redins.Backend.{Calm, Backend}
use redins.Reply.{Context, Signing}
use redins.Request.Response.{handle_request-Responds}
use redins.Incoming.{Outgoing, new_request_context, response}
use redins.Request.Aliases.{IsCode}
use redins.Backend.{rcode_not_auth}
use redins.Records.{Ip}
use redins.Zone.{Zone}
use redins.Dnssec.Fitting.{Fits}
use redins.Program.{Packet, Globals, rcode_refused, handle_message, if_allowed, serve}

-- The calls of CanHandle that the messages make.
abbrev pub calls_of : List (Packet × Clock) → List (Text × Clock)
calls_of [] = []
calls_of ((p, clock) ∷ packets) = (p.remote, clock) ∷ calls_of packets

-- How many of the messages of a client are answered by something else than a refusal.
abbrev pub answered : Text → List (Packet × Clock) → List Outgoing → ℕ
answered key ((p, clock) ∷ packets) (out ∷ outs) =
    (if text_eq p.remote key && not (out.rcode == rcode_refused) then 1 else 0)
    + answered key packets outs
answered key _ _ = 0

not_refused :
    (rcode : ℕ) → IsCode rcode ⊎ (rcode ≡ rcode_not_auth) → not (rcode == rcode_refused) ≡ true
not_refused rcode h = ground arith

module _ (c : GoCache Limiter) (b : Backend) (fqdn : Text → Text) (max_ttl : ℤ) (signing : Signing)
    (parse_ip : Text → Ip) (fitting : (zone : Zone) → Fits (signing.keys zone).zsk)
    (calm : Calm b) where
  -- One message is answered, and refused exactly if the limiter does not allow it.
  abbrev Answers :
      RateLimiter c × Bool → Option (Globals c b fqdn max_ttl signing parse_ip × Outgoing) → Type 0
  Answers (l, allow) o =
      (g : Globals c b fqdn max_ttl signing parse_ip) × (out : Outgoing) × (o ≡ some (g, out))
      × (g.limiter ≡ l)
      × (not (out.rcode == rcode_refused) ≡ allow)

  if_allowed-Answers :
      (h : b.State) (context : Context) (o : RateLimiter c × Bool)
      → Answers o (if_allowed c b fqdn max_ttl signing parse_ip h context o)
  if_allowed-Answers h context (l, false) = (_, _, refl, refl, unfold response in refl)
  if_allowed-Answers h context (l, true) =
      let (h', d, rcode, e, code, same) =
        handle_request-Responds b fqdn max_ttl signing fitting calm h context in
      rw e (_, _, refl, refl, unfold response in not_refused rcode code)

  handle_message-Answers :
      (g : Globals c b fqdn max_ttl signing parse_ip) (p : Packet) (clock : Clock)
      → Answers
          (can_handle c g.limiter p.remote clock)
          (handle_message c b fqdn max_ttl signing parse_ip g p clock)
  unfolding handle_message
  handle_message-Answers g p clock =
      if_allowed-Answers g.handler (new_request_context parse_ip p.remote p.do_bit p.message)
        (can_handle c g.limiter p.remote clock)

  -- Every message of a run is answered, and those of a client that are not refused are those that the
  -- limiter allows.
  serve-allowed :
      (g : Globals c b fqdn max_ttl signing parse_ip) (key : Text) (packets : List (Packet × Clock))
      → (g' : Globals c b fqdn max_ttl signing parse_ip) × (outs : List Outgoing) × (serve c b fqdn
            max_ttl signing parse_ip g packets
          ≡ some (g', outs))
        × (length outs ≡ length packets)
        × (answered key packets outs ≡ allowed c g.limiter key (calls_of packets))
  unfolding serve allowed
  serve-allowed g key [] = (g, [], refl, refl, refl)
  serve-allowed g key ((p, clock) ∷ packets) =
      let (g', out, e, l, allow) = handle_message-Answers g p clock in
      let (g'', outs, rest, many, count) = serve-allowed g' key packets in
      (g'', out ∷ outs, rw (e, serve, rest) refl, ap suc many, rw (allow, count, l) refl)

  -- The limiter of redins with the handler behind it, its log aside: every message of a run is
  -- answered, in order, and the messages of a client between `t` and `end` that are not refused,
  -- among those of any clients, cost at most the time that has passed and `burst + 1` calls. No
  -- filter, no loading of a zone and no lookup of a source for the log panics, and the keys that
  -- sign are of the types of their algorithms; a burst drains within a minute, the cache is empty
  -- at first, the client is in no whitelist, and the limiter is enabled.
  pub serve_budget :
      (empty : c.State) (config : RateLimiterConfig) (rate burst : ℕ)
      (g : Globals c b fqdn max_ttl signing parse_ip) (key : Text) (packets : List (Packet × Clock))
      (t end : ℕ)
      → IsDrained config rate burst
      → new_rate_limiter c empty config ≡ some g.limiter
      → ((now : ℕ) → c.get empty now key ≡ none)
      → contains config.white_list key ≡ false
      → IsHistory t end (calls_of packets)
      → (g' : Globals c b fqdn max_ttl signing parse_ip) × (outs : List Outgoing) × (serve c b fqdn
            max_ttl signing parse_ip g packets
          ≡ some (g', outs))
        × (length outs ≡ length packets)
        × (t + answered key packets outs * cost rate ≤ end + cost rate * (burst + 1))
  serve_budget empty config rate burst g key packets t end d made fresh limited history =
      let (g', outs, run, many, count) = serve-allowed g key packets in
      (
        g',
        outs,
        run,
        many,
        rw count (
            allowed_budget c empty config rate burst g.limiter key (calls_of packets) t end d made
              fresh limited history),
      )
