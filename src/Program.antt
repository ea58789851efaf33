-- ===== src/Program.antt =====
-- redins.go: a message that comes in (handleRequest), through the limiter to the handler.
pub mod Serving
pub mod Running
pub mod Verify
use redins.Prelude.{ℤ, Text, ℕ, Bool, true, false, Option, none, some, List, [], ◌∷◌}
use redins.Cache.{GoCache}
use redins.Limiter.{Limiter, Clock, RateLimiter, can_handle}
use redins.Backend.{Backend}
use redins.Reply.{Context, Signing}
use redins.Request.{handle_request}
use redins.Incoming.{Incoming, Outgoing, new_request_context, response}
use redins.Records.{Ip}

abbrev pub rcode_refused : ℕ
rcode_refused = 5

-- A message with the address of its client, and whether its OPT record has the bit DO.
pub record Packet : Type 0 where
  pub remote : Text
  pub do_bit : Bool
  pub message : Incoming

-- `parse_ip` is net.ParseIP.
module _ (c : GoCache Limiter) (b : Backend) (fqdn : Text → Text) (max_ttl : ℤ) (signing : Signing)
    (parse_ip : Text → Ip) where
  -- The variables `l` and `h`.
  pub record Globals : Type 0 where
    pub limiter : RateLimiter c
    pub handler : b.State

  -- HandleRequest ends by Response, which writes the context.
  abbrev pub respond : RateLimiter c → Option (b.State × Context × ℕ) → Option (Globals × Outgoing)
  respond l none = none
  respond l (some (h, context, rcode)) =
      some (record { limiter = l; handler = h }, response context rcode)

  abbrev pub if_allowed : b.State → Context → RateLimiter c × Bool → Option (Globals × Outgoing)
  if_allowed h context (l, true) = respond l (handle_request b fqdn max_ttl signing h context)
  if_allowed h context (l, false) =
      some (record { limiter = l; handler = h }, response context rcode_refused)

  -- The variables after a message, and what is written to its client; `none` is a panic.
  unfoldable pub handle_message : Globals → Packet → Clock → Option (Globals × Outgoing)
  handle_message g p clock =
      if_allowed g.handler (new_request_context parse_ip p.remote p.do_bit p.message)
        (can_handle c g.limiter p.remote clock)

  -- Messages one after the other.
  abbrev pub answer_with :
      Outgoing → Option (Globals × List Outgoing) → Option (Globals × List Outgoing)
  answer_with out none = none
  answer_with out (some (g, outs)) = some (g, out ∷ outs)

  unfoldable pub serve : Globals → List (Packet × Clock) → Option (Globals × List Outgoing)
  serve g [] = some (g, [])
  serve g ((p, clock) ∷ packets) = elim (handle_message g p clock) [
    | none ↦ none
    | some (g', out) ↦ answer_with out (serve g' packets)
  ]
