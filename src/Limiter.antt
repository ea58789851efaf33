-- ===== src/Limiter.antt =====
-- handler/limiter.go: the rate limiter, a leaky bucket for each client address.
-- Times and durations are nanoseconds.
pub mod Bucket
pub mod Trace
use redins.Prelude.{
  not, ℕ, Bool, true, false, Option, none, some, List, if◌then◌else◌, Text, text_eq, any, ℤ, pos,
  ltb_ℤ, int_add, int_sub, int_mul, int_div, ◌-ℤ◌, negsuc,
}
use redins.Cache.{GoCache}

pub record RateLimiterConfig : Type 0 where
  pub enable : Bool
  pub burst : ℤ
  pub rate : ℤ
  pub white_list : List Text
  pub black_list : List Text

-- What CanHandle keeps for an address. The lock is taken for the whole update, so that the calls
-- for one address are a sequence of steps.
pub record Limiter : Type 0 where
  pub size : ℤ
  pub last_update : ℕ

abbrev pub millisecond : ℕ
millisecond = 1000000

abbrev pub minute : ℕ
minute = 60000000000

-- A Go map with nil values is used as a set of keys.
unfoldable pub contains : List Text → Text → Bool
contains keys key = any (text_eq key) keys

-- time.Time.Sub saturates at the ends of the 64-bit range.
unfoldable pub saturate : ℤ → ℤ
saturate d =
    if ltb_ℤ (pos 9223372036854775807) d
    then pos 9223372036854775807
    else if ltb_ℤ d (negsuc 9223372036854775807)
    then negsuc 9223372036854775807
    else d

-- The four readings of the clock in one call of CanHandle: at Limiters.Get, at time.Since, at
-- time.Now and at Limiters.Set.
pub record Clock : Type 0 where
  pub lookup : ℕ
  pub since : ℕ
  pub update : ℕ
  pub store : ℕ

-- `l.Size -= time.Since(l.LastUpdate)`, raised to 0.
unfoldable pub drain : Limiter → ℕ → ℤ
unfolding int_sub saturate
drain l since =
    let size = int_sub l.size (saturate (pos since -ℤ pos l.last_update)) in
    if ltb_ℤ size (pos 0) then pos 0 else size

module _ (c : GoCache Limiter) where
  pub record RateLimiter : Type 0 where
    pub limiters : c.State
    pub max_time : ℤ
    pub time_step : ℤ
    pub config : RateLimiterConfig
    pub white_list : List Text
    pub black_list : List Text

  -- The limiter from the quotient `60000/config.Rate`; `none` is the panic at rate 0.
  build : c.State → RateLimiterConfig → Option ℤ → Option RateLimiter
  build empty config none = none
  build empty config (some ms) =
      let time_step = int_mul ms (pos millisecond) in
      some (record {
        limiters = empty;
        max_time = int_mul time_step config.burst;
        time_step = time_step;
        config = config;
        white_list = config.white_list;
        black_list = config.black_list;
      })

  unfoldable pub new_rate_limiter : c.State → RateLimiterConfig → Option RateLimiter
  unfolding build
  new_rate_limiter empty config = build empty config (int_div (pos 60000) config.rate)

  -- The branch of CanHandle where the address has a limiter.
  unfoldable pub refill : RateLimiter → Limiter → Clock → Limiter × Bool
  refill rl l clock =
      let size = drain l clock.since in
      if ltb_ℤ rl.max_time size
      then (record { size = size; last_update = clock.update }, false)
      else (record { size = int_add size rl.time_step; last_update = clock.update }, true)

  unfoldable pub consult : RateLimiter → Option Limiter → Clock → Limiter × Bool
  consult rl (some l) clock = refill rl l clock
  consult rl none clock = (record { size = rl.time_step; last_update = clock.update }, true)

  -- The limiter goes back into the cache for another minute.
  unfoldable pub store_limiter : RateLimiter → Text → Clock → Limiter × Bool → RateLimiter × Bool
  store_limiter rl key clock (l, res) =
      (record rl { limiters = c.set rl.limiters clock.store key l minute }, res)

  unfoldable pub can_handle : RateLimiter → Text → Clock → RateLimiter × Bool
  can_handle rl key clock =
      if not rl.config.enable
      then (rl, true)
      else if contains rl.black_list key
      then (rl, false)
      else if contains rl.white_list key
      then (rl, true)
      else store_limiter rl key clock (consult rl (c.get rl.limiters clock.lookup key) clock)
