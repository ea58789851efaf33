-- ===== src/Tests/Limiting.antt =====
-- The rate limiter (handler/limiter.go) at a rate of 60 calls a minute and a burst of 1.
use redins.Prelude.{
  wrap, int_add, int_sub, int_mul, int_div, pos, Text, codes, text_eq, ℕ, ◌+◌, ◌*◌, ◌≤◌, ◌≡◌, refl,
  true, false, Option, none, some, List, [], ◌∷◌, arith,
}
use redins.Cache.{table_cache}
use redins.Limiter.{
  Limiter, Clock, RateLimiter, RateLimiterConfig, new_rate_limiter, can_handle, consult, refill,
  drain, store_limiter, contains, saturate,
}
use redins.Limiter.Trace.{IsDrained, allowed, allowed_budget, cost}

abbrev pub config : RateLimiterConfig
config = record { enable = true; burst = pos 1; rate = pos 60; white_list = []; black_list = [] }

abbrev pub unlisted : Text → Option (Limiter × ℕ)
unlisted key = none

abbrev pub limiter : RateLimiter (table_cache Limiter)
limiter = record {
  limiters = unlisted;
  max_time = pos 1000000000;
  time_step = pos 1000000000;
  config = config;
  white_list = [];
  black_list = [];
}

pub limiter_made : new_rate_limiter (table_cache Limiter) unlisted config ≡ some limiter
unfolding new_rate_limiter int_div int_mul wrap
limiter_made = refl

-- The panic of a rate of 0, with the limiter switched off.
limiter_panics :
    new_rate_limiter (table_cache Limiter) unlisted (record config { enable = false; rate = pos 0 })
    ≡ none
unfolding new_rate_limiter int_div
limiter_panics = refl

abbrev pub at : ℕ → Clock
at n = record { lookup = n; since = n; update = n; store = n }

abbrev calls : List (Text × Clock)
calls =
    (codes "a", at 1000)
    ∷ (codes "a", at 1001)
    ∷ (codes "b", at 1002)
    ∷ (codes "a", at 1003)
    ∷ (codes "a", at 2000001000)
    ∷ []

calls-allowed : allowed (table_cache Limiter) limiter (codes "a") calls ≡ 3
unfolding allowed can_handle contains consult refill drain saturate store_limiter int_sub int_add
    wrap text_eq
calls-allowed = refl

pub config-IsDrained : IsDrained config 60 1
config-IsDrained = record {
  rate_eq = refl;
  burst_eq = refl;
  rate_pos = omega arith;
  fits = omega arith;
  enabled = refl;
}

allowed_budget_example :
    1000 + allowed (table_cache Limiter) limiter (codes "a") calls * cost 60
    ≤ 2000001000 + cost 60 * (1 + 1)
unfolding contains
allowed_budget_example =
    allowed_budget (table_cache Limiter) unlisted config 60 1 limiter (codes "a") calls 1000
      2000001000 config-IsDrained limiter_made (λ now. refl) refl (omega arith)
