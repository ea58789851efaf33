-- ===== src/Cache.antt =====
-- The in-process cache of github.com/patrickmn/go-cache, which handler/limiter.go,
-- handler/healthcheck.go and handler/upstream.go call. Its code is not part of the repository, so
-- it is an interface: the operations that are called, with the documented behaviour as laws.
use redins.Prelude.{
  ℕ, ◌+◌, ◌<◌, ◌≡◌, ◌≢◌, Option, none, some, arith, leb, if◌then◌else◌, Text, text_eq, text_eq_iff,
  text_eq_refl,
}

-- Times are nanoseconds of one clock. `set s now k v ttl` stores `v` at the time `now`, and an
-- entry is found up to and including `now + ttl`.
pub record GoCache (V : Type 0) : Type 1 where
  pub State : Type 0
  pub get : State → ℕ → Text → Option V
  pub get_with_expiration : State → ℕ → Text → Option (V × ℕ)
  pub set : State → ℕ → Text → V → ℕ → State
  pub get-set_self :
      (s : State) (k : Text) (v : V) (t d now : ℕ)
      → 0 < d
      → get (set s t k v d) now k ≡ (if leb now (t + d) then some v else none)
  pub get-set_ne :
      (s : State) (k j : Text) (v : V) (t d now : ℕ)
      → k ≢ j
      → get (set s t k v d) now j ≡ get s now j
  pub get_with_expiration-set_self :
      (s : State) (k : Text) (v : V) (t d now : ℕ)
      → 0 < d
      → get_with_expiration (set s t k v d) now k
        ≡ (if leb now (t + d) then some (v, t + d) else none)

abbrev expiring_at : {V : Type 0} → Option (V × ℕ) → ℕ → Option (V × ℕ)
expiring_at none now = none
expiring_at (some (v, end)) now = if leb now end then some (v, end) else none

-- A cache as a function of the key: an instance of the interface.
abbrev entry_at : {V : Type 0} → Option (V × ℕ) → ℕ → Option V
entry_at none now = none
entry_at (some (v, end)) now = if leb now end then some v else none

pub entry_at-other :
    {V : Type 0} (s : Text → Option (V × ℕ)) (k j : Text) (v : V) (t d now : ℕ)
    → k ≢ j
    → entry_at (if text_eq k j then some (v, t + d) else s j) now ≡ entry_at (s j) now
entry_at-other s k j v t d now h = ground (arith, text_eq_iff k j)

abbrev pub table_cache : (V : Type 0) → GoCache V
table_cache V = record {
  State = Text → Option (V × ℕ);
  get = λ s now k. entry_at (s k) now;
  get_with_expiration = λ s now k. expiring_at (s k) now;
  set = λ s now k v ttl j. if text_eq k j then some (v, now + ttl) else s j;
  get-set_self = λ s k v t d now h. rw (text_eq_refl k);
  get_with_expiration-set_self = λ s k v t d now h. rw (text_eq_refl k);
  get-set_ne = λ s k j v t d now h. entry_at-other s k j v t d now h;
}
