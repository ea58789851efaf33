-- ===== src/Limiter/Trace.antt =====
-- handler/limiter.go: a history of calls of CanHandle, by any clients, and how many it allows.
use redins.Prelude.{
  leb, if◌then◌else◌, Bool-cases, int_mul_pos, int_div_pos, pos, Text, text_eq, text_eq_iff,
  text_eq_refl, ℕ, ◌+◌, ◌*◌, ◌/◌, ◌≤◌, ◌<◌, ◌≡◌, refl, sym, ◌∙◌, ◌≢◌, inl, inr, Bool, true, false,
  ◌&&◌, Option, none, some, List, [], ◌∷◌, arith,
}
use mathlib.Core.Bool.{false≢true}
use redins.Cache.{GoCache}
use redins.Limiter.{
  new_rate_limiter, RateLimiterConfig, millisecond, Bool, Option, List, Text, Limiter, Clock,
  RateLimiter, consult, minute, can_handle, store_limiter, contains,
}
use redins.Limiter.Bucket.{IsOrdered, IsSound, Holds, gone, kept, IsStep, consult-IsStep}

-- Every call comes after the one before it, and the last one ends by `end`.
abbrev pub IsHistory : ℕ → ℕ → List (Text × Clock) → Type 0
IsHistory t end [] = t ≤ end
IsHistory t end ((j, k) ∷ calls) = IsOrdered t k × IsHistory k.store end calls

module _ (c : GoCache Limiter) where
  -- The calls for `key` that the history allows.
  unfoldable pub allowed : RateLimiter c → Text → List (Text × Clock) → ℕ
  allowed rl key [] = 0
  allowed rl key ((j, k) ∷ calls) =
      (if text_eq j key && (can_handle c rl j k).1 then 1 else 0)
      + allowed (can_handle c rl j k).0 key calls

  -- With the limiter enabled a call changes nothing, or takes one step of the caller's bucket.
  data Outcome (rl : RateLimiter c) (j : Text) (k : Clock) : RateLimiter c × Bool → Type 0 where
    listed : (b : Bool) → (b ≡ true → contains rl.white_list j ≡ true) → Outcome rl j k (rl, b)
    stepped :
        Outcome rl j k (store_limiter c rl j k (consult c rl (c.get rl.limiters k.lookup j) k))

  can_handle-Outcome :
      (rl : RateLimiter c) (j : Text) (k : Clock)
      → rl.config.enable ≡ true
      → Outcome rl j k (can_handle c rl j k)
  unfolding can_handle
  can_handle-Outcome rl j k e = rw e (elim (Bool-cases (contains rl.black_list j)) [
    | inl black ↦ rw black (listed false (λ h. cc))
    | inr other ↦ rw other (elim (Bool-cases (contains rl.white_list j)) [
      | inl white ↦ rw white (listed true (λ h. white))
      | inr plain ↦ rw plain stepped
    ])
  ])

  module _ (step max : ℕ) (key : Text) where
    record Tracks (w t : ℕ) (rl : RateLimiter c) : Type 0 where
      sound : IsSound c step max rl
      limited : contains rl.white_list key ≡ false
      within : w ≤ t + max + step
      entry : (now : ℕ) → t ≤ now → Holds c step max w t now (c.get rl.limiters now key)

    Holds-later :
        (w t u now : ℕ) (o : Option Limiter)
        → t ≤ u
        → Holds c step max w t now o
        → Holds c step max w u now o
    Holds-later w t u now o h (gone e) = gone e
    Holds-later w t u now o h (kept n last e b p) = kept n last e b (omega arith)

    -- The entry that a step leaves, while it is kept and after it has expired.
    stored_entry :
        (rl : RateLimiter c) (w : ℕ) (k : Clock) (r : Limiter × Bool)
        → max + step ≤ minute
        → k.update ≤ k.store
        → (s : IsStep c step max w k r) → (now : ℕ) → k.store ≤ now
        → Holds c step max
            (s.level + k.update)
            k.store
            now
            (c.get (c.set rl.limiters k.store key r.0 minute) now key)
    stored_entry rl w k r fits o s now h =
        rw (c.get-set_self rl.limiters key r.0 k.store minute now (omega arith), s.limiter_eq)
          (elim (Bool-cases (leb now (k.store + minute))) [
            | inl live ↦ rw live (kept s.level k.update refl s.bounded o)
            | inr expired ↦ rw expired (gone (by_expiry s.level s.bounded (ground arith)))
          ])
      where
        by_expiry : (n : ℕ) → n ≤ max + step → k.store + minute < now → n + k.update ≤ now
        by_expiry n b q = omega arith

    store-Tracks :
        (rl : RateLimiter c) (j : Text) (k : Clock) (w u : ℕ) (r : Limiter × Bool)
        → IsSound c step max rl
        → contains rl.white_list key ≡ false
        → u ≤ k.store + max + step
        → ((now : ℕ)
            → k.store ≤ now
            → Holds c step max u k.store now
                (c.get (c.set rl.limiters k.store j r.0 minute) now key))
        → Tracks u k.store (store_limiter c rl j k r).0
    unfolding store_limiter
    store-Tracks rl j k w u r sound limited within entry = record {
      sound = record {
        step_eq = sound.step_eq;
        max_eq = sound.max_eq;
        fits = sound.fits;
        enabled = sound.enabled;
      };
      limited = limited;
      within = within;
      entry = entry;
    }

    later-Tracks : (rl : RateLimiter c) (w t u : ℕ) → t ≤ u → Tracks w t rl → Tracks w u rl
    later-Tracks rl w t u q h = record {
      sound = h.sound;
      limited = h.limited;
      within = omega (arith, h.within);
      entry = λ now p. Holds-later w t u now _ q (h.entry now (omega arith));
    }

    -- A call of another client leaves the tracked entry alone.
    other_call :
        (rl : RateLimiter c) (j : Text) (k : Clock) (w t : ℕ) (r : RateLimiter c × Bool)
        → j ≢ key
        → IsOrdered t k
        → Tracks w t rl
        → Outcome rl j k r
        → Tracks w k.store r.0
    other_call rl j k w t r ne o h (listed b e) = later-Tracks rl w t k.store (omega arith) h
    other_call rl j k w t r ne o h stepped =
        store-Tracks rl j k w w _ h.sound h.limited (omega (arith, h.within)) (λ now q.
          rw (c.get-set_ne rl.limiters j key _ k.store minute now ne)
            (Holds-later w t k.store now _ (omega arith) (h.entry now (omega arith))))

    -- A call of the tracked client moves the time at which its bucket is empty by `step` if the
    -- call is allowed.
    own_call :
        (rl : RateLimiter c) (k : Clock) (w t : ℕ) (r : RateLimiter c × Bool)
        → IsOrdered t k
        → Tracks w t rl
        → Outcome rl key k r
        → (u : ℕ) × Tracks u k.store r.0 × (w + (if r.1 then step else 0) ≤ u)
    own_call rl k w t r o h (listed true e) = absurd (false≢true (sym h.limited ∙ e refl))
    own_call rl k w t r o h (listed false e) =
        (w, later-Tracks rl w t k.store (omega arith) h, omega arith)
    own_call rl k w t r o h stepped =
        let s = consult-IsStep c h.sound w t k _ (h.entry k.lookup o.0) o in
        (
          s.level + k.update,
          store-Tracks rl key k w _ _ h.sound h.limited (omega (arith, s.bounded))
              (stored_entry rl w k _ h.sound.fits o.3 s),
          unfold store_limiter in s.filled,
        )

    count_call :
        (b : Bool) (w u n end : ℕ)
        → w + (if b then step else 0) ≤ u
        → u + n * step ≤ end
        → w + ((if b then 1 else 0) + n) * step ≤ end
    count_call true w u n end h k = omega arith
    count_call false w u n end h k = omega arith

    allowed-Tracks :
        (calls : List (Text × Clock)) (rl : RateLimiter c) (w t end : ℕ)
        → Tracks w t rl
        → IsHistory t end calls
        → w + allowed rl key calls * step ≤ end + max + step
    unfolding allowed
    allowed-Tracks [] rl w t end h o = omega (arith, h.within)
    allowed-Tracks ((j, k) ∷ calls) rl w t end h (o, os) = elim (Bool-cases (text_eq j key)) [
      | inl same ↦
          rw ((text_eq_iff j key).0 same, text_eq_refl key)
            (let (u, tracked, moved) =
                own_call rl k w t _ o h (can_handle-Outcome rl key k h.sound.enabled) in
              count_call _ w u _ _ moved (allowed-Tracks calls _ u k.store end tracked os))
      | inr differ ↦ rw differ (
          omega (
            arith,
            allowed-Tracks calls _ w k.store end
                (other_call rl j k w t _ (λ e. false≢true (sym differ ∙ (text_eq_iff j key).1 e)) o
                  h (can_handle-Outcome rl j k h.sound.enabled))
                os,
          ))
    ]

-- The nanoseconds that a call costs at a rate of calls a minute.
abbrev pub cost : ℕ → ℕ
cost rate = 60000 / rate * millisecond

-- A configuration with a positive rate and a burst whose buckets drain within a minute.
pub record IsDrained (config : RateLimiterConfig) (rate burst : ℕ) : Type 0 where
  pub rate_eq : config.rate ≡ pos rate
  pub burst_eq : config.burst ≡ pos burst
  pub rate_pos : 0 < rate
  pub fits : cost rate * burst + cost rate ≤ minute
  pub enabled : config.enable ≡ true

module _ (c : GoCache Limiter) (empty : c.State) (config : RateLimiterConfig) (rate burst : ℕ) where
  abbrev made : RateLimiter c
  made = record {
    limiters = empty;
    max_time = pos (cost rate * burst);
    time_step = pos (cost rate);
    config = config;
    white_list = config.white_list;
    black_list = config.black_list;
  }

  new_rate_limiter-eq-made :
      IsDrained config rate burst → new_rate_limiter c empty config ≡ some made
  unfolding new_rate_limiter
  new_rate_limiter-eq-made d = rw (
    d.rate_eq,
    d.burst_eq,
    int_div_pos 60000 rate (omega arith) d.rate_pos,
    int_mul_pos (60000 / rate) millisecond (omega (arith, d.fits)),
    int_mul_pos (cost rate) burst (omega (arith, d.fits)),
  )

  -- Where a burst drains within a minute and the cache is empty at first, the calls of a client that
  -- are allowed between `t` and `end`, among the calls of any clients, cost at most the time that has
  -- passed and `burst + 1` calls. The client is in no whitelist, and the limiter is enabled.
  pub allowed_budget :
      (rl : RateLimiter c) (key : Text) (calls : List (Text × Clock)) (t end : ℕ)
      → IsDrained config rate burst
      → new_rate_limiter c empty config ≡ some rl
      → ((now : ℕ) → c.get empty now key ≡ none)
      → contains config.white_list key ≡ false
      → IsHistory t end calls
      → t + allowed c rl key calls * cost rate ≤ end + cost rate * (burst + 1)
  allowed_budget rl key calls t end d e fresh limited history =
      let same : made ≡ rl = cc (new_rate_limiter-eq-made d) in
      rw (← same) (
        omega (
          arith,
          allowed-Tracks c (cost rate) (cost rate * burst) key calls made t t end
              (record {
                sound = record {
                  step_eq = refl;
                  max_eq = refl;
                  fits = d.fits;
                  enabled = d.enabled;
                };
                limited = limited;
                within = omega arith;
                entry = λ now h. rw (fresh now) (gone h);
              })
              history,
        ))
