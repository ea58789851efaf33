-- ===== src/Limiter/Bucket.antt =====
-- handler/limiter.go: one call of CanHandle as a step of a leaky bucket.
use redins.Prelude.{
  Bool-cases, int_add_pos, ℕ, ◌+◌, ◌-◌, ◌≤◌, ◌<◌, ◌≡◌, refl, Bool, true, false, Option, none, some,
  arith, if◌then◌else◌, pos, wrap, ltb, inl, inr,
}
use redins.Cache.{GoCache}
use redins.Limiter.{Limiter, Clock, RateLimiter, drain, refill, consult, minute}

drain_lem :
    (n last since : ℕ)
    → last ≤ since
    → since < 9223372036854775808
    → n < 9223372036854775808
    → drain (record { size = pos n; last_update = last }) since ≡ pos (n - (since - last))
unfolding drain wrap
drain_lem n last since h k m = ground arith

abbrev pub IsOrdered : ℕ → Clock → Type 0
IsOrdered t k =
    (t ≤ k.lookup)
    × (k.lookup ≤ k.since)
    × (k.since ≤ k.update)
    × (k.update ≤ k.store)
    × (k.store < 9223372036854775808)

module _ (c : GoCache Limiter) where
  -- A limiter whose buckets are empty again after at most a minute.
  pub record IsSound (step max : ℕ) (rl : RateLimiter c) : Type 0 where
    pub step_eq : rl.time_step ≡ pos step
    pub max_eq : rl.max_time ≡ pos max
    pub fits : max + step ≤ minute
    pub enabled : rl.config.enable ≡ true

  -- What an entry says of a bucket that is empty at the time `w`, when it is read at `now` and the
  -- last write was at `t` or before.
  pub data Holds (step max w t now : ℕ) : Option Limiter → Type 0 where
    gone : w ≤ now → Holds step max w t now none
    kept :
        (n last : ℕ)
        → n + last ≡ w
        → n ≤ max + step
        → last ≤ t
        → Holds step max w t now (some (record { size = pos n; last_update = last }))

  -- The step of a bucket: where the call is allowed it is filled by `step`.
  pub record IsStep (step max w : ℕ) (k : Clock) (r : Limiter × Bool) : Type 0 where
    pub level : ℕ
    pub limiter_eq : r.0 ≡ record { size = pos level; last_update = k.update }
    pub bounded : level ≤ max + step
    pub filled : w + (if r.1 then step else 0) ≤ level + k.update

  module _ {step max : ℕ} {rl : RateLimiter c} (sound : IsSound step max rl) where
    refill_lem :
        (n last : ℕ) (k : Clock)
        → n ≤ max + step
        → last ≤ k.since
        → k.since < 9223372036854775808
        → refill c rl (record { size = pos n; last_update = last }) k ≡ (
            if ltb max (n - (k.since - last))
            then (record { size = pos (n - (k.since - last)); last_update = k.update }, false)
            else (
              record { size = pos (n - (k.since - last) + step); last_update = k.update },
              true,
            ))
    unfolding refill
    refill_lem n last k b p q =
        rw (drain_lem n last k.since p q (fits_word n b), sound.step_eq, sound.max_eq)
          (ground (arith, int_add_pos (n - (k.since - last)) step))
      where
        fits_word : (m : ℕ) → m ≤ max + step → m < 9223372036854775808
        fits_word m h = omega (arith, sound.fits)

    refill-IsStep :
        (n last w t : ℕ) (k : Clock)
        → n + last ≡ w
        → n ≤ max + step
        → last ≤ t
        → IsOrdered t k
        → IsStep step max w k (refill c rl (record { size = pos n; last_update = last }) k)
    refill-IsStep n last w t k e b p o =
        rw (refill_lem n last k b (omega arith) (omega arith))
          (elim (Bool-cases (ltb max (n - (k.since - last)))) [
            | inl full ↦ rw full (record {
              level = n - (k.since - last);
              limiter_eq = refl;
              bounded = omega arith;
              filled = omega arith;
            })
            | inr room ↦ rw room (record {
              level = n - (k.since - last) + step;
              limiter_eq = refl;
              bounded = ground arith;
              filled = omega arith;
            })
          ])

    pub consult-IsStep :
        (w t : ℕ) (k : Clock) (o : Option Limiter)
        → Holds step max w t k.lookup o
        → IsOrdered t k
        → IsStep step max w k (consult c rl o k)
    unfolding consult
    consult-IsStep w t k o (gone h) q = record {
      level = step;
      limiter_eq = rw sound.step_eq;
      bounded = omega arith;
      filled = omega arith;
    }
    consult-IsStep w t k o (kept n last e b p) q = refill-IsStep n last w t k e b p q
