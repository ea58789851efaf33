-- ===== src/Healthcheck/Status.antt =====
-- handler/healthcheck.go: the counter of a checked address (statusUp, statusDown).
use redins.Prelude.{
  ℤ, ◌-ℤ◌, ◌≤ℤ◌, word_half, wrap, wrap_self, int_add_pos, int_sub, pos, negsuc, ℕ, min, zero, suc,
  ◌+◌, ◌≤◌, ◌<◌, ◌≡◌, refl, sym, ap, ◌∙◌, subst, Bool, true, false, List, [], ◌∷◌, arith,
}
use redins.Healthcheck.{Item, next_up, next_down, status_up, status_down}

-- A run of checks, each of which succeeds (`true`) or fails, the first one at the head.
unfoldable pub check : Bool → Item → Item
check true item = status_up item
check false item = status_down item

unfoldable pub checks : List Bool → Item → Item
checks [] item = item
checks (result ∷ results) item = checks results (check result item)

next_up-nonneg :
    (u n : ℕ) → n ≤ u → u + 1 < word_half → next_up (pos u) (pos n) ≡ pos (min (n + 1) u)
unfolding next_up
next_up-nonneg u n h k = rw (int_add_pos n 1 (omega arith)) (ground arith)

next_up-neg : (u n : ℕ) → next_up (pos u) (negsuc n) ≡ pos 1
unfolding next_up
next_up-neg u n = ground arith

lower : (n : ℕ) → n + 1 < word_half → int_sub (negsuc n) (pos 1) ≡ negsuc (n + 1)
unfolding int_sub
lower n h =
    let e : negsuc n -ℤ pos 1 ≡ negsuc (n + 1) = ground arith in
    rw e (wrap_self (negsuc (n + 1)) (omega arith))

next_down-neg :
    (d n : ℕ) → n ≤ d → d + 1 < word_half → next_down (negsuc d) (negsuc n) ≡ negsuc (min (n + 1) d)
unfolding next_down
next_down-neg d n h k = rw (lower n (omega arith)) (ground arith)

next_down-zero : (d : ℕ) → d + 1 < word_half → next_down (negsuc d) (pos 0) ≡ negsuc 0
unfolding next_down int_sub wrap
next_down-zero d k = ground arith

next_down-pos : (d n : ℕ) → next_down (negsuc d) (pos (suc n)) ≡ negsuc 0
unfolding next_down
next_down-pos d n = ground arith

-- The counts of a configuration: positive for successes, negative for failures, and not at the end
-- of the range of an int.
pub record IsCounted (u d : ℕ) (item : Item) : Type 0 where
  pub up_eq : item.up_count ≡ pos (u + 1)
  pub down_eq : item.down_count ≡ negsuc d
  pub up_word : u + 2 < word_half
  pub down_word : d + 1 < word_half

-- A status between the two counts.
abbrev pub InCounts : ℕ → ℕ → ℤ → Type 0
InCounts u d z = (negsuc d ≤ℤ z) × (z ≤ℤ pos (u + 1))

-- The status as a function of the results, with no word arithmetic: the length of the last run of
-- successes, or of failures counted down, starting from `z` and cut off at the counts.
abbrev pub after : ℕ → ℕ → Bool → ℤ → ℤ
after u d true (pos n) = pos (min (n + 1) (u + 1))
after u d true (negsuc n) = pos 1
after u d false (pos n) = negsuc 0
after u d false (negsuc n) = negsuc (min (n + 1) d)

abbrev pub run : ℕ → ℕ → List Bool → ℤ → ℤ
run u d [] z = z
run u d (result ∷ results) z = run u d results (after u d result z)

after-InCounts :
    (u d : ℕ) (result : Bool) (z : ℤ) → InCounts u d z → InCounts u d (after u d result z)
after-InCounts u d true (pos n) h = omega arith
after-InCounts u d true (negsuc n) h = omega arith
after-InCounts u d false (pos n) h = omega arith
after-InCounts u d false (negsuc n) h = omega arith

next_up-after :
    (u d : ℕ) (z : ℤ)
    → u + 2 < word_half
    → InCounts u d z
    → next_up (pos (u + 1)) z ≡ after u d true z
next_up-after u d (pos n) k h = next_up-nonneg (u + 1) n (omega arith) (omega arith)
next_up-after u d (negsuc n) k h = next_up-neg (u + 1) n

next_down-after :
    (u d : ℕ) (z : ℤ)
    → d + 1 < word_half
    → InCounts u d z
    → next_down (negsuc d) z ≡ after u d false z
next_down-after u d (pos zero) k h = next_down-zero d k
next_down-after u d (pos (suc n)) k h = next_down-pos d n
next_down-after u d (negsuc n) k h = next_down-neg d n (omega arith) k

module _ {u d : ℕ} where
  one_check :
      (item : Item) (result : Bool)
      → IsCounted u d item
      → InCounts u d item.status
      → check result item ≡ record item { status = after u d result item.status }
  unfolding check status_up status_down
  one_check item true c h =
      ap (λ (z : ℤ). record item { status = z })
        (ap (λ (x : ℤ). next_up x item.status) c.up_eq ∙ next_up-after u d item.status c.up_word h)
  one_check item false c h =
      ap (λ (z : ℤ). record item { status = z })
        (ap (λ (x : ℤ). next_down x item.status) c.down_eq
          ∙ next_down-after u d item.status c.down_word h)

  -- From a status between the counts, a run of checks gives the status that counting without word
  -- arithmetic gives, which lies between the counts again; nothing else of the item changes.
  pub checks_lem :
      (results : List Bool) (item : Item)
      → IsCounted u d item
      → InCounts u d item.status
      → (checks results item ≡ record item { status = run u d results item.status })
        × InCounts u d (checks results item).status
  unfolding checks
  checks_lem [] item c h = (refl, h)
  checks_lem (result ∷ results) item c h =
      subst
        (λ (next : Item).
          (checks results next
            ≡ record item { status = run u d results (after u d result item.status) })
          × InCounts u d (checks results next).status)
        (sym (one_check item result c h))
        (checks_lem results (record item { status = after u d result item.status })
          (record {
            up_eq = c.up_eq;
            down_eq = c.down_eq;
            up_word = c.up_word;
            down_word = c.down_word;
          })
          (after-InCounts u d result item.status h))
