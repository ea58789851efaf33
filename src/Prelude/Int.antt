-- ===== src/Prelude/Int.antt =====
-- Go's `int` and `time.Duration`: a signed 64-bit word, as the integer that it stands for.
-- Addition and subtraction wrap round, written out in `wrap`.
use redins.Prelude.Tests.{ltb, leb, ◌==◌, if◌then◌else◌}
use Prim.Native.Nat.{ℕ, suc, ◌+◌, ◌-◌, ◌*◌, ◌/◌, ◌%◌, ◌≤◌, ◌<◌}
use mathlib.Core.Path.{◌≡◌, refl, ap}
use mathlib.Core.Logic.{◌↔◌}
use mathlib.Core.Bool.{Bool, true, false}
use mathlib.Core.Option.{Option, none, some}
use native.Mathlib.Omega.{arith}

-- `negsuc n` is -(n + 1).
pub data ℤ : Type 0 where
  pos : ℕ → ℤ
  negsuc : ℕ → ℤ

abbrev pub pos_part : ℤ → ℕ
pos_part (pos n) = n
pos_part (negsuc n) = 0

abbrev pub neg_part : ℤ → ℕ
neg_part (pos n) = 0
neg_part (negsuc n) = suc n

-- a - b, as an integer.
abbrev pub sub_ℕ : ℕ → ℕ → ℤ
sub_ℕ a b = if leb b a then pos (a - b) else negsuc (b - a - 1)

infixl 65 ◌+ℤ◌ ◌-ℤ◌
infixl 70 ◌*ℤ◌
infix 50 ◌≤ℤ◌ ◌<ℤ◌
abbrev pub ◌+ℤ◌ : ℤ → ℤ → ℤ
a +ℤ b = sub_ℕ (pos_part a + pos_part b) (neg_part a + neg_part b)

abbrev pub ◌-ℤ◌ : ℤ → ℤ → ℤ
a -ℤ b = sub_ℕ (pos_part a + neg_part b) (neg_part a + pos_part b)

abbrev pub ◌*ℤ◌ : ℤ → ℤ → ℤ
a *ℤ b =
    sub_ℕ (pos_part a * pos_part b + neg_part a * neg_part b)
      (pos_part a * neg_part b + neg_part a * pos_part b)

abbrev pub neg_ℤ : ℤ → ℤ
neg_ℤ a = sub_ℕ (neg_part a) (pos_part a)

abbrev pub ◌≤ℤ◌ : ℤ → ℤ → Type 0
a ≤ℤ b = pos_part a + neg_part b ≤ pos_part b + neg_part a

abbrev pub ◌<ℤ◌ : ℤ → ℤ → Type 0
a <ℤ b = pos_part a + neg_part b < pos_part b + neg_part a

abbrev pub ltb_ℤ : ℤ → ℤ → Bool
ltb_ℤ a b = ltb (pos_part a + neg_part b) (pos_part b + neg_part a)

abbrev pub eqb_ℤ : ℤ → ℤ → Bool
eqb_ℤ a b = pos_part a + neg_part b == pos_part b + neg_part a

abbrev word_mod : ℕ
word_mod = 18446744073709551616

abbrev pub word_half : ℕ
word_half = 9223372036854775808

abbrev of_word : ℕ → ℤ
of_word n = if ltb n word_half then pos n else negsuc (word_mod - 1 - n)

-- The quotient rounded towards 0, as Go divides.
abbrev quot : ℤ → ℤ → ℤ
quot (pos a) (pos b) = pos (a / b)
quot (pos a) (negsuc b) = sub_ℕ 0 (a / suc b)
quot (negsuc a) (pos b) = sub_ℕ 0 (suc a / b)
quot (negsuc a) (negsuc b) = pos (suc a / suc b)

-- The 64-bit two's complement reading of an integer.
unfoldable pub wrap : ℤ → ℤ
wrap z = of_word ((pos_part z + (word_mod - neg_part z % word_mod)) % word_mod)

-- The integers that a word holds.
abbrev pub InWord : ℤ → Type 0
InWord z = (pos_part z < word_half) × (neg_part z ≤ word_half)

pub wrap_self : (z : ℤ) → InWord z → wrap z ≡ z
unfolding wrap
wrap_self (pos n) h = ground arith
wrap_self (negsuc n) h = ground arith

pub wrap-InWord : (z : ℤ) → InWord (wrap z)
unfolding wrap
wrap-InWord z = ground arith

unfoldable pub int_add : ℤ → ℤ → ℤ
int_add a b = wrap (a +ℤ b)

pub int_add_pos : (a b : ℕ) → a + b < word_half → int_add (pos a) (pos b) ≡ pos (a + b)
unfolding int_add
int_add_pos a b h =
    let e : pos a +ℤ pos b ≡ pos (a + b) = ground arith in
    rw e (wrap_self (pos (a + b)) (omega arith))

pub int_add_nonneg :
    (k : ℕ) (w : ℤ)
    → neg_part w ≡ 0
    → k + pos_part w < word_half
    → int_add (pos k) w ≡ pos (k + pos_part w)
int_add_nonneg k (pos n) e h = int_add_pos k n h
int_add_nonneg k (negsuc n) e h = absurd (omega arith)

unfoldable pub int_sub : ℤ → ℤ → ℤ
int_sub a b = wrap (a -ℤ b)

-- The difference from a number that is not negative, and where it is not negative itself.
pub int_sub-lt :
    (k : ℕ) (w : ℤ)
    → neg_part w ≡ 0
    → k < word_half
    → pos_part w < word_half
    → ltb_ℤ (int_sub (pos k) w) (pos 0) ≡ ltb k (pos_part w)
unfolding int_sub wrap
int_sub-lt k (pos n) e h q = ground arith
int_sub-lt k (negsuc n) e h q = absurd (omega arith)

pub int_sub-le :
    (k : ℕ) (w : ℤ)
    → neg_part w ≡ 0
    → k < word_half
    → pos_part w ≤ k
    → int_sub (pos k) w ≡ pos (k - pos_part w)
unfolding int_sub wrap
int_sub-le k (pos n) e h q = ground arith
int_sub-le k (negsuc n) e h q = absurd (omega arith)

unfoldable pub int_neg : ℤ → ℤ
int_neg a = wrap (neg_ℤ a)

unfoldable pub int_mul : ℤ → ℤ → ℤ
int_mul a b = wrap (a *ℤ b)

-- `none` is the run-time panic of a division by zero.
unfoldable pub int_div : ℤ → ℤ → Option ℤ
int_div a b = if eqb_ℤ b (pos 0) then none else some (wrap (quot a b))

pub int_mul_pos : (a b : ℕ) → a * b < word_half → int_mul (pos a) (pos b) ≡ pos (a * b)
unfolding int_mul
int_mul_pos a b h =
    let e : pos a *ℤ pos b ≡ pos (a * b) = ground arith in
    rw e (wrap_self (pos (a * b)) (omega arith))

pub int_div_pos : (a b : ℕ) → a < word_half → 0 < b → int_div (pos a) (pos b) ≡ some (pos (a / b))
unfolding int_div
int_div_pos a b h k =
    let e : eqb_ℤ (pos b) (pos 0) ≡ false = ground arith in
    rw e (ap some (wrap_self (pos (a / b)) (omega arith)))

pub eqb_ℤ_iff : (a b : ℤ) → (eqb_ℤ a b ≡ true) ↔ (a ≡ b)
eqb_ℤ_iff a b = ground arith

wrap_tests :
    (wrap (pos 9223372036854775808) ≡ negsuc 9223372036854775807)
    × (wrap (negsuc 9223372036854775808) ≡ pos 9223372036854775807)
    × (wrap (negsuc 2) ≡ negsuc 2)
unfolding wrap
wrap_tests = (refl, refl, refl)
