-- ===== src/Ips/Starts.antt =====
-- handler/handler.go: where the loops of OrderIps find the start of an answer.
use redins.Prelude.{
  ltb, ◌==◌, ltb→le, Bool-cases, pos_part, neg_part, word_half, int_add_nonneg, int_sub-lt,
  int_sub-le, pos, length, get_elem?, take, drop, All, ℕ, zero, suc, ◌+◌, ◌-◌, ◌≤◌, ◌<◌, ◌≡◌, refl,
  sym, ap, ◌∙◌, inl, inr, false, Option, some, List, [], ◌∷◌, ◌++◌, arith,
}
use mathlib.Core.Bool.{false≢true}
use redins.Records.{IpRr}
use redins.Ips.{Mask, white, is_white, tally, weighted_index, robin_index, first_index, white_rrs}

-- An index of a white address, and the white addresses on its two sides.
pub record IsAt (ms : List Mask) (rs : List IpRr) (i : ℕ) (before after : List IpRr) (r : IpRr)
    : Type 0 where
  pub left : white_rrs (take i ms) (take i rs) ≡ before
  pub right : white_rrs (drop i ms) (drop i rs) ≡ r ∷ after
  pub here : get_elem? rs i ≡ some r

abbrev pub wsum : List IpRr → ℕ
wsum [] = 0
wsum (r ∷ rs) = pos_part r.weight + wsum rs

-- No weight is negative.
abbrev pub IsWeighed : List IpRr → Type 0
IsWeighed rs = All (λ r. (neg_part r.weight ≡ 0) × (pos_part r.weight < word_half)) rs

-- An index is found, and the white address there satisfies `P` with those before it.
abbrev pub Found : (List IpRr → IpRr → Type 0) → ℕ → List Mask → List IpRr → Option ℕ → Type 0
Found P i ms rs o =
    (j : ℕ) × (before : List IpRr) × (after : List IpRr) × (r : IpRr) × (o ≡ some (i + j))
    × IsAt ms rs j before after r
    × P before r

pub shift : (i j : ℕ) → i + 1 + j ≡ i + suc j
shift i j = omega arith

module _ (P : List IpRr → IpRr → Type 0) (i : ℕ) (ms : List Mask) (rs : List IpRr) where
  found_here : (r : IpRr) → P [] r → Found P i (white ∷ ms) (r ∷ rs) (some i)
  unfolding white_rrs
  found_here r p = (
    0,
    [],
    white_rrs ms rs,
    r,
    ap some (omega arith),
    record { left = refl; right = refl; here = refl },
    p,
  )

  found_past :
      (r : IpRr) (o : Option ℕ)
      → Found (λ before s. P (r ∷ before) s) (i + 1) ms rs o
      → Found P i (white ∷ ms) (r ∷ rs) o
  unfolding white_rrs
  found_past r o (j, before, after, s, e, at, p) = (
    suc j,
    r ∷ before,
    after,
    s,
    e ∙ ap some (shift i j),
    record { left = ap (λ l. r ∷ l) at.left; right = at.right; here = at.here },
    p,
  )

  found_skip :
      (m : Mask) (r : IpRr) (o : Option ℕ)
      → is_white m ≡ false
      → Found P (i + 1) ms rs o
      → Found P i (m ∷ ms) (r ∷ rs) o
  unfolding white_rrs
  found_skip white r o w f = absurd (false≢true (sym w))
  found_skip _ r o w (j, before, after, s, e, at, p) = (
    suc j,
    before,
    after,
    s,
    e ∙ ap some (shift i j),
    record { left = at.left; right = at.right; here = at.here },
    p,
  )

abbrev pub IsHit : ℕ → List IpRr → IpRr → Type 0
IsHit k before r = (wsum before ≤ k) × (k < wsum before + pos_part r.weight)

pub Found-map :
    (P Q : List IpRr → IpRr → Type 0) (i : ℕ) (ms : List Mask) (rs : List IpRr) (o : Option ℕ)
    → ((before : List IpRr) (r : IpRr) → P before r → Q before r)
    → Found P i ms rs o
    → Found Q i ms rs o
Found-map P Q i ms rs o f (j, before, after, r, e, at, p) =
    (j, before, after, r, e, at, f before r p)

pub weighted_index-Found :
    (k i : ℕ) (ms : List Mask) (rs : List IpRr)
    → IsWeighed rs
    → k < word_half
    → k < wsum (white_rrs ms rs)
    → Found (IsHit k) i ms rs (weighted_index (pos k) i ms rs)
unfolding weighted_index white_rrs
weighted_index-Found k i [] [] w q h = absurd (omega arith)
weighted_index-Found k i [] (r ∷ rs) w q h = absurd (omega arith)
weighted_index-Found k i (m ∷ ms) [] w q h = absurd (omega arith)
weighted_index-Found k i (white ∷ ms) (r ∷ rs) ((nonneg, fits), w) q h =
    rw (int_sub-lt k r.weight nonneg q fits) (elim (Bool-cases (ltb k (pos_part r.weight))) [
      | inl hit ↦ rw hit (found_here (IsHit k) i ms rs r (omega arith, ground arith))
      | inr miss ↦
          let le : pos_part r.weight ≤ k = ltb→le k _ miss in
          rw (miss, int_sub-le k r.weight nonneg q le)
            (found_past (IsHit k) i ms rs r _ (
              Found-map _ _ (i + 1) ms rs _ (λ before s p. (omega arith, omega arith))
                (weighted_index-Found (k - pos_part r.weight) (i + 1) ms rs w (omega arith)
                  (omega arith))))
    ])
weighted_index-Found k i (_ ∷ ms) (r ∷ rs) w q h =
    found_skip (IsHit k) i ms rs _ r _ refl (weighted_index-Found k (i + 1) ms rs w.1 q h)

pub robin_index-Found :
    (k i : ℕ) (ms : List Mask) (rs : List IpRr)
    → length ms ≡ length rs
    → k < length (white_rrs ms rs)
    → Found (λ before r. length before ≡ k) i ms rs (robin_index k i ms)
unfolding robin_index white_rrs
robin_index-Found k i [] [] w h = absurd (omega arith)
robin_index-Found k i [] (r ∷ rs) w h = absurd (omega arith)
robin_index-Found k i (m ∷ ms) [] w h = absurd (omega arith)
robin_index-Found k i (white ∷ ms) (r ∷ rs) w h = elim (Bool-cases (k == 0)) [
  | inl hit ↦ rw hit (found_here _ i ms rs r (ground arith))
  | inr miss ↦ rw miss (
      found_past _ i ms rs r _ (
        Found-map _ _ (i + 1) ms rs _ (λ before s p. ground arith)
          (robin_index-Found (k - 1) (i + 1) ms rs (omega arith) (ground arith))))
]
robin_index-Found k i (_ ∷ ms) (r ∷ rs) w h =
    found_skip _ i ms rs _ r _ refl (robin_index-Found k (i + 1) ms rs (omega arith) h)

pub first_index-Found :
    (i : ℕ) (ms : List Mask) (rs : List IpRr)
    → length ms ≡ length rs
    → 0 < length (white_rrs ms rs)
    → Found (λ before r. length before ≡ 0) i ms rs (first_index i ms)
unfolding first_index white_rrs
first_index-Found i [] [] w h = absurd (omega arith)
first_index-Found i [] (r ∷ rs) w h = absurd (omega arith)
first_index-Found i (m ∷ ms) [] w h = absurd (omega arith)
first_index-Found i (white ∷ ms) (r ∷ rs) w h = found_here _ i ms rs r refl
first_index-Found i (_ ∷ ms) (r ∷ rs) w h =
    found_skip _ i ms rs _ r _ refl (first_index-Found (i + 1) ms rs (omega arith) h)

pub tally_lem :
    (count sum : ℕ) (ms : List Mask) (rs : List IpRr)
    → IsWeighed rs
    → sum + wsum (white_rrs ms rs) < word_half
    → tally count (pos sum) ms rs
      ≡ (count + length (white_rrs ms rs), pos (sum + wsum (white_rrs ms rs)))
unfolding tally white_rrs
tally_lem count sum [] [] w h = ground arith
tally_lem count sum [] (r ∷ rs) w h = ground arith
tally_lem count sum (m ∷ ms) [] w h = ground arith
tally_lem count sum (white ∷ ms) (r ∷ rs) w h =
    rw (int_add_nonneg sum r.weight w.0.0 (omega arith))
      (tally_lem (count + 1) (sum + pos_part r.weight) ms rs w.1 (omega arith) ∙ ground arith)
tally_lem count sum (_ ∷ ms) (r ∷ rs) w h = tally_lem count sum ms rs w.1 h

pub white_rrs-nil : (ms : List Mask) → white_rrs ms [] ≡ []
unfolding white_rrs
white_rrs-nil [] = refl
white_rrs-nil (m ∷ ms) = refl

pub white_rrs-split :
    (i : ℕ) (ms : List Mask) (rs : List IpRr)
    → white_rrs (take i ms) (take i rs) ++ white_rrs (drop i ms) (drop i rs) ≡ white_rrs ms rs
unfolding white_rrs
white_rrs-split zero ms rs = refl
white_rrs-split (suc i) [] [] = refl
white_rrs-split (suc i) [] (r ∷ rs) = refl
white_rrs-split (suc i) (m ∷ ms) [] = white_rrs-nil (drop i ms)
white_rrs-split (suc i) (white ∷ ms) (r ∷ rs) =
    ap (λ (l : List IpRr). r ∷ l) (white_rrs-split i ms rs)
white_rrs-split (suc i) (_ ∷ ms) (r ∷ rs) = white_rrs-split i ms rs
