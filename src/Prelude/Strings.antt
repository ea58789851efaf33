-- ===== src/Prelude/Strings.antt =====
-- Go strings as lists of byte codes, and what the sources use of the package `strings`.
use Prim.Native.Char.{code}
use Prim.Native.String.{String}
use Prim.Native.Nat.{ℕ, ◌+◌, ◌-◌, ◌<◌}
use mathlib.Core.Path.{◌≡◌, refl, ap, subst}
use mathlib.Core.Logic.{◌↔◌, ◌≢◌, ◌⊎◌, inl, inr}
use mathlib.Core.Bool.{Bool, true, false, ◌&&◌}
use mathlib.Core.List.{List, [], ◌∷◌, ◌++◌}
use mathlib.Core.Option.{Option, none, some}
use native.Mathlib.Omega.{arith}
use redins.Prelude.Tests.{◌==◌, leb, if◌then◌else◌, Option-cases, Bool-cases}
use redins.Prelude.Lists.{length, take, drop, All, length-append, take-append-drop}

abbrev pub Text : Type 0
Text = List ℕ

-- The codes of a literal. `String` has its own `[]` and `∷`.
abbrev pub codes : String → Text
codes String.[] = []
codes (String.◌∷◌ c s) = code c ∷ codes s

unfoldable pub text_eq : Text → Text → Bool
text_eq [] [] = true
text_eq (c ∷ s) (d ∷ t) = (c == d) && text_eq s t
text_eq _ _ = false

pub text_eq_iff : (s t : Text) → (text_eq s t ≡ true) ↔ (s ≡ t)
unfolding text_eq
text_eq_iff [] [] = ground arith
text_eq_iff [] (d ∷ t) = ground arith
text_eq_iff (c ∷ s) [] = ground arith
text_eq_iff (c ∷ s) (d ∷ t) = ground (arith, text_eq_iff s t)

pub text_eq_refl : (s : Text) → text_eq s s ≡ true
text_eq_refl s = (text_eq_iff s s).1 refl

-- strings.HasPrefix
unfoldable pub has_prefix : Text → Text → Bool
has_prefix s [] = true
has_prefix [] (d ∷ t) = false
has_prefix (c ∷ s) (d ∷ t) = (c == d) && has_prefix s t

-- strings.HasSuffix: `len(s) >= len(suffix) && s[len(s)-len(suffix):] == suffix`
unfoldable pub has_suffix : Text → Text → Bool
has_suffix s t = leb (length t) (length s) && text_eq (drop (length s - length t) s) t

-- strings.TrimSuffix
unfoldable pub trim_suffix : Text → Text → Text
trim_suffix s t = if has_suffix s t then take (length s - length t) s else s

abbrev cons_first : ℕ → Option (Text × Text) → Option (Text × Text)
cons_first c none = none
cons_first c (some (a, b)) = some (c ∷ a, b)

-- strings.SplitAfterN(s, sep, 2) for a one-byte separator: `none` where the result has one part.
unfoldable pub split_after : ℕ → Text → Option (Text × Text)
split_after sep [] = none
split_after sep (c ∷ s) = if c == sep then some (c ∷ [], s) else cons_first c (split_after sep s)

pub split_after-append : (sep : ℕ) (s a b : Text) → split_after sep s ≡ some (a, b) → a ++ b ≡ s
unfolding split_after
split_after-append sep [] a b h = cc
split_after-append sep (c ∷ s) a b h = elim (Option-cases (split_after sep s)) [
  | inl e ↦ ground (arith)
  | inr ((x, y), e) ↦ ground (arith, split_after-append sep s x y e)
]

pub length-split_after :
    (sep : ℕ) (s a b : Text) → split_after sep s ≡ some (a, b) → length b < length s
unfolding split_after
length-split_after sep [] a b h = absurd (cc)
length-split_after sep (c ∷ s) a b h = elim (Option-cases (split_after sep s)) [
  | inl e ↦ ground (arith)
  | inr ((x, y), e) ↦ ground (arith, length-split_after sep s x y e)
]

-- The first part ends at the first separator, so a text without one before it splits there.
pub split_after-found :
    (sep : ℕ) (s t : Text)
    → All (λ c. c ≢ sep) s
    → split_after sep (s ++ sep ∷ t) ≡ some (s ++ sep ∷ [], t)
unfolding split_after
split_after-found sep [] t h = ground arith
split_after-found sep (c ∷ s) t h = ground (arith, split_after-found sep s t h.1)

drop-append : (s t : Text) → drop (length s) (s ++ t) ≡ t
drop-append [] t = refl
drop-append (c ∷ s) t = drop-append s t

take-append : (s t : Text) → take (length s) (s ++ t) ≡ s
take-append [] t = refl
take-append (c ∷ s) t = ap (λ (r : Text). c ∷ r) (take-append s t)

minus_self : (a b : ℕ) → a + b - b ≡ a
minus_self a b = omega arith

pub has_suffix-append : (s t : Text) → has_suffix (s ++ t) t ≡ true
unfolding has_suffix
has_suffix-append s t =
    rw (length-append s t, minus_self (length s) (length t), drop-append s t)
      (ground (arith, text_eq_refl t))

pub trim_suffix-append : (s t : Text) → trim_suffix (s ++ t) t ≡ s
unfolding trim_suffix
trim_suffix-append s t =
    rw (has_suffix-append s t, length-append s t, minus_self (length s) (length t), take-append s t)

-- A suffix is what stands behind some first part.
pub has_suffix_iff :
    (s t : Text) → (has_suffix s t ≡ true) ↔ (take (length s - length t) s ++ t ≡ s)
unfolding has_suffix
has_suffix_iff s t = (
  λ h.
      let e : drop (length s - length t) s ≡ t = (text_eq_iff _ _).0 (ground arith) in
      rw e at (take-append-drop (length s - length t) s),
  λ e. subst (λ r. has_suffix r t ≡ true) e (has_suffix-append (take (length s - length t) s) t),
)

-- The first part of a split is a text without separators, and the separator.
pub split_after_parts :
    (sep : ℕ) (s a b : Text)
    → split_after sep s ≡ some (a, b)
    → (l : Text) × All (λ c. c ≢ sep) l × (l ++ sep ∷ b ≡ s)
unfolding split_after
split_after_parts sep [] a b h = absurd (cc)
split_after_parts sep (c ∷ s) a b h = elim (Bool-cases (c == sep)) [
  | inl same ↦ ([], tt, ground arith)
  | inr differ ↦ elim (Option-cases (split_after sep s)) [
    | inl e ↦ absurd (ground arith)
    | inr ((x, y), e) ↦
        let (l, plain, same) = split_after_parts sep s x y e in
        (c ∷ l, (ground arith, plain), ground arith)
  ]
]

pub split_after-none : (sep : ℕ) (s : Text) → split_after sep s ≡ none → All (λ c. c ≢ sep) s
unfolding split_after
split_after-none sep [] h = tt
split_after-none sep (c ∷ s) h = elim (Option-cases (split_after sep s)) [
  | inl e ↦ (ground arith, split_after-none sep s e)
  | inr ((x, y), e) ↦ absurd (ground arith)
]

-- A place of the separator in a text lies at its first one or behind it.
pub separator_cases :
    (sep : ℕ) (l b labels e : Text)
    → All (λ c. c ≢ sep) l
    → labels ++ sep ∷ e ≡ l ++ sep ∷ b
    → (e ≡ b) ⊎ ((rest : Text) × (rest ++ sep ∷ e ≡ b))
separator_cases sep [] b [] e h q = inl cc
separator_cases sep [] b (d ∷ labels) e h q = inr (labels, cc)
separator_cases sep (c ∷ l) b [] e h q = absurd (h.0 (cc))
separator_cases sep (c ∷ l) b (d ∷ labels) e h q = separator_cases sep l b labels e h.1 (cc)

-- strings.TrimPrefix
unfoldable pub trim_prefix : Text → Text → Text
trim_prefix s t = if has_prefix s t then drop (length t) s else s

pub has_prefix-append : (s t : Text) → has_prefix (s ++ t) s ≡ true
unfolding has_prefix
has_prefix-append [] [] = refl
has_prefix-append [] (d ∷ t) = refl
has_prefix-append (c ∷ s) t = ground (arith, has_prefix-append s t)

pub trim_prefix-append : (s t : Text) → trim_prefix (s ++ t) s ≡ t
unfolding trim_prefix
trim_prefix-append s t = rw (has_prefix-append s t) (drop-append s t)

-- strings.TrimRight for a cutset of one byte.
abbrev cons_unless : Bool → ℕ → Text → Text
cons_unless true c [] = []
cons_unless _ c s = c ∷ s

unfoldable pub trim_right : ℕ → Text → Text
trim_right cut [] = []
trim_right cut (c ∷ s) = cons_unless (c == cut) c (trim_right cut s)
