-- ===== src/Zones/Reversal.antt =====
-- handler/handler.go: the swaps of reverseZone reverse a text.
use redins.Prelude.{
  ltb, length, get_elem?, set, length-append, Text, ℕ, zero, suc, ◌+◌, ◌-◌, ◌≤◌, ◌<◌, ◌≡◌, refl,
  sym, ap, ◌∙◌, subst, true, false, some, [], ◌∷◌, ◌++◌, reverse, arith,
}
use mathlib.Core.List.{append_assoc, append-nil, reverse-cons, reverse-append}
use redins.Zone.{dot}
use redins.Zones.{swap_runes, swap_from, reverse_zone}

get_elem?-append : (p s : Text) (a : ℕ) → get_elem? (p ++ a ∷ s) (length p) ≡ some a
get_elem?-append [] s a = refl
get_elem?-append (c ∷ p) s a = get_elem?-append p s a

set-append : (p s : Text) (a b : ℕ) → set (p ++ a ∷ s) (length p) b ≡ p ++ b ∷ s
set-append [] s a b = refl
set-append (c ∷ p) s a b = ap (λ (t : Text). c ∷ t) (set-append p s a b)

-- A text between its first and its last rune.
data Ends : Text → Type 0 where
  empty : Ends []
  single : (a : ℕ) → Ends (a ∷ [])
  outer : (a : ℕ) (mid : Text) (b : ℕ) → Ends (a ∷ (mid ++ b ∷ []))

ends : (m : Text) → Ends m
ends [] = empty
ends (a ∷ m) = grow (ends m)
  where
    grow : {n : Text} → Ends n → Ends (a ∷ n)
    grow empty = single a
    grow (single b) = outer a [] b
    grow (outer b mid c) = outer a (b ∷ mid) c

length-around : (p m : Text) (a : ℕ) → length (p ++ a ∷ m) ≡ length p + suc (length m)
length-around p m a = length-append p (a ∷ m)

get_second :
    (p m s : Text) (a b : ℕ)
    → get_elem? (p ++ a ∷ (m ++ b ∷ s)) (length p + suc (length m)) ≡ some b
get_second p m s a b =
    rw (← append_assoc p (a ∷ m) (b ∷ s), ← length-around p m a) (get_elem?-append (p ++ a ∷ m) s b)

set_second :
    (p m s : Text) (a b c : ℕ)
    → set (p ++ a ∷ (m ++ b ∷ s)) (length p + suc (length m)) c ≡ p ++ a ∷ (m ++ c ∷ s)
set_second p m s a b c =
    rw (← append_assoc p (a ∷ m) (b ∷ s), ← append_assoc p (a ∷ m) (c ∷ s), ← length-around p m a)
      (set-append (p ++ a ∷ m) s b c)

swap_runes_lem :
    (p m s : Text) (a b : ℕ)
    → swap_runes (p ++ a ∷ (m ++ b ∷ s)) (length p) (length p + suc (length m))
      ≡ p ++ b ∷ (m ++ a ∷ s)
unfolding swap_runes
swap_runes_lem p m s a b =
    rw (get_elem?-append p (m ++ b ∷ s) a, get_second p m s a b, set-append p (m ++ b ∷ s) a b)
      (set_second p m s b b a)

reverse_outer : (a b : ℕ) (mid : Text) → reverse (a ∷ (mid ++ b ∷ [])) ≡ b ∷ (reverse mid ++ a ∷ [])
reverse_outer a b mid =
    reverse-cons a (mid ++ b ∷ []) ∙ ap (λ (t : Text). t ++ a ∷ []) (reverse-append mid (b ∷ []))

-- The loop stops in the middle.
swap_from_done : (rounds i j : ℕ) (runes : Text) → j ≤ i → swap_from rounds i j runes ≡ runes
unfolding swap_from
swap_from_done zero i j runes h = refl
swap_from_done (suc rounds) i j runes h = let done : ltb i j ≡ false = ground arith in rw done refl

swap_from_step :
    (rounds i j : ℕ) (runes : Text)
    → i < j
    → swap_from (suc rounds) i j runes ≡ swap_from rounds (i + 1) (j - 1) (swap_runes runes i j)
unfolding swap_from
swap_from_step rounds i j runes h = let more : ltb i j ≡ true = ground arith in rw more refl

-- A round that swaps the ends of what is not reversed yet.
swap_from_round :
    (rounds : ℕ) (p mid s : Text) (a b : ℕ)
    → swap_from
        (suc rounds)
        (length p)
        (length p + length (a ∷ (mid ++ b ∷ [])) - 1)
        (p ++ (a ∷ (mid ++ b ∷ []) ++ s))
      ≡ swap_from rounds
          (length (p ++ b ∷ []))
          (length (p ++ b ∷ []) + length mid - 1)
          ((p ++ b ∷ []) ++ (mid ++ (a ∷ s)))
swap_from_round rounds p mid s a b =
    let last : length p + length (a ∷ (mid ++ b ∷ [])) - 1 ≡ length p + suc (length mid) =
      omega (arith, length-append mid (b ∷ [])) in
    let next : length p + suc (length mid) - 1 ≡ length (p ++ b ∷ []) + length mid - 1 =
      omega (arith, length-append p (b ∷ [])) in
    let first : length p + 1 ≡ length (p ++ b ∷ []) = omega (arith, length-append p (b ∷ [])) in
    rw
      (
        last,
        append_assoc mid (b ∷ []) s,
        swap_from_step rounds (length p) (length p + suc (length mid)) (p ++ a ∷ (mid ++ b ∷ s))
            (omega arith),
        swap_runes_lem p mid s a b,
        first,
        next,
        append_assoc p (b ∷ []) (mid ++ a ∷ s),
      )
      refl

swap_from-Ends :
    (rounds : ℕ) (p s : Text) {m : Text}
    → Ends m
    → length m ≤ rounds
    → swap_from rounds (length p) (length p + length m - 1) (p ++ (m ++ s)) ≡ p ++ (reverse m ++ s)
swap_from-Ends rounds p s empty h = swap_from_done rounds _ _ _ (omega arith)
swap_from-Ends rounds p s (single a) h = swap_from_done rounds _ _ _ (omega arith)
swap_from-Ends zero p s (outer a mid b) h = absurd (omega arith)
swap_from-Ends (suc rounds) p s (outer a mid b) h =
    swap_from_round rounds p mid s a b
    ∙ swap_from-Ends rounds (p ++ b ∷ []) (a ∷ s) (ends mid)
        (omega (arith, h, length-append mid (b ∷ [])))
    ∙ append_assoc p (b ∷ []) (reverse mid ++ a ∷ s)
    ∙ ap (λ (t : Text). p ++ b ∷ t) (sym (append_assoc (reverse mid) (a ∷ []) s))
    ∙ ap (λ (t : Text). p ++ (t ++ s)) (sym (reverse_outer a b mid))

-- The swaps of reverseZone end and give the runes of the name, with a dot before them, in reverse.
pub reverse_zone-eq-reverse : (zone : Text) → reverse_zone zone ≡ reverse (dot ++ zone)
unfolding reverse_zone
reverse_zone-eq-reverse zone =
    let runes = dot ++ zone in
    let last : 0 + length runes - 1 ≡ length runes - 1 = omega arith in
    ap (λ (t : Text). swap_from (length runes) 0 (length runes - 1) t) (sym (append-nil runes))
    ∙ subst (λ (j : ℕ). swap_from (length runes) 0 j (runes ++ []) ≡ reverse runes ++ []) last
        (swap_from-Ends (length runes) [] [] (ends runes) (omega arith))
    ∙ append-nil (reverse runes)
