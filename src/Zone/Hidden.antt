-- ===== src/Zone/Hidden.antt =====
-- handler/zone.go: a location hides wildcards by its last letters.
use redins.Prelude.{
  Bool-cases, length, any, length-append, All, Text, text_eq, text_eq_iff, has_suffix,
  split_after-found, has_suffix-append, trim_suffix-append, ℕ, zero, suc, ◌<◌, ◌≡◌, ap, ◌≢◌, inl,
  inr, Bool, true, false, some, List, [], ◌∷◌, ◌++◌, arith,
}
use redins.Zone.{
  Zone, no_match, dot, star, key_exists, key_matches, split_query, find_wildcard, find_location,
}

any_of_Mem :
    (p : Text → Bool) (x : Text) (xs ys : List Text) → p x ≡ true → any p (xs ++ x ∷ ys) ≡ true
any_of_Mem p x [] ys h = rw h
any_of_Mem p x (y ∷ xs) ys h = rw (any_of_Mem p x xs ys h) (ground arith)

split_query-label :
    (label rest : Text)
    → All (λ c. c ≢ b'.') label
    → split_query (label ++ b'.' ∷ rest) ≡ some (rest, star ++ (dot ++ rest))
unfolding split_query
split_query-label [] rest plain = rw (split_after-found b'.' [] rest plain)
split_query-label (c ∷ label) rest plain = rw (split_after-found b'.' (c ∷ label) rest plain)

find_wildcard-hidden :
    (locations : List Text) (fuel : ℕ) (rest source : Text)
    → 0 < fuel
    → key_matches locations rest ≡ true
    → key_exists locations source ≡ false
    → find_wildcard locations fuel (some (rest, source)) ≡ some ([], no_match)
unfolding find_wildcard
find_wildcard-hidden locations zero rest source h k l = absurd (omega arith)
find_wildcard-hidden locations (suc fuel) rest source h k l = rw (k, l)

not_apex : (label name : Text) → text_eq (label ++ (dot ++ name)) name ≡ false
not_apex label name = elim (Bool-cases (text_eq (label ++ (dot ++ name)) name)) [
  | inl same ↦
      absurd
        (omega (arith, ap length ((text_eq_iff _ _).0 same), length-append label (dot ++ name)))
  | inr differ ↦ differ
]

-- A location `part ++ rest` hides the wildcards above `rest` from the queries below `rest`, even where
-- `part` ends inside a label, so that `rest` is the name of no location nor of a parent of one: without
-- a wildcard just below `rest` they find no match.
pub find_location_partial :
    (z : Zone) (before after : List Text) (part rest label : Text)
    → z.locations ≡ before ++ (part ++ rest) ∷ after
    → All (λ c. c ≢ b'.') label
    → key_exists z.locations (label ++ b'.' ∷ rest) ≡ false
    → key_exists z.locations (star ++ (dot ++ rest)) ≡ false
    → find_location z ((label ++ b'.' ∷ rest) ++ (dot ++ z.name)) ≡ some ([], no_match)
unfolding find_location key_matches
find_location_partial z before after part rest label e plain absent unwild =
    rw
      (
        not_apex (label ++ b'.' ∷ rest) z.name,
        trim_suffix-append (label ++ b'.' ∷ rest) (dot ++ z.name),
        absent,
        split_query-label label rest plain,
      )
      (find_wildcard-hidden z.locations _ rest _ (omega (arith, length-append label (b'.' ∷ rest)))
        (rw e (
          any_of_Mem (λ value. has_suffix value rest) (part ++ rest) before after
            (has_suffix-append part rest)))
        unwild)
