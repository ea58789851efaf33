-- ===== src/Zone/Location.antt =====
-- handler/zone.go: what FindLocation finds.
use redins.Prelude.{
  if◌then◌else◌, Bool-cases, Option-cases, length, length-append, All, Text, text_eq, text_eq_iff,
  trim_suffix, split_after, length-split_after, split_after_parts, split_after-none,
  separator_cases, ℕ, zero, suc, ◌≤◌, ◌<◌, ◌≡◌, refl, sym, ap, ◌∙◌, subst, ◌≢◌, ◌⊎◌, inl, inr, Bool,
  true, false, ◌||◌, none, some, List, [], ◌∷◌, ◌++◌, arith,
}
use mathlib.Core.Bool.{false≢true}
use mathlib.Core.List.{append_assoc}
use redins.Zone.{
  Zone, Match, exact_match, wildcard_match, no_match, dot, star, key_exists, key_matches,
  split_query, find_wildcard, find_location,
}

-- `e` stands behind a dot of `query`.
abbrev pub IsBelow : Text → Text → Type 0
IsBelow e query = (labels : Text) × (labels ++ b'.' ∷ e ≡ query)

module _ (locations : List Text) where
  -- What the program takes for the existence of an encloser.
  abbrev pub encloser_exists : Text → Bool
  encloser_exists e = key_matches locations e || key_exists locations e

  -- No encloser of the query that is longer than `n` exists.
  abbrev pub NoneAbove : ℕ → Text → Type 0
  NoneAbove n query = (e : Text) → IsBelow e query → n < length e → encloser_exists e ≡ false

  -- The closest encloser of a query that exists, and the wildcard below it.
  pub record IsClosest (query e source : Text) : Type 0 where
    pub below : ((IsBelow e query) × (source ≡ star ++ (dot ++ e))) ⊎ ((e ≡ []) × (source ≡ star))
    pub present : encloser_exists e ≡ true
    pub closest : NoneAbove (length e) query

  pub data Outcome (query : Text) : Text × Match → Type 0 where
    synthesised :
        (e source : Text)
        → IsClosest query e source
        → key_exists locations source ≡ true
        → Outcome query (source, wildcard_match)
    denied :
        (e source : Text)
        → IsClosest query e source
        → key_exists locations source ≡ false
        → Outcome query ([], no_match)
    missing :
        ((e : Text) → IsBelow e query → encloser_exists e ≡ false)
        → (query ≡ []) ⊎ (encloser_exists [] ≡ false)
        → Outcome query ([], no_match)

  module _ (query l b : Text) (plain : All (λ c. c ≢ b'.') l) (joined : l ++ b'.' ∷ b ≡ query) where
    IsBelow-extend : (e : Text) → IsBelow e b → IsBelow e query
    IsBelow-extend e (labels, same) = (
      l ++ b'.' ∷ labels,
      append_assoc l (b'.' ∷ labels) (b'.' ∷ e) ∙ ap (λ (r : Text). l ++ b'.' ∷ r) same ∙ joined,
    )

    NoneAbove-extend : (n : ℕ) → encloser_exists b ≡ false → NoneAbove n b → NoneAbove n query
    NoneAbove-extend n absent h e (labels, same) longer =
        elim (separator_cases b'.' l b labels e plain (same ∙ sym joined)) [
          | inl equal ↦ rw equal absent
          | inr below ↦ h e below longer
        ]

    NoneAbove-first : NoneAbove (length b) query
    NoneAbove-first e (labels, same) longer =
        elim (separator_cases b'.' l b labels e plain (same ∙ sym joined)) [
          | inl equal ↦ absurd (omega (arith, ap length equal))
          | inr (rest, deeper) ↦
              absurd (omega (arith, ap length deeper, length-append rest (b'.' ∷ e)))
        ]

    IsClosest-extend :
        (e source : Text)
        → encloser_exists b ≡ false
        → IsClosest b e source
        → IsClosest query e source
    IsClosest-extend e source absent c = record {
      below = elim c.below [
        | inl (under, same) ↦ inl (IsBelow-extend e under, same)
        | inr root ↦ inr root
      ];
      present = c.present;
      closest = NoneAbove-extend (length e) absent c.closest;
    }

    all_missing :
        encloser_exists b ≡ false
        → ((e : Text) → IsBelow e b → encloser_exists e ≡ false)
        → (e : Text) → IsBelow e query
        → encloser_exists e ≡ false
    all_missing absent h e (labels, same) =
        elim (separator_cases b'.' l b labels e plain (same ∙ sym joined)) [
          | inl equal ↦ rw equal absent
          | inr below ↦ h e below
        ]

    root_missing :
        encloser_exists b ≡ false
        → (b ≡ []) ⊎ (encloser_exists [] ≡ false)
        → encloser_exists [] ≡ false
    root_missing absent (inl empty) = rw (← empty) absent
    root_missing absent (inr h) = h

    -- The outcome for the query from the one for its first encloser, which does not exist.
    Outcome-extend :
        (found : Text × Match) → encloser_exists b ≡ false → Outcome b found → Outcome query found
    Outcome-extend found absent (synthesised e source c h) =
        synthesised e source (IsClosest-extend e source absent c) h
    Outcome-extend found absent (denied e source c h) =
        denied e source (IsClosest-extend e source absent c) h
    Outcome-extend found absent (missing h root) =
        missing (all_missing absent h) (inr (root_missing absent root))

  -- The result of a round whose encloser exists.
  Outcome-present :
      (query e source : Text)
      → IsClosest query e source
      → Outcome query
          (if key_exists locations source then (source, wildcard_match) else ([], no_match))
  Outcome-present query e source c = elim (Bool-cases (key_exists locations source)) [
    | inl found ↦ rw found (synthesised e source c found)
    | inr absent ↦ rw absent (denied e source c absent)
  ]

  dot_inside : (labels e : Text) → ¬ All (λ c. c ≢ b'.') (labels ++ b'.' ∷ e)
  dot_inside [] e h = h.0 refl
  dot_inside (c ∷ labels) e h = dot_inside labels e h.1

  no_dots : (query e : Text) → All (λ c. c ≢ b'.') query → ¬ IsBelow e query
  no_dots query e plain (labels, same) =
      dot_inside labels e (subst (All (λ c. c ≢ b'.')) (sym same) plain)

  find_wildcard-Outcome :
      (fuel : ℕ) (query : Text)
      → length query ≤ fuel
      → (found : Text × Match) × (find_wildcard locations fuel (split_query query) ≡ some found)
        × Outcome query found
  unfolding find_wildcard split_query
  find_wildcard-Outcome fuel [] h =
      (([], no_match), refl, missing (λ e under. absurd (no_dots [] e tt under)) (inl refl))
  find_wildcard-Outcome zero (c ∷ query) h = absurd (omega arith)
  find_wildcard-Outcome (suc fuel) (c ∷ query) h =
      elim (Option-cases (split_after b'.' (c ∷ query))) [
        | inl whole ↦
            rw whole
              (undotted (split_after-none b'.' (c ∷ query) whole) (Bool-cases (encloser_exists [])))
        | inr ((a, b), split) ↦
            let (l, plain, joined) = split_after_parts b'.' (c ∷ query) a b split in
            let shorter = length-split_after b'.' (c ∷ query) a b split in
            rw split (
              dotted l b plain joined (find_wildcard-Outcome fuel b (omega (arith, shorter)))
                (Bool-cases (encloser_exists b)))
      ]
    where
      undotted :
          All (λ c. c ≢ b'.') (c ∷ query)
          → (encloser_exists [] ≡ true) ⊎ (encloser_exists [] ≡ false)
          → (found : Text × Match) × ((if encloser_exists []
                then some
                    (if key_exists locations star then (star, wildcard_match) else ([], no_match))
                else find_wildcard locations fuel none)
              ≡ some found)
            × Outcome (c ∷ query) found
      undotted plain (inl present) = rw present (
        _,
        refl,
        Outcome-present (c ∷ query) [] star (record {
          below = inr (refl, refl);
          present = present;
          closest = λ e under longer. absurd (no_dots (c ∷ query) e plain under);
        }),
      )
      undotted plain (inr absent) = rw absent (
        ([], no_match),
        refl,
        missing (λ e under. absurd (no_dots (c ∷ query) e plain under)) (inr absent),
      )

      dotted :
          (l b : Text)
          → All (λ c. c ≢ b'.') l
          → l ++ b'.' ∷ b ≡ c ∷ query
          → (found : Text × Match) × (find_wildcard locations fuel (split_query b) ≡ some found)
            × Outcome b found
          → (encloser_exists b ≡ true) ⊎ (encloser_exists b ≡ false)
          → (found : Text × Match) × ((if encloser_exists b
                then some (
                    if key_exists locations (star ++ (dot ++ b))
                    then (star ++ (dot ++ b), wildcard_match)
                    else ([], no_match))
                else find_wildcard locations fuel (split_query b))
              ≡ some found)
            × Outcome (c ∷ query) found
      dotted l b plain joined next (inl present) = rw present (
        _,
        refl,
        Outcome-present (c ∷ query) b (star ++ (dot ++ b)) (record {
          below = inl ((l, joined), refl);
          present = present;
          closest = NoneAbove-first (c ∷ query) l b plain joined;
        }),
      )
      dotted l b plain joined (found, e, o) (inr absent) =
          rw absent (found, e, Outcome-extend (c ∷ query) l b plain joined found absent o)

-- The three ways in which a query is answered; its label is what stands before the zone's name.
pub data Located (z : Zone) (query : Text) : Text × Match → Type 0 where
  apex : query ≡ z.name → Located z query (query, exact_match)
  listed :
      query ≢ z.name
      → key_exists z.locations (trim_suffix query (dot ++ z.name)) ≡ true
      → Located z query (trim_suffix query (dot ++ z.name), exact_match)
  enclosed :
      {found : Text × Match}
      → query ≢ z.name
      → key_exists z.locations (trim_suffix query (dot ++ z.name)) ≡ false
      → Outcome z.locations (trim_suffix query (dot ++ z.name)) found
      → Located z query found

-- FindLocation ends for every zone and query. It finds the apex, else a location that is listed, else
-- it goes by the closest encloser that exists: the wildcard below it if that is listed, and no match
-- if it is not, or if no encloser exists.
pub find_location_lem :
    (z : Zone) (query : Text)
    → (found : Text × Match) × (find_location z query ≡ some found) × Located z query found
unfolding find_location
find_location_lem z query = elim (Bool-cases (text_eq query z.name)) [
  | inl same ↦ rw same ((query, exact_match), refl, apex ((text_eq_iff query z.name).0 same))
  | inr differ ↦ rw differ (
      by_label (λ e. false≢true (sym differ ∙ (text_eq_iff query z.name).1 e))
        (Bool-cases (key_exists z.locations label)))
]
  where
    label : Text
    label = trim_suffix query (dot ++ z.name)

    by_label :
        query ≢ z.name
        → (key_exists z.locations label ≡ true) ⊎ (key_exists z.locations label ≡ false)
        → (found : Text × Match) × ((if key_exists z.locations label
              then some (label, exact_match)
              else find_wildcard z.locations (length label) (split_query label))
            ≡ some found)
          × Located z query found
    by_label ne (inl present) = rw present ((label, exact_match), refl, listed ne present)
    by_label ne (inr absent) =
        let (found, e, o) = find_wildcard-Outcome z.locations (length label) label (omega arith) in
        rw absent (found, e, enclosed ne absent o)
