-- ===== src/Answers/Chunks.antt =====
-- handler/handler.go: the chunks of a text record, and the bounds of a ttl.
use redins.Prelude.{
  ltb, leb, Bool-cases, ℤ, pos, negsuc, length, take, drop, take-append-drop, length-take,
  length-drop, All, Text, ℕ, zero, suc, ◌+◌, ◌-◌, ◌/◌, ◌^◌, ◌≤◌, ◌<◌, ◌≡◌, refl, sym, ap, ◌∙◌, ◌≢◌,
  inl, inr, some, List, [], ◌∷◌, ◌++◌, arith,
}
use mathlib.Core.List.{append-nil}
use native.Mathlib.Numerals.{unary_clauses}
use redins.Answers.{to_uint32, get_ttl, split_from, split255}

-- The texts of a list joined.
abbrev pub joined : List Text → Text
joined [] = []
joined (s ∷ ss) = s ++ joined ss

abbrev IsShort : Text → Type 0
IsShort c = length c ≤ 255

to_uint32-lt : (z : ℤ) → to_uint32 z < 2 ^ 32
unfolding to_uint32
to_uint32-lt (pos n) = omega arith
to_uint32-lt (negsuc n) = omega arith

-- A ttl is 32 bits wide; the answer's is at most the configured one, where that is not 0 as an uint32,
-- and then not 0; it is the record's own if no limit is configured, or if it is not 0 and not above it.
pub get_ttl_lem :
    (max_ttl : ℤ) (ttl : ℕ)
    → ttl < 2 ^ 32
    → (get_ttl max_ttl ttl < 2 ^ 32)
      × (to_uint32 max_ttl ≢ 0
          → (get_ttl max_ttl ttl ≤ to_uint32 max_ttl)
            × (0 < get_ttl max_ttl ttl)
            × (ttl ≢ 0 → ttl ≤ to_uint32 max_ttl → get_ttl max_ttl ttl ≡ ttl))
      × (to_uint32 max_ttl ≡ 0 → get_ttl max_ttl ttl ≡ ttl)
unfolding get_ttl
get_ttl_lem max_ttl ttl h = ground (arith, to_uint32-lt max_ttl)

drop-drop : (m n : ℕ) (s : Text) → drop n (drop m s) ≡ drop (m + n) s
drop-drop zero n s = ap (λ (k : ℕ). drop k s) (omega arith)
drop-drop (suc m) zero [] = simp unary_clauses refl
drop-drop (suc m) (suc n) [] = simp unary_clauses refl
drop-drop (suc m) n (c ∷ s) =
    let e : suc (m + n) ≡ suc m + n = omega arith in
    drop-drop m n s ∙ ap (λ (k : ℕ). drop k (c ∷ s)) e

module _ (s : Text) where
  split_from_lem :
      (fuel p : ℕ)
      → p ≤ length s
      → length s < p + fuel
      → (chunks : List Text) × (split_from fuel s p ≡ some chunks)
        × (joined chunks ≡ drop p s)
        × All IsShort chunks
        × (length chunks ≡ (length s - p) / 255 + 1)
  unfolding split_from
  split_from_lem zero p h k = absurd (omega arith)
  split_from_lem (suc fuel) p h k = elim (Bool-cases (leb (p + 255) (length s))) [
    | inl long ↦
        let more : p + 255 ≤ length s = ground arith in
        let (chunks, e, whole, short, count) = split_from_lem fuel (p + 255) more (omega arith) in
        rw (long, e)
          (
            take 255 (drop p s) ∷ chunks,
            refl,
            ap (λ (r : Text). take 255 (drop p s) ++ r) (whole ∙ sym (drop-drop p 255 s))
                ∙ take-append-drop 255 (drop p s),
            (omega (arith, length-take 255 (drop p s)), short),
            omega (arith, count),
          )
    | inr last ↦
        let less : length s < p + 255 = ground arith in
        rw last (
          drop p s ∷ [],
          refl,
          append-nil (drop p s),
          (omega (arith, length-drop p s), tt),
          omega arith,
        )
  ]

-- split255 ends for every text. Its chunks joined are the text, none is longer than 255 bytes, and
-- there is one more of them than whole 255 bytes, so that a text of exactly 255 bytes has an empty
-- chunk behind it.
pub split255_lem :
    (s : Text)
    → (chunks : List Text) × (split255 s ≡ some chunks)
      × (joined chunks ≡ s)
      × All (λ c. length c ≤ 255) chunks
      × (length chunks ≡ length s / 255 + 1)
unfolding split255
split255_lem s = elim (Bool-cases (ltb (length s) 255)) [
  | inl short ↦
      let less : length s < 255 = ground arith in
      rw short (s ∷ [], refl, append-nil s, (omega arith, tt), omega arith)
  | inr long ↦
      let (chunks, e, whole, short, count) =
        split_from_lem s (suc (length s)) 0 (omega arith) (omega arith) in
      rw long (chunks, e, whole, short, omega (arith, count))
]
