-- ===== src/TypeToken/Short.antt =====
-- The parts that a token is taken apart into are shorter than it.
-- What a part owes: it is shorter than the token it is taken from.
use duck_tiny_cc.Prelude.{
  ltb, ◌==◌, ltb→lt, Bool-cases, length, drop, length-drop, ℕ, ◌+◌, ◌-◌, ◌*◌, ◌%◌, ◌^◌, ◌<◌, inl,
  inr, ◌&&◌, Option, none, some, [], ◌∷◌, arith,
}
use duck_tiny_cc.Strings.{Chars, is_digit, last_or, init, split_here, last_split}
use duck_tiny_cc.Strings.Laws.{length-init, length-trim}
use duck_tiny_cc.TypeToken.{
  read_size, fits_child, usable_size, with_size, sized_part, array_part, suffix_part, list_part,
}

abbrev pub ShortPart : Chars → Option (Chars × ℕ) → Type 0
ShortPart token none = Unit {0}
ShortPart token (some (child, n)) = (length child < length token) × (0 < n) × (n < 2 ^ 64)

abbrev pub ShortSuffix : Chars → Option Chars → Type 0
ShortSuffix token none = Unit {0}
ShortSuffix token (some child) = length child < length token

pub length-list_part : (c : ℕ) (s : Chars) → length (list_part (c ∷ s)) < length (c ∷ s)
length-list_part c s =
    omega (
      arith,
      length-trim (drop 5 (init (c ∷ s))),
      length-drop 5 (init (c ∷ s)),
      length-init (c ∷ s),
    )

abbrev pub SplitFits : Chars → Option (Chars × Chars) → Type 0
SplitFits s none = Unit {0}
SplitFits s (some (a, b)) = length a + length b < length s

pub last_split-SplitFits : (c : ℕ) (s : Chars) → SplitFits s (last_split c s)
unfolding last_split
last_split-SplitFits c [] = tt
last_split-SplitFits c (d ∷ s) = here (last_split c s) (last_split-SplitFits c s)
  where
    here : (o : Option (Chars × Chars)) → SplitFits s o → SplitFits (d ∷ s) (split_here c d s o)
    here none h = elim (Bool-cases (d == c)) [ inl y ↦ rw y (omega arith) | inr n ↦ rw n tt ]
    here (some (a, b)) h = omega (arith, h)

abbrev SmallSize : Option ℕ → Type 0
SmallSize none = Unit {0}
SmallSize (some n) = n < 2 ^ 64

read_size-SmallSize : (n : ℕ) (s : Chars) → n < 2 ^ 64 → SmallSize (read_size n s)
unfolding read_size
read_size-SmallSize n [] h = h
read_size-SmallSize n (c ∷ s) h = elim (Bool-cases (is_digit c)) [
  | inl y ↦ rw y (read_size-SmallSize ((n * 10 + (c - 48)) % 2 ^ 64) s (omega arith))
  | inr z ↦ rw z tt
]

with_size-ShortPart :
    (token child : Chars) (o : Option ℕ)
    → length child < length token
    → SmallSize o
    → ShortPart token (with_size child (usable_size o))
with_size-ShortPart token child none h k = tt
with_size-ShortPart token child (some n) h k = elim (Bool-cases (ltb 0 n)) [
  | inr z ↦ rw z tt
  | inl y ↦
      rw y (elim (Bool-cases (fits_child child)) [
        | inl f ↦ rw f (h, ltb→lt 0 n y, k)
        | inr f ↦ rw f tt
      ])
]

sized_part-ShortPart :
    (token : Chars) (o : Option (Chars × Chars))
    → SplitFits token o
    → ShortPart token (sized_part o)
sized_part-ShortPart token none h = tt
sized_part-ShortPart token (some (child, [])) h = tt
sized_part-ShortPart token (some (child, c ∷ s)) h = elim (Bool-cases (c == 93)) [
  | inl y ↦ rw y tt
  | inr n ↦ rw n (
      with_size-ShortPart token child (read_size 0 (init (c ∷ s))) (omega (arith, h))
        (read_size-SmallSize 0 (init (c ∷ s)) (omega arith)))
]

pub array_part-ShortPart : (token : Chars) → ShortPart token (array_part token)
unfolding array_part
array_part-ShortPart token = elim (Bool-cases (ltb 3 (length token) && (last_or 0 token == 93))) [
  | inl y ↦ rw y (sized_part-ShortPart token (last_split 91 token) (last_split-SplitFits 91 token))
  | inr n ↦ rw n tt
]

pub suffix_part-ShortSuffix : (token : Chars) → ShortSuffix token (suffix_part token)
unfolding suffix_part
suffix_part-ShortSuffix token =
    elim (Bool-cases (
      ltb 2 (length token)
      && ((last_or 0 (init token) == 91)
          && ((last_or 0 token == 93) && fits_child (init (init token)))))) [
            | inr n ↦ rw n tt
            | inl y ↦ rw y (
                let h : 2 < length token = ground arith in
                omega (arith, length-init token, length-init (init token)))
          ]
