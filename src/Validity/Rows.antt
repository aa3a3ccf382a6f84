-- ===== src/Validity/Rows.antt =====
-- What a validity mask says of a row after it is written or filled.
use native.Mathlib.Decide.{ℕ_discrete}
use duck_tiny_cc.Prelude.{
  ltb, ◌==◌, if◌then◌else◌, ltb→lt, Bool-cases, ltb-false→le, length, set, length-append, get_or,
  drop, replicate, length-drop, length-replicate, ℕ, zero, suc, ◌+◌, ◌-◌, ◌/◌, ◌%◌, ◌^◌, ◌≤◌, ◌<◌,
  min, ◌≡◌, refl, ap, ◌∙◌, ◌≢◌, inl, inr, Bool, true, false, ◌&&◌, some, List, [], ◌∷◌, ◌++◌, arith,
}
use duck_tiny_cc.Validity.{
  bit_at, set_bit, clear_bit, valid_is_set, valid_set, fill, validity_set_all,
}
use duck_tiny_cc.Validity.Bits.{bit_at-set_bit, bit_at-clear_bit, bit_at_ones, bit_at_none}

module _ {ℓ} {A : Type ℓ} where
  get_or-set_self : (xs : List A) (i : ℕ) (v d : A) → i < length xs → get_or (set xs i v) i d ≡ v
  get_or-set_self [] i v d h = absurd (omega arith)
  get_or-set_self (x ∷ xs) zero v d h = refl
  get_or-set_self (x ∷ xs) (suc i) v d h = get_or-set_self xs i v d (omega arith)

  get_or-set_ne :
      (xs : List A) (i j : ℕ) (v d : A) → i ≢ j → get_or (set xs i v) j d ≡ get_or xs j d
  get_or-set_ne [] i j v d h = refl
  get_or-set_ne (x ∷ xs) zero zero v d h = absurd (h refl)
  get_or-set_ne (x ∷ xs) zero (suc j) v d h = refl
  get_or-set_ne (x ∷ xs) (suc i) zero v d h = refl
  get_or-set_ne (x ∷ xs) (suc i) (suc j) v d h = get_or-set_ne xs i j v d (λ e. h (ap suc e))

  get_or-replicate : (n i : ℕ) (v d : A) → i < n → get_or (replicate n v) i d ≡ v
  get_or-replicate zero i v d h = absurd (omega arith)
  get_or-replicate (suc n) zero v d h = refl
  get_or-replicate (suc n) (suc i) v d h = get_or-replicate n i v d (omega arith)

  get_or-append_left :
      (xs ys : List A) (i : ℕ) (d : A) → i < length xs → get_or (xs ++ ys) i d ≡ get_or xs i d
  get_or-append_left [] ys i d h = absurd (omega arith)
  get_or-append_left (x ∷ xs) ys zero d h = refl
  get_or-append_left (x ∷ xs) ys (suc i) d h = get_or-append_left xs ys i d (omega arith)

write_bit : Bool → ℕ → ℕ → ℕ
write_bit valid k word = if valid then set_bit k word else clear_bit k word

bit_at-write_bit :
    (valid : Bool) (k j word : ℕ)
    → bit_at j (write_bit valid k word) ≡ (if k == j then valid else bit_at j word)
unfolding write_bit
bit_at-write_bit true k j word = bit_at-set_bit k j word
bit_at-write_bit false k j word = bit_at-clear_bit k j word

words_apart : (i j : ℕ) → i / 64 ≢ j / 64 → (i == j) ≡ false
words_apart i j h = ground arith

-- A write of a row inside the mask changes what the mask says of that row and of no other.
pub valid_is_set-valid_set :
    (words : List ℕ) (i j : ℕ) (valid : Bool)
    → i / 64 < length words
    → valid_is_set (valid_set (some words) i valid) j
      ≡ (if i == j then valid else valid_is_set (some words) j)
unfolding valid_is_set valid_set write_bit
valid_is_set-valid_set words i j valid h = elim (ℕ_discrete (i / 64) (j / 64)) [
  | yes same ↦
      rw
        (
          ← same,
          get_or-set_self words (i / 64)
              (if valid
                then set_bit (i % 64) (get_or words (i / 64) 0)
                else clear_bit (i % 64) (get_or words (i / 64) 0))
              0 h,
        )
        (bit_at-write_bit valid (i % 64) (j % 64) (get_or words (i / 64) 0)
          ∙ ap (λ b. if b then valid else bit_at (j % 64) (get_or words (i / 64) 0)) (ground arith))
  | no other ↦
      rw
        (get_or-set_ne words (i / 64) (j / 64)
          (if valid
            then set_bit (i % 64) (get_or words (i / 64) 0)
            else clear_bit (i % 64) (get_or words (i / 64) 0))
          0 other)
        (rw (words_apart i j other))
]

positive : (n : ℕ) → 0 < n → (n == 0) ≡ false
positive n h = ground arith

get_or-fill :
    (n word i : ℕ) (words : List ℕ)
    → n ≤ length words
    → i < n
    → get_or (fill n word words) i 0 ≡ word
get_or-fill n word i words room h =
    get_or-append_left (replicate (min n (length words)) word) (drop n words) i 0
      (omega (arith, length-replicate (min n (length words)) word))
    ∙ get_or-replicate (min n (length words)) i word 0 (omega arith)

length-fill :
    (n word : ℕ) (words : List ℕ) → n ≤ length words → length (fill n word words) ≡ length words
length-fill n word words room = omega (
  arith,
  length-append (replicate (min n (length words)) word) (drop n words),
  length-replicate (min n (length words)) word,
  length-drop n words,
)

-- The rows of the words that are filled.
inside_words :
    (words : List ℕ) (count j : ℕ) (valid : Bool)
    → 0 < count
    → (count + 63) / 64 ≤ length words
    → j / 64 < (count + 63) / 64
    → valid_is_set (validity_set_all (some words) count valid) j ≡ (valid && ltb j count)
unfolding valid_is_set validity_set_all
inside_words words count j false pos room h =
    rw (positive count pos, get_or-fill ((count + 63) / 64) 0 (j / 64) words room h)
      (bit_at_none (j % 64))
inside_words words count j true pos room h = elim (Bool-cases (ltb 0 (count % 64))) [
  | inr whole ↦
      rw
        (
          positive count pos,
          whole,
          get_or-fill ((count + 63) / 64) (2 ^ 64 - 1) (j / 64) words room h,
        )
        (bit_at_ones 64 (j % 64) ∙ ground arith)
  | inl part ↦ elim (ℕ_discrete ((count + 63) / 64 - 1) (j / 64)) [
    | yes last ↦
        rw
          (
            positive count pos,
            part,
            ← last,
            get_or-set_self (fill ((count + 63) / 64) (2 ^ 64 - 1) words) ((count + 63) / 64 - 1)
                (2 ^ (count % 64) - 1) 0
                (omega (arith, length-fill ((count + 63) / 64) (2 ^ 64 - 1) words room)),
          )
          (bit_at_ones (count % 64) (j % 64) ∙ ground arith)
    | no before ↦
        rw
          (
            positive count pos,
            part,
            get_or-set_ne (fill ((count + 63) / 64) (2 ^ 64 - 1) words) ((count + 63) / 64 - 1)
                (j / 64) (2 ^ (count % 64) - 1) 0 before,
            get_or-fill ((count + 63) / 64) (2 ^ 64 - 1) (j / 64) words room h,
          )
          (bit_at_ones 64 (j % 64) ∙ ground arith)
  ]
]

get_or-replaced :
    (n v i : ℕ) (words : List ℕ)
    → n ≤ length words
    → n ≤ i
    → get_or (replicate n v ++ drop n words) i 0 ≡ get_or words i 0
get_or-replaced zero v i words room h = refl
get_or-replaced (suc n) v i [] room h = absurd (omega arith)
get_or-replaced (suc n) v zero (w ∷ words) room h = absurd (omega arith)
get_or-replaced (suc n) v (suc i) (w ∷ words) room h =
    get_or-replaced n v i words (omega arith) (omega arith)

get_or-fill_beyond :
    (n word i : ℕ) (words : List ℕ)
    → n ≤ length words
    → n ≤ i
    → get_or (fill n word words) i 0 ≡ get_or words i 0
get_or-fill_beyond n word i words room h =
    let m : min n (length words) ≡ n = omega arith in rw m (get_or-replaced n word i words room h)

-- The rows of the words behind.
beyond_words :
    (words : List ℕ) (count j : ℕ) (valid : Bool)
    → 0 < count
    → (count + 63) / 64 ≤ length words
    → (count + 63) / 64 ≤ j / 64
    → valid_is_set (validity_set_all (some words) count valid) j ≡ valid_is_set (some words) j
unfolding valid_is_set validity_set_all
beyond_words words count j false pos room h =
    rw (positive count pos, get_or-fill_beyond ((count + 63) / 64) 0 (j / 64) words room h) refl
beyond_words words count j true pos room h = elim (Bool-cases (ltb 0 (count % 64))) [
  | inr whole ↦
      rw
        (
          positive count pos,
          whole,
          get_or-fill_beyond ((count + 63) / 64) (2 ^ 64 - 1) (j / 64) words room h,
        )
        refl
  | inl part ↦
      rw
        (
          positive count pos,
          part,
          get_or-set_ne (fill ((count + 63) / 64) (2 ^ 64 - 1) words) ((count + 63) / 64 - 1)
              (j / 64) (2 ^ (count % 64) - 1) 0 (λ e. omega (arith, e)),
          get_or-fill_beyond ((count + 63) / 64) (2 ^ 64 - 1) (j / 64) words room h,
        )
        refl
]

-- After the `count` rows of a chunk are set, the rows below `count` are as asked for, the rest of the
-- last word that they touch is invalid, and every row of a later word is as it was.
pub valid_is_set-validity_set_all :
    (words : List ℕ) (count j : ℕ) (valid : Bool)
    → 0 < count
    → (count + 63) / 64 ≤ length words
    → valid_is_set (validity_set_all (some words) count valid) j ≡ (
        if ltb (j / 64) ((count + 63) / 64)
        then valid && ltb j count
        else valid_is_set (some words) j)
valid_is_set-validity_set_all words count j valid pos room =
    elim (Bool-cases (ltb (j / 64) ((count + 63) / 64))) [
      | inl y ↦ rw y (inside_words words count j valid pos room (ltb→lt _ _ y))
      | inr n ↦ rw n (beyond_words words count j valid pos room (ltb-false→le _ _ n))
    ]
