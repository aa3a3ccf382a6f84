-- ===== src/Validity.antt =====
-- Validity masks in src/tcc_module.c: one bit a row, 64 rows to a `uint64_t`, a NULL mask for all
-- valid. The source tests a bit by `word & (1ULL << k)`, sets it by `|=` and clears it by `&= ~`;
-- here the bit is a digit of the word, added or taken away where it changes.
-- A read outside the mask, a fault in C, gives the word 0; a write there is dropped.
pub mod Bits
pub mod Rows
mod Tests
use duck_tiny_cc.Prelude.{
  ltb, ◌==◌, if◌then◌else◌, length, set, get_or, drop, replicate, ℕ, ◌+◌, ◌-◌, ◌/◌, ◌%◌, ◌^◌, min,
  Bool, true, ◌&&◌, Option, none, some, List, ◌++◌,
}

unfoldable pub bit_at : ℕ → ℕ → Bool
bit_at k word = word / 2 ^ k % 2 == 1

unfoldable pub set_bit : ℕ → ℕ → ℕ
unfolding bit_at
set_bit k word = if bit_at k word then word else word + 2 ^ k

unfoldable pub clear_bit : ℕ → ℕ → ℕ
unfolding bit_at
clear_bit k word = if bit_at k word then word - 2 ^ k else word

abbrev pub Mask : Type 0
Mask = Option (List ℕ)

-- ducktinycc_valid_is_set
unfoldable pub valid_is_set : Mask → ℕ → Bool
valid_is_set none idx = true
valid_is_set (some words) idx = bit_at (idx % 64) (get_or words (idx / 64) 0)

-- ducktinycc_valid_set
unfoldable pub valid_set : Mask → ℕ → Bool → Mask
valid_set none idx valid = none
valid_set (some words) idx valid = some (
    set words (idx / 64) (
      if valid
      then set_bit (idx % 64) (get_or words (idx / 64) 0)
      else clear_bit (idx % 64) (get_or words (idx / 64) 0)))

-- The `memset` of the first `n` words.
abbrev pub fill : ℕ → ℕ → List ℕ → List ℕ
fill n word words = replicate (min n (length words)) word ++ drop n words

-- tcc_validity_set_all
unfoldable pub validity_set_all : Mask → ℕ → Bool → Mask
validity_set_all none count valid = none
validity_set_all (some words) count valid =
    if count == 0
    then some words
    else let n = (count + 63) / 64 in
      let filled = fill n (if valid then 2 ^ 64 - 1 else 0) words in
      some
        (if valid && ltb 0 (count % 64) then set filled (n - 1) (2 ^ (count % 64) - 1) else filled)
