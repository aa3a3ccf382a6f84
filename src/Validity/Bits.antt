-- ===== src/Validity/Bits.antt =====
-- The bits of a word, by recursion on the position.
use native.Mathlib.Nat.{div-div-eq-div-mul, div-eq_of_lt, pow-suc, mul_comm}
use native.Mathlib.Decide.{dec_lt}
use duck_tiny_cc.Prelude.{
  ltb, ◌==◌, if◌then◌else◌, Bool-cases, zero-==-suc, suc-==-suc, ℕ, zero, suc, ◌+◌, ◌-◌, ◌*◌, ◌/◌,
  ◌%◌, ◌^◌, ◌≤◌, ◌<◌, ◌≡◌, sym, ap, ◌∙◌, inl, inr, true, false, arith,
}
use duck_tiny_cc.Validity.{bit_at, set_bit, clear_bit}

pow_two : (k : ℕ) → 2 ^ suc k ≡ 2 * 2 ^ k
pow_two k = pow-suc 2 k ∙ mul_comm (2 ^ k) 2

pow_pos : (k : ℕ) → 0 < 2 ^ k
pow_pos zero = omega arith
pow_pos (suc k) = omega (arith, pow_two k, pow_pos k)

half : (k word : ℕ) → word / 2 ^ suc k ≡ word / 2 / 2 ^ k
half k word = rw (pow_two k) (sym (div-div-eq-div-mul word 2 (2 ^ k)))

pub bit_at-zero : (word : ℕ) → bit_at 0 word ≡ (word % 2 == 1)
unfolding bit_at
bit_at-zero word = ground arith

pub bit_at-suc : (k word : ℕ) → bit_at (suc k) word ≡ bit_at k (word / 2)
unfolding bit_at
bit_at-suc k word = rw half

pub set_bit-zero : (word : ℕ) → set_bit 0 word ≡ word / 2 * 2 + 1
unfolding set_bit
set_bit-zero word = ground arith

pub set_bit-suc : (k word : ℕ) → set_bit (suc k) word ≡ word % 2 + 2 * set_bit k (word / 2)
unfolding set_bit
set_bit-suc k word = ground (arith, half k word, pow_two k)

pub clear_bit-zero : (word : ℕ) → clear_bit 0 word ≡ word / 2 * 2
unfolding clear_bit
clear_bit-zero word = ground arith

bit_le : (k word : ℕ) → bit_at k word ≡ true → 2 ^ k ≤ word
unfolding bit_at
bit_le k word h = elim (dec_lt word (2 ^ k)) [
  | yes lt ↦ cc (rw (div-eq_of_lt lt) at h)
  | no ge ↦ omega arith
]

pub clear_bit-suc : (k word : ℕ) → clear_bit (suc k) word ≡ word % 2 + 2 * clear_bit k (word / 2)
unfolding clear_bit
clear_bit-suc k word = elim (Bool-cases (bit_at k (word / 2))) [
  | inl y ↦ rw (bit_at-suc k word, y) (omega (arith, pow_two k, bit_le k (word / 2) y))
  | inr z ↦ rw (bit_at-suc k word, z) (omega arith)
]

-- A digit below a word: what `bit_at-suc` reads of the two forms above.
high_digits : (low rest : ℕ) → low < 2 → (low + 2 * rest) / 2 ≡ rest
high_digits low rest h = omega arith

-- A word made of a digit and a rest.
bit_at-digits : (j low rest : ℕ) → low < 2 → bit_at (suc j) (low + 2 * rest) ≡ bit_at j rest
bit_at-digits j low rest h = bit_at-suc j (low + 2 * rest) ∙ ap (bit_at j) (high_digits low rest h)

pub bit_at-set_bit :
    (k j word : ℕ) → bit_at j (set_bit k word) ≡ (if k == j then true else bit_at j word)
bit_at-set_bit zero zero word = rw (set_bit-zero, bit_at-zero (word / 2 * 2 + 1)) (ground arith)
bit_at-set_bit zero (suc j) word =
    rw (set_bit-zero, zero-==-suc, bit_at-suc j (word / 2 * 2 + 1), bit_at-suc j word)
      (ap (bit_at j) (omega arith))
bit_at-set_bit (suc k) zero word =
    rw (set_bit-suc, bit_at-zero (word % 2 + 2 * set_bit k (word / 2)), bit_at-zero word)
      (ground arith)
bit_at-set_bit (suc k) (suc j) word =
    rw (set_bit-suc, suc-==-suc, bit_at-suc j word)
      (bit_at-digits j (word % 2) (set_bit k (word / 2)) (omega arith)
        ∙ bit_at-set_bit k j (word / 2))

pub bit_at-clear_bit :
    (k j word : ℕ) → bit_at j (clear_bit k word) ≡ (if k == j then false else bit_at j word)
bit_at-clear_bit zero zero word = rw (clear_bit-zero, bit_at-zero (word / 2 * 2)) (ground arith)
bit_at-clear_bit zero (suc j) word =
    rw (clear_bit-zero, zero-==-suc, bit_at-suc j (word / 2 * 2), bit_at-suc j word)
      (ap (bit_at j) (omega arith))
bit_at-clear_bit (suc k) zero word =
    rw (clear_bit-suc, bit_at-zero (word % 2 + 2 * clear_bit k (word / 2)), bit_at-zero word)
      (ground arith)
bit_at-clear_bit (suc k) (suc j) word =
    rw (clear_bit-suc, suc-==-suc, bit_at-suc j word)
      (bit_at-digits j (word % 2) (clear_bit k (word / 2)) (omega arith)
        ∙ bit_at-clear_bit k j (word / 2))

-- A word of `n` bits stays one.
pub set_bit-lt : (n k word : ℕ) → k < n → word < 2 ^ n → set_bit k word < 2 ^ n
set_bit-lt zero k word h lt = absurd (omega arith)
set_bit-lt (suc n) zero word h lt = rw set_bit-zero (omega (arith, pow_two n))
set_bit-lt (suc n) (suc k) word h lt =
    rw set_bit-suc
      (omega (arith, pow_two n, set_bit-lt n k (word / 2) (omega arith) (omega (arith, pow_two n))))

pub clear_bit-le : (k word : ℕ) → clear_bit k word ≤ word
unfolding clear_bit
clear_bit-le k word = ground arith

-- The low `n` bits set: (1 << n) - 1.
pub bit_at_ones : (n j : ℕ) → bit_at j (2 ^ n - 1) ≡ ltb j n
bit_at_ones zero zero = rw bit_at-zero
bit_at_ones zero (suc j) = rw bit_at-suc (bit_at_ones zero j ∙ ground arith)
bit_at_ones (suc n) zero = rw bit_at-zero (ground (arith, pow_two n, pow_pos n))
bit_at_ones (suc n) (suc j) =
    rw bit_at-suc
      (ap (bit_at j) (omega (arith, pow_two n, pow_pos n)) ∙ bit_at_ones n j ∙ ground arith)

pub bit_at_none : (j : ℕ) → bit_at j 0 ≡ false
bit_at_none j = bit_at_ones 0 j ∙ ground arith
