-- ===== src/Bridge/Spans.antt =====
-- Reads and writes of a span of bytes.
use mathlib.Core.Path.{ap₂}
use duck_tiny_cc.Prelude.{
  ltb, leb, ◌==◌, if◌then◌else◌, length, get_or, take, ℕ, suc, ◌+◌, ◌-◌, ◌^◌, ◌≤◌, ◌<◌, ◌≡◌, refl,
  ap, ◌∙◌, Bool, true, false, ◌&&◌, none, some, List, [], ◌∷◌, arith,
}
use duck_tiny_cc.Bridge.{Bytes, load, put, buf_ptr_at, read_bytes, write_bytes}

abbrev pub within : ℕ → ℕ → ℕ → Bool
within a n q = leb a q && ltb q (a + n)

-- Each address after a write: the byte written there, or the byte that was there.
pub put-at :
    (m : Bytes) (a q : ℕ) (bs : List ℕ)
    → put m a bs q ≡ (if within a (length bs) q then get_or bs (q - a) 0 else m q)
put-at m a q [] = ground arith
put-at m a q (b ∷ bs) = put-at (λ r. if a == r then b else m r) (a + 1) q bs ∙ split
  where
    here : q ≡ a → get_or (b ∷ bs) (q - a) 0 ≡ b
    here e = ap (λ n. get_or (b ∷ bs) n 0) (let z : q - a ≡ 0 = omega arith in z)

    there : a < q → get_or (b ∷ bs) (q - a) 0 ≡ get_or bs (q - (a + 1)) 0
    there h = ap (λ n. get_or (b ∷ bs) n 0) (let e : q - a ≡ suc (q - (a + 1)) = omega arith in e)

    split :
        (if within (a + 1) (length bs) q
          then get_or bs (q - (a + 1)) 0
          else (if a == q then b else m q))
        ≡ (if within a (length (b ∷ bs)) q then get_or (b ∷ bs) (q - a) 0 else m q)
    split = ground (arith, here, there)

load-put_below : (m : Bytes) (a q : ℕ) (bs : List ℕ) → q < a → put m a bs q ≡ m q
load-put_below m a q bs h = put-at m a q bs ∙ ground arith

pub load-put : (m : Bytes) (a : ℕ) (bs : List ℕ) → load (put m a bs) a (length bs) ≡ bs
load-put m a [] = refl
load-put m a (b ∷ bs) =
    ap₂ ◌∷◌
      (load-put_below (λ r. if a == r then b else m r) (a + 1) a bs (omega arith) ∙ ground arith)
      (load-put (λ r. if a == r then b else m r) (a + 1) bs)

-- A span that a buffer in the address space holds.
pub record Fits (base len offset width : ℕ) : Type 0 where
  pub base_pos : 0 < base
  pub in_memory : base + len ≤ 2 ^ 64
  pub some_bytes : 0 < width
  pub inside : offset + width ≤ len

pub buf_ptr_at-Fits :
    (base len offset width : ℕ)
    → Fits base len offset width
    → buf_ptr_at base len offset width ≡ base + offset
unfolding buf_ptr_at
buf_ptr_at-Fits base len offset width f = ground arith

buf_ptr_at-outside :
    (base len offset width : ℕ) → len < offset + width → buf_ptr_at base len offset width ≡ 0
unfolding buf_ptr_at
buf_ptr_at-outside base len offset width f = ground arith

positive : (n : ℕ) → 0 < n → (n == 0) ≡ false
positive n h = ground arith

take-all : (bs : List ℕ) → take (length bs) bs ≡ bs
take-all [] = refl
take-all (b ∷ bs) = ap (◌∷◌ b) (take-all bs)

write_bytes-Fits :
    (m : Bytes) (base len offset : ℕ) (bs : List ℕ)
    → Fits base len offset (length bs)
    → write_bytes m base len offset (some bs) (length bs) ≡ (true, put m (base + offset) bs)
unfolding write_bytes
write_bytes-Fits m base len offset bs f = rw (
  positive (length bs) f.some_bytes,
  buf_ptr_at-Fits base len offset (length bs) f,
  positive (base + offset) (omega (arith, f.base_pos)),
  take-all bs,
)

read_bytes-Fits :
    (m : Bytes) (base len offset width : ℕ)
    → Fits base len offset width
    → read_bytes m base len offset true width ≡ some (load m (base + offset) width)
unfolding read_bytes
read_bytes-Fits m base len offset width f = rw (
  positive width f.some_bytes,
  buf_ptr_at-Fits base len offset width f,
  positive (base + offset) (omega (arith, f.base_pos)),
)

-- Bytes written to a span that the buffer holds are read back from it, each byte of the
-- span is the one written there, and every byte outside it stays.
pub read_bytes-write_bytes :
    (m : Bytes) (base len offset : ℕ) (bs : List ℕ)
    → Fits base len offset (length bs)
    → let (ok, m') = write_bytes m base len offset (some bs) (length bs) in
      (ok ≡ true)
      × (read_bytes m' base len offset true (length bs) ≡ some bs)
      × ((q : ℕ)
          → m' q ≡ (
              if within (base + offset) (length bs) q
              then get_or bs (q - (base + offset)) 0
              else m q))
read_bytes-write_bytes m base len offset bs f = rw (write_bytes-Fits m base len offset bs f) (
  refl,
  read_bytes-Fits (put m (base + offset) bs) base len offset (length bs) f
      ∙ ap some (load-put m (base + offset) bs),
  λ q. put-at m (base + offset) q bs,
)

-- A span that ends past the buffer is neither read nor written, however large the numbers.
pub span_refused :
    (m : Bytes) (base len offset width : ℕ) (bs : List ℕ)
    → 0 < width
    → len < offset + width
    → (read_bytes m base len offset true width ≡ none)
      × (write_bytes m base len offset (some bs) width ≡ (false, m))
unfolding read_bytes write_bytes
span_refused m base len offset width bs pos past =
    rw (positive width pos, buf_ptr_at-outside base len offset width past) (refl, refl)
