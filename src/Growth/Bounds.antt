-- ===== src/Growth/Bounds.antt =====
-- What the `*_reserve` functions of src/tcc_module.c guarantee of the capacity that they choose.
use mathlib.Core.Path.{subst}
use native.Mathlib.Nat.{mul_assoc, pow-suc, mul_comm}
use duck_tiny_cc.Prelude.{
  ltb, leb, ◌==◌, if◌then◌else◌, ltb→lt, leb→le, tests, Bool-cases, ltb-false→le, ℕ, zero, suc, ◌+◌,
  ◌*◌, ◌^◌, ◌≤◌, ◌<◌, ◌≡◌, ◌⊎◌, inl, inr, false, arith,
}
use duck_tiny_cc.Growth.{
  u64, Grown, grown, refused, endless, Reserved, reserved, failed, hangs, grow_within, rounds,
  Malloc, allocate, ptr_registry_reserve, text_buf_reserve, c_field_list_reserve,
  helper_binding_list_reserve,
}

-- What a loop may end with: a capacity that suffices, that has not wrapped round, and that is the
-- first one or below twice what is wanted.
abbrev pub Ends : ℕ → ℕ → Grown → Type 0
Ends wanted cap (grown c) = (wanted ≤ c) × (cap ≤ c) × (c < 2 ^ 64) × ((c ≡ cap) ⊎ (c < 2 * wanted))
Ends wanted cap refused = 2 ^ 57 < wanted
Ends wanted cap endless = ⊥

Ends-double :
    (wanted cap : ℕ) (g : Grown) → cap < wanted → Ends wanted (cap * 2) g → Ends wanted cap g
Ends-double wanted cap (grown c) h (p, q, r, inl e) = (p, omega arith, r, inr (omega arith))
Ends-double wanted cap (grown c) h (p, q, r, inr e) = (p, omega arith, r, inr e)
Ends-double wanted cap refused h e = e
Ends-double wanted cap endless h e = e

enough_double : (n fuel : ℕ) → 2 ^ 64 ≤ n * 2 ^ suc fuel → 2 ^ 64 ≤ n * 2 * 2 ^ fuel
enough_double n fuel h =
    rw (mul_assoc, mul_comm 2 (2 ^ fuel)) (subst (λ k. 2 ^ 64 ≤ n * k) (pow-suc 2 fuel) h)

pub doubling_fits : (n limit : ℕ) → n ≤ limit → limit < 2 ^ 63 → u64 (n * 2) ≡ n * 2
doubling_fits n limit h high = omega arith

no_rounds_left : (n : ℕ) → n < 2 ^ 64 → 2 ^ 64 ≤ n * 2 ^ 0 → ⊥
no_rounds_left n small enough = omega arith

pub Ends-grow_within :
    (fuel limit wanted n : ℕ)
    → n < 2 ^ 64
    → 2 ^ 64 ≤ n * 2 ^ fuel
    → 2 ^ 57 ≤ limit
    → limit < 2 ^ 63
    → Ends wanted n (grow_within fuel limit wanted n)
unfolding grow_within
Ends-grow_within zero limit wanted n small enough low high = no_rounds_left n small enough
Ends-grow_within (suc fuel) limit wanted n small enough low high =
    elim (Bool-cases (ltb n wanted)) [
      | inr e ↦ rw e (omega (tests, ltb-false→le n wanted e))
      | inl e ↦ elim (Bool-cases (ltb limit n)) [
        | inl over ↦ rw (e, over) (omega (tests, ltb→lt limit n over, ltb→lt n wanted e))
        | inr under ↦
            rw (e, under, doubling_fits n limit (ltb-false→le limit n under) high)
              (Ends-double wanted n (grow_within fuel limit wanted (n * 2)) (ltb→lt n wanted e) (
                Ends-grow_within fuel limit wanted (n * 2)
                  (omega (arith, ltb-false→le limit n under)) (enough_double n fuel enough) low
                  high))
      ]
    ]

-- What a `*_reserve` function owes its caller: room for `wanted` items and no less than before, or
-- a refusal that the size or the allocator explains. It never loops for ever.
abbrev pub Serves : Malloc → ℕ → ℕ → Reserved → Type 0
Serves malloc capacity wanted (reserved c) = (wanted ≤ c) × (capacity ≤ c) × (c < 2 ^ 64)
Serves malloc capacity wanted failed = (2 ^ 57 < wanted) ⊎ ((bytes : ℕ) × (malloc bytes ≡ false))
Serves malloc capacity wanted hangs = ⊥

Serves-allocate :
    (malloc : Malloc) (item capacity wanted start : ℕ) (g : Grown)
    → capacity ≤ start
    → Ends wanted start g
    → Serves malloc capacity wanted (allocate malloc item g)
Serves-allocate malloc item capacity wanted start (grown c) h e =
    elim (Bool-cases (malloc (u64 (item * c)))) [
      | inl y ↦ rw y (omega arith)
      | inr n ↦ rw n (inr (u64 (item * c), n))
    ]
Serves-allocate malloc item capacity wanted start refused h e = inl e
Serves-allocate malloc item capacity wanted start endless h e = e

pub enough_rounds : (n : ℕ) → 0 < n → 2 ^ 64 ≤ n * 2 ^ rounds
enough_rounds n h = omega arith

Serves-grow_within :
    (malloc : Malloc) (item limit capacity wanted start : ℕ)
    → capacity ≤ start
    → 0 < start
    → start < 2 ^ 64
    → 2 ^ 57 ≤ limit
    → limit < 2 ^ 63
    → Serves malloc capacity wanted (allocate malloc item (grow_within rounds limit wanted start))
Serves-grow_within malloc item limit capacity wanted start h pos small low high =
    Serves-allocate malloc item capacity wanted start (grow_within rounds limit wanted start) h
      (Ends-grow_within rounds limit wanted start small (enough_rounds start pos) low high)

-- The early return, and then the loop.
Serves-reserve :
    (malloc : Malloc) (capacity wanted : ℕ) (r : Reserved)
    → capacity < 2 ^ 64
    → Serves malloc capacity wanted r
    → Serves malloc capacity wanted (if leb wanted capacity then reserved capacity else r)
Serves-reserve malloc capacity wanted r small h = elim (Bool-cases (leb wanted capacity)) [
  | inl e ↦ rw e (omega (arith, leb→le wanted capacity e))
  | inr e ↦ rw e h
]

-- The first capacity that a loop tries.
start_bounds :
    (initial capacity : ℕ)
    → 0 < initial
    → initial < 2 ^ 64
    → capacity < 2 ^ 64
    → let start = (if capacity == 0 then initial else capacity) in
      (capacity ≤ start) × (0 < start) × (start < 2 ^ 64)
start_bounds initial capacity h k small = ground arith

double_bounds :
    (initial capacity : ℕ)
    → 0 < initial
    → initial < 2 ^ 64
    → capacity < 2 ^ 63
    → let start = (if capacity == 0 then initial else u64 (capacity * 2)) in
      (capacity ≤ start) × (0 < start) × (start < 2 ^ 64) × (capacity + 1 ≤ start)
double_bounds initial capacity h k small = ground arith

pub reserve-Serves :
    (malloc : Malloc) (capacity wanted : ℕ)
    → capacity < 2 ^ 63
    → Serves malloc capacity wanted (ptr_registry_reserve malloc capacity wanted)
      × Serves malloc capacity wanted (text_buf_reserve malloc capacity wanted)
      × Serves malloc capacity wanted (c_field_list_reserve malloc capacity wanted)
      × Serves malloc capacity wanted (helper_binding_list_reserve malloc capacity wanted)
unfolding ptr_registry_reserve text_buf_reserve c_field_list_reserve helper_binding_list_reserve
reserve-Serves malloc capacity wanted small = (
  (let (a, b, c, d) = double_bounds 16 capacity (omega arith) (omega arith) small in
      guarded _ _ _ (omega arith) (omega arith) a b c),
  (let (a, b, c) = start_bounds 256 capacity (omega arith) (omega arith) (omega arith) in
      guarded _ _ _ (omega arith) (omega arith) a b c),
  (let (a, b, c) = start_bounds 8 capacity (omega arith) (omega arith) (omega arith) in
      guarded _ _ _ (omega arith) (omega arith) a b c),
  (let (a, b, c) = start_bounds 16 capacity (omega arith) (omega arith) (omega arith) in
      guarded _ _ _ (omega arith) (omega arith) a b c),
)
  where
    guarded :
        (item limit start : ℕ)
        → 2 ^ 57 ≤ limit
        → limit < 2 ^ 63
        → capacity ≤ start
        → 0 < start
        → start < 2 ^ 64
        → Serves malloc capacity wanted (
            if leb wanted capacity
            then reserved capacity
            else allocate malloc item (grow_within rounds limit wanted start))
    guarded item limit start low high h pos fits =
        Serves-reserve malloc capacity wanted
          (allocate malloc item (grow_within rounds limit wanted start)) (omega arith)
          (Serves-grow_within malloc item limit capacity wanted start h pos fits low high)
