-- ===== src/Growth/Requests.antt =====
-- What the `*_reserve` functions of src/tcc_module.c that guard against overflow ask `duckdb_malloc` for.
use duck_tiny_cc.Growth.{
  u64, Grown, grown, refused, endless, Reserved, reserved, failed, hangs, grow_within, rounds,
  Malloc, allocate, text_buf_reserve, c_field_list_reserve, helper_binding_list_reserve,
}
use duck_tiny_cc.Prelude.{
  ltb, leb, ◌==◌, if◌then◌else◌, leb→le, Bool-cases, ltb-false→le, ℕ, zero, suc, ◌+◌, ◌*◌, ◌^◌, ◌≤◌,
  ◌<◌, ◌≡◌, refl, ◌⊎◌, inl, inr, true, false, arith,
}
use duck_tiny_cc.Growth.Bounds.{Ends, doubling_fits, Ends-grow_within, enough_rounds}

-- A loop ends with the capacity that it starts with, or with at most twice its limit.
abbrev Within : ℕ → ℕ → Grown → Type 0
Within limit start (grown c) = (c ≡ start) ⊎ (c ≤ 2 * limit)
Within limit start refused = Unit {0}
Within limit start endless = Unit {0}

Within-double : (limit n : ℕ) (g : Grown) → n ≤ limit → Within limit (n * 2) g → Within limit n g
Within-double limit n (grown c) h (inl e) = inr (omega arith)
Within-double limit n (grown c) h (inr e) = inr e
Within-double limit n refused h e = e
Within-double limit n endless h e = e

Within-grow_within :
    (fuel limit wanted n : ℕ) → limit < 2 ^ 63 → Within limit n (grow_within fuel limit wanted n)
unfolding grow_within
Within-grow_within zero limit wanted n high = tt
Within-grow_within (suc fuel) limit wanted n high = elim (Bool-cases (ltb n wanted)) [
  | inr e ↦ rw e (inl refl)
  | inl e ↦ elim (Bool-cases (ltb limit n)) [
    | inl over ↦ rw (e, over) tt
    | inr under ↦
        let h : n ≤ limit = ltb-false→le limit n under in
        rw (e, under, doubling_fits n limit h high)
          (Within-double limit n (grow_within fuel limit wanted (n * 2)) h
            (Within-grow_within fuel limit wanted (n * 2) high))
  ]
]

-- A request for `c` items of `item` bytes that has not wrapped round, for all that are wanted and at
-- most 256 items more than twice as many.
abbrev pub Request : ℕ → ℕ → ℕ → Type 0
Request item wanted c = (wanted ≤ c) × (c < 2 * wanted + 256) × (item * c < 2 ^ 64)

-- What a guarded `*_reserve` function answers: the capacity that it had, where that suffices; one for
-- which it was given exactly the bytes that the items need; or a refusal, for a size that passes
-- 2 ^ 57 or for such a request that was refused. It never loops for ever.
abbrev pub Requests : Malloc → ℕ → ℕ → ℕ → Reserved → Type 0
Requests malloc item capacity wanted (reserved c) =
    ((wanted ≤ capacity) × (c ≡ capacity))
    ⊎ ((capacity < wanted) × Request item wanted c × (malloc (item * c) ≡ true))
Requests malloc item capacity wanted failed =
    (2 ^ 57 < wanted) ⊎ ((c : ℕ) × Request item wanted c × (malloc (item * c) ≡ false))
Requests malloc item capacity wanted hangs = ⊥

-- The allocation, for a capacity that the items do not overflow.
Requests-allocate :
    (malloc : Malloc) (item limit capacity wanted start : ℕ) (g : Grown)
    → capacity < wanted
    → start < wanted + 256
    → ((start < wanted) ⊎ (item * start < 2 ^ 64))
    → ((c : ℕ) → c ≤ 2 * limit → item * c < 2 ^ 64)
    → Ends wanted start g
    → Within limit start g
    → Requests malloc item capacity wanted (allocate malloc item g)
Requests-allocate malloc item limit capacity wanted start (grown c) less near first fits e w =
    asked (bytes e w)
  where
    bytes : Ends wanted start (grown c) → Within limit start (grown c) → item * c < 2 ^ 64
    bytes e (inr w) = fits c w
    bytes (p, q, r, k) (inl w) = elim first [ inl h ↦ absurd (omega arith) | inr h ↦ rw w h ]

    near_enough : Ends wanted start (grown c) → c < 2 * wanted + 256
    near_enough (p, q, r, inl k) = omega arith
    near_enough (p, q, r, inr k) = omega arith

    asked :
        item * c < 2 ^ 64 → Requests malloc item capacity wanted (allocate malloc item (grown c))
    asked b =
        let same : u64 (item * c) ≡ item * c = omega arith in
        let r : Request item wanted c = (e.0, near_enough e, b) in
        elim (Bool-cases (malloc (item * c))) [
          | inl y ↦ rw (same, y) (inr (less, r, y))
          | inr n ↦ rw (same, n) (inr (c, r, n))
        ]
Requests-allocate malloc item limit capacity wanted start refused less near first fits e w = inl e
Requests-allocate malloc item limit capacity wanted start endless less near first fits e w = e

Requests-guarded :
    (malloc : Malloc) (item limit initial capacity wanted : ℕ)
    → capacity < 2 ^ 63
    → 2 ^ 57 ≤ limit
    → limit < 2 ^ 63
    → 0 < initial
    → initial ≤ 256
    → item * initial < 2 ^ 64
    → ((c : ℕ) → c ≤ 2 * limit → item * c < 2 ^ 64)
    → Requests malloc item capacity wanted (
        if leb wanted capacity
        then reserved capacity
        else allocate malloc item
            (grow_within rounds limit wanted (if capacity == 0 then initial else capacity)))
Requests-guarded malloc item limit initial capacity wanted small low high pos near first fits =
    elim (Bool-cases (leb wanted capacity)) [
      | inl y ↦ rw y (inl (leb→le wanted capacity y, refl))
      | inr n ↦
          let less : capacity < wanted = ground arith in
          rw n (elim (Bool-cases (capacity == 0)) [
            | inl z ↦ rw z (from less initial pos (omega arith) (omega arith) (inr first))
            | inr m ↦
                let some_room : 0 < capacity = ground arith in
                rw m (from less capacity some_room (omega arith) (omega arith) (inl less))
          ])
    ]
  where
    from :
        capacity < wanted
        → (start : ℕ) → 0 < start
        → start < 2 ^ 64
        → start < wanted + 256
        → ((start < wanted) ⊎ (item * start < 2 ^ 64))
        → Requests malloc item capacity wanted
            (allocate malloc item (grow_within rounds limit wanted start))
    from less start pos below near first =
        Requests-allocate malloc item limit capacity wanted start _ less near first fits
          (Ends-grow_within rounds limit wanted start below (enough_rounds start pos) low high)
          (Within-grow_within rounds limit wanted start high)

-- For a capacity below 2 ^ 63, the three functions that guard the bytes they ask for end. They keep a
-- capacity that suffices. Otherwise they ask for exactly the bytes of a capacity that holds the
-- wanted items and is at most 256 items larger than twice as many, and that number of bytes has not
-- wrapped round. They return that capacity when `duckdb_malloc` grants this request, and they
-- fail only where it refuses it or where more than 2 ^ 57 items are wanted.
pub reserve-Requests :
    (malloc : Malloc) (capacity wanted : ℕ)
    → capacity < 2 ^ 63
    → Requests malloc 1 capacity wanted (text_buf_reserve malloc capacity wanted)
      × Requests malloc 32 capacity wanted (c_field_list_reserve malloc capacity wanted)
      × Requests malloc 40 capacity wanted (helper_binding_list_reserve malloc capacity wanted)
unfolding text_buf_reserve c_field_list_reserve helper_binding_list_reserve
reserve-Requests malloc capacity wanted small = (
  Requests-guarded malloc 1 _ 256 capacity wanted small (omega arith) (omega arith) (omega arith)
      (omega arith) (omega arith) (λ c h. omega arith),
  Requests-guarded malloc 32 _ 8 capacity wanted small (omega arith) (omega arith) (omega arith)
      (omega arith) (omega arith) (λ c h. omega arith),
  Requests-guarded malloc 40 _ 16 capacity wanted small (omega arith) (omega arith) (omega arith)
      (omega arith) (omega arith) (λ c h. omega arith),
)
