-- ===== src/Growth.antt =====
-- The growable arrays of src/tcc_module.c: how each `*_reserve` function chooses a new capacity.
-- `idx_t`, `size_t` and `uint64_t` are 64 bits wide, so every product is taken modulo 2 ^ 64.
-- Copying the items over is not modelled here: the arrays are lists in the modules that hold them.
-- A loop takes fuel; `hangs` is the loop that has not ended when the fuel is used up.
pub mod Bounds
pub mod Requests
mod Tests
use duck_tiny_cc.Prelude.{
  ltb, leb, ◌==◌, if◌then◌else◌, ℕ, zero, suc, ◌-◌, ◌*◌, ◌/◌, ◌%◌, ◌^◌, Bool,
}

abbrev pub u64 : ℕ → ℕ
u64 n = n % 2 ^ 64

abbrev pub u64_max : ℕ
u64_max = 2 ^ 64 - 1

-- The end of a `while (new_capacity < wanted)` loop.
pub data Grown : Type 0 where
  grown : ℕ → Grown
  refused : Grown
  endless : Grown

-- The result of a `*_reserve` function: the new capacity, or `return false`.
pub data Reserved : Type 0 where
  reserved : ℕ → Reserved
  failed : Reserved
  hangs : Reserved

-- while (cap < wanted) { if (cap > limit) return false; cap *= 2; }
unfoldable pub grow_within : ℕ → ℕ → ℕ → ℕ → Grown
grow_within zero limit wanted cap = endless
grow_within (suc fuel) limit wanted cap =
    let rest = grow_within fuel limit wanted (u64 (cap * 2)) in
    if ltb cap wanted then (if ltb limit cap then refused else rest) else grown cap

-- while (cap < wanted) { cap *= 2; }
unfoldable pub grow : ℕ → ℕ → ℕ → Grown
grow zero wanted cap = endless
grow (suc fuel) wanted cap =
    let rest = grow fuel wanted (u64 (cap * 2)) in if ltb cap wanted then rest else grown cap

-- A capacity starts at 1 or more and doubles, so 65 rounds pass 2 ^ 64.
abbrev pub rounds : ℕ
rounds = 65

-- The answer of `duckdb_malloc` to a request of that many bytes: false for NULL.
abbrev pub Malloc : Type 0
Malloc = ℕ → Bool

-- The allocation behind a loop, for items of `item` bytes.
abbrev pub allocate : Malloc → ℕ → Grown → Reserved
allocate malloc item (grown cap) = if malloc (u64 (item * cap)) then reserved cap else failed
allocate malloc item refused = failed
allocate malloc item endless = hangs

unfoldable pub ptr_registry_reserve : Malloc → ℕ → ℕ → Reserved
ptr_registry_reserve malloc capacity wanted =
    if leb wanted capacity
    then reserved capacity
    else allocate malloc 32
        (grow_within rounds (u64_max / 2) wanted (if capacity == 0 then 16 else u64 (capacity * 2)))

unfoldable pub text_buf_reserve : Malloc → ℕ → ℕ → Reserved
text_buf_reserve malloc capacity wanted =
    if leb wanted capacity
    then reserved capacity
    else allocate malloc 1
        (grow_within rounds (u64_max / 2) wanted (if capacity == 0 then 256 else capacity))

unfoldable pub c_field_list_reserve : Malloc → ℕ → ℕ → Reserved
c_field_list_reserve malloc capacity wanted =
    if leb wanted capacity
    then reserved capacity
    else allocate malloc 32
        (grow_within rounds (u64_max / (32 * 2)) wanted (if capacity == 0 then 8 else capacity))

unfoldable pub helper_binding_list_reserve : Malloc → ℕ → ℕ → Reserved
helper_binding_list_reserve malloc capacity wanted =
    if leb wanted capacity
    then reserved capacity
    else allocate malloc 40
        (grow_within rounds (u64_max / (40 * 2)) wanted (if capacity == 0 then 16 else capacity))

unfoldable pub diag_rows_reserve : Malloc → ℕ → ℕ → Reserved
diag_rows_reserve malloc capacity wanted =
    if leb wanted capacity
    then reserved capacity
    else allocate malloc 40 (grow rounds wanted (if capacity == 0 then 16 else u64 (capacity * 2)))

unfoldable pub string_list_reserve : Malloc → ℕ → ℕ → Reserved
string_list_reserve malloc capacity wanted =
    if leb wanted capacity
    then reserved capacity
    else allocate malloc 8 (grow rounds wanted (if capacity == 0 then 8 else u64 (capacity * 2)))

unfoldable pub registry_reserve : Malloc → ℕ → ℕ → Reserved
registry_reserve malloc capacity wanted =
    if leb wanted capacity
    then reserved capacity
    else allocate malloc 32 (grow rounds wanted (if capacity == 0 then 8 else u64 (capacity * 2)))
