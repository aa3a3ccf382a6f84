-- ===== src/PtrRegistry/Scalars.antt =====
-- The SQL functions over the pointer registry in src/tcc_module.c. A chunk is a list of rows; a
-- value is `none` where the row is NULL, by the input's validity mask or in the output's. The rows
-- are handled in order, each on the state that the one before has left.
-- A typed value of `tcc_read_*` and `tcc_write_*` is the list of its bytes in memory.
pub mod Rows
pub mod Chunks
use mathlib.Core.Option
use duck_tiny_cc.Prelude.{
  ◌==◌, if◌then◌else◌, length, ℕ, ◌+◌, Bool, true, Option, none, some, List, [], ◌∷◌, map,
}
use duck_tiny_cc.Growth.{u64, Malloc}
use duck_tiny_cc.PtrRegistry.{Host, alloc, free, get_ptr_size, read, write}

-- A loop over the rows of a chunk.
unfoldable pub each_row {ℓ κ} :
    {A : Type ℓ} {B : Type κ} → (A → Host → B × Host) → List A → Host → List B × Host
each_row f [] s = ([], s)
each_row f (a ∷ rows) s = let (b, t) = f a s in let (bs, u) = each_row f rows t in (b ∷ bs, u)

-- One row of tcc_alloc: the size, and the answer of `malloc` if it comes to that.
unfoldable pub alloc_row : Malloc → Option ℕ × Option ℕ → Host → Option ℕ × Host
alloc_row room (none, block) s = (none, s)
alloc_row room (some size, block) s = alloc block room size s

unfoldable pub alloc_scalar : Malloc → List (Option ℕ × Option ℕ) → Host → List (Option ℕ) × Host
unfolding each_row alloc_row
alloc_scalar room rows s = each_row (alloc_row room) rows s

unfoldable pub free_row : Option ℕ → Host → Option Bool × Host
free_row none s = (none, s)
free_row (some h) s = let (answer, t) = free h s in (some answer, t)

unfoldable pub free_ptr_scalar : List (Option ℕ) → Host → List (Option Bool) × Host
unfolding each_row free_row
free_ptr_scalar rows s = each_row free_row rows s

unfoldable pub dataptr_row : Host → Option ℕ → Option ℕ
dataptr_row s none = none
dataptr_row s (some h) = Option.map (λ r. r.0) (get_ptr_size h s)

unfoldable pub dataptr_scalar : List (Option ℕ) → Host → List (Option ℕ)
unfolding dataptr_row
dataptr_scalar rows s = map (dataptr_row s) rows

unfoldable pub ptr_size_row : Host → Option ℕ → Option ℕ
ptr_size_row s none = none
ptr_size_row s (some h) = Option.map (λ r. r.1) (get_ptr_size h s)

unfoldable pub ptr_size_scalar : List (Option ℕ) → Host → List (Option ℕ)
unfolding ptr_size_row
ptr_size_scalar rows s = map (ptr_size_row s) rows

-- addr = base[row]; addr += off[row]; an address has 64 bits.
unfoldable pub ptr_add_row : Option ℕ × Option ℕ → Option ℕ
ptr_add_row (none, off) = none
ptr_add_row (some base, none) = none
ptr_add_row (some base, some off) = some (u64 (base + off))

unfoldable pub ptr_add_scalar : List (Option ℕ × Option ℕ) → List (Option ℕ)
unfolding ptr_add_row
ptr_add_scalar rows = map ptr_add_row rows

-- tcc_read_i8 to tcc_read_f64, by the width of the C type
unfoldable pub read_row : ℕ → Host → Option ℕ × Option ℕ → Option (List ℕ)
read_row width s (none, off) = none
read_row width s (some h, none) = none
read_row width s (some h, some off) = read h off width s

unfoldable pub read_scalar : ℕ → List (Option ℕ × Option ℕ) → Host → List (Option (List ℕ))
unfolding read_row
read_scalar width rows s = map (read_row width s) rows

-- tcc_write_i8 to tcc_write_f64; a value has rows many bytes rows its type.
unfoldable pub write_row : Option ℕ × Option ℕ × Option (List ℕ) → Host → Option Bool × Host
write_row (none, off, value) s = (none, s)
write_row (some h, none, value) s = (none, s)
write_row (some h, some off, none) s = (none, s)
write_row (some h, some off, some bytes) s =
    let (answer, t) = write h off bytes s in (some answer, t)

unfoldable pub write_scalar :
    List (Option ℕ × Option ℕ × Option (List ℕ)) → Host → List (Option Bool) × Host
unfolding each_row write_row
write_scalar rows s = each_row write_row rows s

-- `room` is the answer of `duckdb_malloc` for the buffer; a refusal sets an error and gives NULL.
unfoldable pub read_bytes_row : Malloc → Host → Option ℕ × Option ℕ × Option ℕ → Option (List ℕ)
read_bytes_row room s (none, off, width) = none
read_bytes_row room s (some h, none, width) = none
read_bytes_row room s (some h, some off, none) = none
read_bytes_row room s (some h, some off, some width) =
    if width == 0 then some [] else if room width then read h off width s else none

unfoldable pub read_bytes_scalar :
    Malloc → List (Option ℕ × Option ℕ × Option ℕ) → Host → List (Option (List ℕ))
unfolding read_bytes_row
read_bytes_scalar room rows s = map (read_bytes_row room s) rows

unfoldable pub write_bytes_row : Option ℕ × Option ℕ × Option (List ℕ) → Host → Option Bool × Host
write_bytes_row (none, off, blob) s = (none, s)
write_bytes_row (some h, none, blob) s = (none, s)
write_bytes_row (some h, some off, none) s = (none, s)
write_bytes_row (some h, some off, some blob) s =
    if length blob == 0
    then (some true, s)
    else let (answer, t) = write h off blob s in (some answer, t)

unfoldable pub write_bytes_scalar :
    List (Option ℕ × Option ℕ × Option (List ℕ)) → Host → List (Option Bool) × Host
unfolding each_row write_bytes_row
write_bytes_scalar rows s = each_row write_bytes_row rows s
