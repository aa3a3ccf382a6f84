-- ===== src/PtrRegistry.antt =====
-- The pointer registry of src/tcc_module.c: handles for allocations that SQL may free, read and
-- write. The functions run under the registry's spin lock, so each is one step; what C returns
-- through a pointer stands beside the new state, and `none` is `return false`.
-- `entries` holds the slots below `count`; the slots above are zero and never read.
-- The registry is not NULL: the SQL functions check it first (PtrRegistry/Scalars).
-- A size is a `size_t` of 64 bits, so the test `size > SIZE_MAX` never holds and has no branch.
pub mod Swap
pub mod Sound
pub mod View
pub mod Life
pub mod Release
pub mod Alloc
pub mod Access
pub mod Calls
pub mod Destroy
pub mod Scalars
mod Tests
use duck_tiny_cc.Prelude.{
  ltb, leb, ◌==◌, if◌then◌else◌, length, set, get_or, take, replicate, slice, splice, ℕ, suc, ◌+◌,
  ◌-◌, ◌%◌, ◌^◌, Bool, true, false, not, ◌&&◌, ◌||◌, Option, none, some, List, [], ◌∷◌, ◌++◌,
}
use mathlib.Core.Option
use duck_tiny_cc.Growth.{u64, reserved, failed, hangs, Malloc, ptr_registry_reserve}

-- `tcc_ptr_entry_t`; the pointer is an address, 0 for NULL.
pub record Entry : Type 0 where
  pub handle : ℕ
  pub ptr : ℕ
  pub size : ℕ
  pub owned : Bool

-- `tcc_ptr_registry_t`
pub record PtrRegistry : Type 0 where
  pub entries : List Entry
  pub capacity : ℕ
  pub next_handle : ℕ
  pub ref_count : ℕ

-- The blocks that `malloc` has given out and nobody has freed, by address.
abbrev pub Memory : Type 0
Memory = ℕ → Option (List ℕ)

abbrev pub store : Memory → ℕ → List ℕ → Memory
store m p block q = if p == q then some block else m q

-- free(ptr)
abbrev pub release : Memory → ℕ → Memory
release m p q = if p == q then none else m q

pub record Host : Type 0 where
  pub registry : PtrRegistry
  pub memory : Memory

abbrev pub zero_entry : Entry
zero_entry = record { handle = 0; ptr = 0; size = 0; owned = false }

-- tcc_ptr_registry_create, after its `duckdb_malloc`
abbrev pub create : PtrRegistry
create = record { entries = []; capacity = 0; next_handle = 1; ref_count = 1 }

-- The loop of `find_handle_unlocked`; `none` is (idx_t)-1.
unfoldable pub find_index : List Entry → ℕ → Option ℕ
find_index [] handle = none
find_index (e ∷ es) handle =
    if e.handle == handle then some 0 else Option.map suc (find_index es handle)

unfoldable pub find_handle : PtrRegistry → ℕ → Option ℕ
find_handle r handle = if handle == 0 then none else find_index r.entries handle

unfoldable pub span_fits : ℕ → ℕ → ℕ → Bool
span_fits len offset width = if ltb len offset then false else leb width (len - offset)

-- handle = next_handle++; if (handle == 0) handle = next_handle++;
unfoldable pub take_handle : ℕ → ℕ × ℕ
take_handle next =
    if next == 0 then (u64 (next + 1), u64 (u64 (next + 1) + 1)) else (next, u64 (next + 1))

abbrev pub register : PtrRegistry → ℕ → ℕ → ℕ → PtrRegistry
register r capacity' p size' = record r {
  entries =
      r.entries
      ++ record { handle = (take_handle r.next_handle).0; ptr = p; size = size'; owned = true }
        ∷ [];
  capacity = capacity';
  next_handle = (take_handle r.next_handle).1;
}

-- `block` is what `malloc` answers, `room` what `duckdb_malloc` answers when the table grows.
-- The reserve loop ends for any capacity below 2 ^ 63; above, `hangs` is given the result of a
-- refusal.
unfoldable pub alloc : Option ℕ → Malloc → ℕ → Host → Option ℕ × Host
alloc none room size' s = (none, s)
alloc (some p) room size' s =
    if size' == 0
    then (none, s)
    else elim (ptr_registry_reserve room s.registry.capacity (length s.registry.entries + 1)) [
      | reserved capacity' ↦ (
        some (take_handle s.registry.next_handle).0,
        record {
          registry = register s.registry capacity' p size';
          memory = store s.memory p (replicate size' 0);
        },
      )
      | failed ↦ (none, record s { memory = release (store s.memory p (replicate size' 0)) p })
      | hangs ↦ (none, record s { memory = release (store s.memory p (replicate size' 0)) p })
    ]

-- if (idx != last) entries[idx] = entries[last]; count--;
unfoldable pub swap_remove {ℓ} : {A : Type ℓ} → A → List A → ℕ → List A
swap_remove d xs i =
    let last : ℕ = length xs - 1 in
    take last (if i == last then xs else set xs i (get_or xs last d))

unfoldable pub free : ℕ → Host → Bool × Host
free handle' s = if handle' == 0 then (false, s) else elim (find_handle s.registry handle') [
  | none ↦ (false, s)
  | some i ↦
      let e = get_or s.registry.entries i zero_entry in
      (
        true,
        record {
          registry = record s.registry { entries = swap_remove zero_entry s.registry.entries i };
          memory = if e.owned && not (e.ptr == 0) then release s.memory e.ptr else s.memory;
        },
      )
]

-- The address and the size.
unfoldable pub get_ptr_size : ℕ → Host → Option (ℕ × ℕ)
get_ptr_size handle' s = if handle' == 0 then none else elim (find_handle s.registry handle') [
  | none ↦ none
  | some i ↦ let e = get_or s.registry.entries i zero_entry in some (e.ptr, e.size)
]

-- The checks that `read` and `write` share: the entry whose bytes may be touched.
unfoldable pub checked_entry : ℕ → ℕ → ℕ → PtrRegistry → Option Entry
checked_entry handle' offset width r =
    if width == 0 || handle' == 0 then none else elim (find_handle r handle') [
      | none ↦ none
      | some i ↦
          let e = get_or r.entries i zero_entry in
          if e.ptr == 0 || not (span_fits e.size offset width) then none else some e
    ]

-- A block that is not allocated cannot be read or written: `none` here and `false` in `write` stand
-- for the fault too. Sound states have none.
unfoldable pub read : ℕ → ℕ → ℕ → Host → Option (List ℕ)
read handle' offset width s = elim (checked_entry handle' offset width s.registry) [
  | none ↦ none
  | some e ↦ Option.map (slice offset width) (s.memory e.ptr)
]

unfoldable pub write : ℕ → ℕ → List ℕ → Host → Bool × Host
write handle' offset bytes s = elim (checked_entry handle' offset (length bytes) s.registry) [
  | none ↦ (false, s)
  | some e ↦ elim (s.memory e.ptr) [
    | none ↦ (false, s)
    | some block ↦ (true, record s { memory = store s.memory e.ptr (splice offset bytes block) })
  ]
]

-- Free what the entries own.
unfoldable pub destroy : List Entry → Memory → Memory
destroy [] m = m
destroy (e ∷ es) m = destroy es (if e.owned && not (e.ptr == 0) then release m e.ptr else m)

-- Reference counts are 32-bit atomics.
abbrev pub u32 : ℕ → ℕ
u32 n = n % 2 ^ 32

unfoldable pub ref : PtrRegistry → PtrRegistry
ref r = record r { ref_count = u32 (r.ref_count + 1) }

-- `none` for the registry once its memory is gone.
unfoldable pub unref : Host → Option PtrRegistry × Memory
unref s = if s.registry.ref_count == 1 then (none, destroy s.registry.entries s.memory) else (
  some (record s.registry { ref_count = u32 (s.registry.ref_count + 2 ^ 32 - 1) }),
  s.memory,
)
