-- ===== src/PtrRegistry/Tests.antt =====
-- The registry at concrete inputs.
use duck_tiny_cc.Prelude.{
  ℕ, ◌+◌, ◌-◌, ◌^◌, ◌≤◌, ◌≡◌, refl, ◌↔◌, true, false, Option, none, some, List, [], ◌∷◌, map, arith,
}
use duck_tiny_cc.Growth.{grow_within, Malloc, ptr_registry_reserve}
use duck_tiny_cc.PtrRegistry.{
  Host, create, find_index, find_handle, span_fits, take_handle, alloc, swap_remove, free,
  get_ptr_size, checked_entry, read, write, unref,
}
use duck_tiny_cc.PtrRegistry.Sound.{IsSound}
use duck_tiny_cc.PtrRegistry.View.{view}
use duck_tiny_cc.PtrRegistry.Release.{Frees, free_refines}
use duck_tiny_cc.PtrRegistry.Alloc.{Allocs, alloc_refines}
use duck_tiny_cc.PtrRegistry.Access.{span_fits_iff, read_block, Writes, write_refines, read_refines}
use duck_tiny_cc.PtrRegistry.Calls.{
  read-write, use_after_free, allocs, Reach, start, later, Reach-IsSound,
}
use duck_tiny_cc.PtrRegistry.Destroy.{Sizes, get_ptr_size_refines, Unrefs, unref_lem}
use duck_tiny_cc.PtrRegistry.Scalars.{
  free_ptr_scalar, ptr_size_scalar, ptr_add_scalar, read_scalar, write_scalar, read_bytes_row,
  write_bytes_scalar,
}
use duck_tiny_cc.PtrRegistry.Scalars.Rows.{bytes_of, read_bytes_rows}
use duck_tiny_cc.PtrRegistry.Scalars.Chunks.{
  each_on, free_on, write_on, write_bytes_on, Follows, chunk-Follows, size_on, read_on,
  query_chunks,
}

abbrev plenty : Malloc
plenty bytes = true

abbrev bare : Host
bare = record { registry = create; memory = λ p. none }

-- Four bytes at address 100, under handle 1.
abbrev one : Host
one = (alloc (some 100) plenty 4 bare).1

-- Two more at address 200, under handle 2.
abbrev two : Host
two = (alloc (some 200) plenty 2 one).1

one-Reach : Reach one
one-Reach = later start (allocs 100 plenty 4 (omega arith) refl (omega arith) (omega arith))

two-Reach : Reach two
unfolding alloc take_handle ptr_registry_reserve grow_within
two-Reach = later one-Reach (allocs 200 plenty 2 (omega arith) refl (omega arith) (omega arith))

registry_runs :
    (read 1 0 4 two ≡ some (0 ∷ 0 ∷ 0 ∷ 0 ∷ []))
    × ((write 1 2 (7 ∷ 8 ∷ []) two).0 ≡ true)
    × (read 1 1 3 (write 1 2 (7 ∷ 8 ∷ []) two).1 ≡ some (0 ∷ 7 ∷ 8 ∷ []))
    × (read 2 1 2 two ≡ none)
    × (get_ptr_size 2 (free 1 two).1 ≡ some (200, 2))
    × (read 1 0 1 (free 1 two).1 ≡ none)
    × (ptr_add_scalar ((some (2 ^ 64 - 1), some 2) ∷ (none, some 1) ∷ []) ≡ some 1 ∷ none ∷ [])
unfolding alloc take_handle ptr_registry_reserve grow_within read write free get_ptr_size
    checked_entry find_handle find_index swap_remove span_fits ptr_add_scalar
registry_runs = (refl, refl, refl, refl, refl, refl, refl)

Reach-IsSound_example : IsSound two
Reach-IsSound_example = Reach-IsSound two-Reach

two-IsSound : IsSound two
two-IsSound = Reach-IsSound two-Reach

alloc_refines_example :
    (alloc none plenty 4 bare ≡ (none, bare))
    × Allocs plenty 4 bare (alloc (some 100) plenty 4 bare)
alloc_refines_example =
    alloc_refines bare 100 plenty 4 (Reach-IsSound start) (omega arith) refl (omega arith)
      (omega arith)

free_refines_example : Frees two 1 (free 1 two)
free_refines_example = free_refines two 1 two-IsSound

write_refines_example : Writes two 1 2 (7 ∷ 8 ∷ []) (write 1 2 (7 ∷ 8 ∷ []) two)
write_refines_example = write_refines two 1 2 (7 ∷ 8 ∷ []) two-IsSound

read_refines_example : read 1 0 4 two ≡ read_block 0 4 (view two 1)
read_refines_example = read_refines two 1 0 4 two-IsSound

write_accepted : (write 1 2 (7 ∷ 8 ∷ []) two).0 ≡ true
unfolding alloc take_handle ptr_registry_reserve grow_within write checked_entry find_handle
    find_index span_fits
write_accepted = refl

read-write_example : read 1 2 2 (write 1 2 (7 ∷ 8 ∷ []) two).1 ≡ some (7 ∷ 8 ∷ [])
read-write_example = read-write two 1 2 (7 ∷ 8 ∷ []) two-IsSound write_accepted

use_after_free_example :
    (read 1 0 4 (free 1 two).1 ≡ none)
    × ((write 1 0 (5 ∷ []) (free 1 two).1).0 ≡ false)
    × ((free 1 (free 1 two).1).0 ≡ false)
    × (get_ptr_size 1 (free 1 two).1 ≡ none)
use_after_free_example = use_after_free two 1 0 4 (5 ∷ []) two-IsSound

unref_lem_example : Unrefs two (unref two)
unref_lem_example = unref_lem two two-IsSound

span_fits_iff_example : (span_fits 10 4 6 ≡ true) ↔ (4 + 6 ≤ 10)
span_fits_iff_example = span_fits_iff 10 4 6

read_bytes_rows_example :
    (read_bytes_row plenty two (some 1, some 0, some 4) ≡ bytes_of plenty 0 4 (view two 1))
    × (read_bytes_row plenty two (none, some 0, none) ≡ none)
    × (read_bytes_row plenty two (some 1, none, none) ≡ none)
    × (read_bytes_row plenty two (some 1, some 0, none) ≡ none)
read_bytes_rows_example = read_bytes_rows plenty two 1 0 4 (some 0) none two-IsSound

abbrev stores : List (Option ℕ × Option ℕ × Option (List ℕ))
stores = (some 2, some 0, some (9 ∷ [])) ∷ (some 2, some 2, some (9 ∷ [])) ∷ []

abbrev handles : List (Option ℕ)
handles = some 1 ∷ none ∷ some 1 ∷ []

chunk-Follows_example :
    Follows (free_ptr_scalar handles two) (each_on free_on handles (view two))
    × Follows (write_scalar stores two) (each_on write_on stores (view two))
    × Follows (write_bytes_scalar stores two) (each_on write_bytes_on stores (view two))
chunk-Follows_example = chunk-Follows two handles stores two-IsSound

query_chunks_example :
    (ptr_size_scalar handles two ≡ map (size_on (view two)) handles)
    × (read_scalar 2 ((some 1, some 1) ∷ []) two
        ≡ map (read_on 2 (view two)) ((some 1, some 1) ∷ []))
query_chunks_example = query_chunks two handles 2 ((some 1, some 1) ∷ []) two-IsSound

get_ptr_size_refines_example : Sizes two 2 (get_ptr_size 2 two)
get_ptr_size_refines_example = get_ptr_size_refines two 2 two-IsSound
