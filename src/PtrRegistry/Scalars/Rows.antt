-- ===== src/PtrRegistry/Scalars/Rows.antt =====
-- Chunks of calls over the pointer registry, as the SQL functions of src/tcc_module.c make them.
use duck_tiny_cc.Prelude.{
  if◌then◌else◌, ℕ, zero, suc, ◌≡◌, refl, Option, none, some, List, [], arith,
}
use duck_tiny_cc.Growth.{Malloc}
use duck_tiny_cc.PtrRegistry.{Host}
use duck_tiny_cc.PtrRegistry.Sound.{IsSound}
use duck_tiny_cc.PtrRegistry.View.{view}
use duck_tiny_cc.PtrRegistry.Release.{nonzero}
use duck_tiny_cc.PtrRegistry.Access.{read_block, read_refines}
use duck_tiny_cc.PtrRegistry.Scalars.{read_bytes_row}

-- What a row of `tcc_read_bytes` shows of an allocation.
abbrev pub bytes_of : Malloc → ℕ → ℕ → Option (List ℕ) → Option (List ℕ)
bytes_of room offset zero block = some []
bytes_of room offset (suc width) block =
    if room (suc width) then read_block offset (suc width) block else none

read_bytes_row-eq :
    (room : Malloc) (s : Host) (h off width : ℕ)
    → IsSound s
    → read_bytes_row room s (some h, some off, some width) ≡ bytes_of room off width (view s h)
unfolding read_bytes_row
read_bytes_row-eq room s h off zero v = refl
read_bytes_row-eq room s h off (suc width) v =
    rw (nonzero (suc width) (omega arith), read_refines s h off (suc width) v)

-- In a sound registry a row of `tcc_read_bytes` gives the empty string at width 0, whatever the
-- handle; at any other width it gives the bytes of the span if the buffer can be had, the handle
-- has an allocation and the span ends inside it; and otherwise NULL. A NULL argument gives NULL.
pub read_bytes_rows :
    (room : Malloc) (s : Host) (h off width : ℕ) (a b : Option ℕ)
    → IsSound s
    → (read_bytes_row room s (some h, some off, some width) ≡ bytes_of room off width (view s h))
      × (read_bytes_row room s (none, a, b) ≡ none)
      × (read_bytes_row room s (some h, none, b) ≡ none)
      × (read_bytes_row room s (some h, some off, none) ≡ none)
unfolding read_bytes_row
read_bytes_rows room s h off width a b v =
    (read_bytes_row-eq room s h off width v, refl, refl, refl)
