-- ===== src/Bridge.antt =====
-- The accessors that src/tcc_module.c exports to the generated wrappers: spans of bytes, and views of
-- LIST, ARRAY, STRUCT, MAP and UNION values over DuckDB vectors.
-- A pointer is an address of 64 bits, 0 for NULL; a pointer to a descriptor is an option. Memory is
-- a byte at each address.
pub mod Spans
pub mod Elements
mod Tests
use duck_tiny_cc.Prelude.{
  ltb, leb, ◌==◌, if◌then◌else◌, get_or, take, ℕ, zero, suc, ◌+◌, ◌-◌, ◌*◌, Bool, true, false, not,
  ◌&&◌, ◌||◌, Option, none, some, List, [], ◌∷◌,
}
use duck_tiny_cc.Growth.{u64}
use duck_tiny_cc.Validity.{Mask, valid_is_set}

abbrev pub Bytes : Type 0
Bytes = ℕ → ℕ

abbrev pub load : Bytes → ℕ → ℕ → List ℕ
load m a zero = []
load m a (suc n) = m a ∷ load m (a + 1) n

abbrev pub put : Bytes → ℕ → List ℕ → Bytes
put m a [] = m
put m a (b ∷ bs) = put (λ q. if a == q then b else m q) (a + 1) bs

unfoldable pub span_contains : ℕ → ℕ → Bool
span_contains len idx = ltb idx len

-- ducktinycc_ptr_add and ducktinycc_ptr_add_mut
unfoldable pub ptr_add : ℕ → ℕ → ℕ
ptr_add base byte_offset = if base == 0 then 0 else u64 (base + byte_offset)

unfoldable pub span_fits : ℕ → ℕ → ℕ → Bool
span_fits len offset width = if ltb len offset then false else leb width (len - offset)

-- ducktinycc_buf_ptr_at and ducktinycc_buf_ptr_at_mut
unfoldable pub buf_ptr_at : ℕ → ℕ → ℕ → ℕ → ℕ
unfolding ptr_add span_fits
buf_ptr_at base len offset width =
    if base == 0 || not (span_fits len offset width) then 0 else ptr_add base offset

-- What comes through `out`; `out` says whether that pointer is given.
unfoldable pub read_bytes : Bytes → ℕ → ℕ → ℕ → Bool → ℕ → Option (List ℕ)
unfolding buf_ptr_at
read_bytes m base len offset out width =
    if not out && ltb 0 width
    then none
    else if width == 0
    then some []
    else let src = buf_ptr_at base len offset width in
      if src == 0 then none else some (load m src width)

-- `none` for the input is a NULL pointer, beside its width.
unfoldable pub write_bytes : Bytes → ℕ → ℕ → ℕ → Option (List ℕ) → ℕ → Bool × Bytes
unfolding buf_ptr_at
write_bytes m base len offset none width = (width == 0, m)
write_bytes m base len offset (some bytes) width =
    if width == 0
    then (true, m)
    else let dst = buf_ptr_at base len offset width in
      if dst == 0 then (false, m) else (true, put m dst (take width bytes))

-- ducktinycc_list_t and ducktinycc_array_t
pub record ListView : Type 0 where
  pub ptr : ℕ
  pub validity : Mask
  pub offset : ℕ
  pub len : ℕ

-- ducktinycc_struct_t; a field's validity mask may be NULL, and so may the table of masks.
pub record StructView : Type 0 where
  pub field_ptrs : Option (List ℕ)
  pub field_validity : Option (List Mask)
  pub field_count : ℕ
  pub offset : ℕ

-- ducktinycc_map_t
pub record MapView : Type 0 where
  pub key_ptr : ℕ
  pub key_validity : Mask
  pub value_ptr : ℕ
  pub value_validity : Mask
  pub offset : ℕ
  pub len : ℕ

-- ducktinycc_union_t; the tags are the bytes at `tag_ptr`.
pub record UnionView : Type 0 where
  pub tag_ptr : Option (List ℕ)
  pub member_ptrs : Option (List ℕ)
  pub member_validity : Option (List Mask)
  pub member_count : ℕ
  pub offset : ℕ

-- if (idx >= len) return 0; if (!validity) return 1; the bit of the global row.
abbrev pub row_is_valid : Mask → ℕ → ℕ → ℕ → Bool
row_is_valid validity offset len idx =
    if leb len idx
    then false
    else elim validity [ none ↦ true | some w ↦ valid_is_set (some w) (u64 (offset + idx)) ]

abbrev pub elem_ptr : ℕ → ℕ → ℕ → ℕ → ℕ → ℕ
elem_ptr base offset len idx size =
    if base == 0 || leb len idx || size == 0
    then 0
    else ptr_add base (u64 (u64 (offset + idx) * size))

unfoldable pub list_is_valid : Option ListView → ℕ → Bool
list_is_valid none idx = false
list_is_valid (some l) idx = row_is_valid l.validity l.offset l.len idx

unfoldable pub list_elem_ptr : Option ListView → ℕ → ℕ → ℕ
list_elem_ptr none idx size = 0
list_elem_ptr (some l) idx size = elem_ptr l.ptr l.offset l.len idx size

unfoldable pub array_is_valid : Option ListView → ℕ → Bool
array_is_valid none idx = false
array_is_valid (some l) idx = row_is_valid l.validity l.offset l.len idx

unfoldable pub array_elem_ptr : Option ListView → ℕ → ℕ → ℕ
array_elem_ptr none idx size = 0
array_elem_ptr (some l) idx size = elem_ptr l.ptr l.offset l.len idx size

unfoldable pub map_key_ptr : Option MapView → ℕ → ℕ → ℕ
map_key_ptr none idx size = 0
map_key_ptr (some v) idx size = elem_ptr v.key_ptr v.offset v.len idx size

unfoldable pub map_value_ptr : Option MapView → ℕ → ℕ → ℕ
map_value_ptr none idx size = 0
map_value_ptr (some v) idx size = elem_ptr v.value_ptr v.offset v.len idx size

unfoldable pub map_key_is_valid : Option MapView → ℕ → Bool
map_key_is_valid none idx = false
map_key_is_valid (some v) idx = row_is_valid v.key_validity v.offset v.len idx

unfoldable pub map_value_is_valid : Option MapView → ℕ → Bool
map_value_is_valid none idx = false
map_value_is_valid (some v) idx = row_is_valid v.value_validity v.offset v.len idx

-- The pointer of a field or member; the table and its count.
abbrev pub nth_ptr : Option (List ℕ) → ℕ → ℕ → ℕ
nth_ptr none count idx = 0
nth_ptr (some ptrs) count idx = if leb count idx then 0 else get_or ptrs idx 0

abbrev pub mask_says : Option (List Mask) → ℕ → ℕ → Bool
mask_says none idx offset = true
mask_says (some masks) idx offset = valid_is_set (get_or masks idx none) offset

abbrev pub nth_is_valid : Option (List ℕ) → Option (List Mask) → ℕ → ℕ → ℕ → Bool
nth_is_valid none masks count idx offset = false
nth_is_valid (some ptrs) masks count idx offset =
    if leb count idx then false else mask_says masks idx offset

unfoldable pub struct_field_ptr : Option StructView → ℕ → ℕ
struct_field_ptr none idx = 0
struct_field_ptr (some v) idx = nth_ptr v.field_ptrs v.field_count idx

unfoldable pub struct_field_is_valid : Option StructView → ℕ → Bool
struct_field_is_valid none idx = false
struct_field_is_valid (some v) idx =
    nth_is_valid v.field_ptrs v.field_validity v.field_count idx v.offset

-- `none` for -1
unfoldable pub union_tag : Option UnionView → Option ℕ
union_tag none = none
union_tag (some v) = elim v.tag_ptr [ none ↦ none | some tags ↦ some (get_or tags v.offset 0) ]

unfoldable pub union_member_ptr : Option UnionView → ℕ → ℕ
union_member_ptr none idx = 0
union_member_ptr (some v) idx = nth_ptr v.member_ptrs v.member_count idx

unfoldable pub union_member_is_valid : Option UnionView → ℕ → Bool
union_member_is_valid none idx = false
union_member_is_valid (some v) idx =
    nth_is_valid v.member_ptrs v.member_validity v.member_count idx v.offset
