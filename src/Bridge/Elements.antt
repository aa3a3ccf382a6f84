-- ===== src/Bridge/Elements.antt =====
-- Where the element pointers of a LIST, ARRAY or MAP view lead.
use native.Mathlib.Decide.{dec_lt}
use duck_tiny_cc.Prelude.{
  ltb, leb, ◌==◌, if◌then◌else◌, Bool-cases, get_or, ℕ, ◌+◌, ◌*◌, ◌^◌, ◌≤◌, ◌<◌, ◌≡◌, refl, ◌⊎◌,
  inl, inr, Bool, true, false, ◌&&◌, ◌||◌, Option, none, some, List, arith,
}
use duck_tiny_cc.Bridge.{
  ptr_add, ListView, StructView, MapView, UnionView, row_is_valid, elem_ptr, list_is_valid,
  list_elem_ptr, array_is_valid, array_elem_ptr, map_key_ptr, map_value_ptr, map_key_is_valid,
  map_value_is_valid, mask_says, struct_field_ptr, struct_field_is_valid, union_member_ptr,
  union_member_is_valid,
}
use duck_tiny_cc.Growth.{u64}
use duck_tiny_cc.Validity.{Mask, valid_is_set}

-- The child vector behind a view: `total` elements of `size` bytes from `base` on, in the address
-- space, and a view of its rows `offset` to `offset + len`.
pub record Backed (base offset len size total : ℕ) : Type 0 where
  pub base_pos : 0 < base
  pub size_pos : 0 < size
  pub rows : offset + len ≤ total
  pub in_memory : base + total * size ≤ 2 ^ 64

-- An element pointer: NULL past the end, and otherwise the address of that row of the vector,
-- whose bytes lie inside the vector.
pub record PointsTo (base offset len size total idx p : ℕ) : Type 0 where
  pub at : p ≡ (if ltb idx len then base + (offset + idx) * size else 0)
  pub inside : (len ≤ idx) ⊎ (p + size ≤ base + total * size)

row_end : (row total size : ℕ) → row < total → row * size + size ≤ total * size
row_end row total size h = grind arith

le-mul_self : (n size : ℕ) → 0 < size → n ≤ n * size
le-mul_self n size h = grind arith

u64_small : (n : ℕ) → n < 2 ^ 64 → u64 n ≡ n
u64_small n h = omega arith

module _ (base offset len size total idx : ℕ) (b : Backed base offset len size total) where
  row_inside : idx < len → (offset + idx) * size + size ≤ total * size
  row_inside h = row_end (offset + idx) total size (omega (arith, b.rows))

  guard_open : idx < len → (base == 0 || leb len idx || size == 0) ≡ false
  guard_open h = ground (arith, b.base_pos, b.size_pos)

  elem_ptr-at : idx < len → elem_ptr base offset len idx size ≡ base + (offset + idx) * size
  unfolding ptr_add
  elem_ptr-at h = rw (
    guard_open h,
    base_test,
    u64_small (offset + idx)
        (omega (arith, b.in_memory, b.rows, b.base_pos, le-mul_self total size b.size_pos)),
    u64_small ((offset + idx) * size) (omega (arith, b.in_memory, b.base_pos, row_inside h)),
    u64_small (base + (offset + idx) * size) (omega (arith, b.in_memory, b.size_pos, row_inside h)),
  )
    where
      base_test : (base == 0) ≡ false
      base_test = ground (arith, b.base_pos)

  elem_ptr-past : len ≤ idx → elem_ptr base offset len idx size ≡ 0
  unfolding ptr_add
  elem_ptr-past h = ground arith

  elem_ptr-PointsTo : PointsTo base offset len size total idx (elem_ptr base offset len idx size)
  elem_ptr-PointsTo = elim (dec_lt idx len) [
    | yes h ↦
        rw (elem_ptr-at h)
          (record { at = ground arith; inside = inr (omega (arith, row_inside h)) })
    | no h ↦
        rw (elem_ptr-past (omega arith)) (record { at = ground arith; inside = inl (omega arith) })
  ]

-- For a view over a child vector in memory, the element pointer of a LIST and of an ARRAY, and the
-- key and value pointers of a MAP, are NULL past the end and lead to the element's bytes inside the
-- vector before it: no sum or product wraps.
pub elem_ptr_bounds :
    (l : ListView) (v : MapView) (size total idx : ℕ)
    → Backed l.ptr l.offset l.len size total
    → Backed v.key_ptr v.offset v.len size total
    → Backed v.value_ptr v.offset v.len size total
    → PointsTo l.ptr l.offset l.len size total idx (list_elem_ptr (some l) idx size)
      × PointsTo l.ptr l.offset l.len size total idx (array_elem_ptr (some l) idx size)
      × PointsTo v.key_ptr v.offset v.len size total idx (map_key_ptr (some v) idx size)
      × PointsTo v.value_ptr v.offset v.len size total idx (map_value_ptr (some v) idx size)
unfolding list_elem_ptr array_elem_ptr map_key_ptr map_value_ptr
elem_ptr_bounds l v size total idx a b c = (
  elem_ptr-PointsTo l.ptr l.offset l.len size total idx a,
  elem_ptr-PointsTo l.ptr l.offset l.len size total idx a,
  elem_ptr-PointsTo v.key_ptr v.offset v.len size total idx b,
  elem_ptr-PointsTo v.value_ptr v.offset v.len size total idx c,
)

-- A row that the mask of a vector of `total` rows says to be valid, for a view of some of them.
abbrev pub RowSays : Mask → ℕ → ℕ → ℕ → Bool → Type 0
RowSays mask offset len idx answer = answer ≡ (ltb idx len && valid_is_set mask (offset + idx))

row_is_valid-RowSays :
    (mask : Mask) (offset len idx total : ℕ)
    → offset + len ≤ total
    → total < 2 ^ 64
    → RowSays mask offset len idx (row_is_valid mask offset len idx)
unfolding valid_is_set
row_is_valid-RowSays none offset len idx total h k = ground arith
row_is_valid-RowSays (some w) offset len idx total h k = elim (Bool-cases (leb len idx)) [
  | inl y ↦ rw y (ground arith)
  | inr z ↦ rw (z, u64_small (offset + idx) (ground arith)) (ground arith)
]

-- The validity accessors of a LIST, an ARRAY and the two sides of a MAP answer for the global row,
-- false past the end; a missing descriptor is never valid.
pub row_validity :
    (l : ListView) (v : MapView) (total idx : ℕ)
    → l.offset + l.len ≤ total
    → v.offset + v.len ≤ total
    → total < 2 ^ 64
    → RowSays l.validity l.offset l.len idx (list_is_valid (some l) idx)
      × RowSays l.validity l.offset l.len idx (array_is_valid (some l) idx)
      × RowSays v.key_validity v.offset v.len idx (map_key_is_valid (some v) idx)
      × RowSays v.value_validity v.offset v.len idx (map_value_is_valid (some v) idx)
      × (list_is_valid none idx ≡ false)
      × (map_key_is_valid none idx ≡ false)
unfolding list_is_valid array_is_valid map_key_is_valid map_value_is_valid
row_validity l v total idx h k small = (
  row_is_valid-RowSays l.validity l.offset l.len idx total h small,
  row_is_valid-RowSays l.validity l.offset l.len idx total h small,
  row_is_valid-RowSays v.key_validity v.offset v.len idx total k small,
  row_is_valid-RowSays v.value_validity v.offset v.len idx total k small,
  refl,
  refl,
)

abbrev pub is_given : Option (List ℕ) → Bool
is_given none = false
is_given (some ptrs) = true

-- A struct and a union with the same tables answer alike: past the count the pointer is NULL, and a
-- field or member is valid exactly when its index is below the count, the pointer table is there
-- and the mask, where there is one, says so at the row of the view.
pub member_access :
    (ptrs : Option (List ℕ)) (masks : Option (List Mask)) (count offset idx : ℕ)
    → let st : StructView = record {
      field_ptrs = ptrs;
      field_validity = masks;
      field_count = count;
      offset = offset;
    } in
      let un : UnionView = record {
        tag_ptr = none;
        member_ptrs = ptrs;
        member_validity = masks;
        member_count = count;
        offset = offset;
      } in
      (struct_field_ptr (some st) idx ≡ union_member_ptr (some un) idx)
      × (struct_field_is_valid (some st) idx ≡ union_member_is_valid (some un) idx)
      × ((idx < count) ⊎ (struct_field_ptr (some st) idx ≡ 0))
      × (struct_field_is_valid (some st) idx
          ≡ (ltb idx count && (is_given ptrs && mask_says masks idx offset)))
unfolding struct_field_ptr struct_field_is_valid union_member_ptr union_member_is_valid
member_access none masks count offset idx = (refl, refl, inr refl, ground arith)
member_access (some ps) masks count offset idx = (refl, refl, below, ground arith)
  where
    below : (idx < count) ⊎ ((if leb count idx then 0 else get_or ps idx 0) ≡ 0)
    below = ground arith
