-- ===== src/Bridge/Tests.antt =====
-- The accessors at concrete inputs.
use duck_tiny_cc.Prelude.{
  if◌then◌else◌, get_or, ℕ, ◌-◌, ◌≡◌, refl, true, false, none, some, [], ◌∷◌, arith,
}
use duck_tiny_cc.Validity.{bit_at, valid_is_set}
use duck_tiny_cc.Bridge.{
  Bytes, span_contains, ptr_add, span_fits, buf_ptr_at, read_bytes, write_bytes, ListView,
  StructView, MapView, UnionView, list_is_valid, list_elem_ptr, array_elem_ptr, map_key_ptr,
  map_value_ptr, union_tag,
}
use duck_tiny_cc.Bridge.Spans.{within, read_bytes-write_bytes}
use duck_tiny_cc.Bridge.Elements.{PointsTo, elem_ptr_bounds}

abbrev blank : Bytes
blank q = 0

-- Rows 2 to 4 of five 8-byte elements at address 1000, the fourth row invalid.
abbrev rows : ListView
rows = record { ptr = 1000; validity = some (0x17 ∷ []); offset = 2; len = 3 }

abbrev entries : MapView
entries = record {
  key_ptr = 1000;
  key_validity = none;
  value_ptr = 2000;
  value_validity = some (0x1f ∷ []);
  offset = 0;
  len = 5;
}

abbrev fields : StructView
fields = record {
  field_ptrs = some (100 ∷ 200 ∷ []);
  field_validity = some (none ∷ some (4 ∷ []) ∷ []);
  field_count = 2;
  offset = 2;
}

abbrev members : UnionView
members = record {
  tag_ptr = none;
  member_ptrs = some (100 ∷ 200 ∷ []);
  member_validity = some (none ∷ some (4 ∷ []) ∷ []);
  member_count = 2;
  offset = 2;
}

accessor_runs :
    (list_elem_ptr (some rows) 1 8 ≡ 1024)
    × (list_elem_ptr (some rows) 3 8 ≡ 0)
    × (list_is_valid (some rows) 1 ≡ false)
    × (map_value_ptr (some entries) 4 8 ≡ 2032)
    × (span_contains 5 5 ≡ false)
    × (read_bytes (write_bytes blank 50 10 4 (some (7 ∷ 9 ∷ [])) 2).1 50 10 3 true 4
        ≡ some (0 ∷ 7 ∷ 9 ∷ 0 ∷ []))
    × (union_tag (
          some (record {
            tag_ptr = some (3 ∷ 1 ∷ []);
            member_ptrs = none;
            member_validity = none;
            member_count = 0;
            offset = 1;
          }))
        ≡ some 1)
unfolding list_elem_ptr list_is_valid map_value_ptr span_contains read_bytes write_bytes
    valid_is_set bit_at union_tag ptr_add span_fits buf_ptr_at
accessor_runs = (refl, refl, refl, refl, refl, refl, refl)

read_bytes-write_bytes_example :
    let (ok, m') = write_bytes blank 50 10 4 (some (7 ∷ 9 ∷ [])) 2 in
    (ok ≡ true)
    × (read_bytes m' 50 10 4 true 2 ≡ some (7 ∷ 9 ∷ []))
    × ((q : ℕ) → m' q ≡ (if within 54 2 q then get_or (7 ∷ 9 ∷ []) (q - 54) 0 else blank q))
read_bytes-write_bytes_example = read_bytes-write_bytes blank 50 10 4 (7 ∷ 9 ∷ []) (omega arith)

elem_ptr_bounds_example :
    PointsTo 1000 2 3 8 5 1 (list_elem_ptr (some rows) 1 8)
    × PointsTo 1000 2 3 8 5 1 (array_elem_ptr (some rows) 1 8)
    × PointsTo 1000 0 5 8 5 1 (map_key_ptr (some entries) 1 8)
    × PointsTo 2000 0 5 8 5 1 (map_value_ptr (some entries) 1 8)
elem_ptr_bounds_example =
    elem_ptr_bounds rows entries 8 5 1 (omega arith) (omega arith) (omega arith)
