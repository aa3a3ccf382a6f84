-- ===== src/Composite/Tests.antt =====
-- Tests of the parsers of compounds, and their theorem at concrete fields.
use duck_tiny_cc.Prelude.{codes, ◌≡◌, refl, true, false, [], ◌∷◌}
use duck_tiny_cc.Strings.{
  is_space, is_digit, is_alpha, lower, skip_space, trim_end, trim, equals_ci, is_identifier_token,
}
use duck_tiny_cc.Session.{strdup}
use duck_tiny_cc.Grammar.{part_from, next_top_level_part, find_from, find_top_level_char}
use duck_tiny_cc.Result.{parsed, Calls, Holds}
use duck_tiny_cc.FfiType.{i32, i64, type_is_list, type_is_array, plain_size, type_size}
use duck_tiny_cc.TypeToken.{lookup_ci, flat_type, parse_type_token}
use duck_tiny_cc.Composite.{
  field_texts, grow_fields, take_field, take_fields, composite_arrays, composite_fields,
}
use duck_tiny_cc.Composite.Sound.{Arrays, composite_arrays-Holds}

abbrev plenty : Calls
plenty path bytes = true

-- A field without a name takes one that another field has, and a separator at the end is passed over.
named_alike :
    composite_fields plenty true (codes "struct") (codes "f2:i32; i64;")
    ≡ parsed (
        record { name = codes "f2"; token = codes "i32"; type = i32; size = 4 }
        ∷ record { name = codes "f2"; token = codes "i64"; type = i64; size = 8 }
        ∷ [])
unfolding composite_fields composite_arrays field_texts take_fields take_field trim skip_space
    trim_end is_space is_identifier_token is_alpha is_digit find_top_level_char find_from
    next_top_level_part part_from grow_fields strdup parse_type_token flat_type lookup_ci equals_ci
    lower type_size type_is_list type_is_array plain_size
named_alike = refl

composite_arrays-Holds_example :
    Holds (Arrays 14) (composite_arrays plenty false (codes "union") (codes "a:i32; b:i8[3]"))
composite_arrays-Holds_example =
    composite_arrays-Holds plenty false (codes "union") (codes "a:i32; b:i8[3]")
