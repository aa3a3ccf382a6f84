-- ===== src/TypeDesc/Tests.antt =====
-- The theorems on type descriptors at concrete tokens.
use duck_tiny_cc.Prelude.{codes, ◌≡◌, refl, true, false, [], arith}
use duck_tiny_cc.Strings.{Chars, is_space, lower, skip_space, trim_end, trim, equals_ci}
use duck_tiny_cc.Result.{err, Calls, Holds}
use duck_tiny_cc.FfiType.{
  list_date, list_child_type, list_type_from_child, type_is_list, type_is_array, plain_token,
  type_to_token,
}
use duck_tiny_cc.TypeToken.{lookup_ci, is_wrapped, wrapped_type, flat_type, parse_type_token}
use duck_tiny_cc.TypeDesc.{typedesc_parse_token}
use duck_tiny_cc.TypeDesc.WellFormed.{Describes}
use duck_tiny_cc.TypeDesc.Ends.{typedesc_parse_token-WellFormed}
use duck_tiny_cc.TypeDesc.Nameless.{typedesc_parse_token-nameless}

abbrev plenty : Calls
plenty path bytes = true

abbrev nested : Chars
nested = codes "struct<a:i32[3];b:map<i8;list<varchar>>>"

typedesc_parse_token-WellFormed_example :
    Holds (Describes false nested) (typedesc_parse_token plenty 50 nested false)
typedesc_parse_token-WellFormed_example =
    typedesc_parse_token-WellFormed 50 plenty nested false (omega arith)

typedesc_parse_token-nameless_example :
    typedesc_parse_token plenty 6 (codes "list<date>") false ≡ err []
unfolding parse_type_token flat_type lookup_ci equals_ci lower wrapped_type is_wrapped trim
    skip_space trim_end is_space list_type_from_child type_is_list list_child_type type_to_token
    type_is_array plain_token
typedesc_parse_token-nameless_example =
    typedesc_parse_token-nameless plenty 5 (codes "list<date>") false list_date 0 refl refl refl
      refl
