-- ===== src/TypeToken/Tests.antt =====
-- Tests of tcc_parse_type_token, and its theorems at concrete tokens.
use duck_tiny_cc.Prelude.{codes, ◌≡◌, refl, Bool, true, false, arith}
use duck_tiny_cc.Strings.{Chars, is_space, is_digit, lower, equals_ci, last_split}
use duck_tiny_cc.StringList.{Heap}
use duck_tiny_cc.FfiType.{i32, array, array_i32, list_type_from_child, array_type_from_child}
use duck_tiny_cc.TypeToken.{
  Parsed, accepted, lookup_ci, is_wrapped, wrapped_type, flat_type, read_size, array_part,
  suffix_part, parse_type_token,
}
use duck_tiny_cc.TypeToken.Fuel.{Sound, parse_type_token-Sound}
use duck_tiny_cc.TypeToken.Printed.{Syntax, named, list_of, sized}
use duck_tiny_cc.TypeToken.RoundTrip.{parse-print}

abbrev plenty : Heap
plenty i bytes = true

abbrev answer : Chars → Bool → Parsed
answer token allow_void = parse_type_token plenty 40 token allow_void

-- The size 2 ^ 64 + 3 is read as 3.
large_size : answer (codes "i32[18446744073709551619]") false ≡ accepted array_i32 3
unfolding parse_type_token flat_type lookup_ci equals_ci lower wrapped_type is_wrapped array_part
    suffix_part read_size is_digit last_split array_type_from_child is_space
large_size = refl

abbrev listed_ints : Syntax
listed_ints = sized (list_of (named i32)) (codes "12")

parse_type_token-Sound_example : Sound false (answer (codes "LIST<i64[]>[7]") false)
parse_type_token-Sound_example =
    parse_type_token-Sound 40 plenty (codes "LIST<i64[]>[7]") false (omega arith)

parse-print_example : parse_type_token plenty 20 (codes "list<i32>[12]") false ≡ accepted array 12
unfolding is_digit array_type_from_child list_type_from_child
parse-print_example = parse-print listed_ints plenty 20 false (λ i b. refl) refl (omega arith)
