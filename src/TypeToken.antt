-- ===== src/TypeToken.antt =====
-- tcc_parse_type_token of src/tcc_module.c: the type that a token names, and the size of an array.
-- A token that calls itself for a part takes a unit of fuel for each call; `out_of_fuel` is a call that
-- has none left. Each call has its own allocator: the first of `heap` is that of the outermost.
pub mod Short
pub mod Fuel
pub mod Printed
pub mod Branches
pub mod Flat
pub mod Compounds
pub mod RoundTrip
mod Tests
use Prim.Native.String.{String}
use duck_tiny_cc.Prelude.{
  ltb, ◌==◌, if◌then◌else◌, length, get_or, take, drop, codes, ℕ, zero, suc, ◌+◌, ◌-◌, ◌*◌, ◌%◌,
  ◌^◌, Bool, true, false, ◌&&◌, Option, none, some, List, [], ◌∷◌,
}
use duck_tiny_cc.Growth.{u64}
use duck_tiny_cc.Strings.{Chars, is_digit, trim, equals_ci, last_or, init, last_split}
use duck_tiny_cc.StringList.{Heap}
use duck_tiny_cc.FfiType.{
  FfiType, void, bool, i8, u8, i16, u16, i32, u32, i64, f32, f64, varchar, blob, uuid, date, time,
  timestamp, interval, decimal, struct, ptr, union, list, array, list_type_from_child,
  array_type_from_child,
}

pub data Parsed : Type 0 where
  accepted : FfiType → ℕ → Parsed
  rejected : Parsed
  out_of_fuel : Parsed

-- `simple_tokens`
abbrev pub simple_tokens : List (Chars × FfiType)
simple_tokens =
    (codes "bool", bool)
    ∷ (codes "i8", i8)
    ∷ (codes "u8", u8)
    ∷ (codes "i16", i16)
    ∷ (codes "u16", u16)
    ∷ (codes "i32", i32)
    ∷ (codes "u32", u32)
    ∷ (codes "i64", i64)
    ∷ (codes "u64", FfiType.u64)
    ∷ (codes "f32", f32)
    ∷ (codes "f64", f64)
    ∷ (codes "ptr", ptr)
    ∷ (codes "varchar", varchar)
    ∷ (codes "blob", blob)
    ∷ (codes "uuid", uuid)
    ∷ (codes "date", date)
    ∷ (codes "time", time)
    ∷ (codes "timestamp", timestamp)
    ∷ (codes "interval", interval)
    ∷ (codes "decimal", decimal)
    ∷ []

-- The first name in a table that the token equals but for case.
unfoldable pub lookup_ci : Chars → List (Chars × FfiType) → Option FfiType
lookup_ci token [] = none
lookup_ci token ((name, t) ∷ rest) = if equals_ci token name then some t else lookup_ci token rest

-- The token is the word, in any case, and something between `<` and `>`. The tests of the bytes of
-- the word, one by one in the source, compare it without regard to case.
unfoldable pub is_wrapped : Chars → Chars → Bool
is_wrapped word token =
    ltb (length word + 2) (length token)
    && (equals_ci (take (length word) token) word
        && ((get_or token (length word) 0 == 60) && (last_or 0 token == 62)))

abbrev pub first_of : Option FfiType → Option FfiType → Option FfiType
first_of none b = b
first_of (some t) b = some t

-- The compounds whose fields are parsed elsewhere.
unfoldable pub wrapped_type : Chars → Option FfiType
wrapped_type token =
    if is_wrapped (codes "struct") token
    then some struct
    else if is_wrapped (codes "map") token
    then some FfiType.map
    else if is_wrapped (codes "union") token
    then some union
    else none

-- A type with no part that is parsed here.
unfoldable pub flat_type : Chars → Bool → Option FfiType
flat_type token allow_void =
    if allow_void && equals_ci token (codes "void")
    then some void
    else first_of (lookup_ci token simple_tokens) (wrapped_type token)

-- The digits of a size, read into a uint64_t.
unfoldable pub read_size : ℕ → Chars → Option ℕ
read_size n [] = some n
read_size n (c ∷ s) = if is_digit c then read_size ((n * 10 + (c - 48)) % 2 ^ 64) s else none

abbrev pub or_generic : Option FfiType → FfiType → FfiType
or_generic none g = g
or_generic (some t) g = t

abbrev pub is_void : FfiType → Bool
is_void void = true
is_void _ = false

-- A list of what a part was parsed as.
abbrev pub as_list : Parsed → Parsed
as_list (accepted c n) =
    if is_void c then rejected else accepted (or_generic (list_type_from_child c) list) 0
as_list rejected = rejected
as_list out_of_fuel = out_of_fuel

-- An array of it, or what comes after where it was not parsed.
abbrev pub as_array : ℕ → Parsed → Parsed → Parsed
as_array n (accepted c m) after =
    if is_void c then after else accepted (or_generic (array_type_from_child c) array) n
as_array n rejected after = after
as_array n out_of_fuel after = out_of_fuel

-- `child[64]` holds the token of the child.
abbrev pub fits_child : Chars → Bool
fits_child child = ltb 0 (length child) && ltb (length child) 64

-- A size that the array branch goes on with.
abbrev pub usable_size : Option ℕ → Option ℕ
usable_size none = none
usable_size (some n) = if ltb 0 n then some n else none

abbrev pub with_size : Chars → Option ℕ → Option (Chars × ℕ)
with_size child none = none
with_size child (some n) = if fits_child child then some (child, n) else none

-- `token[n]`: what stands before the last `[`, and the size, where the branch is taken.
abbrev pub sized_part : Option (Chars × Chars) → Option (Chars × ℕ)
sized_part none = none
sized_part (some (child, [])) = none
sized_part (some (child, c ∷ s)) =
    if c == 93 then none else with_size child (usable_size (read_size 0 (init (c ∷ s))))

unfoldable pub array_part : Chars → Option (Chars × ℕ)
array_part token =
    if ltb 3 (length token) && (last_or 0 token == 93)
    then sized_part (last_split 91 token)
    else none

-- `token[]`
unfoldable pub suffix_part : Chars → Option Chars
suffix_part token =
    if ltb 2 (length token)
      && ((last_or 0 (init token) == 91)
          && ((last_or 0 token == 93) && fits_child (init (init token))))
    then some (init (init token))
    else none

-- `list<...>`: the bytes between the brackets, trimmed.
abbrev pub list_part : Chars → Chars
list_part token = trim (drop 5 (init token))

-- The two branches at the end, given how to parse a part.
abbrev pub parse_suffix : (Chars → Parsed) → Option Chars → Parsed
parse_suffix part none = rejected
parse_suffix part (some child) = as_list (part child)

abbrev pub parse_sized : (Chars → Parsed) → Option (Chars × ℕ) → Parsed → Parsed
parse_sized part none after = after
parse_sized part (some (child, n)) after = as_array n (part child) after

abbrev pub parse_rest : (Chars → Parsed) → Chars → Parsed
parse_rest part token = parse_sized part (array_part token) (parse_suffix part (suffix_part token))

abbrev pub parse_flat : Option FfiType → Parsed → Parsed
parse_flat (some t) rest = accepted t 0
parse_flat none rest = rest

unfoldable pub parse_type_token : Heap → ℕ → Chars → Bool → Parsed
parse_type_token heap zero token allow_void = out_of_fuel
parse_type_token heap (suc fuel) [] allow_void = rejected
parse_type_token heap (suc fuel) (c ∷ s) allow_void =
    let part : Chars → Parsed = (λ t. parse_type_token (λ i. heap (i + 1)) fuel t false) in
    parse_flat (flat_type (c ∷ s) allow_void) (
      if is_wrapped (codes "list") (c ∷ s)
      then (if heap 0 (length (c ∷ s) - 4) then as_list (part (list_part (c ∷ s))) else rejected)
      else parse_rest part (c ∷ s))
