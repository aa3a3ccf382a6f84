-- ===== src/Bindings.antt =====
-- The functions that c_struct, c_union, c_bitfield and c_enum bind: tcc_build_c_composite_bindings
-- and tcc_build_c_enum_bindings of src/tcc_module.c, with the list that they fill. Where a function
-- that returns false has its caller report `out of memory`, it refuses with that text.
pub mod Built
pub mod Lists
pub mod Accepted
mod Tests
use duck_tiny_cc.Prelude.{
  ltb, if◌then◌else◌, length, codes, ℕ, ◌+◌, Bool, true, false, Option, none, some, List, [], ◌∷◌,
  ◌++◌,
}
use duck_tiny_cc.Strings.{Chars}
use duck_tiny_cc.Growth.{Reserved, reserved, failed, hangs, helper_binding_list_reserve}
use duck_tiny_cc.Session.{strdup}
use duck_tiny_cc.Result.{
  Result, parsed, err, unfinished, ◌>>=◌, ◌>>◌, guard, no_memory, Calls, inside, nth, copied,
}
use duck_tiny_cc.FfiType.{type_to_token}
use duck_tiny_cc.Fields.{CField}

-- `tcc_helper_binding_t`
pub record Binding : Type 0 where
  pub symbol : Chars
  pub sql_name : Chars
  pub return_type : Chars
  pub arg_types_csv : Chars
  pub stability : Chars

-- `tcc_helper_binding_list_t`; `count` is the length of `items`.
pub record BindingList : Type 0 where
  pub items : List Binding
  pub capacity : ℕ

abbrev pub no_bindings : BindingList
no_bindings = record { items = []; capacity = 0 }

abbrev pub room_for : Reserved → Result ℕ
room_for (reserved n) = parsed n
room_for failed = err no_memory
room_for hangs = unfinished

-- tcc_helper_binding_list_add
unfoldable pub binding_list_add : Calls → BindingList → Binding → Result BindingList
binding_list_add calls l b = do
  n ← room_for (helper_binding_list_reserve (nth calls 0) l.capacity (length l.items + 1))
  symbol ← copied (strdup (nth calls 1) b.symbol)
  sql_name ← copied (strdup (nth calls 2) b.sql_name)
  return_type ← copied (strdup (nth calls 3) b.return_type)
  arg_types_csv ← copied (strdup (nth calls 4) b.arg_types_csv)
  stability ← copied (strdup (nth calls 5) b.stability)
  parsed (record {
    items =
        l.items
        ++ record {
          symbol = symbol;
          sql_name = sql_name;
          return_type = return_type;
          arg_types_csv = arg_types_csv;
          stability = stability;
        }
          ∷ [];
    capacity = n;
  })

abbrev pub prefixed : Chars → Chars → Chars
prefixed prefix suffix = prefix ++ 95 ∷ suffix

-- tcc_helper_binding_list_add_prefixed: both names stand in buffers of 512 bytes.
unfoldable pub add_prefixed :
    Calls → BindingList → Chars → Chars → Chars → Chars → Chars → Result BindingList
add_prefixed calls l prefix suffix return_type arg_types_csv stability = do
  guard (ltb (length (prefixed prefix suffix)) 512) no_memory
  binding_list_add calls l (record {
    symbol = prefixed prefix suffix;
    sql_name = prefixed prefix suffix;
    return_type = return_type;
    arg_types_csv = arg_types_csv;
    stability = stability;
  })

-- tcc_format_cstr, for a buffer of `size` bytes.
unfoldable pub format_cstr : ℕ → Chars → Result Chars
format_cstr size s = if ltb (length s) size then parsed s else err no_memory

-- TCC_ADD_BINDING_FORMAT
unfoldable pub add_format :
    Calls → BindingList → Chars → Chars → Chars → Chars → Chars → Result BindingList
add_format calls l prefix return_type arg_types_csv stability suffix = do
  s ← format_cstr 512 suffix
  add_prefixed calls l prefix s return_type arg_types_csv stability

abbrev pub array_bindings : Calls → BindingList → Chars → Chars → Chars → Result BindingList
array_bindings calls l prefix name token = do
  args ← format_cstr 128 (codes "ptr,u64")
  l1 ←
      add_format (inside calls 0) l prefix token args (codes "volatile")
        (codes "get_" ++ (name ++ codes "_elt"))
  set_args ← format_cstr 128 (codes "ptr,u64," ++ token)
  l2 ←
      add_format (inside calls 1) l1 prefix (codes "ptr") set_args (codes "volatile")
        (codes "set_" ++ (name ++ codes "_elt"))
  l3 ←
      add_format (inside calls 2) l2 prefix (codes "u64") [] (codes "consistent")
        (codes "off_" ++ name)
  add_format (inside calls 3) l3 prefix (codes "ptr") (codes "ptr") (codes "consistent")
      (name ++ codes "_addr")

abbrev pub place_bindings : Calls → BindingList → Chars → Chars → Bool → Result BindingList
place_bindings calls l prefix name true = parsed l
place_bindings calls l prefix name false = do
  l1 ←
      add_format (inside calls 0) l prefix (codes "u64") [] (codes "consistent")
        (codes "off_" ++ name)
  add_format (inside calls 1) l1 prefix (codes "ptr") (codes "ptr") (codes "consistent")
      (name ++ codes "_addr")

abbrev pub value_bindings : Calls → BindingList → Chars → Chars → Bool → Chars → Result BindingList
value_bindings calls l prefix name is_bitfield token = do
  l1 ←
      add_format (inside calls 0) l prefix token (codes "ptr") (codes "volatile")
        (codes "get_" ++ name)
  set_args ← format_cstr 128 (codes "ptr," ++ token)
  l2 ←
      add_format (inside calls 1) l1 prefix (codes "ptr") set_args (codes "volatile")
        (codes "set_" ++ name)
  place_bindings (inside calls 2) l2 prefix name is_bitfield

abbrev pub token_bindings : Calls → BindingList → Chars → CField → Option Chars → Result BindingList
token_bindings calls l prefix f none =
    err (codes "field type token is unsupported for helper bindings")
token_bindings calls l prefix f (some token) =
    if ltb 0 f.array_size
    then array_bindings calls l prefix f.name token
    else value_bindings calls l prefix f.name f.is_bitfield token

-- The loop over the fields.
unfoldable pub field_bindings : Calls → ℕ → BindingList → Chars → List CField → Result BindingList
field_bindings calls i l prefix [] = parsed l
field_bindings calls i l prefix (f ∷ fs) = do
  k ← token_bindings (inside calls i) l prefix f (type_to_token f.type)
  field_bindings calls (i + 1) k prefix fs

unfoldable pub build_c_composite_bindings : Calls → Chars → List CField → Result BindingList
build_c_composite_bindings calls prefix fields = do
  l1 ←
      add_prefixed (inside calls 0) no_bindings prefix (codes "sizeof") (codes "u64") []
        (codes "consistent")
  l2 ←
      add_prefixed (inside calls 1) l1 prefix (codes "alignof") (codes "u64") []
        (codes "consistent")
  l3 ← add_prefixed (inside calls 2) l2 prefix (codes "new") (codes "ptr") [] (codes "volatile")
  l4 ←
      add_prefixed (inside calls 3) l3 prefix (codes "free") (codes "void") (codes "ptr")
        (codes "volatile")
  field_bindings (inside calls 4) 0 l4 prefix fields

-- The loop over the constants.
unfoldable pub constant_bindings : Calls → ℕ → BindingList → Chars → List Chars → Result BindingList
constant_bindings calls i l prefix [] = parsed l
constant_bindings calls i l prefix (c ∷ cs) = do
  k ← add_format (inside calls i) l prefix (codes "i64") [] (codes "consistent") c
  constant_bindings calls (i + 1) k prefix cs

unfoldable pub build_c_enum_bindings : Calls → Chars → List Chars → Result BindingList
build_c_enum_bindings calls prefix constants = do
  l ←
      add_prefixed (inside calls 0) no_bindings prefix (codes "sizeof") (codes "u64") []
        (codes "consistent")
  constant_bindings (inside calls 1) 0 l prefix constants
