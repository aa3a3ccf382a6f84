-- ===== src/Fields.antt =====
-- The arguments of c_struct, c_union, c_bitfield and c_enum in src/tcc_module.c: the fields of a C
-- type, and the constants of an enum.
pub mod Sound
pub mod Specs
mod Tests
use duck_tiny_cc.Prelude.{
  ◌==◌, if◌then◌else◌, length, codes, ℕ, ◌+◌, Bool, true, false, not, ◌&&◌, ◌||◌, Option, none,
  some, List, [], ◌∷◌, ◌++◌,
}
use duck_tiny_cc.Strings.{Chars, trim, equals_ci, is_identifier_token}
use duck_tiny_cc.Growth.{Reserved, reserved, failed, hangs, Malloc, c_field_list_reserve}
use duck_tiny_cc.Session.{strdup}
use duck_tiny_cc.Grammar.{split_csv_tokens}
use duck_tiny_cc.Result.{
  Result, parsed, err, unfinished, ◌>>=◌, ◌>>◌, guard, no_memory, Calls, inside, nth, numbered,
  copied,
}
use duck_tiny_cc.FfiType.{FfiType, ptr, array_child_type, type_is_array, type_is_fixed_width_scalar}
use duck_tiny_cc.TypeToken.{Parsed, accepted, rejected, out_of_fuel, parse_type_token}
use duck_tiny_cc.Signature.{csv_tokens}

-- `tcc_c_field_spec_t`
pub record CField : Type 0 where
  pub name : Chars
  pub type : FfiType
  pub array_size : ℕ
  pub is_bitfield : Bool

abbrev pub split_cons : ℕ → Option (Chars × Chars) → Option (Chars × Chars)
split_cons d none = none
split_cons d (some (a, b)) = some (d ∷ a, b)

-- strchr(s, c), as the bytes before the place and those after it; `none` for NULL.
unfoldable pub first_split : ℕ → Chars → Option (Chars × Chars)
first_split c [] = none
first_split c (d ∷ s) = if d == c then some ([], s) else split_cons d (first_split c s)

abbrev pub at_colon : Option (Chars × Chars) → Result (Chars × Chars)
at_colon none = err (codes "field spec must use name:type or name:type:bitfield")
at_colon (some p) = parsed p

abbrev pub is_ptr : FfiType → Bool
is_ptr ptr = true
is_ptr _ = false

-- The type token, and the option behind a second colon.
abbrev pub type_and_option : Chars → Option (Chars × Chars) → Chars × Chars
type_and_option rest none = (rest, [])
type_and_option rest (some p) = p

abbrev pub supported : Parsed → Result (FfiType × ℕ)
supported (accepted t n) = parsed (t, n)
supported Parsed.rejected = err (codes "field type token is unsupported")
supported out_of_fuel = unfinished

-- The option, which is empty where there is none.
abbrev pub bitfield_option : Bool → Chars → Result Bool
bitfield_option force [] = parsed force
bitfield_option force (c ∷ s) = do
  guard (equals_ci (c ∷ s) (codes "bitfield"))
      (codes "field option is unsupported (expected bitfield)")
  parsed true

abbrev pub element_type : Option FfiType → ℕ → Result FfiType
element_type none n = err (codes "array field type is invalid")
element_type (some c) n = do guard (not (n == 0)) (codes "array field type is invalid"); parsed c

-- The type of an element and the number of elements, 0 for a field that is no array.
unfoldable pub field_shape : Bool → FfiType → ℕ → Result (FfiType × ℕ)
field_shape is_bitfield t n =
    if type_is_array t
    then (do
      c ← element_type (array_child_type t) n
      guard (not is_bitfield) (codes "bitfield option cannot be used with array fields")
      parsed (c, n))
    else parsed (t, 0)

unfoldable pub parse_c_field_spec_token : Calls → Bool → Chars → Result CField
parse_c_field_spec_token calls force_bitfield token = do
  copy ← copied (strdup (nth calls 0) token)
  p ← at_colon (first_split 58 copy)
  let q : Chars × Chars = type_and_option (p.1) (first_split 58 (p.1))
  guard (is_identifier_token (trim (p.0))) (codes "field name must be a valid identifier")
  t ←
      supported
        (parse_type_token (numbered (inside calls 1)) (length (trim (q.0)) + 1) (trim (q.0)) false)
  is_bitfield ← bitfield_option force_bitfield (trim (q.1))
  shape ← field_shape is_bitfield (t.0) (t.1)
  guard (type_is_fixed_width_scalar (shape.0) || is_ptr (shape.0)) (
      codes
        "fields currently support fixed-width scalar/pointer tokens only (no varchar/blob/nested)")
  name ← copied (strdup (nth calls 2) (trim (p.0)))
  parsed (record { name = name; type = shape.0; array_size = shape.1; is_bitfield = is_bitfield })

-- `tcc_c_field_list_t`; `count` is the length of `items`.
pub record CFieldList : Type 0 where
  pub items : List CField
  pub capacity : ℕ

abbrev pub push_field : CFieldList → CField → Reserved → Result CFieldList
push_field l f (reserved n) = parsed (record { items = l.items ++ f ∷ []; capacity = n })
push_field l f failed = err no_memory
push_field l f hangs = unfinished

-- tcc_c_field_list_append; a refusal is one for memory.
unfoldable pub c_field_list_append : Malloc → CFieldList → CField → Result CFieldList
c_field_list_append malloc l f =
    push_field l f (c_field_list_reserve malloc l.capacity (length l.items + 1))

-- The loop over the tokens.
unfoldable pub take_specs : Calls → Bool → ℕ → CFieldList → List Chars → Result CFieldList
take_specs calls force_bitfield i l [] = parsed l
take_specs calls force_bitfield i l (token ∷ tokens) = do
  f ← parse_c_field_spec_token (inside (inside calls i) 0) force_bitfield token
  k ← c_field_list_append (nth (inside calls i) 1) l f
  take_specs calls force_bitfield (i + 1) k tokens

unfoldable pub parse_c_field_specs : Calls → Bool → Option Chars → Result CFieldList
parse_c_field_specs calls force_bitfield arg_types = do
  tokens ← csv_tokens (split_csv_tokens (numbered (inside calls 0)) arg_types)
  guard (not (length tokens == 0)) (codes "arg_types is required for c_struct/c_union/c_bitfield")
  take_specs (inside calls 1) force_bitfield 0 (record { items = []; capacity = 0 }) tokens

abbrev pub all_identifiers : List Chars → Bool
all_identifiers [] = true
all_identifiers (v ∷ vs) = is_identifier_token v && all_identifiers vs

unfoldable pub parse_c_enum_constants : Calls → Option Chars → Result (List Chars)
parse_c_enum_constants calls arg_types = do
  tokens ← csv_tokens (split_csv_tokens (numbered calls) arg_types)
  guard (not (length tokens == 0)) (codes "arg_types must list at least one enum constant")
  guard (all_identifiers tokens) (codes "enum constants must be valid identifiers")
  parsed tokens
