-- ===== src/FfiType/Tables.antt =====
-- How the tables over the types fit together.
use duck_tiny_cc.Prelude.{
  if◌then◌else◌, ◌≡◌, refl, Bool, true, false, not, ◌&&◌, Option, none, some,
}
use duck_tiny_cc.FfiType.{
  FfiType, void, uuid, date, time, timestamp, interval, decimal, ptr, list, array, list_child_type,
  list_type_from_child, array_child_type, array_type_from_child, type_is_list, type_is_array,
  type_is_fixed_width_scalar, DuckdbType, invalid, type_to_duckdb_type, type_to_token,
}

abbrev pub then_look : Option FfiType → (FfiType → Option FfiType) → Option FfiType
then_look none f = none
then_look (some t) f = f t

abbrev pub given {ℓ} : {A : Type ℓ} → Option A → Bool
given none = false
given (some a) = true

-- `some t` if the test passes.
abbrev pub only_if : Bool → FfiType → Option FfiType
only_if b t = if b then some t else none

-- Apart from the two generic types `list` and `array`.
abbrev pub is_generic : FfiType → Bool
is_generic list = true
is_generic array = true
is_generic _ = false

abbrev pub is_ptr : FfiType → Bool
is_ptr ptr = true
is_ptr _ = false

list_child_back :
    (t : FfiType)
    → then_look (list_child_type t) list_type_from_child
      ≡ only_if (type_is_list t && not (is_generic t)) t
unfolding list_child_type list_type_from_child type_is_list
list_child_back void = refl
list_child_back _ = refl

list_type_back :
    (t : FfiType)
    → then_look (list_type_from_child t) list_child_type
      ≡ only_if (type_is_fixed_width_scalar t && not (is_ptr t)) t
unfolding list_child_type list_type_from_child type_is_fixed_width_scalar
list_type_back void = refl
list_type_back _ = refl

array_child_back :
    (t : FfiType)
    → then_look (array_child_type t) array_type_from_child
      ≡ only_if (type_is_array t && not (is_generic t)) t
unfolding array_child_type array_type_from_child type_is_array
array_child_back void = refl
array_child_back _ = refl

array_type_back :
    (t : FfiType)
    → then_look (array_type_from_child t) array_child_type
      ≡ only_if (type_is_fixed_width_scalar t && not (is_ptr t)) t
unfolding array_child_type array_type_from_child type_is_fixed_width_scalar
array_type_back void = refl
array_type_back _ = refl

-- The lists with a typed child and the fixed-width scalars but `ptr` are in bijection by the two
-- tables, and so are the arrays: each table undoes the other, and answers nowhere else.
pub compound_tables :
    (t : FfiType)
    → (then_look (list_child_type t) list_type_from_child
        ≡ only_if (type_is_list t && not (is_generic t)) t)
      × (then_look (list_type_from_child t) list_child_type
          ≡ only_if (type_is_fixed_width_scalar t && not (is_ptr t)) t)
      × (then_look (array_child_type t) array_type_from_child
          ≡ only_if (type_is_array t && not (is_generic t)) t)
      × (then_look (array_type_from_child t) array_child_type
          ≡ only_if (type_is_fixed_width_scalar t && not (is_ptr t)) t)
compound_tables t = (list_child_back t, list_type_back t, array_child_back t, array_type_back t)

abbrev pub is_duckdb_list : DuckdbType → Bool
is_duckdb_list DuckdbType.list = true
is_duckdb_list _ = false

abbrev pub is_duckdb_array : DuckdbType → Bool
is_duckdb_array DuckdbType.array = true
is_duckdb_array _ = false

abbrev pub is_invalid : DuckdbType → Bool
is_invalid invalid = true
is_invalid _ = false

duckdb_list : (t : FfiType) → is_duckdb_list (type_to_duckdb_type t) ≡ type_is_list t
unfolding type_to_duckdb_type
duckdb_list void = refl
duckdb_list _ = refl

duckdb_array : (t : FfiType) → is_duckdb_array (type_to_duckdb_type t) ≡ type_is_array t
unfolding type_to_duckdb_type
duckdb_array void = refl
duckdb_array _ = refl

duckdb_valid : (t : FfiType) → is_invalid (type_to_duckdb_type t) ≡ false
unfolding type_to_duckdb_type
duckdb_valid void = refl
duckdb_valid _ = refl

-- Every type has a DuckDB type, which is LIST exactly for the list types and ARRAY exactly for the
-- array types.
pub duckdb_types :
    (t : FfiType)
    → (is_invalid (type_to_duckdb_type t) ≡ false)
      × (is_duckdb_list (type_to_duckdb_type t) ≡ type_is_list t)
      × (is_duckdb_array (type_to_duckdb_type t) ≡ type_is_array t)
duckdb_types t = (duckdb_valid t, duckdb_list t, duckdb_array t)

-- The six scalars that the table of tokens leaves out.
abbrev pub has_no_token : FfiType → Bool
has_no_token uuid = true
has_no_token date = true
has_no_token time = true
has_no_token timestamp = true
has_no_token interval = true
has_no_token decimal = true
has_no_token _ = false

list_child_tokens :
    (t : FfiType)
    → (given (list_type_from_child t) && not (given (type_to_token t))) ≡ has_no_token t
unfolding list_type_from_child type_to_token
list_child_tokens void = refl
list_child_tokens _ = refl

array_child_tokens :
    (t : FfiType)
    → (given (array_type_from_child t) && not (given (type_to_token t))) ≡ has_no_token t
unfolding array_type_from_child type_to_token
array_child_tokens void = refl
array_child_tokens _ = refl

-- The scalars that may stand in a typed list or array, but have no token to describe the child by,
-- are exactly UUID, DATE, TIME, TIMESTAMP, INTERVAL and DECIMAL.
pub child_tokens :
    (t : FfiType)
    → ((given (list_type_from_child t) && not (given (type_to_token t))) ≡ has_no_token t)
      × ((given (array_type_from_child t) && not (given (type_to_token t))) ≡ has_no_token t)
child_tokens t = (list_child_tokens t, array_child_tokens t)
