-- ===== src/FfiType.antt =====
-- The types that cross the boundary between SQL and C in src/tcc_module.c, and the tables over
-- them. A result through a pointer with a Boolean beside it is an option. Sizes are those of a
-- 64-bit platform.
pub mod Tables
use duck_tiny_cc.Prelude.{if◌then◌else◌, codes, ℕ, Bool, true, false, Option, none, some, List}

-- `tcc_ffi_type_t`
pub data FfiType : Type 0 where
  void bool i8 u8 i16 u16 i32 u32 i64 u64 f32 f64 : FfiType
  varchar blob uuid date time timestamp interval decimal : FfiType
  struct map ptr union list array : FfiType
  list_bool list_i8 list_u8 list_i16 list_u16 list_i32 list_u32 list_i64 list_u64 : FfiType
  list_f32 list_f64 list_uuid list_date list_time list_timestamp list_interval list_decimal :
      FfiType
  array_bool array_i8 array_u8 array_i16 array_u16 array_i32 array_u32 array_i64 array_u64 : FfiType
  array_f32 array_f64 array_uuid array_date array_time array_timestamp array_interval
        array_decimal :
      FfiType

-- tcc_ffi_list_child_type
unfoldable pub list_child_type : FfiType → Option FfiType
list_child_type list_bool = some bool
list_child_type list_i8 = some i8
list_child_type list_u8 = some u8
list_child_type list_i16 = some i16
list_child_type list_u16 = some u16
list_child_type list_i32 = some i32
list_child_type list_u32 = some u32
list_child_type list_i64 = some i64
list_child_type list_u64 = some u64
list_child_type list_f32 = some f32
list_child_type list_f64 = some f64
list_child_type list_uuid = some uuid
list_child_type list_date = some date
list_child_type list_time = some time
list_child_type list_timestamp = some timestamp
list_child_type list_interval = some interval
list_child_type list_decimal = some decimal
list_child_type _ = none

-- tcc_ffi_list_type_from_child
unfoldable pub list_type_from_child : FfiType → Option FfiType
list_type_from_child bool = some list_bool
list_type_from_child i8 = some list_i8
list_type_from_child u8 = some list_u8
list_type_from_child i16 = some list_i16
list_type_from_child u16 = some list_u16
list_type_from_child i32 = some list_i32
list_type_from_child u32 = some list_u32
list_type_from_child i64 = some list_i64
list_type_from_child u64 = some list_u64
list_type_from_child f32 = some list_f32
list_type_from_child f64 = some list_f64
list_type_from_child uuid = some list_uuid
list_type_from_child date = some list_date
list_type_from_child time = some list_time
list_type_from_child timestamp = some list_timestamp
list_type_from_child interval = some list_interval
list_type_from_child decimal = some list_decimal
list_type_from_child _ = none

unfoldable pub array_child_type : FfiType → Option FfiType
array_child_type array_bool = some bool
array_child_type array_i8 = some i8
array_child_type array_u8 = some u8
array_child_type array_i16 = some i16
array_child_type array_u16 = some u16
array_child_type array_i32 = some i32
array_child_type array_u32 = some u32
array_child_type array_i64 = some i64
array_child_type array_u64 = some u64
array_child_type array_f32 = some f32
array_child_type array_f64 = some f64
array_child_type array_uuid = some uuid
array_child_type array_date = some date
array_child_type array_time = some time
array_child_type array_timestamp = some timestamp
array_child_type array_interval = some interval
array_child_type array_decimal = some decimal
array_child_type _ = none

unfoldable pub array_type_from_child : FfiType → Option FfiType
array_type_from_child bool = some array_bool
array_type_from_child i8 = some array_i8
array_type_from_child u8 = some array_u8
array_type_from_child i16 = some array_i16
array_type_from_child u16 = some array_u16
array_type_from_child i32 = some array_i32
array_type_from_child u32 = some array_u32
array_type_from_child i64 = some array_i64
array_type_from_child u64 = some array_u64
array_type_from_child f32 = some array_f32
array_type_from_child f64 = some array_f64
array_type_from_child uuid = some array_uuid
array_type_from_child date = some array_date
array_type_from_child time = some array_time
array_type_from_child timestamp = some array_timestamp
array_type_from_child interval = some array_interval
array_type_from_child decimal = some array_decimal
array_type_from_child _ = none

unfoldable pub type_is_list : FfiType → Bool
type_is_list list = true
type_is_list list_bool = true
type_is_list list_i8 = true
type_is_list list_u8 = true
type_is_list list_i16 = true
type_is_list list_u16 = true
type_is_list list_i32 = true
type_is_list list_u32 = true
type_is_list list_i64 = true
type_is_list list_u64 = true
type_is_list list_f32 = true
type_is_list list_f64 = true
type_is_list list_uuid = true
type_is_list list_date = true
type_is_list list_time = true
type_is_list list_timestamp = true
type_is_list list_interval = true
type_is_list list_decimal = true
type_is_list _ = false

unfoldable pub type_is_array : FfiType → Bool
type_is_array array = true
type_is_array array_bool = true
type_is_array array_i8 = true
type_is_array array_u8 = true
type_is_array array_i16 = true
type_is_array array_u16 = true
type_is_array array_i32 = true
type_is_array array_u32 = true
type_is_array array_i64 = true
type_is_array array_u64 = true
type_is_array array_f32 = true
type_is_array array_f64 = true
type_is_array array_uuid = true
type_is_array array_date = true
type_is_array array_time = true
type_is_array array_timestamp = true
type_is_array array_interval = true
type_is_array array_decimal = true
type_is_array _ = false

unfoldable pub type_is_struct : FfiType → Bool
type_is_struct struct = true
type_is_struct _ = false

unfoldable pub type_is_map : FfiType → Bool
type_is_map map = true
type_is_map _ = false

unfoldable pub type_is_union : FfiType → Bool
type_is_union union = true
type_is_union _ = false

unfoldable pub type_is_fixed_width_scalar : FfiType → Bool
type_is_fixed_width_scalar bool = true
type_is_fixed_width_scalar i8 = true
type_is_fixed_width_scalar u8 = true
type_is_fixed_width_scalar i16 = true
type_is_fixed_width_scalar u16 = true
type_is_fixed_width_scalar i32 = true
type_is_fixed_width_scalar u32 = true
type_is_fixed_width_scalar i64 = true
type_is_fixed_width_scalar u64 = true
type_is_fixed_width_scalar f32 = true
type_is_fixed_width_scalar f64 = true
type_is_fixed_width_scalar uuid = true
type_is_fixed_width_scalar date = true
type_is_fixed_width_scalar time = true
type_is_fixed_width_scalar timestamp = true
type_is_fixed_width_scalar interval = true
type_is_fixed_width_scalar decimal = true
type_is_fixed_width_scalar ptr = true
type_is_fixed_width_scalar _ = false

-- The `switch` of tcc_ffi_type_size, behind its two tests.
unfoldable pub plain_size : FfiType → ℕ
plain_size bool = 1
plain_size i8 = 1
plain_size u8 = 1
plain_size i16 = 2
plain_size u16 = 2
plain_size i32 = 4
plain_size u32 = 4
plain_size i64 = 8
plain_size u64 = 8
plain_size f32 = 4
plain_size f64 = 8
plain_size ptr = 8
plain_size varchar = 16
plain_size blob = 16
plain_size uuid = 16
plain_size date = 4
plain_size time = 8
plain_size timestamp = 8
plain_size interval = 16
plain_size decimal = 24
plain_size struct = 32
plain_size map = 48
plain_size union = 40
plain_size _ = 0

unfoldable pub type_size : FfiType → ℕ
unfolding type_is_list type_is_array plain_size
type_size t = if type_is_list t then 32 else if type_is_array t then 32 else plain_size t

-- `duckdb_type`, as far as the extension names it
pub data DuckdbType : Type 0 where
  boolean tinyint utinyint smallint usmallint integer uinteger bigint ubigint : DuckdbType
  float double varchar blob uuid date time timestamp interval decimal : DuckdbType
  struct map union list array invalid : DuckdbType

-- The `switch` of tcc_ffi_type_to_duckdb_type, behind its two tests.
unfoldable pub plain_duckdb_type : FfiType → DuckdbType
plain_duckdb_type void = bigint
plain_duckdb_type bool = boolean
plain_duckdb_type i8 = tinyint
plain_duckdb_type u8 = utinyint
plain_duckdb_type i16 = smallint
plain_duckdb_type u16 = usmallint
plain_duckdb_type i32 = integer
plain_duckdb_type u32 = uinteger
plain_duckdb_type i64 = bigint
plain_duckdb_type u64 = ubigint
plain_duckdb_type f32 = float
plain_duckdb_type f64 = double
plain_duckdb_type ptr = ubigint
plain_duckdb_type varchar = DuckdbType.varchar
plain_duckdb_type blob = DuckdbType.blob
plain_duckdb_type uuid = DuckdbType.uuid
plain_duckdb_type date = DuckdbType.date
plain_duckdb_type time = DuckdbType.time
plain_duckdb_type timestamp = DuckdbType.timestamp
plain_duckdb_type interval = DuckdbType.interval
plain_duckdb_type decimal = DuckdbType.decimal
plain_duckdb_type struct = DuckdbType.struct
plain_duckdb_type map = DuckdbType.map
plain_duckdb_type union = DuckdbType.union
plain_duckdb_type _ = invalid

unfoldable pub type_to_duckdb_type : FfiType → DuckdbType
unfolding type_is_list type_is_array plain_duckdb_type
type_to_duckdb_type t =
    if type_is_list t
    then DuckdbType.list
    else if type_is_array t
    then DuckdbType.array
    else plain_duckdb_type t

-- The `switch` of tcc_ffi_type_to_token, behind its two tests; `none` is NULL.
unfoldable pub plain_token : FfiType → Option (List ℕ)
plain_token bool = some (codes "bool")
plain_token i8 = some (codes "i8")
plain_token u8 = some (codes "u8")
plain_token i16 = some (codes "i16")
plain_token u16 = some (codes "u16")
plain_token i32 = some (codes "i32")
plain_token u32 = some (codes "u32")
plain_token i64 = some (codes "i64")
plain_token u64 = some (codes "u64")
plain_token f32 = some (codes "f32")
plain_token f64 = some (codes "f64")
plain_token ptr = some (codes "ptr")
plain_token varchar = some (codes "varchar")
plain_token blob = some (codes "blob")
plain_token struct = some (codes "struct")
plain_token map = some (codes "map")
plain_token union = some (codes "union")
plain_token _ = none

unfoldable pub type_to_token : FfiType → Option (List ℕ)
unfolding type_is_list type_is_array plain_token
type_to_token t =
    if type_is_list t
    then some (codes "list")
    else if type_is_array t
    then some (codes "array")
    else plain_token t
