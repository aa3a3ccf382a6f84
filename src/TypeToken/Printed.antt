-- ===== src/TypeToken/Printed.antt =====
-- Types as a reader of the documents writes them, and their tokens.
use duck_tiny_cc.Prelude.{ltb, length, codes, ℕ, ◌+◌, ◌-◌, ◌*◌, ◌%◌, ◌^◌, Bool, ◌&&◌, [], ◌∷◌, ◌++◌}
use duck_tiny_cc.Strings.{Chars, is_digit, all_chars}
use duck_tiny_cc.FfiType.{
  FfiType, bool, i8, u8, i16, u16, i32, u32, i64, u64, f32, f64, varchar, blob, uuid, date, time,
  timestamp, interval, decimal, struct, ptr, union, list, array, list_type_from_child,
  array_type_from_child,
}
use duck_tiny_cc.TypeToken.{or_generic}

-- `bytes` is what stands between the brackets of a compound, and the digits of a size.
pub data Syntax : Type 0 where
  named : FfiType → Syntax
  struct_of map_of union_of : (bytes : Chars) → Syntax
  list_of suffixed : Syntax → Syntax
  sized : Syntax → (bytes : Chars) → Syntax

-- The token of a type that has no parts.
abbrev pub spelling : FfiType → Chars
spelling bool = codes "bool"
spelling i8 = codes "i8"
spelling u8 = codes "u8"
spelling i16 = codes "i16"
spelling u16 = codes "u16"
spelling i32 = codes "i32"
spelling u32 = codes "u32"
spelling i64 = codes "i64"
spelling u64 = codes "u64"
spelling f32 = codes "f32"
spelling f64 = codes "f64"
spelling ptr = codes "ptr"
spelling varchar = codes "varchar"
spelling blob = codes "blob"
spelling uuid = codes "uuid"
spelling date = codes "date"
spelling time = codes "time"
spelling timestamp = codes "timestamp"
spelling interval = codes "interval"
spelling decimal = codes "decimal"
spelling _ = []

abbrev pub is_spelled : FfiType → Bool
is_spelled t = ltb 0 (length (spelling t))

abbrev pub print : Syntax → Chars
print (named t) = spelling t
print (struct_of s) = codes "struct<" ++ (s ++ codes ">")
print (map_of s) = codes "map<" ++ (s ++ codes ">")
print (union_of s) = codes "union<" ++ (s ++ codes ">")
print (list_of t) = codes "list<" ++ (print t ++ codes ">")
print (suffixed t) = print t ++ codes "[]"
print (sized t ds) = print t ++ 91 ∷ (ds ++ codes "]")

-- The number that digits stand for, after the number `n`.
abbrev pub value : ℕ → Chars → ℕ
value n [] = n
value n (c ∷ s) = value (n * 10 + (c - 48)) s

abbrev pub type_of : Syntax → FfiType
type_of (named t) = t
type_of (struct_of s) = struct
type_of (map_of s) = FfiType.map
type_of (union_of s) = union
type_of (list_of t) = or_generic (list_type_from_child (type_of t)) list
type_of (suffixed t) = or_generic (list_type_from_child (type_of t)) list
type_of (sized t ds) = or_generic (array_type_from_child (type_of t)) array

-- The size that the program keeps: the number modulo 2 ^ 64.
abbrev pub size_of : Syntax → ℕ
size_of (sized t ds) = value 0 ds % 2 ^ 64
size_of _ = 0

-- Compounds have something between their brackets, what stands before `[` has at most 63 bytes, and
-- a size is not 0 modulo 2 ^ 64.
abbrev pub is_printable : Syntax → Bool
is_printable (named t) = is_spelled t
is_printable (struct_of s) = ltb 0 (length s)
is_printable (map_of s) = ltb 0 (length s)
is_printable (union_of s) = ltb 0 (length s)
is_printable (list_of t) = is_printable t
is_printable (suffixed t) = is_printable t && ltb (length (print t)) 64
is_printable (sized t ds) =
    is_printable t
    && (ltb (length (print t)) 64 && (all_chars is_digit ds && ltb 0 (value 0 ds % 2 ^ 64)))
