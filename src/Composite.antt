-- ===== src/Composite.antt =====
-- The tokens of compounds in src/tcc_module.c: tcc_parse_composite_fields_inner and the parsers of
-- `struct<...>`, `map<...>` and `union<...>`. A list of fields stands for the four arrays that the
-- source fills side by side, all of the same capacity. Counts and capacities are ints in the source:
-- they stay below 2 ^ 31 for a token of fewer than 2 ^ 29 bytes, and no wrap-around is modelled for a
-- longer one. Pointers and sizes have 8 bytes.
pub mod Texts
pub mod Sound
pub mod Metas
mod Tests
use duck_tiny_cc.Prelude.{
  ltb, ◌==◌, if◌then◌else◌, length, take, drop, codes, ℕ, zero, suc, ◌+◌, ◌-◌, ◌*◌, Bool, true,
  false, not, ◌&&◌, Option, none, some, List, [], ◌∷◌, ◌++◌,
}
use duck_tiny_cc.Strings.{Chars, trim, is_identifier_token, init}
use duck_tiny_cc.Growth.{u64}
use duck_tiny_cc.Result.{
  Result, parsed, err, unfinished, ◌>>=◌, ◌>>◌, guard, no_memory, Calls, inside, nth, numbered,
  copied,
}
use duck_tiny_cc.Session.{strdup}
use duck_tiny_cc.Grammar.{next_top_level_part, find_top_level_char, parts_after}
use duck_tiny_cc.FfiType.{FfiType, type_size}
use duck_tiny_cc.TypeToken.{
  Parsed, accepted, rejected, out_of_fuel, is_wrapped, is_void, parse_type_token,
}
use duck_tiny_cc.Modes.{decimal}

-- What one index of the four arrays holds.
pub record Field : Type 0 where
  pub name : Chars
  pub token : Chars
  pub type : FfiType
  pub size : ℕ

-- The string before the byte at an index, and the one after it.
abbrev pub cut : Chars → Option ℕ → Option (Chars × Chars)
cut s none = none
cut s (some i) = some (take i s, drop (i + 1) s)

-- The parts that `while (cur && *cur)` goes through.
unfoldable pub field_texts : ℕ → Chars → Option (List Chars)
field_texts zero s = none
field_texts (suc fuel) [] = some []
field_texts (suc fuel) (c ∷ s) = parts_after (field_texts fuel) (next_top_level_part (c ∷ s) 59)

abbrev pub nonempty_or : Chars → Chars → Result Chars
nonempty_or text [] = err text
nonempty_or text (c ∷ s) = parsed (c ∷ s)

-- The name and the type token of a part that is trimmed; `count` fields stand before it.
abbrev pub name_and_type :
    Bool → Chars → ℕ → Chars → Option (Chars × Chars) → Result (Chars × Chars)
name_and_type auto_names kind count part (some (a, b)) = do
  guard (is_identifier_token (trim a)) (kind ++ codes " field names must be identifiers")
  type ← nonempty_or (kind ++ codes " field type is missing") (trim b)
  parsed (trim a, type)
name_and_type true kind count part none = parsed (codes "f" ++ decimal (count + 1), part)
name_and_type false kind count part none = err (kind ++ codes " member must use name:type")

-- What a type token may be parsed as.
abbrev pub field_type : Chars → Parsed → Result FfiType
field_type kind (accepted t n) = do
  guard (not (is_void t)) (kind ++ codes " fields cannot use void")
  guard (ltb 0 (type_size t)) (kind ++ codes " field has unsupported storage type")
  parsed t
field_type kind rejected = err (kind ++ codes " field type token is unsupported")
field_type kind out_of_fuel = unfinished

abbrev pub doubled : ℕ → ℕ
doubled room = if room == 0 then 4 else room * 2

-- Room for one more field: the new capacity of the four arrays.
unfoldable pub grow_fields : Calls → ℕ → ℕ → Result ℕ
grow_fields calls count room =
    let new = doubled room in
    if ltb count room then parsed room else do
      guard
          (nth calls 1 (u64 (8 * new))
            && (nth calls 2 (u64 (8 * new))
                && (nth calls 3 (u64 (4 * new)) && nth calls 4 (u64 (8 * new)))))
          no_memory
      parsed new

-- One round of the loop, over a part.
unfoldable pub take_field : Calls → Bool → Chars → List Field → ℕ → Chars → Result (Field × ℕ)
take_field calls auto_names kind fields room text = do
  part ← nonempty_or (kind ++ codes " token contains empty field") (trim text)
  p ← name_and_type auto_names kind (length fields) part (cut part (find_top_level_char part 58))
  t ← field_type kind (parse_type_token (numbered (inside calls 0)) (length (p.1) + 1) (p.1) false)
  space ← grow_fields calls (length fields) room
  name ← copied (strdup (nth calls 5) (p.0))
  token ← copied (strdup (nth calls 6) (p.1))
  parsed (record { name = name; token = token; type = t; size = type_size t }, space)

unfoldable pub take_fields :
    Calls → Bool → Chars → List Field → ℕ → List Chars → Result (List Field × ℕ)
take_fields calls auto_names kind fields room [] = parsed (fields, room)
take_fields calls auto_names kind fields room (text ∷ texts) =
    take_field (inside calls (length fields)) auto_names kind fields room text >>= λ r.
    take_fields calls auto_names kind (fields ++ r.0 ∷ []) (r.1) texts

abbrev pub some_field : Chars → List Field × ℕ → Result (List Field × ℕ)
some_field kind ([], room) = err (kind ++ codes " token requires at least one field")
some_field kind (f ∷ fs, room) = parsed (f ∷ fs, room)

abbrev pub fields_of : Calls → Bool → Chars → Option (List Chars) → Result (List Field × ℕ)
fields_of calls auto_names kind none = unfinished
fields_of calls auto_names kind (some texts) =
    take_fields calls auto_names kind [] 0 texts >>= some_field kind

-- The fields, and the capacity of the arrays that hold them. Each part is shorter than what is left,
-- so `length inner + 1` rounds are enough.
unfoldable pub composite_arrays : Calls → Bool → Chars → Chars → Result (List Field × ℕ)
composite_arrays calls auto_names kind inner =
    fields_of calls auto_names kind (field_texts (length inner + 1) inner)

-- What the caller is given: the arrays and the count.
unfoldable pub composite_fields : Calls → Bool → Chars → Chars → Result (List Field)
composite_fields calls auto_names kind inner =
    composite_arrays calls auto_names kind inner >>= λ r. parsed (r.0)

-- The bytes between the brackets, behind a word of `n` bytes.
abbrev pub between : ℕ → Chars → Chars
between n token = drop (n + 1) (init token)

unfoldable pub struct_meta : Calls → Chars → Result (List Field)
struct_meta calls token = do
  guard (is_wrapped (codes "struct") token) (codes "struct token must use struct<...>")
  guard (nth calls 0 (length token - 6)) no_memory
  composite_fields (inside calls 1) true (codes "struct") (between 6 token)

unfoldable pub union_meta : Calls → Chars → Result (List Field)
union_meta calls token = do
  guard (is_wrapped (codes "union") token) (codes "union token must use union<name:type;...>")
  guard (nth calls 0 (length token - 4)) no_memory
  composite_fields (inside calls 1) false (codes "union") (between 5 token)

-- `tcc_ffi_map_meta_t`
pub record MapMeta : Type 0 where
  pub key_token : Chars
  pub value_token : Chars
  pub key_type : FfiType
  pub value_type : FfiType
  pub key_size : ℕ
  pub value_size : ℕ

abbrev pub lone : Chars → Chars → Option ℕ → Result (Chars × Chars)
lone a b none = parsed (a, b)
lone a b (some i) = err (codes "map token must use exactly one ';' separator")

abbrev pub one_separator : Option (Chars × Chars) → Result (Chars × Chars)
one_separator none = err (codes "map token must use exactly one ';' separator")
one_separator (some (a, b)) = lone (trim a) (trim b) (find_top_level_char b 59)

abbrev pub map_part : Parsed → Result FfiType
map_part (accepted t n) = do
  guard (not (is_void t)) (codes "map key/value contains unsupported type token")
  parsed t
map_part rejected = err (codes "map key/value contains unsupported type token")
map_part out_of_fuel = unfinished

-- What follows the copy of the bytes between the brackets.
unfoldable pub map_parts : Calls → Chars → Result MapMeta
map_parts calls inner = do
  p ← one_separator (cut inner (find_top_level_char inner 59))
  k ← nonempty_or (codes "map token key/value type is missing") (p.0)
  v ← nonempty_or (codes "map token key/value type is missing") (p.1)
  key ← copied (strdup (nth calls 1) k)
  value ← copied (strdup (nth calls 2) v)
  kt ← map_part (parse_type_token (numbered (inside calls 3)) (length k + 1) k false)
  vt ← map_part (parse_type_token (numbered (inside calls 4)) (length v + 1) v false)
  guard (ltb 0 (type_size kt) && ltb 0 (type_size vt))
      (codes "map key/value has unsupported storage type")
  parsed (record {
    key_token = key;
    value_token = value;
    key_type = kt;
    value_type = vt;
    key_size = type_size kt;
    value_size = type_size vt;
  })

unfoldable pub map_meta : Calls → Chars → Result MapMeta
map_meta calls token = do
  guard (is_wrapped (codes "map") token) (codes "map token must use map<key_type;value_type>")
  guard (nth calls 0 (length token - 3)) no_memory
  map_parts calls (between 3 token)
