-- ===== src/Signature.antt =====
-- tcc_parse_signature of src/tcc_module.c: the return type and the arguments of a function that is
-- bound. An argument stands for what one index of the five arrays holds; `argc` is an int that no
-- list in memory overflows. What a signature that fails has parsed is freed, and leaves no trace
-- here.
pub mod Sound
mod Tests
use duck_tiny_cc.Prelude.{
  ◌==◌, length, codes, ℕ, ◌+◌, ◌*◌, Bool, true, false, ◌&&◌, ◌||◌, Option, none, some, List, [],
  ◌∷◌,
}
use duck_tiny_cc.Strings.{Chars}
use duck_tiny_cc.Growth.{u64}
use duck_tiny_cc.Grammar.{Csv, tokenized, split_csv_tokens}
use duck_tiny_cc.Result.{
  Result, parsed, err, ◌>>=◌, ◌>>◌, guard, no_memory, Calls, inside, nth, numbered,
}
use duck_tiny_cc.FfiType.{FfiType, struct, union}
use duck_tiny_cc.TypeToken.{rejected}
use duck_tiny_cc.Composite.{Field, struct_meta, union_meta, MapMeta, map_meta}
use duck_tiny_cc.TypeDesc.{ffi_type, size_of_array, type_token, typedesc_parse_token}

-- The one of `tcc_ffi_struct_meta_t`, `tcc_ffi_map_meta_t` and `tcc_ffi_union_meta_t` that is filled.
pub data Meta : Type 0 where
  no_meta : Meta
  struct_fields union_members : List Field → Meta
  map_types : MapMeta → Meta

pub record Argument : Type 0 where
  pub type : FfiType
  pub array_size : ℕ
  pub meta : Meta

pub record Signature : Type 0 where
  pub result : Argument
  pub arguments : List Argument

-- The three tests on the type of a descriptor.
abbrev pub meta_of : Calls → Chars → FfiType → Result Meta
meta_of calls token struct = do fs ← struct_meta calls token; parsed (struct_fields fs)
meta_of calls token FfiType.map = do m ← map_meta calls token; parsed (map_types m)
meta_of calls token union = do fs ← union_meta calls token; parsed (union_members fs)
meta_of calls token _ = parsed no_meta

-- A text in the place of that of the parser of type descriptors.
abbrev pub with_text {ℓ} : {A : Type ℓ} → Chars → Result A → Result A
with_text text (err t) = err text
with_text text r = r

-- A type token, by a descriptor that is freed afterwards.
unfoldable pub argument : Calls → Chars → Bool → Chars → Result Argument
argument calls text allow_void token = do
  d ← with_text text (typedesc_parse_token (inside calls 0) (length token + 1) token allow_void)
  m ← meta_of (inside calls 1) (type_token d) (ffi_type d)
  parsed (record { type = ffi_type d; array_size = size_of_array d; meta = m })

unfoldable pub arguments : Calls → ℕ → List Chars → Result (List Argument)
arguments calls i [] = parsed []
arguments calls i (token ∷ tokens) = do
  a ← argument (inside calls i) (codes "arg_types contains unsupported type token") false token
  rest ← arguments calls (i + 1) tokens
  parsed (a ∷ rest)

abbrev pub csv_tokens : Csv → Result (List Chars)
csv_tokens (tokenized l) = parsed l.items
csv_tokens (Csv.rejected text) = err (codes text)

-- The five arrays, for any arguments.
abbrev pub arrays : Calls → ℕ → Result (Unit {0})
arrays calls argc =
    guard
      ((argc == 0)
        || (nth calls 0 (u64 (4 * argc))
            && (nth calls 1 (u64 (8 * argc))
                && (nth calls 2 (u64 (40 * argc))
                    && (nth calls 3 (u64 (40 * argc)) && nth calls 4 (u64 (40 * argc)))))))
      no_memory

-- What follows the tests of the arguments; each token has one byte of fuel more than it has bytes.
unfoldable pub signature : Calls → Chars → Chars → Result Signature
signature calls return_type arg_types = do
  r ←
      argument (inside calls 0) (codes "return_type contains unsupported type token") true
        return_type
  tokens ← csv_tokens (split_csv_tokens (numbered (inside calls 1)) (some arg_types))
  arrays (inside calls 2) (length tokens)
  found ← arguments (inside calls 3) 0 tokens
  parsed (record { result = r; arguments = found })

unfoldable pub parse_signature : Calls → Option Chars → Option Chars → Result Signature
parse_signature calls none arg_types = err (codes "return_type is required")
parse_signature calls (some []) arg_types = err (codes "return_type is required")
parse_signature calls (some (c ∷ s)) none = err (codes "arg_types is required (use [] for no args)")
parse_signature calls (some (c ∷ s)) (some arg_types) = signature calls (c ∷ s) arg_types
