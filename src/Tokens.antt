-- ===== src/Tokens.antt =====
-- The small vocabularies of src/tcc_module.c: the stability of a function and the mode of its wrapper.
pub mod Parsing
use Prim.Native.String.{String}
use duck_tiny_cc.Prelude.{leb, ◌==◌, if◌then◌else◌, length, codes, ◌||◌, Option, none, some}
use duck_tiny_cc.Strings.{Chars, is_empty, trim, equals_ci}

-- `tcc_function_stability_t`
pub data FunctionStability : Type 0 where
  consistent volatile : FunctionStability

-- `tcc_wrapper_mode_t`
pub data WrapperMode : Type 0 where
  row_wrapper batch_wrapper : WrapperMode

-- NULL for a value outside the enumeration, which no value here is.
unfoldable pub function_stability_token : FunctionStability → String
function_stability_token consistent = "consistent"
function_stability_token volatile = "volatile"

unfoldable pub wrapper_mode_token : WrapperMode → String
wrapper_mode_token row_wrapper = "row"
wrapper_mode_token batch_wrapper = "chunk_scalar_loop"

-- The part between the spaces, where it is not empty and fits `char token[32]`.
abbrev pub short_token : Chars → Option Chars
short_token s = let t = trim s in if length t == 0 || leb 32 (length t) then none else some t

-- `none` is `return false`, with an error that names the argument.
unfoldable pub parse_function_stability : Option Chars → Option FunctionStability
parse_function_stability s = if is_empty s then some consistent else elim s [
  | none ↦ none
  | some v ↦ elim (short_token v) [
    | none ↦ none
    | some t ↦
        if equals_ci t (codes "consistent")
        then some consistent
        else if equals_ci t (codes "volatile")
        then some volatile
        else none
  ]
]

unfoldable pub parse_wrapper_mode : Option Chars → Option WrapperMode
parse_wrapper_mode s = if is_empty s then some row_wrapper else elim s [
  | none ↦ none
  | some v ↦ elim (short_token v) [
    | none ↦ none
    | some t ↦
        if equals_ci t (codes "row")
        then some row_wrapper
        else if equals_ci t (codes "chunk_scalar_loop")
        then some batch_wrapper
        else none
  ]
]
