-- ===== src/Modes.antt =====
-- The modes of `tcc_module(...)` in src/tcc_module.c: the arguments of a call, the row that answers
-- it, and the handlers that stage what a compilation is given. A call runs under the lock of
-- `tcc_mode_requires_write_lock`, so it is one step on the state.
pub mod Compile
pub mod Dispatch
pub mod Effects
pub mod Kept
pub mod Defines
pub mod Failure
pub mod Registered
mod Tests
use Prim.Native.String.{String}
use duck_tiny_cc.Prelude.{
  ltb, if◌then◌else◌, codes, ℕ, zero, suc, ◌+◌, ◌/◌, ◌%◌, Bool, true, false, ◌||◌, Option, none,
  some, List, [], ◌∷◌, ◌++◌,
}
use duck_tiny_cc.Strings.{Chars, same}
use duck_tiny_cc.StringList.{StringList, Answer, append, Heap}
use duck_tiny_cc.Session.{Session, bump_version}
use duck_tiny_cc.Registry.{ModuleState, Destroyed}

-- `tcc_module_bind_data_t`; `symbol_ptr` is `none` where `has_symbol_ptr` is false. The mode is not
-- NULL: the bind callback puts `config_get` in the place of a missing one. The arguments that only
-- the code generator reads are not here.
pub record BindData : Type 0 where
  pub mode : Chars
  pub runtime_path : Option Chars
  pub source : Option Chars
  pub symbol : Option Chars
  pub sql_name : Option Chars
  pub stability : Option Chars
  pub include_path : Option Chars
  pub sysinclude_path : Option Chars
  pub library_path : Option Chars
  pub library : Option Chars
  pub option : Option Chars
  pub header : Option Chars
  pub define_name : Option Chars
  pub define_value : Option Chars
  pub symbol_name : Option Chars
  pub symbol_ptr : Option ℕ

-- The row that tcc_write_row puts out.
pub record Row : Type 0 where
  pub ok : Bool
  pub mode : Chars
  pub phase : Chars
  pub code : Chars
  pub message : Chars
  pub detail : Option Chars
  pub sql_name : Option Chars
  pub symbol : Option Chars
  pub artifact_id : Option Chars
  pub connection_scope : Chars

-- What a call leaves: the state, its row, and the artifacts it has destroyed.
pub record Outcome : Type 0 where
  pub state : ModuleState
  pub row : Row
  pub destroyed : Destroyed

-- A row of the mode `mode'`, with its phase, code and message.
abbrev pub write_row :
    Bool
    → Chars
    → String
    → String
    → Chars
    → Option Chars
    → Option Chars
    → Option Chars
    → String
    → Row
write_row ok' mode' phase' code' message' detail' sql_name' symbol' scope = record {
  ok = ok';
  mode = mode';
  phase = codes phase';
  code = codes code';
  message = message';
  detail = detail';
  sql_name = sql_name';
  symbol = symbol';
  artifact_id = none;
  connection_scope = codes scope;
}

abbrev pub answer : ModuleState → Row → Outcome
answer s r = record { state = s; row = r; destroyed = [] }

abbrev pub with_session : ModuleState → Session → ModuleState
with_session s t = record s { session = t }

-- `%llu` and `%llx`: 20 digits hold 64 bits.
abbrev pub digit : ℕ → ℕ
digit d = if ltb d 10 then 48 + d else 87 + d

abbrev pub digits : ℕ → ℕ → ℕ → Chars
digits zero base n = []
digits (suc fuel) base n =
    let rest = digits fuel base (n / base) in
    (if ltb n base then [] else rest) ++ digit (n % base) ∷ []

abbrev pub decimal : ℕ → Chars
decimal n = digits 20 10 n

abbrev pub mode_is : Chars → String → Bool
mode_is mode' name = same mode' (codes name)

abbrev pub any_mode : Chars → List String → Bool
any_mode mode' [] = false
any_mode mode' (name ∷ names) = mode_is mode' name || any_mode mode' names

abbrev pub write_modes : List String
write_modes =
    "config_set" ∷ "config_reset" ∷ "tcc_new_state" ∷ "add_include" ∷ "add_sysinclude"
    ∷ "add_library_path" ∷ "add_library" ∷ "add_option" ∷ "add_header" ∷ "add_source" ∷ "add_define"
    ∷ "add_symbol" ∷ "tinycc_bind" ∷ "compile" ∷ "quick_compile" ∷ "c_struct" ∷ "c_union"
    ∷ "c_bitfield" ∷ "c_enum" ∷ []

unfoldable pub mode_requires_write_lock : Chars → Bool
mode_requires_write_lock mode' = any_mode mode' write_modes

-- The lists that the `add_` modes of tcc_mode_add_staged append to.
pub data Target : Type 0 where
  to_include to_sysinclude to_library_path to_library to_option to_header to_source : Target

unfoldable pub target_of : Chars → Option Target
target_of mode' =
    if mode_is mode' "add_include"
    then some to_include
    else if mode_is mode' "add_sysinclude"
    then some to_sysinclude
    else if mode_is mode' "add_library_path"
    then some to_library_path
    else if mode_is mode' "add_library"
    then some to_library
    else if mode_is mode' "add_option"
    then some to_option
    else if mode_is mode' "add_header"
    then some to_header
    else if mode_is mode' "add_source"
    then some to_source
    else none

unfoldable pub value_of : Target → BindData → Option Chars
value_of to_include b = b.include_path
value_of to_sysinclude b = b.sysinclude_path
value_of to_library_path b = b.library_path
value_of to_library b = b.library
value_of to_option b = b.option
value_of to_header b = b.header
value_of to_source b = b.source

unfoldable pub label_of : Target → String
label_of to_include = "include path added"
label_of to_sysinclude = "sysinclude path added"
label_of to_library_path = "library path added"
label_of to_library = "library added"
label_of to_option = "compiler option added"
label_of to_header = "header source added"
label_of to_source = "source appended"

unfoldable pub arg_name_of : Target → String
arg_name_of to_include = "include_path"
arg_name_of to_sysinclude = "sysinclude_path"
arg_name_of to_library_path = "library_path"
arg_name_of to_library = "library"
arg_name_of to_option = "option"
arg_name_of to_header = "header"
arg_name_of to_source = "source"

unfoldable pub get_target : Target → Session → StringList
get_target to_include s = s.include_paths
get_target to_sysinclude s = s.sysinclude_paths
get_target to_library_path s = s.library_paths
get_target to_library s = s.libraries
get_target to_option s = s.options
get_target to_header s = s.headers
get_target to_source s = s.sources

unfoldable pub put_target : Target → StringList → Session → Session
put_target to_include l s = record s { include_paths = l }
put_target to_sysinclude l s = record s { sysinclude_paths = l }
put_target to_library_path l s = record s { library_paths = l }
put_target to_library l s = record s { libraries = l }
put_target to_option l s = record s { options = l }
put_target to_header l s = record s { headers = l }
put_target to_source l s = record s { sources = l }

abbrev pub store_target : Target → Session → Answer → Bool × Session
store_target t s (true, l) = (true, bump_version (put_target t l s))
store_target t s (false, l) = (false, put_target t l s)

unfoldable pub stage : Heap → Target → Option Chars → Session → Bool × Session
stage heap t none s = (false, s)
stage heap t (some v) s = store_target t s (append (heap 0) (heap 1) (get_target t s) v)

abbrev pub staged : ModuleState → BindData → Target → Bool × Session → Outcome
staged s b t (true, u) =
    answer (with_session s u)
      (write_row true b.mode "state" "OK" (codes (label_of t)) (value_of t b) none none "database")
staged s b t (false, u) = answer (with_session s u) (
    write_row false b.mode "bind" "E_MISSING_ARGS" (codes (arg_name_of t) ++ codes " is required")
      none none none "database")

abbrev pub add_to : Heap → ModuleState → BindData → Option Target → Outcome
add_to heap s b none = answer s (
    write_row false b.mode "bind" "E_BAD_MODE" (codes "unknown add mode") none none none "database")
add_to heap s b (some t) = staged s b t (stage heap t (value_of t b) s.session)

unfoldable pub mode_add_staged : Heap → ModuleState → BindData → Outcome
mode_add_staged heap s b = add_to heap s b (target_of b.mode)
