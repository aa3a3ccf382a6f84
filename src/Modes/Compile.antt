-- ===== src/Modes/Compile.antt =====
-- `compile` and `quick_compile` in src/tcc_module.c. What the code generator and TinyCC make of the
-- sources (tcc_codegen_compile_and_load_module) is an argument: a loaded module, or a message.
use Prim.Native.String.{String}
use duck_tiny_cc.Prelude.{
  if◌then◌else◌, take, codes, ℕ, Bool, true, false, ◌&&◌, ◌||◌, Option, none, some, [], ◌∷◌, ◌++◌,
}
use duck_tiny_cc.Strings.{Chars, before, is_empty}
use duck_tiny_cc.StringList.{Heap}
use duck_tiny_cc.Session.{effective_symbol, effective_sql_name}
use duck_tiny_cc.Registry.{Artifact, ModuleState, find_sql_name, Destroyed, store_metadata}
use duck_tiny_cc.Modes.{BindData, Outcome, write_row, answer, decimal, mode_is}

pub data Built : Type 0 where
  built : (module_symbol : Chars) (artifact : Artifact) → Built
  not_built : (message : Chars) → Built

-- strstr(s, needle) != NULL
abbrev pub mentions : Chars → String → Bool
mentions s needle = elim (before (codes needle) s) [ none ↦ false | some a ↦ true ]

-- Phase, code and message; the last case leaves what the caller has put there.
unfoldable pub classify_error_message : Chars → String × String × String
classify_error_message s =
    if mentions s "wrapper_mode"
    then ("bind", "E_BAD_WRAPPER_MODE", "invalid wrapper_mode")
    else if mentions s "stability"
    then ("bind", "E_BAD_STABILITY", "invalid stability")
    else if mentions s "return_type"
        || (mentions s "arg_types"
            || (mentions s "struct token"
                || (mentions s "map token" || mentions s "fixed-width scalar tokens only")))
    then ("bind", "E_BAD_SIGNATURE", "invalid return_type/arg_types")
    else if mentions s "failed to generate codegen wrapper" || mentions s "out of memory"
    then ("codegen", "E_CODEGEN_FAILED", "ffi codegen failed")
    else if mentions s "no persistent extension connection"
    then ("load", "E_NO_CONNECTION", "no persistent extension connection available")
    else if mentions s "generated module init returned false"
    then ("load", "E_INIT_FAILED", "generated module init returned false")
    else ("compile", "E_COMPILE_FAILED", "compile failed")

abbrev pub if_nonempty : Chars → Option Chars
if_nonempty [] = none
if_nonempty (c ∷ s) = some (c ∷ s)

-- snprintf("%s@ffi_state_%llu") into 256 bytes
abbrev pub artifact_name : Chars → ℕ → Chars
artifact_name name id' = take 255 ((name ++ codes "@ffi_state_") ++ decimal id')

-- After the load: the metadata is stored, or the artifact destroyed.
abbrev pub stored :
    BindData → Option Chars → Chars → Chars → Artifact → Bool × ModuleState × Destroyed → Outcome
stored b runtime sql_name' target a (true, t, gone) = record {
  state = t;
  row =
      record (write_row true b.mode "load" "OK"
        (codes "compiled and registered SQL function via codegen") runtime (some sql_name')
        (some target) "database") { artifact_id = some (artifact_name sql_name' a.state_id) };
  destroyed = gone;
}
stored b runtime sql_name' target a (false, t, gone) = record {
  state = t;
  row =
      write_row false b.mode "register" "E_STORE_FAILED"
        (codes "failed to store ffi module artifact metadata") none (some sql_name') (some target)
        "connection";
  destroyed = gone ++ a ∷ [];
}

unfoldable pub finish_compile :
    Heap → ModuleState → BindData → Option Chars → Chars → Chars → Chars → Artifact → Outcome
finish_compile heap s b runtime sql_name' target module_symbol a =
    stored b runtime sql_name' target a (store_metadata heap s sql_name' module_symbol a.state_id a)

-- A name that is not registered yet.
abbrev pub compile_fresh :
    Heap → ModuleState → BindData → Option Chars → Chars → Chars → Built → Outcome
compile_fresh heap s b runtime sql_name' target (not_built message') =
    let (phase', code', text) = classify_error_message message' in
    answer s (
      write_row false b.mode phase' code' (codes text) (if_nonempty message') (some sql_name')
        (some target) "database")
compile_fresh heap s b runtime sql_name' target (built module_symbol a) =
    finish_compile heap s b runtime sql_name' target module_symbol a

abbrev pub compile_unless :
    Heap → Built → ModuleState → BindData → Option Chars → Chars → Chars → Option ℕ → Outcome
compile_unless heap made s b runtime sql_name' target (some i) = answer s (
    write_row false b.mode "load" "E_INIT_FAILED" (codes "generated module init returned false")
      (some (codes "sql_name already registered; use tcc_new_state to reset")) (some sql_name')
      (some target) "database")
compile_unless heap made s b runtime sql_name' target none =
    compile_fresh heap s b runtime sql_name' target made

-- The part below the checks of the arguments, for a name and a symbol that are there.
unfoldable pub compile_named :
    Heap → Built → ModuleState → BindData → Option Chars → Chars → Chars → Outcome
compile_named heap made s b runtime sql_name' target =
    compile_unless heap made s b runtime sql_name' target (find_sql_name s.entries sql_name')

-- The symbol, and the SQL name, which is the symbol where there is no other.
abbrev pub compile_target :
    Heap → Built → ModuleState → BindData → Option Chars → Option Chars → Option Chars → Outcome
compile_target heap made s b runtime sql_name' none = answer s (
    write_row false b.mode "bind" "E_MISSING_ARGS" (codes "symbol is required (bind or argument)")
      none sql_name' none "database")
compile_target heap made s b runtime none (some y) = compile_named heap made s b runtime y y
compile_target heap made s b runtime (some n) (some y) = compile_named heap made s b runtime n y

unfoldable pub mode_compile : Heap → Built → ModuleState → BindData → Option Chars → Outcome
mode_compile heap made s b runtime =
    let target = effective_symbol s.session b.symbol in
    let sql_name' = effective_sql_name s.session b.sql_name target in
    if mode_is b.mode "quick_compile" && is_empty b.source
    then answer s (
        write_row false b.mode "bind" "E_MISSING_ARGS"
          (codes "source is required in quick_compile mode") none sql_name' target "connection")
    else compile_target heap made s b runtime sql_name' target
