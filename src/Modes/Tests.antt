-- ===== src/Modes/Tests.antt =====
-- Calls of `tcc_module(...)` at concrete arguments.
use duck_tiny_cc.Prelude.{
  ◌==◌, codes, ℕ, ◌≡◌, refl, true, false, not, Option, none, some, [], ◌∷◌, arith,
}
use duck_tiny_cc.Growth.{grow, string_list_reserve}
use duck_tiny_cc.Strings.{Chars, same, starts_with}
use duck_tiny_cc.StringList.{empty_list, append, Heap}
use duck_tiny_cc.Session.{Session, stage_define}
use duck_tiny_cc.Registry.{Artifact, RegisteredEntry, ModuleState, find_sql_name}
use duck_tiny_cc.Modes.{BindData, write_row, answer, mode_is, mode_requires_write_lock}
use duck_tiny_cc.Modes.Compile.{built, compile_named}
use duck_tiny_cc.Modes.Dispatch.{World, add_define, command_of, run, dispatch}
use duck_tiny_cc.Modes.Effects.{Untouched, read_lock-Untouched}
use duck_tiny_cc.Modes.Failure.{generates, failed_call}
use duck_tiny_cc.Modes.Defines.{empty_define_refused}
use duck_tiny_cc.Modes.Registered.{Registers, compile_named-Registers, copy_failure_destroys_twice}
use duck_tiny_cc.Registry.Names.{distinct_names}
use duck_tiny_cc.Modes.Kept.{view}

abbrev session : Session
session = record {
  runtime_path = none;
  bound_symbol = none;
  bound_sql_name = none;
  bound_stability = none;
  include_paths = empty_list;
  sysinclude_paths = empty_list;
  library_paths = empty_list;
  libraries = empty_list;
  options = empty_list;
  headers = empty_list;
  sources = empty_list;
  define_names = empty_list;
  define_values = empty_list;
  symbol_names = empty_list;
  symbol_ptrs = [];
  symbol_capacity = 0;
  config_version = 4;
  state_id = 2;
}

abbrev artifact : ℕ → Artifact
artifact i = record { id = i; state_id = 2 }

abbrev registered : RegisteredEntry
registered = record {
  sql_name = some (codes "twice");
  symbol = some (codes "ffi_twice");
  state_id = 2;
  artifact = some (artifact 1);
}

abbrev state : ModuleState
state = record { session = session; entries = registered ∷ []; entry_capacity = 8 }

abbrev call : Chars → Option Chars → BindData
call mode' value = record {
  mode = mode';
  runtime_path = none;
  source = none;
  symbol = value;
  sql_name = none;
  stability = none;
  include_path = value;
  sysinclude_path = none;
  library_path = none;
  library = none;
  option = none;
  header = none;
  define_name = value;
  define_value = some [];
  symbol_name = none;
  symbol_ptr = none;
}

-- An allocator that refuses the copy of a SQL name.
abbrev forgetful : Heap
forgetful i bytes = not (i == 1)

abbrev world : World
world = record {
  heap = λ i bytes. true;
  default_path = none;
  made = built (codes "ffi_thrice") (artifact 7);
  c_helpers = λ s b runtime.
      answer s (write_row false b.mode "load" "E_INIT_FAILED" [] none none none "database");
  preview = λ s b. answer s (write_row true b.mode "codegen" "OK" [] none none none "database");
}

-- A define with an empty value is refused.
empty_define :
    (dispatch world state (call (codes "add_define") (some (codes "NDEBUG")))).row.ok ≡ false
unfolding dispatch run command_of add_define stage_define append string_list_reserve grow same
    starts_with
empty_define = refl

read_lock : mode_requires_write_lock (codes "add_everything") ≡ false
unfolding mode_requires_write_lock same
read_lock = refl

no_preview : mode_is (codes "add_everything") "codegen_preview" ≡ false
unfolding same
no_preview = refl

no_code : generates (command_of (codes "add_define")) ≡ false
unfolding command_of same starts_with
no_code = refl

distinct_state : distinct_names state.entries ≡ true
unfolding find_sql_name
distinct_state = refl

thrice_is_new : find_sql_name state.entries (codes "thrice") ≡ none
unfolding find_sql_name same
thrice_is_new = refl

read_lock-Untouched_example :
    Untouched state (dispatch world state (call (codes "add_everything") none))
read_lock-Untouched_example =
    read_lock-Untouched world state (call (codes "add_everything") none) read_lock no_preview

failed_call_example :
    view (dispatch world state (call (codes "add_define") (some (codes "NDEBUG")))).state.session
    ≡ view session
failed_call_example =
    failed_call world state (call (codes "add_define") (some (codes "NDEBUG"))) no_code empty_define

compile_named-Registers_example : Registers state.entries (codes "thrice") (
    compile_named world.heap world.made state
      (call (codes "compile") none)
      none
      (codes "thrice")
      (codes "thrice"))
compile_named-Registers_example =
    compile_named-Registers world.heap world.made state (call (codes "compile") none) none
      (codes "thrice") (codes "thrice") distinct_state

copy_failure_destroys_twice_example :
    (compile_named forgetful world.made state
      (call (codes "compile") none)
      none
      (codes "thrice")
      (codes "thrice")).destroyed
    ≡ artifact 7 ∷ artifact 7 ∷ []
copy_failure_destroys_twice_example =
    copy_failure_destroys_twice forgetful state (call (codes "compile") none) none (codes "thrice")
      (codes "thrice") (codes "ffi_thrice") (artifact 7) thrice_is_new (omega arith) refl

empty_define_refused_example :
    (add_define world state (call (codes "add_define") (some (codes "NDEBUG")))).row.ok ≡ false
empty_define_refused_example =
    empty_define_refused world state (call (codes "add_define") (some (codes "NDEBUG"))) refl
