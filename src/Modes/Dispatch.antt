-- ===== src/Modes/Dispatch.antt =====
-- The dispatcher of `tcc_module(...)` in src/tcc_module.c, tcc_module_function, between the lock and
-- the unlock.
use Prim.Native.String.{String}
use duck_tiny_cc.Prelude.{
  if◌then◌else◌, length, take, codes, ℕ, Bool, true, false, not, ◌&&◌, ◌||◌, Option, none, some,
  ◌++◌,
}
use duck_tiny_cc.Strings.{Chars, starts_with, is_empty}
use duck_tiny_cc.StringList.{Heap}
use duck_tiny_cc.Session.{
  Session, strdup, bump_version, clear_bind, clear_build_state, set_runtime_path,
  session_runtime_path, stage_define, stage_symbol,
}
use duck_tiny_cc.Registry.{ModuleState}
use duck_tiny_cc.Modes.{
  BindData, Row, Outcome, write_row, answer, with_session, digits, decimal, mode_is,
  mode_add_staged,
}
use duck_tiny_cc.Modes.Compile.{Built, mode_compile}
use duck_tiny_cc.Tokens.{FunctionStability, function_stability_token, parse_function_stability}

-- What a call takes from outside: the allocator, the default runtime path, the result of a
-- compilation, and the modes that generate code (c_struct, c_union, c_bitfield, c_enum and
-- codegen_preview), which may leave any state behind.
pub record World : Type 0 where
  pub heap : Heap
  pub default_path : Option Chars
  pub made : Built
  pub c_helpers : ModuleState → BindData → Option Chars → Outcome
  pub preview : ModuleState → BindData → Outcome

abbrev pub said : Option Chars → String → Chars
said none d = codes d
said (some s) d = s

unfoldable pub config_set : World → ModuleState → BindData → Outcome
config_set w s b =
    let u = set_runtime_path (w.heap 0) b.runtime_path s.session in
    answer (with_session s u) (
      write_row true b.mode "config" "OK" (codes "session runtime updated")
        (some (said u.runtime_path "(empty)")) none none "connection")

unfoldable pub config_get : World → ModuleState → BindData → Outcome
config_get w s b = answer s (
    write_row true b.mode "config" "OK" (codes "session configuration")
      (some (
        take 255 (
          (((codes "runtime="
                ++ said (session_runtime_path w.default_path s.session b.runtime_path) "(unset)")
              ++ (codes " state_id=" ++ decimal s.session.state_id))
            ++ (codes " config_version=" ++ decimal s.session.config_version)))))
      none none "connection")

unfoldable pub config_reset : World → ModuleState → BindData → Outcome
config_reset w s b =
    answer (with_session s (clear_build_state (set_runtime_path (w.heap 0) none s.session))) (
      write_row true b.mode "config" "OK" (codes "session reset")
        (some (codes "runtime/build state cleared")) none none "database")

unfoldable pub new_state : World → ModuleState → BindData → Outcome
new_state w s b =
    let u = clear_build_state s.session in
    answer (with_session s u) (
      write_row true b.mode "state" "OK" (codes "new TinyCC build state prepared")
        (some (codes "state_id=" ++ decimal u.state_id)) none none "database")

abbrev pub store_failed : BindData → String → Row
store_failed b text =
    write_row false b.mode "state" "E_STORE_FAILED" (codes text) none none none "database"

abbrev pub missing : BindData → String → Row
missing b text =
    write_row false b.mode "bind" "E_MISSING_ARGS" (codes text) none none none "database"

abbrev pub defined : ModuleState → BindData → Bool × Session → Outcome
defined s b (true, u) =
    answer (with_session s u)
      (write_row true b.mode "state" "OK" (codes "define added") b.define_name none none "database")
defined s b (false, u) = answer (with_session s u) (store_failed b "failed to store define")

unfoldable pub add_define : World → ModuleState → BindData → Outcome
add_define w s b =
    if is_empty b.define_name
    then answer s (missing b "define_name is required")
    else defined s b
        (stage_define w.heap (said b.define_name "") (said b.define_value "1") s.session)

abbrev pub named_symbol : ModuleState → BindData → ℕ → Bool × Bool × Session → Outcome
named_symbol s b p (false, ok, u) =
    answer (with_session s u) (store_failed b "failed to grow symbol pointer array")
named_symbol s b p (true, false, u) =
    answer (with_session s u) (store_failed b "failed to store symbol name")
named_symbol s b p (true, true, u) = answer (with_session s u) (
    write_row true b.mode "state" "OK" (codes "symbol added")
      (some (codes "ptr=0x" ++ digits 16 16 p)) none b.symbol_name "database")

abbrev pub at_address : World → ModuleState → BindData → Option ℕ → Outcome
at_address w s b none = answer s (missing b "symbol_ptr is required")
at_address w s b (some p) =
    named_symbol s b p (stage_symbol w.heap (said b.symbol_name "") p s.session)

unfoldable pub add_symbol : World → ModuleState → BindData → Outcome
add_symbol w s b =
    if is_empty b.symbol_name
    then answer s (missing b "symbol_name is required")
    else at_address w s b b.symbol_ptr

abbrev pub bound : ModuleState → BindData → Option Chars → Option Chars → Option Chars → Outcome
bound s b symbol_copy name_copy token_copy =
    answer
      (with_session s (
        bump_version (record (clear_bind s.session) {
          bound_symbol = symbol_copy;
          bound_sql_name = name_copy;
          bound_stability = token_copy;
        })))
      (write_row true b.mode "bind" "OK" (codes "symbol binding updated")
        (some (said token_copy "consistent")) name_copy symbol_copy "connection")

-- The three copies, and then the binding or E_STORE_FAILED. `token` is the parsed stability, if one
-- was given.
unfoldable pub store_binding : World → ModuleState → BindData → Chars → Option String → Outcome
store_binding w s b symbol' token =
    let name = (if is_empty b.sql_name then symbol' else said b.sql_name "") in
    let symbol_copy = strdup (w.heap 0) symbol' in
    let name_copy = strdup (w.heap 1) name in
    let token_copy : Option Chars = (elim token [
      | none ↦ none
      | some t ↦ strdup (w.heap 2) (codes t)
    ]) in
    let token_lost : Bool = (elim token [ none ↦ false | some t ↦ is_empty token_copy ]) in
    if is_empty symbol_copy || (is_empty name_copy || token_lost)
    then answer s (
        write_row false b.mode "state" "E_STORE_FAILED" (codes "failed to store symbol binding")
          none b.sql_name b.symbol "database")
    else bound s b symbol_copy name_copy token_copy

abbrev pub bind_parsed : World → ModuleState → BindData → Option FunctionStability → Outcome
bind_parsed w s b none = answer s (
    write_row false b.mode "bind" "E_BAD_STABILITY" (codes "invalid stability")
      (some (codes "stability contains unsupported token")) b.sql_name b.symbol "database")
bind_parsed w s b (some t) =
    store_binding w s b (said b.symbol "") (some (function_stability_token t))

unfoldable pub tinycc_bind : World → ModuleState → BindData → Outcome
tinycc_bind w s b =
    if is_empty b.symbol
    then answer s (
        write_row false b.mode "bind" "E_MISSING_ARGS" (codes "symbol is required") none b.sql_name
          b.symbol "database")
    else if is_empty b.stability
    then store_binding w s b (said b.symbol "") none
    else bind_parsed w s b (parse_function_stability b.stability)

abbrev pub counted : String → ℕ → Chars
counted text n = codes text ++ decimal n

unfoldable pub list_session : World → ModuleState → BindData → Outcome
list_session w s b =
    let u = s.session in
    answer s (
      write_row true b.mode "registry" "OK" (codes "session summary")
        (some (
          take 255 (
            ((((((counted "registered=" (length s.entries)
                        ++ counted " sources=" (length u.sources.items))
                      ++ counted " headers=" (length u.headers.items))
                    ++ counted " includes=" (length u.include_paths.items))
                  ++ counted " libs=" (length u.libraries.items))
                ++ counted " symbols=" (length u.symbol_ptrs))
              ++ counted " state_id=" u.state_id))))
        none none "connection")

abbrev pub is_c_mode : Chars → Bool
is_c_mode m =
    mode_is m "c_struct" || (mode_is m "c_union" || (mode_is m "c_bitfield" || mode_is m "c_enum"))

-- The branches of tcc_module_function.
pub data Command : Type 0 where
  set_config get_config reset_config prepare_state stage_item name_define name_symbol : Command
  bind_symbol summarize generate_c preview_code compile_code unknown : Command

unfoldable pub command_of : Chars → Command
command_of m =
    if mode_is m "config_set"
    then set_config
    else if mode_is m "config_get"
    then get_config
    else if mode_is m "config_reset"
    then reset_config
    else if mode_is m "tcc_new_state"
    then prepare_state
    else if starts_with m (codes "add_")
        && (not (mode_is m "add_define") && not (mode_is m "add_symbol"))
    then stage_item
    else if mode_is m "add_define"
    then name_define
    else if mode_is m "add_symbol"
    then name_symbol
    else if mode_is m "tinycc_bind"
    then bind_symbol
    else if mode_is m "list"
    then summarize
    else if is_c_mode m
    then generate_c
    else if mode_is m "codegen_preview"
    then preview_code
    else if mode_is m "compile" || mode_is m "quick_compile"
    then compile_code
    else unknown

unfoldable pub run : World → ModuleState → BindData → Command → Outcome
run w s b set_config = config_set w s b
run w s b get_config = config_get w s b
run w s b reset_config = config_reset w s b
run w s b prepare_state = new_state w s b
run w s b stage_item = mode_add_staged w.heap s b
run w s b name_define = add_define w s b
run w s b name_symbol = add_symbol w s b
run w s b bind_symbol = tinycc_bind w s b
run w s b summarize = list_session w s b
run w s b generate_c =
    w.c_helpers s b (session_runtime_path w.default_path s.session b.runtime_path)
run w s b preview_code = w.preview s b
run w s b compile_code =
    mode_compile w.heap w.made s b (session_runtime_path w.default_path s.session b.runtime_path)
run w s b unknown =
    answer s (
      write_row false b.mode "bind" "E_BAD_MODE" (codes "unknown mode") none none none "connection")

-- tcc_module_function, for a state, arguments and a call that has not answered yet.
unfoldable pub dispatch : World → ModuleState → BindData → Outcome
dispatch w s b = run w s b (command_of b.mode)
