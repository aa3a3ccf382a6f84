-- ===== src/Modes/Failure.antt =====
-- What a call that fails leaves of the session.
use Prim.Native.String.{String}
use duck_tiny_cc.Prelude.{
  if◌then◌else◌, length, ℕ, ◌+◌, ◌≡◌, refl, ap, ◌∙◌, Bool, true, false, ◌&&◌, Option, none, some,
  arith,
}
use duck_tiny_cc.Growth.{Reserved, reserved, failed, hangs, registry_reserve}
use duck_tiny_cc.Strings.{Chars, is_empty}
use duck_tiny_cc.StringList.{Heap}
use duck_tiny_cc.Session.{Session, session_runtime_path, stage_define, stage_symbol}
use duck_tiny_cc.Registry.{
  Artifact, ModuleState, find_sql_name, Stored, add_slot, store_at, store_metadata,
}
use duck_tiny_cc.Modes.{
  BindData, Outcome, mode_is, Target, target_of, value_of, stage, staged, add_to, mode_add_staged,
}
use duck_tiny_cc.Modes.Compile.{
  Built, built, not_built, stored, finish_compile, compile_fresh, compile_unless, compile_named,
  compile_target, mode_compile,
}
use duck_tiny_cc.Modes.Dispatch.{
  World, said, config_set, config_get, config_reset, new_state, defined, add_define, named_symbol,
  at_address, add_symbol, bound, store_binding, bind_parsed, tinycc_bind, list_session, Command,
  set_config, get_config, reset_config, prepare_state, stage_item, name_define, name_symbol,
  bind_symbol, summarize, generate_c, preview_code, compile_code, unknown, command_of, run,
  dispatch,
}
use duck_tiny_cc.Tokens.{FunctionStability, function_stability_token, parse_function_stability}
use duck_tiny_cc.Modes.Kept.{
  view, Keeps, stage-Keeps, stage_define-Keeps, KeepsSymbol, stage_symbol-Keeps,
}

abbrev pub generates : Command → Bool
generates generate_c = true
generates preview_code = true
generates _ = false

-- A row that reports a failure comes with the session it found.
abbrev pub Fails : Session → Outcome → Type 0
Fails s o = o.row.ok ≡ false → view o.state.session ≡ view s

Fails-if :
    (s : Session) (b : Bool) (x y : Outcome) → Fails s x → Fails s y → Fails s (if b then x else y)
Fails-if s true x y h k = h
Fails-if s false x y h k = k

staged-Fails :
    (s : ModuleState) (b : BindData) (t : Target) (r : Bool × Session)
    → Keeps s.session r
    → Fails s.session (staged s b t r)
staged-Fails s b t (true, u) h e = absurd (grind arith)
staged-Fails s b t (false, u) h e = h

add_to-Fails :
    (heap : Heap) (s : ModuleState) (b : BindData) (t : Option Target)
    → Fails s.session (add_to heap s b t)
add_to-Fails heap s b none = λ e. refl
add_to-Fails heap s b (some t) =
    staged-Fails s b t (stage heap t (value_of t b) s.session)
      (stage-Keeps heap t (value_of t b) s.session)

defined-Fails :
    (s : ModuleState) (b : BindData) (r : Bool × Session)
    → Keeps s.session r
    → Fails s.session (defined s b r)
defined-Fails s b (true, u) h e = absurd (grind arith)
defined-Fails s b (false, u) h e = h

add_define-Fails : (w : World) (s : ModuleState) (b : BindData) → Fails s.session (add_define w s b)
unfolding add_define
add_define-Fails w s b =
    Fails-if s.session (is_empty b.define_name) _ _ (λ e. refl)
      (defined-Fails s b
        (stage_define w.heap (said b.define_name "") (said b.define_value "1") s.session)
        (stage_define-Keeps w.heap (said b.define_name "") (said b.define_value "1") s.session))

named_symbol-Fails :
    (s : ModuleState) (b : BindData) (p : ℕ) (r : Bool × Bool × Session)
    → KeepsSymbol s.session r
    → Fails s.session (named_symbol s b p r)
named_symbol-Fails s b p (true, true, u) h e = absurd (grind arith)
named_symbol-Fails s b p (true, false, u) h e = h
named_symbol-Fails s b p (false, ok, u) h e = h

at_address-Fails :
    (w : World) (s : ModuleState) (b : BindData) (p : Option ℕ)
    → Fails s.session (at_address w s b p)
at_address-Fails w s b none = λ e. refl
at_address-Fails w s b (some p) =
    named_symbol-Fails s b p (stage_symbol w.heap (said b.symbol_name "") p s.session)
      (stage_symbol-Keeps w.heap (said b.symbol_name "") p s.session)

add_symbol-Fails : (w : World) (s : ModuleState) (b : BindData) → Fails s.session (add_symbol w s b)
unfolding add_symbol
add_symbol-Fails w s b =
    Fails-if s.session (is_empty b.symbol_name) _ _ (λ e. refl)
      (at_address-Fails w s b b.symbol_ptr)

bound-Fails :
    (s : ModuleState) (b : BindData) (x y z : Option Chars) → Fails s.session (bound s b x y z)
bound-Fails s b x y z e = absurd (grind arith)

store_binding-Fails :
    (w : World) (s : ModuleState) (b : BindData) (y : Chars) (t : Option String)
    → Fails s.session (store_binding w s b y t)
unfolding store_binding
store_binding-Fails w s b y t = Fails-if s.session _ _ _ (λ e. refl) (bound-Fails s b _ _ _)

bind_parsed-Fails :
    (w : World) (s : ModuleState) (b : BindData) (t : Option FunctionStability)
    → Fails s.session (bind_parsed w s b t)
bind_parsed-Fails w s b none = λ e. refl
bind_parsed-Fails w s b (some t) =
    store_binding-Fails w s b (said b.symbol "") (some (function_stability_token t))

tinycc_bind-Fails :
    (w : World) (s : ModuleState) (b : BindData) → Fails s.session (tinycc_bind w s b)
unfolding tinycc_bind
tinycc_bind-Fails w s b =
    Fails-if s.session (is_empty b.symbol) _ _ (λ e. refl)
      (Fails-if s.session (is_empty b.stability) _ _
        (store_binding-Fails w s b (said b.symbol "") none)
        (bind_parsed-Fails w s b (parse_function_stability b.stability)))

store_metadata-session :
    (heap : Heap) (s : ModuleState) (n y : Chars) (i : ℕ) (a : Artifact)
    → (store_metadata heap s n y i a).1.session ≡ s.session
unfolding store_metadata
store_metadata-session heap s n y i a = at (find_sql_name s.entries n)
  where
    slot : (r : Reserved) → (add_slot heap s n y i a r).1.session ≡ s.session
    slot (reserved room) = refl
    slot failed = refl
    slot hangs = refl

    at : (o : Option ℕ) → (store_at heap s n y i a o).1.session ≡ s.session
    at none = slot (registry_reserve (heap 0) s.entry_capacity (length s.entries + 1))
    at (some j) = refl

stored-session :
    (b : BindData) (runtime : Option Chars) (n y : Chars) (a : Artifact) (r : Stored)
    → (stored b runtime n y a r).state ≡ r.1
stored-session b runtime n y a (true, t, gone) = refl
stored-session b runtime n y a (false, t, gone) = refl

fresh-session :
    (heap : Heap) (s : ModuleState) (b : BindData) (runtime : Option Chars) (n y : Chars)
    (made : Built)
    → (compile_fresh heap s b runtime n y made).state.session ≡ s.session
unfolding finish_compile
fresh-session heap s b runtime n y (not_built message) = refl
fresh-session heap s b runtime n y (built m a) =
    ap (λ t. t.session) (stored-session b runtime n y a (store_metadata heap s n m a.state_id a))
    ∙ store_metadata-session heap s n m a.state_id a

named-session :
    (heap : Heap) (made : Built) (s : ModuleState) (b : BindData) (runtime : Option Chars)
    (n y : Chars)
    → (compile_named heap made s b runtime n y).state.session ≡ s.session
unfolding compile_named
named-session heap made s b runtime n y = unless (find_sql_name s.entries n)
  where
    unless : (o : Option ℕ) → (compile_unless heap made s b runtime n y o).state.session ≡ s.session
    unless none = fresh-session heap s b runtime n y made
    unless (some i) = refl

target-session :
    (heap : Heap) (made : Built) (s : ModuleState) (b : BindData) (runtime n y : Option Chars)
    → (compile_target heap made s b runtime n y).state.session ≡ s.session
target-session heap made s b runtime n none = refl
target-session heap made s b runtime none (some y) = named-session heap made s b runtime y y
target-session heap made s b runtime (some n) (some y) = named-session heap made s b runtime n y

if-session :
    (s : Session) (c : Bool) (x y : Outcome)
    → x.state.session ≡ s
    → y.state.session ≡ s
    → (if c then x else y).state.session ≡ s
if-session s true x y h k = h
if-session s false x y h k = k

pub mode_compile-session :
    (heap : Heap) (made : Built) (s : ModuleState) (b : BindData) (runtime : Option Chars)
    → (mode_compile heap made s b runtime).state.session ≡ s.session
unfolding mode_compile
mode_compile-session heap made s b runtime =
    if-session s.session (mode_is b.mode "quick_compile" && is_empty b.source) _ _ refl
      (target-session heap made s b runtime _ _)

run-Fails :
    (w : World) (s : ModuleState) (b : BindData) (c : Command)
    → generates c ≡ false
    → Fails s.session (run w s b c)
unfolding run config_set config_get config_reset new_state mode_add_staged list_session
run-Fails w s b set_config h e = absurd (grind arith)
run-Fails w s b get_config h e = refl
run-Fails w s b reset_config h e = absurd (grind arith)
run-Fails w s b prepare_state h e = absurd (grind arith)
run-Fails w s b stage_item h e = add_to-Fails w.heap s b (target_of b.mode) e
run-Fails w s b name_define h e = add_define-Fails w s b e
run-Fails w s b name_symbol h e = add_symbol-Fails w s b e
run-Fails w s b bind_symbol h e = tinycc_bind-Fails w s b e
run-Fails w s b summarize h e = refl
run-Fails w s b generate_c h e = absurd (grind arith)
run-Fails w s b preview_code h e = absurd (grind arith)
run-Fails w s b compile_code h e = ap view (
    mode_compile-session w.heap w.made s b
      (session_runtime_path w.default_path s.session b.runtime_path))
run-Fails w s b unknown h e = refl

-- A call that answers with a failure leaves the session as it found it, but for the capacity of its
-- arrays: what is staged and bound, the versions and the build. The modes that generate C code
-- (c_struct, c_union, c_bitfield, c_enum and codegen_preview) are left out.
pub failed_call :
    (w : World) (s : ModuleState) (b : BindData)
    → generates (command_of b.mode) ≡ false
    → (dispatch w s b).row.ok ≡ false
    → view (dispatch w s b).state.session ≡ view s.session
unfolding dispatch
failed_call w s b h e = run-Fails w s b (command_of b.mode) h e
