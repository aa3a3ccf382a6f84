-- ===== src/Modes/Effects.antt =====
-- What the modes change: which calls may run under the read lock.
use Prim.Native.String.{String}
use duck_tiny_cc.Prelude.{
  Bool-cases, length, get_or, codes, ℕ, zero, suc, ◌<◌, ◌≡◌, refl, ap, inl, inr, Bool, true, false,
  not, ◌||◌, Option, none, some, List, [], ◌∷◌, arith,
}
use duck_tiny_cc.StringList.{Heap}
use duck_tiny_cc.Registry.{ModuleState}
use duck_tiny_cc.Modes.{
  BindData, Outcome, mode_is, any_mode, write_modes, mode_requires_write_lock, Target, target_of,
  add_to, mode_add_staged,
}
use duck_tiny_cc.Modes.Dispatch.{
  World, config_get, list_session, is_c_mode, Command, get_config, stage_item, summarize, unknown,
  command_of, run, dispatch,
}
use duck_tiny_cc.Strings.{Chars, starts_with}

or_false : (a b : Bool) → (a || b) ≡ false → (a ≡ false) × (b ≡ false)
or_false false b h = (refl, h)
or_false true b h = absurd (grind arith)

not_mode :
    (m : Chars) (names : List String)
    → any_mode m names ≡ false
    → (i : ℕ) → i < length names
    → mode_is m (get_or names i "") ≡ false
not_mode m [] h i k = absurd (omega arith)
not_mode m (name ∷ names) h zero k = (or_false (mode_is m name) (any_mode m names) h).0
not_mode m (name ∷ names) h (suc i) k =
    not_mode m names (or_false (mode_is m name) (any_mode m names) h).1 i (omega arith)

abbrev pub Untouched : ModuleState → Outcome → Type 0
Untouched s o = (o.state ≡ s) × (o.destroyed ≡ [])

staged-Untouched :
    (heap : Heap) (s : ModuleState) (b : BindData)
    → target_of b.mode ≡ none
    → Untouched s (mode_add_staged heap s b)
unfolding mode_add_staged
staged-Untouched heap s b h =
    let e : add_to heap s b (target_of b.mode) ≡ add_to heap s b none = ap (add_to heap s b) h in
    (ap (λ o. o.state) e, ap (λ o. o.destroyed) e)

no_target :
    (m : Chars)
    → mode_is m "add_include" ≡ false
    → mode_is m "add_sysinclude" ≡ false
    → mode_is m "add_library_path" ≡ false
    → mode_is m "add_library" ≡ false
    → mode_is m "add_option" ≡ false
    → mode_is m "add_header" ≡ false
    → mode_is m "add_source" ≡ false
    → target_of m ≡ none
unfolding target_of
no_target m a b c d e f g = rw (a, b, c, d, e, f, g) refl

-- The branches that change nothing; a staged item does where there is no list for it.
abbrev reads : Bool → Command → Bool
reads listed get_config = true
reads listed summarize = true
reads listed unknown = true
reads listed stage_item = not listed
reads listed _ = false

abbrev has_target : Option Target → Bool
has_target none = false
has_target (some t) = true

command-reads :
    (m : Chars)
    → mode_requires_write_lock m ≡ false
    → mode_is m "codegen_preview" ≡ false
    → reads (has_target (target_of m)) (command_of m) ≡ true
unfolding mode_requires_write_lock command_of
command-reads m h apart =
    let never = not_mode m write_modes h in
    let set' : mode_is m "config_set" ≡ false = never 0 (omega arith) in
    let reset : mode_is m "config_reset" ≡ false = never 1 (omega arith) in
    let new : mode_is m "tcc_new_state" ≡ false = never 2 (omega arith) in
    let inc : mode_is m "add_include" ≡ false = never 3 (omega arith) in
    let sysinc : mode_is m "add_sysinclude" ≡ false = never 4 (omega arith) in
    let libpath : mode_is m "add_library_path" ≡ false = never 5 (omega arith) in
    let lib : mode_is m "add_library" ≡ false = never 6 (omega arith) in
    let opt : mode_is m "add_option" ≡ false = never 7 (omega arith) in
    let head : mode_is m "add_header" ≡ false = never 8 (omega arith) in
    let src : mode_is m "add_source" ≡ false = never 9 (omega arith) in
    let def : mode_is m "add_define" ≡ false = never 10 (omega arith) in
    let sym' : mode_is m "add_symbol" ≡ false = never 11 (omega arith) in
    let bnd : mode_is m "tinycc_bind" ≡ false = never 12 (omega arith) in
    let cmp : mode_is m "compile" ≡ false = never 13 (omega arith) in
    let quick : mode_is m "quick_compile" ≡ false = never 14 (omega arith) in
    let st : mode_is m "c_struct" ≡ false = never 15 (omega arith) in
    let un : mode_is m "c_union" ≡ false = never 16 (omega arith) in
    let bf : mode_is m "c_bitfield" ≡ false = never 17 (omega arith) in
    let en : mode_is m "c_enum" ≡ false = never 18 (omega arith) in
    let c_mode : is_c_mode m ≡ false = rw (st, un, bf, en) refl in
    let compiles : (mode_is m "compile" || mode_is m "quick_compile") ≡ false =
      rw (cmp, quick) refl in
    let none_staged : target_of m ≡ none = no_target m inc sysinc libpath lib opt head src in
    rw (set', reset, new, def, sym', bnd, c_mode, compiles, none_staged)
      (elim (Bool-cases (mode_is m "config_get")) [
        | inl e ↦ rw e refl
        | inr e ↦ rw e (elim (Bool-cases (starts_with m (codes "add_"))) [
          | inl f ↦ rw f refl
          | inr f ↦ rw f (elim (Bool-cases (mode_is m "list")) [
            | inl g ↦ rw g refl
            | inr g ↦ rw (g, apart) refl
          ])
        ])
      ])

run-Untouched :
    (w : World) (s : ModuleState) (b : BindData) (t : Option Target) (c : Command)
    → target_of b.mode ≡ t
    → reads (has_target t) c ≡ true
    → Untouched s (run w s b c)
unfolding run config_get list_session
run-Untouched w s b t get_config e h = (refl, refl)
run-Untouched w s b t summarize e h = (refl, refl)
run-Untouched w s b t unknown e h = (refl, refl)
run-Untouched w s b none stage_item e h = staged-Untouched w.heap s b e
run-Untouched w s b (some t) stage_item e h = absurd (grind arith)
run-Untouched w s b t _ e h = absurd (grind arith)

-- A call whose mode does not ask for the write lock and is not `codegen_preview` changes neither
-- the session nor the registry, and destroys no artifact.
pub read_lock-Untouched :
    (w : World) (s : ModuleState) (b : BindData)
    → mode_requires_write_lock b.mode ≡ false
    → mode_is b.mode "codegen_preview" ≡ false
    → Untouched s (dispatch w s b)
unfolding dispatch
read_lock-Untouched w s b h apart =
    run-Untouched w s b (target_of b.mode) (command_of b.mode) refl (command-reads b.mode h apart)
