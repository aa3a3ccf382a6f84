-- ===== src/Session.antt =====
-- The build session of src/tcc_module.c: what the next compilation is given. A string that may be
-- NULL is an option; `symbol_count` is the length of `symbol_ptrs`. Versions wrap at 64 bits.
use duck_tiny_cc.Prelude.{
  leb, ◌==◌, if◌then◌else◌, length, ℕ, ◌+◌, ◌*◌, Bool, true, false, Option, none, some, List, [],
  ◌∷◌, ◌++◌,
}
use duck_tiny_cc.Growth.{u64, Malloc}
use duck_tiny_cc.Strings.{Chars}
use duck_tiny_cc.StringList.{StringList, empty_list, Answer, append, pop_last, Heap}

-- `tcc_session_t`
pub record Session : Type 0 where
  pub runtime_path : Option Chars
  pub bound_symbol : Option Chars
  pub bound_sql_name : Option Chars
  pub bound_stability : Option Chars
  pub include_paths : StringList
  pub sysinclude_paths : StringList
  pub library_paths : StringList
  pub libraries : StringList
  pub options : StringList
  pub headers : StringList
  pub sources : StringList
  pub define_names : StringList
  pub define_values : StringList
  pub symbol_names : StringList
  pub symbol_ptrs : List ℕ
  pub symbol_capacity : ℕ
  pub config_version : ℕ
  pub state_id : ℕ

-- tcc_strdup
unfoldable pub strdup : Malloc → Chars → Option Chars
strdup malloc s = if malloc (u64 (length s + 1)) then some s else none

abbrev pub bump_version : Session → Session
bump_version s = record s { config_version = u64 (s.config_version + 1) }

unfoldable pub clear_bind : Session → Session
clear_bind s = record s { bound_symbol = none; bound_sql_name = none; bound_stability = none }

unfoldable pub clear_build_state : Session → Session
clear_build_state s = record {
  runtime_path = s.runtime_path;
  bound_symbol = (clear_bind s).bound_symbol;
  bound_sql_name = (clear_bind s).bound_sql_name;
  bound_stability = (clear_bind s).bound_stability;
  include_paths = empty_list;
  sysinclude_paths = empty_list;
  library_paths = empty_list;
  libraries = empty_list;
  options = empty_list;
  headers = empty_list;
  sources = empty_list;
  define_names = empty_list;
  define_values = empty_list;
  symbol_names = empty_list;
  symbol_ptrs = [];
  symbol_capacity = 0;
  config_version = u64 (s.config_version + 1);
  state_id = u64 (s.state_id + 1);
}

abbrev pub copy_nonempty : Malloc → Option Chars → Option Chars
copy_nonempty malloc none = none
copy_nonempty malloc (some []) = none
copy_nonempty malloc (some (c ∷ s)) = strdup malloc (c ∷ s)

unfoldable pub set_runtime_path : Malloc → Option Chars → Session → Session
set_runtime_path malloc path s =
    bump_version (record s { runtime_path = copy_nonempty malloc path })

-- The first of two that is not empty.
abbrev pub or_else : Option Chars → Option Chars → Option Chars
or_else none d = d
or_else (some []) d = d
or_else (some (c ∷ s)) d = some (c ∷ s)

-- `default_path` is what tcc_default_runtime_path answers.
unfoldable pub session_runtime_path : Option Chars → Session → Option Chars → Option Chars
session_runtime_path default_path s override_path =
    or_else override_path (or_else s.runtime_path default_path)

unfoldable pub effective_symbol : Session → Option Chars → Option Chars
effective_symbol s symbol = or_else symbol (or_else s.bound_symbol none)

unfoldable pub effective_sql_name : Session → Option Chars → Option Chars → Option Chars
effective_sql_name s sql_name effective = or_else sql_name (or_else s.bound_sql_name effective)

-- The entry of one staged define: the name and the value, or neither.
abbrev pub store_value : Session → StringList → Answer → Bool × Session
store_value s names (true, values) =
    (true, bump_version (record s { define_names = names; define_values = values }))
store_value s names (false, values) =
    (false, record s { define_names = (pop_last names).1; define_values = values })

abbrev pub store_name : Heap → Session → Chars → Answer → Bool × Session
store_name heap s value (true, names) =
    store_value s names (append (heap 2) (heap 3) s.define_values value)
store_name heap s value (false, names) = (false, record s { define_names = names })

unfoldable pub stage_define : Heap → Chars → Chars → Session → Bool × Session
stage_define heap name value s =
    store_name heap s value (append (heap 0) (heap 1) s.define_names name)

-- The growth of `symbol_ptrs`: `none` where the allocation is refused.
unfoldable pub grow_symbols : Malloc → Session → Option Session
grow_symbols malloc s =
    if leb s.symbol_capacity (length s.symbol_ptrs)
    then (let cap : ℕ = (if s.symbol_capacity == 0 then 8 else u64 (s.symbol_capacity * 2)) in
        if malloc (u64 (8 * cap)) then some (record s { symbol_capacity = cap }) else none)
    else some s

-- The end of a staged symbol, once there is room for its address.
abbrev pub store_symbol : Session → ℕ → Answer → Bool × Bool × Session
store_symbol s address (true, names) = (
  true,
  true,
  bump_version (record s { symbol_names = names; symbol_ptrs = s.symbol_ptrs ++ address ∷ [] }),
)
store_symbol s address (false, names) = (true, false, record s { symbol_names = names })

abbrev pub store_grown : Heap → Session → Chars → ℕ → Option Session → Bool × Bool × Session
store_grown heap s name address none = (false, false, s)
store_grown heap s name address (some t) =
    store_symbol t address (append (heap 1) (heap 2) t.symbol_names name)

-- The result says whether the growth, and then the append of the name, succeeded.
unfoldable pub stage_symbol : Heap → Chars → ℕ → Session → Bool × Bool × Session
stage_symbol heap name address s = store_grown heap s name address (grow_symbols (heap 0) s)
