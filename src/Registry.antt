-- ===== src/Registry.antt =====
-- The registry of compiled functions in src/tcc_module.c: which SQL names this extension has
-- registered, and the compiled artifact behind each. An artifact is known by a number; what is
-- handed to tcc_artifact_destroy is listed beside the result, in order.
use duck_tiny_cc.Prelude.{
  if◌then◌else◌, length, set, get_or, ℕ, suc, ◌+◌, Bool, true, false, Option, none, some, List, [],
  ◌∷◌, ◌++◌,
}
use duck_tiny_cc.Growth.{Reserved, reserved, failed, hangs, registry_reserve}
use duck_tiny_cc.Strings.{Chars, same}
use duck_tiny_cc.Session.{Session, strdup}
pub mod Names
use mathlib.Core.Option
use duck_tiny_cc.StringList.{Heap}

-- `tcc_registered_artifact_t`
pub record Artifact : Type 0 where
  pub id : ℕ
  pub state_id : ℕ

-- `tcc_registered_entry_t`
pub record RegisteredEntry : Type 0 where
  pub sql_name : Option Chars
  pub symbol : Option Chars
  pub state_id : ℕ
  pub artifact : Option Artifact

-- `tcc_module_state_t`, without the connection, the lock and the pointer registry; `entry_count` is
-- the length of `entries`.
pub record ModuleState : Type 0 where
  pub session : Session
  pub entries : List RegisteredEntry
  pub entry_capacity : ℕ

abbrev pub named : RegisteredEntry → Chars → Bool
named e name = elim e.sql_name [ none ↦ false | some s ↦ same s name ]

-- `none` is (idx_t)-1.
unfoldable pub find_sql_name : List RegisteredEntry → Chars → Option ℕ
find_sql_name [] name = none
find_sql_name (e ∷ es) name =
    if named e name then some 0 else Option.map suc (find_sql_name es name)

-- What tcc_registry_entry_destroy_metadata leaves, and the artifacts that it destroys.
abbrev pub empty_entry : RegisteredEntry
empty_entry = record { sql_name = none; symbol = none; state_id = 0; artifact = none }

abbrev pub Destroyed : Type 0
Destroyed = List Artifact

abbrev pub artifacts_of : RegisteredEntry → Destroyed
artifacts_of e = elim e.artifact [ none ↦ [] | some a ↦ a ∷ [] ]

-- The filling of the entry at `i`, whose old metadata goes first; without both copies the new
-- metadata goes too.
abbrev pub Filled : Type 0
Filled = Bool × List RegisteredEntry × Destroyed

abbrev pub fill_with :
    List RegisteredEntry → ℕ → ℕ → Artifact → Destroyed → Option Chars → Option Chars → Filled
fill_with es i id' a old none y = (false, set es i empty_entry, old ++ a ∷ [])
fill_with es i id' a old (some n) none = (false, set es i empty_entry, old ++ a ∷ [])
fill_with es i id' a old (some n) (some y) = (
  true,
  set es i (record { sql_name = some n; symbol = some y; state_id = id'; artifact = some a }),
  old,
)

unfoldable pub fill_entry : Heap → List RegisteredEntry → ℕ → Chars → Chars → ℕ → Artifact → Filled
fill_entry heap es i sql_name' symbol' id' a =
    fill_with es i id' a (artifacts_of (get_or es i empty_entry)) (strdup (heap 1) sql_name')
      (strdup (heap 2) symbol')

abbrev pub Stored : Type 0
Stored = Bool × ModuleState × Destroyed

abbrev pub with_entries : ModuleState → ℕ → Filled → Stored
with_entries s cap (ok, es, gone) = (ok, record s { entries = es; entry_capacity = cap }, gone)

-- A new slot holds no metadata.
abbrev pub add_slot : Heap → ModuleState → Chars → Chars → ℕ → Artifact → Reserved → Stored
add_slot heap s sql_name' symbol' id' a (reserved cap) =
    with_entries s cap
      (fill_entry heap (s.entries ++ empty_entry ∷ []) (length s.entries) sql_name' symbol' id' a)
add_slot heap s sql_name' symbol' id' a failed = (false, s, [])
add_slot heap s sql_name' symbol' id' a hangs = (false, s, [])

abbrev pub store_at : Heap → ModuleState → Chars → Chars → ℕ → Artifact → Option ℕ → Stored
store_at heap s sql_name' symbol' id' a none =
    add_slot heap s sql_name' symbol' id' a
      (registry_reserve (heap 0) s.entry_capacity (length s.entries + 1))
store_at heap s sql_name' symbol' id' a (some i) =
    with_entries s s.entry_capacity (fill_entry heap s.entries i sql_name' symbol' id' a)

unfoldable pub store_metadata : Heap → ModuleState → Chars → Chars → ℕ → Artifact → Stored
store_metadata heap s sql_name' symbol' id' a =
    store_at heap s sql_name' symbol' id' a (find_sql_name s.entries sql_name')
