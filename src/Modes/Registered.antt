-- ===== src/Modes/Registered.antt =====
-- What `compile` does to the registry of SQL names.
use duck_tiny_cc.Prelude.{
  leb, length, get_or, ℕ, ◌+◌, ◌≤◌, ◌≡◌, refl, sym, ap, ◌∙◌, inl, inr, Bool, true, false, Option,
  none, some, List, [], ◌∷◌, ◌++◌, arith,
}
use duck_tiny_cc.Strings.{Chars}
use duck_tiny_cc.Strings.Laws.{same_refl}
use duck_tiny_cc.StringList.{Heap}
use duck_tiny_cc.Growth.{u64, reserved, Malloc, registry_reserve}
use duck_tiny_cc.Session.{strdup}
use duck_tiny_cc.Registry.{
  Artifact, RegisteredEntry, ModuleState, find_sql_name, empty_entry, artifacts_of, fill_entry,
  Stored, store_metadata,
}
use duck_tiny_cc.Registry.Names.{
  get_or-append, StoresNew, store_metadata-StoresNew, find-append, find-append_none, distinct_names,
  distinct-append,
}
use duck_tiny_cc.Modes.{BindData, Outcome}
use duck_tiny_cc.Modes.Compile.{
  Built, built, not_built, stored, finish_compile, compile_fresh, compile_unless, compile_named,
}

-- What a compilation under the name `n` leaves of the registry `es`, whether it succeeds or fails.
abbrev pub Names : Bool → List RegisteredEntry → Chars → Outcome → Type 0
Names true es n o =
    (find_sql_name es n ≡ none)
    × (find_sql_name o.state.entries n ≡ some (length es))
    × (o.destroyed ≡ [])
Names false es n o =
    (find_sql_name o.state.entries n ≡ find_sql_name es n) × (length o.destroyed ≤ 2)

abbrev pub Registers : List RegisteredEntry → Chars → Outcome → Type 0
Registers es n o = Names o.row.ok es n o × (distinct_names o.state.entries ≡ true)

stored-Registers :
    (s : ModuleState) (b : BindData) (runtime : Option Chars) (n y m : Chars) (a : Artifact)
    (r : Stored)
    → find_sql_name s.entries n ≡ none
    → distinct_names s.entries ≡ true
    → StoresNew s n m a.state_id a r
    → Registers s.entries n (stored b runtime n y a r)
stored-Registers s b runtime n y m a (true, t, gone) h d (p, q) = (
  (h, rw p (find-append s.entries _ n h (same_refl n)), q),
  rw p (distinct-append s.entries _ (some n) refl d h),
)
stored-Registers s b runtime n y m a (false, t, gone) h d (inl (p, q)) =
    ((rw p refl, rw q (omega arith)), rw p d)
stored-Registers s b runtime n y m a (false, t, gone) h d (inr (p, q)) = (
  (rw p (find-append_none s.entries empty_entry n h refl ∙ sym h), rw q (omega arith)),
  rw p (distinct-append s.entries empty_entry none refl d refl),
)

-- In a registry where no two entries have the same name, a compilation that succeeds finds its SQL
-- name free, leaves it registered at the end and destroys no artifact; one that fails leaves the
-- name found where it was, if it was, and hands over at most two artifacts to be destroyed. The
-- names stay distinct.
pub compile_named-Registers :
    (heap : Heap) (made : Built) (s : ModuleState) (b : BindData) (runtime : Option Chars)
    (n y : Chars)
    → distinct_names s.entries ≡ true
    → Registers s.entries n (compile_named heap made s b runtime n y)
unfolding compile_named finish_compile
compile_named-Registers heap made s b runtime n y d = unless (find_sql_name s.entries n) refl
  where
    fresh :
        (made : Built)
        → find_sql_name s.entries n ≡ none
        → Registers s.entries n (compile_fresh heap s b runtime n y made)
    fresh (not_built message) h = ((refl, omega arith), d)
    fresh (built m a) h =
        stored-Registers s b runtime n y m a (store_metadata heap s n m a.state_id a) h d
          (store_metadata-StoresNew heap s n m a.state_id a h)

    unless :
        (o : Option ℕ)
        → find_sql_name s.entries n ≡ o
        → Registers s.entries n (compile_unless heap made s b runtime n y o)
    unless (some i) h = ((refl, omega arith), d)
    unless none h = fresh made h

stored_twice :
    (b : BindData) (runtime : Option Chars) (n y : Chars) (a : Artifact) (r : Stored)
    → (r.0 ≡ false) × (r.2 ≡ a ∷ [])
    → (stored b runtime n y a r).destroyed ≡ a ∷ a ∷ []
stored_twice b runtime n y a (false, t, gone) (e, p) = rw p refl
stored_twice b runtime n y a (true, t, gone) (e, p) = absurd (grind arith)

reserve_room :
    (malloc : Malloc) (capacity wanted : ℕ)
    → wanted ≤ capacity
    → registry_reserve malloc capacity wanted ≡ reserved capacity
unfolding registry_reserve
reserve_room malloc capacity wanted h =
    let full : leb wanted capacity ≡ true = ground arith in rw full refl

copy_lost :
    (heap : Heap) (s : ModuleState) (n m : Chars) (i : ℕ) (a : Artifact)
    → find_sql_name s.entries n ≡ none
    → length s.entries + 1 ≤ s.entry_capacity
    → heap 1 (u64 (length n + 1)) ≡ false
    → ((store_metadata heap s n m i a).0 ≡ false) × ((store_metadata heap s n m i a).2 ≡ a ∷ [])
unfolding store_metadata fill_entry strdup
copy_lost heap s n m i a h room lost =
    let old : artifacts_of (get_or (s.entries ++ empty_entry ∷ []) (length s.entries) empty_entry)
        ≡ [] =
      ap artifacts_of (get_or-append s.entries empty_entry empty_entry) in
    let r : registry_reserve (heap 0) s.entry_capacity (length s.entries + 1)
        ≡ reserved s.entry_capacity =
      reserve_room (heap 0) s.entry_capacity (length s.entries + 1) room in
    rw (h, r, lost, old) (refl, refl)

-- Where the array of entries has room but the SQL name cannot be copied, the new artifact is
-- destroyed with its entry, and then destroyed again by the caller.
pub copy_failure_destroys_twice :
    (heap : Heap) (s : ModuleState) (b : BindData) (runtime : Option Chars) (n y m : Chars)
    (a : Artifact)
    → find_sql_name s.entries n ≡ none
    → length s.entries + 1 ≤ s.entry_capacity
    → heap 1 (u64 (length n + 1)) ≡ false
    → (compile_named heap (built m a) s b runtime n y).destroyed ≡ a ∷ a ∷ []
unfolding compile_named finish_compile
copy_failure_destroys_twice heap s b runtime n y m a h room lost =
    ap (λ o. (compile_unless heap (built m a) s b runtime n y o).destroyed) h
    ∙ stored_twice b runtime n y a (store_metadata heap s n m a.state_id a)
        (copy_lost heap s n m a.state_id a h room lost)
