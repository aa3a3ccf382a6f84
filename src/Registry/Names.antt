-- ===== src/Registry/Names.antt =====
-- The SQL names in the registry: what storing one entry does to it.
use duck_tiny_cc.Prelude.{
  if◌then◌else◌, Bool-cases, length, set, get_or, ℕ, suc, ◌+◌, ◌≡◌, refl, sym, ap, ◌∙◌, ◌⊎◌, inl,
  inr, Bool, true, false, ◌&&◌, Option, none, some, List, [], ◌∷◌, ◌++◌, arith,
}
use duck_tiny_cc.Growth.{u64, Reserved, reserved, failed, hangs, Malloc, registry_reserve}
use duck_tiny_cc.Strings.{Chars, same}
use duck_tiny_cc.Session.{strdup}
use duck_tiny_cc.Registry.{
  Artifact, RegisteredEntry, ModuleState, named, find_sql_name, empty_entry, artifacts_of,
  fill_with, fill_entry, Stored, with_entries, add_slot, store_metadata,
}
use mathlib.Core.Option
use duck_tiny_cc.StringList.{Heap}
use duck_tiny_cc.Strings.Laws.{same-sym}

pub set-append :
    (es : List RegisteredEntry) (x v : RegisteredEntry)
    → set (es ++ x ∷ []) (length es) v ≡ es ++ v ∷ []
set-append [] x v = refl
set-append (e ∷ es) x v = ap (λ r. e ∷ r) (set-append es x v)

pub get_or-append :
    (es : List RegisteredEntry) (x d : RegisteredEntry) → get_or (es ++ x ∷ []) (length es) d ≡ x
get_or-append [] x d = refl
get_or-append (e ∷ es) x d = get_or-append es x d

-- What storing metadata under a new name answers: one more entry, or the registry as it was, or one
-- more slot that is empty and the artifact destroyed.
abbrev pub StoresNew : ModuleState → Chars → Chars → ℕ → Artifact → Stored → Type 0
StoresNew s n y i a (true, t, gone) =
    (t.entries
      ≡ s.entries
        ++ record { sql_name = some n; symbol = some y; state_id = i; artifact = some a } ∷ [])
    × (gone ≡ [])
StoresNew s n y i a (false, t, gone) =
    ((t ≡ s) × (gone ≡ [])) ⊎ ((t.entries ≡ s.entries ++ empty_entry ∷ []) × (gone ≡ a ∷ []))

fill-StoresNew :
    (s : ModuleState) (room : ℕ) (n y : Chars) (i : ℕ) (a : Artifact) (m k : Malloc)
    → StoresNew s n y i a (
        with_entries s room (
          fill_with
            (s.entries ++ empty_entry ∷ [])
            (length s.entries)
            i
            a
            (artifacts_of (get_or (s.entries ++ empty_entry ∷ []) (length s.entries) empty_entry))
            (strdup m n)
            (strdup k y)))
unfolding strdup
fill-StoresNew s cap n y i a m k =
    rw (get_or-append s.entries empty_entry empty_entry)
      (elim (Bool-cases (m (u64 (length n + 1)))) [
        | inr e ↦ rw e (inr (set-append s.entries empty_entry empty_entry, refl))
        | inl e ↦ rw e (elim (Bool-cases (k (u64 (length y + 1)))) [
          | inr f ↦ rw f (inr (set-append s.entries empty_entry empty_entry, refl))
          | inl f ↦ rw f (set-append s.entries empty_entry _, refl)
        ])
      ])

pub store_metadata-StoresNew :
    (heap : Heap) (s : ModuleState) (n y : Chars) (i : ℕ) (a : Artifact)
    → find_sql_name s.entries n ≡ none
    → StoresNew s n y i a (store_metadata heap s n y i a)
unfolding store_metadata fill_entry
store_metadata-StoresNew heap s n y i a h =
    rw h (slot (registry_reserve (heap 0) s.entry_capacity (length s.entries + 1)))
  where
    slot : (r : Reserved) → StoresNew s n y i a (add_slot heap s n y i a r)
    slot (reserved room) = fill-StoresNew s room n y i a (heap 1) (heap 2)
    slot failed = inl (refl, refl)
    slot hangs = inl (refl, refl)

map_none : (o : Option ℕ) → Option.map suc o ≡ none → o ≡ none
map_none none h = refl
map_none (some i) h = absurd (grind arith)

-- The head and the tail of a registry that does not have the name.
not_found :
    (e : RegisteredEntry) (es : List RegisteredEntry) (n : Chars)
    → find_sql_name (e ∷ es) n ≡ none
    → (named e n ≡ false) × (find_sql_name es n ≡ none)
unfolding find_sql_name
not_found e es n h = go (named e n) h
  where
    go :
        (b : Bool)
        → (if b then some 0 else Option.map suc (find_sql_name es n)) ≡ none
        → (b ≡ false) × (find_sql_name es n ≡ none)
    go true k = absurd (grind arith)
    go false k = (refl, map_none (find_sql_name es n) k)

-- A name that is found at the end, where it was not found before.
pub find-append :
    (es : List RegisteredEntry) (e : RegisteredEntry) (n : Chars)
    → find_sql_name es n ≡ none
    → named e n ≡ true
    → find_sql_name (es ++ e ∷ []) n ≡ some (length es)
unfolding find_sql_name
find-append [] e n h k = rw k refl
find-append (d ∷ es) e n h k =
    let (z, t) = not_found d es n h in rw (z, find-append es e n t k) refl

-- A name that is still not found.
pub find-append_none :
    (es : List RegisteredEntry) (e : RegisteredEntry) (n : Chars)
    → find_sql_name es n ≡ none
    → named e n ≡ false
    → find_sql_name (es ++ e ∷ []) n ≡ none
unfolding find_sql_name
find-append_none [] e n h k = rw k refl
find-append_none (d ∷ es) e n h k =
    let (z, t) = not_found d es n h in rw (z, find-append_none es e n t k) refl

abbrev pub is_fresh : Option Chars → List RegisteredEntry → Bool
is_fresh none es = true
is_fresh (some n) es = elim (find_sql_name es n) [ none ↦ true | some i ↦ false ]

-- No two entries have the same name.
abbrev pub distinct_names : List RegisteredEntry → Bool
distinct_names [] = true
distinct_names (e ∷ es) = is_fresh e.sql_name es && distinct_names es

fresh→none :
    (n : Chars) (es : List RegisteredEntry)
    → is_fresh (some n) es ≡ true
    → find_sql_name es n ≡ none
fresh→none n es h = go (find_sql_name es n) h
  where
    go : (o : Option ℕ) → (elim o as (λ x. Bool) [ none ↦ true | some i ↦ false ]) ≡ true → o ≡ none
    go none k = refl
    go (some i) k = absurd (grind arith)

fresh-append :
    (name : Option Chars) (es : List RegisteredEntry) (e : RegisteredEntry)
    → is_fresh name es ≡ true
    → ((n : Chars) → name ≡ some n → named e n ≡ false)
    → is_fresh name (es ++ e ∷ []) ≡ true
fresh-append none es e h k = refl
fresh-append (some n) es e h k =
    ap (λ o. elim o as (λ x. Bool) [ none ↦ true | some i ↦ false ])
      (find-append_none es e n (fresh→none n es h) (k n refl))

and_true : (a b : Bool) → (a && b) ≡ true → (a ≡ true) × (b ≡ true)
and_true true b h = (refl, h)
and_true false b h = absurd (grind arith)

-- An entry that has no name, or one that the registry does not have.
abbrev pub IsNew : Option Chars → List RegisteredEntry → Type 0
IsNew none es = es ≡ es
IsNew (some m) es = find_sql_name es m ≡ none

IsNew-tail :
    (o : Option Chars) (d : RegisteredEntry) (es : List RegisteredEntry)
    → IsNew o (d ∷ es)
    → IsNew o es
IsNew-tail none d es h = refl
IsNew-tail (some m) d es h = (not_found d es m h).1

apart :
    (o : Option Chars) (d e : RegisteredEntry) (es : List RegisteredEntry) (n : Chars)
    → e.sql_name ≡ o
    → IsNew o (d ∷ es)
    → d.sql_name ≡ some n
    → named e n ≡ false
apart none d e es n q h p = rw q refl
apart (some m) d e es n q h p =
    rw q (same-sym m n ∙ (sym (ap (name_is m) p) ∙ (not_found d es m h).0))
  where
    name_is : Chars → Option Chars → Bool
    name_is m none = false
    name_is m (some s) = same s m

-- An entry that is new may be added.
pub distinct-append :
    (es : List RegisteredEntry) (e : RegisteredEntry) (o : Option Chars)
    → e.sql_name ≡ o
    → distinct_names es ≡ true
    → IsNew o es
    → distinct_names (es ++ e ∷ []) ≡ true
unfolding find_sql_name
distinct-append [] e o q h k = single e.sql_name
  where
    single : (x : Option Chars) → (is_fresh x [] && true) ≡ true
    single none = refl
    single (some n) = refl
distinct-append (d ∷ es) e o q h k =
    let (a, b) = and_true (is_fresh d.sql_name es) (distinct_names es) h in
    rw
      (
        fresh-append d.sql_name es e a (λ n p. apart o d e es n q k p),
        distinct-append es e o q b (IsNew-tail o d es k),
      )
      refl
