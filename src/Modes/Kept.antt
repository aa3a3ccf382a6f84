-- ===== src/Modes/Kept.antt =====
-- What staging one item leaves of the session. The view forgets the capacities of the arrays.
use duck_tiny_cc.Prelude.{
  leb, ◌==◌, if◌then◌else◌, Bool-cases, length, length-append, take, ℕ, suc, ◌+◌, ◌-◌, ◌*◌, ◌≡◌,
  refl, ap, inl, inr, Bool, true, false, Option, none, some, List, [], ◌∷◌, ◌++◌, arith,
}
use duck_tiny_cc.Growth.{u64, Reserved, reserved, failed, hangs, Malloc, string_list_reserve}
use duck_tiny_cc.Strings.{Chars}
use duck_tiny_cc.StringList.{StringList, Answer, store_copy, append, pop_last, Heap}
use duck_tiny_cc.Session.{
  Session, store_value, store_name, stage_define, grow_symbols, store_symbol, store_grown,
  stage_symbol,
}
use duck_tiny_cc.Modes.{
  Target, to_include, to_sysinclude, to_library_path, to_library, to_option, to_header, to_source,
  get_target, put_target, store_target, stage,
}

pub record View : Type 0 where
  pub strings : List (Option Chars)
  pub lists : List (List Chars)
  pub addresses : List ℕ
  pub version : ℕ
  pub build : ℕ

-- What the next compilation is given.
abbrev pub view : Session → View
view s = record {
  strings = s.runtime_path ∷ s.bound_symbol ∷ s.bound_sql_name ∷ s.bound_stability ∷ [];
  lists =
      s.include_paths.items ∷ s.sysinclude_paths.items ∷ s.library_paths.items ∷ s.libraries.items
      ∷ s.options.items ∷ s.headers.items ∷ s.sources.items ∷ s.define_names.items
      ∷ s.define_values.items ∷ s.symbol_names.items ∷ [];
  addresses = s.symbol_ptrs;
  version = s.config_version;
  build = s.state_id;
}

-- The strings after an append that succeeds, or fails.
abbrev pub Adds : List Chars → Chars → Answer → Type 0
Adds ss v (true, l) = l.items ≡ ss ++ v ∷ []
Adds ss v (false, l) = l.items ≡ ss

store_copy-Adds :
    (copy : Malloc) (l : StringList) (v : Chars) (r : Reserved)
    → Adds l.items v (store_copy copy l v r)
store_copy-Adds copy l v (reserved cap) = elim (Bool-cases (copy (u64 (length v + 1)))) [
  | inl y ↦ rw y refl
  | inr n ↦ rw n refl
]
store_copy-Adds copy l v failed = refl
store_copy-Adds copy l v hangs = refl

pub append-Adds :
    (room copy : Malloc) (l : StringList) (v : Chars) → Adds l.items v (append room copy l v)
unfolding append
append-Adds room copy l [] = refl
append-Adds room copy l (c ∷ v) =
    store_copy-Adds copy l (c ∷ v) (string_list_reserve room l.capacity (length l.items + 1))

-- A result that counts one more version of the session where it succeeded, and has the view of `s`
-- where it failed.
abbrev pub Keeps : Session → Bool × Session → Type 0
Keeps s (true, u) = u.config_version ≡ u64 (s.config_version + 1)
Keeps s (false, u) = view u ≡ view s

put_target-view :
    (t : Target) (l : StringList) (s : Session)
    → l.items ≡ (get_target t s).items
    → view (put_target t l s) ≡ view s
unfolding put_target get_target
put_target-view to_include l s p = rw p refl
put_target-view to_sysinclude l s p = rw p refl
put_target-view to_library_path l s p = rw p refl
put_target-view to_library l s p = rw p refl
put_target-view to_option l s p = rw p refl
put_target-view to_header l s p = rw p refl
put_target-view to_source l s p = rw p refl

put_target-version :
    (t : Target) (l : StringList) (s : Session)
    → u64 ((put_target t l s).config_version + 1) ≡ u64 (s.config_version + 1)
unfolding put_target
put_target-version to_include l s = refl
put_target-version _ l s = refl

pub stage-Keeps :
    (heap : Heap) (t : Target) (v : Option Chars) (s : Session) → Keeps s (stage heap t v s)
unfolding stage
stage-Keeps heap t none s = refl
stage-Keeps heap t (some v) s =
    from (append (heap 0) (heap 1) (get_target t s) v)
      (append-Adds (heap 0) (heap 1) (get_target t s) v)
  where
    from : (a : Answer) → Adds (get_target t s).items v a → Keeps s (store_target t s a)
    from (true, l) p = put_target-version t l s
    from (false, l) p = put_target-view t l s p

take-append : (xs : List Chars) (x : Chars) → take (length xs) (xs ++ x ∷ []) ≡ xs
take-append [] x = refl
take-append (y ∷ xs) x = ap (λ r. y ∷ r) (take-append xs x)

pop_last-view :
    (names : StringList) (ss : List Chars) (v : Chars)
    → names.items ≡ ss ++ v ∷ []
    → (pop_last names).1.items ≡ ss
unfolding pop_last
pop_last-view names ss v p =
    let n : length names.items ≡ suc (length ss) =
      rw p (omega (arith, length-append ss (v ∷ []))) in
    let m : suc (length ss) - 1 ≡ length ss = omega arith in
    let e : (suc (length ss) == 0) ≡ false = ground arith in rw (n, e, m, p) (take-append ss v)

pub stage_define-Keeps :
    (heap : Heap) (name value : Chars) (s : Session) → Keeps s (stage_define heap name value s)
unfolding stage_define
stage_define-Keeps heap name value s =
    named (append (heap 0) (heap 1) s.define_names name)
      (append-Adds (heap 0) (heap 1) s.define_names name)
  where
    valued :
        (names : StringList) (a : Answer)
        → (pop_last names).1.items ≡ s.define_names.items
        → Adds s.define_values.items value a
        → Keeps s (store_value s names a)
    valued names (true, l) p q = refl
    valued names (false, l) p q = rw (p, q) refl

    named : (a : Answer) → Adds s.define_names.items name a → Keeps s (store_name heap s value a)
    named (true, l) p =
        valued l (append (heap 2) (heap 3) s.define_values value)
          (pop_last-view l s.define_names.items name p)
          (append-Adds (heap 2) (heap 3) s.define_values value)
    named (false, l) p = rw p refl

abbrev pub KeepsSymbol : Session → Bool × Bool × Session → Type 0
KeepsSymbol s (true, true, u) = u.config_version ≡ u64 (s.config_version + 1)
KeepsSymbol s (true, false, u) = view u ≡ view s
KeepsSymbol s (false, ok, u) = view u ≡ view s

abbrev SameView : Session → Option Session → Type 0
SameView s none = view s ≡ view s
SameView s (some t) = view t ≡ view s

grow_symbols-view : (malloc : Malloc) (s : Session) → SameView s (grow_symbols malloc s)
unfolding grow_symbols
grow_symbols-view malloc s = elim (Bool-cases (leb s.symbol_capacity (length s.symbol_ptrs))) [
  | inr n ↦ rw n refl
  | inl y ↦
      rw y
        (elim (Bool-cases (
          malloc (u64 (8 * (if s.symbol_capacity == 0 then 8 else u64 (s.symbol_capacity * 2)))))) [
            | inl a ↦ rw a refl
            | inr a ↦ rw a refl
          ])
]

pub stage_symbol-Keeps :
    (heap : Heap) (name : Chars) (p : ℕ) (s : Session) → KeepsSymbol s (stage_symbol heap name p s)
unfolding stage_symbol
stage_symbol-Keeps heap name p s = room (grow_symbols (heap 0) s) (grow_symbols-view (heap 0) s)
  where
    named :
        (t : Session) (a : Answer)
        → view t ≡ view s
        → Adds t.symbol_names.items name a
        → KeepsSymbol s (store_symbol t p a)
    named t (true, l) e q = ap (λ x. u64 (x.version + 1)) e
    named t (false, l) e q = rw q e

    room : (g : Option Session) → SameView s g → KeepsSymbol s (store_grown heap s name p g)
    room none e = e
    room (some t) e =
        named t (append (heap 1) (heap 2) t.symbol_names name) e
          (append-Adds (heap 1) (heap 2) t.symbol_names name)
