-- ===== src/Libraries/LinkName.antt =====
-- The name that the linker is given for a library that was found.
use mathlib.Core.Option
use duck_tiny_cc.Prelude.{
  ltb, ◌==◌, if◌then◌else◌, Bool-cases, length, length-append, take, codes, ℕ, zero, suc, ◌+◌, ◌≤◌,
  ◌<◌, ◌≡◌, refl, ap, inl, inr, Bool, true, false, Option, none, some, [], ◌∷◌, ◌++◌, arith,
}
use duck_tiny_cc.Growth.{u64, Malloc}
use duck_tiny_cc.Strings.{Chars, starts_with, has_char, before, split_here, last_split}
use duck_tiny_cc.TypeToken.Branches.{last_split-none, last_split-append}
use duck_tiny_cc.Libraries.{
  candidate, best_of, basename_ptr, link_name, library_link_name_from_path,
}
use duck_tiny_cc.Session.{strdup}

-- The last place of another byte lies in what stands before.
abbrev Earlier : ℕ → Option (Chars × Chars) → Type 0
Earlier n none = Unit {0}
Earlier n (some (b, rest)) = length b < n

Earlier-split_here :
    (c x n : ℕ) (s : Chars) (o : Option (Chars × Chars))
    → Earlier n o
    → Earlier (suc n) (split_here c x s o)
Earlier-split_here c x n s none h = elim (Bool-cases (x == c)) [
  | inl y ↦ rw y (omega arith)
  | inr m ↦ rw m tt
]
Earlier-split_here c x n s (some (b, rest)) h = omega (arith, h)

Earlier-last_split :
    (c d : ℕ) (dir file : Chars)
    → (d == c) ≡ false
    → has_char c file ≡ false
    → Earlier (length dir) (last_split c (dir ++ d ∷ file))
unfolding last_split
Earlier-last_split c d [] file h k = rw (last_split-none c file k, h) tt
Earlier-last_split c d (x ∷ dir) file h k =
    Earlier-split_here c x (length dir) (dir ++ d ∷ file) (last_split c (dir ++ d ∷ file))
      (Earlier-last_split c d dir file h k)

best_of-first :
    (path dir file : Chars) (o : Option (Chars × Chars))
    → Earlier (length dir) o
    → best_of path (some (dir, file)) o ≡ file
best_of-first path dir file none h = refl
best_of-first path dir file (some (b, base)) h =
    let e : ltb (length dir) (length b) ≡ false = ground (arith, h) in rw e refl

basename_ptr-join :
    (dir file : Chars)
    → has_char 47 file ≡ false
    → has_char 92 file ≡ false
    → basename_ptr (dir ++ 47 ∷ file) ≡ file
unfolding basename_ptr
basename_ptr-join dir file h k =
    rw (last_split-append 47 dir file h)
      (best_of-first (dir ++ 47 ∷ file) dir file _ (Earlier-last_split 92 47 dir file refl k))

starts_with-so :
    (c : ℕ) (m : Chars)
    → starts_with (c ∷ m) (codes ".so") ≡ false
    → starts_with (c ∷ (m ++ codes ".so")) (codes ".so") ≡ false
unfolding starts_with
starts_with-so c [] h = ground arith
starts_with-so c (d ∷ []) h = ground arith
starts_with-so c (d ∷ e ∷ m) h = h

starts_with_self : (a : Chars) → starts_with a a ≡ true
unfolding starts_with
starts_with_self [] = refl
starts_with_self (c ∷ a) = rw (starts_with_self a) (ground arith)

absent :
    (c : ℕ) (b : Bool) (o : Option Chars)
    → (if b then some [] else Option.map (λ a. c ∷ a) o) ≡ none
    → (b ≡ false) × (o ≡ none)
absent c true o h = cc h
absent c false none h = (refl, refl)
absent c false (some s) h = cc h

-- A string without `.so` holds it once that is appended, and not before its end.
before-append :
    (m : Chars) → before (codes ".so") m ≡ none → before (codes ".so") (m ++ codes ".so") ≡ some m
unfolding before
before-append [] h = so_itself
  where
    so_itself :
        (if starts_with (codes ".so") (codes ".so")
          then some []
          else Option.map (λ a. 46 ∷ a) (before (codes ".so") (codes "so")))
        ≡ some []
    so_itself = rw (starts_with_self (codes ".so")) refl
before-append (c ∷ m) h =
    let (n, e) = absent c (starts_with (c ∷ m) (codes ".so")) (before (codes ".so") m) h in
    rw (starts_with-so c m n, before-append m e) refl

take_all : (n : ℕ) (s : Chars) → length s ≤ n → take n s ≡ s
take_all zero [] h = refl
take_all zero (c ∷ s) h = absurd (omega arith)
take_all (suc n) [] h = refl
take_all (suc n) (c ∷ s) h = ap (λ r. c ∷ r) (take_all n s (omega arith))

has_char-append_none :
    (c : ℕ) (a b : Chars)
    → has_char c a ≡ false
    → has_char c b ≡ false
    → has_char c (a ++ b) ≡ false
unfolding has_char
has_char-append_none c [] b h k = k
has_char-append_none c (x ∷ a) b h k =
    rw (has_char-append_none c a b (grind arith) k) (ground (arith, h))

abbrev object : Chars → Chars
object library = codes "lib" ++ (library ++ codes ".so")

link_name-object :
    (library : Chars)
    → before (codes ".so") library ≡ none
    → 0 < length library
    → link_name (object library) ≡ library
unfolding before starts_with
link_name-object library b n =
    let e : before (codes ".so") (codes "lib" ++ library) ≡ none = rw b refl in
    let l : ltb 3 (length (codes "lib" ++ library)) ≡ true = ground arith in
    rw (before-append (codes "lib" ++ library) e) (rw l refl)

library_link_name_from_path-object :
    (malloc : Malloc) (dir library : Chars)
    → malloc (u64 (length (object library) + 1)) ≡ true
    → has_char 47 library ≡ false
    → has_char 92 library ≡ false
    → before (codes ".so") library ≡ none
    → 0 < length library
    → library_link_name_from_path malloc (some (dir ++ 47 ∷ object library)) ≡ some library
unfolding library_link_name_from_path strdup has_char
library_link_name_from_path-object malloc dir library m h k b n =
    let e : basename_ptr (dir ++ 47 ∷ object library) ≡ object library =
      basename_ptr-join dir (object library)
        (rw (has_char-append_none 47 library (codes ".so") h refl) refl)
        (rw (has_char-append_none 92 library (codes ".so") k refl) refl) in
    from dir e
  where
    from :
        (d : Chars)
        → basename_ptr (d ++ 47 ∷ object library) ≡ object library
        → library_link_name_from_path malloc (some (d ++ 47 ∷ object library)) ≡ some library
    from [] e = rw (e, m, link_name-object library b n) refl
    from (x ∷ d) e = rw (e, m, link_name-object library b n) refl

-- A library whose name is not empty and has no separator and no `.so` in it is linked by that name
-- when it is found, in any directory, as the shared object that is a candidate for it. The name has
-- at most 505 bytes, and the copy of it may not be refused.
pub library_link_name_from_path-candidate :
    (malloc : Malloc) (dir library : Chars)
    → malloc (u64 (length (candidate library (codes ".so")) + 1)) ≡ true
    → has_char 47 library ≡ false
    → has_char 92 library ≡ false
    → before (codes ".so") library ≡ none
    → 0 < length library
    → length library ≤ 505
    → library_link_name_from_path malloc (some (dir ++ 47 ∷ candidate library (codes ".so")))
      ≡ some library
library_link_name_from_path-candidate malloc dir library m h k b n small =
    let q : length (library ++ codes ".so") ≤ 508 =
      omega (arith, length-append library (codes ".so"), small) in
    let e : take 508 (library ++ codes ".so") ≡ library ++ codes ".so" =
      take_all 508 (library ++ codes ".so") q in
    rw e (library_link_name_from_path-object malloc dir library (rw e at m) h k b n)
