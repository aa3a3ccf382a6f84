-- ===== src/TypeToken/Flat.antt =====
-- Tokens of types that are printed: no space at their ends, and what the first test says of each.
-- Shape of a printed type: no space at either end, and not empty.
use duck_tiny_cc.Prelude.{
  ltb, if◌then◌else◌, length, length-append, get_or, take, codes, ℕ, ◌+◌, ◌≡◌, refl, ap, Bool, true,
  false, not, ◌&&◌, ◌||◌, none, some, [], ◌∷◌, ◌++◌, append_assoc, arith,
}
use duck_tiny_cc.Strings.{Chars, is_space, lower, equals_ci, last_or}
use duck_tiny_cc.Strings.Laws.{starts_dark, ends_dark}
use duck_tiny_cc.FfiType.{FfiType, void, struct, union}
use duck_tiny_cc.TypeToken.{simple_tokens, lookup_ci, is_wrapped, wrapped_type, flat_type, is_void}
use duck_tiny_cc.TypeToken.Fuel.{list_plain, array_is_array}
use duck_tiny_cc.TypeToken.Printed.{
  Syntax, named, struct_of, map_of, union_of, list_of, suffixed, sized, spelling, is_spelled, print,
  type_of, is_printable,
}
use duck_tiny_cc.TypeToken.Branches.{last_or-append, is_wrapped-word, flat_type-angle}

abbrev pub dark : Chars → Bool
dark s = ltb 0 (length s) && (starts_dark s && ends_dark s)

starts-append : (s r : Chars) → ltb 0 (length s) ≡ true → starts_dark (s ++ r) ≡ starts_dark s
starts-append [] r h = cc
starts-append (c ∷ s) r h = refl

ends-append : (s : Chars) (c : ℕ) → is_space c ≡ false → ends_dark (s ++ c ∷ []) ≡ true
ends-append [] c h = rw h refl
ends-append (d ∷ s) c h = rw (last_or-append d s c, h) refl

dark-append :
    (s r : Chars) (c : ℕ) → dark s ≡ true → is_space c ≡ false → dark (s ++ (r ++ c ∷ [])) ≡ true
dark-append s r c h k =
    let n : ltb 0 (length s) ≡ true = grind arith in
    let m : ltb 0 (length (s ++ (r ++ c ∷ []))) ≡ true =
      rw (length-append s (r ++ c ∷ []), length-append r (c ∷ [])) (ground arith) in
    let e : starts_dark s ≡ true = grind arith in
    let f : ends_dark (s ++ (r ++ c ∷ [])) ≡ true =
      rw (← append_assoc s r (c ∷ [])) (ends-append (s ++ r) c k) in
    rw (m, starts-append s (r ++ c ∷ []) n, e, f) refl

spelling-dark : (t : FfiType) → (not (is_spelled t) || dark (spelling t)) ≡ true
unfolding is_space
spelling-dark void = refl
spelling-dark _ = refl

pub print-dark : (t : Syntax) → is_printable t ≡ true → dark (print t) ≡ true
unfolding is_space
print-dark (named t) h = ground (arith, spelling-dark t)
print-dark (struct_of s) h = dark-append (codes "struct<") s 62 refl refl
print-dark (map_of s) h = dark-append (codes "map<") s 62 refl refl
print-dark (union_of s) h = dark-append (codes "union<") s 62 refl refl
print-dark (list_of t) h = dark-append (codes "list<") (print t) 62 refl refl
print-dark (suffixed t) h =
    let k : is_printable t ≡ true = grind arith in
    dark-append (print t) (91 ∷ []) 93 (print-dark t k) refl
print-dark (sized t ds) h =
    let k : is_printable t ≡ true = grind arith in
    dark-append (print t) (91 ∷ ds) 93 (print-dark t k) refl

spelling_lookup :
    (t : FfiType) → (if is_spelled t then lookup_ci (spelling t) simple_tokens else some t) ≡ some t
unfolding lookup_ci equals_ci lower
spelling_lookup void = refl
spelling_lookup _ = refl

spelling_not_void : (t : FfiType) → equals_ci (spelling t) (codes "void") ≡ false
unfolding equals_ci lower
spelling_not_void void = refl
spelling_not_void _ = refl

take-append : (a b : Chars) → take (length a) (a ++ b) ≡ a
take-append [] b = refl
take-append (c ∷ a) b = ap (λ r. c ∷ r) (take-append a b)

get_or-append : (a : Chars) (x : ℕ) (b : Chars) → get_or (a ++ x ∷ b) (length a) 0 ≡ x
get_or-append [] x b = refl
get_or-append (c ∷ a) x b = get_or-append a x b

equals_ci_refl : (a : Chars) → equals_ci a a ≡ true
unfolding equals_ci
equals_ci_refl [] = refl
equals_ci_refl (c ∷ a) = rw (equals_ci_refl a) (ground arith)

pub is_wrapped-print :
    (word s : Chars)
    → ltb 0 (length s) ≡ true
    → is_wrapped word (word ++ 60 ∷ (s ++ 62 ∷ [])) ≡ true
unfolding is_wrapped
is_wrapped-print word s h =
    let n : ltb (length word + 2) (length (word ++ 60 ∷ (s ++ 62 ∷ []))) ≡ true =
      rw (length-append word (60 ∷ (s ++ 62 ∷ [])), length-append s (62 ∷ [])) (ground arith) in
    let e : last_or 0 (word ++ 60 ∷ (s ++ 62 ∷ [])) ≡ 62 =
      rw (← append_assoc word (60 ∷ s) (62 ∷ [])) (last_or-append 0 (word ++ 60 ∷ s) 62) in
    rw
      (
        n,
        take-append word (60 ∷ (s ++ 62 ∷ [])),
        equals_ci_refl word,
        get_or-append word 60 (s ++ 62 ∷ []),
        e,
      )
      refl

-- The type of a printable syntax is no `void`.
pub type_of-not_void : (t : Syntax) → is_printable t ≡ true → is_void (type_of t) ≡ false
type_of-not_void (named t) h = ground (arith, spelled_not_void t)
  where
    spelled_not_void : (t : FfiType) → (is_spelled t && is_void t) ≡ false
    spelled_not_void void = refl
    spelled_not_void _ = refl
type_of-not_void (struct_of s) h = refl
type_of-not_void (map_of s) h = refl
type_of-not_void (union_of s) h = refl
type_of-not_void (list_of t) h = (list_plain (type_of t)).1
type_of-not_void (suffixed t) h = (list_plain (type_of t)).1
type_of-not_void (sized t ds) h = (array_is_array (type_of t)).1

pub flat_named :
    (t : FfiType) (allow_void : Bool)
    → is_spelled t ≡ true
    → flat_type (spelling t) allow_void ≡ some t
unfolding flat_type
flat_named t allow_void h =
    let e : (allow_void && equals_ci (spelling t) (codes "void")) ≡ false =
      rw (spelling_not_void t) (ground arith) in
    let k : lookup_ci (spelling t) simple_tokens ≡ some t = rw h at (spelling_lookup t) in
    rw (e, k) refl

pub flat_struct :
    (s : Chars) (allow_void : Bool)
    → ltb 0 (length s) ≡ true
    → flat_type (print (struct_of s)) allow_void ≡ some struct
unfolding wrapped_type
flat_struct s allow_void h =
    rw (flat_type-angle (codes "struct") (s ++ 62 ∷ []) allow_void)
      (rw (is_wrapped-print (codes "struct") s h) refl)

pub flat_map :
    (s : Chars) (allow_void : Bool)
    → ltb 0 (length s) ≡ true
    → flat_type (print (map_of s)) allow_void ≡ some FfiType.map
unfolding wrapped_type equals_ci lower
flat_map s allow_void h = rw (flat_type-angle (codes "map") (s ++ 62 ∷ []) allow_void) (
    rw
      (is_wrapped-word (codes "struct") (print (map_of s)) refl, is_wrapped-print (codes "map") s h)
      refl)

pub flat_union :
    (s : Chars) (allow_void : Bool)
    → ltb 0 (length s) ≡ true
    → flat_type (print (union_of s)) allow_void ≡ some union
unfolding wrapped_type equals_ci lower
flat_union s allow_void h = rw (flat_type-angle (codes "union") (s ++ 62 ∷ []) allow_void) (
    rw
      (
        is_wrapped-word (codes "struct") (print (union_of s)) refl,
        is_wrapped-word (codes "map") (print (union_of s)) refl,
        is_wrapped-print (codes "union") s h,
      )
      refl)

pub flat_list :
    (p : Chars) (allow_void : Bool)
    → flat_type (codes "list<" ++ (p ++ codes ">")) allow_void ≡ none
unfolding wrapped_type equals_ci lower
flat_list p allow_void =
    let token = codes "list<" ++ (p ++ codes ">") in
    rw (flat_type-angle (codes "list") (p ++ 62 ∷ []) allow_void) (
      rw
        (
          is_wrapped-word (codes "struct") token refl,
          is_wrapped-word (codes "map") token refl,
          is_wrapped-word (codes "union") token refl,
        )
        refl)
