-- ===== src/TypeToken/Compounds.antt =====
-- The branches for lists and arrays, at the tokens of printed types.
use duck_tiny_cc.Prelude.{
  ltb, ◌==◌, if◌then◌else◌, Bool-cases, length, length-append, codes, ℕ, ◌-◌, ◌%◌, ◌^◌, ◌≡◌, refl,
  inl, inr, Bool, true, false, ◌&&◌, none, some, [], ◌∷◌, ◌++◌, append_assoc, arith,
}
use duck_tiny_cc.Growth.{Malloc}
use duck_tiny_cc.Strings.{Chars, has_char, is_digit, last_or, all_chars, init}
use duck_tiny_cc.FfiType.{list, list_type_from_child}
use duck_tiny_cc.TypeToken.{
  Parsed, accepted, rejected, is_wrapped, flat_type, or_generic, as_list, array_part, suffix_part,
  list_part, parse_rest,
}
use duck_tiny_cc.TypeToken.Printed.{
  Syntax, list_of, suffixed, sized, print, value, type_of, size_of, is_printable,
}
use duck_tiny_cc.TypeToken.Branches.{
  last_or-append, init-append, is_wrapped-last, wrapped_type-last, last_split-append,
  read_size-value, trim-dark, flat_type-square,
}
use duck_tiny_cc.TypeToken.Flat.{dark, print-dark, is_wrapped-print, type_of-not_void}

abbrev pub compound : Malloc → (Chars → Parsed) → Chars → Parsed
compound malloc part token =
    if is_wrapped (codes "list") token
    then (if malloc (length token - 4) then as_list (part (list_part token)) else rejected)
    else parse_rest part token

-- The bytes between the brackets of a list.
list_part-print : (p : Chars) → dark p ≡ true → list_part (codes "list<" ++ (p ++ codes ">")) ≡ p
list_part-print p h =
    let e : init (codes "list<" ++ (p ++ codes ">")) ≡ codes "list<" ++ p =
      init-append (codes "list<" ++ p) 62 in
    rw e (trim-dark p (grind arith) (grind arith))

-- What a list is made of a part that was parsed.
as_list-print :
    (t : Syntax)
    → is_printable t ≡ true
    → as_list (accepted (type_of t) (size_of t))
      ≡ accepted (or_generic (list_type_from_child (type_of t)) list) 0
as_list-print t h = rw (type_of-not_void t h) refl

pub compound_list :
    (malloc : Malloc) (part : Chars → Parsed) (t : Syntax)
    → ((bytes : ℕ) → malloc bytes ≡ true)
    → is_printable t ≡ true
    → part (print t) ≡ accepted (type_of t) (size_of t)
    → compound malloc part (print (list_of t)) ≡ accepted (type_of (list_of t)) 0
compound_list malloc part t m h e =
    let n : ltb 0 (length (print t)) ≡ true = grind (arith, print-dark t h) in
    rw
      (
        is_wrapped-print (codes "list") (print t) n,
        m (length (print (list_of t)) - 4),
        list_part-print (print t) (print-dark t h),
        e,
      )
      (as_list-print t h)

-- A token that ends in `]` goes to the last two branches.
compound-square :
    (malloc : Malloc) (part : Chars → Parsed) (a : Chars)
    → compound malloc part (a ++ 93 ∷ []) ≡ parse_rest part (a ++ 93 ∷ [])
compound-square malloc part a =
    rw (is_wrapped-last (codes "list") (a ++ 93 ∷ []) (rw (last_or-append 0 a 93) refl)) refl

pub flat-square :
    (p r : Chars) (allow_void : Bool) → flat_type (p ++ 91 ∷ (r ++ 93 ∷ [])) allow_void ≡ none
flat-square p r allow_void =
    let e : last_or 0 (p ++ 91 ∷ (r ++ 93 ∷ [])) ≡ 93 =
      rw (← append_assoc p (91 ∷ r) (93 ∷ [])) (last_or-append 0 (p ++ 91 ∷ r) 93) in
    rw (flat_type-square p (r ++ 93 ∷ []) allow_void)
      (wrapped_type-last (p ++ 91 ∷ (r ++ 93 ∷ [])) (rw e refl))

array_part-suffix : (p : Chars) → array_part (p ++ codes "[]") ≡ none
unfolding array_part has_char
array_part-suffix p =
    elim (Bool-cases (ltb 3 (length (p ++ codes "[]")) && (last_or 0 (p ++ codes "[]") == 93))) [
      | inr n ↦ rw n refl
      | inl y ↦ rw (y, last_split-append 91 p (93 ∷ []) refl) refl
    ]

suffix_part-print :
    (p : Chars)
    → ltb 0 (length p) ≡ true
    → ltb (length p) 64 ≡ true
    → suffix_part (p ++ codes "[]") ≡ some p
unfolding suffix_part
suffix_part-print p h k =
    let e : init (p ++ codes "[]") ≡ p ++ codes "[" =
      rw (← append_assoc p (codes "[") (codes "]")) (init-append (p ++ codes "[") 93) in
    let f : last_or 0 (p ++ codes "[]") ≡ 93 =
      rw (← append_assoc p (codes "[") (codes "]")) (last_or-append 0 (p ++ codes "[") 93) in
    let n : ltb 2 (length (p ++ codes "[]")) ≡ true =
      rw (length-append p (codes "[]")) (ground arith) in
    rw (n, e, f, last_or-append 0 p 91, init-append p 91, h, k) refl

has_char-digits :
    (c : ℕ) (ds : Chars)
    → is_digit c ≡ false
    → (c == 93) ≡ false
    → all_chars is_digit ds ≡ true
    → has_char c (ds ++ codes "]") ≡ false
unfolding has_char is_digit
has_char-digits c [] n m h = ground arith
has_char-digits c (d ∷ ds) n m h =
    let q : all_chars is_digit ds ≡ true = grind arith in
    rw (has_char-digits c ds n m q) (ground arith)

digit_not_bracket : (d : ℕ) (ds : Chars) → all_chars is_digit (d ∷ ds) ≡ true → (d == 93) ≡ false
unfolding is_digit
digit_not_bracket d ds a = ground arith

array_part-print :
    (p ds : Chars)
    → ltb 0 (length p) ≡ true
    → ltb (length p) 64 ≡ true
    → all_chars is_digit ds ≡ true
    → ltb 0 (value 0 ds % 2 ^ 64) ≡ true
    → array_part (p ++ 91 ∷ (ds ++ codes "]")) ≡ some (p, value 0 ds % 2 ^ 64)
unfolding array_part is_digit
array_part-print p [] h k a v = cc
array_part-print p (d ∷ ds) h k a v =
    let n : ltb 3 (length (p ++ 91 ∷ ((d ∷ ds) ++ codes "]"))) ≡ true =
      rw (length-append p (91 ∷ ((d ∷ ds) ++ codes "]")), length-append ds (codes "]"))
        (ground arith) in
    let e : last_or 0 (p ++ 91 ∷ ((d ∷ ds) ++ codes "]")) ≡ 93 =
      rw (← append_assoc p (91 ∷ d ∷ ds) (codes "]")) (last_or-append 0 (p ++ 91 ∷ d ∷ ds) 93) in
    let f : (d == 93) ≡ false = digit_not_bracket d ds a in
    let g : init ((d ∷ ds) ++ codes "]") ≡ d ∷ ds = init-append (d ∷ ds) 93 in
    rw
      (
        n,
        e,
        last_split-append 91 p ((d ∷ ds) ++ codes "]") (has_char-digits 91 (d ∷ ds) refl refl a),
        f,
        g,
        read_size-value 0 0 (d ∷ ds) a (omega arith),
        v,
        h,
        k,
      )
      refl

pub compound_suffixed :
    (malloc : Malloc) (part : Chars → Parsed) (t : Syntax)
    → is_printable (suffixed t) ≡ true
    → part (print t) ≡ accepted (type_of t) (size_of t)
    → compound malloc part (print (suffixed t)) ≡ accepted (type_of (suffixed t)) 0
compound_suffixed malloc part t h e =
    let p : is_printable t ≡ true = grind arith in
    let k : ltb (length (print t)) 64 ≡ true = grind arith in
    let n : ltb 0 (length (print t)) ≡ true = grind (arith, print-dark t p) in
    let c : compound malloc part (print t ++ codes "[]") ≡ parse_rest part (print t ++ codes "[]") =
      rw (← append_assoc (print t) (codes "[") (codes "]"))
        (compound-square malloc part (print t ++ codes "[")) in
    rw (c, array_part-suffix (print t), suffix_part-print (print t) n k, e) (as_list-print t p)

pub compound_sized :
    (malloc : Malloc) (part : Chars → Parsed) (t : Syntax) (ds : Chars)
    → is_printable (sized t ds) ≡ true
    → part (print t) ≡ accepted (type_of t) (size_of t)
    → compound malloc part (print (sized t ds))
      ≡ accepted (type_of (sized t ds)) (size_of (sized t ds))
compound_sized malloc part t ds h e =
    let p : is_printable t ≡ true = grind arith in
    let k : ltb (length (print t)) 64 ≡ true = grind arith in
    let a : all_chars is_digit ds ≡ true = grind arith in
    let v : ltb 0 (value 0 ds % 2 ^ 64) ≡ true = grind arith in
    let n : ltb 0 (length (print t)) ≡ true = grind (arith, print-dark t p) in
    let c : compound malloc part (print t ++ 91 ∷ (ds ++ codes "]"))
        ≡ parse_rest part (print t ++ 91 ∷ (ds ++ codes "]")) =
      rw (← append_assoc (print t) (91 ∷ ds) (codes "]"))
        (compound-square malloc part (print t ++ 91 ∷ ds)) in
    rw (c, array_part-print (print t) ds n k a v, e, type_of-not_void t p) refl
