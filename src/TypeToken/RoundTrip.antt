-- ===== src/TypeToken/RoundTrip.antt =====
-- A printed type is parsed back.
use duck_tiny_cc.Prelude.{
  ltb, length, length-append, codes, ℕ, zero, suc, ◌+◌, ◌<◌, ◌≡◌, refl, Bool, true, false, [], ◌∷◌,
  ◌++◌, arith,
}
use duck_tiny_cc.Strings.{Chars}
use duck_tiny_cc.StringList.{Heap}
use duck_tiny_cc.TypeToken.{accepted, flat_type, parse_flat, parse_type_token}
use duck_tiny_cc.TypeToken.Printed.{
  Syntax, named, struct_of, map_of, union_of, list_of, suffixed, sized, spelling, is_spelled, print,
  type_of, size_of, is_printable,
}
use duck_tiny_cc.TypeToken.Flat.{flat_named, flat_struct, flat_map, flat_union, flat_list}
use duck_tiny_cc.TypeToken.Compounds.{
  compound, compound_list, flat-square, compound_suffixed, compound_sized,
}
use duck_tiny_cc.FfiType.{FfiType}

parse-step :
    (heap : Heap) (fuel : ℕ) (token : Chars) (allow_void : Bool)
    → ltb 0 (length token) ≡ true
    → parse_type_token heap (suc fuel) token allow_void
      ≡ parse_flat
          (flat_type token allow_void)
          (compound (heap 0) (λ t. parse_type_token (λ i. heap (i + 1)) fuel t false) token)
unfolding parse_type_token
parse-step heap fuel [] allow_void h = cc
parse-step heap fuel (c ∷ s) allow_void h = refl

-- A name is parsed whatever the allocator answers.
pub parse-named :
    (t : FfiType) (heap : Heap) (fuel : ℕ) (allow_void : Bool)
    → is_spelled t ≡ true
    → 0 < fuel
    → parse_type_token heap fuel (spelling t) allow_void ≡ accepted t 0
parse-named t heap zero allow_void h f = absurd (omega arith)
parse-named t heap (suc fuel) allow_void h f =
    rw (parse-step heap fuel (spelling t) allow_void h, flat_named t allow_void h) refl

-- A type that is written in the documented syntax is parsed to what it says: its type, and for an
-- array its size modulo 2 ^ 64. No allocation may be refused, what stands before `[` has at most 63
-- bytes, and no size may be 0 modulo 2 ^ 64.
pub parse-print :
    (t : Syntax) (heap : Heap) (fuel : ℕ) (allow_void : Bool)
    → ((i bytes : ℕ) → heap i bytes ≡ true)
    → is_printable t ≡ true
    → length (print t) < fuel
    → parse_type_token heap fuel (print t) allow_void ≡ accepted (type_of t) (size_of t)
parse-print t heap zero allow_void m h f = absurd (omega arith)
parse-print (named t) heap (suc fuel) allow_void m h f =
    parse-named t heap (suc fuel) allow_void h (omega arith)
parse-print (struct_of s) heap (suc fuel) allow_void m h f =
    rw
      (
        parse-step heap fuel (print (struct_of s)) allow_void (ground arith),
        flat_struct s allow_void h,
      )
      refl
parse-print (map_of s) heap (suc fuel) allow_void m h f =
    rw (parse-step heap fuel (print (map_of s)) allow_void (ground arith), flat_map s allow_void h)
      refl
parse-print (union_of s) heap (suc fuel) allow_void m h f =
    rw
      (
        parse-step heap fuel (print (union_of s)) allow_void (ground arith),
        flat_union s allow_void h,
      )
      refl
parse-print (list_of t) heap (suc fuel) allow_void m h f =
    rw
      (
        parse-step heap fuel (print (list_of t)) allow_void (ground arith),
        flat_list (print t) allow_void,
      )
      (compound_list (heap 0) (λ t. parse_type_token (λ i. heap (i + 1)) fuel t false) t (m 0) h
        (parse-print t (λ i. heap (i + 1)) fuel false (λ i b. m (i + 1) b) h
          (omega (arith, length-append (print t) (codes ">")))))
parse-print (suffixed t) heap (suc fuel) allow_void m h f =
    let p : is_printable t ≡ true = grind arith in
    let n : ltb 0 (length (print t ++ codes "[]")) ≡ true =
      rw (length-append (print t) (codes "[]")) (ground arith) in
    rw (parse-step heap fuel (print (suffixed t)) allow_void n, flat-square (print t) [] allow_void)
      (compound_suffixed (heap 0) (λ t. parse_type_token (λ i. heap (i + 1)) fuel t false) t h
        (parse-print t (λ i. heap (i + 1)) fuel false (λ i b. m (i + 1) b) p
          (omega (arith, length-append (print t) (codes "[]")))))
parse-print (sized t ds) heap (suc fuel) allow_void m h f =
    let p : is_printable t ≡ true = grind arith in
    let r : Chars = 91 ∷ (ds ++ codes "]") in
    let n : ltb 0 (length (print t ++ r)) ≡ true = rw (length-append (print t) r) (ground arith) in
    rw (parse-step heap fuel (print (sized t ds)) allow_void n, flat-square (print t) ds allow_void)
      (compound_sized (heap 0) (λ t. parse_type_token (λ i. heap (i + 1)) fuel t false) t ds h
        (parse-print t (λ i. heap (i + 1)) fuel false (λ i b. m (i + 1) b) p
          (omega (arith, length-append (print t) r))))
