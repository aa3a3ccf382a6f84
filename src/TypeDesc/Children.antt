-- ===== src/TypeDesc/Children.antt =====
-- The children of lists and arrays: their tokens, and what the calls for them owe.
use duck_tiny_cc.Prelude.{
  ltb, leb, ◌==◌, Bool-cases, length, get_or, take, drop, length-drop, codes, ℕ, ◌+◌, ◌<◌, ◌≡◌,
  refl, inl, inr, Bool, true, false, not, ◌&&◌, Option, none, some, [], ◌∷◌, arith,
}
use duck_tiny_cc.Strings.{Chars, same, trim, equals_ci, last_or, init, last_split}
use duck_tiny_cc.FfiType.{
  FfiType, void, struct, union, list_child_type, array_child_type, type_is_list, type_is_array,
  type_is_struct, type_is_map, type_is_union, plain_token, type_to_token,
}
use duck_tiny_cc.TypeToken.{is_void}
use duck_tiny_cc.TypeDesc.{
  TypeDesc, primitive, ffi_type, token_or_null, cut_list, before_square, cut_array, child_token,
  plain_body,
}
use duck_tiny_cc.Strings.Laws.{same→≡, length-init, length-trim}
use duck_tiny_cc.Growth.{u64, Malloc}
use duck_tiny_cc.Result.{
  Result, parsed, ◌>>=◌, Calls, Holds, gives, stops, Holds->>=, Holds-map, Holds-guard,
}
use duck_tiny_cc.TypeToken.Printed.{spelling, is_spelled}
use duck_tiny_cc.TypeDesc.WellFormed.{is_scalar, ChildFits, WellFormed}
use duck_tiny_cc.TypeToken.Short.{SplitFits, last_split-SplitFits}

pub all_four :
    (a b c d : Bool)
    → (a && (b && (c && not d))) ≡ true
    → (a ≡ true) × (b ≡ true) × (c ≡ true) × (d ≡ false)
all_four a b c d h = (grind arith, grind arith, grind arith, grind arith)

abbrev known_token : FfiType → Option Chars → Bool
known_token c none = true
known_token c (some w) = same w (spelling c) && (is_spelled c && (is_scalar c && not (is_void c)))

abbrev pub known : Option FfiType → Bool
known none = true
known (some c) = known_token c (type_to_token c)

-- The token of the child of a fixed type is that which the parser of type tokens knows it by.
pub list_known : (t : FfiType) → known (list_child_type t) ≡ true
unfolding list_child_type type_to_token plain_token same type_is_list type_is_array type_is_struct
    type_is_map type_is_union
list_known void = refl
list_known _ = refl

pub array_known : (t : FfiType) → known (array_child_type t) ≡ true
unfolding array_child_type type_to_token plain_token same type_is_list type_is_array type_is_struct
    type_is_map type_is_union
array_known void = refl
array_known _ = refl

-- What a call for a child owes.
abbrev pub Sub : TypeDesc → Type 0
Sub d = (is_void (ffi_type d) ≡ false) × WellFormed d

abbrev pub Shorter : Chars → (ℕ → Chars → Result TypeDesc) → Type 0
Shorter token child = (i : ℕ) (t : Chars) → length t < length token → Holds Sub (child i t)

abbrev pub Spelled : (ℕ → Chars → Result TypeDesc) → Type 0
Spelled child =
    (i : ℕ) (c : FfiType)
    → is_spelled c ≡ true
    → is_scalar c ≡ true
    → is_void c ≡ false
    → Holds (λ d. (ffi_type d ≡ c) × Sub d) (child i (spelling c))

pub cut_list-Holds :
    (malloc : Malloc) (token : Chars)
    → 0 < length token
    → Holds (λ w. length w < length token) (cut_list malloc token)
unfolding cut_list
cut_list-Holds malloc token h =
    elim (Bool-cases
      (ltb 6 (length token) && ((get_or token 4 0 == 60) && (last_or 0 token == 62)))) [
        | inl y ↦ rw y (
            Holds-guard {m = parsed (trim (drop 5 (init token)))} _ _ λ m.
              gives {a = trim (drop 5 (init token))} (
                omega (
                  arith,
                  length-trim (drop 5 (init token)),
                  length-drop 5 (init token),
                  length-init token,
                )))
        | inr n ↦
            elim (Bool-cases (leb 5 (length token) && equals_ci (take 5 token) (codes "list_"))) [
              | inl y ↦ rw (n, y) (gives (omega (arith, length-drop 5 token)))
              | inr k ↦
                  elim (Bool-cases (
                    ltb 2 (length token)
                    && ((last_or 0 (init token) == 91) && (last_or 0 token == 93)))) [
                      | inl y ↦
                          rw (n, k, y)
                            (Holds-guard {m = parsed (trim (init (init token)))} _ _ λ m.
                              gives {a = trim (init (init token))} (
                                omega (
                                  arith,
                                  length-trim (init (init token)),
                                  length-init (init token),
                                  length-init token,
                                )))
                      | inr l ↦ rw (n, k, l) stops
                    ]
            ]
      ]

before_square-Holds :
    (malloc : Malloc) (closed : Bool) (token : Chars) (o : Option (Chars × Chars))
    → SplitFits token o
    → Holds (λ w. length w < length token) (before_square malloc closed o)
before_square-Holds malloc closed token none h = stops
before_square-Holds malloc closed token (some (a, [])) h = stops
before_square-Holds malloc closed token (some (a, c ∷ b)) h =
    Holds-guard closed _
      λ e. Holds-guard (malloc (u64 (length a + 1))) _ λ m. gives (omega (arith, length-trim a, h))

pub cut_array-Holds :
    (malloc : Malloc) (token : Chars)
    → Holds (λ w. length w < length token) (cut_array malloc token)
unfolding cut_array
cut_array-Holds malloc token =
    before_square-Holds malloc _ token (last_split 91 token) (last_split-SplitFits 91 token)

known_token-parts :
    (c : FfiType) (w : Chars)
    → known_token c (some w) ≡ true
    → (w ≡ spelling c) × (is_spelled c ≡ true) × (is_scalar c ≡ true) × (is_void c ≡ false)
known_token-parts c w e =
    let (q, a, b, v) = all_four (same w (spelling c)) (is_spelled c) (is_scalar c) (is_void c) e in
    (same→≡ w (spelling c) q, a, b, v)

-- The call for the child of a list or an array, by its fixed type or by the part of the token.
pub child-Holds :
    (child : ℕ → Chars → Result TypeDesc) (token : Chars) (o : Option FfiType) (part : Result Chars)
    → Shorter token child
    → Spelled child
    → known o ≡ true
    → Holds (λ w. length w < length token) part
    → Holds (λ d. ChildFits o (ffi_type d) × WellFormed d) (child_token o part >>= child 4)
child-Holds child token none part s k e h = Holds->>= h λ w l. s 4 w l
child-Holds child token (some c) part s k e h = of (type_to_token c) e
  where
    of :
        (w : Option Chars)
        → known_token c w ≡ true
        → Holds (λ d. ChildFits (some c) (ffi_type d) × WellFormed d) (token_or_null w >>= child 4)
    of none e = stops
    of (some w) e =
        let (q, a, b, v) = known_token-parts c w e in
        rw q (Holds-map (k 4 c a b v) λ d (x, (y, z)). ((x, y), z))

pub plain_body-scalar :
    (calls : Calls) (child : ℕ → Chars → Result TypeDesc) (token : Chars) (t : FfiType)
    → is_scalar t ≡ true
    → plain_body calls child token t ≡ parsed primitive
unfolding type_is_list type_is_array type_is_struct type_is_map type_is_union
plain_body-scalar calls child token struct h = cc
plain_body-scalar calls child token FfiType.map h = cc
plain_body-scalar calls child token union h = cc
plain_body-scalar calls child token void h = refl
plain_body-scalar calls child token _ h = refl
