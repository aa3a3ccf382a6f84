-- ===== src/TypeToken/Fuel.antt =====
-- The parser of type tokens ends, and what it accepts.
use duck_tiny_cc.Prelude.{
  if◌then◌else◌, Bool-cases, length, codes, ℕ, zero, suc, ◌+◌, ◌-◌, ◌^◌, ◌<◌, ◌≡◌, refl, inl, inr,
  Bool, true, false, not, ◌&&◌, ◌||◌, Option, none, some, List, [], ◌∷◌, arith,
}
use duck_tiny_cc.Strings.{Chars, equals_ci}
use duck_tiny_cc.FfiType.{
  FfiType, void, list, array, list_type_from_child, array_type_from_child, type_is_array,
}
use duck_tiny_cc.TypeToken.{
  Parsed, accepted, rejected, out_of_fuel, simple_tokens, lookup_ci, is_wrapped, first_of,
  wrapped_type, flat_type, or_generic, is_void, as_list, as_array, array_part, suffix_part,
  list_part, parse_suffix, parse_sized, parse_rest, parse_flat, parse_type_token,
}
use duck_tiny_cc.StringList.{Heap}
use duck_tiny_cc.Growth.{Malloc}
use duck_tiny_cc.TypeToken.Short.{
  ShortPart, ShortSuffix, length-list_part, array_part-ShortPart, suffix_part-ShortSuffix,
}

-- The size beside a type: that of an array fits 64 bits and is not 0, any other is 0.
abbrev pub SizeFits : Bool → ℕ → Type 0
SizeFits true n = (0 < n) × (n < 2 ^ 64)
SizeFits false n = n ≡ 0

abbrev pub Sound : Bool → Parsed → Type 0
Sound allow_void (accepted t n) =
    SizeFits (type_is_array t) n × ((not (is_void t) || allow_void) ≡ true)
Sound allow_void rejected = Unit {0}
Sound allow_void out_of_fuel = ⊥

abbrev pub Plain : Option FfiType → Type 0
Plain none = Unit {0}
Plain (some t) = (type_is_array t ≡ false) × (is_void t ≡ false)

abbrev all_plain : List (Chars × FfiType) → Bool
all_plain [] = true
all_plain ((name, t) ∷ rest) = (not (type_is_array t) && not (is_void t)) && all_plain rest

Plain-lookup_ci :
    (token : Chars) (table : List (Chars × FfiType))
    → all_plain table ≡ true
    → Plain (lookup_ci token table)
unfolding lookup_ci
Plain-lookup_ci token [] h = tt
Plain-lookup_ci token ((name, t) ∷ rest) h = elim (Bool-cases (equals_ci token name)) [
  | inl y ↦ rw y (grind arith)
  | inr n ↦ rw n (Plain-lookup_ci token rest (grind arith))
]

Plain-simple : (token : Chars) → Plain (lookup_ci token simple_tokens)
unfolding type_is_array
Plain-simple token = Plain-lookup_ci token simple_tokens refl

Plain-if : (b : Bool) (x y : Option FfiType) → Plain x → Plain y → Plain (if b then x else y)
Plain-if true x y h k = h
Plain-if false x y h k = k

Plain-wrapped_type : (token : Chars) → Plain (wrapped_type token)
unfolding wrapped_type type_is_array
Plain-wrapped_type token =
    Plain-if (is_wrapped (codes "struct") token) _ _ (refl, refl)
      (Plain-if (is_wrapped (codes "map") token) _ _ (refl, refl)
        (Plain-if (is_wrapped (codes "union") token) _ _ (refl, refl) tt))

Plain-first_of : (a b : Option FfiType) → Plain a → Plain b → Plain (first_of a b)
Plain-first_of none b h k = k
Plain-first_of (some t) b h k = h

Sound-parse_flat :
    (allow_void : Bool) (a : Option FfiType) (r : Parsed)
    → Plain a
    → Sound allow_void r
    → Sound allow_void (parse_flat a r)
Sound-parse_flat allow_void none r h k = k
Sound-parse_flat allow_void (some t) r (p, q) k = rw (p, q) (refl, refl)

Sound-flat_type :
    (token : Chars) (allow_void : Bool) (r : Parsed)
    → Sound allow_void r
    → Sound allow_void (parse_flat (flat_type token allow_void) r)
unfolding flat_type type_is_array
Sound-flat_type token allow_void r h =
    elim (Bool-cases (allow_void && equals_ci token (codes "void"))) [
      | inl y ↦ rw y (refl, ground arith)
      | inr n ↦ rw n (
          Sound-parse_flat allow_void
            (first_of (lookup_ci token simple_tokens) (wrapped_type token)) r
            (Plain-first_of (lookup_ci token simple_tokens) (wrapped_type token)
              (Plain-simple token) (Plain-wrapped_type token))
            h)
    ]

pub list_plain : (c : FfiType) → Plain (some (or_generic (list_type_from_child c) list))
unfolding list_type_from_child type_is_array
list_plain void = (refl, refl)
list_plain _ = (refl, refl)

pub array_is_array :
    (c : FfiType)
    → (type_is_array (or_generic (array_type_from_child c) array) ≡ true)
      × (is_void (or_generic (array_type_from_child c) array) ≡ false)
unfolding array_type_from_child type_is_array
array_is_array void = (refl, refl)
array_is_array _ = (refl, refl)

Sound-as_list : (allow_void : Bool) (r : Parsed) → Sound false r → Sound allow_void (as_list r)
Sound-as_list allow_void (accepted c n) h = elim (Bool-cases (is_void c)) [
  | inl y ↦ rw y tt
  | inr k ↦ let (p, q) = list_plain c in rw (k, p, q) (refl, refl)
]
Sound-as_list allow_void rejected h = tt
Sound-as_list allow_void out_of_fuel h = h

Sound-as_array :
    (allow_void : Bool) (n : ℕ) (r after : Parsed)
    → 0 < n
    → n < 2 ^ 64
    → Sound false r
    → Sound allow_void after
    → Sound allow_void (as_array n r after)
Sound-as_array allow_void n (accepted c m) after h k s a = elim (Bool-cases (is_void c)) [
  | inl y ↦ rw y a
  | inr z ↦ let (p, q) = array_is_array c in rw (z, p, q) ((h, k), refl)
]
Sound-as_array allow_void n rejected after h k s a = a
Sound-as_array allow_void n out_of_fuel after h k s a = s

-- The two branches at the end.
Sound-parse_rest :
    (allow_void : Bool) (token : Chars) (part : Chars → Parsed)
    → ((t : Chars) → length t < length token → Sound false (part t))
    → Sound allow_void (parse_rest part token)
Sound-parse_rest allow_void token part h = sized (array_part token) (array_part-ShortPart token)
  where
    suffix : (o : Option Chars) → ShortSuffix token o → Sound allow_void (parse_suffix part o)
    suffix none k = tt
    suffix (some child) k = Sound-as_list allow_void (part child) (h child k)

    after : Sound allow_void (parse_suffix part (suffix_part token))
    after = suffix (suffix_part token) (suffix_part-ShortSuffix token)

    sized :
        (o : Option (Chars × ℕ))
        → ShortPart token o
        → Sound allow_void (parse_sized part o (parse_suffix part (suffix_part token)))
    sized none k = after
    sized (some (child, n)) (k, p, q) =
        Sound-as_array allow_void n (part child) (parse_suffix part (suffix_part token)) p q
          (h child k) after

-- The branches after the flat types, for any way to parse a shorter token.
Sound-compound :
    (malloc : Malloc) (c : ℕ) (s : Chars) (allow_void : Bool) (part : Chars → Parsed)
    → ((t : Chars) → length t < length (c ∷ s) → Sound false (part t))
    → Sound allow_void (
        if is_wrapped (codes "list") (c ∷ s)
        then (if malloc (length (c ∷ s) - 4) then as_list (part (list_part (c ∷ s))) else rejected)
        else parse_rest part (c ∷ s))
Sound-compound malloc c s allow_void part shorter =
    elim (Bool-cases (is_wrapped (codes "list") (c ∷ s))) [
      | inr n ↦ rw n (Sound-parse_rest allow_void (c ∷ s) part shorter)
      | inl y ↦ rw y (elim (Bool-cases (malloc (length (c ∷ s) - 4))) [
        | inr n ↦ rw n tt
        | inl z ↦ rw z (
            Sound-as_list allow_void (part (list_part (c ∷ s)))
              (shorter (list_part (c ∷ s)) (length-list_part c s)))
      ])
    ]

-- With a unit of fuel for each byte and one more the parser ends. A type that it accepts is an array
-- exactly where it comes with a size, which is at least 1 and below 2 ^ 64, and is `void` only where
-- `void` is allowed.
pub parse_type_token-Sound :
    (fuel : ℕ) (heap : Heap) (token : Chars) (allow_void : Bool)
    → length token < fuel
    → Sound allow_void (parse_type_token heap fuel token allow_void)
unfolding parse_type_token
parse_type_token-Sound zero heap token allow_void h = absurd (omega arith)
parse_type_token-Sound (suc fuel) heap [] allow_void h = tt
parse_type_token-Sound (suc fuel) heap (c ∷ s) allow_void h = Sound-flat_type (c ∷ s) allow_void _ (
    Sound-compound (heap 0) c s allow_void (λ t. parse_type_token (λ i. heap (i + 1)) fuel t false)
      (λ t k. parse_type_token-Sound fuel (λ i. heap (i + 1)) t false (omega (arith, h, k))))
