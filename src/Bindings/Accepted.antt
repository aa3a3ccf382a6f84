-- ===== src/Bindings/Accepted.antt =====
-- The parser of signatures accepts the functions for a C type.
use duck_tiny_cc.Prelude.{
  ltb, if◌then◌else◌, Bool-cases, codes, ◌≡◌, refl, inl, inr, Bool, true, false, not, ◌&&◌, ◌||◌,
  Option, none, some, List, [], ◌∷◌, ◌++◌, arith,
}
use duck_tiny_cc.Strings.{Chars, is_space, lower, skip_space, trim_end, trim, equals_ci}
use duck_tiny_cc.Growth.{grow, string_list_reserve}
use duck_tiny_cc.Session.{strdup}
use duck_tiny_cc.StringList.{append}
use duck_tiny_cc.Grammar.{part_from, next_top_level_part, all_parts, take_tokens, split_csv_tokens}
use duck_tiny_cc.Result.{Result, parsed, err, unfinished, Calls, Holds, Holds-map}
use duck_tiny_cc.FfiType.{
  FfiType, void, type_is_list, type_is_array, type_is_fixed_width_scalar, plain_token,
  type_to_token,
}
use duck_tiny_cc.TypeToken.{lookup_ci, flat_type, parse_type_token}
use duck_tiny_cc.TypeDesc.{body, typedesc_parse_token}
use duck_tiny_cc.Signature.{argument, arguments, signature, parse_signature}
use duck_tiny_cc.Fields.{CField, is_ptr}
use duck_tiny_cc.Bindings.{Binding, build_c_composite_bindings}
use duck_tiny_cc.Fields.Sound.{AllCFit}
use duck_tiny_cc.Bindings.Built.{place_helpers, token_helpers, all_helpers}
use duck_tiny_cc.Bindings.Lists.{build_c_composite_bindings-Grows}

-- No allocation is refused.
abbrev pub plenty : Calls
plenty path bytes = true

abbrev is_parsed {ℓ} : {A : Type ℓ} → Result A → Bool
is_parsed (parsed a) = true
is_parsed (err text) = false
is_parsed unfinished = false

abbrev signature_ok : Chars → Chars → Bool
signature_ok return_type arg_types =
    is_parsed (parse_signature plenty (some return_type) (some arg_types))

abbrev pub all_accepted : List Binding → Bool
all_accepted [] = true
all_accepted (b ∷ bs) = signature_ok b.return_type b.arg_types_csv && all_accepted bs

-- The four signatures that a field's token stands in.
abbrev token_ok : Option Chars → Bool
token_ok none = true
token_ok (some token) =
    (signature_ok token (codes "ptr") && signature_ok token (codes "ptr,u64"))
    && (signature_ok (codes "ptr") (codes "ptr," ++ token)
        && signature_ok (codes "ptr") (codes "ptr,u64," ++ token))

token_accepted :
    (t : FfiType)
    → (not (type_is_fixed_width_scalar t || is_ptr t) || token_ok (type_to_token t)) ≡ true
unfolding parse_signature signature argument arguments typedesc_parse_token body parse_type_token
    flat_type lookup_ci equals_ci lower split_csv_tokens strdup take_tokens trim skip_space trim_end
    is_space append string_list_reserve grow all_parts next_top_level_part part_from type_is_list
    type_is_array type_to_token plain_token type_is_fixed_width_scalar
token_accepted void = refl
token_accepted _ = refl

-- The signatures of the functions that hang on no token.
fixed_accepted :
    (signature_ok (codes "u64") [] && signature_ok (codes "ptr") [])
      && (signature_ok (codes "void") (codes "ptr") && signature_ok (codes "ptr") (codes "ptr"))
    ≡ true
unfolding parse_signature signature argument arguments typedesc_parse_token body parse_type_token
    flat_type lookup_ci equals_ci lower split_csv_tokens strdup take_tokens trim skip_space trim_end
    is_space append string_list_reserve grow all_parts next_top_level_part part_from type_is_list
    type_is_array
fixed_accepted = refl

both : (a b : Bool) → (a && b) ≡ true → (a ≡ true) × (b ≡ true)
both a b h = (grind arith, grind arith)

all_accepted-append :
    (xs bs : List Binding)
    → all_accepted xs ≡ true
    → all_accepted bs ≡ true
    → all_accepted (xs ++ bs) ≡ true
all_accepted-append [] bs h k = k
all_accepted-append (a ∷ xs) bs h k =
    let (p, q) = both (signature_ok a.return_type a.arg_types_csv) (all_accepted xs) h in
    rw (p, all_accepted-append xs bs q k) refl

-- The four of them, apart.
fixed_parts :
    (signature_ok (codes "u64") [] ≡ true)
    × (signature_ok (codes "ptr") [] ≡ true)
    × (signature_ok (codes "void") (codes "ptr") ≡ true)
    × (signature_ok (codes "ptr") (codes "ptr") ≡ true)
fixed_parts =
    let (p, q) = both _ _ fixed_accepted in
    let (a, b) = both _ _ p in let (c, d) = both _ _ q in (a, b, c, d)

place_helpers-accepted : (prefix name : Chars) → all_accepted (place_helpers prefix name) ≡ true
place_helpers-accepted prefix name = let (a, b, c, d) = fixed_parts in rw (a, d) refl

token_helpers-accepted :
    (prefix : Chars) (f : CField) (o : Option Chars)
    → token_ok o ≡ true
    → all_accepted (token_helpers prefix f o) ≡ true
token_helpers-accepted prefix f none h = refl
token_helpers-accepted prefix f (some token) h =
    let (p, q) =
      both (signature_ok token (codes "ptr") && signature_ok token (codes "ptr,u64"))
        (signature_ok (codes "ptr") (codes "ptr," ++ token)
          && signature_ok (codes "ptr") (codes "ptr,u64," ++ token))
        h in
    let (a, b) = both (signature_ok token (codes "ptr")) (signature_ok token (codes "ptr,u64")) p in
    let (c, d) =
      both (signature_ok (codes "ptr") (codes "ptr," ++ token))
        (signature_ok (codes "ptr") (codes "ptr,u64," ++ token)) q in
    elim (Bool-cases (ltb 0 f.array_size)) [
      | inl y ↦ rw (y, b, d, place_helpers-accepted prefix f.name) refl
      | inr n ↦ rw (n, a, c) (placed f.is_bitfield)
    ]
  where
    placed : (b : Bool) → all_accepted (if b then [] else place_helpers prefix f.name) ≡ true
    placed true = refl
    placed false = place_helpers-accepted prefix f.name

implied : (a b : Bool) → (not a || b) ≡ true → a ≡ true → b ≡ true
implied a b h k = grind arith

all_helpers-accepted :
    (prefix : Chars) (fs : List CField) → AllCFit fs → all_accepted (all_helpers prefix fs) ≡ true
all_helpers-accepted prefix [] h = refl
all_helpers-accepted prefix (f ∷ fs) ((i, t, n, x), h) =
    all_accepted-append (token_helpers prefix f (type_to_token f.type)) (all_helpers prefix fs)
      (token_helpers-accepted prefix f (type_to_token f.type) (
        implied (type_is_fixed_width_scalar f.type || is_ptr f.type)
          (token_ok (type_to_token f.type)) (token_accepted f.type) t))
      (all_helpers-accepted prefix fs h)

-- Each function that is bound for a C type has a signature that the parser of signatures accepts
-- where no allocation is refused, for fields as the parser of fields gives them.
pub build_c_composite_bindings-accepted :
    (calls : Calls) (prefix : Chars) (fields : List CField)
    → AllCFit fields
    → Holds (λ l. all_accepted l.items ≡ true) (build_c_composite_bindings calls prefix fields)
build_c_composite_bindings-accepted calls prefix fields h =
    let (a, b, c, d) = fixed_parts in
    Holds-map (build_c_composite_bindings-Grows calls prefix fields)
      λ l (e, k). rw e (rw (a, b, c, all_helpers-accepted prefix fields h) refl)
