-- ===== src/TypeDesc/Ends.antt =====
-- The parser of type descriptors ends, and the trees that it builds are well formed.
use duck_tiny_cc.Prelude.{
  Bool-cases, length, ℕ, zero, suc, ◌+◌, ◌<◌, ◌≡◌, refl, inl, inr, Bool, true, false, [], ◌∷◌,
  arith,
}
use duck_tiny_cc.Strings.{Chars}
use duck_tiny_cc.FfiType.{FfiType, list_child_type, array_child_type, type_is_list, type_is_array}
use duck_tiny_cc.TypeToken.{Parsed, accepted, rejected, out_of_fuel, is_void, parse_type_token}
use duck_tiny_cc.TypeToken.Fuel.{SizeFits, Sound, parse_type_token-Sound}
use duck_tiny_cc.TypeDesc.{TypeDesc, primitive, ffi_type, body, describe, typedesc_parse_token}
use duck_tiny_cc.Result.{
  Result, parsed, Calls, inside, nth, numbered, Holds, gives, stops, Holds->>=, Holds-map,
  Holds-guard, Holds-copied,
}
use duck_tiny_cc.TypeToken.Printed.{spelling, is_spelled}
use duck_tiny_cc.TypeToken.RoundTrip.{parse-named}
use duck_tiny_cc.TypeDesc.WellFormed.{is_scalar, WellFormed, BodyFits, Describes}
use duck_tiny_cc.TypeDesc.Children.{
  list_known, array_known, Sub, Shorter, Spelled, cut_list-Holds, cut_array-Holds, child-Holds,
  plain_body-scalar,
}
use duck_tiny_cc.TypeDesc.Compounds.{plain_body-Holds}

body-Holds :
    (calls : Calls) (child : ℕ → Chars → Result TypeDesc) (token : Chars) (t : FfiType)
    → 0 < length token
    → Shorter token child
    → Spelled child
    → Holds (BodyFits t) (body calls child token t)
unfolding body BodyFits
body-Holds calls child token t h s k = elim (Bool-cases (type_is_list t)) [
  | inl y ↦ rw y (
      Holds->>=
        (child-Holds child token (list_child_type t) _ s k (list_known t)
          (cut_list-Holds (nth calls 3) token h))
        λ d (c, w). gives (y, c, w))
  | inr n ↦ elim (Bool-cases (type_is_array t)) [
    | inl y ↦
        rw (n, y)
          (Holds->>=
            (child-Holds child token (array_child_type t) _ s k (array_known t)
              (cut_array-Holds (nth calls 3) token))
            λ d (c, w). gives (y, c, w))
    | inr m ↦ rw (n, m) (plain_body-Holds (inside calls 3) child token t (rw (n, m) refl) s)
  ]
]

describe-Holds :
    (calls : Calls) (child : ℕ → Chars → Result TypeDesc) (token : Chars) (allow_void : Bool)
    (r : Parsed)
    → 0 < length token
    → Shorter token child
    → Spelled child
    → Sound allow_void r
    → Holds (Describes allow_void token) (describe calls child token r)
unfolding WellFormed
describe-Holds calls child token allow_void rejected h s k e = stops
describe-Holds calls child token allow_void out_of_fuel h s k e = absurd e
describe-Holds calls child token allow_void (accepted t n) h s k (e, v) =
    Holds-guard (nth calls 1 40) _ λ m.
      Holds->>= (Holds-copied (nth calls 2) token)
        λ copy q. Holds->>= (body-Holds calls child token t h s k) λ b w. gives (q, v, (e, w))

body-scalar :
    (calls : Calls) (child : ℕ → Chars → Result TypeDesc) (token : Chars) (c : FfiType)
    → is_scalar c ≡ true
    → body calls child token c ≡ parsed primitive
unfolding body
body-scalar calls child token c h =
    let l : type_is_list c ≡ false = grind arith in
    let a : type_is_array c ≡ false = grind arith in
    rw (l, a) (plain_body-scalar (inside calls 3) child token c h)

scalar_size : (c : FfiType) → is_scalar c ≡ true → SizeFits (type_is_array c) 0
scalar_size c h = let a : type_is_array c ≡ false = grind arith in rw a refl

-- A name is described by a node alone.
spelled-Holds :
    (calls : Calls) (fuel : ℕ) (c : FfiType)
    → is_spelled c ≡ true
    → is_scalar c ≡ true
    → is_void c ≡ false
    → Holds
        (λ d. (ffi_type d ≡ c) × Sub d)
        (typedesc_parse_token calls (suc fuel) (spelling c) false)
unfolding typedesc_parse_token body WellFormed BodyFits
spelled-Holds calls fuel c h k v =
    rw (parse-named c (numbered (inside calls 0)) (length (spelling c) + 1) false h (omega arith)) (
      Holds-guard (nth calls 1 40) _ λ m.
        Holds->>= (Holds-copied (nth calls 2) (spelling c)) λ copy q.
          rw (body-scalar calls _ (spelling c) c k) (gives (refl, (v, (scalar_size c k, k)))))

-- With a unit of fuel for each byte of the token and one more, the parser of type descriptors ends.
-- It refuses, or it gives a tree for the token that is well formed, of type void only where that is
-- allowed.
pub typedesc_parse_token-WellFormed :
    (fuel : ℕ) (calls : Calls) (token : Chars) (allow_void : Bool)
    → length token < fuel
    → Holds (Describes allow_void token) (typedesc_parse_token calls fuel token allow_void)
unfolding typedesc_parse_token parse_type_token
typedesc_parse_token-WellFormed zero calls token allow_void h = absurd (omega arith)
typedesc_parse_token-WellFormed (suc fuel) calls [] allow_void h = stops
typedesc_parse_token-WellFormed (suc zero) calls (c ∷ s) allow_void h = absurd (omega arith)
typedesc_parse_token-WellFormed (suc (suc fuel)) calls (c ∷ s) allow_void h =
    let child : ℕ → Chars → Result TypeDesc =
      (λ i t. typedesc_parse_token (inside calls i) (suc fuel) t false) in
    describe-Holds calls child (c ∷ s) allow_void _ (omega arith)
      (λ i t k.
        Holds-map
          (typedesc_parse_token-WellFormed (suc fuel) (inside calls i) t false
            (omega (arith, h, k)))
          λ d (x, y, z). (ground (arith, y), z))
      (λ i t a b v. spelled-Holds (inside calls i) fuel t a b v)
      (parse_type_token-Sound (length (c ∷ s) + 1) (numbered (inside calls 0)) (c ∷ s) allow_void
        (omega arith))
