-- ===== src/TypeDesc/Nameless.antt =====
-- Lists and arrays of a fixed type whose child has no token.
use duck_tiny_cc.Prelude.{
  if◌then◌else◌, Bool-cases, length, ℕ, suc, ◌+◌, ◌≡◌, refl, inl, inr, Bool, true, false, ◌&&◌,
  Option, none, some, [], arith,
}
use duck_tiny_cc.Growth.{u64}
use duck_tiny_cc.Strings.{Chars}
use duck_tiny_cc.Session.{strdup}
use duck_tiny_cc.Result.{Result, err, Calls, inside, nth, numbered}
use duck_tiny_cc.FfiType.{
  FfiType, list_uuid, list_date, list_time, list_timestamp, list_interval, list_decimal,
  list_child_type, array_child_type, type_is_list, type_is_array, type_to_token,
}
use duck_tiny_cc.TypeToken.{accepted, parse_type_token}
use duck_tiny_cc.TypeDesc.{
  TypeDesc, token_or_null, cut_list, cut_array, child_token, body, typedesc_parse_token,
}

abbrev no_token : Option Chars → Bool
no_token none = true
no_token (some w) = false

abbrev lacks_token : Option FfiType → Bool
lacks_token none = false
lacks_token (some c) = no_token (type_to_token c)

-- The lists and arrays of the six types.
abbrev pub is_nameless : FfiType → Bool
is_nameless list_uuid = true
is_nameless list_date = true
is_nameless list_time = true
is_nameless list_timestamp = true
is_nameless list_interval = true
is_nameless list_decimal = true
is_nameless FfiType.array_uuid = true
is_nameless FfiType.array_date = true
is_nameless FfiType.array_time = true
is_nameless FfiType.array_timestamp = true
is_nameless FfiType.array_interval = true
is_nameless FfiType.array_decimal = true
is_nameless _ = false

-- The type of a list or an array whose child has no token.
abbrev child_lacks_token : FfiType → Bool
child_lacks_token t =
    if type_is_list t
    then lacks_token (list_child_type t)
    else type_is_array t && lacks_token (array_child_type t)

child_lacks_token-nameless : (t : FfiType) → is_nameless t ≡ true → child_lacks_token t ≡ true
unfolding type_is_list type_is_array list_child_type array_child_type type_to_token
child_lacks_token-nameless list_uuid h = refl
child_lacks_token-nameless list_date h = refl
child_lacks_token-nameless list_time h = refl
child_lacks_token-nameless list_timestamp h = refl
child_lacks_token-nameless list_interval h = refl
child_lacks_token-nameless list_decimal h = refl
child_lacks_token-nameless FfiType.array_uuid h = refl
child_lacks_token-nameless FfiType.array_date h = refl
child_lacks_token-nameless FfiType.array_time h = refl
child_lacks_token-nameless FfiType.array_timestamp h = refl
child_lacks_token-nameless FfiType.array_interval h = refl
child_lacks_token-nameless FfiType.array_decimal h = refl
child_lacks_token-nameless _ h = absurd (grind arith)

child_token-nameless :
    (o : Option FfiType) (part : Result Chars) → lacks_token o ≡ true → child_token o part ≡ err []
child_token-nameless none part h = cc
child_token-nameless (some c) part h = of (type_to_token c) h
  where
    of : (o : Option Chars) → no_token o ≡ true → token_or_null o ≡ err []
    of none h = refl
    of (some w) h = cc

body-nameless :
    (calls : Calls) (child : ℕ → Chars → Result TypeDesc) (token : Chars) (t : FfiType)
    → child_lacks_token t ≡ true
    → body calls child token t ≡ err []
unfolding body
body-nameless calls child token t h = elim (Bool-cases (type_is_list t)) [
  | inl y ↦
      rw (y, child_token-nameless (list_child_type t) (cut_list (nth calls 3) token) (rw y at h))
        refl
  | inr n ↦
      let k : (type_is_array t && lacks_token (array_child_type t)) ≡ true = rw n at h in
      let a : type_is_array t ≡ true = grind arith in
      let l : lacks_token (array_child_type t) ≡ true = grind arith in
      rw (n, a, child_token-nameless (array_child_type t) (cut_array (nth calls 3) token) l) refl
]

-- A list or an array of uuid, date, time, timestamp, interval or decimal, which the parser of type
-- tokens accepts, is refused by the parser of type descriptors, and the error buffer stays empty.
-- The two allocations before the children may not be refused.
pub typedesc_parse_token-nameless :
    (calls : Calls) (fuel : ℕ) (token : Chars) (allow_void : Bool) (t : FfiType) (n : ℕ)
    → parse_type_token (numbered (inside calls 0)) (length token + 1) token allow_void
      ≡ accepted t n
    → is_nameless t ≡ true
    → nth calls 1 40 ≡ true
    → nth calls 2 (u64 (length token + 1)) ≡ true
    → typedesc_parse_token calls (suc fuel) token allow_void ≡ err []
unfolding typedesc_parse_token strdup
typedesc_parse_token-nameless calls fuel token allow_void t n e h a b =
    rw
      (
        e,
        a,
        b,
        body-nameless calls (λ i w. typedesc_parse_token (inside calls i) fuel w false) token t
            (child_lacks_token-nameless t h),
      )
      refl
