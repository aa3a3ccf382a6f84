-- ===== src/TypeDesc.antt =====
-- tcc_typedesc_parse_token of src/tcc_module.c: the tree that describes a type. A call that parses a
-- child takes a unit of fuel for it. A tree that is thrown away when a later step fails is freed, and
-- no trace of it is left here.
pub mod WellFormed
pub mod Children
pub mod Compounds
pub mod Ends
pub mod Nameless
mod Tests
use duck_tiny_cc.Prelude.{
  ltb, leb, ◌==◌, if◌then◌else◌, length, get_or, take, drop, codes, ℕ, zero, suc, ◌+◌, ◌-◌, ◌*◌,
  Bool, false, ◌&&◌, Option, none, some, List, [], ◌∷◌,
}
use duck_tiny_cc.Strings.{Chars, trim, equals_ci, last_or, init, last_split}
use duck_tiny_cc.Growth.{u64, Malloc}
use duck_tiny_cc.Result.{
  Result, parsed, err, unfinished, ◌>>=◌, ◌>>◌, guard, no_memory, Calls, inside, nth, numbered,
  copied,
}
use duck_tiny_cc.Session.{strdup}
use duck_tiny_cc.FfiType.{
  FfiType, struct, union, list_child_type, array_child_type, type_is_list, type_is_array,
  type_to_token,
}
use duck_tiny_cc.TypeToken.{Parsed, accepted, rejected, out_of_fuel, parse_type_token}
use duck_tiny_cc.Composite.{Field, struct_meta, union_meta, map_meta}

-- `tcc_typedesc_t`: the type, the size of an array and the token, and what the kind adds to them.
mutual
  pub data TypeDesc : Type 0 where
    described : FfiType → ℕ → Chars → Body → TypeDesc

  pub data Body : Type 0 where
    primitive : Body
    list_like array_like : TypeDesc → Body
    struct_like union_like : Members → Body
    map_like : TypeDesc → TypeDesc → Body

  -- `tcc_typedesc_field_t`, one after another
  pub data Members : Type 0 where
    no_more : Members
    member : Chars → TypeDesc → Members → Members

abbrev pub ffi_type : TypeDesc → FfiType
ffi_type (described t n token b) = t

abbrev pub size_of_array : TypeDesc → ℕ
size_of_array (described t n token b) = n

abbrev pub type_token : TypeDesc → Chars
type_token (described t n token b) = token

-- A child that has no token leaves the error buffer as it is.
abbrev pub token_or_null : Option Chars → Result Chars
token_or_null none = err []
token_or_null (some w) = parsed w

-- The child of a list of no fixed type, taken from the token.
unfoldable pub cut_list : Malloc → Chars → Result Chars
cut_list malloc token =
    if ltb 6 (length token) && ((get_or token 4 0 == 60) && (last_or 0 token == 62))
    then (do guard (malloc (length token - 4)) no_memory; parsed (trim (drop 5 (init token))))
    else if leb 5 (length token) && equals_ci (take 5 token) (codes "list_")
    then parsed (drop 5 token)
    else if ltb 2 (length token) && ((last_or 0 (init token) == 91) && (last_or 0 token == 93))
    then (do guard (malloc (length token - 1)) no_memory; parsed (trim (init (init token))))
    else err []

-- The child of an array of no fixed type: what stands before the last `[`.
abbrev pub before_square : Malloc → Bool → Option (Chars × Chars) → Result Chars
before_square malloc closed none = err []
before_square malloc closed (some (a, [])) = err []
before_square malloc closed (some (a, c ∷ b)) = do
  guard closed []
  guard (malloc (u64 (length a + 1))) no_memory
  parsed (trim a)

unfoldable pub cut_array : Malloc → Chars → Result Chars
cut_array malloc token =
    before_square malloc (ltb 3 (length token) && (last_or 0 token == 93)) (last_split 91 token)

-- The token of a child, by its fixed type or by the part of the token.
abbrev pub child_token : Option FfiType → Result Chars → Result Chars
child_token none part = part
child_token (some c) part = token_or_null (type_to_token c)

-- if (!error_buf || error_buf->message[0] == '\0') { tcc_set_error(error_buf, "out of memory"); }
abbrev pub or_no_memory {ℓ} : {A : Type ℓ} → Result A → Result A
or_no_memory (err []) = err no_memory
or_no_memory r = r

-- The loop over the fields; `child i token` parses the token in the call number `i`.
unfoldable pub members : Calls → (ℕ → Chars → Result TypeDesc) → ℕ → List Field → Result Members
members calls child i [] = parsed no_more
members calls child i (f ∷ fs) = do
  name ← copied (strdup (nth calls i) (f.name))
  d ← or_no_memory (child i (f.token))
  rest ← members calls child (i + 1) fs
  parsed (member name d rest)

-- The array of the fields, and the fields.
abbrev pub fields_desc : Calls → (ℕ → Chars → Result TypeDesc) → List Field → Result Members
fields_desc calls child fs = do
  guard (nth calls 1 (u64 (16 * length fs))) no_memory
  members (inside calls 2) child 4 fs

-- What the kind adds, for a type that is no list and no array.
abbrev pub plain_body : Calls → (ℕ → Chars → Result TypeDesc) → Chars → FfiType → Result Body
plain_body calls child token struct = do
  fs ← struct_meta (inside calls 0) token
  ms ← fields_desc calls child fs
  parsed (struct_like ms)
plain_body calls child token FfiType.map = do
  m ← map_meta (inside calls 0) token
  k ← child 4 (m.key_token)
  v ← child 5 (m.value_token)
  parsed (map_like k v)
plain_body calls child token union = do
  fs ← union_meta (inside calls 0) token
  ms ← fields_desc calls child fs
  parsed (union_like ms)
plain_body calls child token _ = parsed primitive

abbrev pub list_body : Malloc → (ℕ → Chars → Result TypeDesc) → Chars → FfiType → Result Body
list_body malloc child token t = do
  d ← child_token (list_child_type t) (cut_list malloc token) >>= child 4
  parsed (list_like d)

abbrev pub array_body : Malloc → (ℕ → Chars → Result TypeDesc) → Chars → FfiType → Result Body
array_body malloc child token t = do
  d ← child_token (array_child_type t) (cut_array malloc token) >>= child 4
  parsed (array_like d)

unfoldable pub body : Calls → (ℕ → Chars → Result TypeDesc) → Chars → FfiType → Result Body
body calls child token t =
    if type_is_list t
    then list_body (nth calls 3) child token t
    else if type_is_array t
    then array_body (nth calls 3) child token t
    else plain_body (inside calls 3) child token t

-- What follows the parse of the token: the node, the copy of the token, and the children.
abbrev pub describe : Calls → (ℕ → Chars → Result TypeDesc) → Chars → Parsed → Result TypeDesc
describe calls child token (accepted t n) = do
  guard (nth calls 1 40) no_memory
  copy ← copied (strdup (nth calls 2) token)
  b ← body calls child token t
  parsed (described t n copy b)
describe calls child token rejected = err (codes "type token is unsupported")
describe calls child token out_of_fuel = unfinished

unfoldable pub typedesc_parse_token : Calls → ℕ → Chars → Bool → Result TypeDesc
typedesc_parse_token calls zero token allow_void = unfinished
typedesc_parse_token calls (suc fuel) token allow_void =
    let child : ℕ → Chars → Result TypeDesc =
      (λ i t. typedesc_parse_token (inside calls i) fuel t false) in
    describe calls child token
      (parse_type_token (numbered (inside calls 0)) (length token + 1) token allow_void)
