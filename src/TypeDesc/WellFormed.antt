-- ===== src/TypeDesc/WellFormed.antt =====
-- Which type descriptors are well formed.
-- A type of none of the kinds that have children.
use duck_tiny_cc.Prelude.{ℕ, suc, ◌<◌, ◌≡◌, Bool, true, false, not, ◌&&◌, ◌||◌, Option, none, some}
use duck_tiny_cc.Strings.{Chars, is_identifier_token}
use duck_tiny_cc.FfiType.{
  FfiType, struct, union, list_child_type, array_child_type, type_is_list, type_is_array,
  type_is_struct, type_is_map, type_is_union,
}
use duck_tiny_cc.TypeToken.{is_void}
use duck_tiny_cc.TypeToken.Fuel.{SizeFits}
use duck_tiny_cc.TypeDesc.{
  TypeDesc, described, Body, primitive, list_like, array_like, struct_like, union_like, map_like,
  Members, no_more, member, ffi_type, type_token,
}

abbrev pub is_scalar : FfiType → Bool
is_scalar t =
    (not (type_is_list t) && not (type_is_array t))
    && (not (type_is_struct t) && (not (type_is_map t) && not (type_is_union t)))

-- The child of a list or an array of a fixed type has that type; no child is void.
abbrev pub ChildFits : Option FfiType → FfiType → Type 0
ChildFits none u = is_void u ≡ false
ChildFits (some c) u = (u ≡ c) × (is_void u ≡ false)

abbrev pub member_count : Members → ℕ
member_count no_more = 0
member_count (member name d ms) = suc (member_count ms)

-- The body agrees with the type, the size of an array is not 0 and fits 64 bits, there are members
-- where there must be, and their names are identifiers.
unfoldable mutual
  pub WellFormed : TypeDesc → Type 0
  WellFormed (described t n token b) = SizeFits (type_is_array t) n × BodyFits t b

  pub BodyFits : FfiType → Body → Type 0
  BodyFits t primitive = is_scalar t ≡ true
  BodyFits t (list_like d) =
      (type_is_list t ≡ true) × ChildFits (list_child_type t) (ffi_type d) × WellFormed d
  BodyFits t (array_like d) =
      (type_is_array t ≡ true) × ChildFits (array_child_type t) (ffi_type d) × WellFormed d
  BodyFits t (struct_like ms) = (t ≡ struct) × (0 < member_count ms) × MembersFit ms
  BodyFits t (union_like ms) = (t ≡ union) × (0 < member_count ms) × MembersFit ms
  BodyFits t (map_like k v) =
      (t ≡ FfiType.map)
      × ((is_void (ffi_type k) ≡ false) × WellFormed k)
      × ((is_void (ffi_type v) ≡ false) × WellFormed v)

  pub MembersFit : Members → Type 0
  MembersFit no_more = Unit {0}
  MembersFit (member name d ms) =
      (is_identifier_token name ≡ true)
      × ((is_void (ffi_type d) ≡ false) × WellFormed d)
      × MembersFit ms

-- What a call for the token answers with.
abbrev pub Describes : Bool → Chars → TypeDesc → Type 0
Describes allow_void token d =
    (type_token d ≡ token) × ((not (is_void (ffi_type d)) || allow_void) ≡ true) × WellFormed d
