-- ===== src/TypeDesc/Compounds.antt =====
-- What the fields of compounds are described as.
use duck_tiny_cc.Prelude.{
  length, ℕ, suc, ◌+◌, ◌<◌, ◌≡◌, refl, ap, true, false, ◌||◌, List, [], ◌∷◌, arith,
}
use duck_tiny_cc.Strings.{Chars}
use duck_tiny_cc.FfiType.{
  FfiType, void, struct, union, type_is_list, type_is_array, type_is_struct, type_is_map,
  type_is_union,
}
use duck_tiny_cc.TypeDesc.{TypeDesc, or_no_memory, members, fields_desc, plain_body}
use duck_tiny_cc.Result.{
  Result, parsed, err, unfinished, Calls, inside, nth, Holds, gives, stops, Holds->>=, Holds-map,
  Holds-guard, Holds-copied,
}
use duck_tiny_cc.Composite.{Field}
use duck_tiny_cc.Composite.Sound.{AllFit}
use duck_tiny_cc.Composite.Metas.{FieldsIn, struct_meta-Holds, union_meta-Holds, map_meta-Holds}
use duck_tiny_cc.TypeDesc.WellFormed.{is_scalar, member_count, BodyFits, MembersFit}
use duck_tiny_cc.TypeDesc.Children.{Shorter}

or_no_memory-Holds :
    {P : TypeDesc → Type 0} (r : Result TypeDesc) → Holds P r → Holds P (or_no_memory r)
or_no_memory-Holds (parsed d) h = h
or_no_memory-Holds (err []) h = stops
or_no_memory-Holds (err (c ∷ s)) h = stops
or_no_memory-Holds unfinished h = h

members-Holds :
    (calls : Calls) (child : ℕ → Chars → Result TypeDesc) (token : Chars) (n i : ℕ)
    (fs : List Field)
    → n < length token
    → Shorter token child
    → AllFit n fs
    → Holds (λ ms. (member_count ms ≡ length fs) × MembersFit ms) (members calls child i fs)
unfolding members MembersFit
members-Holds calls child token n i [] h s k = gives (refl, tt)
members-Holds calls child token n i (f ∷ fs) h s ((p, v, e, z, l), k) =
    Holds->>= (Holds-copied (nth calls i) (f.name)) λ name q.
      Holds->>= (or_no_memory-Holds _ (s i (f.token) (omega (arith, l, h)))) λ d x.
        Holds->>= (members-Holds calls child token n (i + 1) fs h s k)
          λ ms (c, y). gives (ap suc c, (rw q p, x, y))

fields_desc-Holds :
    (calls : Calls) (child : ℕ → Chars → Result TypeDesc) (token : Chars) (fs : List Field)
    → Shorter token child
    → FieldsIn token fs
    → Holds (λ ms. (0 < member_count ms) × MembersFit ms) (fields_desc calls child fs)
fields_desc-Holds calls child token fs s (n, h, (k, l)) = Holds-guard _ _ λ m.
    Holds-map (members-Holds (inside calls 2) child token n 4 fs h s k) λ ms (c, y). (rw c l, y)

scalar_rest :
    (t : FfiType)
    → (type_is_list t || type_is_array t) ≡ false
    → (type_is_struct t || (type_is_map t || type_is_union t)) ≡ false
    → is_scalar t ≡ true
scalar_rest t h k = ground arith

-- A type that is neither a list nor an array.
pub plain_body-Holds :
    (calls : Calls) (child : ℕ → Chars → Result TypeDesc) (token : Chars) (t : FfiType)
    → (type_is_list t || type_is_array t) ≡ false
    → Shorter token child
    → Holds (BodyFits t) (plain_body calls child token t)
unfolding BodyFits type_is_struct type_is_map type_is_union type_is_list type_is_array
plain_body-Holds calls child token struct h s =
    Holds->>= (struct_meta-Holds (inside calls 0) token)
      λ fs k. Holds->>= (fields_desc-Holds calls child token fs s k) λ ms (x, y). gives (refl, x, y)
plain_body-Holds calls child token union h s =
    Holds->>= (union_meta-Holds (inside calls 0) token)
      λ fs k. Holds->>= (fields_desc-Holds calls child token fs s k) λ ms (x, y). gives (refl, x, y)
plain_body-Holds calls child token FfiType.map h s =
    Holds->>= (map_meta-Holds (inside calls 0) token) λ m (n, l, ((kv, kz, kl), (vv, vz, vl))).
      Holds->>= (s 4 (m.key_token) (omega (arith, l, kl)))
        λ k x. Holds->>= (s 5 (m.value_token) (omega (arith, l, vl))) λ v y. gives (refl, x, y)
plain_body-Holds calls child token void h s = gives refl
plain_body-Holds calls child token t h s = gives (scalar_rest t h refl)
