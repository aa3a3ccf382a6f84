-- ===== src/Fields/Sound.antt =====
-- What the parsers of fields and of enum constants give.
use duck_tiny_cc.Prelude.{
  ◌==◌, Bool-cases, codes, ℕ, ◌^◌, ◌<◌, ◌≡◌, inl, inr, Bool, true, false, not, ◌&&◌, ◌||◌, Option,
  none, some, List, [], ◌∷◌, ◌++◌, arith,
}
use duck_tiny_cc.Strings.{Chars, trim, equals_ci, is_identifier_token}
use duck_tiny_cc.Result.{
  Calls, inside, nth, numbered, Holds, gives, stops, Holds->>=, Holds-guard, Holds-copied,
}
use duck_tiny_cc.FfiType.{FfiType, array_child_type, type_is_array, type_is_fixed_width_scalar}
use duck_tiny_cc.TypeToken.{Parsed, accepted, out_of_fuel}
use duck_tiny_cc.TypeToken.Fuel.{SizeFits, Sound, parse_type_token-Sound}
use duck_tiny_cc.Fields.{
  CField, first_split, at_colon, is_ptr, type_and_option, supported, bitfield_option, element_type,
  field_shape, parse_c_field_spec_token,
}

-- An identifier, an element of fixed width, and no bitfield that is an array.
abbrev pub CFieldFits : CField → Type 0
CFieldFits f =
    (is_identifier_token f.name ≡ true)
    × ((type_is_fixed_width_scalar f.type || is_ptr f.type) ≡ true)
    × (f.array_size < 2 ^ 64)
    × ((f.is_bitfield && not (f.array_size == 0)) ≡ false)

at_colon-Holds : (o : Option (Chars × Chars)) → Holds (λ p. Unit {0}) (at_colon o)
at_colon-Holds none = stops
at_colon-Holds (some p) = gives tt

supported-Holds :
    (r : Parsed) → Sound false r → Holds (λ p. SizeFits (type_is_array (p.0)) (p.1)) (supported r)
supported-Holds (accepted t n) (h, v) = gives h
supported-Holds Parsed.rejected h = stops
supported-Holds out_of_fuel h = absurd h

bitfield_option-Holds : (force : Bool) (s : Chars) → Holds (λ b. Unit {0}) (bitfield_option force s)
bitfield_option-Holds force [] = gives tt
bitfield_option-Holds force (c ∷ s) =
    Holds-guard (equals_ci (c ∷ s) (codes "bitfield")) _ λ e. gives tt

element_type-Holds : (o : Option FfiType) (n : ℕ) → Holds (λ c. Unit {0}) (element_type o n)
element_type-Holds none n = stops
element_type-Holds (some c) n = Holds-guard (not (n == 0)) _ λ e. gives tt

abbrev ShapeFits : Bool → FfiType × ℕ → Type 0
ShapeFits is_bitfield p = (p.1 < 2 ^ 64) × ((is_bitfield && not (p.1 == 0)) ≡ false)

size_below : (b : Bool) (n : ℕ) → SizeFits b n → n < 2 ^ 64
size_below true n (h, k) = k
size_below false n h = omega (arith, h)

field_shape-Holds :
    (is_bitfield : Bool) (t : FfiType) (n : ℕ)
    → SizeFits (type_is_array t) n
    → Holds (ShapeFits is_bitfield) (field_shape is_bitfield t n)
unfolding field_shape
field_shape-Holds is_bitfield t n h = elim (Bool-cases (type_is_array t)) [
  | inl y ↦ rw y (
      Holds->>= (element_type-Holds (array_child_type t) n) λ c u.
        Holds-guard (not is_bitfield) _
          λ e. gives (size_below (type_is_array t) n h, ground (arith, e)))
  | inr m ↦ rw m (gives (omega arith, ground arith))
]

-- The parser of a field ends. It refuses, or it gives a field whose name is an identifier, whose
-- elements are pointers or scalars of a fixed width, and which is not both an array and a bitfield.
pub parse_c_field_spec_token-Fits :
    (calls : Calls) (force_bitfield : Bool) (token : Chars)
    → Holds CFieldFits (parse_c_field_spec_token calls force_bitfield token)
unfolding parse_c_field_spec_token
parse_c_field_spec_token-Fits calls force_bitfield token =
    Holds->>= (Holds-copied (nth calls 0) token) λ copy c.
      Holds->>= (at_colon-Holds (first_split 58 copy)) λ p u.
        Holds-guard (is_identifier_token (trim (p.0))) _ λ i.
          Holds->>=
            (supported-Holds _
              (parse_type_token-Sound _ (numbered (inside calls 1)) _ false (omega arith)))
            λ t z.
              Holds->>=
                (bitfield_option-Holds force_bitfield
                  (trim ((type_and_option (p.1) (first_split 58 (p.1))).1)))
                λ b w. Holds->>= (field_shape-Holds b (t.0) (t.1) z) λ shape (small, x).
                  Holds-guard _ _ λ y. Holds->>= (Holds-copied (nth calls 2) (trim (p.0))) λ name q.
                    gives
                      {a = record {
                        name = name;
                        type = shape.0;
                        array_size = shape.1;
                        is_bitfield = b;
                      }}
                      (rw q i, y, small, x)

abbrev pub AllCFit : List CField → Type 0
AllCFit [] = Unit {0}
AllCFit (f ∷ fs) = CFieldFits f × AllCFit fs

pub AllCFit-append :
    (fs : List CField) (f : CField) → AllCFit fs → CFieldFits f → AllCFit (fs ++ f ∷ [])
AllCFit-append [] f h k = (k, tt)
AllCFit-append (g ∷ fs) f (p, h) k = (p, AllCFit-append fs f h k)
