-- ===== src/Bindings/Lists.antt =====
-- The builders of bindings fill their list with the functions that the fields ask for.
use duck_tiny_cc.Prelude.{
  ltb, if◌then◌else◌, Bool-cases, codes, ℕ, ◌+◌, inl, inr, Bool, true, false, Option, none, some,
  List, [], ◌∷◌, ◌++◌, arith,
}
use duck_tiny_cc.Strings.{Chars}
use duck_tiny_cc.Result.{Calls, inside, Holds, stops, Holds->>=}
use duck_tiny_cc.FfiType.{type_to_token}
use duck_tiny_cc.Fields.{CField}
use duck_tiny_cc.Bindings.{
  BindingList, no_bindings, array_bindings, place_bindings, value_bindings, token_bindings,
  field_bindings, build_c_composite_bindings, constant_bindings, build_c_enum_bindings,
}
use duck_tiny_cc.Bindings.Built.{
  place_helpers, array_helpers, value_helpers, token_helpers, all_helpers, composite_helpers,
  constant_helpers, enum_helpers, BindingsFit, Grows, Grows-then, Grows-refl, add_prefixed-Grows,
  format_cstr-Holds, add_format-Grows,
}

array_bindings-Grows :
    (calls : Calls) (l : BindingList) (prefix name token : Chars)
    → BindingsFit l
    → Holds (Grows l (array_helpers prefix name token)) (array_bindings calls l prefix name token)
array_bindings-Grows calls l prefix name token h =
    Holds->>= (format_cstr-Holds 128 (codes "ptr,u64")) λ gets e. rw e (
      Grows-then l (_ ∷ []) _
        (add_format-Grows (inside calls 0) l prefix token (codes "ptr,u64") _ _ h)
        λ l1 h1. Holds->>= (format_cstr-Holds 128 (codes "ptr,u64," ++ token)) λ sets d. rw d (
          Grows-then l1 (_ ∷ []) _ (add_format-Grows (inside calls 1) l1 prefix _ _ _ _ h1) λ l2 h2.
            Grows-then l2 (_ ∷ []) _ (add_format-Grows (inside calls 2) l2 prefix _ _ _ _ h2)
              λ l3 h3. add_format-Grows (inside calls 3) l3 prefix _ _ _ _ h3))

place_bindings-Grows :
    (calls : Calls) (l : BindingList) (prefix name : Chars) (is_bitfield : Bool)
    → BindingsFit l
    → Holds
        (Grows l (if is_bitfield then [] else place_helpers prefix name))
        (place_bindings calls l prefix name is_bitfield)
place_bindings-Grows calls l prefix name true h = Grows-refl l h
place_bindings-Grows calls l prefix name false h =
    Grows-then l (_ ∷ []) _ (add_format-Grows (inside calls 0) l prefix _ _ _ _ h)
      λ l1 h1. add_format-Grows (inside calls 1) l1 prefix _ _ _ _ h1

value_bindings-Grows :
    (calls : Calls) (l : BindingList) (prefix name : Chars) (is_bitfield : Bool) (token : Chars)
    → BindingsFit l
    → Holds
        (Grows l (
          value_helpers prefix name token
          ++ (if is_bitfield then [] else place_helpers prefix name)))
        (value_bindings calls l prefix name is_bitfield token)
value_bindings-Grows calls l prefix name is_bitfield token h =
    Grows-then l (_ ∷ []) _ (add_format-Grows (inside calls 0) l prefix _ _ _ _ h) λ l1 h1.
      Holds->>= (format_cstr-Holds 128 (codes "ptr," ++ token)) λ sets d. rw d (
        Grows-then l1 (_ ∷ []) _ (add_format-Grows (inside calls 1) l1 prefix _ _ _ _ h1)
          λ l2 h2. place_bindings-Grows (inside calls 2) l2 prefix name is_bitfield h2)

token_bindings-Grows :
    (calls : Calls) (l : BindingList) (prefix : Chars) (f : CField) (o : Option Chars)
    → BindingsFit l
    → Holds (Grows l (token_helpers prefix f o)) (token_bindings calls l prefix f o)
token_bindings-Grows calls l prefix f none h = stops
token_bindings-Grows calls l prefix f (some token) h = elim (Bool-cases (ltb 0 f.array_size)) [
  | inl y ↦ rw y (array_bindings-Grows calls l prefix f.name token h)
  | inr n ↦ rw n (value_bindings-Grows calls l prefix f.name f.is_bitfield token h)
]

field_bindings-Grows :
    (calls : Calls) (i : ℕ) (l : BindingList) (prefix : Chars) (fs : List CField)
    → BindingsFit l
    → Holds (Grows l (all_helpers prefix fs)) (field_bindings calls i l prefix fs)
unfolding field_bindings
field_bindings-Grows calls i l prefix [] h = Grows-refl l h
field_bindings-Grows calls i l prefix (f ∷ fs) h =
    Grows-then l (token_helpers prefix f (type_to_token f.type)) (all_helpers prefix fs)
      (token_bindings-Grows (inside calls i) l prefix f (type_to_token f.type) h)
      λ k p. field_bindings-Grows calls (i + 1) k prefix fs p

-- The builder for a C type ends. It refuses, or its list holds exactly the functions `sizeof`,
-- `alignof`, `new` and `free` and those of each field, in order, each once, and has room for them.
pub build_c_composite_bindings-Grows :
    (calls : Calls) (prefix : Chars) (fields : List CField)
    → Holds
        (Grows no_bindings (composite_helpers prefix fields))
        (build_c_composite_bindings calls prefix fields)
unfolding build_c_composite_bindings
build_c_composite_bindings-Grows calls prefix fields =
    Grows-then no_bindings (_ ∷ []) _
      (add_prefixed-Grows (inside calls 0) no_bindings prefix _ _ _ _ (omega arith, omega arith))
      λ l1 h1.
        Grows-then l1 (_ ∷ []) _ (add_prefixed-Grows (inside calls 1) l1 prefix _ _ _ _ h1) λ l2 h2.
          Grows-then l2 (_ ∷ []) _ (add_prefixed-Grows (inside calls 2) l2 prefix _ _ _ _ h2)
            λ l3 h3.
              Grows-then l3 (_ ∷ []) _ (add_prefixed-Grows (inside calls 3) l3 prefix _ _ _ _ h3)
                λ l4 h4. field_bindings-Grows (inside calls 4) 0 l4 prefix fields h4

constant_bindings-Grows :
    (calls : Calls) (i : ℕ) (l : BindingList) (prefix : Chars) (cs : List Chars)
    → BindingsFit l
    → Holds (Grows l (constant_helpers prefix cs)) (constant_bindings calls i l prefix cs)
unfolding constant_bindings
constant_bindings-Grows calls i l prefix [] h = Grows-refl l h
constant_bindings-Grows calls i l prefix (c ∷ cs) h =
    Grows-then l (_ ∷ []) (constant_helpers prefix cs)
      (add_format-Grows (inside calls i) l prefix _ _ _ _ h)
      λ k p. constant_bindings-Grows calls (i + 1) k prefix cs p

pub build_c_enum_bindings-Grows :
    (calls : Calls) (prefix : Chars) (constants : List Chars)
    → Holds
        (Grows no_bindings (enum_helpers prefix constants))
        (build_c_enum_bindings calls prefix constants)
unfolding build_c_enum_bindings
build_c_enum_bindings-Grows calls prefix constants =
    Grows-then no_bindings (_ ∷ []) _
      (add_prefixed-Grows (inside calls 0) no_bindings prefix _ _ _ _ (omega arith, omega arith))
      λ l h. constant_bindings-Grows (inside calls 1) 0 l prefix constants h
