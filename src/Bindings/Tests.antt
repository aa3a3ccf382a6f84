-- ===== src/Bindings/Tests.antt =====
-- The theorems on bindings at concrete fields.
use duck_tiny_cc.Prelude.{codes, ◌≡◌, refl, true, false, List, [], ◌∷◌, arith}
use duck_tiny_cc.Strings.{is_alpha, is_identifier_token}
use duck_tiny_cc.Result.{Holds}
use duck_tiny_cc.FfiType.{u8, i32, type_is_fixed_width_scalar}
use duck_tiny_cc.Fields.{CField}
use duck_tiny_cc.Bindings.{no_bindings, build_c_composite_bindings}
use duck_tiny_cc.Bindings.Built.{composite_helpers, Grows}
use duck_tiny_cc.Bindings.Lists.{build_c_composite_bindings-Grows}
use duck_tiny_cc.Bindings.Accepted.{plenty, all_accepted, build_c_composite_bindings-accepted}

abbrev two_fields : List CField
two_fields =
    record { name = codes "x"; type = i32; array_size = 4; is_bitfield = false }
    ∷ record { name = codes "flag"; type = u8; array_size = 0; is_bitfield = true }
    ∷ []

build_c_composite_bindings-Grows_example :
    Holds
      (Grows no_bindings (composite_helpers (codes "point") two_fields))
      (build_c_composite_bindings plenty (codes "point") two_fields)
build_c_composite_bindings-Grows_example =
    build_c_composite_bindings-Grows plenty (codes "point") two_fields

build_c_composite_bindings-accepted_example :
    Holds
      (λ l. all_accepted l.items ≡ true)
      (build_c_composite_bindings plenty (codes "point") two_fields)
unfolding is_identifier_token is_alpha type_is_fixed_width_scalar
build_c_composite_bindings-accepted_example =
    build_c_composite_bindings-accepted plenty (codes "point") two_fields
      ((refl, refl, omega arith, refl), ((refl, refl, omega arith, refl), tt))
