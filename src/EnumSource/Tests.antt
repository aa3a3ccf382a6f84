-- ===== src/EnumSource/Tests.antt =====
-- The theorem on the source for an enum at concrete constants.
use duck_tiny_cc.Prelude.{codes, ◌≡◌, true, List, [], ◌∷◌}
use duck_tiny_cc.Strings.{Chars}
use duck_tiny_cc.Result.{Calls, Holds}
use duck_tiny_cc.Bindings.Built.{enum_helpers}
use duck_tiny_cc.EnumSource.{generate_c_enum_helpers_source}
use duck_tiny_cc.EnumSource.Defined.{all_defined, generate_c_enum_helpers_source-defined}

abbrev plenty : Calls
plenty path bytes = true

abbrev colours : List Chars
colours = codes "RED" ∷ codes "GREEN" ∷ []

generate_c_enum_helpers_source-defined_example :
    Holds
      (λ src. all_defined src (enum_helpers (codes "enum_colour") colours) ≡ true)
      (generate_c_enum_helpers_source plenty (codes "colour") (codes "enum_colour") colours)
generate_c_enum_helpers_source-defined_example =
    generate_c_enum_helpers_source-defined plenty (codes "colour") (codes "enum_colour") colours
