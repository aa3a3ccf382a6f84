-- ===== src/Fields/Tests.antt =====
-- The theorems on fields and constants at concrete lists.
use duck_tiny_cc.Prelude.{length, codes, ◌<◌, ◌≡◌, refl, true, false, Option, some}
use duck_tiny_cc.Strings.{Chars}
use duck_tiny_cc.Result.{Calls, Holds}
use duck_tiny_cc.Fields.{parse_c_field_specs, all_identifiers, parse_c_enum_constants}
use duck_tiny_cc.Fields.Specs.{
  ListFits, ArityOf, parse_c_field_specs-Fits, Names, parse_c_enum_constants-Fits,
}

abbrev plenty : Calls
plenty path bytes = true

abbrev specs : Option Chars
specs = some (codes "x:i32[4], flag:u8:bitfield")

parse_c_field_specs-Fits_example :
    Holds
      (λ l. ArityOf specs (length l.items) × (0 < length l.items) × ListFits l)
      (parse_c_field_specs plenty false specs)
parse_c_field_specs-Fits_example = parse_c_field_specs-Fits plenty false specs refl

abbrev colours : Option Chars
colours = some (codes "RED, GREEN")

parse_c_enum_constants-Fits_example :
    Holds
      (λ cs. Names colours cs × (0 < length cs) × (all_identifiers cs ≡ true))
      (parse_c_enum_constants plenty colours)
parse_c_enum_constants-Fits_example = parse_c_enum_constants-Fits plenty colours refl
