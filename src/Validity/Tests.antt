-- ===== src/Validity/Tests.antt =====
-- Masks at concrete inputs.
use duck_tiny_cc.Prelude.{
  ltb, ◌==◌, if◌then◌else◌, ◌+◌, ◌-◌, ◌/◌, ◌^◌, ◌≡◌, refl, true, false, ◌&&◌, none, some, [], ◌∷◌,
  arith,
}
use duck_tiny_cc.Validity.{set_bit, clear_bit, valid_is_set, valid_set, validity_set_all}
use duck_tiny_cc.Validity.Rows.{valid_is_set-valid_set, valid_is_set-validity_set_all}

mask_runs :
    (valid_set (some (0 ∷ 0 ∷ [])) 65 true ≡ some (0 ∷ 2 ∷ []))
    × (valid_set (some (7 ∷ [])) 1 false ≡ some (5 ∷ []))
    × (validity_set_all (some (0 ∷ 0 ∷ 9 ∷ [])) 66 true ≡ some ((2 ^ 64 - 1) ∷ 3 ∷ 9 ∷ []))
    × (valid_is_set none 70 ≡ true)
unfolding valid_set set_bit clear_bit validity_set_all valid_is_set
mask_runs = (refl, refl, refl, refl)

valid_is_set-valid_set_example :
    valid_is_set (valid_set (some (0 ∷ 0 ∷ [])) 65 true) 3
    ≡ (if 65 == 3 then true else valid_is_set (some (0 ∷ 0 ∷ [])) 3)
valid_is_set-valid_set_example = valid_is_set-valid_set (0 ∷ 0 ∷ []) 65 3 true (omega arith)

valid_is_set-validity_set_all_example :
    valid_is_set (validity_set_all (some (0 ∷ 0 ∷ 9 ∷ [])) 66 true) 131 ≡ (
      if ltb (131 / 64) ((66 + 63) / 64)
      then true && ltb 131 66
      else valid_is_set (some (0 ∷ 0 ∷ 9 ∷ [])) 131)
valid_is_set-validity_set_all_example =
    valid_is_set-validity_set_all (0 ∷ 0 ∷ 9 ∷ []) 66 131 true (omega arith) (omega arith)
