-- ===== src/Growth/Tests.antt =====
-- Runs of the `*_reserve` functions.
use duck_tiny_cc.Prelude.{◌+◌, ◌^◌, ◌≡◌, refl, true, arith}
use duck_tiny_cc.Growth.{
  reserved, hangs, grow_within, grow, Malloc, ptr_registry_reserve, text_buf_reserve,
  c_field_list_reserve, helper_binding_list_reserve, string_list_reserve,
}
use duck_tiny_cc.Growth.Requests.{Requests, reserve-Requests}

abbrev plenty : Malloc
plenty bytes = true

reserve_runs :
    (ptr_registry_reserve plenty 0 1 ≡ reserved 16)
    × (ptr_registry_reserve plenty 16 17 ≡ reserved 32)
    × (text_buf_reserve plenty 256 1000 ≡ reserved 1024)
    × (string_list_reserve plenty 8 3 ≡ reserved 8)
    × (string_list_reserve plenty (2 ^ 63) (2 ^ 63 + 1) ≡ hangs)
unfolding ptr_registry_reserve text_buf_reserve string_list_reserve grow_within grow
reserve_runs = (refl, refl, refl, refl, refl)

reserve-Requests_example :
    Requests plenty 1 16 17 (text_buf_reserve plenty 16 17)
    × Requests plenty 32 16 17 (c_field_list_reserve plenty 16 17)
    × Requests plenty 40 16 17 (helper_binding_list_reserve plenty 16 17)
reserve-Requests_example = reserve-Requests plenty 16 17 (omega arith)
