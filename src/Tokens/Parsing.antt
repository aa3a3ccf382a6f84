-- ===== src/Tokens/Parsing.antt =====
-- Parsing undoes printing for the small vocabularies.
use duck_tiny_cc.Prelude.{codes, ◌≡◌, refl, some}
use duck_tiny_cc.Strings.{is_space, lower, skip_space, trim_end, trim, equals_ci}
use duck_tiny_cc.Tokens.{
  FunctionStability, consistent, volatile, WrapperMode, row_wrapper, batch_wrapper,
  function_stability_token, wrapper_mode_token, parse_function_stability, parse_wrapper_mode,
}

-- The stability and the wrapper mode that a token stands for are parsed from it.
pub parse-token :
    (t : FunctionStability) (m : WrapperMode)
    → (parse_function_stability (some (codes (function_stability_token t))) ≡ some t)
      × (parse_wrapper_mode (some (codes (wrapper_mode_token m))) ≡ some m)
unfolding parse_function_stability parse_wrapper_mode function_stability_token wrapper_mode_token
    trim trim_end skip_space is_space equals_ci lower
parse-token consistent row_wrapper = (refl, refl)
parse-token consistent batch_wrapper = (refl, refl)
parse-token volatile row_wrapper = (refl, refl)
parse-token volatile batch_wrapper = (refl, refl)
