-- ===== src/Signature/Tests.antt =====
-- The theorem on signatures at a concrete signature.
use duck_tiny_cc.Prelude.{codes, true, some, arith}
use duck_tiny_cc.Result.{Calls, Holds}
use duck_tiny_cc.Signature.{parse_signature}
use duck_tiny_cc.Signature.Sound.{SignatureFits, parse_signature-Fits}

abbrev plenty : Calls
plenty path bytes = true

parse_signature-Fits_example :
    Holds
      (SignatureFits (codes "i32, list<f64>"))
      (parse_signature plenty (some (codes "void")) (some (codes "i32, list<f64>")))
parse_signature-Fits_example =
    parse_signature-Fits plenty (some (codes "void")) (codes "i32, list<f64>") (omega arith)
