-- ===== src/Strings/Tests.antt =====
-- The string helpers at concrete strings.
use duck_tiny_cc.Prelude.{codes, ◌≡◌, refl}
use duck_tiny_cc.Strings.{is_space, skip_space, trim_end, trim}

trims : trim (codes "  a b ") ≡ codes "a b"
unfolding trim trim_end skip_space is_space
trims = refl
