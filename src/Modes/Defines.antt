-- ===== src/Modes/Defines.antt =====
-- Defines with an empty value.
use duck_tiny_cc.Prelude.{Bool-cases, ◌≡◌, refl, inl, inr, true, false, some, []}
use duck_tiny_cc.Strings.{Chars, is_empty}
use duck_tiny_cc.StringList.{Answer, append}
use duck_tiny_cc.Session.{store_name, stage_define}
use duck_tiny_cc.Registry.{ModuleState}
use duck_tiny_cc.Modes.{BindData}
use duck_tiny_cc.Modes.Dispatch.{World, said, defined, add_define}

-- A define whose value is given as the empty string, as `-DNAME=` means it, is always refused.
pub empty_define_refused :
    (w : World) (s : ModuleState) (b : BindData)
    → b.define_value ≡ some []
    → (add_define w s b).row.ok ≡ false
unfolding add_define stage_define append
empty_define_refused w s b h = elim (Bool-cases (is_empty b.define_name)) [
  | inl e ↦ rw e refl
  | inr e ↦ rw (e, h) (refused (said b.define_name ""))
]
  where
    from : (a : Answer) → (defined s b (store_name w.heap s.session [] a)).row.ok ≡ false
    from (true, names) = refl
    from (false, names) = refl

    refused : (name : Chars) → (defined s b (stage_define w.heap name [] s.session)).row.ok ≡ false
    refused name = from (append (w.heap 0) (w.heap 1) s.session.define_names name)
