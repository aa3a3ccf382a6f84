-- ===== src/Composite/Texts.antt =====
-- The texts of the fields of a compound: how many there are, and how long.
use duck_tiny_cc.Composite.{field_texts}
use duck_tiny_cc.Prelude.{
  length, length-append, ℕ, zero, suc, ◌+◌, ◌≤◌, ◌<◌, ◌≡◌, ap, Option, none, some, List, [], ◌∷◌,
  arith,
}
use duck_tiny_cc.Strings.{Chars}
use duck_tiny_cc.Grammar.{Part, next_top_level_part, put_first, parts_after}
use duck_tiny_cc.Grammar.Parts.{Splits, part_from-Splits}

abbrev pub AllShort : ℕ → List Chars → Type 0
AllShort n [] = Unit {0}
AllShort n (t ∷ ts) = (length t ≤ n) × AllShort n ts

-- The parts of what is left are found with the fuel that is given.
abbrev pub ShortTexts : ℕ → ℕ → Option (List Chars) → Type 0
ShortTexts n m none = ⊥
ShortTexts n m (some texts) = AllShort n texts × (length texts ≤ m)

ShortTexts-put_first :
    (n m : ℕ) (p : Chars) (o : Option (List Chars))
    → length p ≤ n
    → ShortTexts n m o
    → ShortTexts n (suc m) (put_first p o)
ShortTexts-put_first n m p none h k = k
ShortTexts-put_first n m p (some ts) h (k, z) = ((h, k), omega arith)

ShortTexts-le : (n m k : ℕ) (o : Option (List Chars)) → m ≤ k → ShortTexts n m o → ShortTexts n k o
ShortTexts-le n m k none h s = s
ShortTexts-le n m k (some ts) h (s, z) = (s, omega arith)

ShortTexts-parts_after :
    (n : ℕ) (s : Chars) (rest : Chars → Option (List Chars)) (r : Part)
    → Splits 59 0 0 s r
    → 0 < length s
    → length s ≤ n
    → ((t : Chars) → length t < length s → ShortTexts n (length t) (rest t))
    → ShortTexts n (length s) (parts_after rest r)
ShortTexts-parts_after n s rest (p, none) (e, f) pos h k =
    ((omega (arith, ap length e), tt), omega arith)
ShortTexts-parts_after n s rest (p, some t) (e, f) pos h k =
    let m : length s ≡ length p + suc (length t) = rw e (length-append p (59 ∷ t)) in
    ShortTexts-le n (suc (length t)) (length s) (put_first p (rest t)) (omega arith)
      (ShortTexts-put_first n (length t) p (rest t) (omega arith) (k t (omega arith)))

pub field_texts-ShortTexts :
    (fuel n : ℕ) (s : Chars)
    → length s < fuel
    → length s ≤ n
    → ShortTexts n (length s) (field_texts fuel s)
unfolding field_texts next_top_level_part
field_texts-ShortTexts zero n s h k = absurd (omega arith)
field_texts-ShortTexts (suc fuel) n [] h k = (tt, omega arith)
field_texts-ShortTexts (suc fuel) n (c ∷ s) h k =
    ShortTexts-parts_after n (c ∷ s) (field_texts fuel) _ (part_from-Splits 59 (c ∷ s) 0 0)
      (omega arith) k λ t m. field_texts-ShortTexts fuel n t (omega arith) (omega (arith, k, m))
