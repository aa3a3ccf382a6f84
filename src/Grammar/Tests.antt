-- ===== src/Grammar/Tests.antt =====
-- Signatures taken apart at concrete strings.
use duck_tiny_cc.Prelude.{codes, ◌≡◌, refl, true, some, [], ◌∷◌, arith}
use duck_tiny_cc.Strings.{Chars}
use duck_tiny_cc.StringList.{Heap}
use duck_tiny_cc.Grammar.{
  part_from, next_top_level_part, find_from, find_top_level_char, all_parts, split_csv_tokens,
}
use duck_tiny_cc.Grammar.Parts.{join, PartsOf, all_parts-PartsOf}
use duck_tiny_cc.Grammar.Tokenize.{Tokenizes, split_csv_tokens-Tokenizes}
use duck_tiny_cc.Grammar.Cuts.{all_parts-join}

abbrev signature : Chars
signature = codes "i32, map<varchar,u8>"

abbrev generous : Heap
generous i bytes = true

two_parts : all_parts 21 44 signature ≡ some (codes "i32" ∷ codes " map<varchar,u8>" ∷ [])
unfolding all_parts next_top_level_part part_from
two_parts = refl

all_parts-PartsOf_example : PartsOf 44 signature (all_parts 21 44 signature)
all_parts-PartsOf_example = all_parts-PartsOf 44 21 signature (omega arith)

split_csv_tokens-Tokenizes_example :
    Tokenizes generous signature (split_csv_tokens generous (some signature))
split_csv_tokens-Tokenizes_example =
    split_csv_tokens-Tokenizes generous 105 (codes "32, map<varchar,u8>") (omega arith)

abbrev pair : Chars
pair = codes "map<i8,u8>"

all_parts-join_example :
    all_parts 30 44 (join 44 (pair ∷ codes " i32" ∷ [])) ≡ some (pair ∷ codes " i32" ∷ [])
unfolding find_top_level_char find_from
all_parts-join_example =
    all_parts-join 44 30 pair (codes " i32" ∷ []) refl (omega arith) (refl, (refl, omega arith))
      (refl, tt)
