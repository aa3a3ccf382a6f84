-- ===== src/Grammar.antt =====
-- How src/tcc_module.c takes a signature apart: parts between separators that stand outside `<...>`
-- and `[...]`. The depths are ints that no string in memory overflows. The loop over the parts takes
-- fuel, and `none` is a loop that has used it up.
pub mod Parts
pub mod Cuts
pub mod Tokenize
mod Tests
use Prim.Native.String.{String}
use duck_tiny_cc.Prelude.{
  ◌==◌, if◌then◌else◌, length, ℕ, zero, suc, ◌+◌, ◌-◌, Bool, true, false, not, ◌&&◌, ◌||◌, Option,
  none, some, List, [], ◌∷◌,
}
use duck_tiny_cc.Strings.{Chars, trim}
use duck_tiny_cc.StringList.{StringList, empty_list, Answer, append, Heap}
use duck_tiny_cc.Session.{strdup}
use mathlib.Core.Option

-- The depth of `<...>`, and that of `[...]`, after a byte; neither goes below 0.
abbrev pub angle_after : ℕ → ℕ → ℕ
angle_after c depth = if c == 60 then depth + 1 else if c == 62 then depth - 1 else depth

abbrev pub square_after : ℕ → ℕ → ℕ
square_after c depth = if c == 91 then depth + 1 else if c == 93 then depth - 1 else depth

abbrev pub is_bracket : ℕ → Bool
is_bracket c = (c == 60) || ((c == 62) || ((c == 91) || (c == 93)))

-- The last test of the chain.
abbrev pub is_break : ℕ → ℕ → ℕ → ℕ → Bool
is_break sep angle square c = not (is_bracket c) && ((c == sep) && ((angle == 0) && (square == 0)))

abbrev pub Part : Type 0
Part = Chars × Option Chars

-- The part up to the separator and what the cursor then stands at, `none` for NULL.
unfoldable pub part_from : ℕ → ℕ → ℕ → Chars → Part
part_from sep angle square [] = ([], none)
part_from sep angle square (c ∷ s) =
    let rest = part_from sep (angle_after c angle) (square_after c square) s in
    if is_break sep angle square c then ([], some s) else (c ∷ rest.0, rest.1)

unfoldable pub next_top_level_part : Chars → ℕ → Part
next_top_level_part s sep = part_from sep 0 0 s

-- The index of the byte, `none` for NULL.
unfoldable pub find_from : ℕ → ℕ → ℕ → Chars → Option ℕ
find_from target angle square [] = none
find_from target angle square (c ∷ s) =
    let rest = find_from target (angle_after c angle) (square_after c square) s in
    if is_break target angle square c then some 0 else Option.map suc rest

unfoldable pub find_top_level_char : Chars → ℕ → Option ℕ
find_top_level_char s target = find_from target 0 0 s

abbrev pub put_first : Chars → Option (List Chars) → Option (List Chars)
put_first p none = none
put_first p (some ps) = some (p ∷ ps)

-- The parts that `while (cursor)` goes through.
abbrev pub parts_after : (Chars → Option (List Chars)) → Part → Option (List Chars)
parts_after rest (p, none) = some (p ∷ [])
parts_after rest (p, some t) = put_first p (rest t)

unfoldable pub all_parts : ℕ → ℕ → Chars → Option (List Chars)
all_parts zero sep s = none
all_parts (suc fuel) sep s = parts_after (all_parts fuel sep) (next_top_level_part s sep)

-- What tcc_split_csv_tokens answers: the tokens, or an error with its text.
pub data Csv : Type 0 where
  tokenized : StringList → Csv
  rejected : String → Csv

abbrev pub add_part : StringList → Chars → Answer → (StringList → Csv) → Csv
add_part l v (true, k) rest = rest k
add_part l v (false, k) rest = rejected "out of memory"

-- One token, trimmed, and those that follow it.
abbrev pub take_token : Heap → StringList → Chars → (StringList → Csv) → Csv
take_token heap l [] rest = rejected "arg_types contains an empty token"
take_token heap l (c ∷ v) rest = add_part l (c ∷ v) (append (heap 0) (heap 1) l (c ∷ v)) rest

-- The body of the loop, over the parts.
unfoldable pub take_tokens : Heap → StringList → List Chars → Csv
take_tokens heap l [] = tokenized l
take_tokens heap l (p ∷ ps) = take_token heap l (trim p) (λ k. take_tokens (λ i. heap (i + 2)) k ps)

abbrev pub csv_parts : Heap → Option (List Chars) → Csv
csv_parts heap none = rejected "out of memory"
csv_parts heap (some ps) = take_tokens heap empty_list ps

-- The copy of the string that the loop takes apart.
abbrev pub split_copy : Heap → Option Chars → Csv
split_copy heap none = rejected "out of memory"
split_copy heap (some copy) = csv_parts heap (all_parts (length copy + 1) 44 copy)

-- Each part is shorter than the string, so `length copy + 1` rounds are enough. The copy of the
-- string takes the first allocation.
unfoldable pub split_csv_tokens : Heap → Option Chars → Csv
split_csv_tokens heap none = tokenized empty_list
split_csv_tokens heap (some []) = tokenized empty_list
split_csv_tokens heap (some (c ∷ s)) = split_copy (λ i. heap (i + 1)) (strdup (heap 0) (c ∷ s))
