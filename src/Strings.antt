-- ===== src/Strings.antt =====
-- C strings and the helpers of src/tcc_module.c over them. A string is the list of its bytes before
-- the terminating zero, and a pointer that may be NULL is an option. Character classes are those of
-- the C locale.
pub mod Laws
mod Tests
use mathlib.Core.Option
use duck_tiny_cc.Prelude.{
  ltb, leb, ◌==◌, if◌then◌else◌, length, drop, ℕ, ◌+◌, ◌-◌, Bool, true, false, not, ◌&&◌, ◌||◌,
  Option, none, some, List, [], ◌∷◌, ◌++◌,
}
use duck_tiny_cc.Growth.{u64, Malloc}

abbrev pub Chars : Type 0
Chars = List ℕ

-- strcmp(a, b) == 0
unfoldable pub same : Chars → Chars → Bool
same [] [] = true
same [] (d ∷ b) = false
same (c ∷ a) [] = false
same (c ∷ a) (d ∷ b) = (c == d) && same a b

-- strncmp(s, prefix, strlen(prefix)) == 0
unfoldable pub starts_with : Chars → Chars → Bool
starts_with s [] = true
starts_with [] (d ∷ p) = false
starts_with (c ∷ s) (d ∷ p) = (c == d) && starts_with s p

-- strchr(s, c)
unfoldable pub has_char : ℕ → Chars → Bool
has_char d [] = false
has_char d (c ∷ s) = (c == d) || has_char d s

-- strstr(s, needle), as the bytes before the first place where it stands; `none` for NULL.
unfoldable pub before : Chars → Chars → Option Chars
before needle [] = if starts_with [] needle then some [] else none
before needle (c ∷ s) =
    if starts_with (c ∷ s) needle then some [] else Option.map (λ a. c ∷ a) (before needle s)

unfoldable pub is_space : ℕ → Bool
is_space c = (c == 32) || (leb 9 c && leb c 13)

unfoldable pub is_digit : ℕ → Bool
is_digit c = leb 48 c && leb c 57

unfoldable pub is_alpha : ℕ → Bool
is_alpha c = (leb 65 c && leb c 90) || (leb 97 c && leb c 122)

-- tolower
unfoldable pub lower : ℕ → ℕ
lower c = if leb 65 c && leb c 90 then c + 32 else c

-- !p || p[0] == '\0'
abbrev pub is_empty : Option Chars → Bool
is_empty none = true
is_empty (some []) = true
is_empty (some (c ∷ s)) = false

unfoldable pub skip_space : Chars → Chars
skip_space [] = []
skip_space (c ∷ s) = if is_space c then skip_space s else c ∷ s

-- The second loop of `tcc_trim_inplace`: drops the spaces at the end.
unfoldable pub trim_end : Chars → Chars
trim_end [] = []
trim_end (c ∷ s) = elim (trim_end s) [ [] ↦ if is_space c then [] else c ∷ [] | d ∷ r ↦ c ∷ d ∷ r ]

unfoldable pub trim : Chars → Chars
trim s = trim_end (skip_space s)

unfoldable pub equals_ci : Chars → Chars → Bool
equals_ci [] [] = true
equals_ci [] (d ∷ b) = false
equals_ci (c ∷ a) [] = false
equals_ci (c ∷ a) (d ∷ b) = (lower c == lower d) && equals_ci a b

unfoldable pub ends_with : Chars → Chars → Bool
ends_with value suffix =
    if ltb (length value) (length suffix)
    then false
    else same (drop (length value - length suffix) value) suffix

abbrev pub last_or : ℕ → Chars → ℕ
last_or d [] = d
last_or d (c ∷ s) = last_or c s

-- `none` is NULL, for an empty argument or when `duckdb_malloc` refuses.
unfoldable pub path_join : Malloc → Chars → Chars → Option Chars
path_join malloc [] leaf = none
path_join malloc (c ∷ base) [] = none
path_join malloc (c ∷ base) (d ∷ leaf) =
    let end : ℕ = last_or c base in
    let needs_sep : Bool = not ((end == 47) || (end == 92)) in
    let size : ℕ = length (c ∷ base) + length (d ∷ leaf) + (if needs_sep then 2 else 1) in
    if malloc (u64 size)
    then some ((c ∷ base) ++ (if needs_sep then 47 ∷ d ∷ leaf else d ∷ leaf))
    else none

abbrev pub all_chars : (ℕ → Bool) → Chars → Bool
all_chars p [] = true
all_chars p (c ∷ s) = p c && all_chars p s

unfoldable pub is_identifier_token : Chars → Bool
is_identifier_token [] = false
is_identifier_token (c ∷ s) =
    (is_alpha c || (c == 95)) && all_chars (λ d. is_alpha d || is_digit d || (d == 95)) s

-- All bytes but the last.
abbrev pub init : Chars → Chars
init [] = []
init (c ∷ []) = []
init (c ∷ d ∷ s) = c ∷ init (d ∷ s)

abbrev pub split_here : ℕ → ℕ → Chars → Option (Chars × Chars) → Option (Chars × Chars)
split_here c d s none = if d == c then some ([], s) else none
split_here c d s (some (a, b)) = some (d ∷ a, b)

-- strrchr(s, c), as the bytes before the place and those after it; `none` for NULL.
unfoldable pub last_split : ℕ → Chars → Option (Chars × Chars)
last_split c [] = none
last_split c (d ∷ s) = split_here c d s (last_split c s)
