-- ===== src/StringList.antt =====
-- `tcc_string_list_t` of src/tcc_module.c and the functions that fill it: search paths and names of
-- libraries. What C returns stands beside the new list. Each call of the allocator has its own
-- `Malloc`: two for an append, one where the array grows and one for the copy of the string. The
-- platform is Linux: `:` separates paths, and paths differ when their bytes do.
-- The reserve loop ends for any capacity below 2 ^ 63; above, `hangs` is given the result of a
-- refusal.
pub mod Append
pub mod Search
pub mod PathTokens
pub mod Env
mod Tests
use duck_tiny_cc.Prelude.{
  ◌==◌, if◌then◌else◌, length, take, ℕ, ◌+◌, ◌-◌, Bool, true, false, ◌||◌, Option, none, some, List,
  [], ◌∷◌, ◌++◌,
}
use duck_tiny_cc.Growth.{u64, Reserved, reserved, failed, hangs, Malloc, string_list_reserve}
use duck_tiny_cc.Strings.{Chars, same, trim}

-- `tcc_string_list_t`; `count` is the length of `items`.
pub record StringList : Type 0 where
  pub items : List Chars
  pub capacity : ℕ

-- An empty list, as `memset` and tcc_string_list_destroy leave it.
abbrev pub empty_list : StringList
empty_list = record { items = []; capacity = 0 }

unfoldable pub contains_item : List Chars → Chars → Bool
contains_item [] v = false
contains_item (s ∷ ss) v = same s v || contains_item ss v

unfoldable pub contains : StringList → Chars → Bool
contains l [] = false
contains l (c ∷ v) = contains_item l.items (c ∷ v)

abbrev pub Answer : Type 0
Answer = Bool × StringList

-- The end of `append`, after the reserve: the string is copied, and the copy stored.
abbrev pub store_copy : Malloc → StringList → Chars → Reserved → Answer
store_copy copy l v (reserved cap) =
    if copy (u64 (length v + 1))
    then (true, record { items = l.items ++ v ∷ []; capacity = cap })
    else (false, record l { capacity = cap })
store_copy copy l v failed = (false, l)
store_copy copy l v hangs = (false, l)

unfoldable pub append : Malloc → Malloc → StringList → Chars → Answer
append room copy l [] = (false, l)
append room copy l (c ∷ v) =
    store_copy copy l (c ∷ v) (string_list_reserve room l.capacity (length l.items + 1))

unfoldable pub append_unique : Malloc → Malloc → StringList → Chars → Answer
append_unique room copy l [] = (false, l)
append_unique room copy l (c ∷ v) =
    if contains l (c ∷ v) then (true, l) else append room copy l (c ∷ v)

unfoldable pub pop_last : StringList → Answer
pop_last l =
    if length l.items == 0
    then (false, l)
    else (true, record l { items = take (length l.items - 1) l.items })

-- The answers of the allocator, call by call.
abbrev pub Heap : Type 0
Heap = ℕ → Malloc

-- if (!...) { return false; }
abbrev pub and_then : Answer → (StringList → Answer) → Answer
and_then (false, l) f = (false, l)
and_then (true, l) f = f l

-- Appends one after another, and stops at the first that fails.
unfoldable pub append_each : Heap → StringList → List Chars → Answer
append_each heap l [] = (true, l)
append_each heap l (v ∷ vs) =
    and_then (append_unique (heap 0) (heap 1) l v) (λ k. append_each (λ i. heap (i + 2)) k vs)

abbrev pub push_char : ℕ → List Chars → List Chars
push_char c [] = (c ∷ []) ∷ []
push_char c (t ∷ ts) = (c ∷ t) ∷ ts

-- The scan of tcc_append_env_path_list: the tokens between separators.
unfoldable pub path_tokens : Chars → List Chars
path_tokens [] = [] ∷ []
path_tokens (c ∷ s) = if c == 58 then [] ∷ path_tokens s else push_char c (path_tokens s)

-- The allocations of one trimmed token: the copy of it, and then those of the append. An empty
-- token is passed over.
abbrev pub append_token : Heap → StringList → Chars → (Heap → StringList → Answer) → Answer
append_token heap l [] rest = rest heap l
append_token heap l (c ∷ v) rest =
    if heap 0 (u64 (length (c ∷ v) + 1))
    then and_then (append_unique (heap 1) (heap 2) l (c ∷ v)) (rest (λ i. heap (i + 3)))
    else (false, l)

unfoldable pub append_tokens : Heap → StringList → List Chars → Answer
append_tokens heap l [] = (true, l)
append_tokens heap l (t ∷ ts) = append_token heap l (trim t) (λ h k. append_tokens h k ts)

unfoldable pub append_env_path_list : Heap → StringList → Option Chars → Answer
append_env_path_list heap l none = (true, l)
append_env_path_list heap l (some []) = (true, l)
append_env_path_list heap l (some (c ∷ s)) = append_tokens heap l (path_tokens (c ∷ s))
