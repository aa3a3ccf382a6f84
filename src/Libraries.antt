-- ===== src/Libraries.antt =====
-- Where src/tcc_module.c looks for libraries and headers, and how it names libraries: search paths,
-- candidates for a library, and the name that the linker is given. The platform is Linux, and `env` is
-- getenv.
pub mod Collected
pub mod LinkName
mod Tests
use mathlib.Core.Option
use duck_tiny_cc.Prelude.{
  ltb, ◌==◌, if◌then◌else◌, length, take, drop, codes, ◌-◌, Bool, true, false, ◌&&◌, ◌||◌, Option,
  none, some, List, [], ◌∷◌, ◌++◌,
}
use duck_tiny_cc.Growth.{Malloc}
use duck_tiny_cc.Strings.{
  Chars, starts_with, has_char, before, equals_ci, ends_with, path_join, last_split,
}
use duck_tiny_cc.StringList.{
  StringList, Answer, append_unique, Heap, and_then, append_each, append_env_path_list,
}
use duck_tiny_cc.Session.{strdup}
use duck_tiny_cc.Result.{Calls, inside, nth, numbered}

unfoldable pub is_path_like : Chars → Bool
is_path_like [] = false
is_path_like (c ∷ s) = (has_char 47 (c ∷ s) || has_char 92 (c ∷ s)) || (c == 46)

abbrev pub stands_in : Option Chars → Bool
stands_in none = false
stands_in (some a) = true

unfoldable pub has_library_suffix : Chars → Bool
has_library_suffix [] = false
has_library_suffix (c ∷ s) =
    (ends_with (c ∷ s) (codes ".so") || stands_in (before (codes ".so.") (c ∷ s)))
    || (ends_with (c ∷ s) (codes ".dylib") || ends_with (c ∷ s) (codes ".a"))

abbrev pub platform_paths : List Chars
platform_paths =
    codes "/usr/lib"
    ∷ codes "/usr/lib64"
    ∷ codes "/usr/local/lib"
    ∷ codes "/lib"
    ∷ codes "/lib64"
    ∷ codes "/lib32"
    ∷ codes "/usr/local/lib64"
    ∷ codes "/usr/lib/x86_64-linux-gnu"
    ∷ codes "/usr/lib/i386-linux-gnu"
    ∷ codes "/lib/x86_64-linux-gnu"
    ∷ codes "/lib32/x86_64-linux-gnu"
    ∷ codes "/usr/lib/x86_64-linux-musl"
    ∷ codes "/usr/lib/i386-linux-musl"
    ∷ codes "/lib/x86_64-linux-musl"
    ∷ codes "/lib32/x86_64-linux-musl"
    ∷ codes "/usr/lib/amd64-linux-gnu"
    ∷ codes "/usr/lib/aarch64-linux-gnu"
    ∷ []

unfoldable pub add_platform_library_paths : Heap → StringList → Answer
add_platform_library_paths heap l = append_each heap l platform_paths

-- A path that cannot be joined is passed over.
abbrev pub add_path : Heap → StringList → Option Chars → Answer
add_path heap l none = (true, l)
add_path heap l (some p) = append_unique (heap 1) (heap 2) l p

-- p = tcc_path_join(runtime_path, leaf); if (p) { ... }
abbrev pub add_joined : Calls → Chars → Chars → StringList → Answer
add_joined calls base leaf l = add_path (numbered calls) l (path_join (nth calls 0) base leaf)

abbrev pub add_runtime : Calls → Option Chars → StringList → Answer
add_runtime calls none l = (true, l)
add_runtime calls (some []) l = (true, l)
add_runtime calls (some (c ∷ s)) l =
    and_then (append_unique (nth calls 0) (nth calls 1) l (c ∷ s)) λ l1.
      and_then (add_joined (inside calls 2) (c ∷ s) (codes "lib") l1)
        λ l2. add_joined (inside calls 3) (c ∷ s) (codes "lib/tcc") l2

unfoldable pub collect_library_search_paths :
    Calls → (Chars → Option Chars) → Option Chars → Option Chars → StringList → Answer
collect_library_search_paths calls env runtime_path extra_paths l =
    and_then (add_runtime (inside calls 0) runtime_path l) λ l1.
      and_then (append_env_path_list (numbered (inside calls 1)) l1 extra_paths) λ l2.
        and_then (add_platform_library_paths (numbered (inside calls 2)) l2) λ l3.
          and_then
            (append_env_path_list (numbered (inside calls 3)) l3 (env (codes "LD_LIBRARY_PATH")))
            λ l4. append_env_path_list (numbered (inside calls 4)) l4 (env (codes "LIBRARY_PATH"))

unfoldable pub collect_include_paths : Calls → Option Chars → StringList → Answer
collect_include_paths calls none l = (true, l)
collect_include_paths calls (some []) l = (true, l)
collect_include_paths calls (some (c ∷ s)) l =
    and_then (add_joined (inside calls 0) (c ∷ s) (codes "include") l)
      λ l1. add_joined (inside calls 1) (c ∷ s) (codes "lib/tcc/include") l1

-- snprintf into `candidate[512]`.
abbrev pub candidate : Chars → Chars → Chars
candidate library suffix = take 511 (codes "lib" ++ (library ++ suffix))

unfoldable pub build_library_candidates : Calls → Chars → StringList → Answer
build_library_candidates calls [] l = (false, l)
build_library_candidates calls (c ∷ s) l =
    if is_path_like (c ∷ s) || has_library_suffix (c ∷ s)
    then append_unique (nth calls 0) (nth calls 1) l (c ∷ s)
    else and_then (append_unique (nth calls 0) (nth calls 1) l (c ∷ s)) λ l1.
      and_then (append_unique (nth calls 2) (nth calls 3) l1 (candidate (c ∷ s) (codes ".so")))
        λ l2. append_unique (nth calls 4) (nth calls 5) l2 (candidate (c ∷ s) (codes ".a"))

-- The later of the two places.
abbrev pub best_of : Chars → Option (Chars × Chars) → Option (Chars × Chars) → Chars
best_of path none none = path
best_of path none (some (b, base)) = base
best_of path (some (a, base)) none = base
best_of path (some (a, base)) (some (b, base')) = if ltb (length a) (length b) then base' else base

unfoldable pub basename_ptr : Chars → Chars
basename_ptr path = best_of path (last_split 47 path) (last_split 92 path)

-- The string without a suffix that it ends with in any case, where it is longer.
abbrev pub ends_ci : Chars → Chars → Bool
ends_ci name suffix =
    ltb (length suffix) (length name) && equals_ci (drop (length name - length suffix) name) suffix

abbrev pub cut_suffix : Chars → Option Chars → Chars
cut_suffix name (some stem) = stem
cut_suffix name none =
    if ends_ci name (codes ".dylib")
    then take (length name - 6) name
    else if ends_ci name (codes ".a")
    then take (length name - 2) name
    else name

abbrev pub cut_prefix : Chars → Chars
cut_prefix name =
    if starts_with name (codes "lib") && ltb 3 (length name) then drop 3 name else name

abbrev pub link_name : Chars → Chars
link_name base = cut_prefix (cut_suffix base (before (codes ".so") base))

unfoldable pub library_link_name_from_path : Malloc → Option Chars → Option Chars
library_link_name_from_path malloc none = none
library_link_name_from_path malloc (some []) = none
library_link_name_from_path malloc (some (c ∷ s)) =
    Option.map link_name (strdup malloc (basename_ptr (c ∷ s)))
