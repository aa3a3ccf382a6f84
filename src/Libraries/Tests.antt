-- ===== src/Libraries/Tests.antt =====
-- The theorems on libraries at concrete paths.
use duck_tiny_cc.Prelude.{codes, ◌≡◌, refl, true, Option, some, arith}
use duck_tiny_cc.Strings.{Chars, starts_with, has_char, before}
use duck_tiny_cc.StringList.{empty_list}
use duck_tiny_cc.Result.{Calls}
use duck_tiny_cc.Libraries.{collect_library_search_paths, link_name, library_link_name_from_path}
use duck_tiny_cc.Libraries.Collected.{Collects, search_paths, collect_library_search_paths-Collects}
use duck_tiny_cc.Libraries.LinkName.{library_link_name_from_path-candidate}

abbrev plenty : Calls
plenty path bytes = true

abbrev variables : Chars → Option Chars
variables name = some (codes "/opt/lib: /usr/lib")

collect_library_search_paths-Collects_example :
    Collects empty_list
      (search_paths plenty variables (some (codes "/opt/tcc")) (some (codes "/a:/b")))
      (collect_library_search_paths plenty variables
        (some (codes "/opt/tcc"))
        (some (codes "/a:/b"))
        empty_list)
collect_library_search_paths-Collects_example =
    collect_library_search_paths-Collects plenty variables (some (codes "/opt/tcc"))
      (some (codes "/a:/b")) empty_list

library_link_name_from_path-candidate_example :
    library_link_name_from_path (λ bytes. true) (some (codes "/usr/lib/libsqlite3.so"))
    ≡ some (codes "sqlite3")
unfolding has_char before starts_with
library_link_name_from_path-candidate_example =
    library_link_name_from_path-candidate (λ bytes. true) (codes "/usr/lib") (codes "sqlite3") refl
      refl refl refl (omega arith) (omega arith)

-- A name is cut at the first `.so`, wherever it stands.
cut_early : link_name (codes "libmy.sockets.so") ≡ codes "my"
unfolding before starts_with
cut_early = refl
