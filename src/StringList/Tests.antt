-- ===== src/StringList/Tests.antt =====
-- String lists at concrete strings, with an allocator that gives what it is asked for.
use duck_tiny_cc.Prelude.{codes, ◌≡◌, refl, true, some, [], ◌∷◌, arith}
use duck_tiny_cc.Growth.{string_list_reserve}
use duck_tiny_cc.Strings.{Chars, same, is_space, skip_space, trim_end, trim}
use duck_tiny_cc.StringList.{
  StringList, contains_item, contains, append, append_unique, Heap, path_tokens, append_tokens,
  append_env_path_list,
}
use duck_tiny_cc.StringList.Append.{Fits, Appends, append-Appends}
use duck_tiny_cc.StringList.Env.{Extends, clean, append_env_path_list-Extends}

abbrev generous : Heap
generous i bytes = true

abbrev start : StringList
start = record { items = codes "/lib" ∷ []; capacity = 8 }

abbrev start-Fits : Fits start
start-Fits = (omega arith, omega arith)

abbrev paths : Chars
paths = codes " /usr/lib:/lib::/opt "

reads_paths :
    (append_env_path_list generous start (some paths)).1.items
    ≡ codes "/lib" ∷ codes "/usr/lib" ∷ codes "/opt" ∷ []
unfolding append_env_path_list append_tokens path_tokens trim trim_end skip_space is_space
    append_unique contains contains_item same append string_list_reserve
reads_paths = refl

append-Appends_example :
    Appends
      (generous 0)
      (generous 1)
      start
      (codes "/opt")
      (append (generous 0) (generous 1) start (codes "/opt"))
append-Appends_example =
    append-Appends (generous 0) (generous 1) start (codes "/opt") start-Fits (omega arith)

append_env_path_list-Extends_example :
    Extends generous start
      (clean (path_tokens paths))
      (append_env_path_list generous start (some paths))
append_env_path_list-Extends_example =
    append_env_path_list-Extends generous start 32 (codes "/usr/lib:/lib::/opt ") start-Fits
      (omega arith)
