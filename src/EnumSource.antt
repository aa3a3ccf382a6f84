-- ===== src/EnumSource.antt =====
-- The C source that c_enum compiles: tcc_generate_c_enum_helpers_source of src/tcc_module.c, with the
-- text buffer that it fills. The length that vsnprintf answers is an int that no text in memory
-- overflows.
pub mod Defined
mod Tests
use duck_tiny_cc.Prelude.{length, codes, ℕ, ◌+◌, List, [], ◌∷◌, ◌++◌}
use duck_tiny_cc.Strings.{Chars}
use duck_tiny_cc.Growth.{u64, Malloc, text_buf_reserve}
use duck_tiny_cc.Session.{strdup}
use duck_tiny_cc.Result.{Result, parsed, ◌>>=◌, Calls, inside, nth, copied}
use duck_tiny_cc.Bindings.{room_for, prefixed}

-- `tcc_text_buf_t`; `len` is the length of `data`.
pub record TextBuf : Type 0 where
  pub text : Chars
  pub capacity : ℕ

abbrev pub empty_text : TextBuf
empty_text = record { text = []; capacity = 0 }

-- tcc_text_buf_appendf, given the text that the format makes.
unfoldable pub text_buf_append : Malloc → TextBuf → Chars → Result TextBuf
text_buf_append malloc buf s = do
  n ← room_for (text_buf_reserve malloc buf.capacity (u64 (length buf.text + length s + 1)))
  parsed (record { text = buf.text ++ s; capacity = n })

abbrev pub sizeof_line : Chars → Chars → Chars
sizeof_line enum_name prefix =
    codes "unsigned long long "
    ++ (prefixed prefix (codes "sizeof")
        ++ (codes "(void){ return (unsigned long long)sizeof(enum "
            ++ (enum_name ++ (codes "); }" ++ 10 ∷ []))))

abbrev pub constant_line : Chars → Chars → Chars
constant_line prefix c =
    codes "long long "
    ++ (prefixed prefix c
        ++ (codes "(void){ return (long long)(" ++ (c ++ (codes "); }" ++ 10 ∷ []))))

-- The loop over the constants.
unfoldable pub constant_lines : Calls → ℕ → TextBuf → Chars → List Chars → Result TextBuf
constant_lines calls i buf prefix [] = parsed buf
constant_lines calls i buf prefix (c ∷ cs) = do
  b ← text_buf_append (nth calls i) buf (constant_line prefix c)
  constant_lines calls (i + 1) b prefix cs

unfoldable pub generate_c_enum_helpers_source : Calls → Chars → Chars → List Chars → Result Chars
generate_c_enum_helpers_source calls enum_name prefix constants = do
  first ← text_buf_append (nth calls 0) empty_text (sizeof_line enum_name prefix)
  src ← constant_lines (inside calls 1) 0 first prefix constants
  copied (strdup (nth calls 2) (src.text))
