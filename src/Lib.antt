-- ===== src/Lib.antt =====
-- A verification library for DuckTinyCC, a DuckDB extension in C that compiles C sources through
-- TinyCC at run time and registers the results as SQL functions. All code is in src/tcc_module.c.
--
-- The parts and how they interact. SQL calls `tcc_module(mode := ...)`, whose dispatcher takes the
-- reader-writer lock of the module state, stages sources, paths, libraries, defines and
-- symbols in the build session (Session, StringList), and compiles them; what is compiled is entered
-- in the registry of functions (Registry) under its SQL name. The compiled code runs inside DuckDB
-- on bridge descriptors of its vectors (Bridge, Validity), whose types are those of FfiType. Memory
-- that SQL hands to compiled code is allocated, read, written and freed by handle through the
-- pointer registry (PtrRegistry). Growth is below all arrays.
--
-- Prelude: tests on native numbers, lists, strings as lists of bytes.
-- Growth: the seven tcc_*_reserve functions. Their loops take `rounds` = 65 rounds of fuel: a
--   capacity starts at 1 or more and doubles, so 65 rounds pass 2 ^ 64. `hangs` is a loop that has
--   not ended by then.
-- PtrRegistry: tcc_ptr_registry_t with its entries, the memory blocks behind them, and the functions
--   tcc_ptr_registry_create, _alloc, _free, _read, _write, _get_ptr_size, _ref, _unref and _destroy;
--   PtrRegistry.Scalars: the SQL functions over them, row by row, and PtrRegistry.Scalars.Chunks a
--   specification of them on the table of which handle holds which bytes.
-- Validity, Bridge: the ducktinycc_* accessors over validity masks, spans, lists, arrays, structs,
--   maps and unions. Addresses and indices are 64-bit numbers.
-- FfiType: tcc_ffi_type_t and the tables over it.
-- Strings, Tokens: trimming, comparison and joining of C strings; stability and wrapper mode.
-- StringList: tcc_string_list_t, its appends, and tcc_append_env_path_list.
-- Grammar: tcc_next_top_level_part, tcc_find_top_level_char and tcc_split_csv_tokens. The loop over the
--   parts of a string takes one round of fuel for each byte and one more: each part is shorter than
--   what it is taken from.
-- TypeToken: tcc_parse_type_token. A type whose part is parsed by a call of its own takes one unit of
--   fuel for each call; a part is shorter than its token, so one more unit than it has bytes is enough.
-- Result: what the parsers answer that fill the error buffer, and the allocations of nested calls,
--   each addressed by the calls that it happens in.
-- Composite: tcc_parse_composite_fields_inner and the parsers of struct<...>, map<...> and
--   union<...>; TypeDesc: tcc_typedesc_parse_token, with one unit of fuel for each byte and one more.
-- Signature: tcc_parse_signature, which composes Grammar and TypeDesc.
-- Fields: the fields and constants of c_struct, c_union, c_bitfield and c_enum; Bindings: the
--   functions that are bound for them, whose signatures go through Signature.
-- Libraries: the search paths for libraries and headers, tcc_build_library_candidates, tcc_basename_ptr
--   and tcc_library_link_name_from_path.
-- EnumSource: tcc_text_buf_appendf and tcc_generate_c_enum_helpers_source.
-- Session, Registry: tcc_session_t and the registered entries of tcc_module_state_t.
-- Modes: the arguments and the answer of a call, tcc_mode_add_staged; Modes.Compile:
--   tcc_mode_compile; Modes.Dispatch: tcc_module_function.
--
-- Allocators are arguments: `Malloc` says which requests succeed, and where a function calls more
-- than once each call has its own. Unsigned machine integers wrap at their width;
-- counts and depths that the code keeps in an int are plain numbers. The platform is 64-bit Linux.
--
-- Not modelled: the reader-writer lock, whose promises rest on the weak memory orders that it names; the
-- DuckDB C API and TinyCC, which are libraries; the marshalling of vectors and the
-- registration of functions, which are calls of the former; files and the embedded runtime, which
-- are I/O; the generation of C source but that for enums, where the dispatcher takes what the modes
-- with generated code answer as arguments; freeing what a failed parse has allocated.
pub mod Prelude
pub mod Growth
pub mod PtrRegistry
pub mod Validity
pub mod Bridge
pub mod FfiType
pub mod Strings
pub mod StringList
pub mod Tokens
pub mod Grammar
pub mod TypeToken
pub mod Result
pub mod Composite
pub mod TypeDesc
pub mod Signature
pub mod Fields
pub mod Bindings
pub mod Libraries
pub mod EnumSource
pub mod Session
pub mod Registry
pub mod Modes
