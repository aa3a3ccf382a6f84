-- ===== src/Signature/Sound.antt =====
-- The parser of signatures ends, and what a signature holds.
use duck_tiny_cc.Prelude.{
  length, ℕ, suc, ◌+◌, ◌^◌, ◌<◌, ◌≡◌, refl, sym, ap, Bool, true, false, not, ◌||◌, Option, none,
  some, List, [], ◌∷◌, arith,
}
use duck_tiny_cc.Strings.{Chars}
use duck_tiny_cc.StringList.{Heap}
use duck_tiny_cc.Grammar.{Csv, tokenized, split_csv_tokens}
use duck_tiny_cc.Grammar.Tokenize.{trim_all, Tokenizes, split_csv_tokens-Tokenizes}
use duck_tiny_cc.Result.{
  Result, parsed, err, unfinished, Calls, inside, numbered, Holds, gives, stops, Holds->>=,
  Holds-guard,
}
use duck_tiny_cc.FfiType.{
  FfiType, void, struct, union, type_is_array, type_is_struct, type_is_map, type_is_union,
}
use duck_tiny_cc.TypeToken.{is_void}
use duck_tiny_cc.TypeToken.Fuel.{SizeFits}
use duck_tiny_cc.Composite.Sound.{Fields}
use duck_tiny_cc.Composite.Metas.{struct_meta-Holds, union_meta-Holds, MapFits, map_meta-Holds}
use duck_tiny_cc.TypeDesc.{TypeDesc, described, ffi_type, size_of_array, type_token}
use duck_tiny_cc.TypeDesc.WellFormed.{WellFormed}
use duck_tiny_cc.TypeDesc.Ends.{typedesc_parse_token-WellFormed}
use duck_tiny_cc.Signature.{
  Meta, no_meta, struct_fields, union_members, map_types, Argument, Signature, meta_of, with_text,
  argument, arguments, csv_tokens, signature, parse_signature,
}
use duck_tiny_cc.Grammar.Cuts.{Cut}

-- The fields belong to the type, and there are none for a type without.
abbrev pub MetaFits : FfiType → Meta → Type 0
MetaFits t no_meta = (type_is_struct t || (type_is_map t || type_is_union t)) ≡ false
MetaFits t (struct_fields fs) = (t ≡ struct) × ((n : ℕ) × Fields n fs)
MetaFits t (union_members fs) = (t ≡ union) × ((n : ℕ) × Fields n fs)
MetaFits t (map_types m) = (t ≡ FfiType.map) × ((n : ℕ) × MapFits n m)

-- A type, void only where that is allowed, with the size of an array and the fields of a compound.
abbrev pub Typed : Bool → Argument → Type 0
Typed allow_void a =
    ((not (is_void a.type) || allow_void) ≡ true)
    × SizeFits (type_is_array a.type) a.array_size
    × MetaFits a.type a.meta

abbrev pub AllTyped : List Argument → Type 0
AllTyped [] = Unit {0}
AllTyped (a ∷ args) = Typed false a × AllTyped args

meta_of-Holds :
    (calls : Calls) (token : Chars) (t : FfiType) → Holds (MetaFits t) (meta_of calls token t)
unfolding type_is_struct type_is_map type_is_union
meta_of-Holds calls token struct =
    Holds->>= (struct_meta-Holds calls token) λ fs (n, h, f). gives (refl, (n, f))
meta_of-Holds calls token FfiType.map =
    Holds->>= (map_meta-Holds calls token) λ m (n, h, f). gives (refl, (n, f))
meta_of-Holds calls token union =
    Holds->>= (union_meta-Holds calls token) λ fs (n, h, f). gives (refl, (n, f))
meta_of-Holds calls token void = gives refl
meta_of-Holds calls token _ = gives refl

with_text-Holds :
    {P : TypeDesc → Type 0} (text : Chars) (r : Result TypeDesc)
    → Holds P r
    → Holds P (with_text text r)
with_text-Holds text (parsed d) h = h
with_text-Holds text (err t) h = stops
with_text-Holds text unfinished h = h

SizeFits-desc :
    (d : TypeDesc) → WellFormed d → SizeFits (type_is_array (ffi_type d)) (size_of_array d)
unfolding WellFormed
SizeFits-desc (described t n token b) (h, k) = h

argument-Holds :
    (calls : Calls) (text : Chars) (allow_void : Bool) (token : Chars)
    → Holds (Typed allow_void) (argument calls text allow_void token)
unfolding argument
argument-Holds calls text allow_void token =
    Holds->>=
      (with_text-Holds text _ (
        typedesc_parse_token-WellFormed (length token + 1) (inside calls 0) token allow_void
          (omega arith)))
      λ d (q, v, w).
        Holds->>= (meta_of-Holds (inside calls 1) (type_token d) (ffi_type d))
          λ m f. gives (v, SizeFits-desc d w, f)

arguments-Holds :
    (calls : Calls) (i : ℕ) (tokens : List Chars)
    → Holds (λ args. (length args ≡ length tokens) × AllTyped args) (arguments calls i tokens)
unfolding arguments
arguments-Holds calls i [] = gives (refl, tt)
arguments-Holds calls i (token ∷ tokens) =
    Holds->>= (argument-Holds (inside calls i) _ false token) λ a f.
      Holds->>= (arguments-Holds calls (i + 1) tokens) λ args (n, g). gives (ap suc n, (f, g))

-- As many args a list of types has parts between its commas outside brackets; an empty one has none.
abbrev pub Arity : Chars → ℕ → Type 0
Arity [] n = n ≡ 0
Arity (c ∷ s) n = (ps : List Chars) × Cut 44 (c ∷ s) ps × (length ps ≡ n)

length-trim_all : (ps : List Chars) → length (trim_all ps) ≡ length ps
length-trim_all [] = refl
length-trim_all (p ∷ ps) = ap suc (length-trim_all ps)

Tokenizes-Arity :
    (heap : Heap) (c : ℕ) (s : Chars) (r : Csv)
    → Tokenizes heap (c ∷ s) r
    → Holds (λ tokens. Arity (c ∷ s) (length tokens)) (csv_tokens r)
Tokenizes-Arity heap c s (tokenized l) (ps, e, q, b) =
    gives (ps, e, rw (ap length q) (sym (length-trim_all ps)))
Tokenizes-Arity heap c s (Csv.rejected text) h = stops

pub csv_tokens-Arity :
    (heap : Heap) (s : Chars)
    → length s < 2 ^ 59
    → Holds (λ tokens. Arity s (length tokens)) (csv_tokens (split_csv_tokens heap (some s)))
unfolding split_csv_tokens
csv_tokens-Arity heap [] h = gives refl
csv_tokens-Arity heap (c ∷ s) h =
    Tokenizes-Arity heap c s _ (split_csv_tokens-Tokenizes heap c s (omega (arith, h)))

abbrev pub SignatureFits : Chars → Signature → Type 0
SignatureFits arg_types s =
    Typed true s.result × AllTyped s.arguments × Arity arg_types (length s.arguments)

-- The parser of signatures ends, for a list of arguments of fewer than 2 ^ 59 bytes. It refuses, or
-- it gives an argument for each part between commas, none of them void, and for each type the size of
-- an array and the fields of a compound.
pub parse_signature-Fits :
    (calls : Calls) (return_type : Option Chars) (arg_types : Chars)
    → length arg_types < 2 ^ 59
    → Holds (SignatureFits arg_types) (parse_signature calls return_type (some arg_types))
unfolding parse_signature signature
parse_signature-Fits calls none arg_types h = stops
parse_signature-Fits calls (some []) arg_types h = stops
parse_signature-Fits calls (some (c ∷ s)) arg_types h =
    Holds->>= (argument-Holds (inside calls 0) _ true (c ∷ s)) λ r f.
      Holds->>= (csv_tokens-Arity (numbered (inside calls 1)) arg_types h) λ tokens n.
        Holds-guard _ _ λ m.
          Holds->>= (arguments-Holds (inside calls 3) 0 tokens) λ args (e, g). gives (f, g, rw e n)
