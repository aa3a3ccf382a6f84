-- ===== src/Composite/Metas.antt =====
-- What the parsers of `struct<...>`, `union<...>` and `map<...>` give.
use duck_tiny_cc.Prelude.{
  ltb, ltb→lt, length, length-drop, codes, ℕ, ◌+◌, ◌-◌, ◌≤◌, ◌<◌, ◌≡◌, ap, true, false, not, ◌&&◌,
  Option, none, some, List, arith,
}
use duck_tiny_cc.Strings.{Chars, trim, init}
use duck_tiny_cc.Strings.Laws.{length-init, length-trim}
use duck_tiny_cc.Result.{
  Calls, inside, nth, numbered, Holds, gives, stops, Holds->>=, Holds-map, Holds-guard,
  Holds-copied,
}
use duck_tiny_cc.Grammar.{find_top_level_char}
use duck_tiny_cc.FfiType.{type_size}
use duck_tiny_cc.TypeToken.{Parsed, accepted, rejected, out_of_fuel, is_wrapped, is_void}
use duck_tiny_cc.TypeToken.Fuel.{Sound, parse_type_token-Sound}
use duck_tiny_cc.Composite.{
  Field, between, struct_meta, union_meta, MapMeta, lone, one_separator, map_part, map_parts,
  map_meta,
}
use duck_tiny_cc.Composite.Sound.{
  nonempty_or-Holds, Pieces, Pieces-cut, Fields, composite_fields-Holds,
}

length-between :
    (n : ℕ) (token : Chars) → 0 < length token → length (between n token) < length token
length-between n token h = omega (arith, length-drop (n + 1) (init token), length-init token)

is_wrapped_nonempty : (word token : Chars) → is_wrapped word token ≡ true → 0 < length token
unfolding is_wrapped
is_wrapped_nonempty word token h = ltb→lt 0 (length token) (grind arith)

-- Fields whose tokens are shorter than the token of the compound.
abbrev pub FieldsIn : Chars → List Field → Type 0
FieldsIn token fs = (n : ℕ) × (n < length token) × Fields n fs

pub struct_meta-Holds :
    (calls : Calls) (token : Chars) → Holds (FieldsIn token) (struct_meta calls token)
unfolding struct_meta
struct_meta-Holds calls token = Holds-guard (is_wrapped (codes "struct") token) _ λ w.
    Holds-guard (nth calls 0 (length token - 6)) _ λ m.
      Holds-map (composite_fields-Holds (inside calls 1) true (codes "struct") (between 6 token))
        λ fs h. (
          length (between 6 token),
          length-between 6 token (is_wrapped_nonempty (codes "struct") token w),
          h,
        )

pub union_meta-Holds :
    (calls : Calls) (token : Chars) → Holds (FieldsIn token) (union_meta calls token)
unfolding union_meta
union_meta-Holds calls token = Holds-guard (is_wrapped (codes "union") token) _ λ w.
    Holds-guard (nth calls 0 (length token - 4)) _ λ m.
      Holds-map (composite_fields-Holds (inside calls 1) false (codes "union") (between 5 token))
        λ fs h. (
          length (between 5 token),
          length-between 5 token (is_wrapped_nonempty (codes "union") token w),
          h,
        )

-- Key and value have types with a size, and tokens of at most `n` bytes.
abbrev pub MapFits : ℕ → MapMeta → Type 0
MapFits n m =
    ((is_void m.key_type ≡ false) × (0 < m.key_size) × (length m.key_token ≤ n))
    × ((is_void m.value_type ≡ false) × (0 < m.value_size) × (length m.value_token ≤ n))

abbrev Both : ℕ → Chars × Chars → Type 0
Both n p = (length (p.0) ≤ n) × (length (p.1) ≤ n)

lone-Holds : (n : ℕ) (a b : Chars) (o : Option ℕ) → Both n (a, b) → Holds (Both n) (lone a b o)
lone-Holds n a b none h = gives h
lone-Holds n a b (some i) h = stops

one_separator-Holds :
    (s : Chars) (o : Option (Chars × Chars))
    → Pieces s o
    → Holds (Both (length s)) (one_separator o)
one_separator-Holds s none h = stops
one_separator-Holds s (some (a, b)) (h, k) =
    lone-Holds (length s) (trim a) (trim b) (find_top_level_char b 59)
      (omega (arith, length-trim a, h), omega (arith, length-trim b, k))

map_part-Holds : (r : Parsed) → Sound false r → Holds (λ t. is_void t ≡ false) (map_part r)
map_part-Holds (accepted t n) h = Holds-guard (not (is_void t)) _ λ e. gives (ground (arith, e))
map_part-Holds rejected h = stops
map_part-Holds out_of_fuel h = absurd h

map_parts-Holds :
    (calls : Calls) (inner : Chars) → Holds (MapFits (length inner)) (map_parts calls inner)
unfolding map_parts
map_parts-Holds calls inner =
    Holds->>= (one_separator-Holds inner _ (Pieces-cut inner (find_top_level_char inner 59)))
      λ p (h, g). Holds->>= (nonempty_or-Holds _ (p.0)) λ k a.
        Holds->>= (nonempty_or-Holds _ (p.1)) λ v b.
          Holds->>= (Holds-copied (nth calls 1) k) λ key c.
            Holds->>= (Holds-copied (nth calls 2) v) λ value d.
              Holds->>=
                (map_part-Holds _ (
                  parse_type_token-Sound (length k + 1) (numbered (inside calls 3)) k false
                    (omega arith)))
                λ kt x.
                  Holds->>=
                    (map_part-Holds _ (
                      parse_type_token-Sound (length v + 1) (numbered (inside calls 4)) v false
                        (omega arith)))
                    λ vt y. Holds-guard (ltb 0 (type_size kt) && ltb 0 (type_size vt)) _ λ z.
                      gives (
                        (
                          x,
                          ltb→lt 0 (type_size kt) (grind arith),
                          omega (arith, ap length c, ap length a, h),
                        ),
                        (
                          y,
                          ltb→lt 0 (type_size vt) (grind arith),
                          omega (arith, ap length d, ap length b, g),
                        ),
                      )

-- Key and value, with tokens shorter than that of the map.
abbrev pub MapIn : Chars → MapMeta → Type 0
MapIn token m = (n : ℕ) × (n < length token) × MapFits n m

pub map_meta-Holds : (calls : Calls) (token : Chars) → Holds (MapIn token) (map_meta calls token)
unfolding map_meta
map_meta-Holds calls token = Holds-guard (is_wrapped (codes "map") token) _ λ w.
    Holds-guard (nth calls 0 (length token - 3)) _ λ m.
      Holds-map (map_parts-Holds calls (between 3 token)) λ f h. (
        length (between 3 token),
        length-between 3 token (is_wrapped_nonempty (codes "map") token w),
        h,
      )
