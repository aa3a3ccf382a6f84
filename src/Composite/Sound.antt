-- ===== src/Composite/Sound.antt =====
-- What the parsers of compounds give: fields of which each has an identifier for a name and a type
-- with a size, and tokens shorter than the whole.
use duck_tiny_cc.Prelude.{
  ltb, ◌==◌, ltb→lt, Bool-cases, ltb-false→le, length, length-append, length-take, length-drop,
  codes, ℕ, zero, suc, ◌+◌, ◌*◌, ◌/◌, ◌%◌, ◌≤◌, ◌<◌, ◌≡◌, refl, ap, inl, inr, Bool, true, false,
  not, ◌&&◌, ◌||◌, Option, none, some, List, [], ◌∷◌, ◌++◌, arith,
}
use duck_tiny_cc.Strings.{Chars, is_digit, is_alpha, trim, all_chars, is_identifier_token}
use duck_tiny_cc.Strings.Laws.{length-trim}
use duck_tiny_cc.Result.{
  parsed, Calls, inside, nth, numbered, Holds, gives, stops, Holds->>=, Holds-map, Holds-guard,
  Holds-copied,
}
use duck_tiny_cc.Grammar.{find_top_level_char}
use duck_tiny_cc.FfiType.{FfiType, type_size}
use duck_tiny_cc.TypeToken.{Parsed, accepted, rejected, out_of_fuel, is_void}
use duck_tiny_cc.TypeToken.Fuel.{Sound, parse_type_token-Sound}
use duck_tiny_cc.Composite.{
  Field, cut, field_texts, nonempty_or, name_and_type, field_type, doubled, grow_fields, take_field,
  take_fields, some_field, fields_of, composite_arrays, composite_fields,
}
use duck_tiny_cc.Modes.{digit, digits, decimal}
use duck_tiny_cc.Composite.Texts.{AllShort, ShortTexts, field_texts-ShortTexts}

-- A field of a compound whose fields are written in `n` bytes.
abbrev pub FieldFits : ℕ → Field → Type 0
FieldFits n f =
    (is_identifier_token f.name ≡ true)
    × (is_void f.type ≡ false)
    × (f.size ≡ type_size f.type)
    × (0 < f.size)
    × (length f.token ≤ n)

abbrev pub AllFit : ℕ → List Field → Type 0
AllFit n [] = Unit {0}
AllFit n (f ∷ fs) = FieldFits n f × AllFit n fs

AllFit-append :
    (n : ℕ) (fs : List Field) (f : Field) → AllFit n fs → FieldFits n f → AllFit n (fs ++ f ∷ [])
AllFit-append n [] f h k = (k, tt)
AllFit-append n (g ∷ fs) f (p, h) k = (p, AllFit-append n fs f h k)

all_chars-append :
    (p : ℕ → Bool) (a b : Chars) → all_chars p (a ++ b) ≡ (all_chars p a && all_chars p b)
all_chars-append p [] b = refl
all_chars-append p (c ∷ a) b = rw (all_chars-append p a b) (ground arith)

abbrev word_char : ℕ → Bool
word_char d = is_alpha d || is_digit d || (d == 95)

word_char-digit : (n : ℕ) → word_char (digit (n % 10)) ≡ true
unfolding is_alpha is_digit
word_char-digit n = ground arith

digits_word : (fuel n : ℕ) → all_chars word_char (digits fuel 10 n) ≡ true
digits_word zero n = refl
digits_word (suc fuel) n =
    let rest = digits fuel 10 (n / 10) in
    let h : all_chars word_char rest ≡ true = digits_word fuel (n / 10) in
    elim (Bool-cases (ltb n 10)) [
      | inl y ↦ rw (y, word_char-digit n) refl
      | inr z ↦
          rw (z, all_chars-append word_char rest (digit (n % 10) ∷ []), h, word_char-digit n) refl
    ]

auto_name_identifier : (n : ℕ) → is_identifier_token (codes "f" ++ decimal n) ≡ true
unfolding is_identifier_token is_alpha
auto_name_identifier n = rw (digits_word 20 n) refl

pub nonempty_or-Holds : (text s : Chars) → Holds (λ a. a ≡ s) (nonempty_or text s)
nonempty_or-Holds text [] = stops
nonempty_or-Holds text (c ∷ s) = gives refl

-- Two pieces of a string.
abbrev pub Pieces : Chars → Option (Chars × Chars) → Type 0
Pieces s none = Unit {0}
Pieces s (some (a, b)) = (length a ≤ length s) × (length b ≤ length s)

pub Pieces-cut : (s : Chars) (i : Option ℕ) → Pieces s (cut s i)
Pieces-cut s none = tt
Pieces-cut s (some i) = (omega (arith, length-take i s), omega (arith, length-drop (i + 1) s))

abbrev Named : ℕ → Chars × Chars → Type 0
Named n p = (is_identifier_token (p.0) ≡ true) × (length (p.1) ≤ n)

name_and_type-Holds :
    (auto_names : Bool) (kind : Chars) (count : ℕ) (part : Chars) (o : Option (Chars × Chars))
    → Pieces part o
    → Holds (Named (length part)) (name_and_type auto_names kind count part o)
name_and_type-Holds auto_names kind count part (some (a, b)) (h, k) =
    Holds-guard (is_identifier_token (trim a)) _ λ e.
      Holds->>= (nonempty_or-Holds _ (trim b))
        λ t q. gives (e, omega (arith, ap length q, length-trim b, k))
name_and_type-Holds true kind count part none h =
    gives (auto_name_identifier (count + 1), omega arith)
name_and_type-Holds false kind count part none h = stops

abbrev HasStorage : FfiType → Type 0
HasStorage t = (is_void t ≡ false) × (0 < type_size t)

field_type-Holds :
    (kind : Chars) (r : Parsed) → Sound false r → Holds HasStorage (field_type kind r)
field_type-Holds kind (accepted t n) h = Holds-guard (not (is_void t)) _ λ e.
    Holds-guard (ltb 0 (type_size t)) _ λ k. gives (ground (arith, e), ltb→lt 0 (type_size t) k)
field_type-Holds kind rejected h = stops
field_type-Holds kind out_of_fuel h = absurd h

-- The arrays are no fuller than they are large, and no larger than growth by doubling makes them.
abbrev pub Room : ℕ → ℕ → Type 0
Room count room = (count ≤ room) × (room ≤ 2 * count + 4)

grow_fields-Holds :
    (calls : Calls) (count room : ℕ)
    → Room count room
    → Holds (λ n. (count < n) × (n ≤ 2 * count + 4)) (grow_fields calls count room)
unfolding grow_fields
grow_fields-Holds calls count room (h, k) = elim (Bool-cases (ltb count room)) [
  | inl y ↦ rw y (gives (ltb→lt count room y, k))
  | inr n ↦
      let m : room ≡ count = omega (arith, ltb-false→le count room n, h) in
      rw n (
        Holds-guard {m = parsed (doubled room)} _ _
          λ e. gives {a = doubled room} (ground arith, ground arith))
]

-- A round of the loop over the fields, with the arrays no fuller than they are large, ends with a
-- field whose name is an identifier and whose type has a size, and with room for it, or refuses.
pub take_field-Holds :
    (calls : Calls) (auto_names : Bool) (kind : Chars) (fields : List Field) (room : ℕ)
    (text : Chars)
    → Room (length fields) room
    → Holds
        (λ r. FieldFits (length text) (r.0) × (length fields < r.1) × (r.1 ≤ 2 * length fields + 4))
        (take_field calls auto_names kind fields room text)
unfolding take_field
take_field-Holds calls auto_names kind fields room text h =
    Holds->>= (nonempty_or-Holds _ (trim text)) λ part e.
      Holds->>=
        (name_and_type-Holds auto_names kind (length fields) part _
          (Pieces-cut part (find_top_level_char part 58)))
        λ p (i, n).
          Holds->>=
            (field_type-Holds kind _ (
              parse_type_token-Sound (length (p.1) + 1) (numbered (inside calls 0)) (p.1) false
                (omega arith)))
            λ t (v, z). Holds->>= (grow_fields-Holds calls (length fields) room h) λ space (g, z').
              Holds->>= (Holds-copied (nth calls 5) (p.0)) λ name a.
                Holds->>= (Holds-copied (nth calls 6) (p.1)) λ token b. gives (
                  (
                    rw a i,
                    v,
                    refl,
                    z,
                    omega (arith, ap length b, n, ap length e, length-trim text),
                  ),
                  g,
                  z',
                )

FieldFits-le : (n m : ℕ) (f : Field) → n ≤ m → FieldFits n f → FieldFits m f
FieldFits-le n m f h (i, v, e, z, k) = (i, v, e, z, omega (arith, h, k))

take_fields-Holds :
    (calls : Calls) (auto_names : Bool) (kind : Chars) (n : ℕ) (fields : List Field) (room : ℕ)
    (texts : List Chars)
    → Room (length fields) room
    → AllFit n fields
    → AllShort n texts
    → Holds
        (λ r.
          AllFit n (r.0)
          × Room (length (r.0)) (r.1)
          × (length (r.0) ≤ length fields + length texts))
        (take_fields calls auto_names kind fields room texts)
unfolding take_fields
take_fields-Holds calls auto_names kind n fields room [] h k s = gives (k, h, omega arith)
take_fields-Holds calls auto_names kind n fields room (text ∷ texts) h k (s, ss) =
    Holds->>= (take_field-Holds (inside calls (length fields)) auto_names kind fields room text h)
      λ r (f, g, z).
        let e : length (fields ++ r.0 ∷ []) ≡ length fields + 1 = length-append fields (r.0 ∷ []) in
        Holds-map
          (take_fields-Holds calls auto_names kind n (fields ++ r.0 ∷ []) (r.1) texts
            (omega (arith, e, g), omega (arith, e, z))
            (AllFit-append n fields (r.0) k (FieldFits-le (length text) n (r.0) s f)) ss)
          λ t (a, b, c). (a, b, omega (arith, c, e))

abbrev pub Fields : ℕ → List Field → Type 0
Fields n fs = AllFit n fs × (0 < length fs)

-- The fields in the arrays that hold them.
abbrev pub Arrays : ℕ → List Field × ℕ → Type 0
Arrays n (fs, room) =
    Fields n fs × (length fs ≤ n) × (length fs ≤ room) × (room ≤ 2 * length fs + 4)

some_field-Holds :
    (n : ℕ) (kind : Chars) (r : List Field × ℕ)
    → AllFit n (r.0)
    → Room (length (r.0)) (r.1)
    → length (r.0) ≤ n
    → Holds (Arrays n) (some_field kind r)
some_field-Holds n kind ([], room) h k z = stops
some_field-Holds n kind (f ∷ fs, room) h (a, b) z = gives ((h, omega arith), z, a, b)

fields_of-Holds :
    (calls : Calls) (auto_names : Bool) (kind : Chars) (n : ℕ) (o : Option (List Chars))
    → ShortTexts n n o
    → Holds (Arrays n) (fields_of calls auto_names kind o)
fields_of-Holds calls auto_names kind n none h = absurd h
fields_of-Holds calls auto_names kind n (some texts) (h, z) =
    Holds->>= (take_fields-Holds calls auto_names kind n [] 0 texts (omega arith, omega arith) tt h)
      λ r (a, b, c). some_field-Holds n kind r a b (omega (arith, c, z))

-- The loop over the fields of a compound ends. It refuses, or it gives at least one field and at most
-- one for each byte, each with an identifier for a name, a type other than void with a size, and a
-- token no longer than the bytes it is parsed from. The arrays have room for all fields, and the
-- capacity is at most twice their number and four.
pub composite_arrays-Holds :
    (calls : Calls) (auto_names : Bool) (kind inner : Chars)
    → Holds (Arrays (length inner)) (composite_arrays calls auto_names kind inner)
unfolding composite_arrays
composite_arrays-Holds calls auto_names kind inner =
    fields_of-Holds calls auto_names kind (length inner) (field_texts (length inner + 1) inner)
      (field_texts-ShortTexts (length inner + 1) (length inner) inner (omega arith) (omega arith))

pub composite_fields-Holds :
    (calls : Calls) (auto_names : Bool) (kind inner : Chars)
    → Holds (Fields (length inner)) (composite_fields calls auto_names kind inner)
unfolding composite_fields
composite_fields-Holds calls auto_names kind inner =
    Holds->>= (composite_arrays-Holds calls auto_names kind inner) λ r (a, b, c, d). gives a
