-- ===== src/Fields/Specs.antt =====
-- The lists of fields and of enum constants.
-- Room for the items, and no more than twice that and eight.
use duck_tiny_cc.Prelude.{
  ltb, leb, ◌==◌, if◌then◌else◌, ltb→lt, leb→le, Bool-cases, length, length-append, ℕ, ◌+◌, ◌*◌,
  ◌/◌, ◌^◌, ◌≤◌, ◌<◌, ◌≡◌, refl, ap, inl, inr, Bool, true, not, Option, none, some, List, [], ◌∷◌,
  ◌++◌, arith,
}
use duck_tiny_cc.Strings.{Chars}
use duck_tiny_cc.Growth.{
  u64, u64_max, Grown, grown, endless, Reserved, reserved, failed, hangs, rounds, Malloc, allocate,
  c_field_list_reserve,
}
use duck_tiny_cc.Growth.Bounds.{Ends, Ends-grow_within, enough_rounds}
use duck_tiny_cc.StringList.{Heap}
use duck_tiny_cc.Grammar.{Csv, tokenized, split_csv_tokens}
use duck_tiny_cc.Result.{
  Calls, inside, nth, numbered, Holds, gives, stops, Holds->>=, Holds-map, Holds-guard,
}
use duck_tiny_cc.Signature.{csv_tokens}
use duck_tiny_cc.Signature.Sound.{Arity, csv_tokens-Arity}
use duck_tiny_cc.Fields.{
  CField, CFieldList, push_field, c_field_list_append, take_specs, parse_c_field_specs,
  all_identifiers, parse_c_enum_constants,
}
use duck_tiny_cc.Grammar.Tokenize.{trim_all, Tokenizes, length-join, split_csv_tokens-Tokenizes}
use duck_tiny_cc.Fields.Sound.{CFieldFits, parse_c_field_spec_token-Fits, AllCFit, AllCFit-append}
use duck_tiny_cc.Grammar.Cuts.{Cut}

abbrev pub ListFits : CFieldList → Type 0
ListFits l = (length l.items ≤ l.capacity) × (l.capacity ≤ 2 * length l.items + 8) × AllCFit l.items

abbrev RoomFor : ℕ → Reserved → Type 0
RoomFor n (reserved c) = (n + 1 ≤ c) × (c ≤ 2 * n + 8)
RoomFor n failed = Unit {0}
RoomFor n hangs = ⊥

RoomFor-allocate :
    (malloc : Malloc) (n start : ℕ) (g : Grown)
    → start ≤ 2 * n + 8
    → Ends (n + 1) start g
    → RoomFor n (allocate malloc 32 g)
RoomFor-allocate malloc n start (grown c) h (p, q, r, e) =
    elim (Bool-cases (malloc (u64 (32 * c)))) [
      | inl y ↦ rw y (p, omega (arith, h, e))
      | inr m ↦ rw m tt
    ]
RoomFor-allocate malloc n start Grown.refused h e = tt
RoomFor-allocate malloc n start endless h e = e

RoomFor-reserve :
    (malloc : Malloc) (capacity n : ℕ)
    → n < 2 ^ 61
    → capacity ≤ 2 * n + 8
    → RoomFor n (c_field_list_reserve malloc capacity (n + 1))
unfolding c_field_list_reserve
RoomFor-reserve malloc capacity n small h = elim (Bool-cases (leb (n + 1) capacity)) [
  | inl y ↦ rw y (leb→le (n + 1) capacity y, h)
  | inr m ↦ rw m (
      let start : ℕ = (if capacity == 0 then 8 else capacity) in
      let a : start ≤ 2 * n + 8 = ground arith in
      let b : 0 < start = ground arith in
      RoomFor-allocate malloc n start _ a (
        Ends-grow_within rounds (u64_max / (32 * 2)) (n + 1) start (omega arith)
          (enough_rounds start b) (omega arith) (omega arith)))
]

c_field_list_append-Fits :
    (malloc : Malloc) (l : CFieldList) (f : CField)
    → length l.items < 2 ^ 61
    → ListFits l
    → CFieldFits f
    → Holds (λ k. (k.items ≡ l.items ++ f ∷ []) × ListFits k) (c_field_list_append malloc l f)
unfolding c_field_list_append
c_field_list_append-Fits malloc l f small (a, b, c) k =
    from (c_field_list_reserve malloc l.capacity (length l.items + 1))
      (RoomFor-reserve malloc l.capacity (length l.items) small b)
  where
    from :
        (r : Reserved)
        → RoomFor (length l.items) r
        → Holds (λ k. (k.items ≡ l.items ++ f ∷ []) × ListFits k) (push_field l f r)
    from (reserved n) (x, y) =
        let e : length (l.items ++ f ∷ []) ≡ length l.items + 1 = length-append l.items (f ∷ []) in
        gives (refl, (omega (arith, e, x), omega (arith, e, y), AllCFit-append l.items f c k))
    from failed h = stops
    from hangs h = absurd h

-- Every token is a field, in order.
take_specs-Fits :
    (calls : Calls) (force_bitfield : Bool) (i : ℕ) (l : CFieldList) (tokens : List Chars)
    → length l.items + length tokens < 2 ^ 61
    → ListFits l
    → Holds
        (λ k. (length k.items ≡ length l.items + length tokens) × ListFits k)
        (take_specs calls force_bitfield i l tokens)
unfolding take_specs
take_specs-Fits calls force_bitfield i l [] small h = gives (omega arith, h)
take_specs-Fits calls force_bitfield i l (token ∷ tokens) small h =
    Holds->>= (parse_c_field_spec_token-Fits (inside (inside calls i) 0) force_bitfield token)
      λ f g.
        Holds->>= (c_field_list_append-Fits (nth (inside calls i) 1) l f (omega arith) h g)
          λ k (e, j).
            let n : length k.items ≡ length l.items + 1 = rw e (length-append l.items (f ∷ [])) in
            Holds-map
              (take_specs-Fits calls force_bitfield (i + 1) k tokens (omega (arith, n, small)) j)
              λ m (x, y). (omega (arith, x, n), y)

-- An empty list, and no list, have no parts.
abbrev pub ArityOf : Option Chars → ℕ → Type 0
ArityOf none n = n ≡ 0
ArityOf (some s) n = Arity s n

abbrev pub is_short : Option Chars → Bool
is_short none = true
is_short (some s) = ltb (length s) (2 ^ 59)

Arity-small : (s : Chars) (n : ℕ) → length s < 2 ^ 59 → Arity s n → n < 2 ^ 60
Arity-small [] n h a = omega (arith, a)
Arity-small (c ∷ s) n h (ps, (e, w, d), k) = omega (arith, h, k, ap length e, length-join 44 ps)

abbrev Tokens : Option Chars → List Chars → Type 0
Tokens arg_types tokens = ArityOf arg_types (length tokens) × (length tokens < 2 ^ 60)

Tokens-csv_tokens :
    (heap : Heap) (arg_types : Option Chars)
    → is_short arg_types ≡ true
    → Holds (Tokens arg_types) (csv_tokens (split_csv_tokens heap arg_types))
unfolding split_csv_tokens
Tokens-csv_tokens heap none h = gives (refl, omega arith)
Tokens-csv_tokens heap (some s) h =
    let k : length s < 2 ^ 59 = ltb→lt (length s) (2 ^ 59) h in
    Holds-map (csv_tokens-Arity heap s k) λ tokens a. (a, Arity-small s (length tokens) k a)

not_zero : (n : ℕ) → not (n == 0) ≡ true → 0 < n
not_zero n h = ground arith

-- The parser of the fields of a C type ends, for a list of fewer than 2 ^ 59 bytes. It refuses, or it
-- gives a field for each part between commas, of which there is one at least, in an array that has
-- room for them and is no larger than twice their number and eight.
pub parse_c_field_specs-Fits :
    (calls : Calls) (force_bitfield : Bool) (arg_types : Option Chars)
    → is_short arg_types ≡ true
    → Holds
        (λ l. ArityOf arg_types (length l.items) × (0 < length l.items) × ListFits l)
        (parse_c_field_specs calls force_bitfield arg_types)
unfolding parse_c_field_specs
parse_c_field_specs-Fits calls force_bitfield arg_types h =
    Holds->>= (Tokens-csv_tokens (numbered (inside calls 0)) arg_types h) λ tokens (a, small).
      Holds-guard (not (length tokens == 0)) _ λ e.
        Holds-map
          (take_specs-Fits (inside calls 1) force_bitfield 0 (record { items = []; capacity = 0 })
            tokens (omega (arith, small)) (omega arith, omega arith, tt))
          λ l (n, f).
            let z : length l.items ≡ length tokens = omega (arith, n) in
            (rw z a, rw z (not_zero (length tokens) e), f)

-- The constants that a list names: its parts between the commas outside brackets, trimmed.
abbrev pub Names : Option Chars → List Chars → Type 0
Names none cs = ⊥
Names (some s) cs = (ps : List Chars) × Cut 44 s ps × (cs ≡ trim_all ps)

abbrev Listed : Option Chars → List Chars → Type 0
Listed arg_types cs = (0 < length cs) → Names arg_types cs

Names-Tokenizes :
    (heap : Heap) (c : ℕ) (s : Chars) (r : Csv)
    → Tokenizes heap (c ∷ s) r
    → Holds (Listed (some (c ∷ s))) (csv_tokens r)
Names-Tokenizes heap c s (tokenized l) (ps, e, q, b) = gives λ h. (ps, e, q)
Names-Tokenizes heap c s (Csv.rejected text) h = stops

Listed-csv_tokens :
    (heap : Heap) (arg_types : Option Chars)
    → is_short arg_types ≡ true
    → Holds (Listed arg_types) (csv_tokens (split_csv_tokens heap arg_types))
unfolding split_csv_tokens
Listed-csv_tokens heap none h = gives λ z. omega arith
Listed-csv_tokens heap (some []) h = gives λ z. absurd (omega arith)
Listed-csv_tokens heap (some (c ∷ s)) h =
    let k : length (c ∷ s) < 2 ^ 59 = ltb→lt (length (c ∷ s)) (2 ^ 59) h in
    Names-Tokenizes heap c s _ (split_csv_tokens-Tokenizes heap c s (omega (arith, k)))

-- The parser of the constants of an enum ends, for a list of fewer than 2 ^ 59 bytes. It refuses, or
-- it gives the parts between the commas outside brackets, trimmed and in order, of which there is
-- one at least, and all of which are identifiers.
pub parse_c_enum_constants-Fits :
    (calls : Calls) (arg_types : Option Chars)
    → is_short arg_types ≡ true
    → Holds
        (λ cs. Names arg_types cs × (0 < length cs) × (all_identifiers cs ≡ true))
        (parse_c_enum_constants calls arg_types)
unfolding parse_c_enum_constants
parse_c_enum_constants-Fits calls arg_types h =
    Holds->>= (Listed-csv_tokens (numbered calls) arg_types h) λ tokens a.
      Holds-guard (not (length tokens == 0)) _ λ e.
        let z : 0 < length tokens = not_zero (length tokens) e in
        Holds-guard (all_identifiers tokens) _ λ i. gives (a z, z, i)
