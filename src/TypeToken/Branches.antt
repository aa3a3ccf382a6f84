-- ===== src/TypeToken/Branches.antt =====
-- What the branches of the parser answer for the tokens of compounds.
use duck_tiny_cc.Prelude.{
  ◌==◌, Bool-cases, length, take, codes, ℕ, ◌+◌, ◌-◌, ◌*◌, ◌%◌, ◌^◌, ◌≡◌, refl, ap, inl, inr, Bool,
  true, false, not, ◌&&◌, ◌||◌, none, some, List, [], ◌∷◌, ◌++◌, arith,
}
use duck_tiny_cc.Strings.{
  Chars, has_char, is_space, is_digit, lower, skip_space, trim_end, trim, equals_ci, last_or,
  all_chars, init, last_split,
}
use duck_tiny_cc.Strings.Laws.{starts_dark, ends_dark}
use duck_tiny_cc.FfiType.{FfiType}
use duck_tiny_cc.TypeToken.{
  simple_tokens, lookup_ci, is_wrapped, wrapped_type, flat_type, read_size,
}
use duck_tiny_cc.TypeToken.Printed.{value}

-- `<` and `[`, which no simple token holds.
abbrev pub is_opener : ℕ → Bool
is_opener c = (c == 60) || (c == 91)

lower-opener : (c a b : ℕ) → is_opener c ≡ true → (lower a == lower b) ≡ true → (a == c) ≡ (b == c)
unfolding lower
lower-opener c a b h e = ground arith

has_char-equals_ci :
    (c : ℕ) (a b : Chars) → is_opener c ≡ true → equals_ci a b ≡ true → has_char c a ≡ has_char c b
unfolding has_char equals_ci
has_char-equals_ci c [] [] h e = refl
has_char-equals_ci c [] (y ∷ b) h e = cc
has_char-equals_ci c (x ∷ a) [] h e = cc
has_char-equals_ci c (x ∷ a) (y ∷ b) h e =
    let p : (lower x == lower y) ≡ true = grind arith in
    let q : equals_ci a b ≡ true = grind arith in
    rw (lower-opener c x y h p, has_char-equals_ci c a b h q) refl

has_char-append : (c : ℕ) (a b : Chars) → has_char c (a ++ c ∷ b) ≡ true
unfolding has_char
has_char-append c [] b = ground arith
has_char-append c (x ∷ a) b = rw (has_char-append c a b) (ground arith)

-- A token with an opener differs from a name without.
equals_ci-opener :
    (c : ℕ) (a b name : Chars)
    → is_opener c ≡ true
    → has_char c name ≡ false
    → equals_ci (a ++ c ∷ b) name ≡ false
equals_ci-opener c a b name h k = elim (Bool-cases (equals_ci (a ++ c ∷ b) name)) [
  | inr n ↦ n
  | inl y ↦ cc (has_char-append c a b, has_char-equals_ci c (a ++ c ∷ b) name h y, k)
]

abbrev pub none_has : ℕ → List (Chars × FfiType) → Bool
none_has c [] = true
none_has c ((name, t) ∷ rest) = not (has_char c name) && none_has c rest

lookup_ci-opener :
    (c : ℕ) (a b : Chars) (table : List (Chars × FfiType))
    → is_opener c ≡ true
    → none_has c table ≡ true
    → lookup_ci (a ++ c ∷ b) table ≡ none
unfolding lookup_ci
lookup_ci-opener c a b [] h k = refl
lookup_ci-opener c a b ((name, t) ∷ rest) h k =
    let p : has_char c name ≡ false = grind arith in
    let q : none_has c rest ≡ true = grind arith in
    rw (equals_ci-opener c a b name h p) (lookup_ci-opener c a b rest h q)

-- What is left of the flat types for a token with an opener.
pub flat_type-opener :
    (c : ℕ) (a b : Chars) (allow_void : Bool)
    → is_opener c ≡ true
    → none_has c simple_tokens ≡ true
    → has_char c (codes "void") ≡ false
    → flat_type (a ++ c ∷ b) allow_void ≡ wrapped_type (a ++ c ∷ b)
unfolding flat_type
flat_type-opener c a b allow_void h k v =
    let e : (allow_void && equals_ci (a ++ c ∷ b) (codes "void")) ≡ false =
      rw (equals_ci-opener c a b (codes "void") h v) (ground arith) in
    rw (e, lookup_ci-opener c a b simple_tokens h k) refl

pub last_or-append : (d : ℕ) (a : Chars) (c : ℕ) → last_or d (a ++ c ∷ []) ≡ c
last_or-append d [] c = refl
last_or-append d (x ∷ a) c = last_or-append x a c

pub init-append : (a : Chars) (c : ℕ) → init (a ++ c ∷ []) ≡ a
init-append [] c = refl
init-append (x ∷ []) c = refl
init-append (x ∷ y ∷ a) c = ap (λ r. x ∷ r) (init-append (y ∷ a) c)

pub is_wrapped-word :
    (word token : Chars)
    → equals_ci (take (length word) token) word ≡ false
    → is_wrapped word token ≡ false
unfolding is_wrapped
is_wrapped-word word token h = rw h (ground arith)

pub is_wrapped-last :
    (word token : Chars) → (last_or 0 token == 62) ≡ false → is_wrapped word token ≡ false
unfolding is_wrapped
is_wrapped-last word token h = rw h (ground arith)

-- A token that does not end in `>` is no compound.
pub wrapped_type-last :
    (token : Chars) → (last_or 0 token == 62) ≡ false → wrapped_type token ≡ none
unfolding wrapped_type
wrapped_type-last token h =
    rw
      (
        is_wrapped-last (codes "struct") token h,
        is_wrapped-last (codes "map") token h,
        is_wrapped-last (codes "union") token h,
      )
      refl

pub last_split-none : (c : ℕ) (b : Chars) → has_char c b ≡ false → last_split c b ≡ none
unfolding last_split has_char
last_split-none c [] h = refl
last_split-none c (d ∷ b) h =
    let p : (d == c) ≡ false = grind arith in
    let q : has_char c b ≡ false = grind arith in rw (last_split-none c b q, p) refl

pub last_split-append :
    (c : ℕ) (a b : Chars) → has_char c b ≡ false → last_split c (a ++ c ∷ b) ≡ some (a, b)
unfolding last_split
last_split-append c [] b h = rw (last_split-none c b h) (ground arith)
last_split-append c (x ∷ a) b h = rw (last_split-append c a b h) refl

pub read_size-value :
    (n m : ℕ) (ds : Chars)
    → all_chars is_digit ds ≡ true
    → m ≡ n % 2 ^ 64
    → read_size m ds ≡ some (value n ds % 2 ^ 64)
unfolding read_size
read_size-value n m [] h e = rw e refl
read_size-value n m (c ∷ ds) h e =
    let p : is_digit c ≡ true = grind arith in
    let q : all_chars is_digit ds ≡ true = grind arith in
    rw p (read_size-value (n * 10 + (c - 48)) ((m * 10 + (c - 48)) % 2 ^ 64) ds q (omega arith))

trim_end-dark : (c : ℕ) (s : Chars) → ends_dark (c ∷ s) ≡ true → trim_end (c ∷ s) ≡ c ∷ s
unfolding trim_end
trim_end-dark c [] h = elim (Bool-cases (is_space c)) [ inl y ↦ cc (h, y) | inr n ↦ rw n refl ]
trim_end-dark c (d ∷ s) h = rw (trim_end-dark d s h) refl

pub trim-dark : (s : Chars) → starts_dark s ≡ true → ends_dark s ≡ true → trim s ≡ s
unfolding trim skip_space trim_end
trim-dark [] h k = refl
trim-dark (c ∷ s) h k = elim (Bool-cases (is_space c)) [
  | inl y ↦ cc (h, y)
  | inr n ↦ rw n (trim_end-dark c s k)
]

pub flat_type-angle :
    (a b : Chars) (allow_void : Bool)
    → flat_type (a ++ 60 ∷ b) allow_void ≡ wrapped_type (a ++ 60 ∷ b)
unfolding has_char
flat_type-angle a b allow_void = flat_type-opener 60 a b allow_void refl refl refl

pub flat_type-square :
    (a b : Chars) (allow_void : Bool)
    → flat_type (a ++ 91 ∷ b) allow_void ≡ wrapped_type (a ++ 91 ∷ b)
unfolding has_char
flat_type-square a b allow_void = flat_type-opener 91 a b allow_void refl refl refl
