-- ===== src/EnumSource/Defined.antt =====
-- The source for an enum defines the functions that are bound for it.
use mathlib.Core.Option
use mathlib.Core.Path.{subst}
use duck_tiny_cc.Prelude.{
  leb, ◌==◌, if◌then◌else◌, Bool-cases, length, codes, ℕ, ◌+◌, ◌*◌, ◌/◌, ◌^◌, ◌<◌, ◌≡◌, refl, sym,
  ap, ◌∙◌, inl, inr, Bool, true, ◌&&◌, Option, none, some, List, [], ◌∷◌, ◌++◌, append_assoc,
  append-nil, arith,
}
use duck_tiny_cc.Strings.{Chars, starts_with, before}
use duck_tiny_cc.Growth.{
  u64, u64_max, Grown, grown, endless, Reserved, reserved, failed, hangs, rounds, Malloc, allocate,
  text_buf_reserve,
}
use duck_tiny_cc.Growth.Bounds.{Ends, Ends-grow_within, enough_rounds}
use duck_tiny_cc.Result.{
  Calls, inside, nth, Holds, gives, stops, Holds->>=, Holds-map, Holds-copied,
}
use duck_tiny_cc.Libraries.{stands_in}
use duck_tiny_cc.Bindings.{Binding, room_for, prefixed}
use duck_tiny_cc.EnumSource.{
  TextBuf, empty_text, text_buf_append, sizeof_line, constant_line, constant_lines,
  generate_c_enum_helpers_source,
}
use duck_tiny_cc.Bindings.Built.{constant_helpers, enum_helpers}

abbrev Enough : ℕ → Reserved → Type 0
Enough wanted (reserved c) = c < 2 ^ 64
Enough wanted failed = Unit {0}
Enough wanted hangs = ⊥

Enough-allocate :
    (malloc : Malloc) (wanted start : ℕ) (g : Grown)
    → Ends wanted start g
    → Enough wanted (allocate malloc 1 g)
Enough-allocate malloc wanted start (grown c) (p, q, r, e) =
    elim (Bool-cases (malloc (u64 (1 * c)))) [ inl y ↦ rw y r | inr m ↦ rw m tt ]
Enough-allocate malloc wanted start Grown.refused e = tt
Enough-allocate malloc wanted start endless e = e

Enough-reserve :
    (malloc : Malloc) (capacity wanted : ℕ)
    → capacity < 2 ^ 64
    → Enough wanted (text_buf_reserve malloc capacity wanted)
unfolding text_buf_reserve
Enough-reserve malloc capacity wanted small = elim (Bool-cases (leb wanted capacity)) [
  | inl y ↦ rw y small
  | inr m ↦ rw m (
      let start : ℕ = (if capacity == 0 then 256 else capacity) in
      let a : start < 2 ^ 64 = ground arith in
      let b : 0 < start = ground arith in
      Enough-allocate malloc wanted start _ (
        Ends-grow_within rounds (u64_max / 2) wanted start a (enough_rounds start b) (omega arith)
          (omega arith)))
]

room_for-Enough :
    (wanted : ℕ) (r : Reserved) → Enough wanted r → Holds (λ c. c < 2 ^ 64) (room_for r)
room_for-Enough wanted (reserved c) h = gives h
room_for-Enough wanted failed h = stops
room_for-Enough wanted hangs h = absurd h

-- A buffer with more at its end.
abbrev Longer : TextBuf → Chars → TextBuf → Type 0
Longer buf s k = (k.text ≡ buf.text ++ s) × (k.capacity < 2 ^ 64)

text_buf_append-Longer :
    (malloc : Malloc) (buf : TextBuf) (s : Chars)
    → buf.capacity < 2 ^ 64
    → Holds (Longer buf s) (text_buf_append malloc buf s)
unfolding text_buf_append
text_buf_append-Longer malloc buf s h =
    Holds->>=
      (room_for-Enough (u64 (length buf.text + length s + 1)) _
        (Enough-reserve malloc buf.capacity (u64 (length buf.text + length s + 1)) h))
      λ n k. gives {a = record { text = buf.text ++ s; capacity = n }} (refl, k)

abbrev all_lines : Chars → List Chars → Chars
all_lines prefix [] = []
all_lines prefix (c ∷ cs) = constant_line prefix c ++ all_lines prefix cs

constant_lines-Longer :
    (calls : Calls) (i : ℕ) (buf : TextBuf) (prefix : Chars) (cs : List Chars)
    → buf.capacity < 2 ^ 64
    → Holds (Longer buf (all_lines prefix cs)) (constant_lines calls i buf prefix cs)
unfolding constant_lines
constant_lines-Longer calls i buf prefix [] h = gives (sym (append-nil buf.text), h)
constant_lines-Longer calls i buf prefix (c ∷ cs) h =
    Holds->>= (text_buf_append-Longer (nth calls i) buf (constant_line prefix c) h) λ b (e, small).
      Holds-map (constant_lines-Longer calls (i + 1) b prefix cs small) λ k (d, q). (
        d
            ∙ (ap (λ x. x ++ all_lines prefix cs) e
                ∙ append_assoc buf.text (constant_line prefix c) (all_lines prefix cs)),
        q,
      )

-- The head of a definition stands in the text.
abbrev pub defines : Chars → Binding → Bool
defines src b = stands_in (before (b.symbol ++ codes "(void){") src)

abbrev pub all_defined : Chars → List Binding → Bool
all_defined src [] = true
all_defined src (b ∷ bs) = defines src b && all_defined src bs

starts_with-append : (a b : Chars) → starts_with (a ++ b) a ≡ true
unfolding starts_with
starts_with-append [] [] = refl
starts_with-append [] (c ∷ b) = refl
starts_with-append (c ∷ a) b = rw (starts_with-append a b) (ground arith)

found_here : (n s : Chars) → starts_with s n ≡ true → stands_in (before n s) ≡ true
unfolding before
found_here n [] h = rw h refl
found_here n (c ∷ s) h = rw h refl

found_later :
    (n : Chars) (c : ℕ) (s : Chars)
    → stands_in (before n s) ≡ true
    → stands_in (before n (c ∷ s)) ≡ true
unfolding before
found_later n c s h = elim (Bool-cases (starts_with (c ∷ s) n)) [
  | inl y ↦ rw y refl
  | inr m ↦ rw m (mapped (before n s) h)
]
  where
    mapped : (o : Option Chars) → stands_in o ≡ true → stands_in (Option.map (λ a. c ∷ a) o) ≡ true
    mapped none h = h
    mapped (some a) h = refl

stands_in-append : (n a b : Chars) → stands_in (before n (a ++ (n ++ b))) ≡ true
stands_in-append n [] b = found_here n (n ++ b) (starts_with-append n b)
stands_in-append n (c ∷ a) b = found_later n c (a ++ (n ++ b)) (stands_in-append n a b)

-- A definition in a line of the text, of which the head is `name` and `mark`.
defined_in-line :
    (pre lead name mark more rest : Chars)
    → stands_in (before (name ++ mark) (pre ++ ((lead ++ (name ++ (mark ++ more))) ++ rest))) ≡ true
defined_in-line pre lead name mark more rest =
    let e : pre ++ ((lead ++ (name ++ (mark ++ more))) ++ rest)
        ≡ (pre ++ lead) ++ ((name ++ mark) ++ (more ++ rest)) =
      rw
        (
          append_assoc lead (name ++ (mark ++ more)) rest,
          append_assoc name (mark ++ more) rest,
          append_assoc mark more rest,
          append_assoc pre lead ((name ++ mark) ++ (more ++ rest)),
          append_assoc name mark (more ++ rest),
        )
        refl in
    rw e (stands_in-append (name ++ mark) (pre ++ lead) (more ++ rest))

constants_defined :
    (pre prefix : Chars) (cs : List Chars)
    → all_defined (pre ++ all_lines prefix cs) (constant_helpers prefix cs) ≡ true
constants_defined pre prefix [] = refl
constants_defined pre prefix (c ∷ cs) =
    let line : Chars = constant_line prefix c in
    let h : stands_in
          (before (prefixed prefix c ++ codes "(void){") (pre ++ (line ++ all_lines prefix cs)))
        ≡ true =
      defined_in-line pre (codes "long long ") (prefixed prefix c) (codes "(void){")
        (codes " return (long long)(" ++ (c ++ (codes "); }" ++ 10 ∷ []))) (all_lines prefix cs) in
    let k : all_defined (pre ++ (line ++ all_lines prefix cs)) (constant_helpers prefix cs) ≡ true =
      rw (← append_assoc pre line (all_lines prefix cs))
        (constants_defined (pre ++ line) prefix cs) in
    rw (h, k) refl

enum_defined :
    (enum_name prefix : Chars) (cs : List Chars)
    → all_defined (sizeof_line enum_name prefix ++ all_lines prefix cs) (enum_helpers prefix cs)
      ≡ true
enum_defined enum_name prefix cs =
    let h : stands_in (
          before (prefixed prefix (codes "sizeof") ++ codes "(void){")
            (sizeof_line enum_name prefix ++ all_lines prefix cs))
        ≡ true =
      defined_in-line [] (codes "unsigned long long ") (prefixed prefix (codes "sizeof"))
        (codes "(void){")
        (codes " return (unsigned long long)sizeof(enum "
          ++ (enum_name ++ (codes "); }" ++ 10 ∷ [])))
        (all_lines prefix cs) in
    rw (h, constants_defined (sizeof_line enum_name prefix) prefix cs) refl

-- The generator of the source for an enum ends. It refuses, or its text holds the head of a
-- definition for each of the functions that are bound for the enum.
pub generate_c_enum_helpers_source-defined :
    (calls : Calls) (enum_name prefix : Chars) (constants : List Chars)
    → Holds
        (λ src. all_defined src (enum_helpers prefix constants) ≡ true)
        (generate_c_enum_helpers_source calls enum_name prefix constants)
unfolding generate_c_enum_helpers_source
generate_c_enum_helpers_source-defined calls enum_name prefix constants =
    Holds->>=
      (text_buf_append-Longer (nth calls 0) empty_text (sizeof_line enum_name prefix) (omega arith))
      λ first (e, small).
        Holds->>= (constant_lines-Longer (inside calls 1) 0 first prefix constants small)
          λ src (d, k). Holds-map (Holds-copied (nth calls 2) (src.text)) λ out q.
            let z : out ≡ sizeof_line enum_name prefix ++ all_lines prefix constants =
              q ∙ (d ∙ ap (λ x. x ++ all_lines prefix constants) e) in
            subst (λ x. all_defined x (enum_helpers prefix constants) ≡ true) (sym z)
              (enum_defined enum_name prefix constants)
