-- ===== src/Grammar/Cuts.antt =====
-- Where the string is cut into parts: every separator that was taken out stood outside brackets. With
-- that, the parts of a string are determined.
use duck_tiny_cc.Prelude.{
  ◌==◌, if◌then◌else◌, Bool-cases, length, length-append, ℕ, zero, suc, ◌+◌, ◌-◌, ◌<◌, ◌≡◌, refl,
  ap, inl, inr, true, false, Option, none, some, List, [], ◌∷◌, ◌++◌, arith,
}
use duck_tiny_cc.Strings.{Chars}
use mathlib.Core.Option
use duck_tiny_cc.Grammar.{
  angle_after, square_after, is_bracket, is_break, Part, part_from, next_top_level_part, find_from,
  find_top_level_char, put_first, parts_after, all_parts,
}
use duck_tiny_cc.Grammar.Parts.{join, Whole}

-- The depth behind a byte, for one pair of brackets; a closing one too many is passed over.
abbrev nest : ℕ → ℕ → ℕ → ℕ → ℕ
nest opening closing c depth =
    if c == opening then depth + 1 else if c == closing then depth - 1 else depth

-- The depths of `<...>` and of `[...]` behind a string.
abbrev pub depths : ℕ → ℕ → Chars → ℕ × ℕ
depths angle square [] = (angle, square)
depths angle square (c ∷ s) = depths (nest 60 62 c angle) (nest 91 93 c square) s

-- Every part that a separator follows closes the brackets it opens.
abbrev pub Closed : List Chars → Type 0
Closed [] = Unit {0}
Closed (p ∷ []) = Unit {0}
Closed (p ∷ q ∷ ps) = (depths 0 0 p ≡ (0, 0)) × Closed (q ∷ ps)

-- The parts that a string is cut into at the separators outside brackets.
abbrev pub Cut : ℕ → Chars → List Chars → Type 0
Cut sep s ps = (join sep ps ≡ s) × Whole sep ps × Closed ps

abbrev Closes : ℕ → ℕ → Part → Type 0
Closes angle square (p, none) = Unit {0}
Closes angle square (p, some t) = depths angle square p ≡ (0, 0)

Closes-cons :
    (angle square c : ℕ) (r : Part)
    → Closes (angle_after c angle) (square_after c square) r
    → Closes angle square (c ∷ r.0, r.1)
Closes-cons angle square c (p, none) h = tt
Closes-cons angle square c (p, some t) h = h

is_break-outside :
    (sep angle square c : ℕ) → is_break sep angle square c ≡ true → (angle ≡ 0) × (square ≡ 0)
is_break-outside sep angle square c h = ground arith

part_from-Closes :
    (sep : ℕ) (s : Chars) (angle square : ℕ) → Closes angle square (part_from sep angle square s)
unfolding part_from
part_from-Closes sep [] angle square = tt
part_from-Closes sep (c ∷ s) angle square = elim (Bool-cases (is_break sep angle square c)) [
  | inl y ↦ let (a, b) = is_break-outside sep angle square c y in rw (y, a, b) refl
  | inr n ↦ rw n (
      Closes-cons angle square c (part_from sep (angle_after c angle) (square_after c square) s)
        (part_from-Closes sep s (angle_after c angle) (square_after c square)))
]

abbrev pub ClosedOf : Option (List Chars) → Type 0
ClosedOf none = Unit {0}
ClosedOf (some ps) = Closed ps

ClosedOf-put_first :
    (p : Chars) (o : Option (List Chars))
    → depths 0 0 p ≡ (0, 0)
    → ClosedOf o
    → ClosedOf (put_first p o)
ClosedOf-put_first p none h k = tt
ClosedOf-put_first p (some []) h k = tt
ClosedOf-put_first p (some (q ∷ qs)) h k = (h, k)

pub all_parts-ClosedOf : (sep fuel : ℕ) (s : Chars) → ClosedOf (all_parts fuel sep s)
unfolding all_parts next_top_level_part
all_parts-ClosedOf sep zero s = tt
all_parts-ClosedOf sep (suc fuel) s =
    from (part_from sep 0 0 s) (part_from-Closes sep s 0 0) λ t. all_parts-ClosedOf sep fuel t
  where
    from :
        (r : Part)
        → Closes 0 0 r
        → ((t : Chars) → ClosedOf (all_parts fuel sep t))
        → ClosedOf (parts_after (all_parts fuel sep) r)
    from (p, none) h rest = tt
    from (p, some t) h rest = ClosedOf-put_first p (all_parts fuel sep t) h (rest t)

rest_none : (o : Option ℕ) → Option.map suc o ≡ none → o ≡ none
rest_none none h = refl
rest_none (some i) h = cc h

eq_self : (n : ℕ) → (n == n) ≡ true
eq_self n = ground arith

-- A part that ends outside brackets, before a separator, is what the scan finds.
part_from-join :
    (sep : ℕ) (p t : Chars) (angle square : ℕ)
    → is_bracket sep ≡ false
    → find_from sep angle square p ≡ none
    → depths angle square p ≡ (0, 0)
    → part_from sep angle square (p ++ sep ∷ t) ≡ (p, some t)
unfolding part_from find_from
part_from-join sep [] t angle square plain f d =
    let a : angle ≡ 0 = ap (λ x. x.0) d in
    let b : square ≡ 0 = ap (λ x. x.1) d in rw (a, b, plain, eq_self sep) refl
part_from-join sep (c ∷ p) t angle square plain f d =
    elim (Bool-cases (is_break sep angle square c)) [
      | inl y ↦ cc (rw y at f)
      | inr n ↦
          rw
            (
              n,
              part_from-join sep p t (angle_after c angle) (square_after c square) plain
                  (rest_none (find_from sep (angle_after c angle) (square_after c square) p)
                    (rw n at f))
                  d,
            )
            refl
    ]

part_from-last :
    (sep : ℕ) (p : Chars) (angle square : ℕ)
    → find_from sep angle square p ≡ none
    → part_from sep angle square p ≡ (p, none)
unfolding part_from find_from
part_from-last sep [] angle square f = refl
part_from-last sep (c ∷ p) angle square f = elim (Bool-cases (is_break sep angle square c)) [
  | inl y ↦ cc (rw y at f)
  | inr n ↦
      rw
        (
          n,
          part_from-last sep p (angle_after c angle) (square_after c square) (
              rest_none (find_from sep (angle_after c angle) (square_after c square) p)
                (rw n at f)),
        )
        refl
]

-- The parts of a string are determined: whatever strings none of which holds the separator outside
-- brackets, and all of which but the last close their brackets, give the string when they are joined
-- by the separator, the loop over the parts finds exactly these. It takes a round of fuel for each
-- byte and one more, and a separator that is no bracket.
pub all_parts-join :
    (sep fuel : ℕ) (p : Chars) (ps : List Chars)
    → is_bracket sep ≡ false
    → length (join sep (p ∷ ps)) < fuel
    → Whole sep (p ∷ ps)
    → Closed (p ∷ ps)
    → all_parts fuel sep (join sep (p ∷ ps)) ≡ some (p ∷ ps)
unfolding all_parts next_top_level_part find_top_level_char
all_parts-join sep zero p ps plain h w d = absurd (omega arith)
all_parts-join sep (suc fuel) p [] plain h (f, w) d = rw (part_from-last sep p 0 0 f) refl
all_parts-join sep (suc fuel) p (q ∷ qs) plain h (f, w) (d, ds) =
    let n : length (p ++ sep ∷ join sep (q ∷ qs)) ≡ length p + suc (length (join sep (q ∷ qs))) =
      length-append p (sep ∷ join sep (q ∷ qs)) in
    rw
      (
        part_from-join sep p (join sep (q ∷ qs)) 0 0 plain f d,
        all_parts-join sep fuel q qs plain (omega (arith, n, h)) w ds,
      )
      refl
