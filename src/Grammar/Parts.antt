-- ===== src/Grammar/Parts.antt =====
-- What the parts of a string are.
use duck_tiny_cc.Prelude.{
  ◌==◌, ==_iff, Bool-cases, length, length-append, ℕ, zero, suc, ◌+◌, ◌≤◌, ◌<◌, ◌≡◌, refl, ap, inl,
  inr, true, false, Option, none, some, List, [], ◌∷◌, ◌++◌, arith,
}
use duck_tiny_cc.Strings.{Chars}
use duck_tiny_cc.Grammar.{
  angle_after, square_after, is_break, Part, part_from, next_top_level_part, find_from,
  find_top_level_char, put_first, parts_after, all_parts,
}

-- A part has no separator at top level, and what follows it begins after one.
abbrev pub Splits : ℕ → ℕ → ℕ → Chars → Part → Type 0
Splits sep angle square s (p, none) = (p ≡ s) × (find_from sep angle square p ≡ none)
Splits sep angle square s (p, some t) = (s ≡ p ++ sep ∷ t) × (find_from sep angle square p ≡ none)

break-sep : (sep angle square c : ℕ) → is_break sep angle square c ≡ true → c ≡ sep
break-sep sep angle square c h = elim (Bool-cases (c == sep)) [
  | inl e ↦ (==_iff c sep).0 e
  | inr e ↦ absurd (grind arith)
]

Splits-cons :
    (sep angle square c : ℕ) (s : Chars) (r : Part)
    → is_break sep angle square c ≡ false
    → Splits sep (angle_after c angle) (square_after c square) s r
    → Splits sep angle square (c ∷ s) (c ∷ r.0, r.1)
unfolding find_from
Splits-cons sep angle square c s (p, none) n (q, f) = (ap (λ x. c ∷ x) q, rw (n, f) refl)
Splits-cons sep angle square c s (p, some t) n (q, f) = (ap (λ x. c ∷ x) q, rw (n, f) refl)

pub part_from-Splits :
    (sep : ℕ) (s : Chars) (angle square : ℕ)
    → Splits sep angle square s (part_from sep angle square s)
unfolding part_from find_from
part_from-Splits sep [] angle square = (refl, refl)
part_from-Splits sep (c ∷ s) angle square = elim (Bool-cases (is_break sep angle square c)) [
  | inl y ↦ rw y (ap (λ x. x ∷ s) (break-sep sep angle square c y), refl)
  | inr n ↦ rw n (
      Splits-cons sep angle square c s
        (part_from sep (angle_after c angle) (square_after c square) s) n
        (part_from-Splits sep s (angle_after c angle) (square_after c square)))
]

abbrev pub join : ℕ → List Chars → Chars
join sep [] = []
join sep (t ∷ []) = t
join sep (t ∷ u ∷ ts) = t ++ sep ∷ join sep (u ∷ ts)

-- No part holds the separator at top level.
abbrev pub Whole : ℕ → List Chars → Type 0
Whole sep [] = 0 ≤ 0
Whole sep (p ∷ ps) = (find_top_level_char p sep ≡ none) × Whole sep ps

-- Some parts, of which there is at least one.
abbrev pub PartsOf : ℕ → Chars → Option (List Chars) → Type 0
PartsOf sep s none = ⊥
PartsOf sep s (some []) = ⊥
PartsOf sep s (some (p ∷ ps)) = (join sep (p ∷ ps) ≡ s) × Whole sep (p ∷ ps)

PartsOf-put_first :
    (sep : ℕ) (p t : Chars) (o : Option (List Chars))
    → find_top_level_char p sep ≡ none
    → PartsOf sep t o
    → PartsOf sep (p ++ sep ∷ t) (put_first p o)
PartsOf-put_first sep p t none f h = h
PartsOf-put_first sep p t (some []) f h = absurd h
PartsOf-put_first sep p t (some (q ∷ qs)) f (e, w) = (ap (λ x. p ++ sep ∷ x) e, (f, w))

-- With a round of fuel for each byte and one more, the loop over the parts ends. Joined by the
-- separator they are the string again, and none of them holds the separator outside brackets.
pub all_parts-PartsOf :
    (sep fuel : ℕ) (s : Chars) → length s < fuel → PartsOf sep s (all_parts fuel sep s)
unfolding all_parts next_top_level_part find_top_level_char
all_parts-PartsOf sep zero s h = absurd (omega arith)
all_parts-PartsOf sep (suc fuel) s h =
    from (part_from sep 0 0 s) (part_from-Splits sep s 0 0) (λ t k. all_parts-PartsOf sep fuel t k)
  where
    from :
        (r : Part)
        → Splits sep 0 0 s r
        → ((t : Chars) → length t < fuel → PartsOf sep t (all_parts fuel sep t))
        → PartsOf sep s (parts_after (all_parts fuel sep) r)
    from (p, none) (e, f) rest = (e, (f, omega arith))
    from (p, some t) (e, f) rest =
        let n : length s ≡ length p + suc (length t) = rw e (length-append p (sep ∷ t)) in
        rw e (PartsOf-put_first sep p t (all_parts fuel sep t) f (rest t (omega arith)))
