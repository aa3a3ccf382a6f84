-- ===== src/Strings/Laws.antt =====
-- What the string helpers compute.
use duck_tiny_cc.Prelude.{
  ◌==◌, ==_iff, Bool-cases, length, length-append, ℕ, ◌-◌, ◌≤◌, ◌≡◌, refl, sym, ap, ◌∙◌, inl, inr,
  Bool, true, not, [], ◌∷◌, ◌++◌, arith,
}
use duck_tiny_cc.Strings.{
  Chars, same, is_space, skip_space, trim_end, trim, last_or, all_chars, init,
}

pub same_refl : (a : Chars) → same a a ≡ true
unfolding same
same_refl [] = refl
same_refl (c ∷ a) = rw (same_refl a) (ground arith)

pub same→≡ : (a b : Chars) → same a b ≡ true → a ≡ b
unfolding same
same→≡ [] [] h = refl
same→≡ [] (d ∷ b) h = grind arith
same→≡ (c ∷ a) [] h = grind arith
same→≡ (c ∷ a) (d ∷ b) h = elim (Bool-cases (c == d)) [
  | inl e ↦
      let q : c ≡ d = (==_iff c d).0 e in
      let r : same a b ≡ true = grind arith in cc (q, same→≡ a b r)
  | inr e ↦ grind arith
]

pub same-sym : (a b : Chars) → same a b ≡ same b a
unfolding same
same-sym [] [] = refl
same-sym [] (d ∷ b) = refl
same-sym (c ∷ a) [] = refl
same-sym (c ∷ a) (d ∷ b) = rw (same-sym a b) (ground arith)

-- The last char of what is trimmed is no space, and neither is the first.
abbrev pub starts_dark : Chars → Bool
starts_dark [] = true
starts_dark (c ∷ s) = not (is_space c)

abbrev pub ends_dark : Chars → Bool
ends_dark [] = true
ends_dark (c ∷ s) = not (is_space (last_or c s))

skip_space-dark : (s : Chars) → starts_dark (skip_space s) ≡ true
unfolding skip_space
skip_space-dark [] = refl
skip_space-dark (c ∷ s) = elim (Bool-cases (is_space c)) [
  | inl e ↦ rw e (skip_space-dark s)
  | inr e ↦ rw (e, e) refl
]

-- What `trim_end` keeps of a string: a prefix that ends in no space, the rest being spaces.
abbrev TrimmedEnd : Chars → Chars → Type 0
TrimmedEnd s t = (ends_dark t ≡ true) × ((b : Chars) × (all_chars is_space b ≡ true) × (s ≡ t ++ b))

trim_end-cons :
    (c : ℕ) (s t : Chars) → trim_end s ≡ t → TrimmedEnd s t → TrimmedEnd (c ∷ s) (trim_end (c ∷ s))
unfolding trim_end
trim_end-cons c s [] e (h, (b, k, p)) = elim (Bool-cases (is_space c)) [
  | inl y ↦ rw (e, y) (refl, (c ∷ b, rw y k, ap (λ r. c ∷ r) p))
  | inr n ↦ rw (e, n) (rw n refl, (b, k, ap (λ r. c ∷ r) p))
]
trim_end-cons c s (d ∷ t) e (h, (b, k, p)) = rw e (h, (b, k, ap (λ r. c ∷ r) p))

trim_end-TrimmedEnd : (s : Chars) → TrimmedEnd s (trim_end s)
unfolding trim_end
trim_end-TrimmedEnd [] = (refl, ([], refl, refl))
trim_end-TrimmedEnd (c ∷ s) = trim_end-cons c s (trim_end s) refl (trim_end-TrimmedEnd s)

abbrev SpacesBefore : Chars → Chars → Type 0
SpacesBefore s t = (a : Chars) × (all_chars is_space a ≡ true) × (s ≡ a ++ t)

skip_space-SpacesBefore : (s : Chars) → SpacesBefore s (skip_space s)
unfolding skip_space
skip_space-SpacesBefore [] = ([], refl, refl)
skip_space-SpacesBefore (c ∷ s) = elim (Bool-cases (is_space c)) [
  | inl y ↦ let (a, k, p) = skip_space-SpacesBefore s in rw y (c ∷ a, rw y k, ap (λ r. c ∷ r) p)
  | inr n ↦ rw n ([], refl, refl)
]

starts_prefix : (t b : Chars) → starts_dark (t ++ b) ≡ true → starts_dark t ≡ true
starts_prefix [] b h = refl
starts_prefix (c ∷ t) b h = h

trim_end-starts : (s : Chars) → starts_dark s ≡ true → starts_dark (trim_end s) ≡ true
trim_end-starts s h =
    let (k, (b, kb, q)) = trim_end-TrimmedEnd s in
    starts_prefix (trim_end s) b (sym (ap starts_dark q) ∙ h)

-- `tcc_trim_inplace` takes away spaces only, on both sides, and leaves none at either end.
pub trim_lem :
    (s : Chars)
    → (starts_dark (trim s) ≡ true)
      × (ends_dark (trim s) ≡ true)
      × ((a b : Chars) × (all_chars is_space a ≡ true)
          × (all_chars is_space b ≡ true)
          × (s ≡ a ++ (trim s ++ b)))
unfolding trim
trim_lem s =
    let (a, ka, p) = skip_space-SpacesBefore s in
    let (h, (b, kb, q)) = trim_end-TrimmedEnd (skip_space s) in
    (trim_end-starts (skip_space s) (skip_space-dark s), h, (a, b, ka, kb, p ∙ ap (λ r. a ++ r) q))

pub length-init : (s : Chars) → length (init s) ≡ length s - 1
length-init [] = refl
length-init (c ∷ []) = omega arith
length-init (c ∷ d ∷ s) = omega (arith, length-init (d ∷ s))

pub length-trim : (s : Chars) → length (trim s) ≤ length s
length-trim s =
    let (p, q, (a, b, ka, kb, e)) = trim_lem s in
    omega (arith, ap length e, length-append a (trim s ++ b), length-append (trim s) b)
