-- ===== src/Grammar/Tokenize.antt =====
-- The tokens of a comma-separated list.
use duck_tiny_cc.Prelude.{
  ◌==◌, Bool-cases, length, length-append, ℕ, suc, ◌+◌, ◌^◌, ◌≤◌, ◌<◌, ◌≡◌, refl, sym, ap, ◌∙◌, ◌⊎◌,
  inl, inr, Bool, true, false, ◌||◌, Option, none, some, List, [], ◌∷◌, ◌++◌, arith,
}
use duck_tiny_cc.Growth.{u64}
use duck_tiny_cc.Strings.{Chars, trim}
use duck_tiny_cc.StringList.{StringList, empty_list, Answer, append, Heap}
use duck_tiny_cc.StringList.Append.{Fits, Refuses, Appends, append-Appends}
use duck_tiny_cc.Session.{strdup}
use duck_tiny_cc.Grammar.{
  all_parts, Csv, tokenized, rejected, add_part, take_token, take_tokens, csv_parts,
  split_csv_tokens,
}
use duck_tiny_cc.Grammar.Parts.{join, PartsOf, all_parts-PartsOf}
use duck_tiny_cc.Grammar.Cuts.{Cut, ClosedOf, all_parts-ClosedOf}

abbrev pub has_blank : List Chars → Bool
has_blank [] = false
has_blank (p ∷ ps) = (length (trim p) == 0) || has_blank ps

abbrev pub trim_all : List Chars → List Chars
trim_all [] = []
trim_all (p ∷ ps) = trim p ∷ trim_all ps

-- What the loop over the parts answers: every part, trimmed, or an error for a part that is blank or
-- for an allocation that was refused.
abbrev pub Takes : Heap → StringList → List Chars → Csv → Type 0
Takes heap l ps (tokenized k) = (k.items ≡ l.items ++ trim_all ps) × (has_blank ps ≡ false)
Takes heap l ps (rejected text) = (has_blank ps ≡ true) ⊎ ((i : ℕ) × Refuses (heap i))

append_assoc : (xs : List Chars) (y : Chars) (zs : List Chars) → (xs ++ y ∷ []) ++ zs ≡ xs ++ y ∷ zs
append_assoc [] y zs = refl
append_assoc (x ∷ xs) y zs = ap (λ r. x ∷ r) (append_assoc xs y zs)

append_nil : (xs : List Chars) → xs ++ [] ≡ xs
append_nil [] = refl
append_nil (x ∷ xs) = ap (λ r. x ∷ r) (append_nil xs)

-- The step of the loop, for a trimmed part that is not empty.
Takes-cons :
    (heap : Heap) (l k : StringList) (p : Chars) (ps : List Chars) (r : Csv)
    → (length (trim p) == 0) ≡ false
    → k.items ≡ l.items ++ trim p ∷ []
    → Takes (λ i. heap (i + 2)) k ps r
    → Takes heap l (p ∷ ps) r
Takes-cons heap l k p ps (tokenized j) n e (q, b) = (
  q ∙ (ap (λ x. x ++ trim_all ps) e ∙ append_assoc l.items (trim p) (trim_all ps)),
  rw (n, b) refl,
)
Takes-cons heap l k p ps (rejected text) n e (inl b) = inl (rw (n, b) refl)
Takes-cons heap l k p ps (rejected text) n e (inr (i, h)) = inr (i + 2, h)

-- What follows a token, wherever it starts.
abbrev Goes : List Chars → (StringList → Csv) → Heap → Type 0
Goes ps rest heap =
    (k : StringList)
    → Fits k
    → length k.items + length ps < 2 ^ 60
    → Takes (λ i. heap (i + 2)) k ps (rest k)

token-Takes :
    (heap : Heap) (l : StringList) (p : Chars) (ps : List Chars) (v : Chars)
    (rest : StringList → Csv)
    → trim p ≡ v
    → Fits l
    → length l.items + length (p ∷ ps) < 2 ^ 60
    → Goes ps rest heap
    → Takes heap l (p ∷ ps) (take_token heap l v rest)
token-Takes heap l p ps [] rest e f small go = inl (rw e refl)
token-Takes heap l p ps (c ∷ v) rest e f small go =
    from (append (heap 0) (heap 1) l (c ∷ v))
      (append-Appends (heap 0) (heap 1) l (c ∷ v) f (omega arith))
  where
    full : (length (trim p) == 0) ≡ false
    full = rw e (ground arith)

    from :
        (a : Answer)
        → Appends (heap 0) (heap 1) l (c ∷ v) a
        → Takes heap l (p ∷ ps) (add_part l (c ∷ v) a rest)
    from (true, k) (q, g) =
        Takes-cons heap l k p ps (rest k) full (rw e q)
          (go k g (rw (q, length-append l.items ((c ∷ v) ∷ [])) (omega arith)))
    from (false, k) (q, g, inl z) = absurd (grind arith)
    from (false, k) (q, g, inr (inl z)) = inr (0, z)
    from (false, k) (q, g, inr (inr z)) = inr (1, z)

take_tokens-Takes :
    (ps : List Chars) (heap : Heap) (l : StringList)
    → Fits l
    → length l.items + length ps < 2 ^ 60
    → Takes heap l ps (take_tokens heap l ps)
unfolding take_tokens
take_tokens-Takes [] heap l f small = (sym (append_nil l.items), refl)
take_tokens-Takes (p ∷ ps) heap l f small =
    token-Takes heap l p ps (trim p) (λ k. take_tokens (λ i. heap (i + 2)) k ps) refl f small
      (λ k g s. take_tokens-Takes ps (λ i. heap (i + 2)) k g s)

-- What the tokens of a string are, by any list of its parts.
abbrev pub Tokenizes : Heap → Chars → Csv → Type 0
Tokenizes heap s (tokenized k) =
    (ps : List Chars) × Cut 44 s ps × (k.items ≡ trim_all ps) × (has_blank ps ≡ false)
Tokenizes heap s (rejected text) =
    ((ps : List Chars) × Cut 44 s ps × (has_blank ps ≡ true)) ⊎ ((i : ℕ) × Refuses (heap i))

Tokenizes-Takes :
    (heap : Heap) (s : Chars) (ps : List Chars) (r : Csv)
    → Cut 44 s ps
    → Takes (λ i. heap (i + 1)) empty_list ps r
    → Tokenizes heap s r
Tokenizes-Takes heap s ps (tokenized k) e (q, b) = (ps, e, q, b)
Tokenizes-Takes heap s ps (rejected text) e (inl b) = inl (ps, e, b)
Tokenizes-Takes heap s ps (rejected text) e (inr (i, h)) = inr (i + 1, h)

pub length-join : (sep : ℕ) (ps : List Chars) → length ps ≤ length (join sep ps) + 1
length-join sep [] = omega arith
length-join sep (p ∷ []) = omega arith
length-join sep (p ∷ q ∷ qs) =
    omega (arith, length-append p (sep ∷ join sep (q ∷ qs)), length-join sep (q ∷ qs))

-- A list of fewer than 2 ^ 59 bytes is split at exactly the commas outside brackets: joined by commas
-- the parts are the list again, none holds such a comma, and each but the last closes the brackets
-- that it opens. The tokens are the trimmed parts. It fails only where a part is blank or an
-- allocation is refused, and no list with a blank part passes.
pub split_csv_tokens-Tokenizes :
    (heap : Heap) (c : ℕ) (s : Chars)
    → length s < 2 ^ 59
    → Tokenizes heap (c ∷ s) (split_csv_tokens heap (some (c ∷ s)))
unfolding split_csv_tokens strdup
split_csv_tokens-Tokenizes heap c s small = elim (Bool-cases (heap 0 (u64 (length (c ∷ s) + 1)))) [
  | inr n ↦ rw n (inr (0, (u64 (length (c ∷ s) + 1), n)))
  | inl y ↦ rw y (
      from (all_parts (length (c ∷ s) + 1) 44 (c ∷ s))
        (all_parts-PartsOf 44 (length (c ∷ s) + 1) (c ∷ s) (omega arith))
        (all_parts-ClosedOf 44 (length (c ∷ s) + 1) (c ∷ s)))
]
  where
    from :
        (o : Option (List Chars))
        → PartsOf 44 (c ∷ s) o
        → ClosedOf o
        → Tokenizes heap (c ∷ s) (csv_parts (λ i. heap (i + 1)) o)
    from none h d = absurd h
    from (some []) h d = absurd h
    from (some (p ∷ ps)) (e, w) d =
        let n : length (join 44 (p ∷ ps)) ≡ suc (length s) = ap length e in
        Tokenizes-Takes heap (c ∷ s) (p ∷ ps) (take_tokens (λ i. heap (i + 1)) empty_list (p ∷ ps))
          (e, w, d)
          (take_tokens-Takes (p ∷ ps) (λ i. heap (i + 1)) empty_list (omega arith, omega arith)
            (omega (arith, length-join 44 (p ∷ ps))))
