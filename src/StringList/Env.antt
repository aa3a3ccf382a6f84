-- ===== src/StringList/Env.antt =====
-- A list of search paths as an environment variable holds it, and what is appended of it.
use duck_tiny_cc.Prelude.{
  ◌==◌, Bool-cases, length, length-append, take, ℕ, zero, suc, ◌+◌, ◌^◌, ◌≤◌, ◌<◌, ◌≡◌, refl, sym,
  ap, ◌∙◌, inl, inr, true, false, ◌||◌, some, List, [], ◌∷◌, arith,
}
use duck_tiny_cc.Strings.{Chars, trim}
use duck_tiny_cc.StringList.{
  StringList, contains_item, contains, Answer, append, append_unique, Heap, and_then, append_each,
  push_char, path_tokens, append_token, append_tokens, append_env_path_list,
}
use duck_tiny_cc.StringList.Append.{Fits, Refuses, Appends, append-Appends}
use duck_tiny_cc.StringList.Search.{
  nonempty, extend, extend_all, distinct, distinct-extend_all, contains-extend_all,
}
use duck_tiny_cc.Growth.{u64}

-- What a sequence of unique appends answers: every string of `vs` is there, or some prefix of them
-- and an allocation was refused.
abbrev pub Extends : Heap → StringList → List Chars → Answer → Type 0
Extends heap l vs (true, k) = (k.items ≡ extend_all l.items vs) × Fits k
Extends heap l vs (false, k) =
    ((n : ℕ) × (k.items ≡ extend_all l.items (take n vs))) × Fits k × ((i : ℕ) × Refuses (heap i))

append_unique-Extends :
    (heap : Heap) (l : StringList) (c : ℕ) (v : Chars)
    → Fits l
    → length l.items < 2 ^ 60
    → Extends heap l ((c ∷ v) ∷ []) (append_unique (heap 0) (heap 1) l (c ∷ v))
unfolding append_unique contains
append_unique-Extends heap l c v f small = elim (Bool-cases (contains_item l.items (c ∷ v))) [
  | inl y ↦ rw y (rw y refl, f)
  | inr n ↦ rw n (
      from (append (heap 0) (heap 1) l (c ∷ v)) n
        (append-Appends (heap 0) (heap 1) l (c ∷ v) f small))
]
  where
    from :
        (a : Answer)
        → contains_item l.items (c ∷ v) ≡ false
        → Appends (heap 0) (heap 1) l (c ∷ v) a
        → Extends heap l ((c ∷ v) ∷ []) a
    from (true, k) n (p, g) = (rw n p, g)
    from (false, k) n (p, g, inl e) = absurd (grind arith)
    from (false, k) n (p, g, inr (inl e)) = ((0, p), g, (0, e))
    from (false, k) n (p, g, inr (inr e)) = ((0, p), g, (1, e))

-- The step of a loop: what the rest answers, after one string has been added.
Extends-cons :
    (heap : Heap) (l k : StringList) (v : Chars) (vs : List Chars) (offset : ℕ) (a : Answer)
    → k.items ≡ extend l.items v
    → Extends (λ i. heap (i + offset)) k vs a
    → Extends heap l (v ∷ vs) a
Extends-cons heap l k v vs offset (true, r) p (q, g) = (q ∙ ap (λ s. extend_all s vs) p, g)
Extends-cons heap l k v vs offset (false, r) p ((n, q), g, (i, e)) =
    ((suc n, q ∙ ap (λ s. extend_all s (take n vs)) p), g, (i + offset, e))

length-extend : (ss : List Chars) (v : Chars) → length (extend ss v) ≤ length ss + 1
length-extend ss v = elim (Bool-cases (contains_item ss v)) [
  | inl y ↦ rw y (omega arith)
  | inr n ↦ rw (n, length-append ss (v ∷ [])) (omega arith)
]

take-single : (n : ℕ) (v : Chars) (vs : List Chars) → (m : ℕ) × (take m (v ∷ vs) ≡ take n (v ∷ []))
take-single zero v vs = (0, refl)
take-single (suc zero) v vs = (1, refl)
take-single (suc (suc n)) v vs = (1, refl)

-- An append and what follows it.
and_then-Extends :
    (heap : Heap) (l : StringList) (v : Chars) (vs : List Chars) (used : ℕ)
    (f : StringList → Answer) (a : Answer)
    → length l.items + length (v ∷ vs) < 2 ^ 60
    → Extends heap l (v ∷ []) a
    → ((k : StringList)
        → Fits k
        → length k.items + length vs < 2 ^ 60
        → Extends (λ i. heap (i + used)) k vs (f k))
    → Extends heap l (v ∷ vs) (and_then a f)
and_then-Extends heap l v vs used f (true, k) small (p, g) rest =
    Extends-cons heap l k v vs used (f k) p
      (rest k g (rw p (omega (arith, length-extend l.items v))))
and_then-Extends heap l v vs used f (false, k) small ((n, p), g, e) rest =
    let (m, q) = take-single n v vs in ((m, p ∙ ap (extend_all l.items) (sym q)), g, e)

-- Appending strings one after another.
pub append_each-Extends :
    (heap : Heap) (l : StringList) (vs : List Chars)
    → nonempty vs ≡ true
    → Fits l
    → length l.items + length vs < 2 ^ 60
    → Extends heap l vs (append_each heap l vs)
unfolding append_each
append_each-Extends heap l [] d f small = (refl, f)
append_each-Extends heap l ([] ∷ vs) d f small = absurd (grind arith)
append_each-Extends heap l ((c ∷ v) ∷ vs) d f small =
    and_then-Extends heap l (c ∷ v) vs 2 (λ k. append_each (λ i. heap (i + 2)) k vs)
      (append_unique (heap 0) (heap 1) l (c ∷ v)) small
      (append_unique-Extends heap l c v f (omega arith))
      (λ k g s. append_each-Extends (λ i. heap (i + 2)) k vs d g s)

-- The trimmed tokens that are not empty.
abbrev pub keep : Chars → List Chars → List Chars
keep [] vs = vs
keep (c ∷ v) vs = (c ∷ v) ∷ vs

abbrev pub clean : List Chars → List Chars
clean [] = []
clean (t ∷ ts) = keep (trim t) (clean ts)

length-keep : (v : Chars) (vs : List Chars) → length (keep v vs) ≤ suc (length vs)
length-keep [] vs = omega arith
length-keep (c ∷ v) vs = omega arith

length-clean : (ts : List Chars) → length (clean ts) ≤ length ts
length-clean [] = omega arith
length-clean (t ∷ ts) = omega (arith, length-keep (trim t) (clean ts), length-clean ts)

-- The allocations that `o` others precede.
Extends-later :
    (heap : Heap) (l : StringList) (vs : List Chars) (o : ℕ) (a : Answer)
    → Extends (λ i. heap (i + o)) l vs a
    → Extends heap l vs a
Extends-later heap l vs o (true, k) e = e
Extends-later heap l vs o (false, k) (p, g, (i, e)) = (p, g, (i + o, e))

-- What the rest of a loop over `vs` answers wherever it starts.
abbrev Goes : List Chars → (Heap → StringList → Answer) → Type 0
Goes vs rest =
    (h : Heap) (k : StringList)
    → Fits k
    → length k.items + length vs < 2 ^ 60
    → Extends h k vs (rest h k)

token-Extends :
    (heap : Heap) (l : StringList) (v : Chars) (vs : List Chars) (rest : Heap → StringList → Answer)
    → Fits l
    → length l.items + length (keep v vs) < 2 ^ 60
    → Goes vs rest
    → Extends heap l (keep v vs) (append_token heap l v rest)
token-Extends heap l [] vs rest f small go = go heap l f small
token-Extends heap l (c ∷ v) vs rest f small go =
    elim (Bool-cases (heap 0 (u64 (length (c ∷ v) + 1)))) [
      | inl y ↦ rw y (
          and_then-Extends heap l (c ∷ v) vs 3 (rest (λ i. heap (i + 3)))
            (append_unique (heap 1) (heap 2) l (c ∷ v)) small
            (Extends-later heap l ((c ∷ v) ∷ []) 1 (append_unique (heap 1) (heap 2) l (c ∷ v))
              (append_unique-Extends (λ i. heap (i + 1)) l c v f (omega arith)))
            (λ k g s. go (λ i. heap (i + 3)) k g s))
      | inr n ↦ rw n ((0, refl), f, (0, (u64 (length (c ∷ v) + 1), n)))
    ]

tokens-Extends : (ts : List Chars) → Goes (clean ts) (λ h k. append_tokens h k ts)
unfolding append_tokens
tokens-Extends [] heap l f small = (refl, f)
tokens-Extends (t ∷ ts) heap l f small =
    token-Extends heap l (trim t) (clean ts) (λ h k. append_tokens h k ts) f small
      (tokens-Extends ts)

length-path_tokens : (s : Chars) → length (path_tokens s) ≤ length s + 1
unfolding path_tokens
length-path_tokens [] = omega arith
length-path_tokens (c ∷ s) = elim (Bool-cases (c == 58)) [
  | inl y ↦ rw y (omega (arith, length-path_tokens s))
  | inr n ↦ rw n (omega (arith, length-push (path_tokens s), length-path_tokens s))
]
  where
    length-push : (ts : List Chars) → length (push_char c ts) ≤ length ts + 1
    length-push [] = omega arith
    length-push (t ∷ ts) = omega arith

-- Appending the value of an environment variable to a list of search paths adds its tokens between
-- colons, trimmed, in order, each once and no empty one. Where an allocation is refused it adds some
-- first part of them. It fails for no other reason.
pub append_env_path_list-Extends :
    (heap : Heap) (l : StringList) (c : ℕ) (s : Chars)
    → Fits l
    → length l.items + length s < 2 ^ 59
    → Extends heap l (clean (path_tokens (c ∷ s))) (append_env_path_list heap l (some (c ∷ s)))
unfolding append_env_path_list
append_env_path_list-Extends heap l c s f small =
    tokens-Extends (path_tokens (c ∷ s)) heap l f
      (omega (arith, length-clean (path_tokens (c ∷ s)), length-path_tokens (c ∷ s)))

-- Which strings the list has afterwards: those it had and the tokens, each once.
abbrev pub Searches : StringList → List Chars → Chars → Answer → Type 0
Searches l vs w (true, k) =
    (contains_item k.items w ≡ (contains_item l.items w || contains_item vs w))
    × (distinct k.items ≡ true)
Searches l vs w (false, k) = distinct k.items ≡ true

Searches-Extends :
    (heap : Heap) (l : StringList) (vs : List Chars) (w : Chars) (a : Answer)
    → distinct l.items ≡ true
    → Extends heap l vs a
    → Searches l vs w a
Searches-Extends heap l vs w (true, k) d (p, g) =
    (rw p (contains-extend_all l.items vs w), rw p (distinct-extend_all l.items vs d))
Searches-Extends heap l vs w (false, k) d ((n, p), g, e) =
    rw p (distinct-extend_all l.items (take n vs) d)

-- A list of search paths without repetitions stays one when the value of an environment variable is
-- appended to it, and where that succeeds a path is in it exactly if it was before or is one of the
-- trimmed tokens.
pub append_env_path_list-Searches :
    (heap : Heap) (l : StringList) (c : ℕ) (s w : Chars)
    → Fits l
    → distinct l.items ≡ true
    → length l.items + length s < 2 ^ 59
    → Searches l (clean (path_tokens (c ∷ s))) w (append_env_path_list heap l (some (c ∷ s)))
append_env_path_list-Searches heap l c s w f d small =
    Searches-Extends heap l (clean (path_tokens (c ∷ s))) w
      (append_env_path_list heap l (some (c ∷ s))) d
      (append_env_path_list-Extends heap l c s f small)
