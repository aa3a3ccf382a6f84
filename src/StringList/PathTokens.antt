-- ===== src/StringList/PathTokens.antt =====
-- The tokens between the colons of a list of paths.
use duck_tiny_cc.Prelude.{
  ◌==◌, ==_iff, Bool-cases, ℕ, ◌≡◌, refl, inl, inr, Bool, true, false, not, ◌&&◌, List, [], ◌∷◌,
  ◌++◌, arith,
}
use duck_tiny_cc.Strings.{Chars, has_char}
use duck_tiny_cc.StringList.{push_char, path_tokens}

-- The paths between the colons of a string.
abbrev pub join_paths : List Chars → Chars
join_paths [] = []
join_paths (t ∷ []) = t
join_paths (t ∷ u ∷ ts) = t ++ 58 ∷ join_paths (u ∷ ts)

abbrev pub is_cons : List Chars → Bool
is_cons [] = false
is_cons (t ∷ ts) = true

abbrev pub colon_free : List Chars → Bool
colon_free [] = true
colon_free (t ∷ ts) = not (has_char 58 t) && colon_free ts

push-is_cons : (c : ℕ) (ts : List Chars) → is_cons (push_char c ts) ≡ true
push-is_cons c [] = refl
push-is_cons c (t ∷ ts) = refl

path_tokens-is_cons : (s : Chars) → is_cons (path_tokens s) ≡ true
unfolding path_tokens
path_tokens-is_cons [] = refl
path_tokens-is_cons (c ∷ s) = elim (Bool-cases (c == 58)) [
  | inl y ↦ rw y refl
  | inr n ↦ rw n (push-is_cons c (path_tokens s))
]

join-push :
    (c : ℕ) (ts : List Chars) → is_cons ts ≡ true → join_paths (push_char c ts) ≡ c ∷ join_paths ts
join-push c [] h = absurd (grind arith)
join-push c (t ∷ []) h = refl
join-push c (t ∷ u ∷ ts) h = refl

join-colon : (ts : List Chars) → is_cons ts ≡ true → join_paths ([] ∷ ts) ≡ 58 ∷ join_paths ts
join-colon [] h = absurd (grind arith)
join-colon (t ∷ ts) h = refl

colon_free-push :
    (c : ℕ) (ts : List Chars)
    → (c == 58) ≡ false
    → colon_free ts ≡ true
    → colon_free (push_char c ts) ≡ true
unfolding has_char
colon_free-push c [] n h = rw n refl
colon_free-push c (t ∷ ts) n h = rw n h

join-path_tokens : (s : Chars) → join_paths (path_tokens s) ≡ s
unfolding path_tokens
join-path_tokens [] = refl
join-path_tokens (c ∷ s) = elim (Bool-cases (c == 58)) [
  | inl y ↦
      rw
        (
          y,
          join-colon (path_tokens s) (path_tokens-is_cons s),
          join-path_tokens s,
          (==_iff c 58).0 y,
        )
        refl
  | inr n ↦ rw (n, join-push c (path_tokens s) (path_tokens-is_cons s), join-path_tokens s) refl
]

colon_free-path_tokens : (s : Chars) → colon_free (path_tokens s) ≡ true
unfolding path_tokens has_char
colon_free-path_tokens [] = refl
colon_free-path_tokens (c ∷ s) = elim (Bool-cases (c == 58)) [
  | inl y ↦ rw y (colon_free-path_tokens s)
  | inr n ↦ rw n (colon_free-push c (path_tokens s) n (colon_free-path_tokens s))
]

-- The tokens of a list of paths hold no colon and, joined by colons, are the list again.
pub path_tokens_lem :
    (s : Chars) → (join_paths (path_tokens s) ≡ s) × (colon_free (path_tokens s) ≡ true)
path_tokens_lem s = (join-path_tokens s, colon_free-path_tokens s)
