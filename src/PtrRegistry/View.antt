-- ===== src/PtrRegistry/View.antt =====
-- What SQL can see of the registry: the bytes behind each live handle. Lookup by handle, and what
-- removal and the changes of memory do to it.
use mathlib.Core.Path.{subst}
use mathlib.Core.Option.{some-injective}
use duck_tiny_cc.Prelude.{
  ◌==◌, if◌then◌else◌, ==_iff, Bool-cases, length, get_or, ℕ, zero, suc, ◌<◌, ◌≡◌, refl, ap, ◌∙◌,
  ◌≢◌, inl, inr, false, Option, none, some, List, [], ◌∷◌, arith,
}
use duck_tiny_cc.PtrRegistry.{Entry, Memory, Host, zero_entry, find_index}
use duck_tiny_cc.PtrRegistry.Swap.{bubble, rotate, remove_swapped}
use duck_tiny_cc.PtrRegistry.Sound.{Live, Apart, AllApart, AllSound, Apart-sym, AllApart-rotate}

abbrev pub entry_of : List Entry → ℕ → Option Entry
entry_of [] h = none
entry_of (e ∷ es) h = if e.handle == h then some e else entry_of es h

-- The abstract state: the allocation of each handle.
abbrev pub Store : Type 0
Store = ℕ → Option (List ℕ)

abbrev pub block_of : Memory → Option Entry → Option (List ℕ)
block_of m none = none
block_of m (some e) = m e.ptr

abbrev pub view : Host → Store
view s h = block_of s.memory (entry_of s.registry.entries h)

-- What the index search finds is what `entry_of` finds.
pub data Found (es : List Entry) (h : ℕ) : Type 0 where
  missing : find_index es h ≡ none → entry_of es h ≡ none → Found es h
  found :
      (i : ℕ)
      → find_index es h ≡ some i
      → i < length es
      → entry_of es h ≡ some (get_or es i zero_entry)
      → (get_or es i zero_entry).handle ≡ h
      → Found es h

Found-cons :
    (e : Entry) (es : List Entry) (h : ℕ) → (e.handle == h) ≡ false → Found es h → Found (e ∷ es) h
unfolding find_index
Found-cons e es h ne (missing p q) = missing (rw (ne, p)) (rw (ne, q))
Found-cons e es h ne (found i p lt q r) = found (suc i) (rw (ne, p)) (omega arith) (rw (ne, q)) r

pub find_index-Found : (es : List Entry) (h : ℕ) → Found es h
unfolding find_index
find_index-Found [] h = missing refl refl
find_index-Found (e ∷ es) h = elim (Bool-cases (e.handle == h)) [
  | inl y ↦ found 0 (rw y) (omega arith) (rw y) (omega (arith, (==_iff e.handle h).0 y))
  | inr n ↦ Found-cons e es h n (find_index-Found es h)
]

-- Lookup in a rearranged table.
entry_of-bubble :
    (x : Entry) (ys : List Entry) (j : ℕ)
    → AllApart x ys
    → entry_of (bubble x ys) j ≡ entry_of (x ∷ ys) j
entry_of-bubble x [] j a = refl
entry_of-bubble x (y ∷ ys) j (a, b) = ground (arith, a.handles)

entry_of-rotate :
    (m : Memory) (n : ℕ) (xs : List Entry) (j : ℕ)
    → AllSound m n xs
    → entry_of (rotate xs) j ≡ entry_of xs j
entry_of-rotate m n [] j s = refl
entry_of-rotate m n (x ∷ xs) j (l, a, rest) =
    entry_of-bubble x (rotate xs) j (AllApart-rotate x xs a)
    ∙ ap (λ o. if x.handle == j then some x else o) (entry_of-rotate m n xs j rest)

entry_of_apart : (x : Entry) (xs : List Entry) → AllApart x xs → entry_of xs x.handle ≡ none
entry_of_apart x [] a = refl
entry_of_apart x (y ∷ ys) (a, b) = ground (arith, a.handles, entry_of_apart x ys b)

Apart-get :
    (x : Entry) (xs : List Entry) (i : ℕ)
    → AllApart x xs
    → i < length xs
    → Apart x (get_or xs i zero_entry)
Apart-get x [] i a h = elim h [ ]
Apart-get x (y ∷ ys) zero (a, b) h = a
Apart-get x (y ∷ ys) (suc i) (a, b) h = Apart-get x ys i b (omega arith)

pub entry_of-remove :
    (m : Memory) (n : ℕ) (xs : List Entry) (i j : ℕ)
    → AllSound m n xs
    → i < length xs
    → entry_of (remove_swapped xs i) j
      ≡ (if (get_or xs i zero_entry).handle == j then none else entry_of xs j)
entry_of-remove m n [] i j s h = elim h [ ]
entry_of-remove m n (x ∷ xs) zero j (l, a, rest) h = elim (Bool-cases (x.handle == j)) [
  | inl e ↦ rw (e, entry_of-rotate m n xs j rest, ← (==_iff x.handle j).0 e) (entry_of_apart x xs a)
  | inr e ↦ rw (e, entry_of-rotate m n xs j rest)
]
entry_of-remove m n (x ∷ xs) (suc i) j (l, a, rest) h =
    ground (arith, entry_of-remove m n xs i j rest, (Apart-get x xs i a (omega arith)).handles)

-- Every other entry is apart from the removed one.
pub apart_removed :
    (m : Memory) (n : ℕ) (xs : List Entry) (i : ℕ)
    → AllSound m n xs
    → i < length xs
    → AllApart (get_or xs i zero_entry) (remove_swapped xs i)
apart_removed m n [] i s h = elim h [ ]
apart_removed m n (x ∷ xs) zero (l, a, rest) h = AllApart-rotate x xs a
apart_removed m n (x ∷ xs) (suc i) (l, a, rest) h =
    (Apart-sym (Apart-get x xs i a (omega arith)), apart_removed m n xs i rest (omega arith))

pub live_of :
    (m : Memory) (n : ℕ) (xs : List Entry) (j : ℕ) {e : Entry}
    → AllSound m n xs
    → entry_of xs j ≡ some e
    → Live m n e × (e.handle ≡ j)
live_of m n [] j s q = cc
live_of m n (x ∷ xs) j {e} (l, a, rest) q = elim (Bool-cases (x.handle == j)) [
  | inl y ↦
      let same : x ≡ e = some-injective x e (rw y at q) in
      (subst (Live m n) same l, subst (λ (z : Entry). z.handle ≡ j) same ((==_iff x.handle j).0 y))
  | inr y ↦ live_of m n xs j rest (rw y at q)
]

Apart-found :
    (x : Entry) (xs : List Entry) (k : ℕ) (f : Entry)
    → AllApart x xs
    → entry_of xs k ≡ some f
    → Apart x f
Apart-found x [] k f a q = cc
Apart-found x (y ∷ ys) k f (a, b) q = elim (Bool-cases (y.handle == k)) [
  | inl e ↦ subst (Apart x) (some-injective y f (rw e at q)) a
  | inr e ↦ Apart-found x ys k f b (rw e at q)
]

-- Blocks of different handles are different.
pub ptrs-Apart :
    (m : Memory) (n : ℕ) (xs : List Entry) (j k : ℕ) (e f : Entry)
    → AllSound m n xs
    → entry_of xs j ≡ some e
    → entry_of xs k ≡ some f
    → j ≢ k
    → Apart e f
ptrs-Apart m n [] j k e f s p q ne = cc
ptrs-Apart m n (x ∷ xs) j k e f (l, a, rest) p q ne = elim (Bool-cases (x.handle == j)) [
  | inl y ↦ elim (Bool-cases (x.handle == k)) [
    | inl z ↦ absurd (ne (omega (arith, (==_iff x.handle j).0 y, (==_iff x.handle k).0 z)))
    | inr z ↦
        subst (λ (w : Entry). Apart w f) (some-injective x e (rw y at p))
          (Apart-found x xs k f a (rw z at q))
  ]
  | inr y ↦ elim (Bool-cases (x.handle == k)) [
    | inl z ↦
        subst (Apart e) (some-injective x f (rw z at q))
          (Apart-sym (Apart-found x xs j e a (rw y at p)))
    | inr z ↦ ptrs-Apart m n xs j k e f rest (rw y at p) (rw z at q) ne
  ]
]
