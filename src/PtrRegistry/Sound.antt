-- ===== src/PtrRegistry/Sound.antt =====
-- The representation invariant of the registry, and the lemmas that keep it.
use duck_tiny_cc.Prelude.{
  length, ℕ, zero, suc, ◌≤◌, ◌<◌, ◌≡◌, refl, sym, ap, ◌∙◌, ◌≢◌, true, some, List, [], ◌∷◌, ◌++◌,
  arith,
}
use duck_tiny_cc.PtrRegistry.{Entry, Memory, Host}
use duck_tiny_cc.PtrRegistry.Swap.{bubble, rotate, remove_swapped}

-- An entry owns a block of its size, and its handle has been given out.
pub record Live (m : Memory) (next : ℕ) (e : Entry) : Type 0 where
  pub handle_pos : 0 < e.handle
  pub handle_lt : e.handle < next
  pub ptr_pos : 0 < e.ptr
  pub owned : e.owned ≡ true
  pub block : List ℕ
  pub at : m e.ptr ≡ some block
  pub size : length block ≡ e.size

-- Two entries share neither handle nor block.
pub record Apart (e f : Entry) : Type 0 where
  pub handles : e.handle ≢ f.handle
  pub ptrs : e.ptr ≢ f.ptr

abbrev pub AllApart : Entry → List Entry → Type 0
AllApart e [] = Unit
AllApart e (f ∷ fs) = Apart e f × AllApart e fs

abbrev pub AllSound : Memory → ℕ → List Entry → Type 0
AllSound m next [] = Unit
AllSound m next (e ∷ es) = Live m next e × AllApart e es × AllSound m next es

pub record IsSound (s : Host) : Type 0 where
  pub room : length s.registry.entries ≤ s.registry.capacity
  pub next_pos : 0 < s.registry.next_handle
  pub sound : AllSound s.memory s.registry.next_handle s.registry.entries

pub Apart-sym : {e f : Entry} → Apart e f → Apart f e
Apart-sym a = record { handles = λ p. a.handles (sym p); ptrs = λ p. a.ptrs (sym p) }

-- Every entry of a list has the property, so every entry of a rearranged one has.
module _ (e : Entry) where
  AllApart-bubble :
      (x : Entry) (xs : List Entry) → Apart e x → AllApart e xs → AllApart e (bubble x xs)
  AllApart-bubble x [] a b = (a, tt)
  AllApart-bubble x (y ∷ ys) a (b, c) = (b, (a, c))

  pub AllApart-rotate : (xs : List Entry) → AllApart e xs → AllApart e (rotate xs)
  AllApart-rotate [] a = tt
  AllApart-rotate (x ∷ xs) (a, b) = AllApart-bubble x (rotate xs) a (AllApart-rotate xs b)

  AllApart-remove : (xs : List Entry) (i : ℕ) → AllApart e xs → AllApart e (remove_swapped xs i)
  AllApart-remove [] i a = tt
  AllApart-remove (x ∷ xs) zero (a, b) = AllApart-rotate xs b
  AllApart-remove (x ∷ xs) (suc i) (a, b) = (a, AllApart-remove xs i b)

  pub AllApart-append :
      (f : Entry) (xs : List Entry) → AllApart e xs → Apart e f → AllApart e (xs ++ f ∷ [])
  AllApart-append f [] a b = (b, tt)
  AllApart-append f (x ∷ xs) (a, c) b = (a, AllApart-append f xs c b)

module _ (m : Memory) (next : ℕ) where
  AllSound-bubble :
      (x : Entry) (xs : List Entry) → AllSound m next (x ∷ xs) → AllSound m next (bubble x xs)
  AllSound-bubble x [] a = a
  AllSound-bubble x (y ∷ ys) (l, (xy, xs), (k, ys', rest)) = (k, (Apart-sym xy, ys'), (l, xs, rest))

  AllSound-rotate : (xs : List Entry) → AllSound m next xs → AllSound m next (rotate xs)
  AllSound-rotate [] a = tt
  AllSound-rotate (x ∷ xs) (l, a, rest) =
      AllSound-bubble x (rotate xs) (l, AllApart-rotate x xs a, AllSound-rotate xs rest)

  pub AllSound-remove :
      (xs : List Entry) (i : ℕ) → AllSound m next xs → AllSound m next (remove_swapped xs i)
  AllSound-remove [] i a = tt
  AllSound-remove (x ∷ xs) zero (l, a, rest) = AllSound-rotate xs rest
  AllSound-remove (x ∷ xs) (suc i) (l, a, rest) =
      (l, AllApart-remove x xs i a, AllSound-remove xs i rest)

  -- A step that changes the memory and the counter keeps the list, if it keeps each entry.
  pub AllSound-map :
      (m' : Memory) (next' : ℕ) (xs : List Entry)
      → ((e : Entry) → Live m next e → Live m' next' e)
      → AllSound m next xs
      → AllSound m' next' xs
  AllSound-map m' next' [] f a = tt
  AllSound-map m' next' (x ∷ xs) f (l, a, rest) = (f x l, a, AllSound-map m' next' xs f rest)

length-bubble : (x : Entry) (xs : List Entry) → length (bubble x xs) ≡ suc (length xs)
length-bubble x [] = refl
length-bubble x (y ∷ ys) = refl

length-rotate : (xs : List Entry) → length (rotate xs) ≡ length xs
length-rotate [] = refl
length-rotate (x ∷ xs) = length-bubble x (rotate xs) ∙ ap suc (length-rotate xs)

pub length-remove : (xs : List Entry) (i : ℕ) → length (remove_swapped xs i) ≤ length xs
length-remove [] i = omega arith
length-remove (x ∷ xs) zero = omega (arith, length-rotate xs)
length-remove (x ∷ xs) (suc i) = omega (arith, length-remove xs i)
