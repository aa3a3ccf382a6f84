-- ===== src/PtrRegistry/Swap.antt =====
-- Removal from the table: the last entry takes the place of the removed one.
use mathlib.Core.Path.{subst}
use duck_tiny_cc.Prelude.{
  ◌==◌, if◌then◌else◌, Bool-cases, zero-==-suc, suc-==-suc, length, set, get_or, take, ℕ, zero, suc,
  ◌<◌, ◌≡◌, refl, sym, ap, inl, inr, List, [], ◌∷◌, arith,
}
use duck_tiny_cc.PtrRegistry.{swap_remove}

module _ {ℓ} {A : Type ℓ} where
  abbrev pub bubble : A → List A → List A
  bubble x [] = x ∷ []
  bubble x (l ∷ ls) = l ∷ x ∷ ls

  -- The last item brought to the front.
  abbrev pub rotate : List A → List A
  rotate [] = []
  rotate (x ∷ xs) = bubble x (rotate xs)

  abbrev pub remove_swapped : List A → ℕ → List A
  remove_swapped [] i = []
  remove_swapped (x ∷ xs) zero = rotate xs
  remove_swapped (x ∷ xs) (suc i) = x ∷ remove_swapped xs i

  rotate_lem :
      (d y : A) (ys : List A)
      → rotate (y ∷ ys) ≡ get_or (y ∷ ys) (length ys) d ∷ take (length ys) (y ∷ ys)
  rotate_lem d y [] = refl
  rotate_lem d y (z ∷ zs) = ap (bubble y) (rotate_lem d z zs)

  -- `swap_remove` with the last index given.
  abbrev swap_remove_at : A → List A → ℕ → ℕ → List A
  swap_remove_at d xs i last = take last (if i == last then xs else set xs i (get_or xs last d))

  swap_remove_at-eq :
      (d x : A) (xs : List A) (i : ℕ)
      → i < suc (length xs)
      → swap_remove_at d (x ∷ xs) i (length xs) ≡ remove_swapped (x ∷ xs) i
  swap_remove_at-eq d x [] zero h = refl
  swap_remove_at-eq d x (y ∷ ys) zero h = rw zero-==-suc (sym (rotate_lem d y ys))
  swap_remove_at-eq d x [] (suc i) h = absurd (omega arith)
  swap_remove_at-eq d x (y ∷ ys) (suc i) h = elim (Bool-cases (i == length ys)) [
    | inl e ↦ rw (suc-==-suc, e) (ap (◌∷◌ x) (rw e at (swap_remove_at-eq d y ys i (omega arith))))
    | inr e ↦ rw (suc-==-suc, e) (ap (◌∷◌ x) (rw e at (swap_remove_at-eq d y ys i (omega arith))))
  ]

  pub swap_remove-eq :
      (d : A) (xs : List A) (i : ℕ) → i < length xs → swap_remove d xs i ≡ remove_swapped xs i
  unfolding swap_remove
  swap_remove-eq d [] i h = elim h [ ]
  swap_remove-eq d (x ∷ xs) i h =
      subst (λ n. swap_remove_at d (x ∷ xs) i n ≡ remove_swapped (x ∷ xs) i) (omega arith)
        (swap_remove_at-eq d x xs i h)
