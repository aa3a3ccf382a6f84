-- ===== src/PtrRegistry/Life.antt =====
-- What each operation of the registry does to the invariant and to the view.
use mathlib.Core.Option.{some-injective}
use duck_tiny_cc.Prelude.{
  ◌==◌, if◌then◌else◌, ==_iff, Bool-cases, length, get_or, ℕ, zero, suc, ◌+◌, ◌≤◌, ◌<◌, ◌≡◌, refl,
  sym, ap, ◌∙◌, ◌≢◌, inl, inr, none, some, List, [], ◌∷◌, ◌++◌, arith,
}
use duck_tiny_cc.PtrRegistry.{Entry, Memory, store, release, zero_entry}
use duck_tiny_cc.PtrRegistry.Sound.{Live, Apart, AllApart, AllSound, AllApart-append}
use duck_tiny_cc.PtrRegistry.View.{entry_of}

module _ (m : Memory) (n : ℕ) (p : ℕ) where
  pub Live-store :
      (b b' : List ℕ) (e : Entry)
      → m p ≡ some b
      → length b' ≡ length b
      → Live m n e
      → Live (store m p b') n e
  Live-store b b' e at same l = elim (Bool-cases (p == e.ptr)) [
    | inl y ↦ record {
      handle_pos = l.handle_pos;
      handle_lt = l.handle_lt;
      ptr_pos = l.ptr_pos;
      owned = l.owned;
      block = b';
      at = rw y;
      size =
          same
          ∙ ap length (some-injective b l.block (sym at ∙ rw ((==_iff p e.ptr).0 y) l.at))
          ∙ l.size;
    }
    | inr z ↦ record {
      handle_pos = l.handle_pos;
      handle_lt = l.handle_lt;
      ptr_pos = l.ptr_pos;
      owned = l.owned;
      block = l.block;
      at = rw z l.at;
      size = l.size;
    }
  ]

  Live-fresh :
      (b : List ℕ) (n' : ℕ) (e : Entry) → m p ≡ none → n ≤ n' → Live m n e → Live (store m p b) n' e
  Live-fresh b n' e unused le l = record {
    handle_pos = l.handle_pos;
    handle_lt = omega (arith, l.handle_lt);
    ptr_pos = l.ptr_pos;
    owned = l.owned;
    block = l.block;
    at = ground (arith, l.at);
    size = l.size;
  }

  Live-release : (e : Entry) → p ≢ e.ptr → Live m n e → Live (release m p) n e
  Live-release e ne l = record {
    handle_pos = l.handle_pos;
    handle_lt = l.handle_lt;
    ptr_pos = l.ptr_pos;
    owned = l.owned;
    block = l.block;
    at = ground (arith, l.at);
    size = l.size;
  }

  -- A fresh block shares no address with a live entry.
  Apart-fresh : (e f : Entry) → m p ≡ none → Live m n e → f.handle ≡ n → f.ptr ≡ p → Apart e f
  Apart-fresh e f unused l h q = record {
    handles = λ r. omega (arith, l.handle_lt);
    ptrs = λ r. ground (arith, l.at);
  }

  pub AllSound-append :
      (b : List ℕ) (xs : List Entry) (f : Entry)
      → m p ≡ none
      → AllSound m n xs
      → Live (store m p b) (n + 1) f
      → f.handle ≡ n
      → f.ptr ≡ p
      → AllSound (store m p b) (n + 1) (xs ++ f ∷ [])
  AllSound-append b [] f unused s l h q = (l, tt, tt)
  AllSound-append b (x ∷ xs) f unused (k, a, rest) l h q = (
    Live-fresh b (n + 1) x unused (omega arith) k,
    AllApart-append x f xs a (Apart-fresh x f unused k h q),
    AllSound-append b xs f unused rest l h q,
  )

  pub AllSound-release :
      (e : Entry) (xs : List Entry)
      → e.ptr ≡ p
      → AllApart e xs
      → AllSound m n xs
      → AllSound (release m p) n xs
  AllSound-release e [] q a s = tt
  AllSound-release e (x ∷ xs) q (b, a) (l, c, rest) =
      (Live-release x (λ r. b.ptrs (q ∙ r)) l, c, AllSound-release e xs q a rest)

pub get-Live :
    (m : Memory) (n : ℕ) (xs : List Entry) (i : ℕ)
    → AllSound m n xs
    → i < length xs
    → Live m n (get_or xs i zero_entry)
get-Live m n [] i s h = elim h [ ]
get-Live m n (x ∷ xs) zero (l, a, rest) h = l
get-Live m n (x ∷ xs) (suc i) (l, a, rest) h = get-Live m n xs i rest (omega arith)

-- A handle that the counter still has to give out is in no entry.
pub entry_of_next : (m : Memory) (n : ℕ) (xs : List Entry) → AllSound m n xs → entry_of xs n ≡ none
entry_of_next m n [] s = refl
entry_of_next m n (x ∷ xs) (l, a, rest) = ground (arith, l.handle_lt, entry_of_next m n xs rest)

-- No entry has the handle 0.
pub entry_of_zero : (m : Memory) (n : ℕ) (xs : List Entry) → AllSound m n xs → entry_of xs 0 ≡ none
entry_of_zero m n [] s = refl
entry_of_zero m n (x ∷ xs) (l, a, rest) = ground (arith, l.handle_pos, entry_of_zero m n xs rest)

pub entry_of-append :
    (xs : List Entry) (f : Entry) (j : ℕ)
    → entry_of xs f.handle ≡ none
    → entry_of (xs ++ f ∷ []) j ≡ (if f.handle == j then some f else entry_of xs j)
entry_of-append [] f j h = refl
entry_of-append (x ∷ xs) f j h = elim (Bool-cases (x.handle == f.handle)) [
  | inl y ↦ absurd (ground (arith))
  | inr z ↦ ground (arith, entry_of-append xs f j (rw z at h))
]
