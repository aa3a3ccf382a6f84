-- ===== src/PtrRegistry/Release.antt =====
-- `tcc_ptr_registry_free` against the view: it removes exactly the handle that it is given.
use duck_tiny_cc.Prelude.{
  ◌==◌, if◌then◌else◌, ==_iff, Bool-cases, length, get_or, ℕ, ◌<◌, ◌≡◌, refl, ap, ◌≢◌, inl, inr,
  Bool, true, false, Option, none, some, arith,
}
use duck_tiny_cc.PtrRegistry.{Entry, release, Host, zero_entry, find_index, find_handle, free}
use duck_tiny_cc.PtrRegistry.Swap.{remove_swapped, swap_remove-eq}
use duck_tiny_cc.PtrRegistry.Sound.{Live, IsSound, AllSound-remove, length-remove}
use duck_tiny_cc.PtrRegistry.View.{
  entry_of, block_of, view, Found, missing, found, find_index-Found, entry_of-remove, apart_removed,
  ptrs-Apart,
}
use duck_tiny_cc.PtrRegistry.Life.{AllSound-release, get-Live, entry_of_zero}

abbrev pub is_some {ℓ} : {A : Type ℓ} → Option A → Bool
is_some none = false
is_some (some a) = true

-- The state after the entry at index `i` is freed.
abbrev freed : Host → ℕ → Host
freed s i = record {
  registry = record s.registry { entries = remove_swapped s.registry.entries i };
  memory = release s.memory (get_or s.registry.entries i zero_entry).ptr;
}

pub view-zero : (s : Host) → IsSound s → view s 0 ≡ none
view-zero s v =
    ap (block_of s.memory)
      (entry_of_zero s.memory s.registry.next_handle s.registry.entries v.sound)

pub nonzero : (h : ℕ) → 0 < h → (h == 0) ≡ false
nonzero h p = ground arith

module _ (s : Host) (v : IsSound s) (h i : ℕ) (lt : i < length s.registry.entries) where
  abbrev e : Entry
  e = get_or s.registry.entries i zero_entry

  live : Live s.memory s.registry.next_handle e
  live = get-Live s.memory s.registry.next_handle s.registry.entries i v.sound lt

  free-found :
      find_index s.registry.entries h ≡ some i → e.handle ≡ h → free h s ≡ (true, freed s i)
  unfolding free find_handle
  free-found p q = rw (
    nonzero h (omega (arith, live.handle_pos)),
    p,
    live.owned,
    nonzero e.ptr live.ptr_pos,
    swap_remove-eq zero_entry s.registry.entries i lt,
  )

  freed-IsSound : IsSound (freed s i)
  freed-IsSound = record {
    room = omega (arith, v.room, length-remove s.registry.entries i);
    next_pos = v.next_pos;
    sound =
        AllSound-release s.memory s.registry.next_handle e.ptr e
          (remove_swapped s.registry.entries i) refl
          (apart_removed s.memory s.registry.next_handle s.registry.entries i v.sound lt)
          (AllSound-remove s.memory s.registry.next_handle s.registry.entries i v.sound);
  }

  view-freed_ne :
      (j : ℕ) (o : Option Entry)
      → entry_of s.registry.entries j ≡ o
      → entry_of s.registry.entries h ≡ some e
      → h ≢ j
      → block_of (release s.memory e.ptr) o ≡ block_of s.memory o
  view-freed_ne j none p q ne = refl
  view-freed_ne j (some f) p q ne = ground (
    arith,
    (ptrs-Apart s.memory s.registry.next_handle s.registry.entries h j e f v.sound q p ne).ptrs,
  )

  view-freed :
      (j : ℕ)
      → entry_of s.registry.entries h ≡ some e
      → e.handle ≡ h
      → view (freed s i) j ≡ (if h == j then none else view s j)
  view-freed j q r =
      rw (entry_of-remove s.memory s.registry.next_handle s.registry.entries i j v.sound lt, r)
        (elim (Bool-cases (h == j)) [
          | inl y ↦ rw y
          | inr z ↦
              rw z (view-freed_ne j (entry_of s.registry.entries j) refl q (λ same. ground arith))
        ])

-- The three things that `free` does: its answer, the view that it leaves, and the invariant.
pub record Frees (s : Host) (h : ℕ) (r : Bool × Host) : Type 0 where
  pub answer : r.0 ≡ is_some (view s h)
  pub view_after : (j : ℕ) → view r.1 j ≡ (if h == j then none else view s j)
  pub sound : IsSound r.1

Frees-missing : (s : Host) (h : ℕ) → IsSound s → view s h ≡ none → Frees s h (false, s)
Frees-missing s h v gone = record {
  answer = rw gone;
  view_after = λ j. elim (Bool-cases (h == j)) [
    | inl y ↦ rw y (rw ((==_iff h j).0 y) at gone)
    | inr z ↦ rw z
  ];
  sound = v;
}

free-missing : (s : Host) (h : ℕ) → find_index s.registry.entries h ≡ none → free h s ≡ (false, s)
unfolding free find_handle
free-missing s h p = ground arith

Frees-Found : (s : Host) (h : ℕ) → IsSound s → Found s.registry.entries h → Frees s h (free h s)
Frees-Found s h v (missing p q) =
    rw (free-missing s h p) (Frees-missing s h v (ap (block_of s.memory) q))
Frees-Found s h v (found i p lt q r) = rw (free-found s v h i lt p r) (record {
  answer = rw (q, (live s v h i lt).at);
  view_after = λ j. view-freed s v h i lt j q r;
  sound = freed-IsSound s v h i lt;
})

-- In a sound registry `free` answers true exactly when the handle has an allocation, and removes
-- that allocation and no other; the registry stays sound.
pub free_refines : (s : Host) (h : ℕ) → IsSound s → Frees s h (free h s)
free_refines s h v = Frees-Found s h v (find_index-Found s.registry.entries h)
