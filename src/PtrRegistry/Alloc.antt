-- ===== src/PtrRegistry/Alloc.antt =====
-- `tcc_ptr_registry_alloc` against the view: a new handle for a block of zeros, or nothing at all.
use mathlib.Core.Path.{fun_ext}
use duck_tiny_cc.Prelude.{
  ◌==◌, if◌then◌else◌, ==_iff, Bool-cases, length, length-append, replicate, length-replicate, ℕ,
  ◌+◌, ◌^◌, ◌≤◌, ◌<◌, ◌≡◌, refl, ap, ◌⊎◌, inl, inr, true, false, Option, none, some, List, [], ◌∷◌,
  ◌++◌, arith,
}
use duck_tiny_cc.Growth.{Reserved, reserved, failed, hangs, Malloc, ptr_registry_reserve}
use duck_tiny_cc.Growth.Bounds.{Serves, reserve-Serves}
use duck_tiny_cc.PtrRegistry.{Entry, Memory, store, release, Host, take_handle, register, alloc}
use duck_tiny_cc.PtrRegistry.Sound.{IsSound}
use duck_tiny_cc.PtrRegistry.View.{entry_of, block_of, view, live_of}
use duck_tiny_cc.PtrRegistry.Life.{AllSound-append, entry_of_next, entry_of-append}

-- Why a call may be refused once `malloc` has answered: the size is 0, or the table cannot grow.
abbrev pub Refusal : Malloc → ℕ → Host → Type 0
Refusal room size s =
    (size ≡ 0) ⊎ (2 ^ 57 < length s.registry.entries + 1) ⊎ ((bytes : ℕ) × (room bytes ≡ false))

-- What a call of `alloc` may do: nothing, or one more allocation, under a handle that was free.
pub data Allocs (room : Malloc) (size : ℕ) (s : Host) : Option ℕ × Host → Type 0 where
  refuses :
      {t : Host}
      → Refusal room size s
      → IsSound t
      → t.registry ≡ s.registry
      → ((j : ℕ) → view t j ≡ view s j)
      → Allocs room size s (none, t)
  gives :
      {h : ℕ} {t : Host}
      → IsSound t
      → 0 < h
      → view s h ≡ none
      → ((j : ℕ) → view t j ≡ (if h == j then some (replicate size 0) else view s j))
      → Allocs room size s (some h, t)

-- A pointer from `malloc` and back: the memory is as it was.
release-store : (m : Memory) (p q : ℕ) (b : List ℕ) → m p ≡ none → release (store m p b) p q ≡ m q
release-store m p q b h = ground arith

take_handle_lem : (n : ℕ) → 0 < n → n + 1 < 2 ^ 64 → take_handle n ≡ (n, n + 1)
unfolding take_handle
take_handle_lem n pos small = ground arith

module _ (s : Host) (v : IsSound s) (room : Malloc) (p size : ℕ) (pos : 0 < p)
    (unused : s.memory p ≡ none) where
  abbrev undone : Host
  undone = record s { memory = release (store s.memory p (replicate size 0)) p }

  undone_lem : undone ≡ s
  undone_lem =
      ap (λ (m : Memory). record s { memory = m })
        (fun_ext λ q. release-store s.memory p q (replicate size 0) unused)

  Allocs-undone : Refusal room size s → Allocs room size s (none, undone)
  Allocs-undone why = rw undone_lem (refuses why v refl (λ j. refl))

  abbrev entry : Entry
  entry = record { handle = s.registry.next_handle; ptr = p; size = size; owned = true }

  abbrev after : ℕ → Host
  after c = record {
    registry = record s.registry {
      entries = s.registry.entries ++ entry ∷ [];
      capacity = c;
      next_handle = s.registry.next_handle + 1;
    };
    memory = store s.memory p (replicate size 0);
  }

  after-IsSound : (c : ℕ) → length s.registry.entries + 1 ≤ c → IsSound (after c)
  after-IsSound c fits = record {
    room = omega (arith, length-append s.registry.entries (entry ∷ []));
    next_pos = omega arith;
    sound =
        AllSound-append s.memory s.registry.next_handle p (replicate size 0) s.registry.entries
          entry unused v.sound
          (record {
            handle_pos = v.next_pos;
            handle_lt = omega arith;
            ptr_pos = pos;
            owned = refl;
            block = replicate size 0;
            at = ground arith;
            size = length-replicate size 0;
          })
          refl refl;
  }

  unseen :
      (o : Option Entry) (j : ℕ)
      → entry_of s.registry.entries j ≡ o
      → block_of (store s.memory p (replicate size 0)) o ≡ block_of s.memory o
  unseen none j q = refl
  unseen (some e) j q =
      ground (arith, (live_of s.memory s.registry.next_handle s.registry.entries j v.sound q).0.at)

  view-after :
      (c j : ℕ)
      → view (after c) j
        ≡ (if s.registry.next_handle == j then some (replicate size 0) else view s j)
  view-after c j =
      rw
        (entry_of-append s.registry.entries entry j
          (entry_of_next s.memory s.registry.next_handle s.registry.entries v.sound))
        (elim (Bool-cases (s.registry.next_handle == j)) [
          | inl y ↦ rw y (ground arith)
          | inr z ↦ rw z (unseen (entry_of s.registry.entries j) j refl)
        ])

  Allocs-after :
      (c : ℕ)
      → length s.registry.entries + 1 ≤ c
      → Allocs room size s (some s.registry.next_handle, after c)
  Allocs-after c fits =
      gives (after-IsSound c fits) v.next_pos
        (ap (block_of s.memory)
          (entry_of_next s.memory s.registry.next_handle s.registry.entries v.sound))
        (view-after c)

  -- The branches on the answer of the reserve function.
  abbrev branches : Reserved → Option ℕ × Host
  branches r = elim r [
    | reserved c ↦ (
      some (take_handle s.registry.next_handle).0,
      record {
        registry = register s.registry c p size;
        memory = store s.memory p (replicate size 0);
      },
    )
    | failed ↦ (none, undone)
    | hangs ↦ (none, undone)
  ]

  Allocs-branches :
      (r : Reserved)
      → Serves room s.registry.capacity (length s.registry.entries + 1) r
      → s.registry.next_handle + 1 < 2 ^ 64
      → Allocs room size s (branches r)
  Allocs-branches (reserved c) h more =
      rw (take_handle_lem s.registry.next_handle v.next_pos more) (Allocs-after c h.0)
  Allocs-branches failed (inl h) more = Allocs-undone (inr (inl h))
  Allocs-branches failed (inr h) more = Allocs-undone (inr (inr h))
  Allocs-branches hangs h more = absurd h

-- In a sound registry whose counter has not come to its end: where `malloc` answers NULL, nothing
-- changes; where it answers an address that is not in use, either `size` is 0 or the table cannot
-- grow, and nothing changes that a handle shows, or `alloc` returns a handle that showed nothing
-- before and now shows `size` zero bytes, all other handles being as they were. The registry stays
-- sound.
pub alloc_refines :
    (s : Host) (p : ℕ) (room : Malloc) (size : ℕ)
    → IsSound s
    → 0 < p
    → s.memory p ≡ none
    → s.registry.next_handle + 1 < 2 ^ 64
    → s.registry.capacity < 2 ^ 63
    → (alloc none room size s ≡ (none, s)) × Allocs room size s (alloc (some p) room size s)
unfolding alloc
alloc_refines s p room size v pos unused more small = (
  refl,
  elim (Bool-cases (size == 0)) [
    | inl y ↦ rw y (refuses (inl ((==_iff size 0).0 y)) v refl (λ j. refl))
    | inr z ↦ rw z (
        Allocs-branches s v room p size pos unused
          (ptr_registry_reserve room s.registry.capacity (length s.registry.entries + 1))
          (reserve-Serves room s.registry.capacity (length s.registry.entries + 1) small).0 more)
  ],
)
