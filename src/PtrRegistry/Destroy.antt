-- ===== src/PtrRegistry/Destroy.antt =====
-- The size query, and the end of the registry: what `destroy` and the last `unref` release.
use duck_tiny_cc.Prelude.{
  ◌==◌, if◌then◌else◌, Bool-cases, length, get_or, ℕ, ◌+◌, ◌-◌, ◌^◌, ◌<◌, ◌≡◌, refl, ap, inl, inr,
  Bool, true, false, ◌&&◌, ◌||◌, Option, none, some, List, [], ◌∷◌, arith,
}
use duck_tiny_cc.PtrRegistry.{
  Entry, PtrRegistry, Memory, release, Host, zero_entry, find_index, find_handle, get_ptr_size,
  destroy, u32, unref,
}
use duck_tiny_cc.PtrRegistry.Sound.{Live, AllSound, IsSound}
use duck_tiny_cc.PtrRegistry.View.{
  entry_of, block_of, view, Found, missing, found, find_index-Found,
}
use duck_tiny_cc.PtrRegistry.Life.{get-Live}
use duck_tiny_cc.PtrRegistry.Release.{nonzero}

-- The size that `get_ptr_size` gives is the length of the allocation, at a non-NULL address.
pub data Sizes (s : Host) (h : ℕ) : Option (ℕ × ℕ) → Type 0 where
  unknown : view s h ≡ none → Sizes s h none
  known :
      (p : ℕ) (b : List ℕ)
      → 0 < p
      → s.memory p ≡ some b
      → view s h ≡ some b
      → Sizes s h (some (p, length b))

get_ptr_size-missing :
    (s : Host) (h : ℕ) → find_index s.registry.entries h ≡ none → get_ptr_size h s ≡ none
unfolding get_ptr_size find_handle
get_ptr_size-missing s h p = ground arith

get_ptr_size-found :
    (s : Host) (h i : ℕ)
    → 0 < h
    → find_index s.registry.entries h ≡ some i
    → get_ptr_size h s
      ≡ some (
        (get_or s.registry.entries i zero_entry).ptr,
        (get_or s.registry.entries i zero_entry).size,
      )
unfolding get_ptr_size find_handle
get_ptr_size-found s h i pos p = rw (nonzero h pos, p)

Sizes-Found :
    (s : Host) (h : ℕ) → IsSound s → Found s.registry.entries h → Sizes s h (get_ptr_size h s)
Sizes-Found s h v (missing p q) =
    rw (get_ptr_size-missing s h p) (unknown (ap (block_of s.memory) q))
Sizes-Found s h v (found i p lt q r) =
    rw (get_ptr_size-found s h i (omega (arith, live.handle_pos)) p, ← live.size)
      (known e.ptr live.block live.ptr_pos live.at (rw q live.at))
  where
    e : Entry
    e = get_or s.registry.entries i zero_entry

    live : Live s.memory s.registry.next_handle (get_or s.registry.entries i zero_entry)
    live = get-Live s.memory s.registry.next_handle s.registry.entries i v.sound lt

-- In a sound registry the size query answers exactly for the handles with an allocation, with an
-- address where that allocation stands and with its length.
pub get_ptr_size_refines : (s : Host) (h : ℕ) → IsSound s → Sizes s h (get_ptr_size h s)
get_ptr_size_refines s h v = Sizes-Found s h v (find_index-Found s.registry.entries h)

-- An address that some entry holds.
abbrev pub holds : List Entry → ℕ → Bool
holds [] q = false
holds (e ∷ es) q = e.ptr == q || holds es q

destroy_lem :
    (m : Memory) (n : ℕ) (es : List Entry) (m' : Memory) (q : ℕ)
    → AllSound m n es
    → destroy es m' q ≡ (if holds es q then none else m' q)
unfolding destroy
destroy_lem m n [] m' q s = refl
destroy_lem m n (e ∷ es) m' q (l, a, rest) =
    rw (l.owned, nonzero e.ptr l.ptr_pos, destroy_lem m n es (release m' e.ptr) q rest)
      (ground arith)

holds_of : (es : List Entry) (j : ℕ) (e : Entry) → entry_of es j ≡ some e → holds es e.ptr ≡ true
holds_of [] j e q = cc
holds_of (x ∷ xs) j e q = ground (arith, holds_of xs j e)

-- What `unref` does to a sound registry: the last reference takes the registry away and releases
-- every allocation that a handle shows and no address outside the table; any other lowers the count
-- and leaves table and memory as they are.
pub record Unrefs (s : Host) (r : Option PtrRegistry × Memory) : Type 0 where
  pub registry : r.0 ≡ (
      if s.registry.ref_count == 1
      then none
      else some (record s.registry { ref_count = u32 (s.registry.ref_count + 2 ^ 32 - 1) }))
  pub blocks :
      (j : ℕ)
      → block_of r.1 (entry_of s.registry.entries j)
        ≡ (if s.registry.ref_count == 1 then none else view s j)
  pub memory :
      (q : ℕ)
      → r.1 q
        ≡ (if s.registry.ref_count == 1 && holds s.registry.entries q then none else s.memory q)

released :
    (m : Memory) (n : ℕ) (es : List Entry) (j : ℕ) (o : Option Entry)
    → AllSound m n es
    → entry_of es j ≡ o
    → block_of (destroy es m) o ≡ none
released m n es j none s q = refl
released m n es j (some e) s q = rw (destroy_lem m n es m e.ptr s, holds_of es j e q)

-- The last `unref` of a sound registry releases every allocation and nothing else; any other only
-- lowers the count.
pub unref_lem : (s : Host) → IsSound s → Unrefs s (unref s)
unfolding unref
unref_lem s v = elim (Bool-cases (s.registry.ref_count == 1)) [
  | inl y ↦ rw y (record {
    registry = rw y;
    blocks = λ j. rw y (
        released s.memory s.registry.next_handle s.registry.entries j
          (entry_of s.registry.entries j) v.sound refl);
    memory = λ q.
        rw y (destroy_lem s.memory s.registry.next_handle s.registry.entries s.memory q v.sound);
  })
  | inr z ↦ rw z (record { registry = rw z; blocks = λ j. rw z; memory = λ q. rw z })
]
