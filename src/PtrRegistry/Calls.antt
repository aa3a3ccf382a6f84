-- ===== src/PtrRegistry/Calls.antt =====
-- What a sound registry gives back: written bytes, zeros after an allocation, nothing after a free.
use duck_tiny_cc.Prelude.{
  ltb, leb, ◌==◌, Bool-cases, length, splice, slice-splice, length-splice, ℕ, ◌+◌, ◌^◌, ◌≤◌, ◌<◌,
  ◌≡◌, refl, sym, ap, ◌∙◌, inl, inr, Bool, true, false, ◌&&◌, Option, none, some, List, arith,
}
use duck_tiny_cc.Growth.{Malloc}
use duck_tiny_cc.PtrRegistry.{Host, create, alloc, free, get_ptr_size, read, write}
use duck_tiny_cc.PtrRegistry.Sound.{IsSound}
use duck_tiny_cc.PtrRegistry.View.{view}
use duck_tiny_cc.PtrRegistry.Release.{is_some, Frees, free_refines}
use duck_tiny_cc.PtrRegistry.Access.{read_block, write_block, Writes, write_refines, read_refines}
use duck_tiny_cc.PtrRegistry.Alloc.{Allocs, refuses, gives, alloc_refines}
use duck_tiny_cc.PtrRegistry.Destroy.{Sizes, unknown, known, get_ptr_size_refines}

eq_self : (n : ℕ) → (n == n) ≡ true
eq_self n = ground arith

abbrev fits_in : ℕ → List ℕ → List ℕ → Bool
fits_in offset bytes b = ltb 0 (length bytes) && leb (offset + length bytes) (length b)

fits_in_bound :
    (offset : ℕ) (bytes b : List ℕ)
    → fits_in offset bytes b ≡ true
    → offset + length bytes ≤ length b
fits_in_bound offset bytes b y = ground arith

read_back_fits :
    (offset : ℕ) (bytes b : List ℕ)
    → fits_in offset bytes b ≡ true
    → read_block offset (length bytes) (some (splice offset bytes b)) ≡ some bytes
read_back_fits offset bytes b y =
    let bound : offset + length bytes ≤ length b = fits_in_bound offset bytes b y in
    rw (length-splice offset bytes b bound, y, slice-splice offset bytes b (omega arith))

read_back :
    (offset : ℕ) (bytes : List ℕ) (o : Option (List ℕ))
    → is_some (write_block offset bytes o) ≡ true
    → read_block offset (length bytes) (write_block offset bytes o) ≡ some bytes
read_back offset bytes none h = cc
read_back offset bytes (some b) h = elim (Bool-cases (fits_in offset bytes b)) [
  | inl y ↦ rw y (read_back_fits offset bytes b y)
  | inr z ↦ cc (rw z at h)
]

-- In a sound registry, a read of the span that a successful write has filled gives the bytes that
-- were written.
pub read-write :
    (s : Host) (h offset : ℕ) (bytes : List ℕ)
    → IsSound s
    → (write h offset bytes s).0 ≡ true
    → read h offset (length bytes) (write h offset bytes s).1 ≡ some bytes
read-write s h offset bytes v ok =
    read_refines (write h offset bytes s).1 h offset (length bytes) w.sound
    ∙ ap (read_block offset (length bytes)) (w.view_after h ∙ rw (eq_self h, ok))
    ∙ read_back offset bytes (view s h) (sym w.answer ∙ ok)
  where
    w : Writes s h offset bytes (write h offset bytes s)
    w = write_refines s h offset bytes v

sizes_none : (s : Host) (h : ℕ) (o : Option (ℕ × ℕ)) → view s h ≡ none → Sizes s h o → o ≡ none
sizes_none s h none e (unknown u) = refl
sizes_none s h (some _) e (known p b pos m v) = cc (e, v)

-- In a sound registry, once a handle is freed every read and write of it in the registry, a second
-- free, and the query for its address and size are refused, whatever the first free answered.
pub use_after_free :
    (s : Host) (h offset width : ℕ) (bytes : List ℕ)
    → IsSound s
    → (read h offset width (free h s).1 ≡ none)
      × ((write h offset bytes (free h s).1).0 ≡ false)
      × ((free h (free h s).1).0 ≡ false)
      × (get_ptr_size h (free h s).1 ≡ none)
use_after_free s h offset width bytes v = (
  read_refines (free h s).1 h offset width f.sound ∙ ap (read_block offset width) gone,
  (write_refines (free h s).1 h offset bytes f.sound).answer
      ∙ ap (λ o. is_some (write_block offset bytes o)) gone,
  (free_refines (free h s).1 h f.sound).answer ∙ ap is_some gone,
  sizes_none (free h s).1 h (get_ptr_size h (free h s).1) gone
      (get_ptr_size_refines (free h s).1 h f.sound),
)
  where
    f : Frees s h (free h s)
    f = free_refines s h v

    gone : view (free h s).1 h ≡ none
    gone = f.view_after h ∙ rw (eq_self h)

-- A call of the registry. The address and the answers of the allocator come from outside: an
-- address is not NULL and not in use, and a handle number is still left.
pub data Step (s : Host) : Host → Type 0 where
  allocs :
      (p : ℕ) (room : Malloc) (size : ℕ)
      → 0 < p
      → s.memory p ≡ none
      → s.registry.next_handle + 1 < 2 ^ 64
      → s.registry.capacity < 2 ^ 63
      → Step s (alloc (some p) room size s).1
  out_of_memory : (room : Malloc) (size : ℕ) → Step s (alloc none room size s).1
  frees : (h : ℕ) → Step s (free h s).1
  writes : (h offset : ℕ) (bytes : List ℕ) → Step s (write h offset bytes s).1

pub data Reach : Host → Type 0 where
  start : Reach (record { registry = create; memory = λ p. none })
  later : {s t : Host} → Reach s → Step s t → Reach t

Allocs-IsSound :
    (room : Malloc) (size : ℕ) (s : Host) (r : Option ℕ × Host) → Allocs room size s r → IsSound r.1
Allocs-IsSound room size s r (refuses why v same kept) = v
Allocs-IsSound room size s r (gives v pos new after) = v

Step-IsSound : {s t : Host} → Step s t → IsSound s → IsSound t
unfolding alloc
Step-IsSound {s} (allocs p room size pos unused more small) v =
    Allocs-IsSound room size s (alloc (some p) room size s)
      (alloc_refines s p room size v pos unused more small).1
Step-IsSound (out_of_memory room size) v = v
Step-IsSound {s} (frees h) v = (free_refines s h v).sound
Step-IsSound {s} (writes h offset bytes) v = (write_refines s h offset bytes v).sound

-- Whatever calls SQL makes, the registry is sound: handles are positive, below the counter and
-- distinct, each owns a block of its size, no two share a block, and the table holds them all.
pub Reach-IsSound : {s : Host} → Reach s → IsSound s
Reach-IsSound start = record { room = omega arith; next_pos = omega arith; sound = tt }
Reach-IsSound (later r st) = Step-IsSound st (Reach-IsSound r)
