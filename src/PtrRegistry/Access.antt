-- ===== src/PtrRegistry/Access.antt =====
-- `tcc_ptr_registry_read`, `_write` and `_get_ptr_size` against the view: bounds, round trip, frame.
use duck_tiny_cc.Prelude.{
  ltb, leb, ◌==◌, if◌then◌else◌, ==_iff, Bool-cases, length, get_or, slice, splice, length-splice,
  ℕ, ◌+◌, ◌≤◌, ◌<◌, ◌≡◌, refl, ◌≢◌, ◌↔◌, inl, inr, Bool, true, false, ◌&&◌, Option, none, some,
  List, arith,
}
use duck_tiny_cc.PtrRegistry.{
  Entry, store, Host, zero_entry, find_index, find_handle, span_fits, checked_entry, read, write,
}
use duck_tiny_cc.PtrRegistry.Sound.{Live, IsSound, AllSound-map}
use duck_tiny_cc.PtrRegistry.Release.{is_some, nonzero}
use duck_tiny_cc.PtrRegistry.Life.{Live-store, get-Live}
use duck_tiny_cc.PtrRegistry.View.{
  entry_of, block_of, view, Found, missing, found, find_index-Found, ptrs-Apart,
}

-- The span test does not wrap: it holds exactly when the span ends inside.
pub span_fits_iff :
    (len offset width : ℕ) → (span_fits len offset width ≡ true) ↔ (offset + width ≤ len)
unfolding span_fits
span_fits_iff len offset width = ground arith

-- The abstract operations, on the allocation that a handle has.
abbrev pub read_block : ℕ → ℕ → Option (List ℕ) → Option (List ℕ)
read_block offset width none = none
read_block offset width (some b) =
    if ltb 0 width && leb (offset + width) (length b) then some (slice offset width b) else none

abbrev pub write_block : ℕ → List ℕ → Option (List ℕ) → Option (List ℕ)
write_block offset bytes none = none
write_block offset bytes (some b) =
    if ltb 0 (length bytes) && leb (offset + length bytes) (length b)
    then some (splice offset bytes b)
    else none

abbrev NoEntry : (s : Host) (h : ℕ) → Type 0
NoEntry s h = (offset width : ℕ) → checked_entry h offset width s.registry ≡ none

checked-missing : (s : Host) (h : ℕ) → find_index s.registry.entries h ≡ none → NoEntry s h
unfolding checked_entry find_handle
checked-missing s h p offset width = ground arith

span_fits-eq : (len offset width : ℕ) → span_fits len offset width ≡ leb (offset + width) len
unfolding span_fits
span_fits-eq len offset width = ground arith

module _ (s : Host) (v : IsSound s) (h i : ℕ) (lt : i < length s.registry.entries) where
  abbrev e : Entry
  e = get_or s.registry.entries i zero_entry

  live : Live s.memory s.registry.next_handle e
  live = get-Live s.memory s.registry.next_handle s.registry.entries i v.sound lt

  checked-found :
      (offset width : ℕ)
      → find_index s.registry.entries h ≡ some i
      → e.handle ≡ h
      → checked_entry h offset width s.registry
        ≡ (if ltb 0 width && leb (offset + width) (length live.block) then some e else none)
  unfolding checked_entry find_handle
  checked-found offset width p q =
      rw
        (
          nonzero h (omega (arith, live.handle_pos)),
          p,
          nonzero e.ptr live.ptr_pos,
          live.size,
          span_fits-eq e.size offset width,
        )
        (ground arith)

  abbrev fits : ℕ → ℕ → Bool
  fits offset width = ltb 0 width && leb (offset + width) (length live.block)

  read-found :
      (offset width : ℕ)
      → find_index s.registry.entries h ≡ some i
      → e.handle ≡ h
      → read h offset width s ≡ read_block offset width (some live.block)
  unfolding read
  read-found offset width p q =
      rw (read, checked-found offset width p q)
        (elim (Bool-cases (fits offset width)) [ inl y ↦ rw (y, live.at) | inr z ↦ rw z ])

  abbrev written : ℕ → List ℕ → Host
  written offset bytes = record s { memory = store s.memory e.ptr (splice offset bytes live.block) }

  write-found :
      (offset : ℕ) (bytes : List ℕ)
      → find_index s.registry.entries h ≡ some i
      → e.handle ≡ h
      → write h offset bytes s
        ≡ (if fits offset (length bytes) then (true, written offset bytes) else (false, s))
  unfolding write
  write-found offset bytes p q =
      rw (write, checked-found offset (length bytes) p q)
        (elim (Bool-cases (fits offset (length bytes))) [ inl y ↦ rw (y, live.at) | inr z ↦ rw z ])

  written-IsSound :
      (offset : ℕ) (bytes : List ℕ)
      → fits offset (length bytes) ≡ true
      → IsSound (written offset bytes)
  written-IsSound offset bytes y = record {
    room = v.room;
    next_pos = v.next_pos;
    sound =
        AllSound-map s.memory s.registry.next_handle
          (store s.memory e.ptr (splice offset bytes live.block)) s.registry.next_handle
          s.registry.entries
          (λ x l.
            Live-store s.memory s.registry.next_handle e.ptr live.block
              (splice offset bytes live.block) x live.at
              (length-splice offset bytes live.block (ground arith)) l)
          v.sound;
  }

  others_kept :
      (j : ℕ) (o : Option Entry) (b : List ℕ)
      → entry_of s.registry.entries j ≡ o
      → entry_of s.registry.entries h ≡ some e
      → h ≢ j
      → block_of (store s.memory e.ptr b) o ≡ block_of s.memory o
  others_kept j none b p q ne = refl
  others_kept j (some f) b p q ne = ground (
    arith,
    (ptrs-Apart s.memory s.registry.next_handle s.registry.entries h j e f v.sound q p ne).ptrs,
  )

  view-written :
      (j offset : ℕ) (bytes : List ℕ)
      → entry_of s.registry.entries h ≡ some e
      → view (written offset bytes) j
        ≡ (if h == j then some (splice offset bytes live.block) else view s j)
  view-written j offset bytes q = elim (Bool-cases (h == j)) [
    | inl y ↦ rw (y, ← (==_iff h j).0 y, q) (ground arith)
    | inr z ↦ rw z (
        others_kept j (entry_of s.registry.entries j) (splice offset bytes live.block) refl q
          (λ same. ground arith))
  ]

  view-written_if :
      (j offset : ℕ) (bytes : List ℕ)
      → entry_of s.registry.entries h ≡ some e
      → fits offset (length bytes) ≡ true
      → view (written offset bytes) j
        ≡ (if (h == j) && true then write_block offset bytes (view s h) else view s j)
  view-written_if j offset bytes q y =
      rw (view-written j offset bytes q, q, live.at, y)
        (elim (Bool-cases (h == j)) [ inl a ↦ rw a | inr z ↦ rw z ])

-- The three things that `write` does: its answer, the view that it leaves, and the invariant.
pub record Writes (s : Host) (h offset : ℕ) (bytes : List ℕ) (r : Bool × Host) : Type 0 where
  pub answer : r.0 ≡ is_some (write_block offset bytes (view s h))
  pub view_after :
      (j : ℕ)
      → view r.1 j ≡ (if (h == j) && r.0 then write_block offset bytes (view s h) else view s j)
  pub sound : IsSound r.1

write_block-some :
    (offset : ℕ) (bytes b : List ℕ)
    → (ltb 0 (length bytes) && leb (offset + length bytes) (length b)) ≡ true
    → write_block offset bytes (some b) ≡ some (splice offset bytes b)
write_block-some offset bytes b y = rw y

write-missing :
    (s : Host) (h offset : ℕ) (bytes : List ℕ)
    → find_index s.registry.entries h ≡ none
    → write h offset bytes s ≡ (false, s)
unfolding write
write-missing s h offset bytes p = rw (write, checked-missing s h p offset (length bytes))

read-missing :
    (s : Host) (h offset width : ℕ)
    → find_index s.registry.entries h ≡ none
    → read h offset width s ≡ none
unfolding read
read-missing s h offset width p = rw (read, checked-missing s h p offset width)

Writes-Found :
    (s : Host) (h offset : ℕ) (bytes : List ℕ)
    → IsSound s
    → Found s.registry.entries h
    → Writes s h offset bytes (write h offset bytes s)
Writes-Found s h offset bytes v (missing p q) =
    rw (write-missing s h offset bytes p)
      (record { answer = rw q; view_after = λ j. ground arith; sound = v })
Writes-Found s h offset bytes v (found i p lt q r) =
    rw (write-found s v h i lt offset bytes p r)
      (elim (Bool-cases (fits s v h i lt offset (length bytes))) [
        | inl y ↦ rw y (record {
          answer = rw (q, (live s v h i lt).at, y);
          view_after = λ j. view-written_if s v h i lt j offset bytes q y;
          sound = written-IsSound s v h i lt offset bytes y;
        })
        | inr z ↦ rw z (record {
          answer = rw (q, (live s v h i lt).at, z);
          view_after = λ j. ground arith;
          sound = v;
        })
      ])

-- In a sound registry `write` answers true exactly when the handle has an allocation and the span
-- is not empty and ends inside it; then the bytes of the span change and nothing else, and
-- otherwise nothing changes. The registry stays sound.
pub write_refines :
    (s : Host) (h offset : ℕ) (bytes : List ℕ)
    → IsSound s
    → Writes s h offset bytes (write h offset bytes s)
write_refines s h offset bytes v =
    Writes-Found s h offset bytes v (find_index-Found s.registry.entries h)

read_of_Found :
    (s : Host) (h offset width : ℕ)
    → IsSound s
    → Found s.registry.entries h
    → read h offset width s ≡ read_block offset width (view s h)
read_of_Found s h offset width v (missing p q) = rw (read-missing s h offset width p, q)
read_of_Found s h offset width v (found i p lt q r) =
    rw (read-found s v h i lt offset width p r, q, (live s v h i lt).at)

-- In a sound registry `read` gives the bytes of a span of the handle's allocation when the span is
-- not empty and ends inside it, and nothing otherwise.
pub read_refines :
    (s : Host) (h offset width : ℕ)
    → IsSound s
    → read h offset width s ≡ read_block offset width (view s h)
read_refines s h offset width v =
    read_of_Found s h offset width v (find_index-Found s.registry.entries h)
