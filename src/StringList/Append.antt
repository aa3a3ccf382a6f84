-- ===== src/StringList/Append.antt =====
-- What an append does to a string list, and what it keeps true of it.
use duck_tiny_cc.Prelude.{
  ltb, leb, ◌==◌, if◌then◌else◌, ltb→lt, leb→le, Bool-cases, length, length-append, ℕ, ◌+◌, ◌*◌,
  ◌^◌, ◌≤◌, ◌<◌, ◌≡◌, refl, ◌⊎◌, inl, inr, true, false, [], ◌∷◌, ◌++◌, arith,
}
use duck_tiny_cc.Growth.{
  u64, Reserved, reserved, failed, hangs, grow, rounds, Malloc, allocate, string_list_reserve,
}
use duck_tiny_cc.StringList.{StringList, Answer, store_copy, append}
use duck_tiny_cc.Strings.{Chars}

-- The capacity that the growth leads to: no more than twice the items and eight.
abbrev pub Fits : StringList → Type 0
Fits l = (length l.items ≤ l.capacity) × (l.capacity ≤ 2 * length l.items + 8)

abbrev pub Refuses : Malloc → Type 0
Refuses malloc = (bytes : ℕ) × (malloc bytes ≡ false)

-- What a reserve for one more item answers.
abbrev Room : Malloc → StringList → Reserved → Type 0
Room room l (reserved cap) = (length l.items + 1 ≤ cap) × (cap ≤ 2 * length l.items + 8)
Room room l failed = Refuses room
Room room l hangs = ⊥

Room-allocate :
    (room : Malloc) (l : StringList) (start : ℕ)
    → length l.items + 1 ≤ start
    → start ≤ 2 * length l.items + 8
    → Room room l (allocate room 8 (grow rounds (length l.items + 1) start))
unfolding grow
Room-allocate room l start h k = elim (Bool-cases (ltb start (length l.items + 1))) [
  | inl e ↦ absurd (omega (arith, ltb→lt start (length l.items + 1) e))
  | inr e ↦ rw e (elim (Bool-cases (room (u64 (8 * start)))) [
    | inl y ↦ rw y (h, k)
    | inr n ↦ rw n (u64 (8 * start), n)
  ])
]

Room-string_list_reserve :
    (room : Malloc) (l : StringList)
    → Fits l
    → length l.items < 2 ^ 60
    → Room room l (string_list_reserve room l.capacity (length l.items + 1))
unfolding string_list_reserve
Room-string_list_reserve room l (a, b) small =
    elim (Bool-cases (leb (length l.items + 1) l.capacity)) [
      | inl e ↦ rw e (leb→le _ _ e, b)
      | inr e ↦ rw e (
          let start : ℕ = (if l.capacity == 0 then 8 else u64 (l.capacity * 2)) in
          Room-allocate room l start (ground arith) (ground arith))
    ]

-- What an append answers: the string at the end, or the same strings and a reason.
abbrev pub Appends : Malloc → Malloc → StringList → Chars → Answer → Type 0
Appends room copy l v (true, k) = (k.items ≡ l.items ++ v ∷ []) × Fits k
Appends room copy l v (false, k) =
    (k.items ≡ l.items) × Fits k × ((v ≡ []) ⊎ (Refuses room ⊎ Refuses copy))

store_copy-Appends :
    (room copy : Malloc) (l : StringList) (v : Chars) (r : Reserved)
    → Fits l
    → Room room l r
    → Appends room copy l v (store_copy copy l v r)
store_copy-Appends room copy l v (reserved cap) (a, b) (h, k) =
    elim (Bool-cases (copy (u64 (length v + 1)))) [
      | inl y ↦ rw y (refl, rw (length-append l.items (v ∷ [])) (omega arith, omega arith))
      | inr n ↦ rw n (refl, (omega arith, k), inr (inr (u64 (length v + 1), n)))
    ]
store_copy-Appends room copy l v failed f h = (refl, f, inr (inl h))
store_copy-Appends room copy l v hangs f h = absurd h

-- An append to a list of less than 2 ^ 60 strings stores the string at the end, or keeps the
-- strings that are there; it fails only for an empty string or where an allocation is refused. In
-- both cases the array has room for what it holds and is no larger than twice that and eight.
pub append-Appends :
    (room copy : Malloc) (l : StringList) (v : Chars)
    → Fits l
    → length l.items < 2 ^ 60
    → Appends room copy l v (append room copy l v)
unfolding append
append-Appends room copy l [] f small = (refl, f, inl refl)
append-Appends room copy l (c ∷ v) f small =
    store_copy-Appends room copy l (c ∷ v)
      (string_list_reserve room l.capacity (length l.items + 1)) f
      (Room-string_list_reserve room l f small)
