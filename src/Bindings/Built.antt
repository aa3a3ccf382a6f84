-- ===== src/Bindings/Built.antt =====
-- What the builders of bindings put in their list.
use duck_tiny_cc.Prelude.{
  ltb, leb, ◌==◌, if◌then◌else◌, leb→le, Bool-cases, length, length-append, codes, ℕ, ◌+◌, ◌*◌, ◌/◌,
  ◌^◌, ◌≤◌, ◌<◌, ◌≡◌, refl, sym, ap, ◌∙◌, inl, inr, Option, none, some, List, [], ◌∷◌, ◌++◌,
  append_assoc, append-nil, arith,
}
use duck_tiny_cc.Strings.{Chars}
use duck_tiny_cc.Growth.{
  u64, u64_max, Grown, grown, endless, Reserved, reserved, failed, hangs, rounds, Malloc, allocate,
  helper_binding_list_reserve,
}
use duck_tiny_cc.Growth.Bounds.{Ends, Ends-grow_within, enough_rounds}
use duck_tiny_cc.Result.{
  Result, parsed, ◌>>=◌, Calls, nth, Holds, gives, stops, Holds->>=, Holds-map, Holds-guard,
  Holds-copied,
}
use duck_tiny_cc.FfiType.{type_to_token}
use duck_tiny_cc.Fields.{CField}
use duck_tiny_cc.Bindings.{
  Binding, BindingList, room_for, binding_list_add, prefixed, add_prefixed, format_cstr, add_format,
}

-- A function of that name, which is the same for C and for SQL.
abbrev pub helper : Chars → Chars → Chars → Chars → Chars → Binding
helper prefix return_type arg_types stability suffix = record {
  symbol = prefixed prefix suffix;
  sql_name = prefixed prefix suffix;
  return_type = return_type;
  arg_types_csv = arg_types;
  stability = stability;
}

abbrev pub place_helpers : Chars → Chars → List Binding
place_helpers prefix name =
    helper prefix (codes "u64") [] (codes "consistent") (codes "off_" ++ name)
    ∷ helper prefix (codes "ptr") (codes "ptr") (codes "consistent") (name ++ codes "_addr")
    ∷ []

abbrev pub array_helpers : Chars → Chars → Chars → List Binding
array_helpers prefix name token =
    helper prefix token (codes "ptr,u64") (codes "volatile")
      (codes "get_" ++ (name ++ codes "_elt"))
    ∷ helper prefix (codes "ptr") (codes "ptr,u64," ++ token) (codes "volatile")
        (codes "set_" ++ (name ++ codes "_elt"))
    ∷ place_helpers prefix name

abbrev pub value_helpers : Chars → Chars → Chars → List Binding
value_helpers prefix name token =
    helper prefix token (codes "ptr") (codes "volatile") (codes "get_" ++ name)
    ∷ helper prefix (codes "ptr") (codes "ptr," ++ token) (codes "volatile") (codes "set_" ++ name)
    ∷ []

-- The functions for a field: a getter and a setter, and for a field that is no bitfield its offset
-- and its address.
abbrev pub token_helpers : Chars → CField → Option Chars → List Binding
token_helpers prefix f none = []
token_helpers prefix f (some token) =
    if ltb 0 f.array_size
    then array_helpers prefix f.name token
    else value_helpers prefix f.name token
      ++ (if f.is_bitfield then [] else place_helpers prefix f.name)

abbrev pub all_helpers : Chars → List CField → List Binding
all_helpers prefix [] = []
all_helpers prefix (f ∷ fs) = token_helpers prefix f (type_to_token f.type) ++ all_helpers prefix fs

abbrev pub composite_helpers : Chars → List CField → List Binding
composite_helpers prefix fields =
    helper prefix (codes "u64") [] (codes "consistent") (codes "sizeof")
    ∷ helper prefix (codes "u64") [] (codes "consistent") (codes "alignof")
    ∷ helper prefix (codes "ptr") [] (codes "volatile") (codes "new")
    ∷ helper prefix (codes "void") (codes "ptr") (codes "volatile") (codes "free")
    ∷ all_helpers prefix fields

abbrev pub constant_helpers : Chars → List Chars → List Binding
constant_helpers prefix [] = []
constant_helpers prefix (c ∷ cs) =
    helper prefix (codes "i64") [] (codes "consistent") c ∷ constant_helpers prefix cs

abbrev pub enum_helpers : Chars → List Chars → List Binding
enum_helpers prefix constants =
    helper prefix (codes "u64") [] (codes "consistent") (codes "sizeof")
    ∷ constant_helpers prefix constants

-- The array has room for its items.
abbrev pub BindingsFit : BindingList → Type 0
BindingsFit l = (length l.items ≤ l.capacity) × (l.capacity < 2 ^ 64)

abbrev RoomFor : ℕ → Reserved → Type 0
RoomFor n (reserved c) = (n + 1 ≤ c) × (c < 2 ^ 64)
RoomFor n failed = Unit {0}
RoomFor n hangs = ⊥

RoomFor-allocate :
    (malloc : Malloc) (n start : ℕ) (g : Grown)
    → Ends (n + 1) start g
    → RoomFor n (allocate malloc 40 g)
RoomFor-allocate malloc n start (grown c) (p, q, r, e) = elim (Bool-cases (malloc (u64 (40 * c)))) [
  | inl y ↦ rw y (p, r)
  | inr m ↦ rw m tt
]
RoomFor-allocate malloc n start Grown.refused e = tt
RoomFor-allocate malloc n start endless e = e

RoomFor-reserve :
    (malloc : Malloc) (capacity n : ℕ)
    → capacity < 2 ^ 64
    → RoomFor n (helper_binding_list_reserve malloc capacity (n + 1))
unfolding helper_binding_list_reserve
RoomFor-reserve malloc capacity n small = elim (Bool-cases (leb (n + 1) capacity)) [
  | inl y ↦ rw y (leb→le (n + 1) capacity y, small)
  | inr m ↦ rw m (
      let start : ℕ = (if capacity == 0 then 16 else capacity) in
      let a : start < 2 ^ 64 = ground arith in
      let b : 0 < start = ground arith in
      RoomFor-allocate malloc n start _ (
        Ends-grow_within rounds (u64_max / (40 * 2)) (n + 1) start a (enough_rounds start b)
          (omega arith) (omega arith)))
]

room_for-Holds :
    (n : ℕ) (r : Reserved) → RoomFor n r → Holds (λ c. (n + 1 ≤ c) × (c < 2 ^ 64)) (room_for r)
room_for-Holds n (reserved c) h = gives h
room_for-Holds n failed h = stops
room_for-Holds n hangs h = absurd h

-- A list with more at its end.
abbrev pub Grows : BindingList → List Binding → BindingList → Type 0
Grows l bs k = (k.items ≡ l.items ++ bs) × BindingsFit k

pub Grows-then :
    {m : Result BindingList} {f : BindingList → Result BindingList} (l : BindingList)
    (bs cs : List Binding)
    → Holds (Grows l bs) m
    → ((k : BindingList) → BindingsFit k → Holds (Grows k cs) (f k))
    → Holds (Grows l (bs ++ cs)) (m >>= f)
Grows-then l bs cs h g = Holds->>= h λ k (e, p).
    Holds-map (g k p) λ j (d, q). (d ∙ (ap (λ x. x ++ cs) e ∙ append_assoc l.items bs cs), q)

pub Grows-refl : (l : BindingList) → BindingsFit l → Holds (Grows l []) (parsed l)
Grows-refl l h = gives (sym (append-nil l.items), h)

longer : (bs : List Binding) (b : Binding) (n : ℕ) → length bs + 1 ≤ n → length (bs ++ b ∷ []) ≤ n
longer bs b n h = omega (arith, h, length-append bs (b ∷ []))

binding_list_add-Grows :
    (calls : Calls) (l : BindingList) (b : Binding)
    → BindingsFit l
    → Holds (Grows l (b ∷ [])) (binding_list_add calls l b)
unfolding binding_list_add
binding_list_add-Grows calls l b (h, small) =
    Holds->>=
      (room_for-Holds (length l.items) _
        (RoomFor-reserve (nth calls 0) l.capacity (length l.items) small))
      λ n (p, q). Holds->>= (Holds-copied (nth calls 1) b.symbol) λ v d1.
        Holds->>= (Holds-copied (nth calls 2) b.sql_name) λ w d2.
          Holds->>= (Holds-copied (nth calls 3) b.return_type) λ x d3.
            Holds->>= (Holds-copied (nth calls 4) b.arg_types_csv) λ y d4.
              Holds->>= (Holds-copied (nth calls 5) b.stability)
                λ z d5. gives (rw (d1, d2, d3, d4, d5) refl, (longer l.items _ n p, q))

pub add_prefixed-Grows :
    (calls : Calls) (l : BindingList) (prefix suffix return_type arg_types stability : Chars)
    → BindingsFit l
    → Holds
        (Grows l (helper prefix return_type arg_types stability suffix ∷ []))
        (add_prefixed calls l prefix suffix return_type arg_types stability)
unfolding add_prefixed
add_prefixed-Grows calls l prefix suffix return_type arg_types stability h =
    Holds-guard (ltb (length (prefixed prefix suffix)) 512) _
      λ e. binding_list_add-Grows calls l (helper prefix return_type arg_types stability suffix) h

pub format_cstr-Holds : (size : ℕ) (s : Chars) → Holds (λ a. a ≡ s) (format_cstr size s)
unfolding format_cstr
format_cstr-Holds size s = elim (Bool-cases (ltb (length s) size)) [
  | inl y ↦ rw y (gives refl)
  | inr n ↦ rw n stops
]

pub add_format-Grows :
    (calls : Calls) (l : BindingList) (prefix return_type arg_types stability suffix : Chars)
    → BindingsFit l
    → Holds
        (Grows l (helper prefix return_type arg_types stability suffix ∷ []))
        (add_format calls l prefix return_type arg_types stability suffix)
unfolding add_format
add_format-Grows calls l prefix return_type arg_types stability suffix h =
    Holds->>= (format_cstr-Holds 512 suffix)
      λ s e. rw e (add_prefixed-Grows calls l prefix suffix return_type arg_types stability h)
