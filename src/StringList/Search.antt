-- ===== src/StringList/Search.antt =====
-- The lists that `append_unique` builds: no string twice, in the order of the first occurrence.
use duck_tiny_cc.Prelude.{
  if◌then◌else◌, Bool-cases, ◌≡◌, refl, sym, ap, ◌∙◌, inl, inr, Bool, true, false, not, ◌&&◌, ◌||◌,
  List, [], ◌∷◌, ◌++◌, arith,
}
use duck_tiny_cc.Strings.{Chars, same}
use duck_tiny_cc.StringList.{contains_item}
use duck_tiny_cc.Strings.Laws.{same→≡, same-sym}

abbrev pub nonempty : List Chars → Bool
nonempty [] = true
nonempty ([] ∷ vs) = false
nonempty ((c ∷ v) ∷ vs) = nonempty vs

-- The strings with one more, unless it is there.
abbrev pub extend : List Chars → Chars → List Chars
extend ss v = if contains_item ss v then ss else ss ++ v ∷ []

abbrev pub extend_all : List Chars → List Chars → List Chars
extend_all ss [] = ss
extend_all ss (v ∷ vs) = extend_all (extend ss v) vs

abbrev pub distinct : List Chars → Bool
distinct [] = true
distinct (s ∷ ss) = not (contains_item ss s) && distinct ss

pub contains-append :
    (ss : List Chars) (v w : Chars)
    → contains_item (ss ++ v ∷ []) w ≡ (contains_item ss w || same v w)
unfolding contains_item
contains-append [] v w = ground arith
contains-append (s ∷ ss) v w = rw (contains-append ss v w) (ground arith)

pub distinct-append :
    (ss : List Chars) (v : Chars)
    → distinct ss ≡ true
    → contains_item ss v ≡ false
    → distinct (ss ++ v ∷ []) ≡ true
unfolding contains_item
distinct-append [] v h k = refl
distinct-append (s ∷ ss) v h k =
    rw (contains-append ss v s, same-sym v s, distinct-append ss v (grind arith) (grind arith))
      (grind arith)

distinct-extend : (ss : List Chars) (v : Chars) → distinct ss ≡ true → distinct (extend ss v) ≡ true
distinct-extend ss v h = elim (Bool-cases (contains_item ss v)) [
  | inl y ↦ rw y h
  | inr n ↦ rw n (distinct-append ss v h n)
]

pub distinct-extend_all :
    (ss vs : List Chars) → distinct ss ≡ true → distinct (extend_all ss vs) ≡ true
distinct-extend_all ss [] h = h
distinct-extend_all ss (v ∷ vs) h = distinct-extend_all (extend ss v) vs (distinct-extend ss v h)

pub same-contains :
    (ss : List Chars) (v w : Chars)
    → contains_item ss v ≡ true
    → same v w ≡ true
    → contains_item ss w ≡ true
same-contains ss v w h k = sym (ap (contains_item ss) (same→≡ v w k)) ∙ h

contains-extend :
    (ss : List Chars) (v w : Chars)
    → contains_item (extend ss v) w ≡ (contains_item ss w || same v w)
contains-extend ss v w = elim (Bool-cases (contains_item ss v)) [
  | inl y ↦ rw y (elim (Bool-cases (same v w)) [
    | inl z ↦ rw (z, same-contains ss v w y z) refl
    | inr z ↦ rw z (ground arith)
  ])
  | inr n ↦ rw n (contains-append ss v w)
]

pub contains-extend_all :
    (ss vs : List Chars) (w : Chars)
    → contains_item (extend_all ss vs) w ≡ (contains_item ss w || contains_item vs w)
unfolding contains_item
contains-extend_all ss [] w = ground arith
contains-extend_all ss (v ∷ vs) w =
    rw (contains-extend_all (extend ss v) vs w, contains-extend ss v w) (ground arith)
