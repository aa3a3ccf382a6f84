-- ===== src/Result.antt =====
-- What the parsers of src/tcc_module.c answer that fill the error buffer: a value, or `false` with the
-- text that the buffer then holds. The buffer is empty before. `unfinished` is a loop or a recursion
-- that has used up its fuel.
use duck_tiny_cc.Prelude.{
  Bool-cases, length, codes, ℕ, ◌+◌, ◌≡◌, refl, inl, inr, Bool, true, false, Option, none, some,
  List, [], ◌∷◌,
}
use duck_tiny_cc.Strings.{Chars}
use duck_tiny_cc.Growth.{u64, Malloc}
use duck_tiny_cc.StringList.{Heap}
use duck_tiny_cc.Session.{strdup}

pub data Result {ℓ} (A : Type ℓ) : Type ℓ where
  parsed : A → Result A
  err : Chars → Result A
  unfinished : Result A

infixl 5 ◌>>=◌ ◌>>◌
abbrev pub ◌>>=◌ {ℓ κ} : {A : Type ℓ} {B : Type κ} → Result A → (A → Result B) → Result B
parsed a >>= f = f a
err text >>= f = err text
unfinished >>= f = unfinished

abbrev pub ◌>>◌ {ℓ} : {B : Type ℓ} → Result (Unit {0}) → Result B → Result B
m >> k = m >>= λ _. k

abbrev pub guard : Bool → Chars → Result (Unit {0})
guard true text = parsed tt
guard false text = err text

abbrev pub no_memory : Chars
no_memory = codes "out of memory"

-- The answers of the allocator. An allocation is addressed by the calls that it happens in, each by
-- its number in the function that makes it, the outermost first.
abbrev pub Calls : Type 0
Calls = List ℕ → Malloc

abbrev pub inside : Calls → ℕ → Calls
inside calls i path = calls (i ∷ path)

abbrev pub nth : Calls → ℕ → Malloc
nth calls i = calls (i ∷ [])

-- The allocations of a function that numbers them.
abbrev pub numbered : Calls → Heap
numbered calls i = calls (i ∷ [])

-- if (!copy) { tcc_set_error(error_buf, "out of memory"); ... }
abbrev pub copied : Option Chars → Result Chars
copied none = err no_memory
copied (some s) = parsed s

-- A predicate on the value, of an answer that did not run out of fuel.
pub data Holds {ℓ κ} {A : Type ℓ} (P : A → Type κ) : Result A → Type (ℓ ⊔ κ) where
  gives : {a : A} → P a → Holds P (parsed a)
  stops : {text : Chars} → Holds P (err text)

module _ {ℓ κ} {A : Type ℓ} {P : A → Type κ} where
  pub Holds->>= {ℓ' κ'} :
      {B : Type ℓ'} {Q : B → Type κ'} {m : Result A} {f : A → Result B}
      → Holds P m
      → ((a : A) → P a → Holds Q (f a))
      → Holds Q (m >>= f)
  Holds->>= (gives p) k = k _ p
  Holds->>= stops k = stops

  pub Holds-map {κ'} :
      {Q : A → Type κ'} {m : Result A} → Holds P m → ((a : A) → P a → Q a) → Holds Q m
  Holds-map (gives p) k = gives (k _ p)
  Holds-map stops k = stops

  pub Holds-guard :
      {m : Result A} (b : Bool) (text : Chars)
      → (b ≡ true → Holds P m)
      → Holds P (guard b text >> m)
  Holds-guard true text h = h refl
  Holds-guard false text h = stops

pub Holds-copied : (malloc : Malloc) (s : Chars) → Holds (λ a. a ≡ s) (copied (strdup malloc s))
unfolding strdup
Holds-copied malloc s = elim (Bool-cases (malloc (u64 (length s + 1)))) [
  | inl y ↦ rw y (gives refl)
  | inr n ↦ rw n stops
]
